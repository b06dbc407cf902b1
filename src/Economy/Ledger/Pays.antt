-- ===== src/Economy/Ledger/Pays.antt =====
-- What a deposit, a withdrawal or a purchase that is accepted does to the player.
use routine_linux_edition.Base.{
  ℕ, ◌+◌, ◌-◌, ◌≤◌, ◌<◌, ◌≡◌, refl, sym, Bool, true, false, some, arith, ltb→le, if◌then◌else◌, ltb,
  get_or, set,
}
use routine_linux_edition.Base.Int.{ℤ, pos, ◌+ℤ◌, ◌-ℤ◌, ◌*ℤ◌, ◌≤ℤ◌, leb_ℤ, ltb_ℤ, ends, int_laws}
use routine_linux_edition.Base.Bytes.{Bytes, bytes_eq}
use routine_linux_edition.Base.Dict.{lookup, insert, lookup-insert, at-known, ensure-known}
use routine_linux_edition.Economy.Status.{ok, u32_mod}
use routine_linux_edition.Economy.State.{Store, Player}
use routine_linux_edition.Economy.Accounts.{key_for, player_at, ensure_player, fresh_player}
use routine_linux_edition.Economy.Ledger.{
  commit, with_changes, moved, economy_move_money, economy_buy_item, bad_purchase,
}
use routine_linux_edition.Economy.Ledger.Liquid.{liquid, worth, liquid-insert}

pub player_at-known :
    (s : Store) (g u : Bytes) (p : Player)
    → lookup (key_for g u) s.players ≡ some p
    → player_at s g u ≡ p
unfolding player_at
player_at-known s g u p h = at-known _ p _ s.players h

pub ensure_player-known :
    (s : Store) (g u : Bytes) (p : Player)
    → lookup (key_for g u) s.players ≡ some p
    → (ensure_player s g u).players ≡ s.players
unfolding ensure_player
ensure_player-known s g u p h = ensure-known (fresh_player s g) p (key_for g u) s.players h

worth-moved : (deposit : Bool) (amount : ℤ) (p : Player) → worth (moved deposit amount p) ≡ worth p
worth-moved true amount p = omega int_laws
worth-moved false amount p = omega int_laws

moved_parts :
    (deposit : Bool) (amount : ℤ) (p : Player)
    → moved deposit amount p ≡ record p {
      wallet_cents = if deposit then p.wallet_cents -ℤ amount else p.wallet_cents +ℤ amount;
      checking_cents = if deposit then p.checking_cents +ℤ amount else p.checking_cents -ℤ amount;
    }
moved_parts true amount p = refl
moved_parts false amount p = refl

-- What an accepted deposit or withdrawal has passed, and the players behind it.
move_accepted :
    (s : Store) (guild_id user_id : Bytes) (amount direction clock : ℤ) (written : Bool)
    → (economy_move_money s guild_id user_id amount direction clock written).0 ≡ ok
    → (ltb_ℤ
          (if leb_ℤ (pos 1) direction
            then (player_at s guild_id user_id).wallet_cents
            else (player_at s guild_id user_id).checking_cents)
          amount
        ≡ false)
      × ((economy_move_money s guild_id user_id amount direction clock written).1.players
          ≡ insert
              (key_for guild_id user_id)
              (moved (leb_ℤ (pos 1) direction) amount (player_at s guild_id user_id))
              (ensure_player s guild_id user_id).players)
unfolding economy_move_money commit with_changes
move_accepted s guild_id user_id amount direction clock written h = ground arith

-- When a deposit (a direction of one or more) or a withdrawal of a known player answers OK, the
-- account it is taken from held the amount, that account is less and the other is more by the
-- amount, nothing else of the player and no other player changes, and the money of all players
-- together stays the same.
pub economy_move_money_pays :
    (s : Store) (guild_id user_id : Bytes) (amount direction clock : ℤ) (written : Bool)
    (p : Player)
    → (economy_move_money s guild_id user_id amount direction clock written).0 ≡ ok
    → lookup (key_for guild_id user_id) s.players ≡ some p
    → let t = (economy_move_money s guild_id user_id amount direction clock written).1 in
      (amount ≤ℤ (if leb_ℤ (pos 1) direction then p.wallet_cents else p.checking_cents))
      × ((j : Bytes)
          → lookup j t.players ≡ (
              if bytes_eq j (key_for guild_id user_id)
              then some (record p {
                wallet_cents =
                    if leb_ℤ (pos 1) direction
                    then p.wallet_cents -ℤ amount
                    else p.wallet_cents +ℤ amount;
                checking_cents =
                    if leb_ℤ (pos 1) direction
                    then p.checking_cents +ℤ amount
                    else p.checking_cents -ℤ amount;
              })
              else lookup j s.players))
      × (liquid t.players ≡ liquid s.players)
economy_move_money_pays s guild_id user_id amount direction clock written p h hp =
    let key = key_for guild_id user_id in
    let deposit = leb_ℤ (pos 1) direction in
    let a = move_accepted s guild_id user_id amount direction clock written h in
    let known = player_at-known s guild_id user_id p hp in
    let players : (economy_move_money s guild_id user_id amount direction clock written).1.players
        ≡ insert key (moved deposit amount p) s.players =
      rw (a.1, known, ensure_player-known s guild_id user_id p hp) refl in
    let covered = rw known at a.0 in
    (
      ltb→le _ _ covered,
      λ j.
          rw (sym (moved_parts deposit amount p), players)
            (lookup-insert j key (moved deposit amount p) s.players),
      rw players (
          omega (
            int_laws,
            ends _ _ (liquid-insert key (moved deposit amount p) p s.players hp),
            ends _ _ (worth-moved deposit amount p),
          )),
    )

-- The player behind a purchase.
abbrev pub supplied : ℕ → ℕ → ℤ → Player → Player
supplied item_index quantity total p = record p {
  wallet_cents = p.wallet_cents -ℤ total;
  items = set p.items item_index (get_or 0 p.items item_index + quantity);
}

buy_accepted :
    (s : Store) (guild_id user_id : Bytes) (item_index quantity : ℕ) (unit_price clock : ℤ)
    (written : Bool)
    → (economy_buy_item s guild_id user_id item_index quantity unit_price clock written).0 ≡ ok
    → (ltb_ℤ (player_at s guild_id user_id).wallet_cents (unit_price *ℤ pos quantity) ≡ false)
      × (ltb (u32_mod - 1 - quantity) (get_or 0 (player_at s guild_id user_id).items item_index)
          ≡ false)
      × (bad_purchase guild_id user_id item_index quantity unit_price ≡ false)
      × ((economy_buy_item s guild_id user_id item_index quantity unit_price clock
            written).1.players
          ≡ insert
              (key_for guild_id user_id)
              (supplied item_index quantity
                (unit_price *ℤ pos quantity)
                (player_at s guild_id user_id))
              (ensure_player s guild_id user_id).players)
unfolding economy_buy_item commit with_changes
buy_accepted s guild_id user_id item_index quantity unit_price clock written h = ground arith

small_purchase :
    (guild_id user_id : Bytes) (item_index quantity : ℕ) (unit_price : ℤ)
    → bad_purchase guild_id user_id item_index quantity unit_price ≡ false
    → quantity ≤ 100
unfolding bad_purchase
small_purchase guild_id user_id item_index quantity unit_price h = ground arith

-- When a purchase of a known player answers OK, the wallet held the price, the price is taken from
-- it and the items are added, their number still below 2^32; no other player changes, and the money
-- of all players together falls by the price.
pub economy_buy_item_pays :
    (s : Store) (guild_id user_id : Bytes) (item_index quantity : ℕ) (unit_price clock : ℤ)
    (written : Bool) (p : Player)
    → (economy_buy_item s guild_id user_id item_index quantity unit_price clock written).0 ≡ ok
    → lookup (key_for guild_id user_id) s.players ≡ some p
    → let t =
        (economy_buy_item s guild_id user_id item_index quantity unit_price clock written).1 in
      let total = unit_price *ℤ pos quantity in
      (total ≤ℤ p.wallet_cents)
      × (get_or 0 p.items item_index + quantity < u32_mod)
      × ((j : Bytes)
          → lookup j t.players ≡ (
              if bytes_eq j (key_for guild_id user_id)
              then some (supplied item_index quantity total p)
              else lookup j s.players))
      × (liquid t.players +ℤ total ≡ liquid s.players)
economy_buy_item_pays s guild_id user_id item_index quantity unit_price clock written p h hp =
    let key = key_for guild_id user_id in
    let total = unit_price *ℤ pos quantity in
    let (rich, room, good, result) =
      buy_accepted s guild_id user_id item_index quantity unit_price clock written h in
    let known = player_at-known s guild_id user_id p hp in
    let players : (economy_buy_item s guild_id user_id item_index quantity unit_price clock
          written).1.players
        ≡ insert key (supplied item_index quantity total p) s.players =
      rw (result, known, ensure_player-known s guild_id user_id p hp) refl in
    let few = small_purchase guild_id user_id item_index quantity unit_price good in
    let held = ltb→le _ _ (rw known at room) in
    (
      ltb→le _ _ (rw known at rich),
      omega (arith, few, held),
      λ j. rw players (lookup-insert j key (supplied item_index quantity total p) s.players),
      rw players (
          omega (
            int_laws,
            ends _ _ (liquid-insert key (supplied item_index quantity total p) p s.players hp),
          )),
    )
