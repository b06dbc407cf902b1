-- ===== src/Economy/Ledger.antt =====
-- The calls that move money and goods of lib/local_economy_extension.cpp: economy_get_player_impl,
-- economy_move_money_impl, economy_buy_item_impl and economy_flush_impl.
-- `clock` is what std::time answers, and `written` what the file system answers to the save.
use Prim.Native.Nat.{bit_or}
use routine_linux_edition.Base.{
  ℕ, ◌+◌, ◌-◌, ◌%◌, ◌≤◌, Bool, true, false, not, ◌&&◌, ◌||◌, List, Option, none, some, leb, ltb,
  ◌==◌, if◌then◌else◌, get_or, set,
}
use routine_linux_edition.Base.Int.{ℤ, pos, pos_part, ◌+ℤ◌, ◌-ℤ◌, ◌*ℤ◌, ◌/ℤ◌, leb_ℤ, ltb_ℤ}
use routine_linux_edition.Base.Bytes.{Bytes, bytes_eq}
use routine_linux_edition.Base.Dict.{lookup, insert, erase, ensure, restore, at, is_none}
use routine_linux_edition.Economy.Status.{
  Status, ok, invalid_argument, insufficient_funds, self_transfer, storage_error,
  economy_item_count, maximum_transaction, u32_mod, u64_mod,
}
use routine_linux_edition.Economy.State.{
  Store, Player, new_player, GlobalPlayer, new_global_player, GuildDynamics, new_guild_dynamics,
}
use routine_linux_edition.Economy.Accounts.{
  key_for, valid_id, player_at, ensure_player, touch_global_player, add_bounded,
}
use routine_linux_edition.Economy.Limits.{save_locked}
pub mod Rollback
pub mod Liquid
pub mod Pays
mod Tests

-- What a call returns, and the state behind it.
abbrev pub Outcome : Type 0
Outcome = Status × Store

-- int64_t to uint64_t.
abbrev pub to_u64 : ℤ → ℕ
to_u64 (pos n) = n % u64_mod
to_u64 a = pos_part (a +ℤ pos u64_mod)

-- A new player that a refused call entered is taken out again.
abbrev pub forget : Bool → Bytes → Store → Store
forget is_new key s = record s { players = if is_new then erase key s.players else s.players }

-- One more action of the user, and the first achievement.
abbrev pub acted : GlobalPlayer → GlobalPlayer
acted g = record g {
  lifetime_actions = (g.lifetime_actions + 1) % u64_mod;
  achievements = bit_or g.achievements 1;
}

abbrev pub traded : ℤ → GlobalPlayer → GlobalPlayer
traded amount g = record g {
  lifetime_trade_cents = (g.lifetime_trade_cents + to_u64 amount) % u64_mod;
}

-- The player of a server that a call works on.
pub record Slot : Type 0 where
  pub guild_id : Bytes
  pub user_id : Bytes

abbrev pub slot_key : Slot → Bytes
slot_key slot = key_for slot.guild_id slot.user_id

-- The changed records of a call on one player, entered.
pub with_changes : Store → Slot → Player → GuildDynamics → GlobalPlayer → Store
with_changes entered slot player dynamics global = record entered {
  players = insert (slot_key slot) player entered.players;
  dynamics = insert slot.guild_id dynamics entered.dynamics;
  global_players = insert slot.user_id global entered.global_players;
}

-- The copies from before the changes, put back.
pub without_changes : Store → Store → Slot → Store → Store
without_changes before entered slot changed = record changed {
  players =
      restore (is_none (lookup (slot_key slot) before.players)) (slot_key slot)
        (at new_player (slot_key slot) entered.players) changed.players;
  global_players =
      restore (is_none (lookup slot.user_id before.global_players)) slot.user_id
        (at new_global_player slot.user_id before.global_players) changed.global_players;
  dynamics =
      insert slot.guild_id (at new_guild_dynamics slot.guild_id entered.dynamics) changed.dynamics;
}

-- The common end of the calls on one player: enter the changed records and save, or undo.
pub commit : Store → Store → Slot → Player → GuildDynamics → GlobalPlayer → Bool → Outcome
commit before entered slot player dynamics global written =
    let changed = with_changes entered slot player dynamics global in
    if save_locked changed written
    then (ok, changed)
    else (storage_error, without_changes before entered slot changed)

pub economy_get_player : Store → Bytes → Bytes → ℤ → Bool → Outcome × Option Player
economy_get_player s guild_id user_id clock written =
    let key = key_for guild_id user_id in
    let is_new = is_none (lookup key s.players) in
    let global_is_new = is_none (lookup user_id s.global_players) in
    let entered = ensure_player s guild_id user_id in
    let touched = record entered {
      global_players =
          insert user_id (touch_global_player entered user_id clock) entered.global_players;
    } in
    if not (valid_id guild_id) || not (valid_id user_id)
    then ((invalid_argument, s), none)
    else if (is_new || global_is_new) && not (save_locked touched written)
    then (
      (
        storage_error,
        record touched {
          players = if is_new then erase key touched.players else touched.players;
          global_players =
              restore global_is_new user_id (at new_global_player user_id s.global_players)
                touched.global_players;
        },
      ),
      none,
    )
    else ((ok, touched), some (player_at s guild_id user_id))

-- The wallet and the checking account behind a deposit or a withdrawal.
abbrev pub moved : Bool → ℤ → Player → Player
moved deposit amount p =
    if deposit
    then record p {
      wallet_cents = p.wallet_cents -ℤ amount;
      checking_cents = p.checking_cents +ℤ amount;
    }
    else record p {
      wallet_cents = p.wallet_cents +ℤ amount;
      checking_cents = p.checking_cents -ℤ amount;
    }

abbrev saved_up : Bool → ℤ → GuildDynamics → GuildDynamics
saved_up deposit amount d =
    if deposit then record d { saving_cents = add_bounded d.saving_cents (amount /ℤ 4) } else d

-- The arguments that are refused at once. The last is 1 for a deposit and 0 for a withdrawal.
pub bad_move : Bytes → Bytes → ℤ → ℤ → Bool
bad_move guild_id user_id amount direction =
    not (valid_id guild_id)
    || (not (valid_id user_id)
        || (leb_ℤ amount (pos 0)
            || (ltb_ℤ maximum_transaction amount
                || not (leb_ℤ (pos 0) direction && leb_ℤ direction (pos 1)))))

pub economy_move_money : Store → Bytes → Bytes → ℤ → ℤ → ℤ → Bool → Outcome
economy_move_money s guild_id user_id amount direction clock written =
    let slot : Slot = record { guild_id = guild_id; user_id = user_id } in
    let deposit = leb_ℤ (pos 1) direction in
    let player = player_at s guild_id user_id in
    let placed = ensure_player s guild_id user_id in
    let entered = record placed { dynamics = ensure new_guild_dynamics guild_id placed.dynamics } in
    if bad_move guild_id user_id amount direction
    then (invalid_argument, s)
    else if ltb_ℤ (if deposit then player.wallet_cents else player.checking_cents) amount
    then (
      insufficient_funds,
      forget (is_none (lookup (slot_key slot) s.players)) (slot_key slot) entered,
    )
    else commit s entered slot (moved deposit amount player)
        (saved_up deposit amount (at new_guild_dynamics guild_id s.dynamics))
        (acted (touch_global_player entered user_id clock)) written

-- The arguments that are refused at once.
pub bad_purchase : Bytes → Bytes → ℕ → ℕ → ℤ → Bool
bad_purchase guild_id user_id item_index quantity unit_price =
    not (valid_id guild_id)
    || (not (valid_id user_id)
        || (leb economy_item_count item_index
            || (quantity == 0
                || (ltb 100 quantity
                    || (leb_ℤ unit_price (pos 0)
                        || ltb_ℤ (maximum_transaction /ℤ quantity) unit_price)))))

pub economy_buy_item : Store → Bytes → Bytes → ℕ → ℕ → ℤ → ℤ → Bool → Outcome
economy_buy_item s guild_id user_id item_index quantity unit_price clock written =
    let slot : Slot = record { guild_id = guild_id; user_id = user_id } in
    let total = unit_price *ℤ pos quantity in
    let player = player_at s guild_id user_id in
    let placed = ensure_player s guild_id user_id in
    let entered = record placed { dynamics = ensure new_guild_dynamics guild_id placed.dynamics } in
    let held = get_or 0 player.items item_index in
    let dynamics = at new_guild_dynamics guild_id s.dynamics in
    if bad_purchase guild_id user_id item_index quantity unit_price
    then (invalid_argument, s)
    else if ltb_ℤ player.wallet_cents total
    then (
      insufficient_funds,
      forget (is_none (lookup (slot_key slot) s.players)) (slot_key slot) placed,
    )
    else if ltb (u32_mod - 1 - quantity) held
    then (invalid_argument, placed)
    else commit s entered slot
        (record player {
          wallet_cents = player.wallet_cents -ℤ total;
          items = set player.items item_index (held + quantity);
        })
        (record dynamics { spending_cents = add_bounded dynamics.spending_cents total })
        (traded total (acted (touch_global_player entered user_id clock))) written

pub economy_flush : Store → Bool → Status
economy_flush s written = if save_locked s written then ok else storage_error
