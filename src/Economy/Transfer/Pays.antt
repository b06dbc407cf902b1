-- ===== src/Economy/Transfer/Pays.antt =====
-- What a transfer that is accepted moves.
use mathlib.Core.Bool.{false≢true}
use routine_linux_edition.Base.{◌≡◌, sym, ◌∙◌, ◌≢◌, Bool, true, false, some, arith, if◌then◌else◌}
use routine_linux_edition.Base.Int.{ℤ, ltb_ℤ, int_laws, int_tests, ends, ◌≤ℤ◌, ◌+ℤ◌, ◌-ℤ◌}
use routine_linux_edition.Base.Bytes.{Bytes, bytes_eq, bytes_eq_iff}
use routine_linux_edition.Base.Dict.{at-known, ensure-known, lookup, insert, lookup-insert}
use routine_linux_edition.Economy.Status.{ok, maximum_transaction}
use routine_linux_edition.Economy.State.{Store, Player}
use routine_linux_edition.Economy.Accounts.{key_for, fresh_player, player_at, ensure_player}
use routine_linux_edition.Economy.Accounts.Keys.{key_for_users}
use routine_linux_edition.Economy.Limits.{save_locked}
use routine_linux_edition.Economy.Ledger.Liquid.{liquid, liquid-insert}
use routine_linux_edition.Economy.Transfer.{bad_transfer, transferred, economy_transfer}

-- What an accepted transfer has passed, and where it ends.
record Accepted (s : Store) (g from_user to_user : Bytes) (amount clock clock' : ℤ) (written : Bool)
    : Type 0 where
  good : bad_transfer g from_user to_user amount ≡ false
  other : bytes_eq from_user to_user ≡ false
  covered : ltb_ℤ (player_at s g from_user).wallet_cents amount ≡ false
  room :
      ltb_ℤ
        (maximum_transaction -ℤ amount)
        (player_at (ensure_player s g from_user) g to_user).wallet_cents
      ≡ false
  saved : save_locked (transferred s g from_user to_user amount clock clock') written ≡ true
  result :
      (economy_transfer s g from_user to_user amount clock clock' written).1
      ≡ transferred s g from_user to_user amount clock clock'

accepted :
    (s : Store) (guild_id from_user to_user : Bytes) (amount clock clock' : ℤ) (written : Bool)
    → (economy_transfer s guild_id from_user to_user amount clock clock' written).0 ≡ ok
    → Accepted s guild_id from_user to_user amount clock clock' written
unfolding economy_transfer
accepted s guild_id from_user to_user amount clock clock' written h = record {
  good = ground arith;
  other = ground arith;
  covered = ground arith;
  room = ground arith;
  saved = ground arith;
  result = ground arith;
}

known_players :
    (s : Store) (g from_user to_user : Bytes) (p q : Player)
    → lookup (key_for g from_user) s.players ≡ some p
    → lookup (key_for g to_user) s.players ≡ some q
    → (player_at s g from_user ≡ p) × (player_at (ensure_player s g from_user) g to_user ≡ q)
unfolding player_at ensure_player
known_players s g from_user to_user p q hp hq = (
  at-known _ p _ s.players hp,
  rw (ensure-known (fresh_player s g) p (key_for g from_user) s.players hp)
      (at-known _ q _ s.players hq),
)

placed_players :
    (s : Store) (g from_user to_user : Bytes) (p q : Player)
    → lookup (key_for g from_user) s.players ≡ some p
    → lookup (key_for g to_user) s.players ≡ some q
    → (ensure_player (ensure_player s g from_user) g to_user).players ≡ s.players
unfolding ensure_player
placed_players s g from_user to_user p q hp hq =
    rw (ensure-known (fresh_player s g) p (key_for g from_user) s.players hp)
      (ensure-known _ q (key_for g to_user) s.players hq)

transferred_players :
    (s : Store) (g from_user to_user : Bytes) (amount clock clock' : ℤ) (p q : Player)
    → lookup (key_for g from_user) s.players ≡ some p
    → lookup (key_for g to_user) s.players ≡ some q
    → (transferred s g from_user to_user amount clock clock').players
      ≡ insert
          (key_for g to_user)
          (record q { wallet_cents = q.wallet_cents +ℤ amount })
          (insert
            (key_for g from_user)
            (record p { wallet_cents = p.wallet_cents -ℤ amount })
            s.players)
unfolding transferred
transferred_players s g from_user to_user amount clock clock' p q hp hq =
    let known = known_players s g from_user to_user p q hp hq in
    rw (known.0, known.1, placed_players s g from_user to_user p q hp hq)

-- When a transfer between two players who are known answers OK, the sender had the amount and the
-- recipient had room for it, the amount has moved from one wallet to the other, no other player
-- changes, and the money of all players together stays the same.
pub economy_transfer_pays :
    (s : Store) (guild_id from_user to_user : Bytes) (amount clock clock' : ℤ) (written : Bool)
    (p q : Player)
    → (economy_transfer s guild_id from_user to_user amount clock clock' written).0 ≡ ok
    → lookup (key_for guild_id from_user) s.players ≡ some p
    → lookup (key_for guild_id to_user) s.players ≡ some q
    → let t = (economy_transfer s guild_id from_user to_user amount clock clock' written).1 in
      (amount ≤ℤ p.wallet_cents)
      × (q.wallet_cents ≤ℤ maximum_transaction -ℤ amount)
      × ((j : Bytes)
          → lookup j t.players ≡ (
              if bytes_eq j (key_for guild_id to_user)
              then some (record q { wallet_cents = q.wallet_cents +ℤ amount })
              else if bytes_eq j (key_for guild_id from_user)
              then some (record p { wallet_cents = p.wallet_cents -ℤ amount })
              else lookup j s.players))
      × (liquid t.players ≡ liquid s.players)
economy_transfer_pays s guild_id from_user to_user amount clock clock' written p q h hp hq =
    let a = accepted s guild_id from_user to_user amount clock clock' written h in
    let known = known_players s guild_id from_user to_user p q hp hq in
    let sk = key_for guild_id from_user in
    let rk = key_for guild_id to_user in
    let p' : Player = record p { wallet_cents = p.wallet_cents -ℤ amount } in
    let q' : Player = record q { wallet_cents = q.wallet_cents +ℤ amount } in
    let ne : rk ≢ sk = λ e. false≢true (
      sym a.other
      ∙ (bytes_eq_iff from_user to_user).1 (sym (key_for_users guild_id to_user from_user e))) in
    let players = transferred_players s guild_id from_user to_user amount clock clock' p q hp hq in
    let kept : lookup rk (insert sk p' s.players) ≡ some q =
      rw lookup-insert (ground (arith, bytes_eq_iff rk sk)) in
    (
      omega (int_tests, rw known.0 at a.covered),
      omega (int_tests, rw known.1 at a.room),
      λ j. rw (a.result, players) (simp lookup-insert),
      rw (a.result, players)
          (omega (
            int_laws,
            ends _ _ (liquid-insert sk p' p s.players hp),
            ends _ _ (liquid-insert rk q' q (insert sk p' s.players) kept),
          )),
    )
