-- ===== src/Economy/Transfer/Tests.antt =====
-- Two players of a small server.
use routine_linux_edition.Base.{◌≡◌, refl, true, false, some, [], ◌∷◌, if◌then◌else◌}
use routine_linux_edition.Base.Int.{pos, ◌+ℤ◌, ◌-ℤ◌, ◌*ℤ◌, ◌/ℤ◌, ◌≤ℤ◌}
use routine_linux_edition.Base.Bytes.{Bytes, bytes, bytes_eq}
use routine_linux_edition.Base.Dict.{lookup, insert, ensure}
use routine_linux_edition.Economy.Status.{maximum_transaction}
use routine_linux_edition.Economy.State.{Store, empty_store, Player, new_player}
use routine_linux_edition.Economy.Accounts.{
  key_for, valid_id, ensure_player, player_at, digits_from, touch_global_player, add_bounded,
}
use routine_linux_edition.Economy.Limits.{
  save_locked, state_invariants_hold, sizes_hold, player_holds, chaos_holds, advanced_holds,
  order_holds, dynamics_holds,
}
use routine_linux_edition.Economy.Ledger.Rollback.{IsAtomic}
use routine_linux_edition.Economy.Ledger.Liquid.{liquid}
use routine_linux_edition.Economy.Transfer.{economy_transfer, transferred, bad_transfer}
use routine_linux_edition.Economy.Transfer.Moves.{economy_transfer-IsAtomic}
use routine_linux_edition.Economy.Transfer.Pays.{economy_transfer_pays}

abbrev ann : Player
ann = record new_player { wallet_cents = pos 5_000 }

abbrev bob : Player
bob = record new_player { wallet_cents = pos 70 }

abbrev town : Store
town = record empty_store {
  players = (key_for (bytes "1") (bytes "2"), ann) ∷ (key_for (bytes "1") (bytes "3"), bob) ∷ [];
}

economy_transfer-IsAtomic_example :
    IsAtomic town
      (economy_transfer town (bytes "1") (bytes "2") (bytes "3") (pos 500) (pos 9) (pos 9) false)
economy_transfer-IsAtomic_example =
    economy_transfer-IsAtomic town (bytes "1") (bytes "2") (bytes "3") (pos 500) (pos 9) (pos 9)
      false

abbrev behind : Store
behind =
    (economy_transfer town (bytes "1") (bytes "2") (bytes "3") (pos 500) (pos 9) (pos 9) true).1

economy_transfer_pays_example :
    (pos 500 ≤ℤ ann.wallet_cents)
    × (bob.wallet_cents ≤ℤ maximum_transaction -ℤ pos 500)
    × ((j : Bytes)
        → lookup j behind.players ≡ (
            if bytes_eq j (key_for (bytes "1") (bytes "3"))
            then some (record bob { wallet_cents = bob.wallet_cents +ℤ pos 500 })
            else if bytes_eq j (key_for (bytes "1") (bytes "2"))
            then some (record ann { wallet_cents = ann.wallet_cents -ℤ pos 500 })
            else lookup j town.players))
    × (liquid behind.players ≡ liquid town.players)
unfolding economy_transfer bad_transfer transferred valid_id digits_from key_for bytes_eq lookup
    insert player_at ensure_player touch_global_player add_bounded save_locked state_invariants_hold
    sizes_hold player_holds chaos_holds advanced_holds order_holds dynamics_holds ◌+ℤ◌ ◌-ℤ◌ ◌*ℤ◌
    ◌/ℤ◌ ensure
economy_transfer_pays_example =
    economy_transfer_pays town (bytes "1") (bytes "2") (bytes "3") (pos 500) (pos 9) (pos 9) true
      ann bob refl refl refl
