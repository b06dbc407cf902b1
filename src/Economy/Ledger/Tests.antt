-- ===== src/Economy/Ledger/Tests.antt =====
-- Calls of a player with 50 dollars, and calls that are refused or cannot be saved.
use routine_linux_edition.Base.{
  ◌+◌, ◌<◌, ◌≡◌, refl, true, false, some, [], ◌∷◌, if◌then◌else◌, get_or,
}
use routine_linux_edition.Base.Int.{pos, ◌+ℤ◌, ◌-ℤ◌, ◌*ℤ◌, ◌/ℤ◌, ◌≤ℤ◌}
use routine_linux_edition.Base.Bytes.{Bytes, bytes, bytes_eq}
use routine_linux_edition.Base.Dict.{lookup, insert, ensure}
use routine_linux_edition.Economy.Status.{u32_mod}
use routine_linux_edition.Economy.State.{Store, empty_store, Player, new_player}
use routine_linux_edition.Economy.Accounts.{
  key_for, valid_id, digits_from, player_at, ensure_player, touch_global_player, add_bounded,
}
use routine_linux_edition.Economy.Limits.{
  save_locked, state_invariants_hold, sizes_hold, player_holds, chaos_holds, advanced_holds,
  order_holds, dynamics_holds,
}
use routine_linux_edition.Economy.Ledger.{
  bad_move, bad_purchase, commit, with_changes, economy_move_money, economy_buy_item,
}
use routine_linux_edition.Economy.Ledger.Liquid.{liquid}
use routine_linux_edition.Economy.Ledger.Pays.{
  supplied, economy_move_money_pays, economy_buy_item_pays,
}
use routine_linux_edition.Economy.Ledger.Rollback.{IsAtomic, economy_move_money-IsAtomic}

abbrev ann : Player
ann = record new_player { wallet_cents = pos 5_000 }

abbrev town : Store
town = record empty_store { players = (key_for (bytes "1") (bytes "2"), ann) ∷ [] }

abbrev deposited : Store
deposited = (economy_move_money town (bytes "1") (bytes "2") (pos 500) (pos 1) (pos 9) true).1

economy_move_money_pays_example :
    (pos 500 ≤ℤ ann.wallet_cents)
    × ((j : Bytes)
        → lookup j deposited.players ≡ (
            if bytes_eq j (key_for (bytes "1") (bytes "2"))
            then some (record ann {
              wallet_cents = ann.wallet_cents -ℤ pos 500;
              checking_cents = ann.checking_cents +ℤ pos 500;
            })
            else lookup j town.players))
    × (liquid deposited.players ≡ liquid town.players)
unfolding economy_move_money bad_move commit with_changes valid_id digits_from key_for bytes_eq
    lookup insert ensure player_at ensure_player touch_global_player add_bounded save_locked
    state_invariants_hold sizes_hold player_holds chaos_holds advanced_holds order_holds
    dynamics_holds ◌+ℤ◌ ◌-ℤ◌ ◌*ℤ◌ ◌/ℤ◌
economy_move_money_pays_example =
    economy_move_money_pays town (bytes "1") (bytes "2") (pos 500) (pos 1) (pos 9) true ann refl
      refl

abbrev bought : Store
bought = (economy_buy_item town (bytes "1") (bytes "2") 0 3 (pos 100) (pos 9) true).1

economy_buy_item_pays_example :
    (pos 100 *ℤ pos 3 ≤ℤ ann.wallet_cents)
    × (get_or 0 ann.items 0 + 3 < u32_mod)
    × ((j : Bytes)
        → lookup j bought.players ≡ (
            if bytes_eq j (key_for (bytes "1") (bytes "2"))
            then some (supplied 0 3 (pos 100 *ℤ pos 3) ann)
            else lookup j town.players))
    × (liquid bought.players +ℤ pos 100 *ℤ pos 3 ≡ liquid town.players)
unfolding economy_buy_item bad_purchase commit with_changes valid_id digits_from key_for bytes_eq
    lookup insert ensure player_at ensure_player touch_global_player add_bounded save_locked
    state_invariants_hold sizes_hold player_holds chaos_holds advanced_holds order_holds
    dynamics_holds ◌+ℤ◌ ◌-ℤ◌ ◌*ℤ◌ ◌/ℤ◌
economy_buy_item_pays_example =
    economy_buy_item_pays town (bytes "1") (bytes "2") 0 3 (pos 100) (pos 9) true ann refl refl

economy_move_money-IsAtomic_example :
    IsAtomic empty_store
      (economy_move_money empty_store (bytes "1") (bytes "2") (pos 5) (pos 1) (pos 9) false)
economy_move_money-IsAtomic_example =
    economy_move_money-IsAtomic empty_store (bytes "1") (bytes "2") (pos 5) (pos 1) (pos 9) false
