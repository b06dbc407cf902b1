-- ===== src/Economy/Worth/Tests.antt =====
-- A small server.
use routine_linux_edition.Base.{◌≤◌, [], ◌∷◌, length}
use routine_linux_edition.Base.Int.{pos}
use routine_linux_edition.Base.Bytes.{bytes}
use routine_linux_edition.Economy.Status.{max_leaderboard}
use routine_linux_edition.Economy.State.{
  Store, empty_store, new_player, PropertyAsset, new_property_asset,
}
use routine_linux_edition.Economy.Accounts.{key_for}
use routine_linux_edition.Economy.Worth.Leaderboard.{
  IsRanked, economy_leaderboard, economy_leaderboard-IsRanked,
}

abbrev house : PropertyAsset
house = record new_property_asset { guild_id = bytes "1"; owner_id = bytes "2"; tier = 2 }

abbrev village : Store
village = record empty_store {
  players =
      (key_for (bytes "1") (bytes "2"), record new_player { wallet_cents = pos 70 })
      ∷ (key_for (bytes "1") (bytes "3"), record new_player { wallet_cents = pos 90 })
      ∷ [];
  properties = house ∷ [];
}

economy_leaderboard-IsRanked_example :
    IsRanked (economy_leaderboard village (bytes "1") 5)
    × (length (economy_leaderboard village (bytes "1") 5) ≤ 5)
    × (length (economy_leaderboard village (bytes "1") 5) ≤ max_leaderboard)
economy_leaderboard-IsRanked_example = economy_leaderboard-IsRanked village (bytes "1") 5
