-- ===== src/Economy/Snapshot/History.antt =====
-- record_snapshot of lib/local_economy_extension.cpp: the snapshots of a server and the points of its
-- players, one an hour and 168 at most of each.
use routine_linux_edition.Base.{
  ℕ, zero, suc, ◌+◌, ◌-◌, ◌≤◌, ◌≡◌, refl, Bool, true, false, not, ◌&&◌, List, [], ◌∷◌, ◌++◌, Option,
  none, some, ltb, if◌then◌else◌, length, drop, arith,
}
use routine_linux_edition.Base.Int.{ℤ, pos, ◌+ℤ◌, ◌-ℤ◌, leb_ℤ, ltb_ℤ}
use routine_linux_edition.Base.Bytes.{Bytes, bytes_eq, starts_with}
use routine_linux_edition.Base.Dict.{Dict, lookup, at}
use routine_linux_edition.Economy.State.{
  Store, Player, ChaosPlayer, new_chaos_player, AdvancedPlayer, new_advanced_player,
  BusinessProfile, GuildEconomy, new_guild_economy, EconomySnapshot, PlayerHistoryPoint,
}
use routine_linux_edition.Economy.Accounts.{prefix_of}
use routine_linux_edition.Economy.Worth.{
  portfolio_value, advanced_asset_value, property_equity, business_tangible_value,
}
use routine_linux_edition.Economy.Snapshot.{
  Citizen, citizen, mortgages_of, business_debt, calculate_snapshot,
}
pub mod Kept

module _ {ℓ} {A : Type ℓ} (test : A → Bool) where
  -- std::count_if
  unfoldable pub count : List A → ℕ
  count [] = 0
  count (x ∷ xs) = let rest = count xs in if test x then suc rest else rest

  -- list.erase(std::find_if(...))
  pub erase_first : List A → List A
  erase_first [] = []
  erase_first (x ∷ xs) = let rest = erase_first xs in if test x then xs else x ∷ rest

  pub erase_times : ℕ → List A → List A
  erase_times zero xs = xs
  erase_times (suc n) xs = erase_times n (erase_first xs)

  -- while (count > 168)
  pub trimmed : List A → List A
  trimmed xs = erase_times (count xs - 168) xs

abbrev pub of_guild : Bytes → EconomySnapshot → Bool
of_guild guild_id n = bytes_eq n.guild_id guild_id

abbrev pub of_player : Bytes → Bytes → PlayerHistoryPoint → Bool
of_player guild_id user_id p = bytes_eq p.guild_id guild_id && bytes_eq p.user_id user_id

-- The time of the last snapshot of a server, and zero where there is none.
pub latest_of : Bytes → ℤ → List EconomySnapshot → ℤ
latest_of guild_id latest [] = latest
latest_of guild_id latest (n ∷ snapshots) =
    latest_of guild_id (if of_guild guild_id n then n.timestamp else latest) snapshots

-- A player's point in the history.
pub point_of : Store → GuildEconomy → ℤ → Citizen → Player → PlayerHistoryPoint
point_of s guild now who wallet =
    let chaos = at new_chaos_player who.key s.chaos_players in
    let advanced = at new_advanced_player who.key s.advanced_players in
    let liquid =
      wallet.wallet_cents +ℤ wallet.checking_cents +ℤ chaos.savings_cents +ℤ chaos.hysa_cents in
    let invested =
      portfolio_value chaos guild
      +ℤ advanced_asset_value advanced guild
      +ℤ property_equity s who.guild_id who.user_id
      +ℤ business_tangible_value s who.guild_id who.user_id in
    record {
      guild_id = who.guild_id;
      user_id = who.user_id;
      timestamp = now;
      net_worth_cents = liquid +ℤ invested -ℤ chaos.debt_cents;
      liquid_cents = liquid;
      debt_cents =
          chaos.debt_cents
          +ℤ advanced.margin_debt_cents
          +ℤ business_debt (lookup who.key s.business_profiles)
          +ℤ mortgages_of who.guild_id who.user_id s.properties;
      invested_cents = invested;
    }

pub pointed :
    Store → GuildEconomy → ℤ → Citizen → Player → List PlayerHistoryPoint → List PlayerHistoryPoint
pointed s guild now who wallet history =
    trimmed (of_player who.guild_id who.user_id) (history ++ point_of s guild now who wallet ∷ [])

pub points_from :
    Store
    → GuildEconomy
    → ℤ
    → Bytes
    → Dict Player
    → List PlayerHistoryPoint
    → List PlayerHistoryPoint
points_from s guild now guild_id [] history = history
points_from s guild now guild_id ((key, wallet) ∷ players) history =
    points_from s guild now guild_id players (
      if starts_with (prefix_of guild_id) key
      then pointed s guild now (citizen guild_id key) wallet history
      else history)

abbrev pub maximum_history : ℕ
maximum_history = 100_000

pub bounded_history : List PlayerHistoryPoint → List PlayerHistoryPoint
bounded_history history =
    if ltb maximum_history (length history)
    then drop (length history - maximum_history) history
    else history

-- Whether there is a new snapshot, and the store.
pub record_snapshot : Bytes → ℤ → Store → Bool × Store
record_snapshot guild_id now s =
    let latest = latest_of guild_id (pos 0) s.snapshots in
    let snapshots =
      trimmed (of_guild guild_id) (s.snapshots ++ calculate_snapshot s guild_id now ∷ []) in
    let guild = at new_guild_economy guild_id s.guilds in
    let history = points_from s guild now guild_id s.players s.player_history in
    if ltb_ℤ (pos 0) latest && ltb_ℤ (now -ℤ latest) (pos 3_600)
    then (false, s)
    else (true, record s { snapshots = snapshots; player_history = bounded_history history })
