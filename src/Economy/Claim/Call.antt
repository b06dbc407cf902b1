-- ===== src/Economy/Claim/Call.antt =====
-- claim_impl of lib/local_economy_extension.cpp: what a claim enters, writes and takes back. The award
-- and the time that is left are 0 where the source leaves them as they were.
use routine_linux_edition.Base.{Bool, not, ◌&&◌, ◌||◌, if◌then◌else◌}
use routine_linux_edition.Base.Int.{ℤ, pos, ◌-ℤ◌, leb_ℤ, ltb_ℤ}
use routine_linux_edition.Base.Bytes.{Bytes}
use routine_linux_edition.Base.Dict.{lookup, insert, erase, ensure, restore, at, is_none}
use routine_linux_edition.Economy.Status.{Status, ok, invalid_argument, cooldown, storage_error}
use routine_linux_edition.Economy.State.{
  Store, new_chaos_player, new_advanced_player, new_financial_lifecycle, new_player_development,
  new_global_player, new_guild_economy, new_guild_dynamics, new_guild_settings,
}
use routine_linux_edition.Economy.Accounts.{
  key_for, valid_id, player_at, ensure_player, has_managed_property, sync_global_player,
}
use routine_linux_edition.Economy.Limits.{save_locked}
use routine_linux_edition.Economy.Ledger.{acted}
use routine_linux_edition.Economy.Claim.{
  Draws, Claimant, daily_accrual, work_shift, count_jobs, last_claim, cooldown_of, elapsed_since,
  paid, award_of,
}

pub record Claim : Type 0 where
  pub status : Status
  pub award : ℤ
  pub remaining : ℤ

-- The records of a player and a server that every claim enters.
unfoldable pub enter_claim : Store → Bytes → Bytes → Store
enter_claim s guild_id user_id =
    let key = key_for guild_id user_id in
    let placed = ensure_player s guild_id user_id in
    record placed {
      dynamics = ensure new_guild_dynamics guild_id placed.dynamics;
      chaos_players = ensure new_chaos_player key placed.chaos_players;
      advanced_players = ensure new_advanced_player key placed.advanced_players;
      lifecycle = ensure new_financial_lifecycle key placed.lifecycle;
      development = ensure new_player_development key placed.development;
      guilds = ensure new_guild_economy guild_id placed.guilds;
      settings = ensure new_guild_settings guild_id placed.settings;
      display_symbol = (at new_guild_settings guild_id placed.settings).currency_symbol;
    }

unfoldable pub claimant_at : Store → Bytes → Bytes → Claimant
claimant_at s guild_id user_id =
    let key = key_for guild_id user_id in
    record {
      player = player_at s guild_id user_id;
      chaos = at new_chaos_player key s.chaos_players;
      advanced = at new_advanced_player key s.advanced_players;
      lifecycle = at new_financial_lifecycle key s.lifecycle;
    }

-- The claimant behind a claim that is granted.
unfoldable pub granted : Draws → Store → Bytes → Bytes → ℤ → Bool → Claimant
granted uniform s guild_id user_id now daily =
    let c = claimant_at s guild_id user_id in
    let award = award_of uniform daily c.chaos in
    let guild = at new_guild_economy guild_id s.guilds in
    let c' = record c { player = paid daily award now c.player } in
    if daily
    then daily_accrual uniform (has_managed_property s guild_id user_id) guild c'
    else work_shift uniform guild now award c'

-- The state that is saved.
unfoldable pub claimed : Draws → Store → Bytes → Bytes → ℤ → Bool → Store
claimed uniform s guild_id user_id now daily =
    let key = key_for guild_id user_id in
    let entered = enter_claim s guild_id user_id in
    let before = at new_chaos_player key s.chaos_players in
    let c = granted uniform s guild_id user_id now daily in
    let synced =
      sync_global_player entered user_id c.chaos (at new_player_development key s.development)
        now in
    record entered {
      players = insert key c.player entered.players;
      chaos_players = insert key synced.local entered.chaos_players;
      advanced_players = insert key c.advanced entered.advanced_players;
      lifecycle = insert key c.lifecycle entered.lifecycle;
      development = insert key synced.development entered.development;
      dynamics =
          insert guild_id
            (count_jobs daily before.job_tier c.chaos.job_tier
              (at new_guild_dynamics guild_id s.dynamics))
            entered.dynamics;
      global_players = insert user_id (acted synced.global) entered.global_players;
    }

-- What the source puts back when the save fails.
unfoldable pub unclaimed : Store → Bytes → Bytes → Store → Store
unclaimed s guild_id user_id changed =
    let key = key_for guild_id user_id in
    let c = claimant_at s guild_id user_id in
    record changed {
      players = restore (is_none (lookup key s.players)) key c.player changed.players;
      chaos_players =
          restore (is_none (lookup key s.chaos_players)) key c.chaos changed.chaos_players;
      advanced_players =
          restore (is_none (lookup key s.advanced_players)) key c.advanced changed.advanced_players;
      lifecycle = restore (is_none (lookup key s.lifecycle)) key c.lifecycle changed.lifecycle;
      development =
          restore (is_none (lookup key s.development)) key
            (at new_player_development key s.development) changed.development;
      global_players =
          restore (is_none (lookup user_id s.global_players)) user_id
            (at new_global_player user_id s.global_players) changed.global_players;
      dynamics = insert guild_id (at new_guild_dynamics guild_id s.dynamics) changed.dynamics;
    }

-- A claim that comes too soon takes the entries out again that it made.
unfoldable pub too_soon : Store → Bytes → Bytes → Store
too_soon s guild_id user_id =
    let key = key_for guild_id user_id in
    let entered = enter_claim s guild_id user_id in
    record entered {
      chaos_players =
          if is_none (lookup key s.chaos_players)
          then erase key entered.chaos_players
          else entered.chaos_players;
      advanced_players =
          if is_none (lookup key s.advanced_players)
          then erase key entered.advanced_players
          else entered.advanced_players;
      lifecycle =
          if is_none (lookup key s.lifecycle)
          then erase key entered.lifecycle
          else entered.lifecycle;
      development =
          if is_none (lookup key s.development)
          then erase key entered.development
          else entered.development;
    }

-- The arguments that are refused at once. The result pointers are not null.
unfoldable pub bad_claim : Bytes → Bytes → ℤ → Bool
bad_claim guild_id user_id now =
    not (valid_id guild_id) || (not (valid_id user_id) || leb_ℤ now (pos 0))

-- Whether the last claim lies within the cooldown.
unfoldable pub is_cooling : Bool → ℤ → ℤ → Bool
is_cooling daily last now = ltb_ℤ (pos 0) last && ltb_ℤ (elapsed_since last now) (cooldown_of daily)

unfoldable pub claim_impl : Draws → Store → Bytes → Bytes → ℤ → Bool → Bool → Claim × Store
claim_impl uniform s guild_id user_id now daily written =
    let last = last_claim daily (player_at s guild_id user_id) in
    let award =
      award_of uniform daily (at new_chaos_player (key_for guild_id user_id) s.chaos_players) in
    let changed = claimed uniform s guild_id user_id now daily in
    if bad_claim guild_id user_id now
    then (record { status = invalid_argument; award = pos 0; remaining = pos 0 }, s)
    else if is_cooling daily last now
    then (
      record {
        status = cooldown;
        award = pos 0;
        remaining = cooldown_of daily -ℤ elapsed_since last now;
      },
      too_soon s guild_id user_id,
    )
    else if save_locked changed written
    then (record { status = ok; award = award; remaining = pos 0 }, changed)
    else (
      record { status = storage_error; award = award; remaining = pos 0 },
      unclaimed s guild_id user_id changed,
    )
