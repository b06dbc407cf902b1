-- ===== src/Economy/Claim/Undo.antt =====
-- The store behind a claim that is not granted.
use routine_linux_edition.Base.{◌≡◌, refl, ◌⊎◌, inl, inr, Bool, true, arith, Bool-cases}
use routine_linux_edition.Base.Int.{ℤ}
use routine_linux_edition.Base.Bytes.{Bytes, bytes_eq_iff}
use routine_linux_edition.Base.Dict.{
  Dict, lookup, insert, ensure, at, is_none, restore, dict_laws, lookup-ensure, at-ensure,
}
use routine_linux_edition.Economy.Status.{ok}
use routine_linux_edition.Economy.State.{
  Store, new_chaos_player, new_advanced_player, new_financial_lifecycle, new_player_development,
  new_guild_dynamics, new_global_player,
}
use routine_linux_edition.Economy.Accounts.{key_for, player_at, fresh_player, ensure_player}
use routine_linux_edition.Economy.Limits.{save_locked}
use routine_linux_edition.Economy.Ledger.Rollback.{lookup-forgotten}
use routine_linux_edition.Economy.Claim.{Draws, last_claim}
use routine_linux_edition.Economy.Claim.Call.{
  claim_impl, claimed, unclaimed, too_soon, is_cooling, bad_claim, enter_claim, claimant_at,
}

-- Every record of a player and of a user is what it was, and so are the counters of each server.
pub record Unchanged (s t : Store) : Type 0 where
  pub players_kept : (j : Bytes) → lookup j t.players ≡ lookup j s.players
  pub chaos_kept : (j : Bytes) → lookup j t.chaos_players ≡ lookup j s.chaos_players
  pub advanced_kept : (j : Bytes) → lookup j t.advanced_players ≡ lookup j s.advanced_players
  pub lifecycle_kept : (j : Bytes) → lookup j t.lifecycle ≡ lookup j s.lifecycle
  pub development_kept : (j : Bytes) → lookup j t.development ≡ lookup j s.development
  pub users_kept : (j : Bytes) → lookup j t.global_players ≡ lookup j s.global_players
  pub dynamics_kept :
      (j : Bytes) → at new_guild_dynamics j t.dynamics ≡ at new_guild_dynamics j s.dynamics

Unchanged-refl : (s : Store) → Unchanged s s
Unchanged-refl s = record {
  players_kept = λ j. refl;
  chaos_kept = λ j. refl;
  advanced_kept = λ j. refl;
  lifecycle_kept = λ j. refl;
  development_kept = λ j. refl;
  users_kept = λ j. refl;
  dynamics_kept = λ j. refl;
}

-- One record that was entered and changed is put back.
put_back :
    {V : Type 0} (f v : V) (j k : Bytes) (d : Dict V)
    → lookup j (restore (is_none (lookup k d)) k (at f k d) (insert k v (ensure f k d)))
      ≡ lookup j d
put_back f v j k d = simp dict_laws (ground (arith, bytes_eq_iff j k))

put_back_user :
    {V : Type 0} (f v : V) (j k : Bytes) (d : Dict V)
    → lookup j (restore (is_none (lookup k d)) k (at f k d) (insert k v d)) ≡ lookup j d
put_back_user f v j k d = simp dict_laws (ground (arith, bytes_eq_iff j k))

at-reinserted_new :
    {V : Type 0} (f v : V) (j k : Bytes) (d : Dict V)
    → at f j (insert k (at f k d) (insert k v (ensure f k d))) ≡ at f j d
at-reinserted_new f v j k d = simp dict_laws (ground (arith, bytes_eq_iff j k))

unclaimed-Unchanged :
    (uniform : Draws) (s : Store) (guild_id user_id : Bytes) (now : ℤ) (daily : Bool)
    → Unchanged s (unclaimed s guild_id user_id (claimed uniform s guild_id user_id now daily))
unfolding unclaimed claimed enter_claim claimant_at ensure_player player_at
unclaimed-Unchanged uniform s guild_id user_id now daily =
    let key = key_for guild_id user_id in
    record {
      players_kept = λ j. put_back _ _ j key s.players;
      chaos_kept = λ j. put_back new_chaos_player _ j key s.chaos_players;
      advanced_kept = λ j. put_back new_advanced_player _ j key s.advanced_players;
      lifecycle_kept = λ j. put_back new_financial_lifecycle _ j key s.lifecycle;
      development_kept = λ j. put_back new_player_development _ j key s.development;
      users_kept = λ j. put_back_user new_global_player _ j user_id s.global_players;
      dynamics_kept = λ j. at-reinserted_new new_guild_dynamics _ j guild_id s.dynamics;
    }

-- Only a player who is known has claimed before.
cooling_known :
    (s : Store) (guild_id user_id j : Bytes) (now : ℤ) (daily : Bool)
    → is_cooling daily (last_claim daily (player_at s guild_id user_id)) now ≡ true
    → lookup j (ensure_player s guild_id user_id).players ≡ lookup j s.players
unfolding is_cooling player_at ensure_player fresh_player
cooling_known s guild_id user_id j now daily h =
    rw lookup-ensure (ground (arith, bytes_eq_iff j (key_for guild_id user_id)))

too_soon-Unchanged :
    (s : Store) (guild_id user_id : Bytes) (now : ℤ) (daily : Bool)
    → is_cooling daily (last_claim daily (player_at s guild_id user_id)) now ≡ true
    → Unchanged s (too_soon s guild_id user_id)
unfolding too_soon enter_claim ensure_player
too_soon-Unchanged s guild_id user_id now daily h =
    let key = key_for guild_id user_id in
    record {
      players_kept = λ j. cooling_known s guild_id user_id j now daily h;
      chaos_kept = λ j. lookup-forgotten new_chaos_player j key s.chaos_players;
      advanced_kept = λ j. lookup-forgotten new_advanced_player j key s.advanced_players;
      lifecycle_kept = λ j. lookup-forgotten new_financial_lifecycle j key s.lifecycle;
      development_kept = λ j. lookup-forgotten new_player_development j key s.development;
      users_kept = λ j. refl;
      dynamics_kept = λ j. at-ensure new_guild_dynamics j guild_id s.dynamics;
    }

-- A claim answers OK, or every record of every player and user, and the counters of every server,
-- are what they were: when its arguments are refused, when it comes too soon, and when it cannot be
-- saved.
pub claim_impl-Unchanged :
    (uniform : Draws) (s : Store) (guild_id user_id : Bytes) (now : ℤ) (daily written : Bool)
    → let (claim, t) = claim_impl uniform s guild_id user_id now daily written in
      (claim.status ≡ ok) ⊎ Unchanged s t
unfolding claim_impl
claim_impl-Unchanged uniform s guild_id user_id now daily written =
    elim (Bool-cases (bad_claim guild_id user_id now)) [
      | inl bad ↦ rw bad (inr (Unchanged-refl s))
      | inr good ↦
          elim (Bool-cases
            (is_cooling daily (last_claim daily (player_at s guild_id user_id)) now)) [
              | inl cool ↦
                  rw (good, cool) (inr (too_soon-Unchanged s guild_id user_id now daily cool))
              | inr warm ↦
                  elim (Bool-cases
                    (save_locked (claimed uniform s guild_id user_id now daily) written)) [
                      | inl saved ↦ rw (good, warm, saved) (inl refl)
                      | inr failed ↦
                          rw (good, warm, failed)
                            (inr (unclaimed-Unchanged uniform s guild_id user_id now daily))
                    ]
            ]
    ]
