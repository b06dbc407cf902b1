-- ===== src/Economy/Claim/Tests.antt =====
-- A player who claims.
use routine_linux_edition.Base.{◌≡◌, refl, ◌⊎◌, true, false, arith}
use routine_linux_edition.Base.Int.{pos, ◌+ℤ◌, ◌-ℤ◌, ◌*ℤ◌, ◌/ℤ◌, max_ℤ, min_ℤ, clamp}
use routine_linux_edition.Base.Bytes.{bytes, bytes_eq, starts_with}
use routine_linux_edition.Base.Dict.{lookup, insert, ensure}
use routine_linux_edition.Economy.Status.{ok, cooldown}
use routine_linux_edition.Economy.State.{empty_store, ChaosPlayer, new_chaos_player}
use routine_linux_edition.Economy.Accounts.{
  key_for, valid_id, digits_from, ensure_player, player_at, fresh_player, touch_global_player,
  add_bounded, has_managed_property, sync_global_player, highest_education, highest_education_from,
}
use routine_linux_edition.Economy.Limits.{
  save_locked, state_invariants_hold, sizes_hold, player_holds, chaos_holds, advanced_holds,
  order_holds, dynamics_holds,
}
use routine_linux_edition.Economy.Claim.{Draws, award_of, cooldown_of, count_jobs, daily_accrual}
use routine_linux_edition.Economy.Claim.Call.{
  granted, claimed, claim_impl, claimant_at, bad_claim, is_cooling, enter_claim,
}
use routine_linux_edition.Economy.Claim.Career.{IsUniform, IsSound, granted-IsSound}
use routine_linux_edition.Economy.Claim.Repeat.{claim_impl_twice}
use routine_linux_edition.Economy.Claim.Undo.{Unchanged, claim_impl-Unchanged}

abbrev lowest : Draws
lowest n lo hi = lo

lowest-IsUniform : IsUniform lowest
lowest-IsUniform n lo hi h = (omega arith, h)

abbrev clerk : ChaosPlayer
clerk = record new_chaos_player { job_tier = 2 }

newcomer-IsSound : IsSound (claimant_at empty_store (bytes "1") (bytes "2"))
unfolding claimant_at lookup
newcomer-IsSound = record {
  savings = omega arith;
  hysa = omega arith;
  debt = omega arith;
  bonds = omega arith;
  retirement = omega arith;
  index_fund = omega arith;
  commodities = omega arith;
  margin_debt = omega arith;
  score_low = omega arith;
  score_high = omega arith;
}

granted-IsSound_example :
    IsSound (granted lowest empty_store (bytes "1") (bytes "2") (pos 100) true)
granted-IsSound_example =
    granted-IsSound lowest empty_store (bytes "1") (bytes "2") (pos 100) true lowest-IsUniform
      newcomer-IsSound

claim_impl-Unchanged_example :
    let (claim, t) = claim_impl lowest empty_store (bytes "1") (bytes "2") (pos 100) false false in
    (claim.status ≡ ok) ⊎ Unchanged empty_store t
claim_impl-Unchanged_example =
    claim_impl-Unchanged lowest empty_store (bytes "1") (bytes "2") (pos 100) false false

claim_impl_twice_example :
    (claim_impl lowest
      (claim_impl lowest empty_store (bytes "1") (bytes "2") (pos 100) true true).1
      (bytes "1")
      (bytes "2")
      (pos 200)
      true
      true).0
    ≡ record {
      status = cooldown;
      award = pos 0;
      remaining = cooldown_of true -ℤ (pos 200 -ℤ pos 100);
    }
unfolding claim_impl bad_claim is_cooling claimed granted enter_claim claimant_at award_of
    daily_accrual count_jobs valid_id digits_from key_for bytes_eq starts_with lookup insert ensure
    player_at ensure_player touch_global_player add_bounded has_managed_property sync_global_player
    highest_education highest_education_from save_locked state_invariants_hold sizes_hold
    player_holds chaos_holds advanced_holds order_holds dynamics_holds ◌+ℤ◌ ◌-ℤ◌ ◌*ℤ◌ ◌/ℤ◌ max_ℤ
    min_ℤ clamp fresh_player
claim_impl_twice_example =
    claim_impl_twice lowest lowest empty_store (bytes "1") (bytes "2") (pos 100) (pos 200) true true
      true refl (omega arith) refl
