-- ===== src/Economy/Claim/Career.antt =====
-- What a claim does to the finances and the career of a player.
use routine_linux_edition.Base.{
  ℕ, zero, suc, ◌+◌, ◌*◌, ◌%◌, ◌≤◌, ◌≡◌, ◌⊎◌, Bool, true, false, arith, if◌then◌else◌, ◌==◌, get_or,
}
use routine_linux_edition.Base.Int.{
  ℤ, pos, negsuc, ◌+ℤ◌, ◌-ℤ◌, ◌*ℤ◌, ◌/ℤ◌, ◌≤ℤ◌, max_ℤ, min_ℤ, clamp_bounds, max_ℤ_bounds,
  min_ℤ_bounds, max_ℤ_nonneg, +ℤ_nonneg, *ℤ_nonneg, /ℤ_nonneg, int_laws, ends,
}
use routine_linux_edition.Base.Bytes.{Bytes}
use routine_linux_edition.Economy.Status.{u32_mod}
use routine_linux_edition.Economy.State.{
  Store, Player, ChaosPlayer, FinancialLifecycle, GuildEconomy,
}
use routine_linux_edition.Economy.Claim.{
  Draws, Claimant, daily_accrual, daily_review, shift_review, work_shift, award_of,
  hysa_basis_points,
}
use routine_linux_edition.Economy.Claim.Call.{claimant_at, granted}

-- What the standard library promises of a uniform distribution: a draw lies within its bounds.
abbrev pub IsUniform : Draws → Type 0
IsUniform uniform =
    (n : ℕ) (lo hi : ℤ) → lo ≤ℤ hi → (lo ≤ℤ uniform n lo hi) × (uniform n lo hi ≤ℤ hi)

linear : (a t b : ℕ) → pos a +ℤ pos t *ℤ pos b ≡ pos (a + t * b)
unfolding ◌+ℤ◌ ◌*ℤ◌
linear a t b = ground arith

-- When the generator keeps to its ranges, the reward of a day is 75 to 125 dollars, and a wage lies
-- between 15 dollars and 25 for each step of the job and 40 dollars and 55 for each step.
pub award_of_bounds :
    (uniform : Draws) (daily : Bool) (chaos : ChaosPlayer)
    → IsUniform uniform
    → ((if daily then pos 7_500 else pos (1_500 + chaos.job_tier * 2_500))
        ≤ℤ award_of uniform daily chaos)
      × (award_of uniform daily chaos
          ≤ℤ (if daily then pos 12_500 else pos (4_000 + chaos.job_tier * 5_500)))
unfolding award_of
award_of_bounds uniform true chaos fair = fair 0 (pos 7_500) (pos 12_500) (omega arith)
award_of_bounds uniform false chaos fair =
    let t = chaos.job_tier in
    let lo = ends _ _ (linear 1_500 t 2_500) in
    let hi = ends _ _ (linear 4_000 t 5_500) in
    let d =
      fair 0 (pos 1_500 +ℤ pos t *ℤ pos 2_500) (pos 4_000 +ℤ pos t *ℤ pos 5_500)
        (omega (arith, lo, hi)) in
    (omega (arith, lo, d.0), omega (arith, hi, d.1))

-- Of what a player owns and owes, nothing is negative, and the credit score lies in its range.
pub record IsSound (c : Claimant) : Type 0 where
  pub savings : pos 0 ≤ℤ c.chaos.savings_cents
  pub hysa : pos 0 ≤ℤ c.chaos.hysa_cents
  pub debt : pos 0 ≤ℤ c.chaos.debt_cents
  pub bonds : pos 0 ≤ℤ c.chaos.bonds_cents
  pub retirement : pos 0 ≤ℤ c.advanced.retirement_cents
  pub index_fund : pos 0 ≤ℤ c.advanced.index_fund_cents
  pub commodities : pos 0 ≤ℤ c.advanced.commodities_cents
  pub margin_debt : pos 0 ≤ℤ c.advanced.margin_debt_cents
  pub score_low : pos 300 ≤ℤ c.chaos.credit_score
  pub score_high : c.chaos.credit_score ≤ℤ pos 850

grows : (a : ℤ) (n : ℕ) → pos 0 ≤ℤ a → pos 0 ≤ℤ a +ℤ a /ℤ n
grows a n h = +ℤ_nonneg a (a /ℤ n) h (/ℤ_nonneg a n h)

rate_nonneg : (i : ℕ) → pos 0 ≤ℤ get_or (pos 0) hysa_basis_points i
rate_nonneg zero = omega arith
rate_nonneg (suc zero) = omega arith
rate_nonneg (suc (suc zero)) = omega arith
rate_nonneg (suc (suc (suc zero))) = omega arith
rate_nonneg (suc (suc (suc (suc zero)))) = omega arith
rate_nonneg (suc (suc (suc (suc (suc zero))))) = omega arith
rate_nonneg (suc (suc (suc (suc (suc (suc i)))))) = omega arith

abbrev InRange : ℤ → Type 0
InRange score = (pos 300 ≤ℤ score) × (score ≤ℤ pos 850)

score_falls :
    (b : Bool) (score : ℤ)
    → InRange score
    → InRange (if b then max_ℤ (pos 300) (score -ℤ pos 1) else score)
score_falls true score h = grind (int_laws, max_ℤ_bounds (pos 300) (score -ℤ pos 1))
score_falls false score h = h

score_rises : (score : ℤ) → InRange score → InRange (min_ℤ (pos 850) (score +ℤ pos 1))
score_rises score h = grind (int_laws, min_ℤ_bounds (pos 850) (score +ℤ pos 1))

daily_accrual-IsSound :
    (uniform : Draws) (managed : Bool) (guild : GuildEconomy) (c : Claimant)
    → IsSound c
    → IsSound (daily_accrual uniform managed guild c)
unfolding daily_accrual
daily_accrual-IsSound uniform managed guild c v = record {
  savings = grows c.chaos.savings_cents 10_000 v.savings;
  hysa = +ℤ_nonneg _ _ v.hysa (/ℤ_nonneg _ 3_650_000 (*ℤ_nonneg _ _ v.hysa (rate_nonneg _)));
  debt = grows c.chaos.debt_cents 1_000 v.debt;
  bonds = grows c.chaos.bonds_cents 5_000 v.bonds;
  retirement = grows c.advanced.retirement_cents 3_000 v.retirement;
  index_fund = grows c.advanced.index_fund_cents 4_000 v.index_fund;
  commodities = max_ℤ_nonneg _;
  margin_debt = grows c.advanced.margin_debt_cents 500 v.margin_debt;
  score_low = (score_falls _ _ (v.score_low, v.score_high)).0;
  score_high = (score_falls _ _ (v.score_low, v.score_high)).1;
}

-- A review changes nothing of the finances.
daily_review_keeps :
    (uniform : Draws) (guild : GuildEconomy) (now : ℤ) (chaos : ChaosPlayer)
    (lifecycle : FinancialLifecycle)
    → (daily_review uniform guild now chaos lifecycle).0
      ≡ record chaos { job_tier = (daily_review uniform guild now chaos lifecycle).0.job_tier }
unfolding daily_review
daily_review_keeps uniform guild now chaos lifecycle = ground arith

-- From a job no higher than the fifth, a review lays the player off, gives the next job, or leaves
-- the job; no job lies above the fifth, and the performance is between 0 and 100.
pub daily_review_career :
    (uniform : Draws) (guild : GuildEconomy) (now : ℤ) (chaos : ChaosPlayer)
    (lifecycle : FinancialLifecycle)
    → chaos.job_tier ≤ 4
    → let (chaos', lifecycle') = daily_review uniform guild now chaos lifecycle in
      ((chaos'.job_tier ≡ 0)
        ⊎ ((chaos'.job_tier ≡ chaos.job_tier) ⊎ (chaos'.job_tier ≡ chaos.job_tier + 1)))
      × (chaos'.job_tier ≤ 4)
      × (pos 0 ≤ℤ lifecycle'.performance)
      × (lifecycle'.performance ≤ℤ pos 100)
unfolding daily_review
daily_review_career uniform guild now chaos lifecycle h =
    let review = uniform 1 (negsuc 7) (pos 12) +ℤ (guild.confidence -ℤ pos 50) /ℤ 8 in
    ground (arith, clamp_bounds (lifecycle.performance +ℤ review) (pos 0) (pos 100) (omega arith))

-- So does a shift, but for the experience and the job.
shift_review_keeps :
    (uniform : Draws) (guild : GuildEconomy) (now : ℤ) (c : Claimant)
    → (shift_review uniform guild now c).0 ≡ record c.chaos {
      experience = (c.chaos.experience + 1) % u32_mod;
      job_tier = (shift_review uniform guild now c).0.job_tier;
    }
unfolding shift_review
shift_review_keeps uniform guild now c = ground (
  arith,
  daily_review_keeps uniform guild now
      (record c.chaos {
        experience = (c.chaos.experience + 1) % u32_mod;
        job_tier = if c.chaos.job_tier == 0 then 1 else c.chaos.job_tier;
      })
      c.lifecycle,
)

score_kept :
    (b : Bool) (score : ℤ)
    → InRange score
    → InRange (if b then score else min_ℤ (pos 850) (score +ℤ pos 1))
score_kept true score h = h
score_kept false score h = score_rises score h

pension_nonneg :
    (b : Bool) (pension award : ℤ) (rate : ℕ)
    → pos 0 ≤ℤ pension
    → pos 0 ≤ℤ award
    → pos 0 ≤ℤ (if b then pension +ℤ award *ℤ pos rate /ℤ 100 else pension)
pension_nonneg true pension award rate h k =
    +ℤ_nonneg _ _ h (/ℤ_nonneg _ 100 (*ℤ_nonneg _ _ k (omega arith)))
pension_nonneg false pension award rate h k = h

work_shift-IsSound :
    (uniform : Draws) (guild : GuildEconomy) (now award : ℤ) (c : Claimant)
    → IsSound c
    → pos 0 ≤ℤ award
    → IsSound (work_shift uniform guild now award c)
unfolding work_shift
work_shift-IsSound uniform guild now award c v h =
    let kept = shift_review_keeps uniform guild now c in
    let review = (shift_review uniform guild now c).0 in
    let in_range : InRange review.credit_score = rw kept (v.score_low, v.score_high) in
    let score = score_kept (review.job_tier == 0) review.credit_score in_range in
    record {
      savings = rw kept v.savings;
      hysa = rw kept v.hysa;
      debt = rw kept v.debt;
      bonds = rw kept v.bonds;
      retirement = pension_nonneg _ _ award _ v.retirement h;
      index_fund = v.index_fund;
      commodities = v.commodities;
      margin_debt = v.margin_debt;
      score_low = score.0;
      score_high = score.1;
    }

-- The wallet is not among these amounts.
IsSound-player : (c : Claimant) (p : Player) → IsSound c → IsSound (record c { player = p })
IsSound-player c p v = record {
  savings = v.savings;
  hysa = v.hysa;
  debt = v.debt;
  bonds = v.bonds;
  retirement = v.retirement;
  index_fund = v.index_fund;
  commodities = v.commodities;
  margin_debt = v.margin_debt;
  score_low = v.score_low;
  score_high = v.score_high;
}

-- When the generator keeps to its ranges, and savings, debts and funds of a player are not negative
-- and the credit score lies between 300 and 850, all of this holds after a claim is granted.
pub granted-IsSound :
    (uniform : Draws) (s : Store) (guild_id user_id : Bytes) (now : ℤ) (daily : Bool)
    → IsUniform uniform
    → IsSound (claimant_at s guild_id user_id)
    → IsSound (granted uniform s guild_id user_id now daily)
unfolding granted
granted-IsSound uniform s guild_id user_id now true fair v =
    daily_accrual-IsSound uniform _ _ _ (IsSound-player _ _ v)
granted-IsSound uniform s guild_id user_id now false fair v =
    let chaos = (claimant_at s guild_id user_id).chaos in
    let bounds = award_of_bounds uniform false chaos fair in
    work_shift-IsSound uniform _ now _ _ (IsSound-player _ _ v) (omega arith)
