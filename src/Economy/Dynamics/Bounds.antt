-- ===== src/Economy/Dynamics/Bounds.antt =====
-- The bounds on the economy of a server, and the first half of the hourly cycle.
use routine_linux_edition.Base.{ℕ, Bool, ◌||◌, arith, if_keeps, if_each, ◌==◌, if◌then◌else◌}
use routine_linux_edition.Base.Int.{
  ℤ, pos, negsuc, ◌≤ℤ◌, clamp, clamp_bounds, int_laws, int_tests, ltb_ℤ, min_ℤ, max_ℤ, ◌+ℤ◌, ◌-ℤ◌,
  min_ℤ_bounds, min_ℤ_above, max_ℤ_below, max_ℤ_bounds,
}
use routine_linux_edition.Economy.State.{GuildEconomy, GuildDynamics}
use routine_linux_edition.Economy.Orders.Remaining.{IsPriced}
use routine_linux_edition.Economy.Dynamics.{
  Country, with_demand, with_policy, with_recession, next_rate, next_currency, next_confidence,
  next_inflation, next_unemployment, stimulate, is_stimulated,
}

abbrev pub Within : ℤ → ℤ → ℤ → Type 0
Within lo a hi = (lo ≤ℤ a) × (a ≤ℤ hi)

-- An economy within its bounds.
pub record IsStable (e : GuildEconomy) : Type 0 where
  pub priced : IsPriced e.prices
  pub confidence : Within (pos 10) e.confidence (pos 90)
  pub inflation : Within (negsuc 99) e.inflation_bp (pos 1_800)
  pub unemployment : Within (pos 150) e.unemployment_bp (pos 3_000)

-- The dynamics within the bounds that the checks of the store ask for.
pub record IsSteady (d : GuildDynamics) : Type 0 where
  pub rate : Within (pos 0) d.policy_rate_bp (pos 5_000)
  pub currency : Within (pos 1_000) d.currency_index (pos 50_000)
  pub tariff : Within (pos 0) d.tariff_basis_points (pos 2_500)

pub record IsBounded (c : Country) : Type 0 where
  pub stable : IsStable c.economy
  pub steady : IsSteady c.dynamics

abbrev pub RateHolds : ℤ → Type 0
RateHolds rate = Within (pos 0) rate (pos 5_000)

raised : (rate : ℤ) → RateHolds rate → RateHolds (min_ℤ (pos 2_000) (rate +ℤ pos 25))
raised rate h = (
  min_ℤ_above (pos 0) _ _ (omega arith) (omega int_laws),
  omega (arith, (min_ℤ_bounds (pos 2_000) (rate +ℤ pos 25)).0),
)

lowered : (rate : ℤ) → RateHolds rate → RateHolds (max_ℤ (pos 50) (rate -ℤ pos 25))
lowered rate h = (
  omega (arith, (max_ℤ_bounds (pos 50) (rate -ℤ pos 25)).0),
  max_ℤ_below _ _ (pos 5_000) (omega arith) (omega int_laws),
)

next_rate_bounds : (e : GuildEconomy) (rate : ℤ) → RateHolds rate → RateHolds (next_rate e rate)
unfolding next_rate
next_rate_bounds e rate h =
    let up : RateHolds (if ltb_ℤ rate (pos 400) then rate +ℤ pos 10 else rate) =
      if_each RateHolds (ltb_ℤ rate (pos 400)) (rate +ℤ pos 10) rate (λ k. omega (int_tests, h))
        (λ _. h) in
    let near : RateHolds (
        if ltb_ℤ (pos 400) rate
        then rate -ℤ pos 10
        else if ltb_ℤ rate (pos 400)
        then rate +ℤ pos 10
        else rate) =
      if_each RateHolds (ltb_ℤ (pos 400) rate) (rate -ℤ pos 10) _ (λ k. omega (int_tests, h))
        (λ _. up) in
    if_keeps RateHolds (ltb_ℤ (pos 650) e.inflation_bp) _ _ (raised rate h) (
      if_keeps RateHolds (ltb_ℤ e.confidence (pos 38) || ltb_ℤ (pos 1_000) e.unemployment_bp) _ _
        (lowered rate h) near)

clamped : (v lo hi : ℤ) → lo ≤ℤ hi → Within lo (clamp v lo hi) hi
clamped = clamp_bounds

pub with_demand-IsStable :
    (d : GuildDynamics) (e : GuildEconomy) → IsPriced e.prices → IsStable (with_demand d e)
unfolding with_demand next_confidence next_inflation next_unemployment
with_demand-IsStable d e h = record {
  priced = h;
  confidence = clamped _ (pos 10) (pos 90) (omega arith);
  inflation = clamped _ (negsuc 99) (pos 1_800) (omega arith);
  unemployment = clamped _ (pos 150) (pos 3_000) (omega arith);
}

with_recession-IsSteady :
    (recession : Bool) (d : GuildDynamics) → IsSteady d → IsSteady (with_recession recession d)
unfolding with_recession
with_recession-IsSteady recession d h =
    let same : (a b : ℕ) → IsSteady (record d { recession_hours = a; recovery_hours = b }) =
      λ a b. record { rate = h.rate; currency = h.currency; tariff = h.tariff } in
    if_keeps IsSteady recession _ _ (same _ 0) (
      if_keeps IsSteady (d.recession_hours == 0) _ _ h
        (if_keeps IsSteady _ _ _ (same 0 0) (same _ _)))

pub with_policy-IsSteady :
    (e : GuildEconomy) (d : GuildDynamics)
    → Within (pos 0) d.policy_rate_bp (pos 5_000)
    → Within (pos 0) d.tariff_basis_points (pos 2_500)
    → IsSteady (with_policy e d)
unfolding with_policy next_currency
with_policy-IsSteady e d rate tariff = with_recession-IsSteady _ _ (record {
  rate = next_rate_bounds e d.policy_rate_bp rate;
  currency = clamped _ (pos 1_000) (pos 50_000) (omega arith);
  tariff = tariff;
})

cheered :
    (a : ℤ) → Within (pos 10) a (pos 90) → Within (pos 10) (min_ℤ (pos 90) (a +ℤ pos 4)) (pos 90)
cheered a h = (
  min_ℤ_above (pos 10) _ _ (omega arith) (omega int_laws),
  (min_ℤ_bounds (pos 90) (a +ℤ pos 4)).0,
)

employed :
    (a : ℤ)
    → Within (pos 150) a (pos 3_000)
    → Within (pos 150) (max_ℤ (pos 150) (a -ℤ pos 100)) (pos 3_000)
employed a h = (
  (max_ℤ_bounds (pos 150) (a -ℤ pos 100)).0,
  max_ℤ_below _ _ (pos 3_000) (omega arith) (omega int_laws),
)

pub stimulate-IsBounded :
    (c : Country) (step_time : ℤ) → IsBounded c → IsBounded (stimulate c step_time)
unfolding stimulate
stimulate-IsBounded c step_time h =
    if_keeps IsBounded (is_stimulated c.dynamics step_time) _ _
      (record {
        stable = record {
          priced = h.stable.priced;
          confidence = cheered c.economy.confidence h.stable.confidence;
          inflation = h.stable.inflation;
          unemployment = employed c.economy.unemployment_bp h.stable.unemployment;
        };
        steady = record {
          rate = h.steady.rate;
          currency = h.steady.currency;
          tariff = h.steady.tariff;
        };
      })
      h
