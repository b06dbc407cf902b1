-- ===== src/Economy/Dynamics/Stimulus.antt =====
-- What the stimulus does to the books of the government.
use routine_linux_edition.Base.{◌≡◌, refl, true, Bool-cases, inl, inr}
use routine_linux_edition.Base.Int.{ℤ, pos, ◌+ℤ◌, ◌-ℤ◌, ◌≤ℤ◌, int_laws, int_tests, ltb_ℤ, one_part}
use routine_linux_edition.Economy.State.{GovernmentState}
use routine_linux_edition.Economy.Dynamics.{Country, stimulus, stimulate, is_stimulated, issuance}

issuance_covers : (g : GovernmentState) → pos 0 ≤ℤ g.treasury_cents +ℤ issuance g -ℤ stimulus
unfolding issuance
issuance_covers g = elim (Bool-cases (ltb_ℤ g.treasury_cents stimulus)) [
  | inl poor ↦ rw poor (omega (int_laws, one_part g.treasury_cents))
  | inr rich ↦ rw rich (omega (int_tests, one_part g.treasury_cents))
]

-- Where a stimulus is due, every cent of it is taken from the treasury or borrowed, it is counted
-- as spending, the treasury is not left in the red, and the hour is noted.
pub stimulate_books :
    (c : Country) (step_time : ℤ)
    → is_stimulated c.dynamics step_time ≡ true
    → ((stimulate c step_time).government.treasury_cents
          -ℤ (stimulate c step_time).dynamics.government_debt_cents
        ≡ c.government.treasury_cents -ℤ c.dynamics.government_debt_cents -ℤ stimulus)
      × ((stimulate c step_time).dynamics.spending_cents ≡ c.dynamics.spending_cents +ℤ stimulus)
      × (pos 0 ≤ℤ (stimulate c step_time).government.treasury_cents)
      × ((stimulate c step_time).dynamics.last_stimulus_unix ≡ step_time)
unfolding stimulate
stimulate_books c step_time h = rw h (omega int_laws, refl, issuance_covers c.government, refl)
