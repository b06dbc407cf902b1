-- ===== src/Economy/Accounts/Bounded.antt =====
-- Saturating counters, and the records of a user over all servers.
use routine_linux_edition.Base.{◌≡◌, refl, arith, if◌then◌else◌, Bool-cases, inl, inr}
use routine_linux_edition.Base.Int.{ℤ, pos, ◌+ℤ◌, ◌≤ℤ◌, leb_ℤ, min_ℤ, int_tests}
use routine_linux_edition.Economy.Status.{maximum_transaction}
use routine_linux_edition.Economy.Accounts.{add_bounded}

-- A counter that is at most the largest transaction stays so and never falls, and it is the sum,
-- held at that limit, where the amount is positive.
pub add_bounded_lem :
    (target amount : ℤ)
    → target ≤ℤ maximum_transaction
    → (target ≤ℤ add_bounded target amount)
      × (add_bounded target amount ≤ℤ maximum_transaction)
      × (add_bounded target amount
          ≡ (if leb_ℤ amount (pos 0) then target else min_ℤ maximum_transaction (target +ℤ amount)))
unfolding add_bounded min_ℤ
add_bounded_lem target amount h = elim (Bool-cases (leb_ℤ amount (pos 0))) [
  | inl e ↦ rw e (omega arith, h, refl)
  | inr e ↦ rw e (grind int_tests)
]
