-- ===== src/Economy/Tick/Company/Loan.antt =====
-- What the payments of a company's loan keep.
use routine_linux_edition.Base.{ℕ, zero, suc, ◌≡◌, refl, arith, leb, if_keeps}
use routine_linux_edition.Base.Int.{
  ℤ, pos, ◌+ℤ◌, ◌-ℤ◌, ◌/ℤ◌, ◌≤ℤ◌, leb_ℤ, ltb_ℤ, max_ℤ, min_ℤ_bounds, max_ℤ_bounds, min_ℤ_above,
  int_laws, ends,
}
use routine_linux_edition.Base.Bytes.{Bytes}
use routine_linux_edition.Economy.Tick.{Subject}
use routine_linux_edition.Economy.Tick.Sound.{IsSound, score_up_bounds, score_down_bounds}
use routine_linux_edition.Economy.Tick.Company.{
  Company, interest, payment_of, paid_of, repaid, on_time, too_late, liquidate, next_day, reviewed,
  loan_day, loan_loop,
}

pub record IsRunning (c : Company) : Type 0 where
  pub sound : IsSound c.owner
  pub loan : pos 0 ≤ℤ c.business.debt_cents

-- What the owner and the company owe together, less the company's cash.
abbrev pub owed : Company → ℤ
owed c = c.owner.debt_cents +ℤ c.business.debt_cents -ℤ c.owner.business_cash_cents

paid_bounds :
    (debt funds : ℤ)
    → pos 0 ≤ℤ debt
    → pos 0 ≤ℤ funds
    → (pos 0 ≤ℤ paid_of debt funds) × (paid_of debt funds ≤ℤ debt) × (paid_of debt funds ≤ℤ funds)
paid_bounds debt funds h k =
    let base = max_ℤ_bounds (pos 1_000) (debt /ℤ 30) in
    let due = min_ℤ_bounds debt (max_ℤ (pos 1_000) (debt /ℤ 30)) in
    let paid = min_ℤ_bounds (payment_of debt) funds in
    let least =
      min_ℤ_above (pos 0) debt (max_ℤ (pos 1_000) (debt /ℤ 30)) h (omega (arith, base.0)) in
    (min_ℤ_above (pos 0) (payment_of debt) funds least k, omega (arith, due.0, paid.0), paid.1)

interest_nonneg : (debt : ℤ) → pos 0 ≤ℤ debt → pos 0 ≤ℤ interest debt
interest_nonneg debt h = omega (int_laws, (max_ℤ_bounds (pos 1) (debt /ℤ 5_000)).0)

repaid-IsRunning : (c : Company) → IsRunning c → IsRunning (repaid c)
unfolding repaid
repaid-IsRunning c h =
    let paid =
      paid_bounds (interest c.business.debt_cents) c.owner.business_cash_cents
        (interest_nonneg _ h.loan) h.sound.business in
    record {
      sound = record {
        savings = h.sound.savings;
        hysa = h.sound.hysa;
        debt = h.sound.debt;
        bonds = h.sound.bonds;
        business = omega (int_laws, paid.2);
        score_low = h.sound.score_low;
        score_high = h.sound.score_high;
      };
      loan = omega (int_laws, paid.1);
    }

on_time-IsRunning :
    (symbol : Bytes) (about : Subject) (paid : ℤ) (c : Company)
    → IsRunning c
    → IsRunning (on_time symbol about paid c)
unfolding on_time
on_time-IsRunning symbol about paid c h =
    let score = score_up_bounds (pos 2) c.owner.credit_score (omega arith) h.sound.score_low in
    record {
      sound = record {
        savings = h.sound.savings;
        hysa = h.sound.hysa;
        debt = h.sound.debt;
        bonds = h.sound.bonds;
        business = h.sound.business;
        score_low = score.0;
        score_high = score.1;
      };
      loan = h.loan;
    }

too_late-IsRunning : (about : Subject) (c : Company) → IsRunning c → IsRunning (too_late about c)
unfolding too_late
too_late-IsRunning about c h =
    let score = score_down_bounds (pos 30) c.owner.credit_score (omega arith) h.sound.score_high in
    let fee = max_ℤ_bounds (pos 500) (c.business.debt_cents /ℤ 100) in
    record {
      sound = record {
        savings = h.sound.savings;
        hysa = h.sound.hysa;
        debt = h.sound.debt;
        bonds = h.sound.bonds;
        business = h.sound.business;
        score_low = score.0;
        score_high = score.1;
      };
      loan = omega (int_laws, h.loan, fee.0);
    }

liquidate-IsRunning : (about : Subject) (c : Company) → IsRunning c → IsRunning (liquidate about c)
unfolding liquidate
liquidate-IsRunning about c h =
    let nothing : pos 0 ≤ℤ pos 0 = omega arith in
    record {
      sound = record {
        savings = h.sound.savings;
        hysa = h.sound.hysa;
        debt = omega (int_laws, h.loan, h.sound.debt);
        bonds = h.sound.bonds;
        business = nothing;
        score_low = h.sound.score_low;
        score_high = h.sound.score_high;
      };
      loan = nothing;
    }

next_day-IsRunning : (c : Company) → IsRunning c → IsRunning (next_day c)
next_day-IsRunning c h = record { sound = h.sound; loan = h.loan }

loan_day-IsRunning :
    (symbol : Bytes) (about : Subject) (c : Company)
    → IsRunning c
    → IsRunning (loan_day symbol about c)
unfolding loan_day
loan_day-IsRunning symbol about c h =
    let less = repaid-IsRunning c h in
    let later = next_day-IsRunning _ (
      if_keeps IsRunning _ _ _ (on_time-IsRunning symbol about _ _ less)
        (too_late-IsRunning about _ less)) in
    if_keeps IsRunning _ _ _ (liquidate-IsRunning about _ later) later

loan_loop-IsRunning :
    (symbol : Bytes) (about : Subject) (periods : ℕ) (c : Company)
    → IsRunning c
    → IsRunning (loan_loop symbol about periods c)
unfolding loan_loop
loan_loop-IsRunning symbol about zero c h = h
loan_loop-IsRunning symbol about (suc periods) c h =
    if_keeps IsRunning _ _ _
      (loan_loop-IsRunning symbol about periods _ (loan_day-IsRunning symbol about c h)) h

-- Nothing that is owed goes away by itself.
owed-repaid : (c : Company) → owed c ≤ℤ owed (repaid c)
unfolding repaid
owed-repaid c = omega (int_laws, (max_ℤ_bounds (pos 1) (c.business.debt_cents /ℤ 5_000)).0)

owed-too_late : (about : Subject) (c : Company) → owed c ≤ℤ owed (too_late about c)
unfolding too_late
owed-too_late about c = omega (int_laws, (max_ℤ_bounds (pos 500) (c.business.debt_cents /ℤ 100)).0)

owed-liquidate :
    (about : Subject) (c : Company)
    → pos 0 ≤ℤ c.owner.business_cash_cents
    → owed c ≤ℤ owed (liquidate about c)
unfolding liquidate
owed-liquidate about c h = omega int_laws

owed-reviewed :
    (about : Subject) (c : Company)
    → pos 0 ≤ℤ c.owner.business_cash_cents
    → owed c ≤ℤ owed (reviewed about c)
owed-reviewed about c h =
    if_keeps (λ (x : Company). owed c ≤ℤ owed x) (leb 3 c.business.missed_payments)
      (liquidate about c) c (owed-liquidate about c h) (omega arith)

loan_day_owed :
    (symbol : Bytes) (about : Subject) (c : Company)
    → IsRunning c
    → owed c ≤ℤ owed (loan_day symbol about c)
unfolding loan_day
loan_day_owed symbol about c h =
    let debt = interest c.business.debt_cents in
    let paid = paid_of debt c.owner.business_cash_cents in
    let less = repaid-IsRunning c h in
    let first = owed-repaid c in
    if_keeps (λ (x : Company). owed c ≤ℤ owed (reviewed about (next_day x)))
      (leb_ℤ (payment_of debt) paid) (on_time symbol about paid (repaid c))
      (too_late about (repaid c))
      (let x = on_time symbol about paid (repaid c) in
        let same : owed x ≡ owed (repaid c) = unfold on_time in refl in
        omega (
          arith,
          first,
          ends _ _ same,
          owed-reviewed about (next_day x)
              (on_time-IsRunning symbol about paid (repaid c) less).sound.business,
        ))
      (let x = too_late about (repaid c) in
        omega (
          arith,
          first,
          owed-too_late about (repaid c),
          owed-reviewed about (next_day x)
              (too_late-IsRunning about (repaid c) less).sound.business,
        ))

loan_loop_owed :
    (symbol : Bytes) (about : Subject) (periods : ℕ) (c : Company)
    → IsRunning c
    → owed c ≤ℤ owed (loan_loop symbol about periods c)
unfolding loan_loop
loan_loop_owed symbol about zero c h = omega arith
loan_loop_owed symbol about (suc periods) c h =
    let later = loan_day symbol about c in
    if_keeps (λ (x : Company). owed c ≤ℤ owed x) (ltb_ℤ (pos 0) c.business.debt_cents)
      (loan_loop symbol about periods later) c
      (omega (
        arith,
        loan_day_owed symbol about c h,
        loan_loop_owed symbol about periods later (loan_day-IsRunning symbol about c h),
      ))
      (omega arith)

-- When the owner's record meets the checks of the store and the loan is not negative, both hold
-- after the payments that are due, a liquidation included, and what owner and company owe less the
-- company's cash has not shrunk.
pub loan_loop_keeps :
    (symbol : Bytes) (about : Subject) (periods : ℕ) (c : Company)
    → IsRunning c
    → IsRunning (loan_loop symbol about periods c)
      × (owed c ≤ℤ owed (loan_loop symbol about periods c))
loan_loop_keeps symbol about periods c h =
    (loan_loop-IsRunning symbol about periods c h, loan_loop_owed symbol about periods c h)
