-- ===== src/Economy/Tick/Debt/Solvent.antt =====
-- What the autopay of debts keeps of a player's accounts.
use routine_linux_edition.Base.{ℕ, zero, suc, ◌≡◌, refl, arith, if_keeps, leb}
use routine_linux_edition.Base.Int.{
  ℤ, pos, ◌+ℤ◌, ◌-ℤ◌, ◌/ℤ◌, ◌≤ℤ◌, leb_ℤ, ltb_ℤ, max_ℤ, min_ℤ_bounds, max_ℤ_bounds, min_ℤ_above,
  int_laws, ends,
}
use routine_linux_edition.Base.Bytes.{Bytes}
use routine_linux_edition.Economy.State.{ChaosPlayer}
use routine_linux_edition.Economy.Tick.{Subject, collected}
use routine_linux_edition.Economy.Tick.Collect.{
  IsFunded, collected_bounds, charged-IsFunded, charged_pays,
}
use routine_linux_edition.Economy.Tick.Sound.{IsSound, score_up_bounds, score_down_bounds}
use routine_linux_edition.Economy.Tick.Debt.{
  Debtor, minimum_due, seizure, paid_off, delinquent, defaulted, reduced, missed, next_day, autopay,
  autopay_loop, cleared, without_debt,
}

-- What the checks of the store want of the accounts that an autopay changes.
pub record IsSolvent (d : Debtor) : Type 0 where
  pub funded : IsFunded d.wallet
  pub sound : IsSound d.player

-- What the player has, less what is owed.
abbrev pub net : Debtor → ℤ
net d =
    d.wallet.wallet_cents +ℤ d.wallet.checking_cents +ℤ d.player.savings_cents
    -ℤ d.player.debt_cents

minimum_due_bounds :
    (debt : ℤ) → pos 0 ≤ℤ debt → (pos 0 ≤ℤ minimum_due debt) × (minimum_due debt ≤ℤ debt)
minimum_due_bounds debt h =
    let large = max_ℤ_bounds (pos 500) (debt /ℤ 20) in
    (
      min_ℤ_above (pos 0) debt _ h (omega (arith, large.0)),
      (min_ℤ_bounds debt (max_ℤ (pos 500) (debt /ℤ 20))).0,
    )

reduced-IsSolvent :
    (d : Debtor) → IsSolvent d → IsSolvent (reduced (minimum_due d.player.debt_cents) d)
reduced-IsSolvent d h =
    let due = minimum_due_bounds d.player.debt_cents h.sound.debt in
    let taken = collected_bounds (minimum_due d.player.debt_cents) d.wallet h.funded due.0 in
    record {
      funded = charged-IsFunded (minimum_due d.player.debt_cents) d.wallet h.funded due.0;
      sound = record {
        savings = h.sound.savings;
        hysa = h.sound.hysa;
        debt = omega (int_laws, taken.1, due.1);
        bonds = h.sound.bonds;
        business = h.sound.business;
        score_low = h.sound.score_low;
        score_high = h.sound.score_high;
      };
    }

paid_off-IsSolvent :
    (symbol : Bytes) (about : Subject) (paid : ℤ) (d : Debtor)
    → IsSolvent d
    → IsSolvent (paid_off symbol about paid d)
unfolding paid_off
paid_off-IsSolvent symbol about paid d h =
    let score = score_up_bounds (pos 2) d.player.credit_score (omega arith) h.sound.score_low in
    record {
      funded = h.funded;
      sound = record {
        savings = h.sound.savings;
        hysa = h.sound.hysa;
        debt = h.sound.debt;
        bonds = h.sound.bonds;
        business = h.sound.business;
        score_low = score.0;
        score_high = score.1;
      };
    }

delinquent-IsSolvent :
    (symbol : Bytes) (about : Subject) (d : Debtor)
    → IsSolvent d
    → IsSolvent (delinquent symbol about d)
unfolding delinquent
delinquent-IsSolvent symbol about d h =
    let score = score_down_bounds (pos 35) d.player.credit_score (omega arith) h.sound.score_high in
    let fee = max_ℤ_bounds (pos 250) (d.player.debt_cents /ℤ 100) in
    record {
      funded = h.funded;
      sound = record {
        savings = h.sound.savings;
        hysa = h.sound.hysa;
        debt = omega (int_laws, h.sound.debt, fee.0);
        bonds = h.sound.bonds;
        business = h.sound.business;
        score_low = score.0;
        score_high = score.1;
      };
    }

seizure_bounds :
    (p : ChaosPlayer)
    → pos 0 ≤ℤ p.savings_cents
    → (pos 0 ≤ℤ seizure p) × (seizure p ≤ℤ p.savings_cents)
seizure_bounds p h =
    let large = max_ℤ_bounds (pos 500) (p.debt_cents /ℤ 10) in
    (
      min_ℤ_above (pos 0) p.savings_cents _ h (omega (arith, large.0)),
      (min_ℤ_bounds p.savings_cents (max_ℤ (pos 500) (p.debt_cents /ℤ 10))).0,
    )

defaulted-IsSolvent :
    (symbol : Bytes) (about : Subject) (d : Debtor)
    → IsSolvent d
    → IsSolvent (defaulted symbol about d)
unfolding defaulted
defaulted-IsSolvent symbol about d h =
    let score = score_down_bounds (pos 75) d.player.credit_score (omega arith) h.sound.score_high in
    let seized = seizure_bounds d.player h.sound.savings in
    let repaid = min_ℤ_bounds d.player.debt_cents (seizure d.player) in
    record {
      funded = h.funded;
      sound = record {
        savings = omega (int_laws, seized.1);
        hysa = h.sound.hysa;
        debt = omega (int_laws, repaid.0);
        bonds = h.sound.bonds;
        business = h.sound.business;
        score_low = score.0;
        score_high = score.1;
      };
    }

missed-IsSolvent :
    (symbol : Bytes) (about : Subject) (d : Debtor)
    → IsSolvent d
    → IsSolvent (missed symbol about d)
missed-IsSolvent symbol about d h =
    let late = delinquent-IsSolvent symbol about d h in
    if_keeps IsSolvent _ _ _ (defaulted-IsSolvent symbol about (delinquent symbol about d) late)
      late

next_day-IsSolvent : (d : Debtor) → IsSolvent d → IsSolvent (next_day d)
next_day-IsSolvent d h = record {
  funded = h.funded;
  sound = record {
    savings = h.sound.savings;
    hysa = h.sound.hysa;
    debt = h.sound.debt;
    bonds = h.sound.bonds;
    business = h.sound.business;
    score_low = h.sound.score_low;
    score_high = h.sound.score_high;
  };
}

pub autopay-IsSolvent :
    (symbol : Bytes) (about : Subject) (d : Debtor)
    → IsSolvent d
    → IsSolvent (autopay symbol about d)
unfolding autopay
autopay-IsSolvent symbol about d h =
    let less = reduced-IsSolvent d h in
    next_day-IsSolvent _ (
      if_keeps IsSolvent _ _ _ (paid_off-IsSolvent symbol about _ _ less)
        (missed-IsSolvent symbol about _ less))

pub autopay_loop-IsSolvent :
    (symbol : Bytes) (about : Subject) (periods : ℕ) (d : Debtor)
    → IsSolvent d
    → IsSolvent (autopay_loop symbol about periods d)
unfolding autopay_loop
autopay_loop-IsSolvent symbol about zero d h = h
autopay_loop-IsSolvent symbol about (suc periods) d h =
    if_keeps IsSolvent _ _ _
      (autopay_loop-IsSolvent symbol about periods _ (autopay-IsSolvent symbol about d h)) h

pub cleared-IsSolvent : (d : Debtor) → IsSolvent d → IsSolvent (cleared d)
unfolding cleared
cleared-IsSolvent d h =
    let nothing : pos 0 ≤ℤ pos 0 = omega arith in
    if_keeps IsSolvent (leb_ℤ d.player.debt_cents (pos 0)) (without_debt d) d
      (record {
        funded = h.funded;
        sound = record {
          savings = h.sound.savings;
          hysa = h.sound.hysa;
          debt = nothing;
          bonds = h.sound.bonds;
          business = h.sound.business;
          score_low = h.sound.score_low;
          score_high = h.sound.score_high;
        };
      })
      h

-- Paying moves money out of the accounts and the same off the debt.
net-reduced : (due : ℤ) (d : Debtor) → net (reduced due d) ≡ net d
net-reduced due d = omega (int_laws, ends _ _ (charged_pays due d.wallet))

net-paid_off :
    (symbol : Bytes) (about : Subject) (paid : ℤ) (d : Debtor)
    → net (paid_off symbol about paid d) ≡ net d
unfolding paid_off
net-paid_off symbol about paid d = refl

net-delinquent :
    (symbol : Bytes) (about : Subject) (d : Debtor) → net (delinquent symbol about d) ≤ℤ net d
unfolding delinquent
net-delinquent symbol about d =
    omega (int_laws, (max_ℤ_bounds (pos 250) (d.player.debt_cents /ℤ 100)).0)

net-defaulted :
    (symbol : Bytes) (about : Subject) (d : Debtor) → net (defaulted symbol about d) ≤ℤ net d
unfolding defaulted
net-defaulted symbol about d =
    omega (int_laws, (min_ℤ_bounds d.player.debt_cents (seizure d.player)).1)

net-missed : (symbol : Bytes) (about : Subject) (d : Debtor) → net (missed symbol about d) ≤ℤ net d
net-missed symbol about d =
    let late = net-delinquent symbol about d in
    if_keeps (λ (x : Debtor). net x ≤ℤ net d)
      (leb 3 (delinquent symbol about d).lifecycle.missed_payments)
      (defaulted symbol about (delinquent symbol about d)) (delinquent symbol about d)
      (omega (int_laws, late, net-defaulted symbol about (delinquent symbol about d))) late

autopay_net :
    (symbol : Bytes) (about : Subject) (d : Debtor) → net (autopay symbol about d) ≤ℤ net d
unfolding autopay
autopay_net symbol about d =
    let due = minimum_due d.player.debt_cents in
    let same = ends _ _ (net-reduced due d) in
    if_keeps (λ (x : Debtor). net (next_day x) ≤ℤ net d) (leb_ℤ due (collected due d.wallet)) _ _
      (omega (
        int_laws,
        same,
        ends _ _ (net-paid_off symbol about (collected due d.wallet) (reduced due d)),
      ))
      (omega (int_laws, same, net-missed symbol about (reduced due d)))

-- The payments that are due on a debt never raise what a player has in the wallet, the checking
-- account and the savings less the debt.
pub autopay_loop_net :
    (symbol : Bytes) (about : Subject) (periods : ℕ) (d : Debtor)
    → net (autopay_loop symbol about periods d) ≤ℤ net d
unfolding autopay_loop
autopay_loop_net symbol about zero d = omega arith
autopay_loop_net symbol about (suc periods) d =
    let more = autopay_loop_net symbol about periods (autopay symbol about d) in
    if_keeps (λ (x : Debtor). net x ≤ℤ net d) (ltb_ℤ (pos 0) d.player.debt_cents) _ _
      (omega (int_laws, more, autopay_net symbol about d)) (omega arith)
