-- ===== src/Economy/Tick/Property/Mortgage.antt =====
-- What the payments of a mortgage keep.
use routine_linux_edition.Base.{
  ℕ, zero, suc, ◌≡◌, refl, true, false, not, ◌&&◌, arith, leb, if_keeps, if_each,
}
use routine_linux_edition.Base.Int.{
  ℤ, pos, ◌+ℤ◌, ◌-ℤ◌, ◌/ℤ◌, ◌≤ℤ◌, leb_ℤ, ltb_ℤ, min_ℤ, max_ℤ, min_ℤ_bounds, max_ℤ_bounds,
  min_ℤ_above, min_ℤ_right, /ℤ_nonneg, int_laws, ends,
}
use routine_linux_edition.Economy.State.{PropertyAsset}
use routine_linux_edition.Economy.Tick.{collected}
use routine_linux_edition.Economy.Tick.Collect.{
  IsFunded, collected_bounds, charged-IsFunded, charged_pays,
}
use routine_linux_edition.Economy.Tick.Sound.{IsSound, score_up_bounds, score_down_bounds}
use routine_linux_edition.Economy.Tick.Property.{
  Estate, instalment, kept_up, fallen_behind, paid_in, next_day, mortgage_day, mortgage_loop,
}

-- Seized only after the third miss.
abbrev pub IsSeizedLate : Estate → Type 0
IsSeizedLate e = e.foreclosed ≡ leb 3 e.property.missed_payments

pub record IsKept (e : Estate) : Type 0 where
  pub funded : IsFunded e.wallet
  pub sound : IsSound e.player
  pub mortgage : pos 0 ≤ℤ e.property.mortgage_cents
  pub seized : IsSeizedLate e

-- The owner's money less the mortgage.
abbrev pub net : Estate → ℤ
net e = e.wallet.wallet_cents +ℤ e.wallet.checking_cents -ℤ e.property.mortgage_cents

instalment_bounds :
    (p : PropertyAsset)
    → pos 0 ≤ℤ p.mortgage_cents
    → (pos 0 ≤ℤ instalment p) × (instalment p ≤ℤ p.mortgage_cents)
unfolding instalment
instalment_bounds p h =
    let base = max_ℤ_bounds (pos 1_000) (p.purchase_price_cents /ℤ 60) in
    let extra = /ℤ_nonneg p.mortgage_cents 1_000 h in
    let due = max_ℤ (pos 1_000) (p.purchase_price_cents /ℤ 60) +ℤ p.mortgage_cents /ℤ 1_000 in
    (
      min_ℤ_above (pos 0) p.mortgage_cents due h (omega (int_laws, base.0)),
      (min_ℤ_bounds p.mortgage_cents due).0,
    )

-- All of what is collected is taken off.
paid_in-IsKept : (e : Estate) → IsKept e → IsKept (paid_in (instalment e.property) e)
paid_in-IsKept e h =
    let due = instalment_bounds e.property h.mortgage in
    let taken =
      min_ℤ_bounds e.property.mortgage_cents (collected (instalment e.property) e.wallet) in
    record {
      funded = charged-IsFunded (instalment e.property) e.wallet h.funded due.0;
      sound = h.sound;
      mortgage = omega (int_laws, taken.0);
      seized = h.seized;
    }

kept_up-IsKept : (e : Estate) → IsKept e → e.foreclosed ≡ false → IsKept (kept_up e)
unfolding kept_up
kept_up-IsKept e h f =
    let score = score_up_bounds (pos 2) e.player.credit_score (omega arith) h.sound.score_low in
    record {
      funded = h.funded;
      sound = record {
        savings = h.sound.savings;
        hysa = h.sound.hysa;
        debt = h.sound.debt;
        bonds = h.sound.bonds;
        business = h.sound.business;
        score_low = score.0;
        score_high = score.1;
      };
      mortgage = h.mortgage;
      seized = f;
    }

fallen_behind-IsKept : (e : Estate) → IsKept e → IsKept (fallen_behind e)
unfolding fallen_behind
fallen_behind-IsKept e h =
    let score = score_down_bounds (pos 45) e.player.credit_score (omega arith) h.sound.score_high in
    let fee = max_ℤ_bounds (pos 500) (e.property.mortgage_cents /ℤ 200) in
    record {
      funded = h.funded;
      sound = record {
        savings = h.sound.savings;
        hysa = h.sound.hysa;
        debt = h.sound.debt;
        bonds = h.sound.bonds;
        business = h.sound.business;
        score_low = score.0;
        score_high = score.1;
      };
      mortgage = omega (int_laws, h.mortgage, fee.0);
      seized = refl;
    }

next_day-IsKept : (e : Estate) → IsKept e → IsKept (next_day e)
next_day-IsKept e h = record {
  funded = h.funded;
  sound = h.sound;
  mortgage = h.mortgage;
  seized = h.seized;
}

mortgage_day-IsKept : (e : Estate) → IsKept e → e.foreclosed ≡ false → IsKept (mortgage_day e)
unfolding mortgage_day
mortgage_day-IsKept e h f =
    let less = paid_in-IsKept e h in
    next_day-IsKept _
      (if_keeps IsKept _ _ _ (kept_up-IsKept _ less f) (fallen_behind-IsKept _ less))

not_seized :
    (e : Estate)
    → not e.foreclosed && ltb_ℤ (pos 0) e.property.mortgage_cents ≡ true
    → e.foreclosed ≡ false
not_seized e h = ground arith

mortgage_loop-IsKept : (periods : ℕ) (e : Estate) → IsKept e → IsKept (mortgage_loop periods e)
unfolding mortgage_loop
mortgage_loop-IsKept zero e h = h
mortgage_loop-IsKept (suc periods) e h =
    if_each IsKept (not e.foreclosed && ltb_ℤ (pos 0) e.property.mortgage_cents) _ _
      (λ more. mortgage_loop-IsKept periods _ (mortgage_day-IsKept e h (not_seized e more)))
      (λ _. h)

net-paid_in : (e : Estate) → IsKept e → net (paid_in (instalment e.property) e) ≡ net e
net-paid_in e h =
    let due = instalment_bounds e.property h.mortgage in
    let got = collected_bounds (instalment e.property) e.wallet h.funded due.0 in
    let all_of_it : min_ℤ e.property.mortgage_cents (collected (instalment e.property) e.wallet)
        ≡ collected (instalment e.property) e.wallet =
      min_ℤ_right _ _ (omega (arith, due.1, got.1)) in
    omega (int_laws, ends _ _ all_of_it, ends _ _ (charged_pays (instalment e.property) e.wallet))

net-fallen_behind : (e : Estate) → net (fallen_behind e) ≤ℤ net e
unfolding fallen_behind
net-fallen_behind e =
    omega (int_laws, (max_ℤ_bounds (pos 500) (e.property.mortgage_cents /ℤ 200)).0)

mortgage_day_net : (e : Estate) → IsKept e → net (mortgage_day e) ≤ℤ net e
unfolding mortgage_day
mortgage_day_net e h =
    let same = ends _ _ (net-paid_in e h) in
    let payment = instalment e.property in
    if_keeps (λ (x : Estate). net (next_day x) ≤ℤ net e)
      (leb_ℤ payment (collected payment e.wallet)) _ _ (unfold kept_up in same.0)
      (omega (arith, same.0, net-fallen_behind (paid_in payment e)))

mortgage_loop_net : (periods : ℕ) (e : Estate) → IsKept e → net (mortgage_loop periods e) ≤ℤ net e
unfolding mortgage_loop
mortgage_loop_net zero e h = omega arith
mortgage_loop_net (suc periods) e h =
    if_each (λ (x : Estate). net x ≤ℤ net e)
      (not e.foreclosed && ltb_ℤ (pos 0) e.property.mortgage_cents) _ _
      (λ more.
        let day = mortgage_day-IsKept e h (not_seized e more) in
        omega (arith, mortgage_day_net e h, mortgage_loop_net periods (mortgage_day e) day))
      (λ _. omega arith)

-- When the accounts of an owner meet the checks of the store, the mortgage is not negative and a
-- property counts as seized just when three payments are missed, all of this holds after the
-- payments that are due, and the money of the owner less the mortgage has not grown.
pub mortgage_loop_keeps :
    (periods : ℕ) (e : Estate)
    → IsKept e
    → IsKept (mortgage_loop periods e) × (net (mortgage_loop periods e) ≤ℤ net e)
mortgage_loop_keeps periods e h = (mortgage_loop-IsKept periods e h, mortgage_loop_net periods e h)
