-- ===== src/Economy/Market/Share/Bounds.antt =====
-- What an hour of trade keeps of a stock.
use routine_linux_edition.Base.{◌≡◌, refl, arith, if_keeps}
use routine_linux_edition.Base.Int.{
  ℤ, pos, ◌+ℤ◌, ◌-ℤ◌, ◌*ℤ◌, ◌/ℤ◌, ◌≤ℤ◌, ltb_ℤ, clamp_bounds, max_ℤ_bounds, max_ℤ_nonneg, /ℤ_nonneg,
  int_laws,
}
use routine_linux_edition.Economy.Market.{minimum_price, maximum_price}
use routine_linux_edition.Economy.Market.Share.{
  Luck, Share, grown, next_debt, earned, next_price, mood, priced, distressed,
}

-- A stock in good order.
pub record IsInOrder (h : Share) : Type 0 where
  pub price_low : minimum_price ≤ℤ h.price
  pub price_high : h.price ≤ℤ maximum_price
  pub revenue : pos 10_000 ≤ℤ h.revenue
  pub expenses : pos 10_000 ≤ℤ h.expenses
  pub profit : h.profit ≡ h.revenue -ℤ h.expenses
  pub cash : pos 0 ≤ℤ h.cash
  pub debt : pos 0 ≤ℤ h.debt
  pub sentiment_low : pos 0 ≤ℤ h.sentiment
  pub sentiment_high : h.sentiment ≤ℤ pos 100

next_debt_nonneg : (profit debt : ℤ) → pos 0 ≤ℤ debt → pos 0 ≤ℤ next_debt profit debt
unfolding next_debt
next_debt_nonneg profit debt h =
    if_keeps (λ (d : ℤ). pos 0 ≤ℤ d) (ltb_ℤ profit (pos 0)) _ _
      (omega (int_laws, /ℤ_nonneg debt 100_000 h)) (max_ℤ_nonneg (debt -ℤ profit /ℤ 20))

-- When the debt of a company is not negative, an hour of trade before dilution leaves the price
-- between 50 cents and 10^9, the mood between 0 and 100, cash and debt not negative, income and
-- costs at least 10000, and the profit their difference.
pub traded-IsInOrder :
    (bias inflation move step_time : ℤ) (l : Luck) (h : Share)
    → pos 0 ≤ℤ h.debt
    → IsInOrder (distressed (priced step_time move (mood bias l (earned bias inflation l h))))
unfolding distressed priced mood earned grown next_price
traded-IsInOrder bias inflation move step_time l h k =
    let price =
      clamp_bounds (h.price +ℤ h.price *ℤ move /ℤ 1_000) minimum_price maximum_price
        (omega arith) in
    let spirit =
      clamp_bounds (h.sentiment +ℤ bias /ℤ 5 +ℤ l.sentiment /ℤ 20) (pos 0) (pos 100)
        (omega arith) in
    record {
      price_low = price.0;
      price_high = price.1;
      revenue = (max_ℤ_bounds (pos 10_000) _).0;
      expenses = (max_ℤ_bounds (pos 10_000) _).0;
      profit = refl;
      cash = max_ℤ_nonneg _;
      debt = next_debt_nonneg _ h.debt k;
      sentiment_low = spirit.0;
      sentiment_high = spirit.1;
    }
