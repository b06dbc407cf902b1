-- ===== src/Economy/News/Impact.antt =====
-- What an event does to the prices and the sentiment.
use routine_linux_edition.Base.{inl, inr, arith, Bool-cases}
use routine_linux_edition.Base.Int.{ℤ, pos, ◌≤ℤ◌, clamp, clamp_bounds}
use routine_linux_edition.Economy.State.{GuildEconomy, GuildExchange, NewsEvent}
use routine_linux_edition.Economy.Market.{minimum_price, maximum_price}
use routine_linux_edition.Economy.Orders.Remaining.{IsPriced, set-IsPriced}
use routine_linux_edition.Economy.News.{has_company, apply_news_impact}

-- The prices are within their bounds, and so is the confidence.
pub record IsCalm (economy : GuildEconomy) : Type 0 where
  pub priced : IsPriced economy.prices
  pub confident : (pos 10 ≤ℤ economy.confidence) × (economy.confidence ≤ℤ pos 90)

price_clamped :
    (v : ℤ)
    → (minimum_price ≤ℤ clamp v minimum_price maximum_price)
      × (clamp v minimum_price maximum_price ≤ℤ maximum_price)
price_clamped v = clamp_bounds v minimum_price maximum_price (omega arith)

confidence_clamped :
    (v : ℤ) → (pos 10 ≤ℤ clamp v (pos 10) (pos 90)) × (clamp v (pos 10) (pos 90) ≤ℤ pos 90)
confidence_clamped v = clamp_bounds v (pos 10) (pos 90) (omega arith)

-- When the prices are within their bounds, an event leaves them so, and it leaves the confidence
-- between 10 and 90.
pub apply_news_impact-IsCalm :
    (event : NewsEvent) (economy : GuildEconomy) (exchange : GuildExchange)
    → IsPriced economy.prices
    → IsCalm (apply_news_impact event economy exchange).0
unfolding apply_news_impact
apply_news_impact-IsCalm event economy exchange h = elim (Bool-cases (has_company event)) [
  | inl some ↦ rw some (record {
    priced = set-IsPriced economy.prices _ _ h (price_clamped _);
    confident = confidence_clamped _;
  })
  | inr none ↦ rw none (record { priced = h; confident = confidence_clamped _ })
]
