-- ===== src/Economy/Market/Spread.antt =====
-- The spread of a stock.
use routine_linux_edition.Base.{ℕ, ◌*◌, ◌/◌, ◌≤◌, arith}
use routine_linux_edition.Base.Int.{
  pos, ◌≤ℤ◌, clamp_bounds, max_ℤ, max_ℤ_bounds, pos_part, pos_mul, pos_div, nonneg_pos, one_part,
}
use routine_linux_edition.Economy.State.{GuildExchange}
use routine_linux_edition.Economy.Market.{stock_spread, spread_basis_points}

spread_basis_points_bounds :
    (exchange : GuildExchange) (stock : ℕ)
    → (pos 25 ≤ℤ spread_basis_points exchange stock)
      × (spread_basis_points exchange stock ≤ℤ pos 900)
unfolding spread_basis_points
spread_basis_points_bounds exchange stock = clamp_bounds _ (pos 25) (pos 900) (omega arith)

scaled : (a b : ℕ) → b ≤ 900 → a * b / 10_000 ≤ a * 900 / 10_000
scaled a b h = grind arith

-- At a price that is not negative the spread is at least two cents, and above that at most 9 per
-- cent of the price.
pub stock_spread_bounds :
    (exchange : GuildExchange) (stock price : ℕ)
    → (pos 2 ≤ℤ stock_spread exchange stock (pos price))
      × (stock_spread exchange stock (pos price) ≤ℤ max_ℤ (pos 2) (pos (price * 900 / 10_000)))
unfolding stock_spread
stock_spread_bounds exchange stock price =
    let bp = spread_basis_points exchange stock in
    let bounds = spread_basis_points_bounds exchange stock in
    let n = pos_part bp in
    rw (nonneg_pos bp (omega arith), pos_mul price n, pos_div (price * n) 10_000)
      (grind (
        arith,
        scaled price n (omega (arith, one_part bp)),
        max_ℤ_bounds (pos 2) (pos (price * n / 10_000)),
        max_ℤ_bounds (pos 2) (pos (price * 900 / 10_000)),
      ))
