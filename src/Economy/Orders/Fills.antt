-- ===== src/Economy/Orders/Fills.antt =====
-- What a trade does to the order, the wallet, the price and the liquidity.
use routine_linux_edition.Base.{ℕ, ◌+◌, ◌-◌, ◌≤◌, ◌≡◌, ◌⊎◌, true, false, arith, get_or}
use routine_linux_edition.Base.Int.{
  ℤ, pos, ◌+ℤ◌, ◌-ℤ◌, ◌*ℤ◌, ◌≤ℤ◌, clamp_bounds, max_ℤ_left, *ℤ_nonneg, *ℤ_split, *ℤ_mono, int_laws,
}
use routine_linux_edition.Economy.Status.{u32_mod}
use routine_linux_edition.Economy.State.{GuildExchange, LimitOrder}
use routine_linux_edition.Economy.Market.{minimum_price, maximum_price}
use routine_linux_edition.Economy.Orders.{
  Floor, fills_at, fill_of, shares_held, moved_price, credit_of,
}

-- A trade never fills more than the order asks, than the market has left of the hour, or, for a
-- buyer, than fits the number of shares.
pub fill_of_bounds :
    (f : Floor) (o : LimitOrder)
    → (fill_of f o ≤ o.quantity)
      × (fill_of f o ≤ get_or 0 f.exchange.remaining_liquidity o.stock)
      × ((o.buy ≡ false) ⊎ (fill_of f o ≤ u32_mod - 1 - shares_held f o))
unfolding fill_of
fill_of_bounds f o = ground arith

-- Every trade leaves the price within its bounds.
pub moved_price_bounds :
    (exchange : GuildExchange) (o : LimitOrder) (fill : ℕ) (price : ℤ)
    → (minimum_price ≤ℤ moved_price exchange o fill price)
      × (moved_price exchange o fill price ≤ℤ maximum_price)
unfolding moved_price
moved_price_bounds exchange o fill price = clamp_bounds _ minimum_price maximum_price (omega arith)

-- Where the execution price fits the limit of a buyer, the money that the order had set aside for
-- the shares that are traded and those that are left is what is paid for the traded ones, what
-- comes back to the wallet, and what is still set aside.
pub credit_of_escrow :
    (o : LimitOrder) (execution : ℤ) (fill left : ℕ)
    → o.buy ≡ true
    → fills_at o execution ≡ true
    → o.limit_price_cents *ℤ pos (fill + left)
      ≡ execution *ℤ pos fill +ℤ credit_of o execution fill +ℤ o.limit_price_cents *ℤ pos left
unfolding credit_of fills_at
credit_of_escrow o execution fill left buys fits =
    let limit = o.limit_price_cents in
    let room : execution ≤ℤ limit = ground arith in
    let saved = (limit -ℤ execution) *ℤ pos fill in
    let not_negative : pos 0 ≤ℤ saved =
      *ℤ_nonneg (limit -ℤ execution) (pos fill) (omega int_laws) (omega arith) in
    rw (buys, max_ℤ_left saved not_negative) (*ℤ_split limit execution fill left)

-- Where the execution price fits the limit of a seller, the seller gets at least the limit for each
-- share.
pub credit_of_sale :
    (o : LimitOrder) (execution : ℤ) (fill : ℕ)
    → o.buy ≡ false
    → fills_at o execution ≡ true
    → o.limit_price_cents *ℤ pos fill ≤ℤ credit_of o execution fill
unfolding credit_of fills_at
credit_of_sale o execution fill sells fits =
    rw sells (*ℤ_mono o.limit_price_cents execution fill (ground arith))
