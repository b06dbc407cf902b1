-- ===== src/Economy/Orders/Remaining.antt =====
-- What the loop over the orders keeps: valid orders, prices within bounds, and the liquidity of the
-- hour as the limit of what is traded.
use native.Mathlib.Nat.{le_trans, mul-le-mul_left}
use routine_linux_edition.Base.{
  ℕ, zero, suc, ◌-◌, ◌≤◌, ◌≡◌, inl, inr, Bool, true, false, ◌&&◌, List, [], ◌∷◌, arith, Bool-cases,
  ◌==◌, get_or, set, All,
}
use routine_linux_edition.Base.Int.{ℤ, ◌≤ℤ◌}
use routine_linux_edition.Base.Bytes.{Bytes}
use routine_linux_edition.Economy.State.{LimitOrder}
use routine_linux_edition.Economy.Limits.{order_holds}
use routine_linux_edition.Economy.Limits.Orders.{
  limit_of, order_holds-Admitted, Admitted-order_holds,
}
use routine_linux_edition.Economy.Market.{minimum_price, maximum_price}
use routine_linux_edition.Economy.Orders.{
  Floor, fill_of, trade, is_filled, is_traded, round, process_orders, after_round,
}
use routine_linux_edition.Economy.Orders.Fills.{moved_price_bounds}

abbrev pub AllHold : List LimitOrder → Type 0
AllHold orders = All (λ (o : LimitOrder). order_holds o ≡ true) orders

less_holds :
    (o : LimitOrder) (fill : ℕ)
    → order_holds o ≡ true
    → o.quantity - fill == 0 ≡ false
    → order_holds (record o { quantity = o.quantity - fill }) ≡ true
less_holds o fill h k =
    let a = order_holds-Admitted o h in
    Admitted-order_holds _ (record {
      some_shares = ground arith;
      some_stock = a.some_stock;
      not_negative = a.not_negative;
      positive = a.positive;
      bounded = le_trans (mul-le-mul_left (limit_of o) (omega arith)) a.bounded;
    })

left_over-AllHold :
    (o : LimitOrder) (traded : Bool) (fill : ℕ) (orders : List LimitOrder)
    → order_holds o ≡ true
    → AllHold orders
    → AllHold (after_round o traded fill orders)
left_over-AllHold o false fill orders h k = (h, k)
left_over-AllHold o true fill orders h k = elim (Bool-cases (o.quantity - fill == 0)) [
  | inl filled ↦ rw filled k
  | inr part ↦ rw part (less_holds o fill h part, k)
]

-- When every order is one that the checks of the store admit, so is every order that is left after
-- the loop over the orders.
pub process_orders-AllHold :
    (guild_id : Bytes) (now : ℤ) (f : Floor) (orders : List LimitOrder)
    → AllHold orders
    → AllHold (process_orders guild_id now f orders).1
unfolding process_orders
process_orders-AllHold guild_id now f [] h = tt
process_orders-AllHold guild_id now f (o ∷ orders) h =
    left_over-AllHold o (is_traded guild_id now f o) (round guild_id now f o).1 _ h.0
      (process_orders-AllHold guild_id now (round guild_id now f o).0 orders h.1)

abbrev pub IsPriced : List ℤ → Type 0
IsPriced prices = All (λ (p : ℤ). (minimum_price ≤ℤ p) × (p ≤ℤ maximum_price)) prices

pub set-IsPriced :
    (prices : List ℤ) (i : ℕ) (p : ℤ)
    → IsPriced prices
    → (minimum_price ≤ℤ p) × (p ≤ℤ maximum_price)
    → IsPriced (set prices i p)
set-IsPriced [] i p h k = tt
set-IsPriced (x ∷ prices) zero p h k = (k, h.1)
set-IsPriced (x ∷ prices) (suc i) p h k = (h.0, set-IsPriced prices i p h.1 k)

set_less : (xs : List ℕ) (i j n : ℕ) → get_or 0 (set xs j (get_or 0 xs j - n)) i ≤ get_or 0 xs i
set_less [] i j n = omega arith
set_less (x ∷ xs) zero zero n = omega arith
set_less (x ∷ xs) (suc i) zero n = omega arith
set_less (x ∷ xs) zero (suc j) n = omega arith
set_less (x ∷ xs) (suc i) (suc j) n = set_less xs i j n

trade-IsPriced :
    (f : Floor) (o : LimitOrder) (fill : ℕ)
    → IsPriced f.guild.prices
    → IsPriced (trade f o fill).guild.prices
unfolding trade
trade-IsPriced f o fill h =
    set-IsPriced f.guild.prices o.stock _ h (moved_price_bounds f.exchange o fill _)

round-IsPriced :
    (guild_id : Bytes) (now : ℤ) (f : Floor) (o : LimitOrder)
    → IsPriced f.guild.prices
    → IsPriced (round guild_id now f o).0.guild.prices
unfolding round
round-IsPriced guild_id now f o h = elim (Bool-cases (is_filled guild_id now f o)) [
  | inl fills ↦ elim (Bool-cases (o.buy && fill_of f o == 0)) [
    | inl full ↦ rw (fills, full) h
    | inr room ↦ rw (fills, room) (trade-IsPriced f o (fill_of f o) h)
  ]
  | inr waits ↦ rw waits h
]

-- When the prices of all stocks are within their bounds, they are after the loop over the orders.
process_orders-IsPriced :
    (guild_id : Bytes) (now : ℤ) (f : Floor) (orders : List LimitOrder)
    → IsPriced f.guild.prices
    → IsPriced (process_orders guild_id now f orders).0.guild.prices
unfolding process_orders
process_orders-IsPriced guild_id now f [] h = h
process_orders-IsPriced guild_id now f (o ∷ orders) h =
    process_orders-IsPriced guild_id now (round guild_id now f o).0 orders
      (round-IsPriced guild_id now f o h)

abbrev pub remaining : Floor → ℕ → ℕ
remaining f i = get_or 0 f.exchange.remaining_liquidity i

round-remaining :
    (guild_id : Bytes) (now : ℤ) (f : Floor) (o : LimitOrder) (i : ℕ)
    → remaining (round guild_id now f o).0 i ≤ remaining f i
unfolding round trade
round-remaining guild_id now f o i = elim (Bool-cases (is_filled guild_id now f o)) [
  | inl fills ↦ elim (Bool-cases (o.buy && fill_of f o == 0)) [
    | inl full ↦ rw (fills, full) (omega arith)
    | inr room ↦ rw (fills, room) (set_less f.exchange.remaining_liquidity i o.stock (fill_of f o))
  ]
  | inr waits ↦ rw waits (omega arith)
]

-- Of no stock does the loop over the orders leave more liquidity of the hour than it found.
pub process_orders-remaining :
    (guild_id : Bytes) (now : ℤ) (f : Floor) (orders : List LimitOrder) (i : ℕ)
    → remaining (process_orders guild_id now f orders).0 i ≤ remaining f i
unfolding process_orders
process_orders-remaining guild_id now f [] i = omega arith
process_orders-remaining guild_id now f (o ∷ orders) i =
    let first = round-remaining guild_id now f o i in
    let rest = process_orders-remaining guild_id now (round guild_id now f o).0 orders i in
    omega (arith, first, rest)
