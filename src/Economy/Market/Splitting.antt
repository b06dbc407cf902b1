-- ===== src/Economy/Market/Splitting.antt =====
-- What a stock split does to the waiting orders.
use native.Mathlib.Nat.{le_trans, mul-le-mul_left, mul-le-mul_right}
use routine_linux_edition.Base.{
  ℕ, ◌*◌, ◌/◌, ◌≤◌, ◌<◌, ◌≡◌, refl, ◌⊎◌, inl, inr, true, arith, Bool-cases, if◌then◌else◌, ltb,
}
use routine_linux_edition.Base.Int.{pos, ◌*ℤ◌, ◌/ℤ◌, ◌≤ℤ◌, max_ℤ, pos_div, pos_mul, nonneg_pos}
use routine_linux_edition.Base.Bytes.{Bytes}
use routine_linux_edition.Economy.Status.{u32_mod}
use routine_linux_edition.Economy.State.{LimitOrder}
use routine_linux_edition.Economy.Limits.{order_holds}
use routine_linux_edition.Economy.Limits.Orders.{
  Admitted, limit_of, order_holds-Admitted, Admitted-order_holds,
}
use routine_linux_edition.Economy.Market.{double_u32, split_order, concerns}

double_u32_bounds :
    (n : ℕ) → n < u32_mod → (n ≤ double_u32 n) × (double_u32 n ≤ n * 2) × (double_u32 n < u32_mod)
unfolding double_u32
double_u32_bounds n h = ground arith

abbrev halved : ℕ → ℕ
halved l = if ltb 1 (l / 2) then l / 2 else 1

halved_limit : (l : ℕ) → max_ℤ (pos 1) (pos l /ℤ 2) ≡ pos (halved l)
unfolding max_ℤ
halved_limit l = rw (pos_div l 2) (ground arith)

twice : (h l q d : ℕ) → h * 2 ≤ l → d ≤ q * 2 → h * d ≤ l * q
twice h l q d half double =
    let there : h * d ≤ h * (q * 2) = mul-le-mul_left h double in
    let back : h * 2 * q ≤ l * q = mul-le-mul_right q half in grind (arith, there, back)

halved_product : (l q : ℕ) → 2 ≤ l → q < u32_mod → halved l * double_u32 q ≤ l * q
halved_product l q h k =
    twice (halved l) l q (double_u32 q) (ground arith) (omega (arith, double_u32_bounds q k))

two_or_one : (l : ℕ) → (2 ≤ l) ⊎ (l < 2)
two_or_one l = omega arith

halved_bounded :
    (l q : ℕ)
    → 0 < l
    → q < u32_mod
    → l * q ≤ 100_000_000_000_000
    → halved l * double_u32 q ≤ 100_000_000_000_000
halved_bounded l q h k m = elim (two_or_one l) [
  | inl large ↦ le_trans (halved_product l q large k) m
  | inr small ↦
      let one : halved l ≡ 1 = ground arith in rw one (omega (arith, double_u32_bounds q k))
]

-- A stock split never raises what an order has set aside, when the limit of the order is two cents
-- or more and its quantity is below 2^32.
pub split_order_escrow :
    (guild_id : Bytes) (stock : ℕ) (o : LimitOrder)
    → pos 2 ≤ℤ o.limit_price_cents
    → o.quantity < u32_mod
    → (split_order guild_id stock o).limit_price_cents
        *ℤ pos (split_order guild_id stock o).quantity
      ≤ℤ o.limit_price_cents *ℤ pos o.quantity
unfolding split_order
split_order_escrow guild_id stock o h k =
    let l = limit_of o in
    let limit = nonneg_pos o.limit_price_cents (omega arith) in
    elim (Bool-cases (concerns guild_id stock o)) [
      | inl here ↦
          rw (here, limit, halved_limit l, pos_mul, pos_mul)
            (omega (arith, halved_product l o.quantity (omega arith) k))
      | inr other ↦ rw other (omega arith)
    ]

split-Admitted :
    (o : LimitOrder)
    → o.quantity < u32_mod
    → Admitted o
    → Admitted (record o {
      quantity = double_u32 o.quantity;
      limit_price_cents = max_ℤ (pos 1) (o.limit_price_cents /ℤ 2);
    })
split-Admitted o k a =
    let limit = nonneg_pos o.limit_price_cents (omega (arith, a.not_negative)) in
    let half : max_ℤ (pos 1) (o.limit_price_cents /ℤ 2) ≡ pos (halved (limit_of o)) =
      rw limit (halved_limit (limit_of o)) in
    record {
      some_shares = omega (arith, double_u32_bounds o.quantity k, a.some_shares);
      some_stock = a.some_stock;
      not_negative = rw half refl;
      positive = rw half (ground arith);
      bounded = rw half (halved_bounded (limit_of o) o.quantity a.positive k a.bounded);
    }

-- An order whose quantity is below 2^32 and that the checks of the store admit is admitted after a
-- stock split.
pub split_order_holds :
    (guild_id : Bytes) (stock : ℕ) (o : LimitOrder)
    → o.quantity < u32_mod
    → order_holds o ≡ true
    → order_holds (split_order guild_id stock o) ≡ true
unfolding split_order
split_order_holds guild_id stock o k h = elim (Bool-cases (concerns guild_id stock o)) [
  | inl here ↦ rw here (Admitted-order_holds _ (split-Admitted o k (order_holds-Admitted o h)))
  | inr other ↦ rw other h
]
