-- ===== src/Economy/Limits/Orders.antt =====
-- What the checks of the store ask of an order, as facts on numbers.
use native.Mathlib.Nat.{le-div_iff_mul-le}
use routine_linux_edition.Base.{
  ℕ, ◌+◌, ◌*◌, ◌/◌, ◌≤◌, ◌<◌, ◌≡◌, ◌⊎◌, true, not, ◌&&◌, arith, leb, ltb, ◌==◌,
}
use routine_linux_edition.Base.Int.{pos_div, pos_part, neg_part, one_part}
use routine_linux_edition.Economy.Status.{stock_count}
use routine_linux_edition.Economy.State.{LimitOrder}
use routine_linux_edition.Economy.Limits.{order_holds}

abbrev pub limit_of : LimitOrder → ℕ
limit_of o = pos_part o.limit_price_cents

-- The order asks for some shares of a stock there is, at a limit that is positive and whose product
-- with the number of shares is at most the largest transaction.
pub record Admitted (o : LimitOrder) : Type 0 where
  pub some_shares : 0 < o.quantity
  pub some_stock : o.stock < stock_count
  pub not_negative : neg_part o.limit_price_cents ≡ 0
  pub positive : 0 < limit_of o
  pub bounded : limit_of o * o.quantity ≤ 100_000_000_000_000

-- The four tests on the numbers, with the quotient as a number.
tests_hold :
    (q stock p n share : ℕ)
    → (p ≡ 0) ⊎ (n ≡ 0)
    → (not (q == 0) && (ltb stock stock_count && (ltb (0 + n) (p + 0) && leb (p + 0) (share + n))))
      ≡ true
    → (0 < q) × (stock < stock_count) × (n ≡ 0) × (0 < p) × (p ≤ share)
tests_hold q stock p n share one h = ground arith

tests_met :
    (q stock p n share : ℕ)
    → 0 < q
    → stock < stock_count
    → n ≡ 0
    → 0 < p
    → p ≤ share
    → (not (q == 0) && (ltb stock stock_count && (ltb (0 + n) (p + 0) && leb (p + 0) (share + n))))
      ≡ true
tests_met q stock p n share a b c d e = ground arith

pub order_holds-Admitted : (o : LimitOrder) → order_holds o ≡ true → Admitted o
unfolding order_holds
order_holds-Admitted o h =
    let l = o.limit_price_cents in
    let share = 100_000_000_000_000 / o.quantity in
    let (a, b, c, d, e) =
      tests_hold o.quantity o.stock (pos_part l) (neg_part l) share (one_part l)
        (rw (pos_div 100_000_000_000_000 o.quantity) at h) in
    record {
      some_shares = a;
      some_stock = b;
      not_negative = c;
      positive = d;
      bounded = (le-div_iff_mul-le a).0 e;
    }

pub Admitted-order_holds : (o : LimitOrder) → Admitted o → order_holds o ≡ true
unfolding order_holds
Admitted-order_holds o a =
    let l = o.limit_price_cents in
    rw (pos_div 100_000_000_000_000 o.quantity) (
      tests_met o.quantity o.stock (pos_part l) (neg_part l) (100_000_000_000_000 / o.quantity)
        a.some_shares a.some_stock a.not_negative a.positive
        ((le-div_iff_mul-le a.some_shares).1 a.bounded))
