-- ===== src/Economy/Orders/Escrow.antt =====
-- Where the money of the orders goes in process_orders: what an order has set aside, what is paid on
-- the exchange, and what the players have.
use routine_linux_edition.Base.{
  ℕ, ◌+◌, ◌-◌, ◌≤◌, ◌≡◌, refl, Bool, true, false, ◌&&◌, List, [], ◌∷◌, some, ◌==◌, if◌then◌else◌,
  arith, Bool-cases, inl, inr, All,
}
use routine_linux_edition.Base.Int.{ℤ, pos, ◌+ℤ◌, ◌-ℤ◌, ◌*ℤ◌, *ℤ_parts, int_laws, ends, eq_of_parts}
use routine_linux_edition.Base.Bytes.{Bytes}
use routine_linux_edition.Base.Dict.{Dict, lookup, at-known}
use routine_linux_edition.Economy.State.{Player, new_player, LimitOrder}
use routine_linux_edition.Economy.Ledger.Liquid.{liquid, liquid-insert}
use routine_linux_edition.Economy.Tick.Money.{insert-Has}
use routine_linux_edition.Economy.Orders.{
  Floor, execution_price, fills_at, order_key, fill_of, credit_of, trade, left_over, is_filled,
  is_traded, round, after_round, process_orders,
}
use routine_linux_edition.Economy.Orders.Fills.{fill_of_bounds, credit_of_escrow}

-- What a buyer has set aside: the limit of each share. A seller has set aside shares.
abbrev pub reserved : LimitOrder → ℤ
reserved o = if o.buy then o.limit_price_cents *ℤ pos o.quantity else pos 0

abbrev pub escrow : List LimitOrder → ℤ
escrow [] = pos 0
escrow (o ∷ orders) = reserved o +ℤ escrow orders

-- What a round of the loop earns the players on the exchange: the price of the shares that are
-- traded, which a seller gets and a buyer pays.
abbrev pub proceeds : Floor → LimitOrder → ℕ → ℤ
proceeds f o fill =
    let value = execution_price f.guild f.exchange o *ℤ pos fill in
    if o.buy then pos 0 -ℤ value else value

-- The same for the loop over the orders.
pub earnings : Bytes → ℤ → Floor → List LimitOrder → ℤ
earnings guild_id now f [] = pos 0
earnings guild_id now f (o ∷ orders) =
    let first = round guild_id now f o in
    proceeds f o first.1 +ℤ earnings guild_id now first.0 orders

-- The player of an order is there.
abbrev pub HasPlayer : Dict Player → LimitOrder → Type 0
HasPlayer players o = (p : Player) × (lookup (order_key o) players ≡ some p)

liquid-trade :
    (f : Floor) (o : LimitOrder) (fill : ℕ)
    → HasPlayer f.players o
    → liquid (trade f o fill).players
      ≡ liquid f.players +ℤ credit_of o (execution_price f.guild f.exchange o) fill
unfolding trade
liquid-trade f o fill (p, e) =
    let credit = credit_of o (execution_price f.guild f.exchange o) fill in
    let taken =
      liquid-insert (order_key o) (record p { wallet_cents = p.wallet_cents +ℤ credit }) p f.players
        e in
    rw (at-known new_player p (order_key o) f.players e)
      (eq_of_parts _ _ (omega (int_laws, ends _ _ taken)))

times_zero : (a : ℤ) → a *ℤ pos 0 ≡ pos 0
times_zero a = eq_of_parts _ _ (omega (int_laws, *ℤ_parts a 0))

reserved_nothing : (buy : Bool) (limit : ℤ) → (if buy then limit *ℤ pos 0 else pos 0) ≡ pos 0
reserved_nothing true limit = times_zero limit
reserved_nothing false limit = refl

-- What is left of an order sets aside what it did.
escrow-left_over :
    (o : LimitOrder) (fill : ℕ) (orders : List LimitOrder)
    → escrow (left_over o fill orders)
      ≡ reserved (record o { quantity = o.quantity - fill }) +ℤ escrow orders
escrow-left_over o fill orders = elim (Bool-cases (o.quantity - fill == 0)) [
  | inl filled ↦
      let none_left : o.quantity - fill ≡ 0 = ground arith in
      rw (filled, none_left, reserved_nothing o.buy o.limit_price_cents) (omega int_laws)
  | inr part ↦ rw part refl
]

proceeds_nothing : (f : Floor) (o : LimitOrder) → proceeds f o 0 ≡ pos 0
proceeds_nothing f o =
    let none_paid = times_zero (execution_price f.guild f.exchange o) in
    elim (Bool-cases o.buy) [
      | inl buys ↦ simp buys (eq_of_parts _ _ (omega (int_laws, ends _ _ none_paid)))
      | inr sells ↦ simp sells none_paid
    ]

-- A trade at a price that fits the limit.
trade_settles :
    (f : Floor) (o : LimitOrder) (fill : ℕ)
    → fill ≤ o.quantity
    → fills_at o (execution_price f.guild f.exchange o) ≡ true
    → credit_of o (execution_price f.guild f.exchange o) fill
        +ℤ reserved (record o { quantity = o.quantity - fill })
      ≡ reserved o +ℤ proceeds f o fill
trade_settles f o fill few fits = elim (Bool-cases o.buy) [
  | inl buys ↦
      let execution = execution_price f.guild f.exchange o in
      let whole : fill + (o.quantity - fill) ≡ o.quantity = omega (arith, few) in
      let books = rw whole at (credit_of_escrow o execution fill (o.quantity - fill) buys fits) in
      simp buys (eq_of_parts _ _ (omega (int_laws, ends _ _ books)))
  | inr sells ↦ unfold credit_of in simp sells (omega int_laws)
]

-- A round of the loop.
round_settles :
    (guild_id : Bytes) (now : ℤ) (f : Floor) (o : LimitOrder) (orders : List LimitOrder)
    → HasPlayer f.players o
    → let first = round guild_id now f o in
      liquid first.0.players +ℤ escrow (after_round o (is_traded guild_id now f o) first.1 orders)
      ≡ liquid f.players +ℤ reserved o +ℤ proceeds f o first.1 +ℤ escrow orders
unfolding round is_traded
round_settles guild_id now f o orders h = elim (Bool-cases (is_filled guild_id now f o)) [
  | inl fills ↦ elim (Bool-cases (o.buy && fill_of f o == 0)) [
    | inl full ↦
        rw (fills, full) (eq_of_parts _ _ (omega (int_laws, ends _ _ (proceeds_nothing f o))))
    | inr room ↦
        let fits : fills_at o (execution_price f.guild f.exchange o) ≡ true =
          unfold is_filled in ground arith in
        let fill = fill_of f o in
        let paid = liquid-trade f o fill h in
        let kept = escrow-left_over o fill orders in
        let books = trade_settles f o fill (fill_of_bounds f o).0 fits in
        rw (fills, room)
          (eq_of_parts _ _ (omega (int_laws, ends _ _ paid, ends _ _ kept, ends _ _ books)))
  ]
  | inr waits ↦ rw waits (eq_of_parts _ _ (omega (int_laws, ends _ _ (proceeds_nothing f o))))
]

round-HasPlayer :
    (guild_id : Bytes) (now : ℤ) (f : Floor) (o p : LimitOrder)
    → HasPlayer f.players p
    → HasPlayer (round guild_id now f o).0.players p
unfolding round trade
round-HasPlayer guild_id now f o p h = elim (Bool-cases (is_filled guild_id now f o)) [
  | inl fills ↦ elim (Bool-cases (o.buy && fill_of f o == 0)) [
    | inl full ↦ rw (fills, full) h
    | inr room ↦ rw (fills, room) (insert-Has (order_key p) (order_key o) _ f.players h)
  ]
  | inr waits ↦ rw waits h
]

abbrev pub AllHavePlayers : Dict Player → List LimitOrder → Type 0
AllHavePlayers players orders = All (HasPlayer players) orders

round-AllHavePlayers :
    (guild_id : Bytes) (now : ℤ) (f : Floor) (o : LimitOrder) (orders : List LimitOrder)
    → AllHavePlayers f.players orders
    → AllHavePlayers (round guild_id now f o).0.players orders
round-AllHavePlayers guild_id now f o [] h = tt
round-AllHavePlayers guild_id now f o (p ∷ orders) h =
    (round-HasPlayer guild_id now f o p h.0, round-AllHavePlayers guild_id now f o orders h.1)

-- When the player of every order is there, the loop over the orders neither makes nor loses money:
-- what the players have in hand and what the buyers have set aside for the shares they still want
-- grows by what is earned on the exchange, the price of each share that is sold less the price of
-- each that is bought.
pub process_orders_settle :
    (guild_id : Bytes) (now : ℤ) (f : Floor) (orders : List LimitOrder)
    → AllHavePlayers f.players orders
    → let result = process_orders guild_id now f orders in
      liquid result.0.players +ℤ escrow result.1
      ≡ liquid f.players +ℤ escrow orders +ℤ earnings guild_id now f orders
unfolding process_orders earnings
process_orders_settle guild_id now f [] h = omega int_laws
process_orders_settle guild_id now f (o ∷ orders) h =
    let first = round guild_id now f o in
    let result = process_orders guild_id now first.0 orders in
    let here = round_settles guild_id now f o result.1 h.0 in
    let rest =
      process_orders_settle guild_id now first.0 orders
        (round-AllHavePlayers guild_id now f o orders h.1) in
    eq_of_parts _ _ (omega (int_laws, ends _ _ here, ends _ _ rest))
