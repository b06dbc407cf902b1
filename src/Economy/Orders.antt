-- ===== src/Economy/Orders.antt =====
-- process_orders of lib/local_economy_extension.cpp: the limit orders of a server against the market.
use routine_linux_edition.Base.{
  ℕ, ◌+◌, ◌-◌, ◌*◌, ◌%◌, Bool, true, false, not, ◌&&◌, ◌||◌, List, [], ◌∷◌, leb, ltb, ◌==◌,
  if◌then◌else◌, get_or, set,
}
use routine_linux_edition.Base.Int.{
  ℤ, pos, negsuc, ◌+ℤ◌, ◌-ℤ◌, ◌*ℤ◌, ◌/ℤ◌, leb_ℤ, ltb_ℤ, max_ℤ, clamp,
}
use routine_linux_edition.Base.Bytes.{Bytes, bytes_eq}
use routine_linux_edition.Base.Dict.{Dict, insert, ensure, at}
use routine_linux_edition.Economy.Status.{u32_mod, u64_mod}
use routine_linux_edition.Economy.State.{
  Player, new_player, ChaosPlayer, new_chaos_player, GuildEconomy, GuildExchange, LimitOrder,
}
use routine_linux_edition.Economy.Accounts.{min_ℕ, key_for, max_ℕ}
use routine_linux_edition.Economy.Market.{minimum_price, maximum_price, price_of, stock_spread}
pub mod Fills
pub mod Escrow
pub mod Remaining
mod Tests

-- What the loop works on, beside the orders.
pub record Floor : Type 0 where
  pub players : Dict Player
  pub chaos_players : Dict ChaosPlayer
  pub guild : GuildEconomy
  pub exchange : GuildExchange
  pub changed : Bool

-- The price at which an order of this kind is executed.
pub execution_price : GuildEconomy → GuildExchange → LimitOrder → ℤ
execution_price guild exchange o =
    let midpoint = price_of guild o.stock in
    let spread = stock_spread exchange o.stock midpoint in
    if o.buy then midpoint +ℤ (spread +ℤ pos 1) /ℤ 2 else max_ℤ (pos 1) (midpoint -ℤ spread /ℤ 2)

-- Whether the market trades the stock at all.
pub is_open : GuildExchange → ℕ → ℤ → Bool
is_open exchange stock now =
    get_or false exchange.listed stock
    && (leb_ℤ (get_or (pos 0) exchange.halted_until stock) now
        && not (get_or 0 exchange.remaining_liquidity stock == 0))

pub fills_at : LimitOrder → ℤ → Bool
fills_at o execution =
    if o.buy then leb_ℤ execution o.limit_price_cents else leb_ℤ o.limit_price_cents execution

abbrev pub order_key : LimitOrder → Bytes
order_key o = key_for o.guild_id o.user_id

abbrev pub shares_held : Floor → LimitOrder → ℕ
shares_held f o = get_or 0 (at new_chaos_player (order_key o) f.chaos_players).shares o.stock

-- How many shares change hands.
pub fill_of : Floor → LimitOrder → ℕ
fill_of f o =
    let fill = min_ℕ o.quantity (get_or 0 f.exchange.remaining_liquidity o.stock) in
    if o.buy then min_ℕ fill (u32_mod - 1 - shares_held f o) else fill

-- The price of the stock behind a trade.
pub moved_price : GuildExchange → LimitOrder → ℕ → ℤ → ℤ
moved_price exchange o fill price =
    let depth = max_ℕ 1_000 (get_or 0 exchange.liquidity o.stock * 20 % u32_mod) in
    let step = max_ℤ (pos 1) (price *ℤ pos fill /ℤ depth) in
    clamp (if o.buy then price +ℤ step else price -ℤ step) minimum_price maximum_price

-- What a trade adds to the wallet: the part of the limit that was not needed, or the proceeds.
pub credit_of : LimitOrder → ℤ → ℕ → ℤ
credit_of o execution fill =
    if o.buy
    then max_ℤ (pos 0) ((o.limit_price_cents -ℤ execution) *ℤ pos fill)
    else execution *ℤ pos fill

-- The trade itself.
pub trade : Floor → LimitOrder → ℕ → Floor
trade f o fill =
    let execution = execution_price f.guild f.exchange o in
    let key = order_key o in
    let player = at new_player key f.players in
    let chaos = at new_chaos_player key f.chaos_players in
    let exchange = f.exchange in
    record f {
      players =
          insert key
            (record player { wallet_cents = player.wallet_cents +ℤ credit_of o execution fill })
            f.players;
      chaos_players =
          if o.buy
          then insert key
              (record chaos {
                shares = set chaos.shares o.stock (get_or 0 chaos.shares o.stock + fill);
              })
              f.chaos_players
          else f.chaos_players;
      guild = record f.guild {
        prices =
            set f.guild.prices o.stock (moved_price exchange o fill (price_of f.guild o.stock));
      };
      exchange = record exchange {
        remaining_liquidity =
            set exchange.remaining_liquidity o.stock
              (get_or 0 exchange.remaining_liquidity o.stock - fill);
        volume = set exchange.volume o.stock ((get_or 0 exchange.volume o.stock + fill) % u64_mod);
      };
      changed = true;
    }

-- An order that stays, or that is filled.
abbrev pub left_over : LimitOrder → ℕ → List LimitOrder → List LimitOrder
left_over o fill orders =
    if o.quantity - fill == 0 then orders else record o { quantity = o.quantity - fill } ∷ orders

-- A buyer without room has the record of shares entered, and the order stays.
abbrev pub no_room : Floor → LimitOrder → Floor
no_room f o = record f { chaos_players = ensure new_chaos_player (order_key o) f.chaos_players }

pub is_filled : Bytes → ℤ → Floor → LimitOrder → Bool
is_filled guild_id now f o =
    bytes_eq o.guild_id guild_id
    && (is_open f.exchange o.stock now && fills_at o (execution_price f.guild f.exchange o))

-- One round of the loop: the floor, and how many shares were traded.
pub round : Bytes → ℤ → Floor → LimitOrder → Floor × ℕ
round guild_id now f o =
    let fill = fill_of f o in
    if is_filled guild_id now f o
    then if o.buy && fill == 0 then (no_room f o, 0) else (trade f o fill, fill)
    else (f, 0)

-- Whether the order is erased is asked of a traded order only.
abbrev after_round : LimitOrder → Bool → ℕ → List LimitOrder → List LimitOrder
after_round o traded fill orders = if traded then left_over o fill orders else o ∷ orders

-- Whether the round comes to the trade.
pub is_traded : Bytes → ℤ → Floor → LimitOrder → Bool
is_traded guild_id now f o = is_filled guild_id now f o && not (o.buy && fill_of f o == 0)

-- The loop: the floor behind it, and the orders that are left.
pub process_orders : Bytes → ℤ → Floor → List LimitOrder → Floor × List LimitOrder
process_orders guild_id now f [] = (f, [])
process_orders guild_id now f (o ∷ orders) =
    let (f', fill) = round guild_id now f o in
    let (end, rest) = process_orders guild_id now f' orders in
    (end, after_round o (is_traded guild_id now f o) fill rest)
