-- ===== src/Economy/Market.antt =====
-- The stock exchange of a server: stock_spread, stock_fundamental_value, cancel_stock_orders and
-- apply_stock_split of lib/local_economy_extension.cpp.
use routine_linux_edition.Base.{
  ℕ, ◌+◌, ◌-◌, ◌*◌, ◌/◌, ◌%◌, Bool, true, false, not, ◌&&◌, ◌||◌, List, [], ◌∷◌, ◌++◌, map, leb,
  ltb, ◌==◌, if◌then◌else◌, get_or, set,
}
use routine_linux_edition.Base.Int.{
  ℤ, pos, ◌+ℤ◌, ◌-ℤ◌, ◌*ℤ◌, ◌/ℤ◌, leb_ℤ, ltb_ℤ, max_ℤ, min_ℤ, clamp,
}
use routine_linux_edition.Base.Bytes.{Bytes, bytes_eq, starts_with}
use routine_linux_edition.Base.Dict.{Dict, lookup, insert, at}
use routine_linux_edition.Economy.Status.{u32_mod, u64_mod}
use routine_linux_edition.Economy.State.{
  Store, Player, ChaosPlayer, new_chaos_player, AdvancedPlayer, GuildEconomy, GuildExchange,
  LimitOrder,
}
use routine_linux_edition.Economy.Accounts.{
  prefix_of, key_for, separator, player_at, ensure_player, max_ℕ,
}
pub mod Spread
pub mod Splitting
pub mod Share
pub mod Hour
mod Tests

abbrev pub minimum_price : ℤ
minimum_price = pos 50

abbrev pub maximum_price : ℤ
maximum_price = pos 1_000_000_000

abbrev pub stock_volatility : List ℤ
stock_volatility = pos 7 ∷ pos 10 ∷ pos 4 ∷ pos 8 ∷ pos 18 ∷ pos 7 ∷ pos 10 ∷ pos 8 ∷ pos 28 ∷ []

abbrev pub price_of : GuildEconomy → ℕ → ℤ
price_of guild stock = get_or (pos 0) guild.prices stock

pub spread_basis_points : GuildExchange → ℕ → ℤ
spread_basis_points exchange stock =
    let liquidity_penalty = 80_000 / max_ℕ 20 (get_or 0 exchange.liquidity stock) in
    clamp (pos 20 +ℤ get_or (pos 0) stock_volatility stock *ℤ pos 3 +ℤ pos liquidity_penalty)
      (pos 25) (pos 900)

pub stock_spread : GuildExchange → ℕ → ℤ → ℤ
stock_spread exchange stock midpoint =
    max_ℤ (pos 2) (midpoint *ℤ spread_basis_points exchange stock /ℤ 10_000)

pub stock_fundamental_value : GuildExchange → ℕ → ℤ
stock_fundamental_value exchange stock =
    let profit = get_or (pos 0) exchange.profit stock in
    let equity =
      max_ℤ (pos 0) (get_or (pos 0) exchange.cash stock -ℤ get_or (pos 0) exchange.debt stock) in
    let earnings_value = if ltb_ℤ (pos 0) profit then profit *ℤ pos 720 else pos 0 in
    max_ℤ (pos 50)
      ((equity +ℤ earnings_value) /ℤ max_ℕ 1 (get_or 0 exchange.shares_outstanding stock))

-- What a cancelled order gives back: the money or the shares that it had set aside.
pub refund_order : Store → LimitOrder → Store
refund_order s o =
    let key = key_for o.guild_id o.user_id in
    let placed = ensure_player s o.guild_id o.user_id in
    let player = player_at s o.guild_id o.user_id in
    let chaos = at new_chaos_player key s.chaos_players in
    if o.buy
    then record placed {
      players =
          insert key
            (record player {
              wallet_cents = player.wallet_cents +ℤ o.limit_price_cents *ℤ pos o.quantity;
            })
            placed.players;
    }
    else record s {
      chaos_players =
          insert key
            (record chaos {
              shares =
                  set chaos.shares o.stock ((get_or 0 chaos.shares o.stock + o.quantity) % u32_mod);
            })
            s.chaos_players;
    }

abbrev pub concerns : Bytes → ℕ → LimitOrder → Bool
concerns guild_id stock o = bytes_eq o.guild_id guild_id && o.stock == stock

-- The loop over the orders, with the store so far and the orders that stay.
pub cancel_from : Store → Bytes → ℕ → List LimitOrder → Store × List LimitOrder
cancel_from s guild_id stock [] = (s, [])
cancel_from s guild_id stock (o ∷ orders) =
    let refunded = if concerns guild_id stock o then refund_order s o else s in
    let (end, rest) = cancel_from refunded guild_id stock orders in
    (end, if concerns guild_id stock o then rest else o ∷ rest)

pub cancel_stock_orders : Store → Bytes → ℕ → Store
cancel_stock_orders s guild_id stock =
    let (refunded, orders) = cancel_from s guild_id stock s.orders in
    record refunded { orders = orders }

-- uint32_t twice, held at its largest value.
pub double_u32 : ℕ → ℕ
double_u32 n = if ltb ((u32_mod - 1) / 2) n then u32_mod - 1 else n * 2

abbrev pub in_guild : Bytes → Bytes → Bool
in_guild guild_id key = starts_with (prefix_of guild_id) key

abbrev split_chaos : Bytes → ℕ → Bytes × ChaosPlayer → Bytes × ChaosPlayer
split_chaos guild_id stock (key, p) = (
  key,
  if in_guild guild_id key
      then record p { shares = set p.shares stock (double_u32 (get_or 0 p.shares stock)) }
      else p,
)

abbrev split_short : Bytes → ℕ → Bytes × AdvancedPlayer → Bytes × AdvancedPlayer
split_short guild_id stock (key, p) = (
  key,
  if in_guild guild_id key
      then record p {
        short_shares = set p.short_shares stock (double_u32 (get_or 0 p.short_shares stock));
      }
      else p,
)

pub split_order : Bytes → ℕ → LimitOrder → LimitOrder
split_order guild_id stock o =
    if concerns guild_id stock o
    then record o {
      quantity = double_u32 o.quantity;
      limit_price_cents = max_ℤ (pos 1) (o.limit_price_cents /ℤ 2);
    }
    else o

-- The guild and the exchange are references into the store; they are returned.
pub record Split : Type 0 where
  pub store : Store
  pub guild : GuildEconomy
  pub exchange : GuildExchange

pub apply_stock_split : Store → Bytes → ℕ → GuildEconomy → GuildExchange → Split
apply_stock_split s guild_id stock guild exchange =
    let outstanding = get_or 0 exchange.shares_outstanding stock in
    let half = (u64_mod - 1) / 2 in
    record {
      store = record s {
        chaos_players = map (split_chaos guild_id stock) s.chaos_players;
        advanced_players = map (split_short guild_id stock) s.advanced_players;
        orders = map (split_order guild_id stock) s.orders;
      };
      guild = record guild {
        prices = set guild.prices stock (max_ℤ minimum_price (price_of guild stock /ℤ 2));
      };
      exchange = record exchange {
        shares_outstanding =
            set exchange.shares_outstanding stock
              ((if ltb half outstanding then half else outstanding) * 2);
      };
    }
