-- ===== src/Economy/Orders/Tests.antt =====
-- Orders against the market.
use routine_linux_edition.Base.{◌≡◌, refl, true, false, List, [], ◌∷◌}
use routine_linux_edition.Base.Int.{pos, ◌+ℤ◌, ◌/ℤ◌}
use routine_linux_edition.Base.Bytes.{bytes, bytes_eq}
use routine_linux_edition.Base.Dict.{lookup}
use routine_linux_edition.Economy.Accounts.{key_for}
use routine_linux_edition.Economy.State.{
  new_player, LimitOrder, new_limit_order, new_guild_economy, new_guild_exchange,
}
use routine_linux_edition.Economy.Limits.{order_holds}
use routine_linux_edition.Economy.Orders.{Floor, order_key, process_orders}
use routine_linux_edition.Economy.Ledger.Liquid.{liquid}
use routine_linux_edition.Economy.Orders.Escrow.{
  AllHavePlayers, escrow, earnings, process_orders_settle,
}
use routine_linux_edition.Economy.Orders.Remaining.{AllHold, process_orders-AllHold}

abbrev wanted : LimitOrder
wanted = record new_limit_order {
  guild_id = bytes "1";
  user_id = bytes "2";
  stock = 1;
  buy = true;
  quantity = 10;
  limit_price_cents = pos 2_000;
}

abbrev offered : LimitOrder
offered = record wanted { buy = false; limit_price_cents = pos 1_500 }

abbrev market : Floor
market = record {
  players = [];
  chaos_players = [];
  guild = new_guild_economy;
  exchange = new_guild_exchange;
  changed = false;
}

-- A market on which the second stock is traded, and two orders of a player who is there.
abbrev open_market : Floor
open_market = record market {
  players = (order_key wanted, new_player) ∷ [];
  guild = record new_guild_economy { prices = pos 900 ∷ pos 1_600 ∷ [] };
  exchange = record new_guild_exchange {
    listed = true ∷ true ∷ [];
    halted_until = pos 0 ∷ pos 0 ∷ [];
    liquidity = 100 ∷ 100 ∷ [];
    remaining_liquidity = 16 ∷ 16 ∷ [];
    volume = 0 ∷ 0 ∷ [];
  };
}

abbrev both : List LimitOrder
both = wanted ∷ offered ∷ []

both_have_players : AllHavePlayers open_market.players both
unfolding lookup bytes_eq key_for
both_have_players = ((new_player, refl), ((new_player, refl), tt))

process_orders_settle_example :
    let result = process_orders (bytes "1") (pos 9) open_market both in
    liquid result.0.players +ℤ escrow result.1
    ≡ liquid open_market.players +ℤ escrow both +ℤ earnings (bytes "1") (pos 9) open_market both
process_orders_settle_example =
    process_orders_settle (bytes "1") (pos 9) open_market both both_have_players

process_orders-AllHold_example :
    AllHold (process_orders (bytes "1") (pos 9) market (wanted ∷ offered ∷ [])).1
unfolding order_holds ◌/ℤ◌
process_orders-AllHold_example =
    process_orders-AllHold (bytes "1") (pos 9) market (wanted ∷ offered ∷ []) (refl, (refl, tt))
