-- ===== src/Economy/Market/Hour.antt =====
-- update_market of lib/local_economy_extension.cpp: the hours that a server's market is behind. `luck` is
-- what the generator draws for an hour and a stock, and `drift` for the confidence of an hour.
use routine_linux_edition.Base.{
  ℕ, zero, suc, ◌+◌, ◌*◌, ◌%◌, not, List, [], ◌∷◌, map, leb, if◌then◌else◌, get_or, set,
}
use routine_linux_edition.Base.Int.{ℤ, pos, pos_part, ◌+ℤ◌, ◌-ℤ◌, ◌*ℤ◌, ◌/ℤ◌, leb_ℤ, ltb_ℤ, clamp}
use routine_linux_edition.Base.Bytes.{Bytes}
use routine_linux_edition.Base.Dict.{insert, at}
use routine_linux_edition.Economy.Status.{u32_mod, stock_count}
use routine_linux_edition.Economy.State.{
  Store, ChaosPlayer, AdvancedPlayer, GuildEconomy, NewsEvent, new_guild_exchange,
  new_guild_dynamics, new_government_state,
}
use routine_linux_edition.Economy.Market.{
  Split, stock_fundamental_value, cancel_stock_orders, apply_stock_split, in_guild,
}
use routine_linux_edition.Economy.Market.Share.{
  Luck, Share, share_at, with_price, with_share, opened, relisted, sector_bias, earned, pressure,
  mood, priced, distressed, delisted, is_diluting, diluted,
}
use routine_linux_edition.Economy.Dynamics.Cycle.{update_economic_dynamics}

-- A stock written back.
abbrev pub entered : ℕ → Share → Split → Split
entered i h m = record m { guild = with_price i h m.guild; exchange = with_share i h m.exchange }

abbrev worthless_chaos : Bytes → ℕ → Bytes × ChaosPlayer → Bytes × ChaosPlayer
worthless_chaos guild_id i (key, p) =
    (key, if in_guild guild_id key then record p { shares = set p.shares i 0 } else p)

abbrev worthless_short : Bytes → ℕ → Bytes × AdvancedPlayer → Bytes × AdvancedPlayer
worthless_short guild_id i (key, p) =
    (key, if in_guild guild_id key then record p { short_shares = set p.short_shares i 0 } else p)

-- The orders of a stock that is taken off the market are cancelled, and its shares are gone.
pub wiped_out : Bytes → ℕ → Store → Store
wiped_out guild_id i s =
    let t = cancel_stock_orders s guild_id i in
    record t {
      chaos_players = map (worthless_chaos guild_id i) t.chaos_players;
      advanced_players = map (worthless_short guild_id i) t.advanced_players;
    }

-- A stock whose price has become high is split.
pub after_dilution : Bytes → ℤ → ℕ → Share → Split → Split
after_dilution guild_id step_time i h m =
    let next = if is_diluting step_time h then diluted h else h in
    let n = entered i next m in
    if leb_ℤ (pos 200_000) next.price
    then apply_stock_split n.store guild_id i n.guild n.exchange
    else n

-- A stock that is traded.
pub trading_hour : Bytes → ℤ → ℤ → Luck → ℕ → Share → Split → Split
trading_hour guild_id step_time expectation l i h m =
    let bias = sector_bias i m.guild in
    let books = earned bias m.guild.inflation_bp l h in
    let fundamental = stock_fundamental_value (with_share i books m.exchange) i in
    let felt = mood bias l books in
    let closed =
      distressed (priced step_time (pressure i bias expectation fundamental l felt) felt) in
    if leb 24 closed.distress
    then (let n = entered i (delisted step_time closed) m in
        record n { store = wiped_out guild_id i n.store })
    else after_dilution guild_id step_time i closed m

pub stock_hour : Bytes → ℤ → ℤ → Luck → ℕ → Split → Split
stock_hour guild_id step_time expectation l i m =
    let h = opened l (share_at i m.guild m.exchange) in
    if not h.listed
    then entered i (if leb_ℤ h.halted_until step_time then relisted h else h) m
    else if ltb_ℤ step_time h.halted_until
    then entered i h m
    else trading_hour guild_id step_time expectation l i h m

-- The stocks from the i-th on; n are left.
pub stocks_hour : Bytes → ℤ → List ℤ → (ℕ → Luck) → ℕ → ℕ → Split → Split
stocks_hour guild_id step_time expectations luck zero i m = m
stocks_hour guild_id step_time expectations luck (suc n) i m =
    stocks_hour guild_id step_time expectations luck n (suc i)
      (stock_hour guild_id step_time (get_or (pos 0) expectations i) (luck i) i m)

-- g_news.back().id
pub last_news_id : ℕ → List NewsEvent → ℕ
last_news_id event_id [] = event_id
last_news_id event_id (e ∷ news) = last_news_id (e.id % u32_mod) news

pub faded : ℤ → ℤ
faded expectation = expectation *ℤ pos 3 /ℤ 4

-- One hour: the stocks, the economy of the server, and what is left of the expectations.
pub market_hour : (Bytes → ℕ) → Bytes → ℤ → (ℕ → Luck) → ℤ → Split → Split
market_hour hash guild_id step_time luck drift m =
    let expectations = (at new_guild_dynamics guild_id m.store.dynamics).expectations in
    let n = stocks_hour guild_id step_time expectations luck stock_count 0 m in
    let s = n.store in
    let c = update_economic_dynamics hash guild_id step_time (record {
      dynamics = at new_guild_dynamics guild_id s.dynamics;
      government = at new_government_state guild_id s.governments;
      economy = n.guild;
      exchange = n.exchange;
      feed = record { news = s.news; next_news_id = s.next_news_id };
    }) in
    record {
      store = record s {
        dynamics =
            insert guild_id (record c.dynamics { expectations = map faded c.dynamics.expectations })
              s.dynamics;
        governments = insert guild_id c.government s.governments;
        news = c.feed.news;
        next_news_id = c.feed.next_news_id;
      };
      guild = record c.economy {
        confidence = clamp (c.economy.confidence +ℤ drift /ℤ 80) (pos 10) (pos 90);
        event_id = last_news_id c.economy.event_id c.feed.news;
      };
      exchange = c.exchange;
    }

-- The hours from the first on; n are left.
pub market_hours : (Bytes → ℕ) → Bytes → ℤ → (ℕ → ℕ → Luck) → (ℕ → ℤ) → ℕ → ℕ → Split → Split
market_hours hash guild_id last luck drift zero step m = m
market_hours hash guild_id last luck drift (suc n) step m =
    market_hours hash guild_id last luck drift n (suc step)
      (market_hour hash guild_id (last +ℤ pos ((step + 1) * 3_600)) (luck step) (drift step) m)

pub profits : List ℤ → List ℤ → List ℤ → List ℤ
profits (r ∷ revenue) (e ∷ expenses) (p ∷ profit) = (r -ℤ e) ∷ profits revenue expenses profit
profits revenue expenses profit = profit

abbrev pub hours_due : ℤ → ℤ → ℕ
hours_due last now = pos_part (clamp ((now -ℤ last) /ℤ 3_600) (pos 0) (pos 72))

-- The economy and the exchange are entered again.
abbrev put_market : Bytes → Split → Store
put_market guild_id m = record m.store {
  guilds = insert guild_id m.guild m.store.guilds;
  exchanges = insert guild_id m.exchange m.store.exchanges;
}

pub update_market :
    (Bytes → ℕ) → (ℕ → ℕ → Luck) → (ℕ → ℤ) → Bytes → GuildEconomy → ℤ → Store → Store
update_market hash luck drift guild_id guild now s =
    let exchange = at new_guild_exchange guild_id s.exchanges in
    let last = guild.last_market_unix in
    let steps = hours_due last now in
    let start : Split = record { store = s; guild = guild; exchange = exchange } in
    let m = market_hours hash guild_id last luck drift steps 0 start in
    if leb_ℤ last (pos 0)
    then put_market guild_id (record {
      store = s;
      guild = record guild { last_market_unix = now };
      exchange = record exchange {
        profit = profits exchange.revenue exchange.expenses exchange.profit;
      };
    })
    else put_market guild_id
        (record m { guild = record m.guild { last_market_unix = last +ℤ pos (steps * 3_600) } })
