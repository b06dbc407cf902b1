-- ===== src/Economy/Market/Share.antt =====
-- One stock in one hour: the loop body of update_market of lib/local_economy_extension.cpp on what is
-- kept of a stock. Luck is what the generator draws.
use routine_linux_edition.Base.{
  ℕ, ◌+◌, ◌-◌, ◌*◌, ◌/◌, ◌%◌, Bool, true, false, not, ◌&&◌, ◌||◌, List, leb, ltb, ◌==◌,
  if◌then◌else◌, get_or, set,
}
use routine_linux_edition.Base.Int.{
  ℤ, pos, negsuc, pos_part, abs_ℤ, ◌+ℤ◌, ◌-ℤ◌, ◌*ℤ◌, ◌/ℤ◌, leb_ℤ, ltb_ℤ, max_ℤ, clamp,
}
use routine_linux_edition.Economy.Status.{u32_mod, u64_mod}
use routine_linux_edition.Economy.State.{GuildEconomy, GuildExchange}
use routine_linux_edition.Economy.Accounts.{max_ℕ}
use routine_linux_edition.Economy.Market.{minimum_price, maximum_price, stock_volatility}
pub mod Bounds

pub record Luck : Type 0 where
  pub npc_volume : ℕ
  pub revenue : ℤ
  pub expenses : ℤ
  pub sentiment : ℤ
  pub volatility : ℤ
  pub crash : ℤ
  pub jump : ℤ
  pub jump_size : ℤ

-- The entries of the arrays at one stock.
pub record Share : Type 0 where
  pub price : ℤ
  pub revenue : ℤ
  pub expenses : ℤ
  pub profit : ℤ
  pub cash : ℤ
  pub debt : ℤ
  pub shares_outstanding : ℕ
  pub volume : ℕ
  pub liquidity : ℕ
  pub remaining_liquidity : ℕ
  pub sentiment : ℤ
  pub halted_until : ℤ
  pub distress : ℕ
  pub listed : Bool

pub share_at : ℕ → GuildEconomy → GuildExchange → Share
share_at i g x = record {
  price = get_or (pos 0) g.prices i;
  revenue = get_or (pos 0) x.revenue i;
  expenses = get_or (pos 0) x.expenses i;
  profit = get_or (pos 0) x.profit i;
  cash = get_or (pos 0) x.cash i;
  debt = get_or (pos 0) x.debt i;
  shares_outstanding = get_or 0 x.shares_outstanding i;
  volume = get_or 0 x.volume i;
  liquidity = get_or 0 x.liquidity i;
  remaining_liquidity = get_or 0 x.remaining_liquidity i;
  sentiment = get_or (pos 0) x.sentiment i;
  halted_until = get_or (pos 0) x.halted_until i;
  distress = get_or 0 x.distress i;
  listed = get_or false x.listed i;
}

pub with_price : ℕ → Share → GuildEconomy → GuildEconomy
with_price i h g = record g { prices = set g.prices i h.price }

pub with_share : ℕ → Share → GuildExchange → GuildExchange
with_share i h x = record {
  revenue = set x.revenue i h.revenue;
  expenses = set x.expenses i h.expenses;
  profit = set x.profit i h.profit;
  cash = set x.cash i h.cash;
  debt = set x.debt i h.debt;
  shares_outstanding = set x.shares_outstanding i h.shares_outstanding;
  volume = set x.volume i h.volume;
  liquidity = set x.liquidity i h.liquidity;
  remaining_liquidity = set x.remaining_liquidity i h.remaining_liquidity;
  sentiment = set x.sentiment i h.sentiment;
  halted_until = set x.halted_until i h.halted_until;
  distress = set x.distress i h.distress;
  listed = set x.listed i h.listed;
}

-- A new hour of trade.
pub opened : Luck → Share → Share
opened l h = record h {
  remaining_liquidity = h.liquidity;
  volume = (h.volume * 23 % u64_mod / 24 + l.npc_volume) % u64_mod;
}

-- A stock that was taken off the market comes back.
pub relisted : Share → Share
relisted h = record h {
  listed = true;
  halted_until = pos 0;
  sentiment = pos 30;
  distress = 0;
  debt = h.debt /ℤ 2;
  price = pos 500;
}

-- How the mood of the economy bears on a stock.
pub sector_bias : ℕ → GuildEconomy → ℤ
sector_bias i g =
    if i == 2
    then (pos 50 -ℤ g.confidence) /ℤ 4
    else if i == 1 || i == 6
    then (g.confidence -ℤ pos 50) /ℤ 3 -ℤ g.inflation_bp /ℤ 300
    else if i == 8
    then g.confidence -ℤ pos 50
    else (g.confidence -ℤ pos 50) /ℤ 2

-- A sum of money after a move in thousandths, ten thousand at least.
pub grown : ℤ → ℤ → ℤ
grown move sum = max_ℤ (pos 10_000) (sum +ℤ sum *ℤ move /ℤ 1_000)

pub next_debt : ℤ → ℤ → ℤ
next_debt profit debt =
    if ltb_ℤ profit (pos 0)
    then debt +ℤ (pos (abs_ℤ profit / 4) +ℤ debt /ℤ 100_000)
    else max_ℤ (pos 0) (debt -ℤ profit /ℤ 20)

-- The company's books after an hour.
pub earned : ℤ → ℤ → Luck → Share → Share
earned bias inflation l h =
    let revenue = grown (clamp (bias +ℤ l.revenue /ℤ 8) (negsuc 24) (pos 25)) h.revenue in
    let expenses =
      grown (clamp (inflation /ℤ 100 +ℤ l.expenses /ℤ 15) (negsuc 14) (pos 30)) h.expenses in
    let profit = revenue -ℤ expenses in
    record h {
      revenue = revenue;
      expenses = expenses;
      profit = profit;
      cash = max_ℤ (pos 0) (h.cash +ℤ profit);
      debt = next_debt profit h.debt;
    }

-- What bears on the price, in thousandths of it.
pub pressure : ℕ → ℤ → ℤ → ℤ → Luck → Share → ℤ
pressure i bias expectation fundamental l h =
    clamp
      (clamp ((fundamental -ℤ h.price) *ℤ pos 80 /ℤ pos_part (max_ℤ (pos 50) h.price)) (negsuc 44)
          (pos 45)
        +ℤ (h.sentiment -ℤ pos 50) /ℤ 3
        +ℤ bias /ℤ 2
        +ℤ expectation
        +ℤ l.volatility *ℤ get_or (pos 0) stock_volatility i /ℤ 100
        +ℤ (if i == 4 && ltb_ℤ (pos 96) l.crash then negsuc 239 else pos 0)
        +ℤ (if i == 8 && ltb_ℤ (pos 75) l.jump then l.jump_size /ℤ 2 else pos 0))
      (negsuc 299) (pos 180)

pub next_price : ℤ → ℤ → ℤ
next_price move old = clamp (old +ℤ old *ℤ move /ℤ 1_000) minimum_price maximum_price

pub mood : ℤ → Luck → Share → Share
mood bias l h = record h {
  sentiment = clamp (h.sentiment +ℤ bias /ℤ 5 +ℤ l.sentiment /ℤ 20) (pos 0) (pos 100);
}

-- A price that moves by a fifth halts the trade for an hour.
pub priced : ℤ → ℤ → Share → Share
priced step_time move h =
    let price = next_price move h.price in
    record h {
      price = price;
      halted_until =
          if leb_ℤ (h.price *ℤ pos 20) (pos (abs_ℤ (price -ℤ h.price)) *ℤ pos 100)
          then step_time +ℤ pos 3_600
          else h.halted_until;
    }

pub distressed : Share → Share
distressed h = record h {
  distress =
      if ltb_ℤ h.profit (pos 0) && ltb_ℤ h.cash h.debt
      then (h.distress + 1) % u32_mod
      else if h.distress == 0
      then 0
      else h.distress - 1;
}

-- A company that has been in distress for a day is taken off the market.
pub delisted : ℤ → Share → Share
delisted step_time h = record h {
  listed = false;
  halted_until = step_time +ℤ pos 86_400;
  distress = 0;
  price = pos 50;
}

-- Once a day a company with more debt than cash issues shares.
pub is_diluting : ℤ → Share → Bool
is_diluting step_time h = pos_part (step_time /ℤ 3_600) % 24 == 0 && ltb_ℤ h.cash h.debt

unfoldable pub diluted : Share → Share
diluted h =
    let shares = (h.shares_outstanding + max_ℕ 1 (h.shares_outstanding / 20)) % u64_mod in
    record h {
      shares_outstanding = shares;
      price = pos (pos_part h.price * h.shares_outstanding % u64_mod / shares);
      sentiment = max_ℤ (pos 0) (h.sentiment -ℤ pos 3);
    }
