-- ===== src/Economy/Dynamics.antt =====
-- update_economic_dynamics of lib/local_economy_extension.cpp: the economy of a server, hour by hour.
use routine_linux_edition.Base.{
  ℕ, ◌+◌, ◌-◌, ◌*◌, ◌/◌, ◌%◌, Bool, true, false, not, ◌&&◌, ◌||◌, List, [], ◌∷◌, leb, ltb, ◌==◌,
  if◌then◌else◌, get_or, set,
}
use routine_linux_edition.Base.Int.{
  ℤ, pos, negsuc, ◌+ℤ◌, ◌-ℤ◌, ◌*ℤ◌, ◌/ℤ◌, leb_ℤ, ltb_ℤ, max_ℤ, min_ℤ, clamp, abs_ℤ, is_zero,
  pos_part,
}
use routine_linux_edition.Base.Bytes.{Bytes, bytes_eq}
use routine_linux_edition.Economy.Status.{u32_mod, u64_mod, stock_count}
use routine_linux_edition.Economy.State.{
  GuildEconomy, GuildExchange, GuildDynamics, GovernmentState, NewsEvent,
}
use routine_linux_edition.Economy.Accounts.{max_ℕ}
use routine_linux_edition.Economy.News.{
  Feed, apply_news_impact, create_news_event, event_headline, to_i32, signed, rumor_hours,
}
pub mod Cycle
pub mod Bounds
pub mod Invariant
pub mod Heard
pub mod Stimulus
mod Tests

-- The records of one server, and the news.
pub record Country : Type 0 where
  pub dynamics : GuildDynamics
  pub government : GovernmentState
  pub economy : GuildEconomy
  pub exchange : GuildExchange
  pub feed : Feed

-- The sum that the trend is taken from.
pub demand : GuildDynamics → ℤ
demand d =
    d.spending_cents /ℤ 100_000
    +ℤ d.investment_cents /ℤ 150_000
    +ℤ pos (d.hires * 2)
    -ℤ d.saving_cents /ℤ 180_000
    -ℤ d.selling_cents /ℤ 150_000
    +ℤ (d.capital_inflow_cents -ℤ d.capital_outflow_cents) /ℤ 200_000
    +ℤ (d.exports_cents -ℤ d.imports_cents) /ℤ 250_000
    -ℤ pos (d.layoffs * 3)

pub with_trend : ℤ → GuildDynamics → GuildDynamics
with_trend step_time d = record d {
  last_cycle_unix = if is_zero d.last_cycle_unix then step_time -ℤ pos 3_600 else d.last_cycle_unix;
  trend = clamp (demand d) (negsuc 24) (pos 25);
}

pub next_confidence : GuildDynamics → GuildEconomy → ℤ
next_confidence d e = clamp (e.confidence +ℤ d.trend /ℤ 3) (pos 10) (pos 90)

pub next_inflation : GuildDynamics → GuildEconomy → ℤ
next_inflation d e =
    let pressure =
      d.spending_cents /ℤ 300_000
      +ℤ d.capital_outflow_cents /ℤ 500_000
      -ℤ d.saving_cents /ℤ 450_000
      -ℤ (d.policy_rate_bp -ℤ pos 400) /ℤ 80 in
    clamp (e.inflation_bp +ℤ clamp pressure (negsuc 79) (pos 120)) (negsuc 99) (pos 1_800)

abbrev at_most : ℕ → ℕ → ℕ
at_most most n = if ltb n most then n else most

pub next_unemployment : GuildDynamics → GuildEconomy → ℤ
next_unemployment d e =
    clamp
      (e.unemployment_bp
        -ℤ pos (at_most 100 (d.hires * 12 % u32_mod))
        +ℤ pos (at_most 150 (d.layoffs * 18 % u32_mod))
        -ℤ d.trend *ℤ pos 2)
      (pos 150) (pos 3_000)

pub with_demand : GuildDynamics → GuildEconomy → GuildEconomy
with_demand d e = record e {
  confidence = next_confidence d e;
  inflation_bp = next_inflation d e;
  unemployment_bp = next_unemployment d e;
}

-- The rate of the central bank.
pub next_rate : GuildEconomy → ℤ → ℤ
next_rate e rate =
    if ltb_ℤ (pos 650) e.inflation_bp
    then min_ℤ (pos 2_000) (rate +ℤ pos 25)
    else if ltb_ℤ e.confidence (pos 38) || ltb_ℤ (pos 1_000) e.unemployment_bp
    then max_ℤ (pos 50) (rate -ℤ pos 25)
    else if ltb_ℤ (pos 400) rate
    then rate -ℤ pos 10
    else if ltb_ℤ rate (pos 400)
    then rate +ℤ pos 10
    else rate

pub next_currency : GuildDynamics → GuildEconomy → ℤ
next_currency d e =
    let external_balance =
      d.capital_inflow_cents +ℤ d.exports_cents -ℤ d.capital_outflow_cents -ℤ d.imports_cents in
    clamp
      (d.currency_index
        +ℤ (e.confidence -ℤ pos 50) *ℤ pos 2
        -ℤ e.inflation_bp /ℤ 80
        +ℤ clamp (external_balance /ℤ 250_000) (negsuc 99) (pos 100))
      (pos 1_000) (pos 50_000)

pub in_recession : GuildDynamics → GuildEconomy → Bool
in_recession d e =
    ltb_ℤ e.confidence (pos 35) || ltb_ℤ (pos 1_200) e.unemployment_bp || leb_ℤ d.trend (negsuc 9)

-- The hours of recession, and of the recovery behind them.
pub with_recession : Bool → GuildDynamics → GuildDynamics
with_recession recession d =
    let recovered = (d.recovery_hours + 1) % u32_mod in
    if recession
    then record d { recession_hours = (d.recession_hours + 1) % u32_mod; recovery_hours = 0 }
    else if d.recession_hours == 0
    then d
    else if leb 6 recovered
    then record d { recession_hours = 0; recovery_hours = 0 }
    else record d { recovery_hours = recovered }

pub with_policy : GuildEconomy → GuildDynamics → GuildDynamics
with_policy e d =
    let rated = record d { policy_rate_bp = next_rate e d.policy_rate_bp } in
    with_recession (in_recession d e) (record rated { currency_index = next_currency rated e })

abbrev pub stimulus : ℤ
stimulus = pos 50_000

pub is_stimulated : GuildDynamics → ℤ → Bool
is_stimulated d step_time =
    leb 12 d.recession_hours && leb_ℤ (pos 86_400) (step_time -ℤ d.last_stimulus_unix)

-- What the government has to borrow for the stimulus.
pub issuance : GovernmentState → ℤ
issuance g = if ltb_ℤ g.treasury_cents stimulus then stimulus -ℤ g.treasury_cents else pos 0

pub stimulate : Country → ℤ → Country
stimulate c step_time =
    let d = c.dynamics in
    let g = c.government in
    let e = c.economy in
    if is_stimulated d step_time
    then record c {
      dynamics = record d {
        government_debt_cents = d.government_debt_cents +ℤ issuance g;
        spending_cents = d.spending_cents +ℤ stimulus;
        last_stimulus_unix = step_time;
      };
      government = record g { treasury_cents = g.treasury_cents +ℤ issuance g -ℤ stimulus };
      economy = record e {
        confidence = min_ℤ (pos 90) (e.confidence +ℤ pos 4);
        unemployment_bp = max_ℤ (pos 150) (e.unemployment_bp -ℤ pos 100);
      };
    }
    else c

pub personality_of : GuildDynamics → GuildEconomy → ℕ
personality_of d e =
    if ltb_ℤ (pos 500_000) d.forex_volume_cents || ltb_ℤ (pos 12_500) d.currency_index
    then 2
    else if ltb_ℤ (pos 68) e.confidence && ltb_ℤ e.unemployment_bp (pos 600)
    then 1
    else if leb 12 (abs_ℤ d.trend) || ltb_ℤ (pos 900) e.inflation_bp
    then 3
    else 0
