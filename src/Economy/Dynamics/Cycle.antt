-- ===== src/Economy/Dynamics/Cycle.antt =====
-- update_economic_dynamics of lib/local_economy_extension.cpp: the news of the hour, and the whole
-- cycle. `hash` is std::hash of a server's id.
use routine_linux_edition.Base.{
  ℕ, ◌+◌, ◌*◌, ◌/◌, ◌%◌, Bool, true, not, ◌&&◌, ◌||◌, List, [], ◌∷◌, leb, ltb, ◌==◌, if◌then◌else◌,
  get_or, set,
}
use routine_linux_edition.Base.Int.{
  ℤ, pos, negsuc, ◌+ℤ◌, ◌-ℤ◌, ◌/ℤ◌, leb_ℤ, ltb_ℤ, abs_ℤ, is_zero, pos_part,
}
use routine_linux_edition.Base.Bytes.{Bytes, bytes_eq}
use routine_linux_edition.Economy.Status.{u32_mod, u64_mod, stock_count}
use routine_linux_edition.Economy.State.{GuildExchange, GuildDynamics, NewsEvent}
use routine_linux_edition.Economy.Accounts.{max_ℕ}
use routine_linux_edition.Economy.Ledger.{to_u64}
use routine_linux_edition.Economy.News.{
  apply_news_impact, create_news_event, event_headline, to_i32, signed, rumor_hours,
}
use routine_linux_edition.Economy.Dynamics.{
  Country, with_trend, with_demand, with_policy, stimulate, personality_of,
}

abbrev pub struck : Country → NewsEvent → Country
struck c event =
    let (economy, exchange) = apply_news_impact event c.economy c.exchange in
    record c { economy = economy; exchange = exchange }

abbrev pub is_unheard : Country → NewsEvent → Bool
is_unheard c event = event.global && ltb c.dynamics.last_global_event_id event.id

-- One global event that is not known yet.
unfoldable pub hear : Country → NewsEvent → Country
hear c event =
    let d = c.dynamics in
    if is_unheard c event
    then record (struck c event) {
      dynamics = record d { last_global_event_id = max_ℕ d.last_global_event_id event.id };
    }
    else c

-- The first loop over the news.
unfoldable pub hear_all : Country → List NewsEvent → Country
hear_all c [] = c
hear_all c (event ∷ news) = hear_all (hear c event) news

abbrev pub is_due : Bytes → ℤ → NewsEvent → Bool
is_due guild_id step_time event =
    bytes_eq event.origin_guild guild_id && (event.stage == 0 && leb_ℤ event.evolves_unix step_time)

-- An announcement: whether the rumor comes true hangs on the profit.
unfoldable pub confirmed : GuildExchange → NewsEvent → NewsEvent
confirmed exchange event =
    let company = pos_part event.company in
    let fulfilled =
      if leb_ℤ (pos 0) (get_or (pos 0) exchange.profit company)
      then event.positive
      else not event.positive in
    record event {
      stage = 1;
      positive = fulfilled;
      impact = signed fulfilled (to_i32 ((7 + event.rarity * 4) % u32_mod));
      headline = event_headline company fulfilled event.rarity 1;
      global = if leb 2 event.rarity && fulfilled then true else event.global;
    }

-- The references beside the news, after an announcement.
unfoldable pub announced : Country → NewsEvent → Country
announced c event =
    let d = c.dynamics in
    let after = confirmed c.exchange event in
    let known =
      if leb 2 event.rarity && after.positive
      then record d { last_global_event_id = max_ℕ d.last_global_event_id event.id }
      else d in
    record (struck c after) { dynamics = known }

-- One round of the second loop: the references, and the event.
unfoldable pub evolve : Bytes → ℤ → Country → NewsEvent → Country × NewsEvent
evolve guild_id step_time c event =
    if is_due guild_id step_time event
    then (announced c event, confirmed c.exchange event)
    else (c, event)

-- The second loop over the news.
unfoldable pub evolve_all : Bytes → ℤ → Country → List NewsEvent → Country × List NewsEvent
evolve_all guild_id step_time c [] = (c, [])
evolve_all guild_id step_time c (event ∷ news) =
    let (c', event') = evolve guild_id step_time c event in
    let (end, rest) = evolve_all guild_id step_time c' news in (end, event' ∷ rest)

abbrev pub hour_of : ℤ → ℕ
hour_of step_time = to_u64 (step_time /ℤ 3_600)

-- The hour and the server, mixed.
abbrev pub mixed : (Bytes → ℕ) → Bytes → ℤ → ℕ
mixed hash guild_id step_time = (hour_of step_time + hash guild_id) % u64_mod

pub rumor_rarity : ℤ → ℕ
rumor_rarity trend =
    let swing = abs_ℤ trend in
    if leb 20 swing then 3 else if leb 12 swing then 2 else if leb 6 swing then 1 else 0

abbrev pub is_rising : GuildDynamics → ℤ → Bool
is_rising d step_time = ltb_ℤ (pos 0) d.trend || (is_zero d.trend && hour_of step_time % 2 == 0)

-- A rumor about the company.
unfoldable pub tell_rumor : Bytes → ℤ → ℕ → Country → Country
tell_rumor guild_id step_time company c =
    let d = c.dynamics in
    let positive = is_rising d step_time in
    let rarity = rumor_rarity d.trend in
    let (economy, exchange, feed) =
      create_news_event guild_id step_time company positive rarity c.economy c.exchange c.feed in
    let expected = if positive then pos (8 + rarity * 4) else negsuc 7 -ℤ pos (rarity * 4) in
    record c {
      economy = economy;
      exchange = exchange;
      feed = feed;
      dynamics = record d {
        expectations = set d.expectations company expected;
        rumor_due = set d.rumor_due company (step_time +ℤ pos (rumor_hours rarity * 3_600));
      };
    }

-- The rumor of every sixth hour.
unfoldable pub spread_rumor : (Bytes → ℕ) → Bytes → ℤ → Country → Country
spread_rumor hash guild_id step_time c =
    let m = mixed hash guild_id step_time in
    if m % 6 == 0 then tell_rumor guild_id step_time (m % stock_count) c else c

-- What is carried over into the next hour.
unfoldable pub wound_down : ℤ → GuildDynamics → GuildDynamics
wound_down step_time d = record d {
  spending_cents = d.spending_cents /ℤ 4;
  investment_cents = d.investment_cents /ℤ 4;
  saving_cents = d.saving_cents /ℤ 4;
  selling_cents = d.selling_cents /ℤ 4;
  capital_inflow_cents = d.capital_inflow_cents /ℤ 4;
  capital_outflow_cents = d.capital_outflow_cents /ℤ 4;
  exports_cents = d.exports_cents /ℤ 4;
  imports_cents = d.imports_cents /ℤ 4;
  forex_volume_cents = d.forex_volume_cents /ℤ 2;
  hires = d.hires / 2;
  layoffs = d.layoffs / 2;
  last_cycle_unix = step_time;
}

-- Trend, demand, central bank, stimulus and personality.
unfoldable pub govern : ℤ → Country → Country
govern step_time c =
    let trended = with_trend step_time c.dynamics in
    let economy = with_demand trended c.economy in
    let led = record c { dynamics = with_policy economy trended; economy = economy } in
    let helped = stimulate led step_time in
    record helped {
      dynamics = record helped.dynamics {
        personality = personality_of helped.dynamics helped.economy;
      };
    }

unfoldable pub report : (Bytes → ℕ) → Bytes → ℤ → Country → Country
report hash guild_id step_time c =
    let heard = hear_all c c.feed.news in
    let (announced, news) = evolve_all guild_id step_time heard heard.feed.news in
    spread_rumor hash guild_id step_time
      (record announced { feed = record announced.feed { news = news } })

unfoldable pub update_economic_dynamics : (Bytes → ℕ) → Bytes → ℤ → Country → Country
update_economic_dynamics hash guild_id step_time c =
    let after = report hash guild_id step_time (govern step_time c) in
    record after { dynamics = wound_down step_time after.dynamics }
