-- ===== src/Economy/Dynamics/Invariant.antt =====
-- The whole cycle of an hour against the bounds of Dynamics/Bounds.
use routine_linux_edition.Base.{ℕ, List, [], ◌∷◌, if_keeps, ◌%◌, ◌==◌}
use routine_linux_edition.Base.Int.{ℤ, pos}
use routine_linux_edition.Base.Bytes.{Bytes}
use routine_linux_edition.Economy.State.{GuildEconomy, GuildExchange, GuildDynamics, NewsEvent}
use routine_linux_edition.Economy.Status.{stock_count}
use routine_linux_edition.Economy.Orders.Remaining.{IsPriced}
use routine_linux_edition.Economy.News.{apply_news_impact, has_company, create_news_event, rumored}
use routine_linux_edition.Economy.News.Impact.{IsCalm, apply_news_impact-IsCalm}
use routine_linux_edition.Economy.Dynamics.{Country, with_trend}
use routine_linux_edition.Economy.Dynamics.Cycle.{
  struck, hear, hear_all, is_unheard, evolve, evolve_all, is_due, announced, spread_rumor,
  tell_rumor, wound_down, mixed, is_rising, rumor_rarity, govern, report, update_economic_dynamics,
}
use routine_linux_edition.Economy.Dynamics.Bounds.{
  IsStable, IsSteady, IsBounded, Within, RateHolds, with_demand-IsStable, with_policy-IsSteady,
  stimulate-IsBounded,
}

apply_news_impact-IsStable :
    (event : NewsEvent) (e : GuildEconomy) (exchange : GuildExchange)
    → IsStable e
    → IsStable (apply_news_impact event e exchange).0
unfolding apply_news_impact
apply_news_impact-IsStable event e exchange h =
    let calm = apply_news_impact-IsCalm event e exchange h.priced in
    let P = λ (r : GuildEconomy × GuildExchange). IsCalm r.0 → IsStable r.0 in
    if_keeps P (has_company event) _ _
      (λ c. record {
        priced = c.priced;
        confidence = c.confident;
        inflation = h.inflation;
        unemployment = h.unemployment;
      })
      (λ c. record {
        priced = c.priced;
        confidence = c.confident;
        inflation = h.inflation;
        unemployment = h.unemployment;
      })
      calm

abbrev known : Country → ℕ → Country
known c id = record c { dynamics = record c.dynamics { last_global_event_id = id } }

struck-IsBounded : (c : Country) (event : NewsEvent) → IsBounded c → IsBounded (struck c event)
struck-IsBounded c event h = record {
  stable = apply_news_impact-IsStable event c.economy c.exchange h.stable;
  steady = h.steady;
}

known-IsSteady :
    (d : GuildDynamics) (id : ℕ) → IsSteady d → IsSteady (record d { last_global_event_id = id })
known-IsSteady d id h = record { rate = h.rate; currency = h.currency; tariff = h.tariff }

hear-IsBounded : (c : Country) (event : NewsEvent) → IsBounded c → IsBounded (hear c event)
unfolding hear
hear-IsBounded c event h =
    if_keeps IsBounded (is_unheard c event) _ _
      (record {
        stable = (struck-IsBounded c event h).stable;
        steady = known-IsSteady c.dynamics _ h.steady;
      })
      h

hear_all-IsBounded :
    (c : Country) (news : List NewsEvent) → IsBounded c → IsBounded (hear_all c news)
unfolding hear_all
hear_all-IsBounded c [] h = h
hear_all-IsBounded c (event ∷ news) h =
    hear_all-IsBounded (hear c event) news (hear-IsBounded c event h)

announced-IsBounded :
    (c : Country) (event : NewsEvent) → IsBounded c → IsBounded (announced c event)
unfolding announced
announced-IsBounded c event h = record {
  stable = (struck-IsBounded c _ h).stable;
  steady = if_keeps IsSteady _ _ _ (known-IsSteady c.dynamics _ h.steady) h.steady;
}

evolve-IsBounded :
    (guild_id : Bytes) (step_time : ℤ) (c : Country) (event : NewsEvent)
    → IsBounded c
    → IsBounded (evolve guild_id step_time c event).0
unfolding evolve
evolve-IsBounded guild_id step_time c event h =
    if_keeps (λ (r : Country × NewsEvent). IsBounded r.0) (is_due guild_id step_time event) _ _
      (announced-IsBounded c event h) h

evolve_all-IsBounded :
    (guild_id : Bytes) (step_time : ℤ) (c : Country) (news : List NewsEvent)
    → IsBounded c
    → IsBounded (evolve_all guild_id step_time c news).0
unfolding evolve_all
evolve_all-IsBounded guild_id step_time c [] h = h
evolve_all-IsBounded guild_id step_time c (event ∷ news) h =
    evolve_all-IsBounded guild_id step_time (evolve guild_id step_time c event).0 news
      (evolve-IsBounded guild_id step_time c event h)

tell_rumor-IsBounded :
    (guild_id : Bytes) (step_time : ℤ) (company : ℕ) (c : Country)
    → IsBounded c
    → IsBounded (tell_rumor guild_id step_time company c)
unfolding tell_rumor create_news_event
tell_rumor-IsBounded guild_id step_time company c h = record {
  stable =
      apply_news_impact-IsStable
        (rumored c.feed.next_news_id guild_id step_time company (is_rising c.dynamics step_time)
          (rumor_rarity c.dynamics.trend))
        c.economy c.exchange h.stable;
  steady = record { rate = h.steady.rate; currency = h.steady.currency; tariff = h.steady.tariff };
}

spread_rumor-IsBounded :
    (hash : Bytes → ℕ) (guild_id : Bytes) (step_time : ℤ) (c : Country)
    → IsBounded c
    → IsBounded (spread_rumor hash guild_id step_time c)
unfolding spread_rumor
spread_rumor-IsBounded hash guild_id step_time c h =
    if_keeps IsBounded (mixed hash guild_id step_time % 6 == 0) _ _
      (tell_rumor-IsBounded guild_id step_time (mixed hash guild_id step_time % stock_count) c h) h

govern-IsBounded :
    (step_time : ℤ) (c : Country)
    → IsPriced c.economy.prices
    → RateHolds c.dynamics.policy_rate_bp
    → Within (pos 0) c.dynamics.tariff_basis_points (pos 2_500)
    → IsBounded (govern step_time c)
unfolding govern with_trend
govern-IsBounded step_time c h rate tariff =
    let helped = stimulate-IsBounded _ step_time (record {
      stable = with_demand-IsStable _ c.economy h;
      steady = with_policy-IsSteady _ _ rate tariff;
    }) in
    record {
      stable = helped.stable;
      steady = record {
        rate = helped.steady.rate;
        currency = helped.steady.currency;
        tariff = helped.steady.tariff;
      };
    }

-- When the prices, the rate of the central bank and the tariff are within their bounds, the cycle
-- of an hour leaves them so, and it leaves the confidence, the inflation, the unemployment and the
-- currency within theirs, whatever they were before.
pub update_economic_dynamics-IsBounded :
    (hash : Bytes → ℕ) (guild_id : Bytes) (step_time : ℤ) (c : Country)
    → IsPriced c.economy.prices
    → RateHolds c.dynamics.policy_rate_bp
    → Within (pos 0) c.dynamics.tariff_basis_points (pos 2_500)
    → IsBounded (update_economic_dynamics hash guild_id step_time c)
unfolding update_economic_dynamics report wound_down
update_economic_dynamics-IsBounded hash guild_id step_time c h rate tariff =
    let governed = govern-IsBounded step_time c h rate tariff in
    let heard = hear_all-IsBounded _ (govern step_time c).feed.news governed in
    let evolved =
      evolve_all-IsBounded guild_id step_time _
        (hear_all (govern step_time c) (govern step_time c).feed.news).feed.news heard in
    let told =
      spread_rumor-IsBounded hash guild_id step_time _
        (record { stable = evolved.stable; steady = evolved.steady }) in
    record {
      stable = told.stable;
      steady = record {
        rate = told.steady.rate;
        currency = told.steady.currency;
        tariff = told.steady.tariff;
      };
    }
