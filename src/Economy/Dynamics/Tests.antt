-- ===== src/Economy/Dynamics/Tests.antt =====
-- One server with one piece of news.
use routine_linux_edition.Base.{◌≡◌, refl, true, [], ◌∷◌, arith, length}
use routine_linux_edition.Base.Int.{pos, ◌+ℤ◌, ◌-ℤ◌, ◌≤ℤ◌}
use routine_linux_edition.Base.Bytes.{bytes}
use routine_linux_edition.Economy.State.{
  new_guild_economy, new_guild_exchange, new_news_event, new_guild_dynamics, new_government_state,
}
use routine_linux_edition.Economy.Dynamics.{Country, stimulus, stimulate, is_stimulated}
use routine_linux_edition.Economy.Dynamics.Cycle.{update_economic_dynamics}
use routine_linux_edition.Economy.Dynamics.Bounds.{IsBounded}
use routine_linux_edition.Economy.Dynamics.Invariant.{update_economic_dynamics-IsBounded}
use routine_linux_edition.Economy.Dynamics.Stimulus.{stimulate_books}

abbrev island : Country
island = record {
  dynamics = record new_guild_dynamics { recession_hours = 12 };
  government = record new_government_state { treasury_cents = pos 20_000 };
  economy = new_guild_economy;
  exchange = new_guild_exchange;
  feed = record {
    news = record new_news_event { id = 1; global = true; company = pos 2; impact = pos 10 } ∷ [];
    next_news_id = 2;
  };
}

update_economic_dynamics-IsBounded_example :
    IsBounded (update_economic_dynamics length (bytes "1") (pos 7_200) island)
update_economic_dynamics-IsBounded_example =
    update_economic_dynamics-IsBounded length (bytes "1") (pos 7_200) island (ground arith)
      (omega arith) (omega arith)

stimulate_books_example :
    ((stimulate island (pos 90_000)).government.treasury_cents
        -ℤ (stimulate island (pos 90_000)).dynamics.government_debt_cents
      ≡ island.government.treasury_cents -ℤ island.dynamics.government_debt_cents -ℤ stimulus)
    × ((stimulate island (pos 90_000)).dynamics.spending_cents
        ≡ island.dynamics.spending_cents +ℤ stimulus)
    × (pos 0 ≤ℤ (stimulate island (pos 90_000)).government.treasury_cents)
    × ((stimulate island (pos 90_000)).dynamics.last_stimulus_unix ≡ pos 90_000)
unfolding is_stimulated ◌-ℤ◌
stimulate_books_example = stimulate_books island (pos 90_000) refl
