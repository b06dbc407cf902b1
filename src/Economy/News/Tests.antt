-- ===== src/Economy/News/Tests.antt =====
-- One event.
use routine_linux_edition.Base.{◌≤◌, true, [], ◌∷◌, arith, length}
use routine_linux_edition.Base.Int.{pos}
use routine_linux_edition.Base.Bytes.{bytes}
use routine_linux_edition.Economy.State.{new_guild_economy, new_guild_exchange, new_news_event}
use routine_linux_edition.Economy.News.{Feed, news_kept, create_news_event}
use routine_linux_edition.Economy.News.Kept.{IsFresh, create_news_event-IsFresh}

abbrev one_event : Feed
one_event = record { news = record new_news_event { id = 1 } ∷ []; next_news_id = 2 }

create_news_event-IsFresh_example :
    IsFresh
      (create_news_event
        (bytes "1")
        (pos 9)
        4
        true
        2
        new_guild_economy
        new_guild_exchange
        one_event).2
    × (length
          (create_news_event
            (bytes "1")
            (pos 9)
            4
            true
            2
            new_guild_economy
            new_guild_exchange
            one_event).2.news
        ≤ news_kept)
create_news_event-IsFresh_example =
    create_news_event-IsFresh (bytes "1") (pos 9) 4 true 2 new_guild_economy new_guild_exchange
      one_event (omega arith, tt) (omega arith)
