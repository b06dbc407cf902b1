-- ===== src/Economy/News/Kept.antt =====
-- The list of the news: its length and the numbers of the events.
use routine_linux_edition.Base.{
  ℕ, zero, suc, ◌+◌, ◌-◌, ◌%◌, ◌≤◌, ◌<◌, ◌≡◌, Bool, List, [], ◌∷◌, ◌++◌, arith, if_keeps, if_each,
  All, length, drop, length-drop, ltb, tests,
}
use routine_linux_edition.Base.Int.{ℤ}
use routine_linux_edition.Base.Bytes.{Bytes}
use routine_linux_edition.Economy.Status.{u64_mod}
use routine_linux_edition.Economy.State.{GuildEconomy, GuildExchange, NewsEvent}
use routine_linux_edition.Economy.News.{Feed, keep_last, news_kept, rumored, create_news_event}

-- The numbers of all events are below the next one.
abbrev pub IsFresh : Feed → Type 0
IsFresh feed = All (λ (e : NewsEvent). e.id < feed.next_news_id) feed.news

keep_last_short : (news : List NewsEvent) → length (keep_last news) ≤ news_kept
unfolding keep_last
keep_last_short news =
    if_each (λ (xs : List NewsEvent). length xs ≤ news_kept) (ltb news_kept (length news)) _ _
      (λ h. omega (tests, length-drop (length news - news_kept) news)) (λ h. ground arith)

below :
    (n m : ℕ) (news : List NewsEvent)
    → n ≤ m
    → All (λ (e : NewsEvent). e.id < n) news
    → All (λ (e : NewsEvent). e.id < m) news
below n m [] h k = tt
below n m (e ∷ news) h k = (omega (arith, h, k.0), below n m news h k.1)

below_append :
    (m : ℕ) (news more : List NewsEvent)
    → All (λ (e : NewsEvent). e.id < m) news
    → All (λ (e : NewsEvent). e.id < m) more
    → All (λ (e : NewsEvent). e.id < m) (news ++ more)
below_append m [] more h k = k
below_append m (e ∷ news) more h k = (h.0, below_append m news more h.1 k)

below_drop :
    (m n : ℕ) (news : List NewsEvent)
    → All (λ (e : NewsEvent). e.id < m) news
    → All (λ (e : NewsEvent). e.id < m) (drop n news)
below_drop m zero news h = h
below_drop m (suc n) [] h = tt
below_drop m (suc n) (e ∷ news) h = below_drop m n news h.1

keep_last_below :
    (m : ℕ) (news : List NewsEvent)
    → All (λ (e : NewsEvent). e.id < m) news
    → All (λ (e : NewsEvent). e.id < m) (keep_last news)
unfolding keep_last
keep_last_below m news h =
    if_keeps (All (λ (e : NewsEvent). e.id < m)) (ltb news_kept (length news)) _ _
      (below_drop m (length news - news_kept) news h) h

-- When the numbers of all events are below the next number, and the numbers do not run out, they
-- are so after an event is entered, and at most 200 events are kept.
pub create_news_event-IsFresh :
    (guild_id : Bytes) (now : ℤ) (company : ℕ) (positive : Bool) (rarity : ℕ)
    → (economy : GuildEconomy) (exchange : GuildExchange) (feed : Feed) → IsFresh feed
    → suc feed.next_news_id < u64_mod
    → IsFresh (create_news_event guild_id now company positive rarity economy exchange feed).2
      × (length
            (create_news_event guild_id now company positive rarity economy exchange feed).2.news
          ≤ news_kept)
unfolding create_news_event rumored
create_news_event-IsFresh guild_id now company positive rarity economy exchange feed h k =
    let id = feed.next_news_id in
    let event = rumored id guild_id now company positive rarity in
    let next : (id + 1) % u64_mod ≡ suc id = omega arith in
    let all_below =
      below_append (suc id) feed.news (event ∷ []) (below id (suc id) feed.news (omega arith) h)
        (omega arith, tt) in
    (
      rw next (keep_last_below (suc id) (feed.news ++ event ∷ []) all_below),
      keep_last_short (feed.news ++ event ∷ []),
    )
