-- ===== src/Economy/News.antt =====
-- The news of a server: event_headline, apply_news_impact and create_news_event of
-- lib/local_economy_extension.cpp.
use routine_linux_edition.Base.{
  ℕ, ◌+◌, ◌-◌, ◌*◌, ◌%◌, Bool, true, false, not, ◌&&◌, List, [], ◌∷◌, ◌++◌, leb, ltb, ◌==◌,
  if◌then◌else◌, get_or, set, length, drop,
}
use routine_linux_edition.Base.Int.{
  ℤ, pos, negsuc, ◌+ℤ◌, ◌-ℤ◌, ◌*ℤ◌, ◌/ℤ◌, leb_ℤ, ltb_ℤ, clamp, pos_part,
}
use routine_linux_edition.Base.Bytes.{Bytes, bytes}
use routine_linux_edition.Economy.Status.{u32_mod, u64_mod, stock_count}
use routine_linux_edition.Economy.State.{GuildEconomy, GuildExchange, NewsEvent}
use routine_linux_edition.Economy.Market.{minimum_price, maximum_price, price_of}
pub mod Impact
pub mod Kept
mod Tests

abbrev company_names : List Bytes
company_names =
    bytes "MEOW"
    ∷ bytes "Rat Mining"
    ∷ bytes "Yummy Burger"
    ∷ bytes "Intelligent"
    ∷ bytes "Enron"
    ∷ bytes "Lobster Power & Electric"
    ∷ bytes "Skibidi Steel"
    ∷ bytes "Boogle"
    ∷ bytes "Dogecoin Mines"
    ∷ []

-- The rumors of the first companies, and of all others.
rumor : ℕ → Bytes → Bool → Bytes
rumor company name positive =
    if company == 0
    then (if positive
        then bytes "Rumor: MEOW is preparing a major consumer-tech announcement."
        else bytes "MEOW suppliers warn that its secret project may be slipping.")
    else if company == 1
    then (if positive
        then bytes "Rat Mining survey crews report unusually shiny core samples."
        else bytes "Rat Mining warns that a major shaft needs emergency repairs.")
    else if company == 2
    then (if positive
        then bytes "Yummy Burger reports packed dining rooms and suspiciously happy franchisees."
        else bytes "Food inflation squeezes Yummy Burger margins.")
    else if company == 3
    then (if positive
        then bytes "Intelligent researchers hint at an enterprise-computing breakthrough."
        else bytes "Intelligent delays a closely watched platform rollout.")
    else if company == 4
    then (if positive
        then bytes "Enron files an earnings report containing several positive numbers."
        else bytes "Enron executives schedule an emergency call, which feels traditional.")
    else if positive
    then name ++ bytes " reports stronger demand and expanding production."
    else name ++ bytes " warns of weaker orders and rising costs."

pub event_headline : ℕ → Bool → ℕ → ℕ → Bytes
event_headline company positive rarity stage =
    let name = get_or [] company_names (company % stock_count) in
    if stage == 0
    then rumor company name positive
    else if leb 3 rarity && positive
    then name ++ bytes " delivers a generation-defining breakthrough; world markets reprice."
    else if positive
    then name ++ bytes " confirms the rumors with a stronger-than-expected announcement."
    else name ++ bytes " disappoints speculators; the crowded trade unwinds violently."

abbrev pub has_company : NewsEvent → Bool
has_company event = leb_ℤ (pos 0) event.company && ltb_ℤ event.company (pos stock_count)

-- The economy and the exchange are references of the caller; both are returned.
unfoldable pub apply_news_impact :
    NewsEvent → GuildEconomy → GuildExchange → GuildEconomy × GuildExchange
apply_news_impact event economy exchange =
    let company = pos_part event.company in
    let price = price_of economy company in
    let confidence = clamp (economy.confidence +ℤ event.impact /ℤ 5) (pos 10) (pos 90) in
    if has_company event
    then (
      record economy {
        prices =
            set economy.prices company
              (clamp (price +ℤ price *ℤ event.impact /ℤ 250) minimum_price maximum_price);
        confidence = confidence;
      },
      record exchange {
        sentiment =
            set exchange.sentiment company
              (clamp (get_or (pos 0) exchange.sentiment company +ℤ event.impact) (pos 0) (pos 100));
      },
    )
    else (record economy { confidence = confidence }, exchange)

-- uint32_t read as int32_t.
pub to_i32 : ℕ → ℤ
to_i32 n = if ltb n 2_147_483_648 then pos n else pos n -ℤ pos u32_mod

abbrev pub signed : Bool → ℤ → ℤ
signed positive a = if positive then a else pos 0 -ℤ a

-- The news and the number of the next event.
pub record Feed : Type 0 where
  pub news : List NewsEvent
  pub next_news_id : ℕ

abbrev pub news_kept : ℕ
news_kept = 200

-- The last events, as many as are kept.
pub keep_last : List NewsEvent → List NewsEvent
keep_last news = if ltb news_kept (length news) then drop (length news - news_kept) news else news

abbrev pub rumor_hours : ℕ → ℕ
rumor_hours rarity = if leb 2 rarity then 6 else 12

-- The event that is entered; its rarity is at most 3.
pub rumored : ℕ → Bytes → ℤ → ℕ → Bool → ℕ → NewsEvent
rumored id guild_id now company positive asked =
    let rarity = if ltb asked 3 then asked else 3 in
    record {
      id = id;
      origin_guild = guild_id;
      created_unix = now;
      evolves_unix = now +ℤ pos (rumor_hours asked * 3_600);
      company = pos (company % stock_count);
      impact = signed positive (pos (4 + rarity * 3));
      rarity = rarity;
      stage = 0;
      global = false;
      positive = positive;
      headline = event_headline company positive rarity 0;
    }

unfoldable pub create_news_event :
    Bytes
    → ℤ
    → ℕ
    → Bool
    → ℕ
    → GuildEconomy
    → GuildExchange
    → Feed
    → GuildEconomy × GuildExchange × Feed
create_news_event guild_id now company positive rarity economy exchange feed =
    let event = rumored feed.next_news_id guild_id now company positive rarity in
    let (economy', exchange') = apply_news_impact event economy exchange in
    (
      economy',
      exchange',
      record {
        news = keep_last (feed.news ++ event ∷ []);
        next_news_id = (feed.next_news_id + 1) % u64_mod;
      },
    )
