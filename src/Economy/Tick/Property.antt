-- ===== src/Economy/Tick/Property.antt =====
-- The properties of economy_tick_all_impl of lib/local_economy_extension.cpp: rent, the payments of the
-- mortgage and the foreclosure after the third miss.
use routine_linux_edition.Base.{
  ℕ, zero, suc, ◌+◌, ◌-◌, Bool, true, false, not, ◌&&◌, ◌||◌, List, [], ◌∷◌, ◌++◌, Option, none,
  some, leb, ◌==◌, if◌then◌else◌, get_or,
}
use routine_linux_edition.Base.Int.{
  ℤ, pos, pos_part, ◌+ℤ◌, ◌-ℤ◌, ◌*ℤ◌, ◌/ℤ◌, leb_ℤ, ltb_ℤ, min_ℤ, max_ℤ,
}
use routine_linux_edition.Base.Bytes.{Bytes, bytes, bytes_eq, is_empty}
use routine_linux_edition.Base.Decimal.{show_ℕ}
use routine_linux_edition.Base.Dict.{insert, ensure, at}
use routine_linux_edition.Economy.State.{
  Store, Player, ChaosPlayer, PropertyAsset, AuctionListing, AuditEntry, GuildEconomy,
  new_guild_economy, new_chaos_player,
}
use routine_linux_edition.Economy.Accounts.{key_for, player_at, ensure_player}
use routine_linux_edition.Economy.Money.{cash}
use routine_linux_edition.Economy.Worth.{property_market_value, recalculate_property_level}
use routine_linux_edition.Economy.Tick.{
  Ticked, Subject, entry, whole_days, periods_due, next_u32, score_up, score_down, collected,
  charged, credited, day,
}
pub mod Mortgage

abbrev pub property_daily_rent : List ℤ
property_daily_rent = pos 0 ∷ pos 1_500 ∷ pos 4_500 ∷ pos 18_000 ∷ []

-- A property at work, with its owner's accounts.
pub record Estate : Type 0 where
  pub property : PropertyAsset
  pub wallet : Player
  pub player : ChaosPlayer
  pub changed : Bool
  pub foreclosed : Bool

pub income_days : ℤ → PropertyAsset → ℤ
income_days now p =
    if ltb_ℤ (pos 0) p.last_income_unix then whole_days p.last_income_unix now else pos 0

-- The tier of a property is at most 3.
pub daily_rent : GuildEconomy → PropertyAsset → ℤ
daily_rent economy p =
    get_or (pos 0) property_daily_rent p.tier
    *ℤ max_ℤ (pos 25) (pos p.condition)
    *ℤ max_ℤ (pos 25) economy.confidence
    /ℤ 5_000

pub rented : ℤ → PropertyAsset → PropertyAsset
rented days p = record p {
  condition = pos_part (max_ℤ (pos 25) (pos p.condition -ℤ days *ℤ pos 2));
  last_income_unix = p.last_income_unix +ℤ days *ℤ pos day;
}

abbrev pub valued : GuildEconomy → PropertyAsset → PropertyAsset
valued economy p = record p {
  market_value_cents = property_market_value economy p.tier p.condition;
}

-- What is due on a mortgage.
pub instalment : PropertyAsset → ℤ
instalment p =
    min_ℤ p.mortgage_cents
      (max_ℤ (pos 1_000) (p.purchase_price_cents /ℤ 60) +ℤ p.mortgage_cents /ℤ 1_000)

pub kept_up : Estate → Estate
kept_up e = record e {
  property = record e.property { missed_payments = 0 };
  player = record e.player { credit_score = score_up (pos 2) e.player.credit_score };
}

pub fallen_behind : Estate → Estate
fallen_behind e =
    let missed = next_u32 e.property.missed_payments in
    record e {
      property = record e.property {
        missed_payments = missed;
        mortgage_cents =
            e.property.mortgage_cents +ℤ max_ℤ (pos 500) (e.property.mortgage_cents /ℤ 200);
      };
      player = record e.player { credit_score = score_down (pos 45) e.player.credit_score };
      foreclosed = leb 3 missed;
    }

-- What could be collected is taken off the mortgage.
abbrev pub paid_in : ℤ → Estate → Estate
paid_in payment e = record e {
  wallet = charged payment e.wallet;
  property = record e.property {
    mortgage_cents =
        e.property.mortgage_cents -ℤ min_ℤ e.property.mortgage_cents (collected payment e.wallet);
  };
}

abbrev pub next_day : Estate → Estate
next_day e = record e {
  property = record e.property { next_payment_unix = e.property.next_payment_unix +ℤ pos day };
  changed = true;
}

pub mortgage_day : Estate → Estate
mortgage_day e =
    let payment = instalment e.property in
    let paid = collected payment e.wallet in
    next_day (
      if leb_ℤ payment paid then kept_up (paid_in payment e) else fallen_behind (paid_in payment e))

-- while (payment_periods-- > 0 && property->mortgage_cents > 0), which a foreclosure leaves
pub mortgage_loop : ℕ → Estate → Estate
mortgage_loop zero e = e
mortgage_loop (suc periods) e =
    let rest = mortgage_loop periods (mortgage_day e) in
    if not e.foreclosed && ltb_ℤ (pos 0) e.property.mortgage_cents then rest else e

abbrev pub without_mortgage : Estate → Estate
without_mortgage e = record e {
  property = record e.property {
    mortgage_cents = pos 0;
    next_payment_unix = pos 0;
    missed_payments = 0;
  };
}

pub mortgage_cleared : Estate → Estate
mortgage_cleared e = if leb_ℤ e.property.mortgage_cents (pos 0) then without_mortgage e else e

pub payments_due : ℤ → PropertyAsset → ℕ
payments_due now p =
    if ltb_ℤ (pos 0) p.mortgage_cents
      && (ltb_ℤ (pos 0) p.next_payment_unix && leb_ℤ p.next_payment_unix now)
    then periods_due (pos 7) p.next_payment_unix now
    else 0

abbrev about : ℤ → PropertyAsset → Subject
about now p = record { guild_id = p.guild_id; user_id = p.owner_id; now = now }

-- The rent since the last one, with its audit entry.
pub collect_rent : ℤ → GuildEconomy → Bytes → Estate → List AuditEntry → Estate × List AuditEntry
collect_rent now economy symbol e audit =
    let p = e.property in
    let days = income_days now p in
    let total = daily_rent economy p *ℤ days in
    if ltb_ℤ (pos 0) days
    then (
      record e {
        property = rented days p;
        wallet = record e.wallet { wallet_cents = e.wallet.wallet_cents +ℤ total };
        changed = true;
      },
      audit
          ++ entry (about now p) (bytes "rent") (
              bytes "Property #"
              ++ (show_ℕ p.id
                  ++ (bytes " produced "
                      ++ (cash symbol total
                          ++ (bytes " over " ++ (show_ℕ (pos_part days) ++ bytes " day(s)."))))))
            ∷ [],
    )
    else (e, audit)

-- The property after its rent, its valuation and its payments.
pub work_estate : ℤ → GuildEconomy → Estate → Estate
work_estate now economy e =
    let p = valued economy e.property in
    mortgage_cleared (mortgage_loop (payments_due now p) (record e { property = p }))

abbrev pub is_listing_of : PropertyAsset → AuctionListing → Bool
is_listing_of p a = a.asset_type == 1 && (a.asset_id == p.id && bytes_eq a.guild_id p.guild_id)

-- The auctions of a seized property end, and their bids are given back.
unfoldable pub cancel_auctions :
    PropertyAsset → List AuctionListing → Store → List AuctionListing × Store
cancel_auctions p [] s = ([], s)
cancel_auctions p (a ∷ auctions) s =
    let refunded =
      if is_empty a.highest_bidder_id
      then s
      else credited p.guild_id a.highest_bidder_id a.highest_bid_cents s in
    let (rest, after) = cancel_auctions p auctions (if is_listing_of p a then refunded else s) in
    (if is_listing_of p a then rest else a ∷ rest, after)

-- The properties before this one are worked off, those behind it wait.
unfoldable pub foreclose :
    ℤ → PropertyAsset → List PropertyAsset → List PropertyAsset → Store → Store
foreclose now p before behind s =
    let (auctions, t) = cancel_auctions p s.auctions s in
    recalculate_property_level
      (record t {
        auctions = auctions;
        properties = before ++ behind;
        audit =
            t.audit
            ++ entry (about now p) (bytes "foreclosure") (
                bytes "Property #"
                ++ (show_ℕ p.id ++ bytes " was seized after three missed mortgage payments."))
              ∷ [];
      })
      p.guild_id p.owner_id

-- The records that a property's turn reads are there.
abbrev entered : PropertyAsset → Store → Store
entered p s =
    let t = ensure_player s p.guild_id p.owner_id in
    record t { guilds = ensure new_guild_economy p.guild_id t.guilds }

-- The chaos player is entered where a payment was due.
abbrev with_estate : PropertyAsset → Bool → Estate → List AuditEntry → Store → Store
with_estate p was_due e audit s =
    let key = key_for p.guild_id p.owner_id in
    record s {
      players = insert key e.wallet s.players;
      chaos_players = if was_due then insert key e.player s.chaos_players else s.chaos_players;
      audit = audit;
    }

-- One property in turn. What is worked off stands before it.
unfoldable pub property_turn :
    ℤ
    → PropertyAsset
    → List PropertyAsset
    → List PropertyAsset
    → Store
    → (Bool × List PropertyAsset) × Store
property_turn now p before behind s =
    let t = entered p s in
    let economy = at new_guild_economy p.guild_id s.guilds in
    let start : Estate = record {
      property = p;
      wallet = player_at s p.guild_id p.owner_id;
      player = at new_chaos_player (key_for p.guild_id p.owner_id) s.chaos_players;
      changed = false;
      foreclosed = false;
    } in
    let (rented_out, audit) = collect_rent now economy t.display_symbol start t.audit in
    let e = work_estate now economy rented_out in
    let was_due = not (payments_due now rented_out.property == 0) in
    let u = with_estate p was_due e audit t in
    if e.foreclosed then ((true, before), foreclose now e.property before behind u) else (
      (e.changed, before ++ e.property ∷ []),
      record u { properties = before ++ e.property ∷ behind },
    )

unfoldable pub properties_from : ℤ → List PropertyAsset → List PropertyAsset → Store → Ticked
properties_from now before [] s = (false, s)
properties_from now before (p ∷ behind) s =
    let ((changed, done), t) = property_turn now p before behind s in
    let (more, after) = properties_from now done behind t in (changed || more, after)

unfoldable pub tick_properties : ℤ → Store → Ticked
tick_properties now s = properties_from now [] s.properties s
