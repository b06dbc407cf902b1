-- ===== src/Economy/Tick/Auction.antt =====
-- Auctions that end: find_property and settle_auction of lib/local_economy_extension.cpp, and the loop
-- over the auctions in economy_tick_all_impl.
use routine_linux_edition.Base.{
  ℕ, ◌+◌, ◌%◌, Bool, true, false, not, ◌&&◌, ◌||◌, List, [], ◌∷◌, ◌++◌, Option, none, some, ◌==◌,
  if◌then◌else◌,
}
use routine_linux_edition.Base.Int.{ℤ, pos, ◌+ℤ◌, ◌-ℤ◌, ◌/ℤ◌, ltb_ℤ, min_ℤ, max_ℤ}
use routine_linux_edition.Base.Bytes.{Bytes, bytes, bytes_eq, is_empty}
use routine_linux_edition.Base.Decimal.{show_ℕ}
use routine_linux_edition.Base.Dict.{insert, at}
use routine_linux_edition.Economy.Status.{u32_mod}
use routine_linux_edition.Economy.State.{
  Store, AuctionListing, PropertyAsset, CollectibleAsset, new_advanced_player, new_government_state,
  new_crime_player,
}
use routine_linux_edition.Economy.Accounts.{key_for}
use routine_linux_edition.Economy.Money.{cash}
use routine_linux_edition.Economy.Worth.{recalculate_property_level}
use routine_linux_edition.Economy.Tick.{Ticked, Subject, entry, credited, next_u32}
pub mod Settled
pub mod Conveyed

abbrev pub is_property : Bytes → ℕ → PropertyAsset → Bool
is_property guild_id id p = bytes_eq p.guild_id guild_id && p.id == id

unfoldable pub find_property : Bytes → ℕ → List PropertyAsset → Option PropertyAsset
find_property guild_id id [] = none
find_property guild_id id (p ∷ properties) =
    let rest = find_property guild_id id properties in
    if is_property guild_id id p then some p else rest

-- What is written through the pointer of find_property: the first that fits is replaced.
pub put_property : Bytes → ℕ → PropertyAsset → List PropertyAsset → List PropertyAsset
put_property guild_id id q [] = []
put_property guild_id id q (p ∷ properties) =
    let rest = put_property guild_id id q properties in
    if is_property guild_id id p then q ∷ properties else p ∷ rest

abbrev pub is_lot : AuctionListing → CollectibleAsset → Bool
is_lot a c = bytes_eq c.guild_id a.guild_id && c.auction_id == a.id

-- The collectibles of an auction, changed.
pub map_lots :
    AuctionListing
    → (CollectibleAsset → CollectibleAsset)
    → List CollectibleAsset
    → List CollectibleAsset
map_lots a f [] = []
map_lots a f (c ∷ assets) =
    let rest = map_lots a f assets in if is_lot a c then f c ∷ rest else c ∷ rest

-- collectibles += quantity
pub handed_over : Bytes → AuctionListing → Store → Store
handed_over user_id a s =
    let key = key_for a.guild_id user_id in
    let player = at new_advanced_player key s.advanced_players in
    record s {
      advanced_players =
          insert key (record player { collectibles = (player.collectibles + a.quantity) % u32_mod })
            s.advanced_players;
    }

abbrev pub unlisted : CollectibleAsset → CollectibleAsset
unlisted c = record c { auction_id = 0 }

abbrev pub sold_to : Bytes → ℤ → CollectibleAsset → CollectibleAsset
sold_to user_id now c = record c {
  previous_owner_id = c.owner_id;
  owner_id = user_id;
  acquired_unix = now;
  auction_id = 0;
  transfers = next_u32 c.transfers;
}

listing_taken : AuctionListing → Option PropertyAsset → Store → Store
listing_taken a none s = s
listing_taken a (some p) s = record s {
  properties = put_property a.guild_id a.asset_id (record p { listed = false }) s.properties;
}

abbrev told : Bytes → ℤ → AuctionListing → Bytes → Bytes → Store → Store
told user_id now a opening ending s =
    let about : Subject = record { guild_id = a.guild_id; user_id = user_id; now = now } in
    record s {
      audit = s.audit ++ entry about (bytes "auction") (opening ++ (show_ℕ a.id ++ ending)) ∷ [];
    }

-- Nobody bid: the goods go back.
pub returned : AuctionListing → ℤ → Store → Store
returned a now s = told a.seller_id now a (bytes "Listing #") (bytes " expired without a buyer.") (
    if a.asset_type == 0
    then (let t = handed_over a.seller_id a s in
        record t { collectible_assets = map_lots a unlisted t.collectible_assets })
    else listing_taken a (find_property a.guild_id a.asset_id s.properties) s)

abbrev pub fee_of : AuctionListing → ℤ
fee_of a = max_ℤ (pos 1) (a.highest_bid_cents /ℤ 50)

-- What of the price pays the mortgage of the property that is sold.
pub payoff_of : AuctionListing → Option PropertyAsset → ℤ
payoff_of a none = pos 0
payoff_of a (some p) = min_ℤ p.mortgage_cents (max_ℤ (pos 0) (a.highest_bid_cents -ℤ fee_of a))

abbrev pub paid_down : ℤ → PropertyAsset → PropertyAsset
paid_down payoff p = record p {
  mortgage_cents = p.mortgage_cents -ℤ payoff;
  next_payment_unix = pos 0;
  missed_payments = 0;
}

-- The property that the pointer `sold_property` names.
pub sold_property : AuctionListing → Store → Option PropertyAsset
sold_property a s =
    if a.asset_type == 1 then find_property a.guild_id a.asset_id s.properties else none

mortgage_settled : AuctionListing → Option PropertyAsset → Store → Store
mortgage_settled a none s = s
mortgage_settled a (some p) s = record s {
  properties = put_property a.guild_id a.asset_id (paid_down (payoff_of a (some p)) p) s.properties;
}

-- The seller's money, the fee and the tax record.
pub settled : AuctionListing → ℤ → Store → Store
settled a payoff s =
    let fee = fee_of a in
    let t = credited a.guild_id a.seller_id (a.highest_bid_cents -ℤ fee -ℤ payoff) s in
    let government = at new_government_state a.guild_id t.governments in
    let key = key_for a.guild_id a.seller_id in
    let crime = at new_crime_player key t.crime_players in
    record t {
      governments =
          insert a.guild_id
            (record government { treasury_cents = government.treasury_cents +ℤ fee }) t.governments;
      crime_players =
          insert key (record crime { taxes_paid_cents = crime.taxes_paid_cents +ℤ fee })
            t.crime_players;
    }

conveyed : AuctionListing → Option PropertyAsset → Store → Store
conveyed a none s = s
conveyed a (some p) s =
    let q = record (paid_down (payoff_of a (some p)) p) {
      owner_id = a.highest_bidder_id;
      listed = false;
    } in
    let t = record s { properties = put_property a.guild_id a.asset_id q s.properties } in
    recalculate_property_level (recalculate_property_level t a.guild_id p.owner_id) a.guild_id
      a.highest_bidder_id

-- The goods change hands.
pub delivered : AuctionListing → ℤ → Option PropertyAsset → Store → Store
delivered a now sold s =
    if a.asset_type == 0
    then (let t = handed_over a.highest_bidder_id a s in
        record t {
          collectible_assets = map_lots a (sold_to a.highest_bidder_id now) t.collectible_assets;
        })
    else conveyed a sold s

pub sold : AuctionListing → ℤ → Store → Store
sold a now s =
    let property = sold_property a s in
    let done =
      delivered a now property (settled a (payoff_of a property) (mortgage_settled a property s)) in
    let symbol = s.display_symbol in
    let price = cash symbol a.highest_bid_cents in
    told a.highest_bidder_id now a (bytes "Won listing #") (bytes " for " ++ (price ++ bytes ".")) (
      told a.seller_id now a (bytes "Listing #")
        (bytes " sold for "
          ++ (price ++ (bytes " after a " ++ (cash symbol (fee_of a) ++ bytes " market fee."))))
        done)

pub settle_auction : AuctionListing → ℤ → Store → Store
settle_auction a now s = if is_empty a.highest_bidder_id then returned a now s else sold a now s

-- The auctions that are left, whether one was settled, and the store. The settling of an auction
-- does not read the others.
unfoldable pub close_auctions : ℤ → List AuctionListing → Store → List AuctionListing × Bool × Store
close_auctions now [] s = ([], false, s)
close_auctions now (a ∷ auctions) s =
    let running = ltb_ℤ now a.end_unix in
    let (rest, changed, after) =
      close_auctions now auctions (if running then s else settle_auction a now s) in
    (if running then a ∷ rest else rest, not running || changed, after)

unfoldable pub close_all : ℤ → Store → Ticked
close_all now s =
    let (auctions, changed, after) = close_auctions now s.auctions s in
    (changed, record after { auctions = auctions })
