-- ===== src/Economy/Tick/Auction/Conveyed.antt =====
-- Who owns a property after its auction.
use routine_linux_edition.Base.{
  ◌∙◌, ap, ℕ, ◌≡◌, refl, true, false, List, [], ◌∷◌, some, if◌then◌else◌, arith, Bool-cases, inl,
  inr, all, if_each,
}
use routine_linux_edition.Base.Int.{
  ℤ, pos, ◌-ℤ◌, ◌/ℤ◌, ◌≤ℤ◌, max_ℤ, min_ℤ, max_ℤ_bounds, max_ℤ_below, max_ℤ_left, /ℤ_parts, int_laws,
  int_tests, ltb_ℤ,
}
use routine_linux_edition.Base.Bytes.{Bytes, is_empty}
use routine_linux_edition.Economy.State.{Store, AuctionListing, PropertyAsset}
use routine_linux_edition.Economy.Accounts.{ensure_player}
use routine_linux_edition.Economy.Worth.{recalculate_property_level}
use routine_linux_edition.Economy.Tick.{credited}
use routine_linux_edition.Economy.Tick.Auction.{
  is_property, find_property, put_property, fee_of, payoff_of, paid_down, sold_property,
  mortgage_settled, settled, conveyed, delivered, sold, settle_auction, close_auctions,
}

find-put :
    (guild_id : Bytes) (id : ℕ) (p q : PropertyAsset) (properties : List PropertyAsset)
    → find_property guild_id id properties ≡ some p
    → is_property guild_id id q ≡ true
    → find_property guild_id id (put_property guild_id id q properties) ≡ some q
unfolding find_property put_property
find-put guild_id id p q [] e h = cc
find-put guild_id id p q (r ∷ properties) e h = elim (Bool-cases (is_property guild_id id r)) [
  | inl here ↦ rw (here, h) refl
  | inr other ↦ rw (other, other) (find-put guild_id id p q properties (rw other at e) h)
]

find_property_lem :
    (guild_id : Bytes) (id : ℕ) (p : PropertyAsset) (properties : List PropertyAsset)
    → find_property guild_id id properties ≡ some p
    → is_property guild_id id p ≡ true
unfolding find_property
find_property_lem guild_id id p [] e = cc
find_property_lem guild_id id p (r ∷ properties) e =
    ground (arith, find_property_lem guild_id id p properties)

pub fee_bounds :
    (a : AuctionListing)
    → pos 1 ≤ℤ a.highest_bid_cents
    → (pos 1 ≤ℤ fee_of a) × (fee_of a ≤ℤ a.highest_bid_cents)
fee_bounds a h =
    let part = /ℤ_parts a.highest_bid_cents 50 in
    (
      (max_ℤ_bounds (pos 1) (a.highest_bid_cents /ℤ 50)).0,
      max_ℤ_below (pos 1) (a.highest_bid_cents /ℤ 50) a.highest_bid_cents h
          (omega (arith, part.0, part.1)),
    )

less_min_ℤ : (m left : ℤ) → m -ℤ min_ℤ m left ≡ max_ℤ (pos 0) (m -ℤ left)
unfolding min_ℤ max_ℤ
less_min_ℤ m left = grind int_tests

-- The property behind a sale, by the amount that pays its mortgage.
pub find-settle_auction :
    (a : AuctionListing) (now : ℤ) (s : Store) (p : PropertyAsset)
    → is_empty a.highest_bidder_id ≡ false
    → a.asset_type ≡ 1
    → find_property a.guild_id a.asset_id s.properties ≡ some p
    → find_property a.guild_id a.asset_id (settle_auction a now s).properties
      ≡ some (record p {
        mortgage_cents = p.mortgage_cents -ℤ payoff_of a (some p);
        next_payment_unix = pos 0;
        missed_payments = 0;
        owner_id = a.highest_bidder_id;
        listed = false;
      })
unfolding settle_auction sold sold_property mortgage_settled settled credited ensure_player
    delivered conveyed recalculate_property_level payoff_of
find-settle_auction a now s p b kind found =
    let q = record (paid_down (payoff_of a (some p)) p) {
      owner_id = a.highest_bidder_id;
      listed = false;
    } in
    let p1 = paid_down (payoff_of a (some p)) p in
    let fits = find_property_lem a.guild_id a.asset_id p s.properties found in
    rw (b, kind, found)
      (find-put a.guild_id a.asset_id p1 q (put_property a.guild_id a.asset_id p1 s.properties)
        (find-put a.guild_id a.asset_id p p1 s.properties found fits) fits)

mortgage-paid :
    (a : AuctionListing) (p : PropertyAsset)
    → pos 1 ≤ℤ a.highest_bid_cents
    → p.mortgage_cents -ℤ payoff_of a (some p)
      ≡ max_ℤ
          (pos 0)
          (p.mortgage_cents -ℤ (a.highest_bid_cents -ℤ max_ℤ (pos 1) (a.highest_bid_cents /ℤ 50)))
unfolding payoff_of
mortgage-paid a p h =
    rw (max_ℤ_left (a.highest_bid_cents -ℤ fee_of a) (omega (int_laws, (fee_bounds a h).1)))
      (less_min_ℤ p.mortgage_cents (a.highest_bid_cents -ℤ fee_of a))

-- When an auction of a property that is there has a bidder and a bid of at least one cent, then
-- after it is settled the bidder owns the property, it is no longer listed, its mortgage is what
-- the bid less the fee (a fiftieth, at least one cent) does not cover, no payment is due or missed,
-- and the property is otherwise what it was.
pub settle_auction_conveys :
    (a : AuctionListing) (now : ℤ) (s : Store) (p : PropertyAsset)
    → is_empty a.highest_bidder_id ≡ false
    → a.asset_type ≡ 1
    → pos 1 ≤ℤ a.highest_bid_cents
    → find_property a.guild_id a.asset_id s.properties ≡ some p
    → find_property a.guild_id a.asset_id (settle_auction a now s).properties
      ≡ some (record p {
        mortgage_cents = max_ℤ (pos 0) (
            p.mortgage_cents -ℤ (a.highest_bid_cents -ℤ max_ℤ (pos 1) (a.highest_bid_cents /ℤ 50)));
        next_payment_unix = pos 0;
        missed_payments = 0;
        owner_id = a.highest_bidder_id;
        listed = false;
      })
settle_auction_conveys a now s p b kind h found =
    find-settle_auction a now s p b kind found
    ∙ ap
        (λ (m : ℤ). some (record p {
          mortgage_cents = m;
          next_payment_unix = pos 0;
          missed_payments = 0;
          owner_id = a.highest_bidder_id;
          listed = false;
        }))
        (mortgage-paid a p h)

-- No auction whose end has come is left by the loop.
pub close_auctions_ends :
    (now : ℤ) (auctions : List AuctionListing) (s : Store)
    → all (λ (a : AuctionListing). ltb_ℤ now a.end_unix) (close_auctions now auctions s).0 ≡ true
unfolding close_auctions
close_auctions_ends now [] s = refl
close_auctions_ends now (a ∷ auctions) s =
    let ih =
      close_auctions_ends now auctions
        (if ltb_ℤ now a.end_unix then s else settle_auction a now s) in
    if_each
      (λ (l : List AuctionListing). all (λ (a : AuctionListing). ltb_ℤ now a.end_unix) l ≡ true)
      (ltb_ℤ now a.end_unix) _ _ (λ running. rw running (rw running at ih)) (λ _. ih)
