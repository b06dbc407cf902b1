-- ===== src/Economy/Tick/Auction/Settled.antt =====
-- Where the money and the goods of an auction go.
use routine_linux_edition.Base.{
  Bool-cases, Option-cases, inl, inr, ◌≡◌, refl, ap, ◌∙◌, false, ◌==◌, Option, none, some, if_keeps,
  arith,
}
use routine_linux_edition.Base.Int.{
  ℤ, pos, ◌+ℤ◌, ◌-ℤ◌, ◌/ℤ◌, ◌≤ℤ◌, max_ℤ, min_ℤ_bounds, max_ℤ_below, int_laws, ends, eq_of_parts,
}
use routine_linux_edition.Base.Bytes.{Bytes, is_empty}
use routine_linux_edition.Base.Dict.{at, at-insert_self}
use routine_linux_edition.Economy.State.{
  Store, AuctionListing, PropertyAsset, GovernmentState, new_government_state,
}
use routine_linux_edition.Economy.Ledger.Liquid.{liquid}
use routine_linux_edition.Economy.Accounts.{ensure_player}
use routine_linux_edition.Economy.Worth.{recalculate_property_level}
use routine_linux_edition.Economy.Tick.{credited}
use routine_linux_edition.Economy.Tick.Money.{IsKnown, credited_pays}
use routine_linux_edition.Economy.Tick.Auction.Conveyed.{fee_bounds, find-settle_auction}
use routine_linux_edition.Economy.Tick.Auction.{
  find_property, handed_over, fee_of, payoff_of, sold_property, mortgage_settled, settled, conveyed,
  delivered, sold, settle_auction,
}

-- The treasury of a server.
abbrev pub treasury : Bytes → Store → ℤ
treasury guild_id s = (at new_government_state guild_id s.governments).treasury_cents

-- The tables of money are the same.
pub record SameMoney (s t : Store) : Type 0 where
  pub players : t.players ≡ s.players
  pub governments : t.governments ≡ s.governments

conveyed-SameMoney :
    (a : AuctionListing) (p : Option PropertyAsset) (s : Store) → SameMoney s (conveyed a p s)
unfolding conveyed
conveyed-SameMoney a none s = record { players = refl; governments = refl }
conveyed-SameMoney a (some p) s =
    unfold recalculate_property_level in record { players = refl; governments = refl }

delivered-SameMoney :
    (a : AuctionListing) (now : ℤ) (p : Option PropertyAsset) (s : Store)
    → SameMoney s (delivered a now p s)
unfolding delivered handed_over
delivered-SameMoney a now p s =
    if_keeps (SameMoney s) (a.asset_type == 0) _ _ (record { players = refl; governments = refl })
      (conveyed-SameMoney a p s)

mortgage_settled-SameMoney :
    (a : AuctionListing) (p : Option PropertyAsset) (s : Store)
    → SameMoney s (mortgage_settled a p s)
unfolding mortgage_settled
mortgage_settled-SameMoney a none s = record { players = refl; governments = refl }
mortgage_settled-SameMoney a (some p) s = record { players = refl; governments = refl }

payoff_bounds :
    (a : AuctionListing) (p : Option PropertyAsset)
    → pos 1 ≤ℤ a.highest_bid_cents
    → payoff_of a p ≤ℤ a.highest_bid_cents -ℤ fee_of a
unfolding payoff_of
payoff_bounds a none h = omega (int_laws, (fee_bounds a h).1)
payoff_bounds a (some p) h =
    let left =
      max_ℤ_below (pos 0) (a.highest_bid_cents -ℤ fee_of a) (a.highest_bid_cents -ℤ fee_of a)
        (omega (int_laws, (fee_bounds a h).1)) (omega arith) in
    omega (
      arith,
      (min_ℤ_bounds p.mortgage_cents (max_ℤ (pos 0) (a.highest_bid_cents -ℤ fee_of a))).1,
      left,
    )

treasury-settled :
    (a : AuctionListing) (payoff : ℤ) (s : Store)
    → treasury a.guild_id (settled a payoff s) ≡ treasury a.guild_id s +ℤ fee_of a
unfolding settled credited ensure_player
treasury-settled a payoff s =
    let government = at new_government_state a.guild_id s.governments in
    ap (λ (g : GovernmentState). g.treasury_cents)
      (at-insert_self new_government_state
        (record government { treasury_cents = government.treasury_cents +ℤ fee_of a }) a.guild_id
        s.governments)

liquid-settled :
    (a : AuctionListing) (payoff : ℤ) (s : Store)
    → IsKnown s a.guild_id a.seller_id
    → liquid (settled a payoff s).players
      ≡ liquid s.players +ℤ (a.highest_bid_cents -ℤ fee_of a -ℤ payoff)
unfolding settled
liquid-settled a payoff s h =
    credited_pays a.guild_id a.seller_id (a.highest_bid_cents -ℤ fee_of a -ℤ payoff) s h

settled_pays :
    (a : AuctionListing) (payoff : ℤ) (s : Store)
    → IsKnown s a.guild_id a.seller_id
    → liquid (settled a payoff s).players +ℤ treasury a.guild_id (settled a payoff s) +ℤ payoff
      ≡ liquid s.players +ℤ treasury a.guild_id s +ℤ a.highest_bid_cents
settled_pays a payoff s h =
    let paid = liquid-settled a payoff s h in
    let fee = treasury-settled a payoff s in
    eq_of_parts _ _ (omega (int_laws, ends _ _ paid, ends _ _ fee))

settle_auction_books :
    (a : AuctionListing) (now : ℤ) (s : Store)
    → is_empty a.highest_bidder_id ≡ false
    → IsKnown s a.guild_id a.seller_id
    → let t = settle_auction a now s in
      (liquid t.players +ℤ treasury a.guild_id t +ℤ payoff_of a (sold_property a s)
        ≡ liquid s.players +ℤ treasury a.guild_id s +ℤ a.highest_bid_cents)
      × (treasury a.guild_id t ≡ treasury a.guild_id s +ℤ fee_of a)
unfolding settle_auction sold
settle_auction_books a now s b known =
    let p = sold_property a s in
    let first = mortgage_settled a p s in
    let before = mortgage_settled-SameMoney a p s in
    let then_paid = settled a (payoff_of a p) first in
    let after = delivered-SameMoney a now p then_paid in
    let (q, e) = known in
    let there : IsKnown first a.guild_id a.seller_id = (q, rw before.players e) in
    rw (b, after.players, after.governments)
      (
        settled_pays a (payoff_of a p) first there ∙ rw (before.players, before.governments) refl,
        treasury-settled a (payoff_of a p) first ∙ rw before.governments refl,
      )

-- What is owed on the property that an auction names; nothing where there is none.
abbrev owed_on : Option PropertyAsset → ℤ
owed_on none = pos 0
owed_on (some p) = p.mortgage_cents

abbrev pub mortgage : AuctionListing → Store → ℤ
mortgage a s = owed_on (find_property a.guild_id a.asset_id s.properties)

properties_kept :
    (a : AuctionListing) (now : ℤ) (s : Store)
    → is_empty a.highest_bidder_id ≡ false
    → sold_property a s ≡ none
    → (settle_auction a now s).properties ≡ s.properties
unfolding settle_auction sold mortgage_settled settled credited ensure_player delivered handed_over
    conveyed payoff_of
properties_kept a now s b e =
    rw (b, e)
      (if_keeps (λ (t : Store). t.properties ≡ s.properties) (a.asset_type == 0) _ _ refl refl)

mortgage-unsold :
    (a : AuctionListing) (now : ℤ) (s : Store)
    → is_empty a.highest_bidder_id ≡ false
    → sold_property a s ≡ none
    → mortgage a (settle_auction a now s) ≡ mortgage a s -ℤ payoff_of a (sold_property a s)
unfolding payoff_of
mortgage-unsold a now s b e = rw (properties_kept a now s b e, e) (omega int_laws)

mortgage-settle_auction :
    (a : AuctionListing) (now : ℤ) (s : Store)
    → is_empty a.highest_bidder_id ≡ false
    → mortgage a (settle_auction a now s) ≡ mortgage a s -ℤ payoff_of a (sold_property a s)
unfolding sold_property
mortgage-settle_auction a now s b = elim (Bool-cases (a.asset_type == 1)) [
  | inl house ↦ elim (Option-cases (find_property a.guild_id a.asset_id s.properties)) [
    | inl gone ↦ mortgage-unsold a now s b (rw (house, gone) refl)
    | inr (p, found) ↦ rw (find-settle_auction a now s p b (ground arith) found, house, found) refl
  ]
  | inr other ↦ mortgage-unsold a now s b (rw other refl)
]

-- When an auction with a bidder is settled, the bid is at least one cent and the seller is known,
-- then what the players and the treasury of the server have, less what is owed on the property that
-- the auction names, grows by the bid; the treasury gains the fee, a fiftieth of the bid but at
-- least one cent, and the debt falls by no more than the fee leaves of the bid.
pub settle_auction_pays :
    (a : AuctionListing) (now : ℤ) (s : Store)
    → is_empty a.highest_bidder_id ≡ false
    → pos 1 ≤ℤ a.highest_bid_cents
    → IsKnown s a.guild_id a.seller_id
    → let t = settle_auction a now s in
      let fee = max_ℤ (pos 1) (a.highest_bid_cents /ℤ 50) in
      (liquid t.players +ℤ treasury a.guild_id t -ℤ mortgage a t
        ≡ liquid s.players +ℤ treasury a.guild_id s -ℤ mortgage a s +ℤ a.highest_bid_cents)
      × (treasury a.guild_id t ≡ treasury a.guild_id s +ℤ fee)
      × (mortgage a s -ℤ mortgage a t ≤ℤ a.highest_bid_cents -ℤ fee)
settle_auction_pays a now s b h known =
    let p = sold_property a s in
    let (paid, fee) = settle_auction_books a now s b known in
    let less = mortgage-settle_auction a now s b in
    (
      eq_of_parts _ _ (omega (int_laws, ends _ _ paid, ends _ _ less)),
      fee,
      omega (int_laws, payoff_bounds a p h, ends _ _ less),
    )
