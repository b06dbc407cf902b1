-- ===== src/Economy/Tick/Whole/Closed.antt =====
-- The auctions through the whole of economy_tick_all_impl of lib/local_economy_extension.cpp.
use routine_linux_edition.Base.{
  length, ◌≤◌, ◌≡◌, refl, ◌∙◌, Bool, true, false, not, ◌||◌, List, [], ◌∷◌, if_keeps, Bool-cases,
  inl, inr, arith, all,
}
use routine_linux_edition.Base.Int.{ℤ, pos, ltb_ℤ, leb_ℤ, ◌≤ℤ◌}
use routine_linux_edition.Base.Dict.{at}
use routine_linux_edition.Economy.State.{
  Store, AuctionListing, PropertyAsset, new_guild_economy, new_chaos_player,
}
use routine_linux_edition.Economy.Accounts.{key_for, player_at, ensure_player}
use routine_linux_edition.Economy.Worth.{recalculate_property_level}
use routine_linux_edition.Economy.Tick.Whole.Bounded.{ticked-audit}
use routine_linux_edition.Economy.Status.{ok, storage_error}
use routine_linux_edition.Economy.Limits.{save_locked}
use routine_linux_edition.Economy.Ledger.{Outcome}
use routine_linux_edition.Economy.Tick.Election.{elect_all}
use routine_linux_edition.Economy.Tick.Heat.{cool_all}
use routine_linux_edition.Economy.Tick.Auction.{close_all}
use routine_linux_edition.Economy.Tick.Auction.Conveyed.{close_auctions_ends}
use routine_linux_edition.Economy.Tick.Property.{
  Estate, work_estate, collect_rent, is_listing_of, cancel_auctions, foreclose, property_turn,
  properties_from, tick_properties,
}
use routine_linux_edition.Economy.Tick.Company.{companies}
use routine_linux_edition.Economy.Tick.Whole.{
  trimmed_audit, maximum_audit, Chance, loops, guilds_from, ticked, economy_tick_all,
}
use routine_linux_edition.Economy.Tick.Agreement.{run_agreements}
use routine_linux_edition.Economy.Tick.Whole.Auctions.{
  agreements_from-auctions, companies-auctions, autopay_all-auctions, snapshots_from-auctions,
}

-- Every auction of the store ends later.
abbrev pub IsClosed : ℤ → Store → Type 0
IsClosed now s = all (λ (a : AuctionListing). ltb_ℤ now a.end_unix) s.auctions ≡ true

close_all-IsClosed : (now : ℤ) (s : Store) → IsClosed now (close_all now s).1
unfolding close_all
close_all-IsClosed now s = close_auctions_ends now s.auctions s

cancel_auctions-all :
    (test : AuctionListing → Bool) (p : PropertyAsset) (auctions : List AuctionListing) (s : Store)
    → all test auctions ≡ true
    → all test (cancel_auctions p auctions s).0 ≡ true
unfolding cancel_auctions
cancel_auctions-all test p [] s h = refl
cancel_auctions-all test p (a ∷ auctions) s h =
    let rest =
      λ (t : Store) (k : all test auctions ≡ true). cancel_auctions-all test p auctions t k in
    elim (Bool-cases (is_listing_of p a)) [
      | inl here ↦ rw here (rest _ (ground arith))
      | inr other ↦ rw other (ground (arith, rest s))
    ]

foreclose-IsClosed :
    (now : ℤ) (p : PropertyAsset) (before behind : List PropertyAsset) (s : Store)
    → IsClosed now s
    → IsClosed now (foreclose now p before behind s)
unfolding foreclose recalculate_property_level
foreclose-IsClosed now p before behind s h = cancel_auctions-all _ p s.auctions s h

property_turn-IsClosed :
    (now : ℤ) (p : PropertyAsset) (before behind : List PropertyAsset) (s : Store)
    → IsClosed now s
    → IsClosed now (property_turn now p before behind s).1
unfolding property_turn ensure_player
property_turn-IsClosed now p before behind s h =
    let t = ensure_player s p.guild_id p.owner_id in
    let economy = at new_guild_economy p.guild_id s.guilds in
    let start : Estate = record {
      property = p;
      wallet = player_at s p.guild_id p.owner_id;
      player = at new_chaos_player (key_for p.guild_id p.owner_id) s.chaos_players;
      changed = false;
      foreclosed = false;
    } in
    let e = work_estate now economy (collect_rent now economy t.display_symbol start t.audit).0 in
    if_keeps (λ (u : (Bool × List PropertyAsset) × Store). IsClosed now u.1) e.foreclosed _ _
      (foreclose-IsClosed now e.property before behind _ h) h

properties_from-IsClosed :
    (now : ℤ) (before behind : List PropertyAsset) (s : Store)
    → IsClosed now s
    → IsClosed now (properties_from now before behind s).1
unfolding properties_from
properties_from-IsClosed now before [] s h = h
properties_from-IsClosed now before (p ∷ behind) s h =
    let turn = property_turn now p before behind s in
    properties_from-IsClosed now turn.0.1 behind turn.1
      (property_turn-IsClosed now p before behind s h)

-- The loops from the one over the auctions on.
loops-IsClosed : (chance : Chance) (now : ℤ) (s : Store) → IsClosed now (loops chance now s).1
unfolding loops tick_properties run_agreements
loops-IsClosed chance now s =
    let markets = (guilds_from chance now s.guilds s).1 in
    let elected = (elect_all now markets.governments markets).1 in
    let cooled = (cool_all now elected).1 in
    let settled = (close_all now cooled).1 in
    let worked = (tick_properties now settled).1 in
    let paid = (run_agreements now worked).1 in
    let traded = (companies now paid.business_profiles paid).1 in
    let same =
      autopay_all-auctions now traded.lifecycle traded
      ∙ (companies-auctions now paid.business_profiles paid
          ∙ agreements_from-auctions now worked.agreements worked) in
    rw same
      (properties_from-IsClosed now [] settled.properties settled (close_all-IsClosed now cooled))

ticked-IsClosed : (chance : Chance) (now : ℤ) (s : Store) → IsClosed now (ticked chance now s).1
unfolding ticked
ticked-IsClosed chance now s =
    let looped = (loops chance now s).1 in
    let t = record looped { audit = trimmed_audit looped.audit } in
    rw (snapshots_from-auctions now t.guilds t) (loops-IsClosed chance now s)

-- A tick at a time above zero leaves only auctions that end later, whatever its other loops do, and
-- at most 2000 audit entries, whether or not what it did could be saved.
pub economy_tick_all_leaves :
    (chance : Chance) (now : ℤ) (s : Store) (written : Bool)
    → pos 1 ≤ℤ now
    → let t = (economy_tick_all chance now s written).1 in
      (all (λ (a : AuctionListing). ltb_ℤ now a.end_unix) t.auctions ≡ true)
      × (length t.audit ≤ maximum_audit)
unfolding economy_tick_all
economy_tick_all_leaves chance now s written h =
    let late : leb_ℤ now (pos 0) ≡ false = ground arith in
    let t = ticked chance now s in
    let closed = ticked-IsClosed chance now s in
    let short = ticked-audit chance now s in
    rw late (
      if_keeps (λ (o : Outcome). IsClosed now o.1 × (length o.1.audit ≤ maximum_audit))
        (not t.0 || save_locked t.1 written) (ok, t.1) (storage_error, t.1) (closed, short)
        (closed, short))
