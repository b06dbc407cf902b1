-- ===== src/Economy/Tick/Tests.antt =====
-- A tick over small stores.
use routine_linux_edition.Base.{
  ◌≡◌, refl, ◌⊎◌, true, false, List, [], ◌∷◌, some, All, arith, all, length, ◌≤◌,
}
use routine_linux_edition.Base.Int.{ltb_ℤ, pos, ◌+ℤ◌, ◌-ℤ◌, ◌/ℤ◌, ◌≤ℤ◌, max_ℤ}
use routine_linux_edition.Base.Bytes.{Bytes, bytes, bytes_eq}
use routine_linux_edition.Base.Dict.{Dict, lookup, insert}
use routine_linux_edition.Economy.State.{
  Store, empty_store, Player, new_player, new_chaos_player, ChaosPlayer, new_financial_lifecycle,
  new_scheduled_agreement, ScheduledAgreement, new_government_state, ElectionCandidate,
  AuctionListing, new_auction_listing, PropertyAsset, new_property_asset, new_business_profile,
}
use routine_linux_edition.Economy.Accounts.{key_for}
use routine_linux_edition.Economy.Limits.{player_holds, chaos_holds}
use routine_linux_edition.Economy.Ledger.Liquid.{liquid}
use routine_linux_edition.Economy.Tick.{Subject}
use routine_linux_edition.Economy.Tick.Sound.{PlayersHold, IsSound, chaos_holds-IsSound}
use routine_linux_edition.Economy.Tick.Money.{money}
use routine_linux_edition.Economy.Tick.Debt.{Debtor, autopay_all, autopay_loop}
use routine_linux_edition.Economy.Tick.Debt.Solvent
use routine_linux_edition.Economy.Tick.Debt.Solvent.{autopay_loop_net}
use routine_linux_edition.Economy.Tick.Debt.Kept.{autopay_all-PlayersHold}
use routine_linux_edition.Economy.Tick.Agreement.{run_agreements}
use routine_linux_edition.Economy.Tick.Agreement.Paid.{HasParties, run_agreements_pay}
use routine_linux_edition.Economy.Tick.Election.{
  tally, nobody, elect_all, elect, closed, is_running, other_candidates, other_votes,
}
use routine_linux_edition.Economy.Tick.Election.Winner.{tally_elects, IsBeatenIn, IsRun}
use routine_linux_edition.Economy.Tick.Election.Held.{elect_all_holds}
use routine_linux_edition.Economy.Tick.Auction.{settle_auction, find_property}
use routine_linux_edition.Economy.Tick.Auction.Settled.{mortgage, treasury, settle_auction_pays}
use routine_linux_edition.Economy.Tick.Auction.Conveyed.{settle_auction_conveys}
use routine_linux_edition.Economy.Tick.Property.{Estate, mortgage_loop}
use routine_linux_edition.Economy.Tick.Property.Mortgage
use routine_linux_edition.Economy.Tick.Property.Mortgage.{mortgage_loop_keeps}
use routine_linux_edition.Economy.Tick.Company.{Company, loan_loop}
use routine_linux_edition.Economy.Tick.Company.Loan.{IsRunning, owed, loan_loop_keeps}
use routine_linux_edition.Economy.Tick.Whole.{maximum_audit, Chance, economy_tick_all}
use routine_linux_edition.Economy.Tick.Whole.Closed.{economy_tick_all_leaves}

abbrev guild : Bytes
guild = bytes "1"

abbrev key : Bytes
key = key_for guild (bytes "2")

abbrev poor : Player
poor = record new_player { wallet_cents = pos 100 }

abbrev debtor : ChaosPlayer
debtor = record new_chaos_player { debt_cents = pos 10_000; savings_cents = pos 2_000 }

abbrev in_debt : Store
in_debt = record empty_store {
  players = (key, poor) ∷ [];
  chaos_players = (key, debtor) ∷ [];
  lifecycle = (key, record new_financial_lifecycle { next_payment_unix = pos 1_000 }) ∷ [];
}

in_debt-PlayersHold : PlayersHold in_debt
unfolding player_holds chaos_holds
in_debt-PlayersHold = record { wallets = refl; sound = refl }

autopay_all-PlayersHold_example :
    PlayersHold (autopay_all (pos 300_000) in_debt.lifecycle in_debt).1
autopay_all-PlayersHold_example =
    autopay_all-PlayersHold (pos 300_000) in_debt.lifecycle in_debt in_debt-PlayersHold

abbrev about : Subject
about = record { guild_id = guild; user_id = bytes "2"; now = pos 300_000 }

abbrev owing : Debtor
owing = record {
  lifecycle = record new_financial_lifecycle { next_payment_unix = pos 1_000 };
  player = debtor;
  wallet = poor;
  audit = [];
  changed = false;
}

autopay_loop_net_example : Solvent.net (autopay_loop (bytes "$") about 4 owing) ≤ℤ Solvent.net owing
autopay_loop_net_example = autopay_loop_net (bytes "$") about 4 owing

abbrev lease : ScheduledAgreement
lease = record new_scheduled_agreement {
  id = 1;
  guild_id = guild;
  issuer_id = bytes "2";
  counterparty_id = bytes "3";
  type = 1;
  payment_cents = pos 500;
  remaining_payments = 2;
  next_payment_unix = pos 1_000;
  accepted = true;
  active = true;
}

abbrev let_out : Store
let_out = record empty_store {
  players = (key, new_player) ∷ (key_for guild (bytes "3"), new_player) ∷ [];
  agreements = lease ∷ [];
}

let_out-HasParties : All (HasParties let_out) let_out.agreements
unfolding lookup bytes_eq key_for
let_out-HasParties = (((new_player, refl), (new_player, refl)), tt)

run_agreements_pay_example : money (run_agreements (pos 200_000) let_out).1 ≡ money let_out
run_agreements_pay_example = run_agreements_pay (pos 200_000) let_out let_out-HasParties

abbrev candidates : List ElectionCandidate
candidates =
    record { guild_id = guild; user_id = bytes "3"; platform = 1 }
    ∷ record { guild_id = guild; user_id = bytes "2"; platform = 2 }
    ∷ []

abbrev votes : Dict Bytes
votes = (key, bytes "2") ∷ (key_for guild (bytes "4"), bytes "3") ∷ []

tally_elects_example :
    All (IsBeatenIn guild votes (tally guild votes candidates nobody)) candidates
    × ((tally guild votes candidates nobody ≡ nobody)
        ⊎ IsRun guild votes (tally guild votes candidates nobody) candidates)
tally_elects_example = tally_elects guild votes candidates (refl, (refl, tt))

abbrev voting : Store
voting = record empty_store {
  governments = (guild, record new_government_state { election_end_unix = pos 1_000 }) ∷ [];
}

voted :
    lookup guild (elect_all (pos 2_000) voting.governments voting).1.governments
    ≡ some new_government_state
unfolding elect_all elect closed tally insert lookup bytes_eq other_candidates other_votes
voted = refl

elect_all_holds_example : is_running (pos 2_000) new_government_state ≡ true
elect_all_holds_example = elect_all_holds (pos 2_000) voting guild new_government_state voted

abbrev listing : AuctionListing
listing = record new_auction_listing {
  id = 1;
  guild_id = guild;
  seller_id = bytes "2";
  asset_type = 1;
  asset_id = 7;
  highest_bid_cents = pos 100_000;
  highest_bidder_id = bytes "3";
  end_unix = pos 1_000;
}

abbrev house : PropertyAsset
house = record new_property_asset {
  id = 7;
  guild_id = guild;
  owner_id = bytes "2";
  tier = 1;
  purchase_price_cents = pos 750_000;
  mortgage_cents = pos 30_000;
  next_payment_unix = pos 1_000;
  listed = true;
}

abbrev selling : Store
selling = record empty_store { players = (key, new_player) ∷ []; properties = house ∷ [] }

seller_found : lookup key selling.players ≡ some new_player
unfolding lookup bytes_eq key_for
seller_found = refl

abbrev after_sale : Store
after_sale = settle_auction listing (pos 2_000) selling

settle_auction_pays_example :
    (liquid after_sale.players +ℤ treasury guild after_sale -ℤ mortgage listing after_sale
      ≡ liquid selling.players +ℤ treasury guild selling -ℤ mortgage listing selling +ℤ pos 100_000)
    × (treasury guild after_sale ≡ treasury guild selling +ℤ max_ℤ (pos 1) (pos 100_000 /ℤ 50))
    × (mortgage listing selling -ℤ mortgage listing after_sale
        ≤ℤ pos 100_000 -ℤ max_ℤ (pos 1) (pos 100_000 /ℤ 50))
settle_auction_pays_example =
    settle_auction_pays listing (pos 2_000) selling refl (omega arith) (new_player, seller_found)

house_found : find_property guild 7 selling.properties ≡ some house
unfolding find_property bytes_eq
house_found = refl

settle_auction_conveys_example :
    find_property guild 7 after_sale.properties
    ≡ some (record house {
      mortgage_cents =
          max_ℤ
            (pos 0)
            (house.mortgage_cents -ℤ (pos 100_000 -ℤ max_ℤ (pos 1) (pos 100_000 /ℤ 50)));
      next_payment_unix = pos 0;
      missed_payments = 0;
      owner_id = bytes "3";
      listed = false;
    })
settle_auction_conveys_example =
    settle_auction_conveys listing (pos 2_000) selling house refl refl (omega arith) house_found

new_chaos_player-IsSound : IsSound new_chaos_player
unfolding chaos_holds
new_chaos_player-IsSound = chaos_holds-IsSound [] new_chaos_player refl

abbrev mortgaged : Estate
mortgaged = record {
  property = house;
  wallet = poor;
  player = new_chaos_player;
  changed = false;
  foreclosed = false;
}

mortgaged-IsKept : Mortgage.IsKept mortgaged
mortgaged-IsKept = record {
  funded = omega arith;
  sound = new_chaos_player-IsSound;
  mortgage = omega arith;
  seized = refl;
}

mortgage_loop_keeps_example :
    Mortgage.IsKept (mortgage_loop 3 mortgaged)
    × (Mortgage.net (mortgage_loop 3 mortgaged) ≤ℤ Mortgage.net mortgaged)
mortgage_loop_keeps_example = mortgage_loop_keeps 3 mortgaged mortgaged-IsKept

abbrev company : Company
company = record {
  business = record new_business_profile { debt_cents = pos 5_000; next_payment_unix = pos 1_000 };
  owner = new_chaos_player;
  audit = [];
  changed = false;
  liquidated = false;
}

company-IsRunning : IsRunning company
company-IsRunning = record { sound = new_chaos_player-IsSound; loan = omega arith }

loan_loop_keeps_example :
    IsRunning (loan_loop (bytes "$") about 3 company)
    × (owed company ≤ℤ owed (loan_loop (bytes "$") about 3 company))
loan_loop_keeps_example = loan_loop_keeps (bytes "$") about 3 company company-IsRunning

abbrev no_chance : Chance
no_chance = record {
  hash = λ s. 0;
  luck = λ guild_id step stock. record {
    npc_volume = 0;
    revenue = pos 0;
    expenses = pos 0;
    sentiment = pos 0;
    volatility = pos 0;
    crash = pos 0;
    jump = pos 0;
    jump_size = pos 0;
  };
  drift = λ guild_id step. pos 0;
  bank_noise = λ guild_id step bank. pos 0;
  summary = λ amount. [];
}

abbrev at_auction : Store
at_auction = record selling {
  auctions = listing ∷ record listing { id = 2; end_unix = pos 9_000 } ∷ [];
}

economy_tick_all_leaves_example :
    let t = (economy_tick_all no_chance (pos 2_000) at_auction true).1 in
    (all (λ (a : AuctionListing). ltb_ℤ (pos 2_000) a.end_unix) t.auctions ≡ true)
    × (length t.audit ≤ maximum_audit)
economy_tick_all_leaves_example =
    economy_tick_all_leaves no_chance (pos 2_000) at_auction true (omega arith)
