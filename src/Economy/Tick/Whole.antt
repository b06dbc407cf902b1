-- ===== src/Economy/Tick/Whole.antt =====
-- economy_tick_all_impl of lib/local_economy_extension.cpp as a whole: every loop in its order, and the
-- save at the end. Chance is what the generator draws, by server.
use routine_linux_edition.Base.{
  ℕ, zero, suc, ◌-◌, Bool, true, false, not, ◌&&◌, ◌||◌, List, [], ◌∷◌, ltb, if◌then◌else◌, length,
  drop,
}
use routine_linux_edition.Base.Int.{ℤ, pos, ◌-ℤ◌, leb_ℤ}
use routine_linux_edition.Base.Bytes.{Bytes}
use routine_linux_edition.Base.Dict.{Dict, insert, at}
use routine_linux_edition.Economy.Status.{Status, ok, invalid_argument, storage_error}
use routine_linux_edition.Economy.State.{
  Store, GuildEconomy, new_guild_economy, new_guild_exchange, new_guild_bank_network, AuditEntry,
}
use routine_linux_edition.Economy.Limits.{save_locked}
use routine_linux_edition.Economy.Ledger.{Outcome}
use routine_linux_edition.Economy.Market.Share.{Luck}
use routine_linux_edition.Economy.Market.Hour.{update_market}
use routine_linux_edition.Economy.Orders.{Floor, process_orders}
use routine_linux_edition.Economy.Banks.{Vault, update_bank_network}
use routine_linux_edition.Economy.Snapshot.History.{record_snapshot}
use routine_linux_edition.Economy.Tick.{Ticked}
use routine_linux_edition.Economy.Tick.Election.{elect_all}
use routine_linux_edition.Economy.Tick.Heat.{cool_all}
use routine_linux_edition.Economy.Tick.Auction.{close_all}
use routine_linux_edition.Economy.Tick.Property.{tick_properties}
use routine_linux_edition.Economy.Tick.Agreement.{run_agreements}
use routine_linux_edition.Economy.Tick.Company.{companies}
use routine_linux_edition.Economy.Tick.Debt.{autopay_all}
pub mod Bounded
pub mod Auctions
pub mod Closed

pub record Chance : Type 0 where
  pub hash : Bytes → ℕ
  pub luck : Bytes → ℕ → ℕ → Luck
  pub drift : Bytes → ℕ → ℤ
  pub bank_noise : Bytes → ℕ → ℕ → ℤ
  pub summary : ℤ → Bytes

pub market_turn : Chance → ℤ → Bytes → GuildEconomy → Store → Ticked
market_turn chance now guild_id guild s =
    if leb_ℤ guild.last_market_unix (pos 0) || leb_ℤ (pos 3_600) (now -ℤ guild.last_market_unix)
    then (
      true,
      update_market chance.hash (chance.luck guild_id) (chance.drift guild_id) guild_id guild now s,
    )
    else (false, s)

pub orders_turn : ℤ → Bytes → Store → Ticked
orders_turn now guild_id s =
    let (f, orders) =
      process_orders guild_id now
        (record {
          players = s.players;
          chaos_players = s.chaos_players;
          guild = at new_guild_economy guild_id s.guilds;
          exchange = at new_guild_exchange guild_id s.exchanges;
          changed = false;
        })
        s.orders in
    (
      f.changed,
      record s {
        players = f.players;
        chaos_players = f.chaos_players;
        guilds = insert guild_id f.guild s.guilds;
        exchanges = insert guild_id f.exchange s.exchanges;
        orders = orders;
      },
    )

pub banks_turn : Chance → ℤ → Bytes → Store → Ticked
banks_turn chance now guild_id s =
    let (changed, v) =
      update_bank_network chance.summary (chance.bank_noise guild_id) guild_id
        (at new_guild_economy guild_id s.guilds) s.lifecycle now
        (record {
          network = at new_guild_bank_network guild_id s.bank_networks;
          chaos_players = s.chaos_players;
          audit = s.audit;
        }) in
    (
      changed,
      record s {
        bank_networks = insert guild_id v.network s.bank_networks;
        chaos_players = v.chaos_players;
        audit = v.audit;
      },
    )

-- Two steps, one after the other.
infixl 30 ◌andthen◌
abbrev pub ◌andthen◌ : Ticked → (Store → Ticked) → Ticked
first andthen step = let second = step first.1 in (first.0 || second.0, second.1)

-- The servers in turn: each works with its economy as it is then.
unfoldable pub guilds_from : Chance → ℤ → Dict GuildEconomy → Store → Ticked
guilds_from chance now [] s = (false, s)
guilds_from chance now ((guild_id, guild) ∷ guilds) s =
    let first =
      market_turn chance now guild_id (at guild guild_id s.guilds) s
      andthen orders_turn now guild_id
      andthen banks_turn chance now guild_id in
    let rest = guilds_from chance now guilds first.1 in (first.0 || rest.0, rest.1)

abbrev pub maximum_audit : ℕ
maximum_audit = 2_000

-- The last entries of the audit.
pub trimmed_audit : List AuditEntry → List AuditEntry
trimmed_audit audit =
    if ltb maximum_audit (length audit) then drop (length audit - maximum_audit) audit else audit

unfoldable pub snapshots_from : ℤ → Dict GuildEconomy → Store → Ticked
snapshots_from now [] s = (false, s)
snapshots_from now ((guild_id, guild) ∷ guilds) s =
    let first = record_snapshot guild_id now s in
    let rest = snapshots_from now guilds first.1 in (first.0 || rest.0, rest.1)

-- The loops of a tick up to the trimming of the audit.
unfoldable pub loops : Chance → ℤ → Store → Ticked
loops chance now s =
    guilds_from chance now s.guilds s
    andthen (λ t. elect_all now t.governments t)
    andthen cool_all now
    andthen close_all now
    andthen tick_properties now
    andthen run_agreements now
    andthen (λ t. companies now t.business_profiles t)
    andthen (λ t. autopay_all now t.lifecycle t)

unfoldable pub ticked : Chance → ℤ → Store → Ticked
ticked chance now s =
    loops chance now s
    andthen (λ t. (false, record t { audit = trimmed_audit t.audit }))
    andthen (λ t. snapshots_from now t.guilds t)

-- Nothing is undone where the save fails.
unfoldable pub economy_tick_all : Chance → ℤ → Store → Bool → Outcome
economy_tick_all chance now s written =
    let (changed, t) = ticked chance now s in
    if leb_ℤ now (pos 0)
    then (invalid_argument, s)
    else if not changed || save_locked t written
    then (ok, t)
    else (storage_error, t)
