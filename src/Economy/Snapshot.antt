-- ===== src/Economy/Snapshot.antt =====
-- calculate_snapshot of lib/local_economy_extension.cpp: the state of a server's economy in numbers.
-- The source takes a share of debts in long double; here the quotient is exact.
use routine_linux_edition.Base.{
  ℕ, zero, suc, ◌+◌, ◌-◌, ◌*◌, ◌/◌, ◌%◌, Bool, true, false, ◌&&◌, List, [], ◌∷◌, ◌++◌, Option, none,
  some, ltb, ◌==◌, if◌then◌else◌, get_or, length, drop,
}
use routine_linux_edition.Base.Int.{
  ℤ, pos, pos_part, ◌+ℤ◌, ◌-ℤ◌, ◌*ℤ◌, ◌/ℤ◌, leb_ℤ, ltb_ℤ, min_ℤ, clamp,
}
use routine_linux_edition.Base.Bytes.{Bytes, bytes_eq, starts_with}
use routine_linux_edition.Base.Dict.{Dict, lookup, at}
use routine_linux_edition.Economy.Status.{u32_mod, u64_mod}
use routine_linux_edition.Economy.State.{
  Store, Player, ChaosPlayer, AdvancedPlayer, FinancialLifecycle, BusinessProfile, PropertyAsset,
  GuildEconomy, GuildBankNetwork, new_guild_economy, EconomySnapshot, new_economy_snapshot,
}
use routine_linux_edition.Economy.Accounts.{prefix_of, min_ℕ}
use routine_linux_edition.Economy.Worth.{
  owned_by, portfolio_value, advanced_asset_value, property_equity, business_tangible_value,
}
pub mod History
mod Tests

-- What is counted so far.
pub record Census : Type 0 where
  pub snapshot : EconomySnapshot
  pub net_worths : List ℤ
  pub defaults : ℕ

-- The player whose turn it is.
pub record Citizen : Type 0 where
  pub key : Bytes
  pub guild_id : Bytes
  pub user_id : Bytes

pub sum_u32 : ℕ → List ℕ → ℕ
sum_u32 n [] = n
sum_u32 n (q ∷ items) = sum_u32 ((n + q) % u32_mod) items

-- The mortgages of an owner.
pub mortgages_of : Bytes → Bytes → List PropertyAsset → ℤ
mortgages_of guild_id user_id [] = pos 0
mortgages_of guild_id user_id (p ∷ properties) =
    let rest = mortgages_of guild_id user_id properties in
    if owned_by guild_id user_id p then p.mortgage_cents +ℤ rest else rest

pub business_debt : Option BusinessProfile → ℤ
business_debt none = pos 0
business_debt (some b) = b.debt_cents

goods_of : Option BusinessProfile → ℕ
goods_of none = 0
goods_of (some b) = (b.raw_materials + b.finished_goods) % u32_mod

-- What the chaos record adds to the counts, and to the player's net worth.
pub chaos_counted :
    Store → GuildEconomy → Citizen → Option ChaosPlayer → ℤ × EconomySnapshot → ℤ × EconomySnapshot
chaos_counted s guild who none (net, n) = (net, n)
chaos_counted s guild who (some p) (net, n) =
    let invested = portfolio_value p guild in
    let equity = property_equity s who.guild_id who.user_id in
    let tangible = business_tangible_value s who.guild_id who.user_id in
    let profile = lookup who.key s.business_profiles in
    (
      net +ℤ (p.savings_cents +ℤ p.hysa_cents +ℤ invested +ℤ equity -ℤ p.debt_cents) +ℤ tangible,
      record n {
        money_supply_cents =
            n.money_supply_cents +ℤ (p.savings_cents +ℤ p.hysa_cents +ℤ p.business_cash_cents);
        total_debt_cents =
            n.total_debt_cents
            +ℤ p.debt_cents
            +ℤ mortgages_of who.guild_id who.user_id s.properties
            +ℤ business_debt profile;
        business_value_cents = n.business_value_cents +ℤ p.business_cash_cents +ℤ tangible;
        item_supply = (n.item_supply + goods_of profile) % u32_mod;
        investment_value_cents =
            n.investment_value_cents +ℤ (invested -ℤ p.business_cash_cents +ℤ equity);
        employed_players =
            if p.job_tier == 0 then n.employed_players else (n.employed_players + 1) % u32_mod;
      },
    )

pub advanced_counted :
    GuildEconomy → Option AdvancedPlayer → ℤ × EconomySnapshot → ℤ × EconomySnapshot
advanced_counted guild none (net, n) = (net, n)
advanced_counted guild (some p) (net, n) =
    let value = advanced_asset_value p guild in
    (
      net +ℤ value,
      record n {
        money_supply_cents =
            n.money_supply_cents
            +ℤ (p.cd_cents +ℤ p.retirement_cents +ℤ p.index_fund_cents +ℤ p.commodities_cents
                +ℤ p.casino_reserve_cents);
        total_debt_cents = n.total_debt_cents +ℤ p.margin_debt_cents;
        business_value_cents = n.business_value_cents +ℤ p.casino_reserve_cents;
        investment_value_cents = n.investment_value_cents +ℤ value;
        item_supply = (n.item_supply + p.collectibles) % u32_mod;
      },
    )

pub wallet_counted : Player → EconomySnapshot → ℤ × EconomySnapshot
wallet_counted wallet n = (
  wallet.wallet_cents +ℤ wallet.checking_cents,
  record n {
    active_players = (n.active_players + 1) % u32_mod;
    money_supply_cents = n.money_supply_cents +ℤ (wallet.wallet_cents +ℤ wallet.checking_cents);
    item_supply = sum_u32 n.item_supply wallet.items;
  },
)

defaults_of : Option FinancialLifecycle → ℕ
defaults_of none = 0
defaults_of (some l) = l.defaults

-- One player of the server.
pub counted : Store → GuildEconomy → Citizen → Player → Census → Census
counted s guild who wallet c =
    let (net, n) = advanced_counted guild (lookup who.key s.advanced_players) (
      chaos_counted s guild who (lookup who.key s.chaos_players)
        (wallet_counted wallet c.snapshot)) in
    record {
      snapshot = n;
      net_worths = c.net_worths ++ net ∷ [];
      defaults = (c.defaults + defaults_of (lookup who.key s.lifecycle)) % u64_mod;
    }

abbrev pub citizen : Bytes → Bytes → Citizen
citizen guild_id key = record {
  key = key;
  guild_id = guild_id;
  user_id = drop (length (prefix_of guild_id)) key;
}

pub census : Store → GuildEconomy → Bytes → Dict Player → Census → Census
census s guild guild_id [] c = c
census s guild guild_id ((key, wallet) ∷ players) c = census s guild guild_id players (
    if starts_with (prefix_of guild_id) key
    then counted s guild (citizen guild_id key) wallet c
    else c)

pub sum_ℤ : List ℤ → ℤ
sum_ℤ [] = pos 0
sum_ℤ (a ∷ rest_of) = a +ℤ sum_ℤ rest_of

-- std::sort
pub place : ℤ → List ℤ → List ℤ
place a [] = a ∷ []
place a (b ∷ bs) = let rest = place a bs in if ltb_ℤ a b then a ∷ b ∷ bs else b ∷ rest

pub sorted : List ℤ → List ℤ
sorted [] = []
sorted (a ∷ rest_of) = place a (sorted rest_of)

pub median : List ℤ → ℤ
median values =
    let ranked = sorted values in
    let middle = length values / 2 in
    if length values % 2 == 0
    then (get_or (pos 0) ranked (middle - 1) +ℤ get_or (pos 0) ranked middle) /ℤ 2
    else get_or (pos 0) ranked middle

pub averaged : List ℤ → EconomySnapshot → EconomySnapshot
averaged values n = if length values == 0 then n else record n {
  average_net_worth_cents = sum_ℤ values /ℤ length values;
  median_net_worth_cents = median values;
}

pub debt_pressure : EconomySnapshot → ℤ
debt_pressure n =
    if ltb_ℤ (pos 0) n.money_supply_cents
    then min_ℤ (pos 60) (n.total_debt_cents *ℤ pos 50 /ℤ pos_part n.money_supply_cents)
    else if ltb_ℤ (pos 0) n.total_debt_cents
    then pos 60
    else pos 0

with_banks : Option GuildBankNetwork → ℤ → ℤ
with_banks none stability = stability
with_banks (some network) stability = min_ℤ stability (sum_ℤ network.stability /ℤ 6)

pub stability_of : Option GuildBankNetwork → EconomySnapshot → ℕ → ℤ
stability_of network n defaults = with_banks network (
    clamp (pos 100 -ℤ debt_pressure n -ℤ pos (min_ℕ 30 (defaults * 3 % u64_mod))) (pos 0) (pos 100))

pub calculate_snapshot : Store → Bytes → ℤ → EconomySnapshot
calculate_snapshot s guild_id now =
    let guild = at new_guild_economy guild_id s.guilds in
    let c = census s guild guild_id s.players (record {
      snapshot = record new_economy_snapshot {
        guild_id = guild_id;
        timestamp = now;
        stock_prices = guild.prices;
      };
      net_worths = [];
      defaults = 0;
    }) in
    let n = averaged c.net_worths c.snapshot in
    record n { bank_stability = stability_of (lookup guild_id s.bank_networks) n c.defaults }
