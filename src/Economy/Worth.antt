-- ===== src/Economy/Worth.antt =====
-- What a player is worth: business_tangible_value, active_partner_share, property_market_value,
-- property_equity, recalculate_property_level, portfolio_value and advanced_asset_value of
-- lib/local_economy_extension.cpp.
use routine_linux_edition.Base.{
  ℕ, zero, suc, ◌+◌, ◌*◌, Bool, true, false, not, ◌&&◌, List, [], ◌∷◌, Option, none, some, leb, ltb,
  ◌==◌, if◌then◌else◌, get_or, any,
}
use routine_linux_edition.Base.Int.{ℤ, pos, ◌+ℤ◌, ◌-ℤ◌, ◌*ℤ◌, ◌/ℤ◌, max_ℤ, clamp}
use routine_linux_edition.Base.Bytes.{Bytes, bytes_eq}
use routine_linux_edition.Base.Dict.{Dict, lookup, insert, at}
use routine_linux_edition.Economy.Status.{stock_count}
use routine_linux_edition.Economy.State.{
  Store, ChaosPlayer, new_chaos_player, AdvancedPlayer, GuildEconomy, PropertyAsset,
  BusinessProfile, BusinessPartnership,
}
use routine_linux_edition.Economy.Accounts.{key_for, max_ℕ, min_ℕ, has_managed_property}
pub mod Property
pub mod Leaderboard
mod Tests

abbrev pub industry_material_cost : List ℤ
industry_material_cost = pos 0 ∷ pos 1_800 ∷ pos 4_200 ∷ pos 6_500 ∷ pos 3_000 ∷ pos 2_200 ∷ []

abbrev pub industry_sale_price : List ℤ
industry_sale_price = pos 0 ∷ pos 4_800 ∷ pos 11_000 ∷ pos 18_000 ∷ pos 7_600 ∷ pos 6_000 ∷ []

abbrev pub property_base_values : List ℤ
property_base_values = pos 0 ∷ pos 750_000 ∷ pos 2_500_000 ∷ pos 10_000_000 ∷ []

-- The tangible value of a business.
pub business_worth : BusinessProfile → ℤ
business_worth business =
    let industry = min_ℕ business.industry 5 in
    pos (business.equipment_level * 150_000)
    +ℤ pos business.raw_materials *ℤ get_or (pos 0) industry_material_cost industry
    +ℤ pos business.finished_goods *ℤ get_or (pos 0) industry_sale_price industry
    -ℤ business.debt_cents

worth_or_zero : Option BusinessProfile → ℤ
worth_or_zero none = pos 0
worth_or_zero (some business) = business_worth business

pub business_tangible_value : Store → Bytes → Bytes → ℤ
business_tangible_value s guild_id user_id =
    worth_or_zero (lookup (key_for guild_id user_id) s.business_profiles)

-- The first accepted partnership: its share, and the partner.
pub share_from : Bytes → Bytes → List BusinessPartnership → ℕ × Option Bytes
share_from guild_id owner_id [] = (0, none)
share_from guild_id owner_id (p ∷ partnerships) =
    let rest = share_from guild_id owner_id partnerships in
    if bytes_eq p.guild_id guild_id && (bytes_eq p.owner_id owner_id && p.accepted)
    then (p.share_basis_points, some p.partner_id)
    else rest

pub active_partner_share : Store → Bytes → Bytes → ℕ × Option Bytes
active_partner_share s guild_id owner_id = share_from guild_id owner_id s.partnerships

pub macro_index : GuildEconomy → ℤ
macro_index guild =
    clamp
      (pos 8_500
        +ℤ guild.confidence *ℤ pos 25
        +ℤ guild.inflation_bp /ℤ 4
        -ℤ guild.unemployment_bp /ℤ 8)
      (pos 6_500) (pos 14_000)

pub property_market_value : GuildEconomy → ℕ → ℕ → ℤ
property_market_value guild tier condition =
    let condition_index = pos (7_000 + min_ℕ condition 100 * 30) in
    get_or (pos 0) property_base_values (min_ℕ tier 3)
    *ℤ macro_index guild
    /ℤ 10_000
    *ℤ condition_index
    /ℤ 10_000

abbrev pub owned_by : Bytes → Bytes → PropertyAsset → Bool
owned_by guild_id user_id p = bytes_eq p.guild_id guild_id && bytes_eq p.owner_id user_id

pub equity_from : Bytes → Bytes → List PropertyAsset → ℤ
equity_from guild_id user_id [] = pos 0
equity_from guild_id user_id (p ∷ properties) =
    let rest = equity_from guild_id user_id properties in
    if owned_by guild_id user_id p
    then max_ℤ (pos 0) (p.market_value_cents -ℤ p.mortgage_cents) +ℤ rest
    else rest

base_or_zero : Option ChaosPlayer → ℤ
base_or_zero none = pos 0
base_or_zero (some chaos) = get_or (pos 0) property_base_values (min_ℕ chaos.property_level 3)

pub property_equity : Store → Bytes → Bytes → ℤ
property_equity s guild_id user_id =
    if has_managed_property s guild_id user_id
    then equity_from guild_id user_id s.properties
    else base_or_zero (lookup (key_for guild_id user_id) s.chaos_players)

pub level_from : Bytes → Bytes → List PropertyAsset → ℕ → ℕ
level_from guild_id user_id [] level = level
level_from guild_id user_id (p ∷ properties) level =
    level_from guild_id user_id properties
      (if owned_by guild_id user_id p then max_ℕ level p.tier else level)

unfoldable pub recalculate_property_level : Store → Bytes → Bytes → Store
recalculate_property_level s guild_id user_id =
    let key = key_for guild_id user_id in
    let chaos = at new_chaos_player key s.chaos_players in
    record s {
      chaos_players =
          insert key (record chaos { property_level = level_from guild_id user_id s.properties 0 })
            s.chaos_players;
    }

-- The value of the shares of the first n stocks.
pub shares_value : List ℕ → List ℤ → ℕ → ℤ
shares_value shares prices zero = pos 0
shares_value shares prices (suc n) =
    shares_value shares prices n +ℤ pos (get_or 0 shares n) *ℤ get_or (pos 0) prices n

pub portfolio_value : ChaosPlayer → GuildEconomy → ℤ
portfolio_value player guild =
    player.bonds_cents
    +ℤ player.business_cash_cents
    +ℤ shares_value player.shares guild.prices stock_count

pub advanced_asset_value : AdvancedPlayer → GuildEconomy → ℤ
advanced_asset_value player guild =
    player.cd_cents
    +ℤ player.retirement_cents
    +ℤ player.index_fund_cents
    +ℤ player.commodities_cents
    +ℤ player.casino_reserve_cents
    -ℤ shares_value player.short_shares guild.prices stock_count
    -ℤ player.margin_debt_cents
