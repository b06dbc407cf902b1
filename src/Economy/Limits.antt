-- ===== src/Economy/Limits.antt =====
-- state_invariants_hold and save_locked of lib/local_economy_extension.cpp.
use routine_linux_edition.Base.{
  ℕ, Bool, true, false, not, ◌&&◌, List, [], ◌∷◌, leb, ltb, ◌==◌, if◌then◌else◌, length, all,
}
use routine_linux_edition.Base.Int.{ℤ, pos, ◌/ℤ◌, leb_ℤ, ltb_ℤ}
use routine_linux_edition.Base.Bytes.{Bytes}
use routine_linux_edition.Economy.Status.{maximum_transaction, stock_count}
use routine_linux_edition.Economy.State.{
  Store, Player, ChaosPlayer, AdvancedPlayer, LimitOrder, GuildDynamics,
}
pub mod Orders

abbrev pub maximum_players : ℕ
maximum_players = 100_000

abbrev pub maximum_open_records : ℕ
maximum_open_records = 100_000

-- a is not negative.
abbrev nonneg : ℤ → Bool
nonneg a = leb_ℤ (pos 0) a

abbrev within : ℤ → ℤ → ℤ → Bool
within lo a hi = leb_ℤ lo a && leb_ℤ a hi

unfoldable pub sizes_hold : Store → Bool
sizes_hold s =
    leb (length s.players) maximum_players
    && (leb (length s.orders) maximum_open_records
        && (leb (length s.contracts) maximum_open_records
            && (leb (length s.auctions) maximum_open_records
                && (leb (length s.agreements) maximum_open_records
                    && (leb (length s.properties) maximum_open_records
                        && (leb (length s.collectible_assets) 1_000_000
                            && (leb (length s.player_history) 100_000
                                && (leb (length s.global_players) maximum_players
                                    && leb (length s.news) 1_000))))))))

unfoldable pub player_holds : Bytes × Player → Bool
player_holds (_, p) =
    within (pos 0) p.wallet_cents maximum_transaction
    && within (pos 0) p.checking_cents maximum_transaction

unfoldable pub chaos_holds : Bytes × ChaosPlayer → Bool
chaos_holds (_, p) =
    nonneg p.savings_cents
    && (nonneg p.hysa_cents
        && (nonneg p.debt_cents
            && (nonneg p.bonds_cents
                && (nonneg p.business_cash_cents && within (pos 300) p.credit_score (pos 850)))))

unfoldable pub advanced_holds : Bytes × AdvancedPlayer → Bool
advanced_holds (_, p) =
    nonneg p.cd_cents
    && (nonneg p.retirement_cents
        && (nonneg p.index_fund_cents
            && (nonneg p.commodities_cents
                && (nonneg p.margin_debt_cents && nonneg p.casino_reserve_cents))))

-- The quantity is not zero where the division is read.
unfoldable pub order_holds : LimitOrder → Bool
order_holds o =
    not (o.quantity == 0)
    && (ltb o.stock stock_count
        && (ltb_ℤ (pos 0) o.limit_price_cents
            && leb_ℤ o.limit_price_cents (maximum_transaction /ℤ o.quantity)))

unfoldable pub dynamics_holds : Bytes × GuildDynamics → Bool
dynamics_holds (_, d) =
    within (pos 0) d.policy_rate_bp (pos 5_000)
    && (within (pos 1_000) d.currency_index (pos 50_000)
        && within (pos 0) d.tariff_basis_points (pos 2_500))

unfoldable pub state_invariants_hold : Store → Bool
state_invariants_hold s =
    sizes_hold s
    && (all player_holds s.players
        && (all chaos_holds s.chaos_players
            && (all advanced_holds s.advanced_players
                && (all order_holds s.orders && all dynamics_holds s.dynamics))))

-- `written` is whether the files could be written and renamed: what the file system answers.
unfoldable pub save_locked : Store → Bool → Bool
save_locked s written = state_invariants_hold s && written
