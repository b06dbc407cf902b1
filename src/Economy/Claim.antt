-- ===== src/Economy/Claim.antt =====
-- claim_impl of lib/local_economy_extension.cpp: the daily reward and the wage for an hour of work.
-- `uniform n lo hi` is what std::uniform_int_distribution(lo, hi) yields at the n-th draw of the call.
use Prim.Native.Nat.{bit_or}
use routine_linux_edition.Base.{
  ℕ, ◌+◌, ◌-◌, ◌*◌, ◌%◌, Bool, true, false, not, ◌&&◌, ◌||◌, List, [], ◌∷◌, leb, ltb, ◌==◌,
  if◌then◌else◌, get_or,
}
use routine_linux_edition.Base.Int.{
  ℤ, pos, negsuc, ◌+ℤ◌, ◌-ℤ◌, ◌*ℤ◌, ◌/ℤ◌, leb_ℤ, ltb_ℤ, is_zero, max_ℤ, min_ℤ, clamp,
}
use routine_linux_edition.Base.Bytes.{Bytes}
use routine_linux_edition.Base.Dict.{Dict, lookup, insert, erase, ensure, restore, at, is_none}
use routine_linux_edition.Economy.Status.{
  Status, ok, invalid_argument, cooldown, storage_error, daily_cooldown, work_cooldown, u32_mod,
  u64_mod,
}
use routine_linux_edition.Economy.State.{
  Store, Player, new_player, ChaosPlayer, new_chaos_player, AdvancedPlayer, new_advanced_player,
  FinancialLifecycle, new_financial_lifecycle, PlayerDevelopment, new_player_development,
  GlobalPlayer, new_global_player, GuildEconomy, new_guild_economy, GuildDynamics,
  new_guild_dynamics, new_guild_settings,
}
use routine_linux_edition.Economy.Accounts.{
  min_ℕ, key_for, valid_id, player_at, ensure_player, has_managed_property, max_ℕ, Synced,
  sync_global_player,
}
use routine_linux_edition.Economy.Limits.{save_locked}
use routine_linux_edition.Economy.Ledger.{acted}
pub mod Call
pub mod Career
pub mod Repeat
pub mod Undo
mod Tests

-- The draws of the generator.
abbrev pub Draws : Type 0
Draws = ℕ → ℤ → ℤ → ℤ

-- The records of one player that a claim changes.
pub record Claimant : Type 0 where
  pub player : Player
  pub chaos : ChaosPlayer
  pub advanced : AdvancedPlayer
  pub lifecycle : FinancialLifecycle

abbrev pub hysa_basis_points : List ℤ
hysa_basis_points = pos 450 ∷ pos 350 ∷ pos 525 ∷ pos 400 ∷ pos 475 ∷ pos 300 ∷ []

abbrev pub property_income : List ℤ
property_income = pos 0 ∷ pos 1_000 ∷ pos 2_500 ∷ pos 7_500 ∷ []

-- The dividend of one stock.
abbrev dividend : ChaosPlayer → GuildEconomy → ℕ → ℕ → ℤ
dividend chaos guild i divisor =
    pos (get_or 0 chaos.shares i) *ℤ get_or (pos 0) guild.prices i /ℤ divisor

-- A day of interest, rent and dividends.
unfoldable pub daily_accrual : Draws → Bool → GuildEconomy → Claimant → Claimant
daily_accrual uniform managed guild c =
    let chaos = c.chaos in
    let advanced = c.advanced in
    let debt = chaos.debt_cents +ℤ chaos.debt_cents /ℤ 1_000 in
    let rate = get_or (pos 0) hysa_basis_points (min_ℕ c.lifecycle.bank_id 5) in
    let rent = get_or (pos 0) property_income (min_ℕ chaos.property_level 3) in
    let move = uniform 1 (negsuc 7) (pos 12) in
    record c {
      player = record c.player {
        wallet_cents =
            (if managed then c.player.wallet_cents else c.player.wallet_cents +ℤ rent)
            +ℤ (dividend chaos guild 2 1_000
                +ℤ dividend chaos guild 4 800
                +ℤ dividend chaos guild 5 1_200);
      };
      chaos = record chaos {
        savings_cents = chaos.savings_cents +ℤ chaos.savings_cents /ℤ 10_000;
        hysa_cents = chaos.hysa_cents +ℤ chaos.hysa_cents *ℤ rate /ℤ 3_650_000;
        bonds_cents = chaos.bonds_cents +ℤ chaos.bonds_cents /ℤ 5_000;
        debt_cents = debt;
        credit_score =
            if ltb_ℤ (pos 500_000) debt
            then max_ℤ (pos 300) (chaos.credit_score -ℤ pos 1)
            else chaos.credit_score;
      };
      advanced = record advanced {
        retirement_cents = advanced.retirement_cents +ℤ advanced.retirement_cents /ℤ 3_000;
        index_fund_cents = advanced.index_fund_cents +ℤ advanced.index_fund_cents /ℤ 4_000;
        commodities_cents =
            max_ℤ (pos 0)
              (advanced.commodities_cents +ℤ advanced.commodities_cents *ℤ move /ℤ 1_000);
        margin_debt_cents = advanced.margin_debt_cents +ℤ advanced.margin_debt_cents /ℤ 500;
      };
    }

abbrev pub xp_required : List ℕ
xp_required = 0 ∷ 0 ∷ 10 ∷ 30 ∷ 80 ∷ []

-- Whether the next job is given.
unfoldable pub is_promoted : ChaosPlayer → ℤ → ℕ → Bool
is_promoted chaos performance next =
    ltb chaos.job_tier next
    && (leb_ℤ (pos 75) performance
        && (leb (get_or 0 xp_required next) chaos.experience
            && ((ltb next 3 || not (chaos.degree == 0))
                && (ltb next 4 || (chaos.degree == 1 || chaos.degree == 6)))))

-- The review of a day: a lay-off, a promotion, or neither.
unfoldable pub daily_review :
    Draws → GuildEconomy → ℤ → ChaosPlayer → FinancialLifecycle → ChaosPlayer × FinancialLifecycle
daily_review uniform guild now chaos lifecycle =
    let review = uniform 1 (negsuc 7) (pos 12) +ℤ (guild.confidence -ℤ pos 50) /ℤ 8 in
    let performance = clamp (lifecycle.performance +ℤ review) (pos 0) (pos 100) in
    let reviewed = record lifecycle { performance = performance; last_review_unix = now } in
    let laid_off =
      ltb 0 chaos.job_tier
      && (ltb_ℤ performance (pos 20)
          || ltb_ℤ (uniform 2 (pos 1) (pos 10_000))
              (max_ℤ (pos 0) (guild.unemployment_bp -ℤ pos 500) /ℤ 3)) in
    let next = min_ℕ 4 ((chaos.job_tier + 1) % u32_mod) in
    if laid_off
    then (
      record chaos { job_tier = 0 },
      record reviewed { performance = pos 50; layoffs = (lifecycle.layoffs + 1) % u32_mod },
    )
    else if is_promoted chaos performance next
    then (record chaos { job_tier = next }, record reviewed { performance = pos 60 })
    else (chaos, reviewed)

-- An hour of work with its experience, the first job, and the review where a day has passed.
unfoldable pub shift_review : Draws → GuildEconomy → ℤ → Claimant → ChaosPlayer × FinancialLifecycle
shift_review uniform guild now c =
    let hired = record c.chaos {
      experience = (c.chaos.experience + 1) % u32_mod;
      job_tier = if c.chaos.job_tier == 0 then 1 else c.chaos.job_tier;
    } in
    let due =
      is_zero c.lifecycle.last_review_unix
      || leb_ℤ (pos 86_400) (now -ℤ c.lifecycle.last_review_unix) in
    if due then daily_review uniform guild now hired c.lifecycle else (hired, c.lifecycle)

-- An hour of work.
unfoldable pub work_shift : Draws → GuildEconomy → ℤ → ℤ → Claimant → Claimant
work_shift uniform guild now award c =
    let (chaos, lifecycle) = shift_review uniform guild now c in
    record {
      player = record c.player { work_count = (c.player.work_count + 1) % u64_mod };
      chaos = record chaos {
        credit_score =
            if chaos.job_tier == 0
            then chaos.credit_score
            else min_ℤ (pos 850) (chaos.credit_score +ℤ pos 1);
      };
      advanced = record c.advanced {
        retirement_cents =
            if leb 2 chaos.job_tier
            then c.advanced.retirement_cents +ℤ award *ℤ pos (chaos.job_tier * 2 % u32_mod) /ℤ 100
            else c.advanced.retirement_cents;
      };
      lifecycle = lifecycle;
    }

-- What the move from one job tier to another adds to the counters of the server.
unfoldable pub count_jobs : Bool → ℕ → ℕ → GuildDynamics → GuildDynamics
count_jobs daily before after d =
    if not daily && (before == 0 && ltb 0 after)
    then record d { hires = (d.hires + 1) % u32_mod }
    else if not daily && (ltb 0 before && after == 0)
    then record d { layoffs = (d.layoffs + 1) % u32_mod }
    else d

abbrev pub last_claim : Bool → Player → ℤ
last_claim daily p = if daily then p.last_daily_unix else p.last_work_unix

abbrev pub cooldown_of : Bool → ℤ
cooldown_of daily = if daily then daily_cooldown else work_cooldown

abbrev pub elapsed_since : ℤ → ℤ → ℤ
elapsed_since last now = max_ℤ (pos 0) (now -ℤ last)

-- The wallet is paid and the time of the claim is kept.
abbrev pub paid : Bool → ℤ → ℤ → Player → Player
paid daily award now p =
    if daily
    then record p { wallet_cents = p.wallet_cents +ℤ award; last_daily_unix = now }
    else record p { wallet_cents = p.wallet_cents +ℤ award; last_work_unix = now }

unfoldable pub award_of : Draws → Bool → ChaosPlayer → ℤ
award_of uniform daily chaos =
    uniform 0 (if daily then pos 7_500 else pos 1_500 +ℤ pos chaos.job_tier *ℤ pos 2_500)
      (if daily then pos 12_500 else pos 4_000 +ℤ pos chaos.job_tier *ℤ pos 5_500)
