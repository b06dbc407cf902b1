-- ===== src/Economy/Tick/Whole/Auctions.antt =====
-- The list of auctions through the later loops of economy_tick_all_impl: agreements, companies, debts, snapshots.
use routine_linux_edition.Base.{
  zero, suc, ◌≡◌, refl, ◌∙◌, true, false, ◌&&◌, List, [], ◌∷◌, Option, none, some, ◌==◌, ltb,
  if_keeps, arith, ℕ,
}
use routine_linux_edition.Base.Int.{ℤ, min_ℤ, pos}
use routine_linux_edition.Base.Bytes.{Bytes}
use routine_linux_edition.Base.Dict.{Dict, lookup}
use routine_linux_edition.Economy.State.{
  Store, ScheduledAgreement, BusinessProfile, FinancialLifecycle, ChaosPlayer, Player, GuildEconomy,
}
use routine_linux_edition.Economy.Accounts.{separator, ensure_player}
use routine_linux_edition.Economy.Tick.{periods_due, credited, debited, Ticked}
use routine_linux_edition.Economy.Money.{cut_at}
use routine_linux_edition.Economy.Tick.Company.{company_turn, company_split, companies}
use routine_linux_edition.Economy.Tick.Debt.{
  is_owing, autopay_due, autopay_split, autopay_found, autopay_entry, autopay_all,
}
use routine_linux_edition.Economy.Snapshot.History.{record_snapshot}
use routine_linux_edition.Economy.Snapshot.History.Kept.{record_snapshot-auctions}
use routine_linux_edition.Economy.Tick.Whole.{snapshots_from}
use routine_linux_edition.Economy.Tick.Agreement.{
  pay_wages, pay_rent, pay_agreement, broken, served, Term, agreement_day, agreement_loop,
  run_agreement, agreements_from, is_waiting,
}

pay_wages-auctions : (a : ScheduledAgreement) (s : Store) → (pay_wages a s).1.auctions ≡ s.auctions
unfolding pay_wages credited ensure_player
pay_wages-auctions a s = ground arith

pay_rent-auctions : (a : ScheduledAgreement) (s : Store) → (pay_rent a s).1.auctions ≡ s.auctions
unfolding pay_rent credited debited ensure_player
pay_rent-auctions a s = ground arith

pay_agreement-auctions :
    (a : ScheduledAgreement) (s : Store) → (pay_agreement a s).1.auctions ≡ s.auctions
unfolding pay_agreement
pay_agreement-auctions a s =
    if_keeps (λ (t : Ticked). t.1.auctions ≡ s.auctions) (a.type == 0) (pay_wages a s)
      (pay_rent a s) (pay_wages-auctions a s) (pay_rent-auctions a s)

agreement_day-auctions :
    (now : ℤ) (a : ScheduledAgreement) (t : Ticked)
    → (agreement_day now a t).store.auctions ≡ t.1.auctions
unfolding agreement_day broken served
agreement_day-auctions now a (true, s) = ground arith
agreement_day-auctions now a (false, s) = refl

agreement_loop-auctions :
    (now : ℤ) (periods : ℕ) (t : Term)
    → (agreement_loop now periods t).store.auctions ≡ t.store.auctions
unfolding agreement_loop
agreement_loop-auctions now zero t = refl
agreement_loop-auctions now (suc periods) t =
    if_keeps (λ (u : Term). u.store.auctions ≡ t.store.auctions)
      (t.agreement.active && ltb 0 t.agreement.remaining_payments)
      (agreement_loop now periods
        (agreement_day now t.agreement (pay_agreement t.agreement t.store)))
      t
      (agreement_loop-auctions now periods _
        ∙ (agreement_day-auctions now t.agreement _ ∙ pay_agreement-auctions t.agreement t.store))
      refl

run_agreement-auctions :
    (now : ℤ) (a : ScheduledAgreement) (s : Store)
    → (run_agreement now a s).store.auctions ≡ s.auctions
unfolding run_agreement
run_agreement-auctions now a s =
    if_keeps (λ (t : Term). t.store.auctions ≡ s.auctions) (is_waiting now a)
      (record { agreement = a; store = s; changed = false })
      (agreement_loop now
        (periods_due (min_ℤ (pos a.remaining_payments) (pos 30)) a.next_payment_unix now)
        (record { agreement = a; store = s; changed = false }))
      refl (agreement_loop-auctions now _ _)

pub agreements_from-auctions :
    (now : ℤ) (agreements : List ScheduledAgreement) (s : Store)
    → (agreements_from now agreements s).2.auctions ≡ s.auctions
unfolding agreements_from
agreements_from-auctions now [] s = refl
agreements_from-auctions now (a ∷ agreements) s =
    agreements_from-auctions now agreements (run_agreement now a s).store
    ∙ run_agreement-auctions now a s

company_split-auctions :
    (now : ℤ) (key : Bytes) (ids : Bytes × Option Bytes) (b : BusinessProfile) (s : Store)
    → (company_split now key ids b s).1.auctions ≡ s.auctions
unfolding company_split company_turn
company_split-auctions now key (guild_id, none) b s = refl
company_split-auctions now key (guild_id, some owner_id) b s = ground arith

pub companies-auctions :
    (now : ℤ) (profiles : Dict BusinessProfile) (s : Store)
    → (companies now profiles s).1.auctions ≡ s.auctions
unfolding companies
companies-auctions now [] s = refl
companies-auctions now ((key, b) ∷ profiles) s =
    companies-auctions now profiles (company_split now key (cut_at separator key) b s).1
    ∙ company_split-auctions now key (cut_at separator key) b s

autopay_split-auctions :
    (now : ℤ) (key : Bytes) (ids : Bytes × Option Bytes) (l : FinancialLifecycle)
    (player : ChaosPlayer) (wallet : Player) (s : Store)
    → (autopay_split now key ids l player wallet s).1.auctions ≡ s.auctions
unfolding autopay_split autopay_due
autopay_split-auctions now key (guild_id, none) l player wallet s = refl
autopay_split-auctions now key (guild_id, some user_id) l player wallet s = refl

autopay_found-auctions :
    (now : ℤ) (key : Bytes) (l : FinancialLifecycle) (player : Option ChaosPlayer)
    (wallet : Option Player) (s : Store)
    → (autopay_found now key l player wallet s).1.auctions ≡ s.auctions
unfolding autopay_found
autopay_found-auctions now key l none wallet s = refl
autopay_found-auctions now key l (some player) none s = refl
autopay_found-auctions now key l (some player) (some wallet) s =
    if_keeps (λ (t : Ticked). t.1.auctions ≡ s.auctions) (is_owing now l player)
      (autopay_split now key (cut_at separator key) l player wallet s) (false, s)
      (autopay_split-auctions now key (cut_at separator key) l player wallet s) refl

pub autopay_all-auctions :
    (now : ℤ) (lifecycle : Dict FinancialLifecycle) (s : Store)
    → (autopay_all now lifecycle s).1.auctions ≡ s.auctions
unfolding autopay_all autopay_entry
autopay_all-auctions now [] s = refl
autopay_all-auctions now ((key, l) ∷ lifecycle) s =
    autopay_all-auctions now lifecycle (autopay_entry now key l s).1
    ∙ autopay_found-auctions now key l (lookup key s.chaos_players) (lookup key s.players) s

pub snapshots_from-auctions :
    (now : ℤ) (guilds : Dict GuildEconomy) (s : Store)
    → (snapshots_from now guilds s).1.auctions ≡ s.auctions
unfolding snapshots_from
snapshots_from-auctions now [] s = refl
snapshots_from-auctions now ((guild_id, guild) ∷ guilds) s =
    snapshots_from-auctions now guilds (record_snapshot guild_id now s).1
    ∙ record_snapshot-auctions guild_id now s
