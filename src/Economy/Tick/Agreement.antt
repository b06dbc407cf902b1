-- ===== src/Economy/Tick/Agreement.antt =====
-- Scheduled agreements in economy_tick_all_impl of lib/local_economy_extension.cpp: wages of an employment
-- and rents, paid once a day until the term is over or a payment cannot be made.
use routine_linux_edition.Base.{
  ℕ, zero, suc, ◌+◌, ◌-◌, Bool, true, false, not, ◌&&◌, ◌||◌, List, [], ◌∷◌, ◌++◌, ltb, ◌==◌,
  if◌then◌else◌,
}
use routine_linux_edition.Base.Int.{ℤ, pos, pos_part, ◌+ℤ◌, ◌-ℤ◌, ◌/ℤ◌, leb_ℤ, ltb_ℤ, min_ℤ, max_ℤ}
use routine_linux_edition.Base.Bytes.{Bytes, bytes}
use routine_linux_edition.Base.Decimal.{show_ℕ}
use routine_linux_edition.Base.Dict.{Dict, insert, ensure, at}
use routine_linux_edition.Economy.State.{
  Store, new_chaos_player, new_business_profile, ScheduledAgreement,
}
use routine_linux_edition.Economy.Accounts.{key_for, player_at, ensure_player}
use routine_linux_edition.Economy.Tick.{
  Ticked, periods_due, score_down, Subject, entry, credited, debited, day,
}
pub mod Paid

-- Whether the payment was made, and the store behind it.
unfoldable pub pay_wages : ScheduledAgreement → Store → Ticked
pay_wages a s =
    let key = key_for a.guild_id a.issuer_id in
    let employer = at new_chaos_player key s.chaos_players in
    let profile = at new_business_profile key s.business_profiles in
    if not (employer.business_level == 0) && leb_ℤ a.payment_cents employer.business_cash_cents
    then (
      true,
      credited a.guild_id a.counterparty_id a.payment_cents (record s {
        chaos_players =
            insert key
              (record employer {
                business_cash_cents = employer.business_cash_cents -ℤ a.payment_cents;
              })
              s.chaos_players;
      }),
    )
    else (
      false,
      record s {
        chaos_players = ensure new_chaos_player key s.chaos_players;
        business_profiles =
            insert key
              (record profile { reputation = max_ℤ (pos 0) (profile.reputation -ℤ pos 10) })
              s.business_profiles;
      },
    )

unfoldable pub pay_rent : ScheduledAgreement → Store → Ticked
pay_rent a s =
    let key = key_for a.guild_id a.counterparty_id in
    let tenant = player_at s a.guild_id a.counterparty_id in
    let entered = ensure_player s a.guild_id a.counterparty_id in
    let debtor = at new_chaos_player key s.chaos_players in
    if leb_ℤ a.payment_cents tenant.wallet_cents
    then (
      true,
      credited a.guild_id a.issuer_id a.payment_cents
          (debited a.guild_id a.counterparty_id a.payment_cents s),
    )
    else (
      false,
      record entered {
        chaos_players =
            insert key (record debtor { credit_score = score_down (pos 15) debtor.credit_score })
              entered.chaos_players;
      },
    )

unfoldable pub pay_agreement : ScheduledAgreement → Store → Ticked
pay_agreement a s = if a.type == 0 then pay_wages a s else pay_rent a s

-- An agreement at work.
pub record Term : Type 0 where
  pub agreement : ScheduledAgreement
  pub store : Store
  pub changed : Bool

abbrev told : ℤ → ScheduledAgreement → Bytes → Bytes → Store → Store
told now a action ending s =
    let about : Subject = record { guild_id = a.guild_id; user_id = a.issuer_id; now = now } in
    record s {
      audit =
          s.audit
          ++ entry about action (bytes "Scheduled agreement #" ++ (show_ℕ a.id ++ ending)) ∷ [];
    }

-- A payment that was not made ends the agreement.
unfoldable pub broken : ℤ → ScheduledAgreement → Store → Term
broken now a s = record {
  agreement = record a { active = false };
  store = told now a (bytes "agreement-default") (bytes " defaulted for nonpayment.") s;
  changed = true;
}

-- The last payment does too.
unfoldable pub served : ℤ → ScheduledAgreement → Store → Term
served now a s =
    let later = record a {
      remaining_payments = a.remaining_payments - 1;
      next_payment_unix = a.next_payment_unix +ℤ pos day;
    } in
    if later.remaining_payments == 0
    then record {
      agreement = record later { active = false };
      store = told now a (bytes "agreement-complete") (bytes " completed all payments.") s;
      changed = true;
    }
    else record { agreement = later; store = s; changed = true }

unfoldable pub agreement_day : ℤ → ScheduledAgreement → Ticked → Term
agreement_day now a (true, s) = served now a s
agreement_day now a (false, s) = broken now a s

-- while (periods-- > 0 && agreement.active && agreement.remaining_payments > 0)
unfoldable pub agreement_loop : ℤ → ℕ → Term → Term
agreement_loop now zero t = t
agreement_loop now (suc periods) t =
    let rest =
      agreement_loop now periods
        (agreement_day now t.agreement (pay_agreement t.agreement t.store)) in
    if t.agreement.active && ltb 0 t.agreement.remaining_payments then rest else t

abbrev pub is_waiting : ℤ → ScheduledAgreement → Bool
is_waiting now a =
    not a.active
    || (not a.accepted || (leb_ℤ a.next_payment_unix (pos 0) || ltb_ℤ now a.next_payment_unix))

unfoldable pub run_agreement : ℤ → ScheduledAgreement → Store → Term
run_agreement now a s =
    let start : Term = record { agreement = a; store = s; changed = false } in
    let most = min_ℤ (pos a.remaining_payments) (pos 30) in
    if is_waiting now a
    then start
    else agreement_loop now (periods_due most a.next_payment_unix now) start

unfoldable pub agreements_from :
    ℤ → List ScheduledAgreement → Store → List ScheduledAgreement × Bool × Store
agreements_from now [] s = ([], false, s)
agreements_from now (a ∷ agreements) s =
    let first = run_agreement now a s in
    let (rest, changed, after) = agreements_from now agreements first.store in
    (first.agreement ∷ rest, first.changed || changed, after)

unfoldable pub run_agreements : ℤ → Store → Ticked
run_agreements now s =
    let (agreements, changed, after) = agreements_from now s.agreements s in
    (changed, record after { agreements = agreements })
