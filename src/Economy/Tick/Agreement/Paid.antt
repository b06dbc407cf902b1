-- ===== src/Economy/Tick/Agreement/Paid.antt =====
-- Payments of agreements move money and make none.
use routine_linux_edition.Base.{
  ℕ, zero, suc, ◌-◌, ◌≡◌, refl, ◌∙◌, true, false, not, ◌&&◌, List, [], ◌∷◌, ltb, ◌==◌, if_keeps,
  All,
}
use routine_linux_edition.Base.Int.{ℤ, pos, ◌-ℤ◌, leb_ℤ, min_ℤ, int_laws, ends, eq_of_parts}
use routine_linux_edition.Base.Bytes.{Bytes}
use routine_linux_edition.Base.Dict.{insert, at}
use routine_linux_edition.Economy.State.{Store, ScheduledAgreement, new_chaos_player}
use routine_linux_edition.Economy.Accounts.{key_for, player_at, ensure_player}
use routine_linux_edition.Economy.Ledger.Pays.{ensure_player-known}
use routine_linux_edition.Economy.Tick.{Ticked, debited, periods_due}
use routine_linux_edition.Economy.Tick.Money.{
  money, business_cash-insert, business_cash-ensure, IsKnown, money-credited, credited-IsKnown,
  money-debited, debited-IsKnown, ensure-Has,
}
use routine_linux_edition.Economy.Tick.Agreement.{
  pay_wages, pay_rent, pay_agreement, Term, broken, served, agreement_day, agreement_loop,
  is_waiting, run_agreement, agreements_from, run_agreements,
}

-- Both sides of an agreement are players of the server.
abbrev pub HasParties : Store → ScheduledAgreement → Type 0
HasParties s a = IsKnown s a.guild_id a.issuer_id × IsKnown s a.guild_id a.counterparty_id

-- The money stays, and so does every player.
pub record Keeps (s t : Store) : Type 0 where
  pub total : money t ≡ money s
  pub known : (g u : Bytes) → IsKnown s g u → IsKnown t g u

Keeps-refl : (s : Store) → Keeps s s
Keeps-refl s = record { total = refl; known = λ g u h. h }

Keeps-trans : (s t u : Store) → Keeps s t → Keeps t u → Keeps s u
Keeps-trans s t u h k = record {
  total = k.total ∙ h.total;
  known = λ g v e. k.known g v (h.known g v e);
}

wages_paid :
    (a : ScheduledAgreement) (s : Store)
    → IsKnown s a.guild_id a.counterparty_id
    → Keeps s (pay_wages a s).1
unfolding pay_wages
wages_paid a s h =
    let key = key_for a.guild_id a.issuer_id in
    let employer = at new_chaos_player key s.chaos_players in
    let spent = record employer {
      business_cash_cents = employer.business_cash_cents -ℤ a.payment_cents;
    } in
    let t : Store = record s { chaos_players = insert key spent s.chaos_players } in
    let funds = ends _ _ (business_cash-insert key spent s.chaos_players) in
    if_keeps (λ (t : Ticked). Keeps s t.1)
      (not (employer.business_level == 0) && leb_ℤ a.payment_cents employer.business_cash_cents) _ _
      (record {
        total = eq_of_parts _ _ (
            omega (
              int_laws,
              funds,
              ends _ _ (money-credited a.guild_id a.counterparty_id a.payment_cents t h),
            ));
        known = credited-IsKnown a.guild_id a.counterparty_id a.payment_cents t;
      })
      (record { total = rw (business_cash-ensure key s.chaos_players) refl; known = λ g u e. e })

-- A tenant who is noted as late.
late_kept :
    (guild_id user_id key : Bytes) (score : ℤ) (s : Store)
    → IsKnown s guild_id user_id
    → let debtor = at new_chaos_player key s.chaos_players in
      let entered = ensure_player s guild_id user_id in
      Keeps s (record entered {
        chaos_players = insert key (record debtor { credit_score = score }) entered.chaos_players;
      })
unfolding ensure_player
late_kept guild_id user_id key score s (q, e) =
    let debtor = at new_chaos_player key s.chaos_players in
    let same = ensure_player-known s guild_id user_id q e in
    let funds = business_cash-insert key (record debtor { credit_score = score }) s.chaos_players in
    record {
      total = rw same (eq_of_parts _ _ (omega (int_laws, ends _ _ funds)));
      known = λ g u h. ensure-Has _ _ _ _ h;
    }

rent_paid : (a : ScheduledAgreement) (s : Store) → HasParties s a → Keeps s (pay_rent a s).1
unfolding pay_rent
rent_paid a s (issuer, tenant) =
    let key = key_for a.guild_id a.counterparty_id in
    let t = debited a.guild_id a.counterparty_id a.payment_cents s in
    let kept = debited-IsKnown a.guild_id a.counterparty_id a.payment_cents s in
    let left = money-debited a.guild_id a.counterparty_id a.payment_cents s tenant in
    let got = money-credited a.guild_id a.issuer_id a.payment_cents t (kept _ _ issuer) in
    if_keeps (λ (t : Ticked). Keeps s t.1)
      (leb_ℤ a.payment_cents (player_at s a.guild_id a.counterparty_id).wallet_cents) _ _
      (record {
        total = eq_of_parts _ _ (omega (int_laws, ends _ _ got, ends _ _ left));
        known = λ g u k. credited-IsKnown a.guild_id a.issuer_id a.payment_cents t g u (kept g u k);
      })
      (late_kept a.guild_id a.counterparty_id key _ s tenant)

pay_agreement-Keeps :
    (a : ScheduledAgreement) (s : Store) → HasParties s a → Keeps s (pay_agreement a s).1
unfolding pay_agreement
pay_agreement-Keeps a s h =
    if_keeps (λ (t : Ticked). Keeps s t.1) (a.type == 0) _ _ (wages_paid a s h.1) (rent_paid a s h)

-- The agreement is still between the same players.
pub record Lasts (s : Store) (a : ScheduledAgreement) (t : Term) : Type 0 where
  pub keeps : Keeps s t.store
  pub parties : HasParties t.store t.agreement

agreement_day-Lasts :
    (now : ℤ) (a : ScheduledAgreement) (s : Store) (made : Ticked)
    → HasParties s a
    → Keeps s made.1
    → Lasts s a (agreement_day now a made)
unfolding agreement_day broken served
agreement_day-Lasts now a s (false, t) (h, i) k = record {
  keeps = record { total = k.total; known = k.known };
  parties = (k.known _ _ h, k.known _ _ i);
}
agreement_day-Lasts now a s (true, t) (h, i) k =
    if_keeps (Lasts s a) (a.remaining_payments - 1 == 0) _ _
      (record {
        keeps = record { total = k.total; known = k.known };
        parties = (k.known _ _ h, k.known _ _ i);
      })
      (record { keeps = k; parties = (k.known _ _ h, k.known _ _ i) })

agreement_loop-Keeps :
    (now : ℤ) (periods : ℕ) (t : Term)
    → HasParties t.store t.agreement
    → Keeps t.store (agreement_loop now periods t).store
unfolding agreement_loop
agreement_loop-Keeps now zero t h = Keeps-refl t.store
agreement_loop-Keeps now (suc periods) t h =
    let first =
      agreement_day-Lasts now t.agreement t.store (pay_agreement t.agreement t.store) h
        (pay_agreement-Keeps t.agreement t.store h) in
    if_keeps (λ (u : Term). Keeps t.store u.store)
      (t.agreement.active && ltb 0 t.agreement.remaining_payments) _ _
      (Keeps-trans _ _ _ first.keeps (agreement_loop-Keeps now periods _ first.parties))
      (Keeps-refl t.store)

run_agreement-Keeps :
    (now : ℤ) (a : ScheduledAgreement) (s : Store)
    → HasParties s a
    → Keeps s (run_agreement now a s).store
unfolding run_agreement
run_agreement-Keeps now a s h =
    if_keeps (λ (u : Term). Keeps s u.store) (is_waiting now a) _ _ (Keeps-refl s)
      (agreement_loop-Keeps now
        (periods_due (min_ℤ (pos a.remaining_payments) (pos 30)) a.next_payment_unix now) _ h)

still-HasParties :
    (s t : Store) (agreements : List ScheduledAgreement)
    → Keeps s t
    → All (HasParties s) agreements
    → All (HasParties t) agreements
still-HasParties s t [] k h = tt
still-HasParties s t (a ∷ agreements) k ((h, i), rest) =
    ((k.known _ _ h, k.known _ _ i), still-HasParties s t agreements k rest)

agreements_from-Keeps :
    (now : ℤ) (agreements : List ScheduledAgreement) (s : Store)
    → All (HasParties s) agreements
    → Keeps s (agreements_from now agreements s).2
unfolding agreements_from
agreements_from-Keeps now [] s h = Keeps-refl s
agreements_from-Keeps now (a ∷ agreements) s (h, rest) =
    let first = run_agreement-Keeps now a s h in
    Keeps-trans _ _ _ first
      (agreements_from-Keeps now agreements _ (still-HasParties s _ agreements first rest))

-- When both sides of every agreement are players of its server, the run over the agreements leaves
-- the money of all players and their businesses together as it was.
pub run_agreements_pay :
    (now : ℤ) (s : Store)
    → All (HasParties s) s.agreements
    → money (run_agreements now s).1 ≡ money s
unfolding run_agreements
run_agreements_pay now s h = (agreements_from-Keeps now s.agreements s h).total
