-- ===== src/Economy/Tick/Debt.antt =====
-- The autopay of personal debts in economy_tick_all_impl of lib/local_economy_extension.cpp: what is due
-- is collected once a day, a miss costs a fee, and the third miss in a row costs savings.
use routine_linux_edition.Base.{
  ℕ, zero, suc, Bool, true, false, not, ◌&&◌, ◌||◌, List, [], ◌∷◌, ◌++◌, Option, none, some, leb,
  if◌then◌else◌,
}
use routine_linux_edition.Base.Int.{ℤ, pos, ◌+ℤ◌, ◌-ℤ◌, ◌/ℤ◌, leb_ℤ, ltb_ℤ, min_ℤ, max_ℤ}
use routine_linux_edition.Base.Bytes.{Bytes, bytes}
use routine_linux_edition.Base.Dict.{Dict, lookup, insert, ensure, at}
use routine_linux_edition.Economy.State.{
  Store, Player, ChaosPlayer, FinancialLifecycle, AuditEntry, new_guild_settings,
}
use routine_linux_edition.Economy.Accounts.{separator}
use routine_linux_edition.Economy.Money.{cash, cut_at}
use routine_linux_edition.Economy.Tick.{
  Ticked, periods_due, next_u32, score_up, score_down, Subject, entry, collected, charged, day,
}
pub mod Solvent
pub mod Kept

-- What one entry of g_lifecycle works on.
pub record Debtor : Type 0 where
  pub lifecycle : FinancialLifecycle
  pub player : ChaosPlayer
  pub wallet : Player
  pub audit : List AuditEntry
  pub changed : Bool

abbrev pub minimum_due : ℤ → ℤ
minimum_due debt = min_ℤ debt (max_ℤ (pos 500) (debt /ℤ 20))

abbrev pub late_fee : ℤ → ℤ
late_fee debt = max_ℤ (pos 250) (debt /ℤ 100)

abbrev pub seizure : ChaosPlayer → ℤ
seizure p = min_ℤ p.savings_cents (max_ℤ (pos 500) (p.debt_cents /ℤ 10))

abbrev noted : Subject → Bytes → Bytes → List AuditEntry → List AuditEntry
noted about action summary audit = audit ++ entry about action summary ∷ []

-- The minimum was collected.
pub paid_off : Bytes → Subject → ℤ → Debtor → Debtor
paid_off symbol about paid d = record d {
  lifecycle = record d.lifecycle { missed_payments = 0 };
  player = record d.player { credit_score = score_up (pos 2) d.player.credit_score };
  audit =
      noted about (bytes "autopay") (bytes "Scheduled debt payment collected: " ++ cash symbol paid)
        d.audit;
}

-- It was not.
pub delinquent : Bytes → Subject → Debtor → Debtor
delinquent symbol about d =
    let fee = late_fee d.player.debt_cents in
    record d {
      lifecycle = record d.lifecycle { missed_payments = next_u32 d.lifecycle.missed_payments };
      player = record d.player {
        debt_cents = d.player.debt_cents +ℤ fee;
        credit_score = score_down (pos 35) d.player.credit_score;
      };
      audit =
          noted about (bytes "delinquency")
            (bytes "Missed scheduled payment; late fee: " ++ cash symbol fee) d.audit;
    }

-- The third miss in a row.
pub defaulted : Bytes → Subject → Debtor → Debtor
defaulted symbol about d =
    let seized = seizure d.player in
    record d {
      lifecycle = record d.lifecycle {
        missed_payments = 0;
        defaults = next_u32 d.lifecycle.defaults;
      };
      player = record d.player {
        savings_cents = d.player.savings_cents -ℤ seized;
        debt_cents = d.player.debt_cents -ℤ min_ℤ d.player.debt_cents seized;
        credit_score = score_down (pos 75) d.player.credit_score;
      };
      audit =
          noted about (bytes "default")
            (bytes "Loan default recorded; savings seized: " ++ cash symbol seized) d.audit;
    }

-- The debt behind what was paid of it.
abbrev pub reduced : ℤ → Debtor → Debtor
reduced due d = record d {
  wallet = charged due d.wallet;
  player = record d.player { debt_cents = d.player.debt_cents -ℤ collected due d.wallet };
}

abbrev pub missed : Bytes → Subject → Debtor → Debtor
missed symbol about d =
    let late = delinquent symbol about d in
    if leb 3 late.lifecycle.missed_payments then defaulted symbol about late else late

abbrev pub next_day : Debtor → Debtor
next_day d = record d {
  lifecycle = record d.lifecycle { next_payment_unix = d.lifecycle.next_payment_unix +ℤ pos day };
  changed = true;
}

-- One payment.
pub autopay : Bytes → Subject → Debtor → Debtor
autopay symbol about d =
    let due = minimum_due d.player.debt_cents in
    let paid = collected due d.wallet in
    next_day (
      if leb_ℤ due paid
      then paid_off symbol about paid (reduced due d)
      else missed symbol about (reduced due d))

-- while (periods-- > 0 && player.debt_cents > 0)
pub autopay_loop : Bytes → Subject → ℕ → Debtor → Debtor
autopay_loop symbol about zero d = d
autopay_loop symbol about (suc periods) d =
    let rest = autopay_loop symbol about periods (autopay symbol about d) in
    if ltb_ℤ (pos 0) d.player.debt_cents then rest else d

abbrev pub without_debt : Debtor → Debtor
without_debt d = record d {
  player = record d.player { debt_cents = pos 0 };
  lifecycle = record d.lifecycle { next_payment_unix = pos 0; missed_payments = 0 };
}

-- Nothing is owed any more.
pub cleared : Debtor → Debtor
cleared d = if leb_ℤ d.player.debt_cents (pos 0) then without_debt d else d

abbrev pub is_owing : ℤ → FinancialLifecycle → ChaosPlayer → Bool
is_owing now l player =
    ltb_ℤ (pos 0) player.debt_cents
    && (ltb_ℤ (pos 0) l.next_payment_unix && leb_ℤ l.next_payment_unix now)

abbrev put_back : Bytes → Store → Debtor → Store
put_back key s d = record s {
  lifecycle = insert key d.lifecycle s.lifecycle;
  chaos_players = insert key d.player s.chaos_players;
  players = insert key d.wallet s.players;
  audit = d.audit;
}

-- An entry whose payment is due, of a player of a server.
unfoldable pub autopay_due :
    ℤ → Bytes → Bytes → Bytes → FinancialLifecycle → ChaosPlayer → Player → Store → Ticked
autopay_due now key guild_id user_id l player wallet s =
    let symbol = (at new_guild_settings guild_id s.settings).currency_symbol in
    let about : Subject = record { guild_id = guild_id; user_id = user_id; now = now } in
    let before : Debtor = record {
      lifecycle = l;
      player = player;
      wallet = wallet;
      audit = s.audit;
      changed = false;
    } in
    let d =
      cleared (autopay_loop symbol about (periods_due (pos 30) l.next_payment_unix now) before) in
    (
      d.changed,
      put_back key
          (record s {
            settings = ensure new_guild_settings guild_id s.settings;
            display_symbol = symbol;
          })
          d,
    )

-- A key with no separator is passed over.
unfoldable pub autopay_split :
    ℤ → Bytes → Bytes × Option Bytes → FinancialLifecycle → ChaosPlayer → Player → Store → Ticked
autopay_split now key (guild_id, none) l player wallet s = (false, s)
autopay_split now key (guild_id, some user_id) l player wallet s =
    autopay_due now key guild_id user_id l player wallet s

-- An entry whose player is not there is passed over.
unfoldable pub autopay_found :
    ℤ → Bytes → FinancialLifecycle → Option ChaosPlayer → Option Player → Store → Ticked
autopay_found now key l none wallet s = (false, s)
autopay_found now key l (some player) none s = (false, s)
autopay_found now key l (some player) (some wallet) s =
    if is_owing now l player
    then autopay_split now key (cut_at separator key) l player wallet s
    else (false, s)

unfoldable pub autopay_entry : ℤ → Bytes → FinancialLifecycle → Store → Ticked
autopay_entry now key l s =
    autopay_found now key l (lookup key s.chaos_players) (lookup key s.players) s

unfoldable pub autopay_all : ℤ → Dict FinancialLifecycle → Store → Ticked
autopay_all now [] s = (false, s)
autopay_all now ((key, l) ∷ lifecycle) s =
    let first = autopay_entry now key l s in
    let rest = autopay_all now lifecycle first.1 in (first.0 || rest.0, rest.1)
