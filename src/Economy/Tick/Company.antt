-- ===== src/Economy/Tick/Company.antt =====
-- The businesses of economy_tick_all_impl of lib/local_economy_extension.cpp: marketing wears off, loans
-- are paid from the company's cash, and the third miss liquidates the company.
use routine_linux_edition.Base.{
  ℕ, zero, suc, ◌+◌, Bool, true, false, not, ◌&&◌, ◌||◌, List, [], ◌∷◌, ◌++◌, Option, none, some,
  leb, ◌==◌, if◌then◌else◌,
}
use routine_linux_edition.Base.Int.{
  ℤ, pos, pos_part, ◌+ℤ◌, ◌-ℤ◌, ◌*ℤ◌, ◌/ℤ◌, leb_ℤ, ltb_ℤ, min_ℤ, max_ℤ, is_zero,
}
use routine_linux_edition.Base.Bytes.{Bytes, bytes, bytes_eq}
use routine_linux_edition.Base.Dict.{Dict, insert, at}
use routine_linux_edition.Economy.State.{
  Store, ChaosPlayer, BusinessProfile, BusinessPartnership, AuditEntry, GuildEconomy,
  new_guild_economy, new_chaos_player,
}
use routine_linux_edition.Economy.Accounts.{separator}
use routine_linux_edition.Economy.Money.{cash, cut_at}
use routine_linux_edition.Economy.Tick.{
  Ticked, Subject, entry, whole_days, periods_due, next_u32, score_up, score_down, day,
}
pub mod Loan

-- A business at work.
pub record Company : Type 0 where
  pub business : BusinessProfile
  pub owner : ChaosPlayer
  pub audit : List AuditEntry
  pub changed : Bool
  pub liquidated : Bool

abbrev pub since : ℤ → BusinessProfile → ℤ
since now b = if is_zero b.last_decay_unix then now else b.last_decay_unix

-- The marketing falls by two a day.
pub decayed : ℤ → Company → Company
decayed now c =
    let last = since now c.business in
    let days = whole_days last now in
    if ltb_ℤ (pos 0) days
    then record c {
      business = record c.business {
        marketing = pos_part (max_ℤ (pos 0) (pos c.business.marketing -ℤ days *ℤ pos 2));
        last_decay_unix = last +ℤ days *ℤ pos day;
      };
      changed = true;
    }
    else record c { business = record c.business { last_decay_unix = last } }

abbrev pub interest : ℤ → ℤ
interest debt = debt +ℤ max_ℤ (pos 1) (debt /ℤ 5_000)

-- What is due on a loan, and what the company can pay of it.
abbrev pub payment_of : ℤ → ℤ
payment_of debt = min_ℤ debt (max_ℤ (pos 1_000) (debt /ℤ 30))

abbrev pub paid_of : ℤ → ℤ → ℤ
paid_of debt funds = min_ℤ (payment_of debt) funds

abbrev noted : Subject → Bytes → Bytes → List AuditEntry → List AuditEntry
noted about action summary audit = audit ++ entry about action summary ∷ []

-- Interest is added, and the payment taken.
pub repaid : Company → Company
repaid c =
    let debt = interest c.business.debt_cents in
    let paid = paid_of debt c.owner.business_cash_cents in
    record c {
      business = record c.business { debt_cents = debt -ℤ paid };
      owner = record c.owner { business_cash_cents = c.owner.business_cash_cents -ℤ paid };
    }

pub on_time : Bytes → Subject → ℤ → Company → Company
on_time symbol about paid c = record c {
  business = record c.business { missed_payments = 0 };
  owner = record c.owner { credit_score = score_up (pos 2) c.owner.credit_score };
  audit =
      noted about (bytes "businessloan")
        (bytes "Company autopay collected " ++ (cash symbol paid ++ bytes ".")) c.audit;
}

pub too_late : Subject → Company → Company
too_late about c = record c {
  business = record c.business {
    missed_payments = next_u32 c.business.missed_payments;
    debt_cents = c.business.debt_cents +ℤ max_ℤ (pos 500) (c.business.debt_cents /ℤ 100);
  };
  owner = record c.owner { credit_score = score_down (pos 30) c.owner.credit_score };
  audit =
      noted about (bytes "businessloan") (bytes "Company missed payment; delinquency fee added.")
        c.audit;
}

-- The debt becomes the owner's, and the company is gone.
pub liquidate : Subject → Company → Company
liquidate about c = record c {
  business = record c.business {
    debt_cents = pos 0;
    next_payment_unix = pos 0;
    missed_payments = 0;
    defaults = next_u32 c.business.defaults;
    equipment_level = 0;
    marketing = 0;
    raw_materials = 0;
    finished_goods = 0;
    reputation = pos 10;
  };
  owner = record c.owner {
    debt_cents = c.owner.debt_cents +ℤ c.business.debt_cents;
    business_cash_cents = pos 0;
    business_level = 0;
  };
  audit =
      noted about (bytes "business-default")
        (bytes "Company liquidated after three missed loan payments; debt became personal.")
        c.audit;
  liquidated = true;
}

abbrev pub next_day : Company → Company
next_day c = record c {
  business = record c.business { next_payment_unix = c.business.next_payment_unix +ℤ pos day };
  changed = true;
}

abbrev pub reviewed : Subject → Company → Company
reviewed about c = if leb 3 c.business.missed_payments then liquidate about c else c

pub loan_day : Bytes → Subject → Company → Company
loan_day symbol about c =
    let debt = interest c.business.debt_cents in
    let paid = paid_of debt c.owner.business_cash_cents in
    reviewed about (
      next_day (
        if leb_ℤ (payment_of debt) paid
        then on_time symbol about paid (repaid c)
        else too_late about (repaid c)))

-- while (periods-- > 0 && business.debt_cents > 0); a liquidated company owes nothing, which ends it
-- too.
pub loan_loop : Bytes → Subject → ℕ → Company → Company
loan_loop symbol about zero c = c
loan_loop symbol about (suc periods) c =
    let rest = loan_loop symbol about periods (loan_day symbol about c) in
    if ltb_ℤ (pos 0) c.business.debt_cents then rest else c

abbrev pub without_loan : Company → Company
without_loan c = record c {
  business = record c.business {
    debt_cents = pos 0;
    next_payment_unix = pos 0;
    missed_payments = 0;
  };
}

pub loan_cleared : Company → Company
loan_cleared c = if leb_ℤ c.business.debt_cents (pos 0) then without_loan c else c

abbrev pub loan_periods : ℤ → BusinessProfile → ℕ
loan_periods now b =
    if ltb_ℤ (pos 0) b.debt_cents
      && (ltb_ℤ (pos 0) b.next_payment_unix && leb_ℤ b.next_payment_unix now)
    then periods_due (pos 7) b.next_payment_unix now
    else 0

pub other_partnerships : Subject → List BusinessPartnership → List BusinessPartnership
other_partnerships about [] = []
other_partnerships about (p ∷ partnerships) =
    let rest = other_partnerships about partnerships in
    if bytes_eq p.guild_id about.guild_id && bytes_eq p.owner_id about.user_id
    then rest
    else p ∷ rest

-- What a liquidation does to the server.
abbrev pub shaken : GuildEconomy → GuildEconomy
shaken economy = record economy {
  confidence = max_ℤ (pos 10) (economy.confidence -ℤ pos 4);
  unemployment_bp = min_ℤ (pos 3_000) (economy.unemployment_bp +ℤ pos 100);
}

abbrev after_liquidation : Subject → Store → Store
after_liquidation about s = record s {
  partnerships = other_partnerships about s.partnerships;
  guilds = insert about.guild_id (shaken (at new_guild_economy about.guild_id s.guilds)) s.guilds;
}

unfoldable pub company_turn : ℤ → Bytes → Subject → BusinessProfile → Store → Ticked
company_turn now key about b s =
    let start : Company = record {
      business = b;
      owner = at new_chaos_player key s.chaos_players;
      audit = s.audit;
      changed = false;
      liquidated = false;
    } in
    let worn = decayed now start in
    let c = loan_cleared (loan_loop s.display_symbol about (loan_periods now worn.business) worn) in
    let t = record s {
      business_profiles = insert key c.business s.business_profiles;
      chaos_players = insert key c.owner s.chaos_players;
      audit = c.audit;
    } in
    (c.changed, if c.liquidated then after_liquidation about t else t)

-- A key with no separator is passed over.
unfoldable pub company_split : ℤ → Bytes → Bytes × Option Bytes → BusinessProfile → Store → Ticked
company_split now key (guild_id, none) b s = (false, s)
company_split now key (guild_id, some owner_id) b s =
    company_turn now key (record { guild_id = guild_id; user_id = owner_id; now = now }) b s

unfoldable pub companies : ℤ → Dict BusinessProfile → Store → Ticked
companies now [] s = (false, s)
companies now ((key, b) ∷ profiles) s =
    let first = company_split now key (cut_at separator key) b s in
    let rest = companies now profiles first.1 in (first.0 || rest.0, rest.1)
