-- ===== src/Economy/State/Players.antt =====
-- The records kept for one player in one server, or for one user over all servers. Structs of lib/local_economy_extension.cpp,
-- with their default values.
use routine_linux_edition.Base.{ℕ, Bool, false, List, [], ◌∷◌}
use routine_linux_edition.Base.Int.{ℤ, pos}
use routine_linux_edition.Base.Bytes.{Bytes}

-- An array of the nine stocks, all zero.
abbrev zeros : List ℕ
zeros = 0 ∷ 0 ∷ 0 ∷ 0 ∷ 0 ∷ 0 ∷ 0 ∷ 0 ∷ 0 ∷ []

pub record Player : Type 0 where
  pub wallet_cents : ℤ
  pub checking_cents : ℤ
  pub last_daily_unix : ℤ
  pub last_work_unix : ℤ
  pub work_count : ℕ
  pub items : List ℕ

abbrev pub new_player : Player
new_player = record {
  wallet_cents = pos 5000;
  checking_cents = pos 0;
  last_daily_unix = pos 0;
  last_work_unix = pos 0;
  work_count = 0;
  items = 0 ∷ 0 ∷ 0 ∷ [];
}

pub record ChaosPlayer : Type 0 where
  pub savings_cents : ℤ
  pub hysa_cents : ℤ
  pub debt_cents : ℤ
  pub bonds_cents : ℤ
  pub business_cash_cents : ℤ
  pub last_business_unix : ℤ
  pub credit_score : ℤ
  pub experience : ℕ
  pub job_tier : ℕ
  pub degree : ℕ
  pub business_level : ℕ
  pub property_level : ℕ
  pub bankruptcies : ℕ
  pub gambling_wagered_cents : ℕ
  pub gambling_profit_cents : ℤ
  pub shares : List ℕ

abbrev pub new_chaos_player : ChaosPlayer
new_chaos_player = record {
  savings_cents = pos 0;
  hysa_cents = pos 0;
  debt_cents = pos 0;
  bonds_cents = pos 0;
  business_cash_cents = pos 0;
  last_business_unix = pos 0;
  credit_score = pos 600;
  experience = 0;
  job_tier = 0;
  degree = 0;
  business_level = 0;
  property_level = 0;
  bankruptcies = 0;
  gambling_wagered_cents = 0;
  gambling_profit_cents = pos 0;
  shares = zeros;
}

pub record AdvancedPlayer : Type 0 where
  pub cd_cents : ℤ
  pub cd_opened_unix : ℤ
  pub retirement_cents : ℤ
  pub index_fund_cents : ℤ
  pub commodities_cents : ℤ
  pub margin_debt_cents : ℤ
  pub casino_reserve_cents : ℤ
  pub casino_profit_cents : ℤ
  pub last_casino_unix : ℤ
  pub last_insurance_claim_unix : ℤ
  pub insurance_level : ℕ
  pub collectibles : ℕ
  pub casino_level : ℕ
  pub business_inventory : ℕ
  pub employees : ℕ
  pub short_shares : List ℕ

abbrev pub new_advanced_player : AdvancedPlayer
new_advanced_player = record {
  cd_cents = pos 0;
  cd_opened_unix = pos 0;
  retirement_cents = pos 0;
  index_fund_cents = pos 0;
  commodities_cents = pos 0;
  margin_debt_cents = pos 0;
  casino_reserve_cents = pos 0;
  casino_profit_cents = pos 0;
  last_casino_unix = pos 0;
  last_insurance_claim_unix = pos 0;
  insurance_level = 0;
  collectibles = 0;
  casino_level = 0;
  business_inventory = 0;
  employees = 0;
  short_shares = zeros;
}

pub record CorporatePlayer : Type 0 where
  pub last_stipend_unix : ℤ
  pub acquisitions : ℕ
  pub public_company : Bool

abbrev pub new_corporate_player : CorporatePlayer
new_corporate_player = record {
  last_stipend_unix = pos 0;
  acquisitions = 0;
  public_company = false;
}

pub record FinancialLifecycle : Type 0 where
  pub next_payment_unix : ℤ
  pub last_review_unix : ℤ
  pub bank_id : ℕ
  pub missed_payments : ℕ
  pub defaults : ℕ
  pub performance : ℤ
  pub layoffs : ℕ

abbrev pub new_financial_lifecycle : FinancialLifecycle
new_financial_lifecycle = record {
  next_payment_unix = pos 0;
  last_review_unix = pos 0;
  bank_id = 0;
  missed_payments = 0;
  defaults = 0;
  performance = pos 50;
  layoffs = 0;
}

pub record CrimePlayer : Type 0 where
  pub jailed_until_unix : ℤ
  pub last_crime_unix : ℤ
  pub last_welfare_unix : ℤ
  pub last_heat_decay_unix : ℤ
  pub fines_paid_cents : ℤ
  pub taxes_paid_cents : ℤ
  pub heat : ℕ
  pub offenses : ℕ
  pub successes : ℕ

abbrev pub new_crime_player : CrimePlayer
new_crime_player = record {
  jailed_until_unix = pos 0;
  last_crime_unix = pos 0;
  last_welfare_unix = pos 0;
  last_heat_decay_unix = pos 0;
  fines_paid_cents = pos 0;
  taxes_paid_cents = pos 0;
  heat = 0;
  offenses = 0;
  successes = 0;
}

pub record PlayerDevelopment : Type 0 where
  pub certifications : ℕ

abbrev pub new_player_development : PlayerDevelopment
new_player_development = record { certifications = 0 }

pub record PlayerHistoryPoint : Type 0 where
  pub guild_id : Bytes
  pub user_id : Bytes
  pub timestamp : ℤ
  pub net_worth_cents : ℤ
  pub liquid_cents : ℤ
  pub debt_cents : ℤ
  pub invested_cents : ℤ

abbrev pub new_player_history_point : PlayerHistoryPoint
new_player_history_point = record {
  guild_id = [];
  user_id = [];
  timestamp = pos 0;
  net_worth_cents = pos 0;
  liquid_cents = pos 0;
  debt_cents = pos 0;
  invested_cents = pos 0;
}

pub record SecurityProfile : Type 0 where
  pub created_unix : ℤ
  pub action_window_unix : ℤ
  pub actions_in_window : ℕ
  pub rejected_actions : ℕ

abbrev pub new_security_profile : SecurityProfile
new_security_profile = record {
  created_unix = pos 0;
  action_window_unix = pos 0;
  actions_in_window = 0;
  rejected_actions = 0;
}

pub record GlobalPlayer : Type 0 where
  pub education_mask : ℕ
  pub licenses : ℕ
  pub achievements : ℕ
  pub reputation : ℤ
  pub lifetime_actions : ℕ
  pub lifetime_trade_cents : ℕ
  pub lifetime_forex_cents : ℕ
  pub first_seen_unix : ℤ
  pub last_seen_unix : ℤ

abbrev pub new_global_player : GlobalPlayer
new_global_player = record {
  education_mask = 0;
  licenses = 0;
  achievements = 0;
  reputation = pos 50;
  lifetime_actions = 0;
  lifetime_trade_cents = 0;
  lifetime_forex_cents = 0;
  first_seen_unix = pos 0;
  last_seen_unix = pos 0;
}
