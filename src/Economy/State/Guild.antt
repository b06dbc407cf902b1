-- ===== src/Economy/State/Guild.antt =====
-- The records kept for one server. Structs of lib/local_economy_extension.cpp,
-- with their default values.
use routine_linux_edition.Base.{ℕ, Bool, true, false, List, [], ◌∷◌}
use routine_linux_edition.Base.Int.{ℤ, pos, negsuc}
use routine_linux_edition.Base.Bytes.{Bytes, bytes}

-- An array of the nine stocks, all zero.
abbrev zeros : List ℕ
zeros = 0 ∷ 0 ∷ 0 ∷ 0 ∷ 0 ∷ 0 ∷ 0 ∷ 0 ∷ 0 ∷ []

-- An array of the nine stocks, all zero.
abbrev zeros_ℤ : List ℤ
zeros_ℤ = pos 0 ∷ pos 0 ∷ pos 0 ∷ pos 0 ∷ pos 0 ∷ pos 0 ∷ pos 0 ∷ pos 0 ∷ pos 0 ∷ []

pub record GuildEconomy : Type 0 where
  pub prices : List ℤ
  pub last_market_unix : ℤ
  pub inflation_bp : ℤ
  pub unemployment_bp : ℤ
  pub confidence : ℤ
  pub event_id : ℕ

abbrev pub new_guild_economy : GuildEconomy
new_guild_economy = record {
  prices =
      pos 4200
      ∷ pos 1800
      ∷ pos 3200
      ∷ pos 2700
      ∷ pos 6660
      ∷ pos 3900
      ∷ pos 2400
      ∷ pos 8500
      ∷ pos 500
      ∷ [];
  last_market_unix = pos 0;
  inflation_bp = pos 250;
  unemployment_bp = pos 550;
  confidence = pos 55;
  event_id = 0;
}

pub record GuildExchange : Type 0 where
  pub revenue : List ℤ
  pub expenses : List ℤ
  pub profit : List ℤ
  pub cash : List ℤ
  pub debt : List ℤ
  pub shares_outstanding : List ℕ
  pub volume : List ℕ
  pub liquidity : List ℕ
  pub remaining_liquidity : List ℕ
  pub sentiment : List ℤ
  pub halted_until : List ℤ
  pub distress : List ℕ
  pub listed : List Bool

abbrev pub new_guild_exchange : GuildExchange
new_guild_exchange = record {
  revenue =
      pos 5200000
      ∷ pos 2100000
      ∷ pos 3900000
      ∷ pos 4300000
      ∷ pos 6800000
      ∷ pos 3600000
      ∷ pos 4700000
      ∷ pos 7500000
      ∷ pos 900000
      ∷ [];
  expenses =
      pos 3900000
      ∷ pos 1700000
      ∷ pos 3100000
      ∷ pos 3700000
      ∷ pos 5100000
      ∷ pos 2800000
      ∷ pos 4000000
      ∷ pos 5400000
      ∷ pos 1050000
      ∷ [];
  profit = zeros_ℤ;
  cash =
      pos 8000000000
      ∷ pos 2100000000
      ∷ pos 3500000000
      ∷ pos 6200000000
      ∷ pos 5000000000
      ∷ pos 4100000000
      ∷ pos 3300000000
      ∷ pos 12000000000
      ∷ pos 600000000
      ∷ [];
  debt =
      pos 900000000
      ∷ pos 1200000000
      ∷ pos 700000000
      ∷ pos 1800000000
      ∷ pos 4800000000
      ∷ pos 1300000000
      ∷ pos 2200000000
      ∷ pos 900000000
      ∷ pos 1100000000
      ∷ [];
  shares_outstanding =
      1500000 ∷ 1200000 ∷ 1800000 ∷ 1600000 ∷ 2000000 ∷ 1400000 ∷ 1700000 ∷ 1300000 ∷ 2500000 ∷ [];
  volume = zeros;
  liquidity = 300 ∷ 220 ∷ 500 ∷ 260 ∷ 140 ∷ 350 ∷ 240 ∷ 400 ∷ 90 ∷ [];
  remaining_liquidity = 300 ∷ 220 ∷ 500 ∷ 260 ∷ 140 ∷ 350 ∷ 240 ∷ 400 ∷ 90 ∷ [];
  sentiment = pos 65 ∷ pos 48 ∷ pos 55 ∷ pos 50 ∷ pos 42 ∷ pos 58 ∷ pos 47 ∷ pos 70 ∷ pos 60 ∷ [];
  halted_until = zeros_ℤ;
  distress = zeros;
  listed = true ∷ true ∷ true ∷ true ∷ true ∷ true ∷ true ∷ true ∷ true ∷ [];
}

pub record GuildSettings : Type 0 where
  pub currency_name : Bytes
  pub currency_symbol : Bytes
  pub starting_balance_cents : ℤ
  pub role_stipend_cents : ℤ

abbrev pub new_guild_settings : GuildSettings
new_guild_settings = record {
  currency_name = bytes "Dollar";
  currency_symbol = bytes "$";
  starting_balance_cents = pos 5000;
  role_stipend_cents = pos 500;
}

pub record GovernmentState : Type 0 where
  pub mayor_id : Bytes
  pub treasury_cents : ℤ
  pub election_end_unix : ℤ
  pub term_end_unix : ℤ
  pub tax_basis_points : ℤ
  pub welfare_cents : ℤ
  pub platform : ℕ

abbrev pub new_government_state : GovernmentState
new_government_state = record {
  mayor_id = [];
  treasury_cents = pos 50000;
  election_end_unix = pos 0;
  term_end_unix = pos 0;
  tax_basis_points = pos 500;
  welfare_cents = pos 2500;
  platform = 0;
}

pub record ElectionCandidate : Type 0 where
  pub guild_id : Bytes
  pub user_id : Bytes
  pub platform : ℕ

abbrev pub new_election_candidate : ElectionCandidate
new_election_candidate = record { guild_id = []; user_id = []; platform = 0 }

pub record EconomySnapshot : Type 0 where
  pub guild_id : Bytes
  pub timestamp : ℤ
  pub money_supply_cents : ℤ
  pub average_net_worth_cents : ℤ
  pub median_net_worth_cents : ℤ
  pub total_debt_cents : ℤ
  pub business_value_cents : ℤ
  pub investment_value_cents : ℤ
  pub active_players : ℕ
  pub employed_players : ℕ
  pub item_supply : ℕ
  pub bank_stability : ℤ
  pub stock_prices : List ℤ

abbrev pub new_economy_snapshot : EconomySnapshot
new_economy_snapshot = record {
  guild_id = [];
  timestamp = pos 0;
  money_supply_cents = pos 0;
  average_net_worth_cents = pos 0;
  median_net_worth_cents = pos 0;
  total_debt_cents = pos 0;
  business_value_cents = pos 0;
  investment_value_cents = pos 0;
  active_players = 0;
  employed_players = 0;
  item_supply = 0;
  bank_stability = pos 100;
  stock_prices = zeros_ℤ;
}

pub record GuildBankNetwork : Type 0 where
  pub stability : List ℤ
  pub failed_until : List ℤ
  pub last_update_unix : ℤ

abbrev pub new_guild_bank_network : GuildBankNetwork
new_guild_bank_network = record {
  stability = pos 72 ∷ pos 61 ∷ pos 80 ∷ pos 88 ∷ pos 68 ∷ pos 48 ∷ [];
  failed_until = pos 0 ∷ pos 0 ∷ pos 0 ∷ pos 0 ∷ pos 0 ∷ pos 0 ∷ [];
  last_update_unix = pos 0;
}

pub record GuildDynamics : Type 0 where
  pub last_cycle_unix : ℤ
  pub spending_cents : ℤ
  pub investment_cents : ℤ
  pub saving_cents : ℤ
  pub selling_cents : ℤ
  pub capital_inflow_cents : ℤ
  pub capital_outflow_cents : ℤ
  pub exports_cents : ℤ
  pub imports_cents : ℤ
  pub government_debt_cents : ℤ
  pub forex_volume_cents : ℤ
  pub last_stimulus_unix : ℤ
  pub policy_rate_bp : ℤ
  pub currency_index : ℤ
  pub trend : ℤ
  pub hires : ℕ
  pub layoffs : ℕ
  pub recession_hours : ℕ
  pub recovery_hours : ℕ
  pub personality : ℕ
  pub last_global_event_id : ℕ
  pub tariff_basis_points : ℤ
  pub trade_partner : Bytes
  pub expectations : List ℤ
  pub rumor_due : List ℤ

abbrev pub new_guild_dynamics : GuildDynamics
new_guild_dynamics = record {
  last_cycle_unix = pos 0;
  spending_cents = pos 0;
  investment_cents = pos 0;
  saving_cents = pos 0;
  selling_cents = pos 0;
  capital_inflow_cents = pos 0;
  capital_outflow_cents = pos 0;
  exports_cents = pos 0;
  imports_cents = pos 0;
  government_debt_cents = pos 0;
  forex_volume_cents = pos 0;
  last_stimulus_unix = pos 0;
  policy_rate_bp = pos 400;
  currency_index = pos 10000;
  trend = pos 0;
  hires = 0;
  layoffs = 0;
  recession_hours = 0;
  recovery_hours = 0;
  personality = 0;
  last_global_event_id = 0;
  tariff_basis_points = pos 200;
  trade_partner = [];
  expectations = zeros_ℤ;
  rumor_due = zeros_ℤ;
}

pub record NewsEvent : Type 0 where
  pub id : ℕ
  pub origin_guild : Bytes
  pub created_unix : ℤ
  pub evolves_unix : ℤ
  pub company : ℤ
  pub impact : ℤ
  pub rarity : ℕ
  pub stage : ℕ
  pub global : Bool
  pub positive : Bool
  pub headline : Bytes

abbrev pub new_news_event : NewsEvent
new_news_event = record {
  id = 0;
  origin_guild = [];
  created_unix = pos 0;
  evolves_unix = pos 0;
  company = negsuc 0;
  impact = pos 0;
  rarity = 0;
  stage = 0;
  global = false;
  positive = true;
  headline = [];
}
