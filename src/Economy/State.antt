-- ===== src/Economy/State.antt =====
-- The global variables of lib/local_economy_extension.cpp, as one state. The mutex makes each call of
-- the interface one step on it; the store is the one after load_locked. The generator g_rng, and the
-- flags of the loader, are not part of it.
pub mod Players
pub mod Guild
pub mod Assets
use routine_linux_edition.Base.{ℕ, List, [], ◌∷◌}
use routine_linux_edition.Base.Bytes.{Bytes, bytes}
use routine_linux_edition.Base.Dict.{Dict}
pub use Players.*
use Players.{
  Player, ChaosPlayer, AdvancedPlayer, CorporatePlayer, FinancialLifecycle, CrimePlayer,
  PlayerDevelopment, PlayerHistoryPoint, SecurityProfile, GlobalPlayer,
}
pub use Guild.*
use Guild.{
  GuildEconomy, GuildExchange, GuildSettings, GovernmentState, ElectionCandidate, EconomySnapshot,
  GuildBankNetwork, GuildDynamics, NewsEvent,
}
pub use Assets.*
use Assets.{
  PlayerContract, LimitOrder, AuditEntry, PropertyAsset, AuctionListing, BusinessProfile,
  BusinessPartnership, CollectibleAsset, ScheduledAgreement,
}

pub record Store : Type 0 where
  pub players : Dict Player
  pub chaos_players : Dict ChaosPlayer
  pub advanced_players : Dict AdvancedPlayer
  pub guilds : Dict GuildEconomy
  pub exchanges : Dict GuildExchange
  pub contracts : List PlayerContract
  pub orders : List LimitOrder
  pub audit : List AuditEntry
  pub corporate_players : Dict CorporatePlayer
  pub settings : Dict GuildSettings
  pub lifecycle : Dict FinancialLifecycle
  pub crime_players : Dict CrimePlayer
  pub governments : Dict GovernmentState
  pub candidates : List ElectionCandidate
  pub votes : Dict Bytes
  pub snapshots : List EconomySnapshot
  pub properties : List PropertyAsset
  pub auctions : List AuctionListing
  pub business_profiles : Dict BusinessProfile
  pub partnerships : List BusinessPartnership
  pub collectible_assets : List CollectibleAsset
  pub development : Dict PlayerDevelopment
  pub player_history : List PlayerHistoryPoint
  pub bank_networks : Dict GuildBankNetwork
  pub security : Dict SecurityProfile
  pub agreements : List ScheduledAgreement
  pub global_players : Dict GlobalPlayer
  pub dynamics : Dict GuildDynamics
  pub news : List NewsEvent
  pub next_contract_id : ℕ
  pub next_order_id : ℕ
  pub next_property_id : ℕ
  pub next_auction_id : ℕ
  pub next_partnership_id : ℕ
  pub next_collectible_serial : ℕ
  pub next_agreement_id : ℕ
  pub next_news_id : ℕ
  pub data_migration_version : ℕ
  pub display_symbol : Bytes

abbrev pub empty_store : Store
empty_store = record {
  players = [];
  chaos_players = [];
  advanced_players = [];
  guilds = [];
  exchanges = [];
  contracts = [];
  orders = [];
  audit = [];
  corporate_players = [];
  settings = [];
  lifecycle = [];
  crime_players = [];
  governments = [];
  candidates = [];
  votes = [];
  snapshots = [];
  properties = [];
  auctions = [];
  business_profiles = [];
  partnerships = [];
  collectible_assets = [];
  development = [];
  player_history = [];
  bank_networks = [];
  security = [];
  agreements = [];
  global_players = [];
  dynamics = [];
  news = [];
  next_contract_id = 1;
  next_order_id = 1;
  next_property_id = 1;
  next_auction_id = 1;
  next_partnership_id = 1;
  next_collectible_serial = 1;
  next_agreement_id = 1;
  next_news_id = 1;
  data_migration_version = 0;
  display_symbol = bytes "$";
}
