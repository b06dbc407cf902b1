-- ===== src/Economy/State/Assets.antt =====
-- What players own, owe, offer and agree on. Structs of lib/local_economy_extension.cpp,
-- with their default values.
use routine_linux_edition.Base.{ℕ, Bool, false, []}
use routine_linux_edition.Base.Int.{ℤ, pos}
use routine_linux_edition.Base.Bytes.{Bytes}

pub record PlayerContract : Type 0 where
  pub id : ℕ
  pub guild_id : Bytes
  pub lender_id : Bytes
  pub borrower_id : Bytes
  pub principal_cents : ℤ
  pub repayment_cents : ℤ
  pub accepted : Bool
  pub repaid : Bool

abbrev pub new_player_contract : PlayerContract
new_player_contract = record {
  id = 0;
  guild_id = [];
  lender_id = [];
  borrower_id = [];
  principal_cents = pos 0;
  repayment_cents = pos 0;
  accepted = false;
  repaid = false;
}

pub record LimitOrder : Type 0 where
  pub id : ℕ
  pub guild_id : Bytes
  pub user_id : Bytes
  pub stock : ℕ
  pub quantity : ℕ
  pub limit_price_cents : ℤ
  pub buy : Bool

abbrev pub new_limit_order : LimitOrder
new_limit_order = record {
  id = 0;
  guild_id = [];
  user_id = [];
  stock = 0;
  quantity = 0;
  limit_price_cents = pos 0;
  buy = false;
}

pub record AuditEntry : Type 0 where
  pub guild_id : Bytes
  pub user_id : Bytes
  pub timestamp : ℤ
  pub action : Bytes
  pub summary : Bytes

abbrev pub new_audit_entry : AuditEntry
new_audit_entry = record {
  guild_id = [];
  user_id = [];
  timestamp = pos 0;
  action = [];
  summary = [];
}

pub record PropertyAsset : Type 0 where
  pub id : ℕ
  pub guild_id : Bytes
  pub owner_id : Bytes
  pub tier : ℕ
  pub purchase_price_cents : ℤ
  pub market_value_cents : ℤ
  pub mortgage_cents : ℤ
  pub next_payment_unix : ℤ
  pub last_income_unix : ℤ
  pub condition : ℕ
  pub missed_payments : ℕ
  pub listed : Bool

abbrev pub new_property_asset : PropertyAsset
new_property_asset = record {
  id = 0;
  guild_id = [];
  owner_id = [];
  tier = 0;
  purchase_price_cents = pos 0;
  market_value_cents = pos 0;
  mortgage_cents = pos 0;
  next_payment_unix = pos 0;
  last_income_unix = pos 0;
  condition = 100;
  missed_payments = 0;
  listed = false;
}

pub record AuctionListing : Type 0 where
  pub id : ℕ
  pub guild_id : Bytes
  pub seller_id : Bytes
  pub asset_type : ℕ
  pub asset_id : ℕ
  pub quantity : ℕ
  pub reserve_cents : ℤ
  pub buyout_cents : ℤ
  pub highest_bid_cents : ℤ
  pub highest_bidder_id : Bytes
  pub end_unix : ℤ

abbrev pub new_auction_listing : AuctionListing
new_auction_listing = record {
  id = 0;
  guild_id = [];
  seller_id = [];
  asset_type = 0;
  asset_id = 0;
  quantity = 0;
  reserve_cents = pos 0;
  buyout_cents = pos 0;
  highest_bid_cents = pos 0;
  highest_bidder_id = [];
  end_unix = pos 0;
}

pub record BusinessProfile : Type 0 where
  pub industry : ℕ
  pub equipment_level : ℕ
  pub marketing : ℕ
  pub reputation : ℤ
  pub raw_materials : ℕ
  pub finished_goods : ℕ
  pub debt_cents : ℤ
  pub next_payment_unix : ℤ
  pub last_decay_unix : ℤ
  pub lifetime_revenue_cents : ℤ
  pub lifetime_profit_cents : ℤ
  pub missed_payments : ℕ
  pub defaults : ℕ

abbrev pub new_business_profile : BusinessProfile
new_business_profile = record {
  industry = 0;
  equipment_level = 0;
  marketing = 0;
  reputation = pos 50;
  raw_materials = 0;
  finished_goods = 0;
  debt_cents = pos 0;
  next_payment_unix = pos 0;
  last_decay_unix = pos 0;
  lifetime_revenue_cents = pos 0;
  lifetime_profit_cents = pos 0;
  missed_payments = 0;
  defaults = 0;
}

pub record BusinessPartnership : Type 0 where
  pub id : ℕ
  pub guild_id : Bytes
  pub owner_id : Bytes
  pub partner_id : Bytes
  pub share_basis_points : ℕ
  pub contribution_cents : ℤ
  pub accepted : Bool

abbrev pub new_business_partnership : BusinessPartnership
new_business_partnership = record {
  id = 0;
  guild_id = [];
  owner_id = [];
  partner_id = [];
  share_basis_points = 0;
  contribution_cents = pos 0;
  accepted = false;
}

pub record CollectibleAsset : Type 0 where
  pub serial : ℕ
  pub guild_id : Bytes
  pub owner_id : Bytes
  pub previous_owner_id : Bytes
  pub minted_unix : ℤ
  pub acquired_unix : ℤ
  pub auction_id : ℕ
  pub transfers : ℕ
  pub rarity : ℕ

abbrev pub new_collectible_asset : CollectibleAsset
new_collectible_asset = record {
  serial = 0;
  guild_id = [];
  owner_id = [];
  previous_owner_id = [];
  minted_unix = pos 0;
  acquired_unix = pos 0;
  auction_id = 0;
  transfers = 0;
  rarity = 0;
}

pub record ScheduledAgreement : Type 0 where
  pub id : ℕ
  pub guild_id : Bytes
  pub issuer_id : Bytes
  pub counterparty_id : Bytes
  pub type : ℕ
  pub asset_id : ℕ
  pub payment_cents : ℤ
  pub remaining_payments : ℕ
  pub next_payment_unix : ℤ
  pub accepted : Bool
  pub active : Bool

abbrev pub new_scheduled_agreement : ScheduledAgreement
new_scheduled_agreement = record {
  id = 0;
  guild_id = [];
  issuer_id = [];
  counterparty_id = [];
  type = 0;
  asset_id = 0;
  payment_cents = pos 0;
  remaining_payments = 0;
  next_payment_unix = pos 0;
  accepted = false;
  active = false;
}
