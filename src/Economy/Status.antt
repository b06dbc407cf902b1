-- ===== src/Economy/Status.antt =====
-- EconomyStatus of include/economy_extension_api.h, and the constants of the economy.
use routine_linux_edition.Base.{ℕ, ◌^◌}
use routine_linux_edition.Base.Int.{ℤ, pos}

pub data Status : Type 0 where
  ok invalid_argument cooldown insufficient_funds player_not_found self_transfer storage_error :
      Status

abbrev pub economy_item_count : ℕ
economy_item_count = 3

abbrev pub max_leaderboard : ℕ
max_leaderboard = 10

abbrev pub stock_count : ℕ
stock_count = 9

abbrev pub daily_cooldown : ℤ
daily_cooldown = pos 86_400

abbrev pub work_cooldown : ℤ
work_cooldown = pos 3_600

abbrev pub maximum_transaction : ℤ
maximum_transaction = pos 100_000_000_000_000

-- One more than the largest uint32_t and uint64_t.
abbrev pub u32_mod : ℕ
u32_mod = 2 ^ 32

abbrev pub u64_mod : ℕ
u64_mod = 2 ^ 64
