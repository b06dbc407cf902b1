-- ===== src/Economy/Banks.antt =====
-- update_bank_network of lib/local_economy_extension.cpp: the hourly stability of the six banks of a
-- server, and what a failing bank costs its customers. The id of a server holds no separator, so the
-- user of a key is what stands behind the prefix. `noise` is the draw for a step and a bank;
-- `summary` writes the text of an audit entry.
use routine_linux_edition.Base.{
  ℕ, zero, suc, ◌+◌, ◌*◌, ◌/◌, ◌%◌, Bool, true, false, not, ◌&&◌, ◌||◌, List, [], ◌∷◌, ◌++◌, leb,
  ltb, ◌==◌, if◌then◌else◌, get_or, set, length, drop,
}
use routine_linux_edition.Base.Int.{
  ℤ, pos, ◌+ℤ◌, ◌-ℤ◌, ◌*ℤ◌, ◌/ℤ◌, leb_ℤ, ltb_ℤ, max_ℤ, clamp, is_zero, pos_part,
}
use routine_linux_edition.Base.Bytes.{Bytes, bytes, starts_with}
use routine_linux_edition.Base.Dict.{Dict, insert, at}
use routine_linux_edition.Economy.Status.{u32_mod}
use routine_linux_edition.Economy.State.{
  ChaosPlayer, new_chaos_player, FinancialLifecycle, GuildEconomy, GuildBankNetwork, AuditEntry,
}
use routine_linux_edition.Economy.Accounts.{prefix_of, separator, min_ℕ}
pub mod Network
mod Tests

-- What the update works on.
pub record Vault : Type 0 where
  pub network : GuildBankNetwork
  pub chaos_players : Dict ChaosPlayer
  pub audit : List AuditEntry

abbrev pub bank_count : ℕ
bank_count = 6

-- How many defaults the customers of each bank have.
pub count_defaults : Bytes → Dict FinancialLifecycle → List ℕ → List ℕ
count_defaults guild_id [] counts = counts
count_defaults guild_id ((key, l) ∷ lifecycle) counts =
    let bank = min_ℕ l.bank_id 5 in
    count_defaults guild_id lifecycle (
      if starts_with (prefix_of guild_id) key
      then set counts bank ((get_or 0 counts bank + l.defaults) % u32_mod)
      else counts)

abbrev pub insured_limit : ℤ
insured_limit = pos 1_000_000

pub loss_of : ℕ → ℤ → ℤ
loss_of share balance = max_ℤ (pos 0) (balance -ℤ insured_limit) /ℤ share

-- A customer of a bank that fails.
pub resolved : ChaosPlayer → ChaosPlayer
resolved player = record player {
  savings_cents = player.savings_cents -ℤ loss_of 10 player.savings_cents;
  hysa_cents = player.hysa_cents -ℤ loss_of 5 player.hysa_cents;
}

abbrev pub is_customer : Bytes → ℕ → Bytes → FinancialLifecycle → Bool
is_customer guild_id bank key l = starts_with (prefix_of guild_id) key && l.bank_id == bank

pub resolve_one : (ℤ → Bytes) → Bytes → ℤ → Bytes → Vault → Vault
resolve_one summary guild_id step_time key v =
    let player = at new_chaos_player key v.chaos_players in
    record v {
      chaos_players = insert key (resolved player) v.chaos_players;
      audit =
          v.audit
          ++ record {
            guild_id = guild_id;
            user_id = drop (length (prefix_of guild_id)) key;
            timestamp = step_time;
            action = bytes "bank-resolution";
            summary = summary (loss_of 10 player.savings_cents +ℤ loss_of 5 player.hysa_cents);
          }
            ∷ [];
    }

pub resolve_bank : (ℤ → Bytes) → Bytes → ℕ → ℤ → Dict FinancialLifecycle → Vault → Vault
resolve_bank summary guild_id bank step_time [] v = v
resolve_bank summary guild_id bank step_time ((key, l) ∷ lifecycle) v =
    resolve_bank summary guild_id bank step_time lifecycle
      (if is_customer guild_id bank key l then resolve_one summary guild_id step_time key v else v)

-- The stability of a bank that stands, after an hour.
pub next_stability : GuildEconomy → ℕ → ℤ → ℤ → ℤ
next_stability economy defaults draw stability =
    clamp
      (stability
        +ℤ draw
        +ℤ (economy.confidence -ℤ pos 50) /ℤ 20
        -ℤ max_ℤ (pos 0) (economy.unemployment_bp -ℤ pos 500) /ℤ 1_000
        -ℤ pos (min_ℕ 5 (defaults / 3)))
      (pos 0) (pos 100)

abbrev pub with_bank : ℕ → ℤ → ℤ → Vault → Vault
with_bank bank stability failed_until v = record v {
  network = record v.network {
    stability = set v.network.stability bank stability;
    failed_until = set v.network.failed_until bank failed_until;
  };
}

-- One bank in one hour.
pub bank_hour :
    (ℤ → Bytes) → Bytes → GuildEconomy → Dict FinancialLifecycle → ℕ → ℤ → ℤ → ℕ → Vault → Vault
bank_hour summary guild_id economy lifecycle defaults draw step_time bank v =
    let failed_until = get_or (pos 0) v.network.failed_until bank in
    let stability =
      next_stability economy defaults draw (get_or (pos 0) v.network.stability bank) in
    let failed = with_bank bank (pos 10) (step_time +ℤ pos 86_400) v in
    if ltb_ℤ (pos 0) failed_until
    then if leb_ℤ failed_until step_time then with_bank bank (pos 40) (pos 0) v else v
    else if ltb_ℤ (pos 10) stability
    then with_bank bank stability failed_until v
    else resolve_bank summary guild_id bank step_time lifecycle failed

-- The banks from the first on; n are left.
pub banks_hour :
    (ℤ → Bytes)
    → Bytes
    → GuildEconomy
    → Dict FinancialLifecycle
    → List ℕ
    → (ℕ → ℤ)
    → ℤ
    → ℕ
    → ℕ
    → Vault
    → Vault
banks_hour summary guild_id economy lifecycle counts draw step_time zero bank v = v
banks_hour summary guild_id economy lifecycle counts draw step_time (suc n) bank v =
    banks_hour summary guild_id economy lifecycle counts draw step_time n (suc bank) (
      bank_hour summary guild_id economy lifecycle (get_or 0 counts bank) (draw bank) step_time bank
        v)

-- The hours from the first on; n are left.
pub banks_hours :
    (ℤ → Bytes)
    → Bytes
    → GuildEconomy
    → Dict FinancialLifecycle
    → List ℕ
    → (ℕ → ℕ → ℤ)
    → ℤ
    → ℕ
    → ℕ
    → Vault
    → Vault
banks_hours summary guild_id economy lifecycle counts noise last zero step v = v
banks_hours summary guild_id economy lifecycle counts noise last (suc n) step v =
    banks_hours summary guild_id economy lifecycle counts noise last n (suc step) (
      banks_hour summary guild_id economy lifecycle counts (noise step)
        (last +ℤ pos ((step + 1) * 3_600)) bank_count 0 v)

pub steps_due : ℤ → ℤ → ℕ
steps_due last now = pos_part (clamp ((now -ℤ last) /ℤ 3_600) (pos 0) (pos 72))

-- The update, and whether anything changed.
pub update_bank_network :
    (ℤ → Bytes)
    → (ℕ → ℕ → ℤ)
    → Bytes
    → GuildEconomy
    → Dict FinancialLifecycle
    → ℤ
    → Vault
    → Bool × Vault
update_bank_network summary noise guild_id economy lifecycle now v =
    let last = v.network.last_update_unix in
    let steps = steps_due last now in
    let counts = count_defaults guild_id lifecycle (0 ∷ 0 ∷ 0 ∷ 0 ∷ 0 ∷ 0 ∷ []) in
    let after = banks_hours summary guild_id economy lifecycle counts noise last steps 0 v in
    if is_zero last
    then (true, record v { network = record v.network { last_update_unix = now } })
    else if steps == 0
    then (false, v)
    else (
      true,
      record after {
        network = record after.network { last_update_unix = last +ℤ pos (steps * 3_600) };
      },
    )
