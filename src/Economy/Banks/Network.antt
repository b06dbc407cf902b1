-- ===== src/Economy/Banks/Network.antt =====
-- The bounds on the stability of the banks, and what is insured.
use native.Mathlib.Nat.{div-le_self}
use routine_linux_edition.Base.{
  ℕ, zero, suc, ◌<◌, inl, inr, Bool, List, [], ◌∷◌, arith, All, set, get_or, if_keeps,
  if◌then◌else◌, ◌==◌,
}
use routine_linux_edition.Base.Int.{
  ℤ, pos, ◌+ℤ◌, ◌-ℤ◌, ◌/ℤ◌, ◌≤ℤ◌, max_ℤ, min_ℤ, clamp_bounds, /ℤ_parts, one_part, pos_part,
  neg_part, max_ℤ_bounds, min_ℤ_bounds, ends, int_laws, is_zero,
}
use routine_linux_edition.Base.Bytes.{Bytes}
use routine_linux_edition.Base.Dict.{Dict}
use routine_linux_edition.Economy.State.{ChaosPlayer, FinancialLifecycle, GuildEconomy}
use routine_linux_edition.Economy.Banks.{
  Vault, insured_limit, loss_of, resolved, resolve_one, resolve_bank, next_stability, bank_hour,
  banks_hour, banks_hours, with_bank, count_defaults, steps_due, update_bank_network, is_customer,
}

abbrev IsShare : ℤ → Type 0
IsShare a = (pos 0 ≤ℤ a) × (a ≤ℤ pos 100)

-- The stability of every bank lies between 0 and 100.
pub record IsStanding (v : Vault) : Type 0 where
  pub shares : All IsShare v.network.stability

set-IsShare : (xs : List ℤ) (i : ℕ) (a : ℤ) → All IsShare xs → IsShare a → All IsShare (set xs i a)
set-IsShare [] i a h k = tt
set-IsShare (x ∷ xs) zero a h k = (k, h.1)
set-IsShare (x ∷ xs) (suc i) a h k = (h.0, set-IsShare xs i a h.1 k)

next_stability-IsShare :
    (economy : GuildEconomy) (defaults : ℕ) (draw stability : ℤ)
    → IsShare (next_stability economy defaults draw stability)
unfolding next_stability
next_stability-IsShare economy defaults draw stability =
    clamp_bounds _ (pos 0) (pos 100) (omega arith)

with_bank-IsStanding :
    (bank : ℕ) (stability failed_until : ℤ) (v : Vault)
    → IsStanding v
    → IsShare stability
    → IsStanding (with_bank bank stability failed_until v)
with_bank-IsStanding bank stability failed_until v h k = record {
  shares = set-IsShare v.network.stability bank stability h.shares k;
}

resolve_bank-IsStanding :
    (summary : ℤ → Bytes) (guild_id : Bytes) (bank : ℕ) (step_time : ℤ)
    (lifecycle : Dict FinancialLifecycle) (v : Vault)
    → IsStanding v
    → IsStanding (resolve_bank summary guild_id bank step_time lifecycle v)
unfolding resolve_bank resolve_one
resolve_bank-IsStanding summary guild_id bank step_time [] v h = h
resolve_bank-IsStanding summary guild_id bank step_time ((key, l) ∷ lifecycle) v h =
    resolve_bank-IsStanding summary guild_id bank step_time lifecycle
      (if is_customer guild_id bank key l then resolve_one summary guild_id step_time key v else v)
      (if_keeps IsStanding (is_customer guild_id bank key l) _ _ (record { shares = h.shares }) h)

bank_hour-IsStanding :
    (summary : ℤ → Bytes) (guild_id : Bytes) (economy : GuildEconomy)
    (lifecycle : Dict FinancialLifecycle) (defaults : ℕ) (draw step_time : ℤ) (bank : ℕ) (v : Vault)
    → IsStanding v
    → IsStanding (bank_hour summary guild_id economy lifecycle defaults draw step_time bank v)
unfolding bank_hour
bank_hour-IsStanding summary guild_id economy lifecycle defaults draw step_time bank v h =
    let recovered = with_bank-IsStanding bank (pos 40) (pos 0) v h (omega arith) in
    let failed = with_bank-IsStanding bank (pos 10) (step_time +ℤ pos 86_400) v h (omega arith) in
    let stands =
      with_bank-IsStanding bank _ _ v h (next_stability-IsShare economy defaults draw _) in
    if_keeps IsStanding _ _ _ (if_keeps IsStanding _ _ _ recovered h) (
      if_keeps IsStanding _ _ _ stands
        (resolve_bank-IsStanding summary guild_id bank step_time lifecycle _ failed))

banks_hour-IsStanding :
    (summary : ℤ → Bytes) (guild_id : Bytes) (economy : GuildEconomy)
    (lifecycle : Dict FinancialLifecycle) (counts : List ℕ) (draw : ℕ → ℤ) (step_time : ℤ)
    (n bank : ℕ) (v : Vault)
    → IsStanding v
    → IsStanding (banks_hour summary guild_id economy lifecycle counts draw step_time n bank v)
unfolding banks_hour
banks_hour-IsStanding summary guild_id economy lifecycle counts draw step_time zero bank v h = h
banks_hour-IsStanding summary guild_id economy lifecycle counts draw step_time (suc n) bank v h =
    banks_hour-IsStanding summary guild_id economy lifecycle counts draw step_time n (suc bank)
      (bank_hour summary guild_id economy lifecycle (get_or 0 counts bank) (draw bank) step_time
        bank v)
      (bank_hour-IsStanding summary guild_id economy lifecycle (get_or 0 counts bank) (draw bank)
        step_time bank v h)

banks_hours-IsStanding :
    (summary : ℤ → Bytes) (guild_id : Bytes) (economy : GuildEconomy)
    (lifecycle : Dict FinancialLifecycle) (counts : List ℕ) (noise : ℕ → ℕ → ℤ) (last : ℤ)
    (n step : ℕ) (v : Vault)
    → IsStanding v
    → IsStanding (banks_hours summary guild_id economy lifecycle counts noise last n step v)
unfolding banks_hours
banks_hours-IsStanding summary guild_id economy lifecycle counts noise last zero step v h = h
banks_hours-IsStanding summary guild_id economy lifecycle counts noise last (suc n) step v h =
    banks_hours-IsStanding summary guild_id economy lifecycle counts noise last n (suc step) _
      (banks_hour-IsStanding summary guild_id economy lifecycle counts (noise step) _ _ 0 v h)

-- When the stability of every bank of a server lies between 0 and 100, it does after the bank
-- network is updated.
pub update_bank_network-IsStanding :
    (summary : ℤ → Bytes) (noise : ℕ → ℕ → ℤ) (guild_id : Bytes) (economy : GuildEconomy)
    (lifecycle : Dict FinancialLifecycle) (now : ℤ) (v : Vault)
    → IsStanding v
    → IsStanding (update_bank_network summary noise guild_id economy lifecycle now v).1
unfolding update_bank_network
update_bank_network-IsStanding summary noise guild_id economy lifecycle now v h =
    let P = λ (r : Bool × Vault). IsStanding r.1 in
    let last = v.network.last_update_unix in
    let counts = count_defaults guild_id lifecycle (0 ∷ 0 ∷ 0 ∷ 0 ∷ 0 ∷ 0 ∷ []) in
    let after =
      banks_hours-IsStanding summary guild_id economy lifecycle counts noise last
        (steps_due last now) 0 v h in
    if_keeps P (is_zero last) _ _ (record { shares = h.shares })
      (if_keeps P (steps_due last now == 0) _ _ h (record { shares = after.shares }))

quotient_bounds : (d : ℤ) (n : ℕ) → 0 < n → pos 0 ≤ℤ d → (pos 0 ≤ℤ d /ℤ n) × (d /ℤ n ≤ℤ d)
quotient_bounds d n h k =
    omega (arith, /ℤ_parts d n, one_part d, div-le_self (pos_part d) n, div-le_self (neg_part d) n)

loss_of_bounds :
    (n : ℕ) (a : ℤ)
    → 0 < n
    → pos 0 ≤ℤ a
    → (min_ℤ a insured_limit ≤ℤ a -ℤ loss_of n a) × (a -ℤ loss_of n a ≤ℤ a)
unfolding loss_of
loss_of_bounds n a h k =
    let d = max_ℤ (pos 0) (a -ℤ insured_limit) in
    let over = max_ℤ_bounds (pos 0) (a -ℤ insured_limit) in
    let (low, high) = quotient_bounds d n h over.0 in
    let least = min_ℤ_bounds a insured_limit in
    let kept : min_ℤ a insured_limit ≤ℤ a -ℤ d /ℤ n = elim over.2 [
      | inl poor ↦ omega (int_laws, ends _ _ poor, high, least.0)
      | inr rich ↦ omega (int_laws, ends _ _ rich, high, least.1)
    ] in
    (kept, omega (int_laws, low))

-- When savings are not negative, the failure of a bank never raises them, and it leaves at least
-- the insured part of each account.
pub resolved_keeps :
    (player : ChaosPlayer)
    → pos 0 ≤ℤ player.savings_cents
    → pos 0 ≤ℤ player.hysa_cents
    → (min_ℤ player.savings_cents insured_limit ≤ℤ (resolved player).savings_cents)
      × ((resolved player).savings_cents ≤ℤ player.savings_cents)
      × (min_ℤ player.hysa_cents insured_limit ≤ℤ (resolved player).hysa_cents)
      × ((resolved player).hysa_cents ≤ℤ player.hysa_cents)
unfolding resolved
resolved_keeps player h k =
    let (a, b) = loss_of_bounds 10 player.savings_cents (omega arith) h in
    let (c, d) = loss_of_bounds 5 player.hysa_cents (omega arith) k in (a, b, c, d)
