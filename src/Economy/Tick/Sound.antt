-- ===== src/Economy/Tick/Sound.antt =====
-- What the checks of the store want of the players' records, as a tick keeps it.
use routine_linux_edition.Base.{◌≡◌, true, all, arith}
use routine_linux_edition.Base.Int.{
  ℤ, pos, ◌+ℤ◌, ◌-ℤ◌, ◌≤ℤ◌, min_ℤ_bounds, max_ℤ_bounds, min_ℤ_above, max_ℤ_below, int_laws,
}
use routine_linux_edition.Base.Bytes.{Bytes}
use routine_linux_edition.Economy.State.{Store, Player, ChaosPlayer}
use routine_linux_edition.Economy.Limits.{player_holds, chaos_holds}
use routine_linux_edition.Economy.Tick.{score_up, score_down}
use routine_linux_edition.Economy.Tick.Collect.{IsFunded}

pub record IsSound (p : ChaosPlayer) : Type 0 where
  pub savings : pos 0 ≤ℤ p.savings_cents
  pub hysa : pos 0 ≤ℤ p.hysa_cents
  pub debt : pos 0 ≤ℤ p.debt_cents
  pub bonds : pos 0 ≤ℤ p.bonds_cents
  pub business : pos 0 ≤ℤ p.business_cash_cents
  pub score_low : pos 300 ≤ℤ p.credit_score
  pub score_high : p.credit_score ≤ℤ pos 850

pub player_holds-IsFunded : (k : Bytes) (p : Player) → player_holds (k, p) ≡ true → IsFunded p
unfolding player_holds
player_holds-IsFunded k p h = ground arith

pub IsFunded-player_holds : (k : Bytes) (p : Player) → IsFunded p → player_holds (k, p) ≡ true
unfolding player_holds
IsFunded-player_holds k p h = ground arith

pub chaos_holds-IsSound : (k : Bytes) (p : ChaosPlayer) → chaos_holds (k, p) ≡ true → IsSound p
unfolding chaos_holds
chaos_holds-IsSound k p h = record {
  savings = ground arith;
  hysa = ground arith;
  debt = ground arith;
  bonds = ground arith;
  business = ground arith;
  score_low = ground arith;
  score_high = ground arith;
}

pub IsSound-chaos_holds : (k : Bytes) (p : ChaosPlayer) → IsSound p → chaos_holds (k, p) ≡ true
unfolding chaos_holds
IsSound-chaos_holds k p h =
    let a = h.savings in
    let b = h.hysa in
    let c = h.debt in
    let d = h.bonds in
    let e = h.business in let f = h.score_low in let g = h.score_high in ground arith

-- The checks of the store on its players.
pub record PlayersHold (s : Store) : Type 0 where
  pub wallets : all player_holds s.players ≡ true
  pub sound : all chaos_holds s.chaos_players ≡ true

pub score_up_bounds :
    (points score : ℤ)
    → pos 0 ≤ℤ points
    → pos 300 ≤ℤ score
    → (pos 300 ≤ℤ score_up points score) × (score_up points score ≤ℤ pos 850)
score_up_bounds points score h k = (
  min_ℤ_above (pos 300) (pos 850) (score +ℤ points) (omega arith) (omega int_laws),
  (min_ℤ_bounds (pos 850) (score +ℤ points)).0,
)

pub score_down_bounds :
    (points score : ℤ)
    → pos 0 ≤ℤ points
    → score ≤ℤ pos 850
    → (pos 300 ≤ℤ score_down points score) × (score_down points score ≤ℤ pos 850)
score_down_bounds points score h k = (
  (max_ℤ_bounds (pos 300) (score -ℤ points)).0,
  max_ℤ_below (pos 300) (score -ℤ points) (pos 850) (omega arith) (omega int_laws),
)
