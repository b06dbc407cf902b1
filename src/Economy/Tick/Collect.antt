-- ===== src/Economy/Tick/Collect.antt =====
-- What an autopay takes from a player.
use routine_linux_edition.Base.{◌≡◌}
use routine_linux_edition.Base.Int.{
  ℤ, pos, ◌+ℤ◌, ◌-ℤ◌, ◌≤ℤ◌, min_ℤ, min_ℤ_bounds, min_ℤ_above, int_laws,
}
use routine_linux_edition.Economy.Status.{maximum_transaction}
use routine_linux_edition.Economy.State.{Player}
use routine_linux_edition.Economy.Tick.{from_checking, from_wallet, collected, charged}

-- The accounts of a player that the checks of the store admit.
abbrev pub IsFunded : Player → Type 0
IsFunded p =
    (pos 0 ≤ℤ p.wallet_cents)
    × (p.wallet_cents ≤ℤ maximum_transaction)
    × (pos 0 ≤ℤ p.checking_cents)
    × (p.checking_cents ≤ℤ maximum_transaction)

module _ (amount : ℤ) (p : Player) (funded : IsFunded p) (h : pos 0 ≤ℤ amount) where
  -- Neither account gives more than it holds.
  shares_lem :
      (pos 0 ≤ℤ from_checking amount p)
      × (from_checking amount p ≤ℤ amount)
      × (from_checking amount p ≤ℤ p.checking_cents)
      × (pos 0 ≤ℤ from_wallet amount p)
      × (from_wallet amount p ≤ℤ amount -ℤ from_checking amount p)
      × (from_wallet amount p ≤ℤ p.wallet_cents)
  unfolding from_checking from_wallet
  shares_lem =
      let (a, _, c, _) = funded in
      let first = min_ℤ_bounds amount p.checking_cents in
      let rest = amount -ℤ min_ℤ amount p.checking_cents in
      let left : pos 0 ≤ℤ rest = omega (int_laws, first.0) in
      let second = min_ℤ_bounds rest p.wallet_cents in
      (
        min_ℤ_above (pos 0) amount p.checking_cents h c,
        first.0,
        first.1,
        min_ℤ_above (pos 0) rest p.wallet_cents left a,
        second.0,
        second.1,
      )

  pub collected_bounds : (pos 0 ≤ℤ collected amount p) × (collected amount p ≤ℤ amount)
  unfolding collected
  collected_bounds = let (a, b, c, d, e, f) = shares_lem in omega int_laws

  pub charged-IsFunded : IsFunded (charged amount p)
  unfolding charged
  charged-IsFunded =
      let (a, b, c, d, e, f) = shares_lem in let (i, j, k, l) = funded in omega int_laws

pub charged_pays :
    (amount : ℤ) (p : Player)
    → (charged amount p).wallet_cents +ℤ (charged amount p).checking_cents +ℤ collected amount p
      ≡ p.wallet_cents +ℤ p.checking_cents
unfolding charged collected
charged_pays amount p = omega int_laws
