-- ===== src/Economy/Claim/Repeat.antt =====
-- The call of claim_impl a second time, within the cooldown.
use routine_linux_edition.Base.{◌≡◌, refl, ap, ◌∙◌, Bool, true, false, arith}
use routine_linux_edition.Base.Int.{ℤ, pos, ◌-ℤ◌, ◌≤ℤ◌, ltb_ℤ, max_ℤ_bounds, eq_of_parts, int_laws}
use routine_linux_edition.Base.Bytes.{Bytes}
use routine_linux_edition.Base.Dict.{lookup-insert_self}
use routine_linux_edition.Economy.Status.{ok, cooldown}
use routine_linux_edition.Economy.State.{Store}
use routine_linux_edition.Economy.Accounts.{player_at}
use routine_linux_edition.Economy.Claim.{
  Draws, daily_accrual, work_shift, last_claim, cooldown_of, elapsed_since,
}
use routine_linux_edition.Economy.Claim.Call.{
  claim_impl, claimed, too_soon, granted, is_cooling, bad_claim,
}

-- A granted claim keeps its time.
last_claim-granted :
    (uniform : Draws) (s : Store) (guild_id user_id : Bytes) (now : ℤ) (daily : Bool)
    → last_claim daily (granted uniform s guild_id user_id now daily).player ≡ now
unfolding granted daily_accrual work_shift
last_claim-granted uniform s guild_id user_id now true = refl
last_claim-granted uniform s guild_id user_id now false = refl

player_at-claimed :
    (uniform : Draws) (s : Store) (guild_id user_id : Bytes) (now : ℤ) (daily : Bool)
    → player_at (claimed uniform s guild_id user_id now daily) guild_id user_id
      ≡ (granted uniform s guild_id user_id now daily).player
unfolding player_at claimed
player_at-claimed uniform s guild_id user_id now daily = simp (lookup-insert_self)

claim-ok :
    (uniform : Draws) (s : Store) (guild_id user_id : Bytes) (now : ℤ) (daily written : Bool)
    → (claim_impl uniform s guild_id user_id now daily written).0.status ≡ ok
    → (bad_claim guild_id user_id now ≡ false)
      × ((claim_impl uniform s guild_id user_id now daily written).1
          ≡ claimed uniform s guild_id user_id now daily)
unfolding claim_impl
claim-ok uniform s guild_id user_id now daily written h = (ground arith, ground arith)

claim-cooling :
    (uniform : Draws) (t : Store) (guild_id user_id : Bytes) (last later : ℤ) (daily written : Bool)
    → last_claim daily (player_at t guild_id user_id) ≡ last
    → bad_claim guild_id user_id later ≡ false
    → is_cooling daily last later ≡ true
    → claim_impl uniform t guild_id user_id later daily written ≡ (
      record {
        status = cooldown;
        award = pos 0;
        remaining = cooldown_of daily -ℤ elapsed_since last later;
      },
      too_soon t guild_id user_id,
    )
unfolding claim_impl
claim-cooling uniform t guild_id user_id last later daily written e good cool = rw (e, good, cool)

good_later :
    (guild_id user_id : Bytes) (now later : ℤ)
    → bad_claim guild_id user_id now ≡ false
    → now ≤ℤ later
    → (bad_claim guild_id user_id later ≡ false) × (ltb_ℤ (pos 0) now ≡ true)
unfolding bad_claim
good_later guild_id user_id now later good k = (ground arith, ground arith)

elapsed_forward : (now later : ℤ) → now ≤ℤ later → elapsed_since now later ≡ later -ℤ now
elapsed_forward now later k =
    let m = max_ℤ_bounds (pos 0) (later -ℤ now) in eq_of_parts _ _ (grind (int_laws, m))

is_cooling-within :
    (daily : Bool) (now later : ℤ)
    → ltb_ℤ (pos 0) now ≡ true
    → ltb_ℤ (elapsed_since now later) (cooldown_of daily) ≡ true
    → is_cooling daily now later ≡ true
unfolding is_cooling
is_cooling-within daily now later h k = rw (h, k)

-- Within the cooldown of a claim that answered OK a further claim of the same kind, in the state
-- that the first one left, is refused with the time that is left.
pub claim_impl_twice :
    (uniform uniform' : Draws) (s : Store) (guild_id user_id : Bytes) (now later : ℤ)
    (daily written written' : Bool)
    → (claim_impl uniform s guild_id user_id now daily written).0.status ≡ ok
    → now ≤ℤ later
    → ltb_ℤ (later -ℤ now) (cooldown_of daily) ≡ true
    → (claim_impl uniform'
        (claim_impl uniform s guild_id user_id now daily written).1
        guild_id
        user_id
        later
        daily
        written').0
      ≡ record { status = cooldown; award = pos 0; remaining = cooldown_of daily -ℤ (later -ℤ now) }
claim_impl_twice uniform uniform' s guild_id user_id now later daily written written' h k l =
    let first = claim-ok uniform s guild_id user_id now daily written h in
    let good = good_later guild_id user_id now later first.0 k in
    let forward = elapsed_forward now later k in
    let last : last_claim daily
          (player_at (claimed uniform s guild_id user_id now daily) guild_id user_id)
        ≡ now =
      ap (last_claim daily) (player_at-claimed uniform s guild_id user_id now daily)
      ∙ last_claim-granted uniform s guild_id user_id now daily in
    let cool : is_cooling daily now later ≡ true =
      is_cooling-within daily now later good.1 (rw forward l) in
    rw first.1 (
      rw (claim-cooling uniform' _ guild_id user_id now later daily written' last good.0 cool)
        (rw forward))
