-- ===== src/Economy/Tick/Heat/Again.antt =====
-- A tick that comes again at the same time.
use routine_linux_edition.Base.{
  ◌-◌, ◌≡◌, refl, Bool, true, false, ◌==◌, arith, ltb→lt, if_each, if_keeps,
}
use routine_linux_edition.Base.Int.{
  ℤ, pos, pos_part, ◌+ℤ◌, ◌-ℤ◌, ◌*ℤ◌, ◌/ℤ◌, ◌≤ℤ◌, ltb_ℤ, is_zero, one_part, /ℤ_parts, *ℤ_parts,
  int_laws,
}
use routine_linux_edition.Economy.State.{CrimePlayer}
use routine_linux_edition.Economy.Tick.Heat.{
  is_served, released, decay_start, heat_days, heat_reduction, cooled, cool,
}

-- After whole days are counted less than one is left.
days_counted :
    (now start : ℤ)
    → ltb_ℤ (pos 0) ((now -ℤ (start +ℤ (now -ℤ start) /ℤ 86_400 *ℤ pos 86_400)) /ℤ 86_400) ≡ false
days_counted now start =
    let d = now -ℤ start in
    let days = d /ℤ 86_400 in
    let rest = now -ℤ (start +ℤ days *ℤ pos 86_400) in
    let p = /ℤ_parts d 86_400 in
    let q = *ℤ_parts days 86_400 in
    let r = /ℤ_parts rest 86_400 in
    let e : pos_part (rest /ℤ 86_400) ≡ 0 =
      omega (int_laws, p.0, p.1, q.0, q.1, r.0, r.1, one_part rest, one_part d) in
    ground arith

is_zero_pos : (a : ℤ) → pos 1 ≤ℤ a → is_zero a ≡ false
is_zero_pos a h = ground arith

start_pos :
    (now : ℤ) (c : CrimePlayer)
    → pos 1 ≤ℤ now
    → pos 0 ≤ℤ c.last_heat_decay_unix
    → pos 1 ≤ℤ decay_start now c
unfolding decay_start
start_pos now c h k = ground arith

-- A record whose time is noted, less than a day ago, stays.
cooled_fresh :
    (now : ℤ) (c : CrimePlayer)
    → is_zero c.last_heat_decay_unix ≡ false
    → ltb_ℤ (pos 0) ((now -ℤ c.last_heat_decay_unix) /ℤ 86_400) ≡ false
    → cooled now c ≡ (false, c)
unfolding cooled heat_days decay_start
cooled_fresh now c z f =
    rw (z, f) (if_keeps (λ (p : Bool × CrimePlayer). p ≡ (false, c)) (c.heat == 0) _ _ refl refl)

counted_pos :
    (start days : ℤ)
    → pos 1 ≤ℤ start
    → ltb_ℤ (pos 0) days ≡ true
    → pos 1 ≤ℤ start +ℤ days *ℤ pos 86_400
counted_pos start days h k =
    let less = ltb→lt _ _ k in omega (int_laws, (*ℤ_parts days 86_400).0, (*ℤ_parts days 86_400).1)

cooled_cold : (now : ℤ) (c : CrimePlayer) → c.heat == 0 ≡ true → cooled now c ≡ (false, c)
unfolding cooled
cooled_cold now c h = rw h refl

-- The three ways of a turn.
cooled_ways :
    (P : Bool × CrimePlayer → Type 0) (now : ℤ) (c : CrimePlayer)
    → (c.heat == 0 ≡ true → P (false, c))
    → (ltb_ℤ (pos 0) (heat_days now c) ≡ true
        → P (
          true,
          record c {
            heat = c.heat - heat_reduction (heat_days now c) c.heat;
            last_heat_decay_unix = decay_start now c +ℤ heat_days now c *ℤ pos 86_400;
          },
        ))
    → (ltb_ℤ (pos 0) (heat_days now c) ≡ false
        → P (false, record c { last_heat_decay_unix = decay_start now c }))
    → P (cooled now c)
unfolding cooled
cooled_ways P now c cold counted fresh =
    if_each P (c.heat == 0) _ _ cold
      (λ _. if_each P (ltb_ℤ (pos 0) (heat_days now c)) _ _ counted fresh)

cooled_again :
    (now : ℤ) (c : CrimePlayer)
    → pos 1 ≤ℤ now
    → pos 0 ≤ℤ c.last_heat_decay_unix
    → cooled now (cooled now c).1 ≡ (false, (cooled now c).1)
unfolding heat_days
cooled_again now c h k =
    let start = decay_start now c in
    let begun = start_pos now c h k in
    cooled_ways (λ (p : Bool × CrimePlayer). cooled now p.1 ≡ (false, p.1)) now c
      (cooled_cold now c)
      (λ days.
        cooled_fresh now _ (is_zero_pos _ (counted_pos start _ begun days))
          (days_counted now start))
      (λ days. cooled_fresh now _ (is_zero_pos _ begun) days)

cooled-jailed :
    (now : ℤ) (c : CrimePlayer) → (cooled now c).1.jailed_until_unix ≡ c.jailed_until_unix
cooled-jailed now c =
    cooled_ways (λ (p : Bool × CrimePlayer). p.1.jailed_until_unix ≡ c.jailed_until_unix) now c
      (λ _. refl) (λ _. refl) (λ _. refl)

released_lem :
    (now : ℤ) (c : CrimePlayer)
    → (is_served now (released now c) ≡ false)
      × ((released now c).last_heat_decay_unix ≡ c.last_heat_decay_unix)
unfolding released
released_lem now c =
    if_each
      (λ (r : CrimePlayer).
        (is_served now r ≡ false) × (r.last_heat_decay_unix ≡ c.last_heat_decay_unix))
      (is_served now c) _ _ (λ _. (refl, refl)) (λ out. (out, refl))

-- At a time above zero, where the heat was not last noted before 1970, cooling a player a second
-- time at the same time changes nothing and reports no change.
cool_again :
    (now : ℤ) (c : CrimePlayer)
    → pos 1 ≤ℤ now
    → pos 0 ≤ℤ c.last_heat_decay_unix
    → cool now (cool now c).1 ≡ (false, (cool now c).1)
unfolding cool
cool_again now c h k =
    let r = released now c in
    let (free, last) = released_lem now c in
    let a = (cooled now r).1 in
    let again = cooled_again now r h (rw last k) in
    let out : is_served now a ≡ false = rw (cooled-jailed now r) free in
    let same : released now a ≡ a = unfold released in rw out refl in rw (out, same, again) refl
