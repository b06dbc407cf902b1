-- ===== src/Economy/Tick/Heat.antt =====
-- Jail and heat in economy_tick_all_impl of lib/local_economy_extension.cpp: a term in jail ends, and the
-- heat on a player falls by five a day.
use routine_linux_edition.Base.{
  ℕ, ◌+◌, ◌-◌, ◌*◌, Bool, true, false, ◌&&◌, ◌||◌, List, [], ◌∷◌, ◌==◌, if◌then◌else◌,
}
use routine_linux_edition.Base.Int.{
  ℤ, pos, pos_part, ◌+ℤ◌, ◌-ℤ◌, ◌*ℤ◌, ◌/ℤ◌, leb_ℤ, ltb_ℤ, min_ℤ, is_zero,
}
use routine_linux_edition.Base.Bytes.{Bytes}
use routine_linux_edition.Base.Dict.{Dict}
use routine_linux_edition.Economy.State.{Store, CrimePlayer}
use routine_linux_edition.Economy.Tick.{Ticked, day}
pub mod Again

abbrev pub is_served : ℤ → CrimePlayer → Bool
is_served now c = ltb_ℤ (pos 0) c.jailed_until_unix && leb_ℤ c.jailed_until_unix now

pub released : ℤ → CrimePlayer → CrimePlayer
released now c = if is_served now c then record c { jailed_until_unix = pos 0 } else c

-- The time from which the heat falls.
pub decay_start : ℤ → CrimePlayer → ℤ
decay_start now c =
    if is_zero c.last_heat_decay_unix
    then if ltb_ℤ (pos 0) c.last_crime_unix then c.last_crime_unix else now
    else c.last_heat_decay_unix

pub heat_days : ℤ → CrimePlayer → ℤ
heat_days now c = (now -ℤ decay_start now c) /ℤ day

-- What `days` take from the heat.
pub heat_reduction : ℤ → ℕ → ℕ
heat_reduction days heat = pos_part (min_ℤ (pos heat) (days *ℤ pos 5))

-- The record of a player, and whether it counts as changed. The time from which the heat falls is
-- noted even where it does not.
pub cooled : ℤ → CrimePlayer → Bool × CrimePlayer
cooled now c =
    let days = heat_days now c in
    let start = decay_start now c in
    if c.heat == 0
    then (false, c)
    else if ltb_ℤ (pos 0) days
    then (
      true,
      record c {
        heat = c.heat - heat_reduction days c.heat;
        last_heat_decay_unix = start +ℤ days *ℤ pos day;
      },
    )
    else (false, record c { last_heat_decay_unix = start })

pub cool : ℤ → CrimePlayer → Bool × CrimePlayer
cool now c =
    let (changed, after) = cooled now (released now c) in (is_served now c || changed, after)

unfoldable pub cool_from : ℤ → Dict CrimePlayer → Bool × Dict CrimePlayer
cool_from now [] = (false, [])
cool_from now ((key, c) ∷ players) =
    let (changed, after) = cool now c in
    let (more, rest) = cool_from now players in (changed || more, (key, after) ∷ rest)

unfoldable pub cool_all : ℤ → Store → Ticked
cool_all now s =
    let (changed, players) = cool_from now s.crime_players in
    (changed, record s { crime_players = players })
