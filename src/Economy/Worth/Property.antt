-- ===== src/Economy/Worth/Property.antt =====
-- The level of property that is recalculated.
use routine_linux_edition.Base.{
  ℕ, ◌≤◌, ◌≡◌, inl, inr, ◌⊎◌, false, List, [], ◌∷◌, arith, All, if◌then◌else◌,
}
use routine_linux_edition.Base.Bytes.{Bytes}
use routine_linux_edition.Base.Dict.{at, dict_laws}
use routine_linux_edition.Economy.State.{Store, new_chaos_player, PropertyAsset}
use routine_linux_edition.Economy.Accounts.{key_for, max_ℕ}
use routine_linux_edition.Economy.Worth.{owned_by, level_from, recalculate_property_level}

abbrev pub IsTopped : Bytes → Bytes → ℕ → PropertyAsset → Type 0
IsTopped guild_id user_id level p = (owned_by guild_id user_id p ≡ false) ⊎ (p.tier ≤ level)

level_from_more :
    (guild_id user_id : Bytes) (properties : List PropertyAsset) (level : ℕ)
    → level ≤ level_from guild_id user_id properties level
unfolding level_from
level_from_more guild_id user_id [] level = omega arith
level_from_more guild_id user_id (p ∷ properties) level =
    let next = if owned_by guild_id user_id p then max_ℕ level p.tier else level in
    let step : level ≤ next = ground arith in
    omega (arith, step, level_from_more guild_id user_id properties next)

level_from_tops :
    (guild_id user_id : Bytes) (properties : List PropertyAsset) (level : ℕ)
    → All (IsTopped guild_id user_id (level_from guild_id user_id properties level)) properties
unfolding level_from
level_from_tops guild_id user_id [] level = tt
level_from_tops guild_id user_id (p ∷ properties) level =
    let next = if owned_by guild_id user_id p then max_ℕ level p.tier else level in
    let more = level_from_more guild_id user_id properties next in
    let step : IsTopped guild_id user_id next p = ground arith in
    (
      elim step [ inl other ↦ inl other | inr top ↦ inr (omega (arith, top, more)) ],
      level_from_tops guild_id user_id properties next,
    )

-- After the property level of a player is recalculated, no property that the player owns in the
-- server has a higher tier.
pub recalculate_property_level_tops :
    (s : Store) (guild_id user_id : Bytes)
    → All
        (IsTopped guild_id user_id
          (at new_chaos_player
            (key_for guild_id user_id)
            (recalculate_property_level s guild_id user_id).chaos_players).property_level)
        s.properties
unfolding recalculate_property_level
recalculate_property_level_tops s guild_id user_id =
    simp dict_laws (level_from_tops guild_id user_id s.properties 0)
