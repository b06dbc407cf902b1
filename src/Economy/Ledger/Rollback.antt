-- ===== src/Economy/Ledger/Rollback.antt =====
-- The store behind a call that does not answer OK, and its default records.
use routine_linux_edition.Base.{
  ℕ, zero, suc, ◌-◌, ◌≤◌, ◌≡◌, refl, inl, inr, Bool, true, false, arith, tests, Bool-cases,
  Option-cases, if◌then◌else◌, ltb, get_or,
}
use routine_linux_edition.Base.Int.{ℤ}
use routine_linux_edition.Base.Bytes.{Bytes, bytes_eq_iff, bytes_eq_self}
use routine_linux_edition.Base.Dict.{
  Dict, lookup, insert, erase, ensure, restore, at, at-ensure, lookup-restore, is_none,
  lookup-insert, lookup-ensure, lookup-erase,
}
use routine_linux_edition.Economy.Status.{
  Status, ok, invalid_argument, insufficient_funds, storage_error, u32_mod,
}
use routine_linux_edition.Economy.State.{
  Store, Player, new_player, GlobalPlayer, new_global_player, GuildDynamics, new_guild_dynamics,
  new_guild_settings,
}
use routine_linux_edition.Economy.Accounts.{key_for, fresh_player, player_at, ensure_player}
use routine_linux_edition.Economy.Accounts.Keys.{at-ensure_player}
use routine_linux_edition.Economy.Limits.{save_locked}
use routine_linux_edition.Economy.Ledger.{
  Outcome, Slot, slot_key, with_changes, without_changes, commit, forget, economy_move_money,
  economy_buy_item, bad_purchase,
}

-- Every lookup of a player and of a user, and every value of the settings and dynamics of a server,
-- is what it was; all else is untouched.
pub record Undone (s t : Store) : Type 0 where
  pub players_kept : (j : Bytes) → lookup j t.players ≡ lookup j s.players
  pub users_kept : (j : Bytes) → lookup j t.global_players ≡ lookup j s.global_players
  pub dynamics_kept :
      (j : Bytes) → at new_guild_dynamics j t.dynamics ≡ at new_guild_dynamics j s.dynamics
  pub settings_kept :
      (j : Bytes) → at new_guild_settings j t.settings ≡ at new_guild_settings j s.settings
  pub rest_kept :
      record t {
        players = s.players;
        global_players = s.global_players;
        dynamics = s.dynamics;
        settings = s.settings;
      }
      ≡ s

pub Undone-refl : (s : Store) → Undone s s
Undone-refl s = record {
  players_kept = λ j. refl;
  users_kept = λ j. refl;
  dynamics_kept = λ j. refl;
  settings_kept = λ j. refl;
  rest_kept = refl;
}

-- An entry that was made for the call is taken out again.
pub lookup-forgotten :
    {V : Type 0} (default : V) (j k : Bytes) (d : Dict V)
    → lookup j (if is_none (lookup k d) then erase k (ensure default k d) else ensure default k d)
      ≡ lookup j d
lookup-forgotten default j k d = elim (Option-cases (lookup k d)) [
  | inl e ↦ rw e (simp (lookup-erase, lookup-ensure) (ground (arith, bytes_eq_iff j k)))
  | inr (v, e) ↦ rw e (rw lookup-ensure (ground (arith, bytes_eq_iff j k)))
]

pub forget-Undone :
    (s : Store) (g u : Bytes)
    → Undone s
        (forget (is_none (lookup (key_for g u) s.players)) (key_for g u) (ensure_player s g u))
unfolding ensure_player
forget-Undone s g u = record {
  players_kept = λ j. lookup-forgotten (fresh_player s g) j (key_for g u) s.players;
  users_kept = λ j. refl;
  dynamics_kept = λ j. refl;
  settings_kept = at-ensure_player s g u;
  rest_kept = refl;
}

-- What the failed end of a call puts back.
lookup-restored :
    {V : Type 0} (default w v : V) (j k : Bytes) (d : Dict V)
    → lookup j (
        restore
          (is_none (lookup k d))
          k
          (at w k (ensure default k d))
          (insert k v (ensure default k d)))
      ≡ lookup j d
unfolding restore
lookup-restored default w v j k d = elim (Option-cases (lookup k d)) [
  | inl e ↦
      rw e (simp (lookup-erase, lookup-insert, lookup-ensure) (ground (arith, bytes_eq_iff j k)))
  | inr (x, e) ↦
      rw e
        (simp (lookup-insert, lookup-ensure, bytes_eq_self, e) (ground (arith, bytes_eq_iff j k)))
]

-- A value that a statement entered with its default is put back.
at-restored :
    {V : Type 0} (default v : V) (j k : Bytes) (d : Dict V)
    → at default j (insert k (at default k (ensure default k d)) (insert k v (ensure default k d)))
      ≡ at default j d
at-restored default v j k d = simp (lookup-insert, lookup-ensure) (ground (arith, bytes_eq_iff j k))

pub at-reinserted :
    {V : Type 0} (default v : V) (j k : Bytes) (d : Dict V)
    → at default j (insert k (at default k d) (insert k v d)) ≡ at default j d
at-reinserted default v j k d = simp lookup-insert (ground (arith, bytes_eq_iff j k))

abbrev enter : Store → Slot → Store
enter s slot =
    let placed = ensure_player s slot.guild_id slot.user_id in
    record placed { dynamics = ensure new_guild_dynamics slot.guild_id placed.dynamics }

without_changes-Undone :
    (s : Store) (slot : Slot) (p : Player) (d : GuildDynamics) (g : GlobalPlayer)
    → Undone s (without_changes s (enter s slot) slot (with_changes (enter s slot) slot p d g))
unfolding without_changes with_changes ensure_player
without_changes-Undone s slot p d g = record {
  players_kept =
      λ j. lookup-restored (fresh_player s slot.guild_id) new_player p j (slot_key slot) s.players;
  users_kept = λ j. lookup-restore j slot.user_id new_global_player g s.global_players;
  dynamics_kept = λ j. at-restored new_guild_dynamics d j slot.guild_id s.dynamics;
  settings_kept = at-ensure_player s slot.guild_id slot.user_id;
  rest_kept = refl;
}

forget_entered-Undone :
    (s : Store) (slot : Slot)
    → Undone s (forget (is_none (lookup (slot_key slot) s.players)) (slot_key slot) (enter s slot))
unfolding ensure_player
forget_entered-Undone s slot = record {
  players_kept = λ j. lookup-forgotten (fresh_player s slot.guild_id) j (slot_key slot) s.players;
  users_kept = λ j. refl;
  dynamics_kept = λ j. at-ensure new_guild_dynamics j slot.guild_id s.dynamics;
  settings_kept = at-ensure_player s slot.guild_id slot.user_id;
  rest_kept = refl;
}

-- A call answers OK, or leaves the store as it was.
pub data IsAtomic (s : Store) : Outcome → Type 0 where
  done : (t : Store) → IsAtomic s (ok, t)
  undone : (status : Status) (t : Store) → Undone s t → IsAtomic s (status, t)

pub if-IsAtomic :
    (s : Store) (b : Bool) {x y : Outcome}
    → IsAtomic s x
    → IsAtomic s y
    → IsAtomic s (if b then x else y)
if-IsAtomic s true h k = h
if-IsAtomic s false h k = k

pub if_then-IsAtomic :
    (s : Store) (b : Bool) {x y : Outcome}
    → (b ≡ true → IsAtomic s x)
    → IsAtomic s y
    → IsAtomic s (if b then x else y)
if_then-IsAtomic s true h k = h refl
if_then-IsAtomic s false h k = k

commit-IsAtomic :
    (s : Store) (slot : Slot) (p : Player) (d : GuildDynamics) (g : GlobalPlayer) (written : Bool)
    → IsAtomic s (commit s (enter s slot) slot p d g written)
unfolding commit
commit-IsAtomic s slot p d g written =
    let changed = with_changes (enter s slot) slot p d g in
    if-IsAtomic s (save_locked changed written) (done changed)
      (undone storage_error _ (without_changes-Undone s slot p d g))

-- A deposit or withdrawal answers OK, or every lookup of a player and of a user, and the counters
-- and settings of every server, are what they were, and all else is untouched.
pub economy_move_money-IsAtomic :
    (s : Store) (guild_id user_id : Bytes) (amount direction clock : ℤ) (written : Bool)
    → IsAtomic s (economy_move_money s guild_id user_id amount direction clock written)
unfolding economy_move_money
economy_move_money-IsAtomic s guild_id user_id amount direction clock written =
    if-IsAtomic s _ (undone invalid_argument s (Undone-refl s)) (
      if-IsAtomic s _ (undone insufficient_funds _ (forget_entered-Undone s slot))
        (commit-IsAtomic s slot _ _ _ written))
  where
    slot : Slot
    slot = record { guild_id = guild_id; user_id = user_id }

-- What a player who is new holds of an item is nothing.
fresh_holds_nothing :
    (s : Store) (guild_id : Bytes) (i : ℕ) → get_or 0 (fresh_player s guild_id).items i ≡ 0
unfolding fresh_player
fresh_holds_nothing s guild_id zero = refl
fresh_holds_nothing s guild_id (suc zero) = refl
fresh_holds_nothing s guild_id (suc (suc zero)) = refl
fresh_holds_nothing s guild_id (suc (suc (suc i))) = refl

-- Only a player who was there can hold too many of an item, so that no entry is left behind.
placed-Undone :
    (s : Store) (slot : Slot) (i quantity : ℕ)
    → quantity ≤ 100
    → ltb (u32_mod - 1 - quantity) (get_or 0 (player_at s slot.guild_id slot.user_id).items i)
      ≡ true
    → Undone s (ensure_player s slot.guild_id slot.user_id)
unfolding ensure_player player_at
placed-Undone s slot i quantity small full =
    elim (Option-cases (lookup (slot_key slot) s.players)) [
      | inl e ↦
          let nothing = fresh_holds_nothing s slot.guild_id i in
          absurd (omega (tests, nothing, rw (e, player_at) at full))
      | inr (p, e) ↦ record {
        players_kept = λ j. rw lookup-ensure (ground (arith, bytes_eq_iff j (slot_key slot)));
        users_kept = λ j. refl;
        dynamics_kept = λ j. refl;
        settings_kept = at-ensure_player s slot.guild_id slot.user_id;
        rest_kept = refl;
      }
    ]

good_quantity :
    (guild_id user_id : Bytes) (item_index quantity : ℕ) (unit_price : ℤ)
    → bad_purchase guild_id user_id item_index quantity unit_price ≡ false
    → quantity ≤ 100
unfolding bad_purchase
good_quantity guild_id user_id item_index quantity unit_price good = ground arith

-- A purchase answers OK, or every lookup of a player and of a user, and the counters and settings
-- of every server, are what they were, and all else is untouched.
economy_buy_item-IsAtomic :
    (s : Store) (guild_id user_id : Bytes) (item_index quantity : ℕ) (unit_price clock : ℤ)
    (written : Bool)
    → IsAtomic s (economy_buy_item s guild_id user_id item_index quantity unit_price clock written)
unfolding economy_buy_item
economy_buy_item-IsAtomic s guild_id user_id item_index quantity unit_price clock written =
    elim (Bool-cases (bad_purchase guild_id user_id item_index quantity unit_price)) [
      | inl bad ↦ rw bad (undone invalid_argument s (Undone-refl s))
      | inr good ↦ rw good (
          if-IsAtomic s _ (undone insufficient_funds _ (forget-Undone s guild_id user_id)) (
            if_then-IsAtomic s
              (ltb (u32_mod - 1 - quantity)
                (get_or 0 (player_at s guild_id user_id).items item_index))
              (λ full. undone invalid_argument (ensure_player s guild_id user_id) (
                placed-Undone s slot item_index quantity
                  (good_quantity guild_id user_id item_index quantity unit_price good) full))
              (commit-IsAtomic s slot _ _ _ written)))
    ]
  where
    slot : Slot
    slot = record { guild_id = guild_id; user_id = user_id }
