-- ===== src/Economy/Transfer/Moves.antt =====
-- What a transfer does on each of its branches.
use mathlib.Core.Bool.{false≢true}
use routine_linux_edition.Base.{
  ◌≡◌, refl, sym, ◌∙◌, ◌≢◌, inl, inr, Bool, arith, Bool-cases, if◌then◌else◌,
}
use routine_linux_edition.Base.Int.{ℤ}
use routine_linux_edition.Base.Bytes.{Bytes, bytes_eq, bytes_eq_iff}
use routine_linux_edition.Base.Dict.{
  Dict, lookup, insert, erase, ensure, restore, at, is_none, dict_laws,
}
use routine_linux_edition.Economy.Status.{
  invalid_argument, insufficient_funds, self_transfer, storage_error,
}
use routine_linux_edition.Economy.State.{
  Store, new_global_player, new_guild_dynamics, new_guild_settings,
}
use routine_linux_edition.Economy.Accounts.{key_for, player_at, ensure_player}
use routine_linux_edition.Economy.Accounts.Keys.{key_for_users, at-ensure_player}
use routine_linux_edition.Economy.Ledger.{forget}
use routine_linux_edition.Economy.Ledger.Rollback.{
  Undone, Undone-refl, IsAtomic, done, undone, if-IsAtomic, forget-Undone, at-reinserted,
}
use routine_linux_edition.Economy.Transfer.{transferred, untransferred, economy_transfer}

-- Two entries that were made for a call are taken out again.
lookup-forgotten_both :
    {V : Type 0} (f g : V) (j k l : Bytes) (d : Dict V)
    → k ≢ l
    → let entered = ensure g l (ensure f k d) in
      let one = if is_none (lookup k d) then erase k entered else entered in
      lookup j (if is_none (lookup l (ensure f k d)) then erase l one else one) ≡ lookup j d
lookup-forgotten_both f g j k l d ne =
    simp dict_laws (ground (arith, bytes_eq_iff j k, bytes_eq_iff j l, bytes_eq_iff l k))

-- Two entries that were made or changed are put back.
lookup-restored_both :
    {V : Type 0} (f g v w : V) (j k l : Bytes) (d : Dict V)
    → k ≢ l
    → let entered = ensure g l (ensure f k d) in
      lookup j (
        restore
          (is_none (lookup l (ensure f k d)))
          l
          (at g l (ensure f k d))
          (restore (is_none (lookup k d)) k (at f k d) (insert l w (insert k v entered))))
      ≡ lookup j d
lookup-restored_both f g v w j k l d ne =
    simp dict_laws (ground (arith, bytes_eq_iff j k, bytes_eq_iff j l, bytes_eq_iff l k))

-- Of users the source looks at the table from before both changes.
lookup-restored_users :
    {V : Type 0} (f v w : V) (j k l : Bytes) (d : Dict V)
    → lookup j (
        restore
          (is_none (lookup l d))
          l
          (at f l d)
          (restore (is_none (lookup k d)) k (at f k d) (insert l w (insert k v d))))
      ≡ lookup j d
lookup-restored_users f v w j k l d =
    simp dict_laws (ground (arith, bytes_eq_iff j k, bytes_eq_iff j l, bytes_eq_iff l k))

module _ (s : Store) (guild_id from_user to_user : Bytes) (ne : from_user ≢ to_user) where
  keys_differ : key_for guild_id from_user ≢ key_for guild_id to_user
  keys_differ e = ne (key_for_users guild_id from_user to_user e)

  abbrev placed : Store
  placed = ensure_player (ensure_player s guild_id from_user) guild_id to_user

  abbrev SettingsTwice : Type 0
  SettingsTwice =
      (j : Bytes) → at new_guild_settings j placed.settings ≡ at new_guild_settings j s.settings

  settings_kept_twice : SettingsTwice
  settings_kept_twice j =
      at-ensure_player (ensure_player s guild_id from_user) guild_id to_user j
      ∙ at-ensure_player s guild_id from_user j

  forget_both-Undone : Undone s (
      forget
        (is_none (lookup (key_for guild_id to_user) (ensure_player s guild_id from_user).players))
        (key_for guild_id to_user)
        (forget
          (is_none (lookup (key_for guild_id from_user) s.players))
          (key_for guild_id from_user)
          placed))
  unfolding ensure_player
  forget_both-Undone = record {
    players_kept = λ j.
        lookup-forgotten_both _ _ j (key_for guild_id from_user) (key_for guild_id to_user)
          s.players keys_differ;
    users_kept = λ j. refl;
    dynamics_kept = λ j. refl;
    settings_kept = settings_kept_twice;
    rest_kept = refl;
  }

  untransferred-Undone :
      (amount clock clock' : ℤ)
      → Undone s (
          untransferred s guild_id from_user to_user
            (transferred s guild_id from_user to_user amount clock clock'))
  unfolding untransferred transferred ensure_player player_at
  untransferred-Undone amount clock clock' = record {
    players_kept = λ j.
        lookup-restored_both _ _ _ _ j (key_for guild_id from_user) (key_for guild_id to_user)
          s.players keys_differ;
    users_kept =
        λ j. lookup-restored_users new_global_player _ _ j from_user to_user s.global_players;
    dynamics_kept = λ j. at-reinserted new_guild_dynamics _ j guild_id s.dynamics;
    settings_kept = settings_kept_twice;
    rest_kept = refl;
  }

-- A transfer answers OK, or every lookup of a player and of a user, and the counters and settings
-- of every server, are what they were, and all else is untouched: whichever test refuses it, and
-- also when it cannot be saved.
pub economy_transfer-IsAtomic :
    (s : Store) (guild_id from_user to_user : Bytes) (amount clock clock' : ℤ) (written : Bool)
    → IsAtomic s (economy_transfer s guild_id from_user to_user amount clock clock' written)
unfolding economy_transfer
economy_transfer-IsAtomic s guild_id from_user to_user amount clock clock' written =
    elim (Bool-cases (bytes_eq from_user to_user)) [
      | inl same ↦ rw same (
          if-IsAtomic s _ (undone invalid_argument s (Undone-refl s))
            (undone self_transfer s (Undone-refl s)))
      | inr other ↦
          let ne : from_user ≢ to_user =
            λ e. false≢true (sym other ∙ (bytes_eq_iff from_user to_user).1 e) in
          rw other (
            if-IsAtomic s _ (undone invalid_argument s (Undone-refl s)) (
              if-IsAtomic s _ (undone invalid_argument _ (forget-Undone s guild_id from_user)) (
                if-IsAtomic s _ (undone insufficient_funds _ (forget-Undone s guild_id from_user)) (
                  if-IsAtomic s _
                    (undone invalid_argument _ (forget_both-Undone s guild_id from_user to_user ne))
                    (if-IsAtomic s _
                      (done (transferred s guild_id from_user to_user amount clock clock'))
                      (undone storage_error _ (
                        untransferred-Undone s guild_id from_user to_user ne amount clock
                          clock')))))))
    ]
