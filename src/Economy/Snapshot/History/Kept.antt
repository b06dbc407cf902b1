-- ===== src/Economy/Snapshot/History/Kept.antt =====
-- How much history is kept.
use routine_linux_edition.Base.{
  ℕ, zero, suc, ◌-◌, ◌≤◌, ◌≡◌, refl, Bool, ◌&&◌, List, [], ◌∷◌, ◌++◌, ltb, if◌then◌else◌, if_each,
  if_keeps, length, length-drop, arith, tests,
}
use routine_linux_edition.Base.Int.{ℤ, pos, ◌-ℤ◌, ltb_ℤ}
use routine_linux_edition.Base.Bytes.{Bytes}
use routine_linux_edition.Economy.State.{Store, PlayerHistoryPoint}
use routine_linux_edition.Economy.Snapshot.{calculate_snapshot}
use routine_linux_edition.Economy.Snapshot.History.{
  count, erase_first, erase_times, trimmed, of_guild, latest_of, maximum_history, bounded_history,
  record_snapshot,
}

module _ {ℓ} {A : Type ℓ} (test : A → Bool) where
  count-erase_first : (xs : List A) → count test (erase_first test xs) ≡ count test xs - 1
  unfolding count erase_first
  count-erase_first [] = omega arith
  count-erase_first (x ∷ xs) =
      let ih = count-erase_first xs in
      if_each
        (λ (b : List A). count test b ≡ (if test x then suc (count test xs) else count test xs) - 1)
        (test x) xs (x ∷ erase_first test xs) (λ h. rw h (omega arith)) (λ h. rw h ih)

  count-erase_times : (n : ℕ) (xs : List A) → count test (erase_times test n xs) ≡ count test xs - n
  unfolding erase_times
  count-erase_times zero xs = omega arith
  count-erase_times (suc n) xs =
      omega (arith, count-erase_times n (erase_first test xs), count-erase_first xs)

  pub count-trimmed : (xs : List A) → count test (trimmed test xs) ≤ 168
  unfolding trimmed
  count-trimmed xs = omega (arith, count-erase_times (count test xs - 168) xs)

length-bounded :
    (history : List PlayerHistoryPoint) → length (bounded_history history) ≤ maximum_history
unfolding bounded_history
length-bounded history =
    if_each (λ (h : List PlayerHistoryPoint). length h ≤ maximum_history)
      (ltb maximum_history (length history)) _ _
      (λ h. omega (tests, length-drop (length history - maximum_history) history))
      (λ h. omega tests)

-- When a server has at most 168 snapshots and the history at most 100000 points, both hold after
-- record_snapshot, whether it enters a snapshot or not.
pub record_snapshot_bounds :
    (guild_id : Bytes) (now : ℤ) (s : Store)
    → count (of_guild guild_id) s.snapshots ≤ 168
    → length s.player_history ≤ maximum_history
    → (count (of_guild guild_id) (record_snapshot guild_id now s).1.snapshots ≤ 168)
      × (length (record_snapshot guild_id now s).1.player_history ≤ maximum_history)
unfolding record_snapshot
record_snapshot_bounds guild_id now s h k =
    let latest = latest_of guild_id (pos 0) s.snapshots in
    if_each
      (λ (t : Bool × Store).
        (count (of_guild guild_id) t.1.snapshots ≤ 168)
        × (length t.1.player_history ≤ maximum_history))
      (ltb_ℤ (pos 0) latest && ltb_ℤ (now -ℤ latest) (pos 3_600)) _ _ (λ _. (h, k))
      (λ _. (
        count-trimmed (of_guild guild_id) (s.snapshots ++ calculate_snapshot s guild_id now ∷ []),
        length-bounded _,
      ))

pub record_snapshot-audit :
    (guild_id : Bytes) (now : ℤ) (s : Store) → (record_snapshot guild_id now s).1.audit ≡ s.audit
unfolding record_snapshot
record_snapshot-audit guild_id now s =
    if_keeps (λ (t : Bool × Store). t.1.audit ≡ s.audit)
      (ltb_ℤ (pos 0) (latest_of guild_id (pos 0) s.snapshots)
        && ltb_ℤ (now -ℤ latest_of guild_id (pos 0) s.snapshots) (pos 3_600))
      _ _ refl refl

pub record_snapshot-auctions :
    (guild_id : Bytes) (now : ℤ) (s : Store)
    → (record_snapshot guild_id now s).1.auctions ≡ s.auctions
unfolding record_snapshot
record_snapshot-auctions guild_id now s =
    if_keeps (λ (t : Bool × Store). t.1.auctions ≡ s.auctions)
      (ltb_ℤ (pos 0) (latest_of guild_id (pos 0) s.snapshots)
        && ltb_ℤ (now -ℤ latest_of guild_id (pos 0) s.snapshots) (pos 3_600))
      _ _ refl refl
