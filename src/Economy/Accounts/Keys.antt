-- ===== src/Economy/Accounts/Keys.antt =====
-- Keys of players, and what entering a player does to the table.
use routine_linux_edition.Base.{
  ℕ, ◌+◌, ◌≤◌, ◌<◌, ◌≡◌, refl, ◌↔◌, true, [], ◌∷◌, ◌++◌, some, arith, All, length, if◌then◌else◌,
}
use routine_linux_edition.Base.Bytes.{Bytes, bytes_eq}
use routine_linux_edition.Base.Dict.{lookup, at, at-ensure, lookup-ensure}
use routine_linux_edition.Economy.State.{Store, new_guild_settings}
use routine_linux_edition.Economy.Accounts.{
  separator, key_for, digits_from, valid_id, fresh_player, player_at, ensure_player,
}

abbrev IsDigits : Bytes → Type 0
IsDigits s = All (λ (c : ℕ). (b'0' ≤ c) × (c ≤ b'9')) s

-- A text of 1 to 31 decimal digits.
abbrev pub IsId : Bytes → Type 0
IsId s = (0 < length s) × (length s ≤ 31) × IsDigits s

digits_from_lem :
    (n : ℕ) (s : Bytes)
    → n ≤ 31
    → digits_from n s ≡ true
    → (0 < n + length s) × (n + length s ≤ 31) × IsDigits s
unfolding digits_from
digits_from_lem n [] k h = (ground arith, ground arith, tt)
digits_from_lem n (c ∷ s) k h = ground (arith, digits_from_lem (n + 1) s)

digits_from-IsDigits :
    (n : ℕ) (s : Bytes) → 0 < n + length s → n + length s ≤ 31 → IsDigits s → digits_from n s ≡ true
unfolding digits_from
digits_from-IsDigits n [] k l h = ground arith
digits_from-IsDigits n (c ∷ s) k l h = ground (arith, digits_from-IsDigits (n + 1) s)

-- The check of an id admits the texts of 1 to 31 decimal digits, and no others.
pub valid_id_iff : (s : Bytes) → (valid_id s ≡ true) ↔ IsId s
unfolding valid_id
valid_id_iff s = (
  λ h. let d = digits_from_lem 0 s (omega arith) h in (omega (arith, d.0), omega (arith, d.1), d.2),
  λ h. digits_from-IsDigits 0 s (omega (arith, h.0)) (omega (arith, h.1)) h.2,
)

split_unique :
    (g u h v : Bytes)
    → IsDigits g
    → IsDigits h
    → g ++ separator ∷ u ≡ h ++ separator ∷ v
    → (g ≡ h) × (u ≡ v)
split_unique [] u [] v a b e = (refl, cc)
split_unique [] u (c ∷ h) v a b e = absurd (ground arith)
split_unique (c ∷ g) u [] v a b e = absurd (ground arith)
split_unique (c ∷ g) u (d ∷ h) v a b e =
    let rest = split_unique g u h v a.1 b.1 (cc) in (cc rest.0, rest.1)

-- Where two keys of players in servers with valid ids are the same, the servers and the users are.
pub key_for_injective :
    (g u h v : Bytes)
    → valid_id g ≡ true
    → valid_id h ≡ true
    → key_for g u ≡ key_for h v
    → (g ≡ h) × (u ≡ v)
unfolding key_for
key_for_injective g u h v a b e =
    split_unique g u h v ((valid_id_iff g).0 a).2 ((valid_id_iff h).0 b).2 e

pub key_for_users : (g u v : Bytes) → key_for g u ≡ key_for g v → u ≡ v
unfolding key_for
key_for_users [] u v e = cc
key_for_users (c ∷ g) u v e = key_for_users g u v (cc)

-- A player that is looked up behind the entry is there.
pub lookup-ensure_player :
    (s : Store) (g u j : Bytes)
    → lookup j (ensure_player s g u).players
      ≡ (if bytes_eq j (key_for g u) then some (player_at s g u) else lookup j s.players)
unfolding ensure_player player_at
lookup-ensure_player s g u j = lookup-ensure (fresh_player s g) j (key_for g u) s.players

-- No setting changes its value.
pub at-ensure_player :
    (s : Store) (g u j : Bytes)
    → at new_guild_settings j (ensure_player s g u).settings ≡ at new_guild_settings j s.settings
unfolding ensure_player
at-ensure_player s g u j = ground (arith, at-ensure new_guild_settings j g s.settings)
