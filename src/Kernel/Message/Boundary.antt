-- ===== src/Kernel/Message/Boundary.antt =====
-- Where a chunk may end.
use routine_linux_edition.Base.{
  ℕ, zero, suc, ◌+◌, ◌-◌, ◌≤◌, ◌<◌, ◌≡◌, refl, ◌⊎◌, inl, inr, true, false, some, none, arith,
  Bool-cases, Option, ◌==◌, ==→eq, leb, leb→le, ◌/◌,
}
use routine_linux_edition.Base.Bytes.{Bytes}
use routine_linux_edition.Kernel.Message.{
  byte_at, is_utf8_continuation, rfind, back_up, hard_boundary, choose_break, next_split,
}

-- What a search to the left finds is the byte, and stands not behind the start of the search.
pub rfind_found :
    (c : ℕ) (content : Bytes) (p at : ℕ)
    → rfind c content p ≡ some at
    → (at ≤ p) × (byte_at content at ≡ c)
unfolding rfind
rfind_found c content zero at h = ground arith
rfind_found c content (suc p) at h = ground (arith, rfind_found c content p at)

pub back_up_bounds :
    (content : Bytes) (offset d : ℕ)
    → (offset ≤ back_up content offset d) × (back_up content offset d ≤ offset + d)
unfolding back_up
back_up_bounds content offset zero = omega arith
back_up_bounds content offset (suc d) = ground (arith, back_up_bounds content offset d)

-- The loop stops at a byte that starts a character, or at the offset.
pub back_up_stops :
    (content : Bytes) (offset d : ℕ)
    → (back_up content offset d ≡ offset)
      ⊎ (is_utf8_continuation (byte_at content (back_up content offset d)) ≡ false)
unfolding back_up
back_up_stops content offset zero = inl refl
back_up_stops content offset (suc d) =
    elim (Bool-cases (is_utf8_continuation (byte_at content (offset + suc d)))) [
      | inl e ↦ rw e (back_up_stops content offset d)
      | inr e ↦ rw e (inr e)
    ]

-- Only continuation bytes were skipped.
pub back_up_skips :
    (content : Bytes) (offset d i : ℕ)
    → back_up content offset d < i
    → i ≤ offset + d
    → is_utf8_continuation (byte_at content i) ≡ true
unfolding back_up
back_up_skips content offset zero i h k = absurd (omega arith)
back_up_skips content offset (suc d) i h k =
    elim (Bool-cases (is_utf8_continuation (byte_at content (offset + suc d)))) [
      | inl e ↦ elim (Bool-cases (i == offset + suc d)) [
        | inl same ↦ rw (==→eq _ _ same) e
        | inr other ↦ back_up_skips content offset d i (ground arith) (ground arith)
      ]
      | inr e ↦ absurd (ground arith)
    ]

pub hard_boundary_bounds :
    (content : Bytes) (m offset : ℕ)
    → 0 < m
    → (offset < hard_boundary content m offset) × (hard_boundary content m offset ≤ offset + m)
unfolding hard_boundary
hard_boundary_bounds content m offset h = ground (arith, back_up_bounds content offset m)

-- Every byte behind the offset that the limit admits continues a character.
abbrev pub NoStart : Bytes → ℕ → ℕ → Type 0
NoStart content m offset =
    (i : ℕ) → offset < i → i ≤ offset + m → is_utf8_continuation (byte_at content i) ≡ true

hard_boundary_starts :
    (content : Bytes) (m offset : ℕ)
    → (is_utf8_continuation (byte_at content (hard_boundary content m offset)) ≡ false)
      ⊎ ((hard_boundary content m offset ≡ offset + m) × NoStart content m offset)
unfolding hard_boundary
hard_boundary_starts content m offset = elim (Bool-cases (back_up content offset m == offset)) [
  | inl e ↦ inr (rw e, λ i h k. back_up_skips content offset m i (ground arith) k)
  | inr e ↦ elim (back_up_stops content offset m) [
    | inl at_offset ↦ absurd (ground arith)
    | inr starts ↦ inl (rw e starts)
  ]
]

-- A break is the boundary, or stands just behind a byte that was found far enough to the right.
abbrev Found : ℕ → ℕ → Option ℕ → Type 0
Found minimum split found = (at : ℕ) × (found ≡ some at) × (minimum ≤ at) × (split ≡ at + 1)

choose_break_cases :
    (minimum boundary : ℕ) (newline space : Option ℕ)
    → let split = choose_break minimum boundary newline space in
      (split ≡ boundary) ⊎ Found minimum split newline ⊎ Found minimum split space
unfolding choose_break
choose_break_cases minimum boundary none none = inl refl
choose_break_cases minimum boundary none (some s) = elim (Bool-cases (leb minimum s)) [
  | inl e ↦ inr (inr (s, refl, leb→le _ _ e, rw e))
  | inr e ↦ inl (rw e)
]
choose_break_cases minimum boundary (some n) sp = elim (Bool-cases (leb minimum n)) [
  | inl e ↦ inr (inl (n, refl, leb→le _ _ e, rw e))
  | inr e ↦ rw e (no_newline sp)
]
  where
    no_newline :
        (sp : Option ℕ)
        → let split = choose_break minimum boundary none sp in
          (split ≡ boundary) ⊎ Found minimum split (some n) ⊎ Found minimum split sp
    no_newline none = inl refl
    no_newline (some s) = elim (Bool-cases (leb minimum s)) [
      | inl e ↦ inr (inr (s, refl, leb→le _ _ e, rw e))
      | inr e ↦ inl (rw e)
    ]

-- A chunk may end before a byte that starts a character, just behind a newline or a space, or,
-- where no character starts within the limit, at the limit.
abbrev pub IsBreak : Bytes → ℕ → ℕ → ℕ → Type 0
IsBreak content m offset split =
    (is_utf8_continuation (byte_at content split) ≡ false)
    ⊎ ((byte_at content (split - 1) ≡ 0x0a) ⊎ (byte_at content (split - 1) ≡ 0x20))
    ⊎ ((split ≡ offset + m) × NoStart content m offset)

-- A break that was found lies right of the offset and not right of the boundary.
Found-break :
    (c : ℕ) (content : Bytes) (minimum offset boundary split : ℕ)
    → offset ≤ minimum
    → offset < boundary
    → Found minimum split (rfind c content (boundary - 1))
    → (offset < split) × (split ≤ boundary) × (byte_at content (split - 1) ≡ c)
Found-break c content minimum offset boundary split h k (at, found, far, e) =
    let place = rfind_found c content (boundary - 1) at found in
    let back : split - 1 ≡ at = omega arith in (omega arith, omega arith, rw back place.1)

-- With a limit above zero each round of the cutting makes progress, keeps within the limit, and
-- ends the chunk at a break.
pub next_split_lem :
    (content : Bytes) (m offset : ℕ)
    → 0 < m
    → let split = next_split content m offset in
      (offset < split) × (split ≤ offset + m) × IsBreak content m offset split
unfolding next_split
next_split_lem content m offset h =
    let boundary = hard_boundary content m offset in
    let minimum = offset + (boundary - offset) / 2 in
    let newline = rfind 0x0a content (boundary - 1) in
    let space = rfind 0x20 content (boundary - 1) in
    let bounds = hard_boundary_bounds content m offset h in
    elim (choose_break_cases minimum boundary newline space) [
      | inl e ↦ rw e (bounds.0, bounds.1, at_boundary (hard_boundary_starts content m offset))
      | inr (inl found) ↦
          let place =
            Found-break 0x0a content minimum offset boundary _ (omega arith) bounds.0 found in
          (place.0, omega arith, inr (inl (inl place.2)))
      | inr (inr found) ↦
          let place =
            Found-break 0x20 content minimum offset boundary _ (omega arith) bounds.0 found in
          (place.0, omega arith, inr (inl (inr place.2)))
    ]
  where
    at_boundary :
        (is_utf8_continuation (byte_at content (hard_boundary content m offset)) ≡ false)
          ⊎ ((hard_boundary content m offset ≡ offset + m) × NoStart content m offset)
        → IsBreak content m offset (hard_boundary content m offset)
    at_boundary (inl starts) = inl starts
    at_boundary (inr nowhere) = inr (inr nowhere)
