-- ===== src/Kernel/Message/Chunks.antt =====
-- What the loop over the whole message produces.
use mathlib.Core.List.{flatten}
use routine_linux_edition.Base.{
  ℕ, zero, suc, ◌+◌, ◌-◌, ◌≤◌, ◌<◌, ◌≡◌, refl, sym, inl, inr, List, [], ◌∷◌, ◌++◌, some, false,
  arith, Bool-cases, ltb, ltb→le, length, take, drop, All, length-take, length-drop,
  append-take-drop, append-nil, ◌==◌, tests,
}
use routine_linux_edition.Base.Bytes.{Bytes}
use routine_linux_edition.Kernel.Message.{
  next_split, substr, last_chunk, split_loop, split_discord_message,
}
use routine_linux_edition.Kernel.Message.Boundary.{next_split_lem}

-- Chunks that make up a text, none empty and none above the limit.
abbrev pub Cuts : ℕ → Bytes → List Bytes → Type 0
Cuts m content chunks =
    (flatten chunks ≡ content) × All (λ (c : Bytes). (0 < length c) × (length c ≤ m)) chunks

take-drop-append :
    (content : Bytes) (o n split : ℕ)
    → o + n ≡ split
    → take n (drop o content) ++ drop split content ≡ drop o content
take-drop-append content zero n split e =
    let same : split ≡ n = omega arith in rw same (append-take-drop n content)
take-drop-append [] (suc o) zero split e = nothing split
  where
    nothing : (k : ℕ) → drop {A = ℕ} k [] ≡ []
    nothing zero = refl
    nothing (suc k) = refl
take-drop-append [] (suc o) (suc n) split e = nothing split
  where
    nothing : (k : ℕ) → drop {A = ℕ} k [] ≡ []
    nothing zero = refl
    nothing (suc k) = refl
take-drop-append (b ∷ content) (suc o) n zero e = absurd (omega arith)
take-drop-append (b ∷ content) (suc o) n (suc split) e =
    take-drop-append content o n split (omega arith)

drop_past : (content : Bytes) (o : ℕ) → length content ≤ o → drop o content ≡ []
drop_past [] zero h = refl
drop_past [] (suc o) h = refl
drop_past (b ∷ content) zero h = absurd (omega arith)
drop_past (b ∷ content) (suc o) h = drop_past content o (omega arith)

last_chunk-Cuts :
    (content : Bytes) (m offset : ℕ)
    → length content - offset ≤ m
    → Cuts m (drop offset content) (last_chunk content offset)
unfolding flatten
last_chunk-Cuts content m offset h = elim (Bool-cases (ltb offset (length content))) [
  | inl some_left ↦ rw some_left (
    append-nil (drop offset content),
    ((omega (tests, length-drop offset content), omega (arith, length-drop offset content)), tt),
  )
  | inr none_left ↦ rw none_left (sym (drop_past content offset (ltb→le _ _ none_left)), tt)
]

first_sized :
    (content : Bytes) (m offset split : ℕ)
    → split ≤ length content
    → offset < split
    → split ≤ offset + m
    → (0 < length (substr content offset (split - offset)))
      × (length (substr content offset (split - offset)) ≤ m)
first_sized content m offset split h k l =
    let left = length-drop offset content in
    let size = length-take (split - offset) (drop offset content) (omega (arith, left)) in
    (omega (arith, size), omega (arith, size))

-- With fuel above the bytes left the loop ends, and its chunks make up the rest of the message.
pub split_loop-Cuts :
    (fuel : ℕ) (content : Bytes) (m offset : ℕ)
    → 0 < m
    → offset ≤ length content
    → length content - offset < fuel
    → (chunks : List Bytes) × (split_loop fuel content m offset ≡ some chunks)
      × Cuts m (drop offset content) chunks
unfolding split_loop flatten
split_loop-Cuts zero content m offset h k l = absurd (omega arith)
split_loop-Cuts (suc fuel) content m offset h k l =
    elim (Bool-cases (ltb m (length content - offset))) [
      | inl more ↦
          let split = next_split content m offset in
          let step = next_split_lem content m offset h in
          let (chunks, e, cuts) =
            split_loop-Cuts fuel content m split h (omega (tests, step.1))
              (omega (tests, step.0)) in
          (
            substr content offset (split - offset) ∷ chunks,
            rw (more, e),
            (
              rw (cuts.0)
                  (take-drop-append content offset (split - offset) split (omega (arith, step.0))),
              (first_sized content m offset split (omega (tests, step.1)) step.0 step.1, cuts.1),
            ),
          )
      | inr done ↦
          (last_chunk content offset, rw done, last_chunk-Cuts content m offset (ltb→le _ _ done))
    ]

-- For every limit above zero the cutting of a message ends; its chunks put together are the
-- message, none is empty, and none is longer than the limit.
pub split_discord_message-Cuts :
    (content : Bytes) (m : ℕ)
    → 0 < m
    → (chunks : List Bytes) × (split_discord_message content m ≡ some chunks)
      × Cuts m content chunks
unfolding split_discord_message flatten
split_discord_message-Cuts [] m h = ([], refl, (refl, tt))
split_discord_message-Cuts (b ∷ content) zero h = absurd (omega arith)
split_discord_message-Cuts (b ∷ content) (suc m) h =
    let above_zero : suc m == 0 ≡ false = ground arith in
    rw above_zero (
      split_loop-Cuts (suc (length (b ∷ content))) (b ∷ content) (suc m) 0 h (omega arith)
        (omega arith))
