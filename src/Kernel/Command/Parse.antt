-- ===== src/Kernel/Command/Parse.antt =====
-- What a user typed, taken apart: the prefix, the command and its arguments.
use routine_linux_edition.Base.{
  ℕ, ◌<◌, ◌≡◌, refl, ap, ◌≢◌, Bool, true, false, not, ◌||◌, [], ◌∷◌, ◌++◌, map, arith, Bool-cases,
  inl, inr, length, drop, All, length-append, leb,
}
use routine_linux_edition.Base.Bytes.{Bytes, is_empty, starts_with, starts_with-append}
use routine_linux_edition.Kernel.Command.{
  is_separator, tolower, until_separator, from_separator, skip_separators, split_command,
  parse_prefixed_command,
}

-- No separator among the bytes.
abbrev pub IsWord : Bytes → Type 0
IsWord s = All (λ (c : ℕ). is_separator c ≡ false) s

-- A text that a separator does not begin.
abbrev pub StartsClean : Bytes → Type 0
StartsClean [] = Unit
StartsClean (c ∷ s) = is_separator c ≡ false

drop-append : (p s : Bytes) → drop (length p) (p ++ s) ≡ s
drop-append [] s = refl
drop-append (c ∷ p) s = drop-append p s

until_separator-word :
    (w : Bytes) (sep : ℕ) (s : Bytes)
    → IsWord w
    → is_separator sep ≡ true
    → until_separator (w ++ sep ∷ s) ≡ w
unfolding until_separator
until_separator-word [] sep s h k = rw k
until_separator-word (c ∷ w) sep s h k = rw h.0 (ap (◌∷◌ c) (until_separator-word w sep s h.1 k))

from_separator-word :
    (w : Bytes) (sep : ℕ) (s : Bytes)
    → IsWord w
    → is_separator sep ≡ true
    → from_separator (w ++ sep ∷ s) ≡ sep ∷ s
unfolding from_separator
from_separator-word [] sep s h k = rw k
from_separator-word (c ∷ w) sep s h k = rw h.0 (from_separator-word w sep s h.1 k)

skip_separators-clean : (s : Bytes) → StartsClean s → skip_separators s ≡ s
unfolding skip_separators
skip_separators-clean [] h = refl
skip_separators-clean (c ∷ s) h = rw h

split_command-word :
    (y : ℕ) (word : Bytes) (sep : ℕ) (arguments : Bytes)
    → IsWord (y ∷ word)
    → is_separator sep ≡ true
    → StartsClean arguments
    → split_command ((y ∷ word) ++ sep ∷ arguments)
      ≡ record { found = true; command = map tolower (y ∷ word); arguments = arguments }
unfolding split_command skip_separators
split_command-word y word sep arguments w k c =
    rw
      (
        until_separator-word (y ∷ word) sep arguments w k,
        from_separator-word (y ∷ word) sep arguments w k,
      )
      (rw k (
        ap (λ rest. record { found = true; command = map tolower (y ∷ word); arguments = rest })
          (skip_separators-clean arguments c)))

past_prefix : (p : Bytes) (c : ℕ) (s : Bytes) → leb (length (p ++ c ∷ s)) (length p) ≡ false
past_prefix p c s = ground (arith, length-append p (c ∷ s))

-- A prefix that is not empty, a word that is not empty and holds no separator, a separator and
-- arguments that no separator begins are taken apart again, with the word in lower case.
pub parse_prefixed_command-append :
    (prefix word : Bytes) (sep : ℕ) (arguments : Bytes)
    → prefix ≢ []
    → word ≢ []
    → IsWord word
    → is_separator sep ≡ true
    → StartsClean arguments
    → parse_prefixed_command (prefix ++ (word ++ sep ∷ arguments)) prefix
      ≡ record { found = true; command = map tolower word; arguments = arguments }
unfolding parse_prefixed_command
parse_prefixed_command-append [] word sep arguments p w iw k c = absurd (p refl)
parse_prefixed_command-append (x ∷ prefix) [] sep arguments p w iw k c = absurd (w refl)
parse_prefixed_command-append (x ∷ prefix) (y ∷ word) sep arguments p w iw k c =
    let rest = (y ∷ word) ++ sep ∷ arguments in
    rw
      (
        past_prefix (x ∷ prefix) y (word ++ sep ∷ arguments),
        starts_with-append (x ∷ prefix) rest,
        drop-append prefix rest,
      )
      (split_command-word y word sep arguments iw k c)

tolower-word : (c : ℕ) → is_separator c ≡ false → is_separator (tolower c) ≡ false
unfolding is_separator tolower
tolower-word c h = ground arith

until_separator-IsWord : (s : Bytes) → IsWord (map tolower (until_separator s))
unfolding until_separator
until_separator-IsWord [] = tt
until_separator-IsWord (c ∷ s) = elim (Bool-cases (is_separator c)) [
  | inl e ↦ rw e tt
  | inr e ↦ rw e (tolower-word c e, until_separator-IsWord s)
]

-- Where a command is found, the message begins with the prefix and is longer, the prefix is not
-- empty, and the command is not empty and holds no separator.
pub parse_prefixed_command_found :
    (content prefix : Bytes)
    → (parse_prefixed_command content prefix).found ≡ true
    → (starts_with prefix content ≡ true)
      × (length prefix < length content)
      × (is_empty prefix ≡ false)
      × (is_empty (parse_prefixed_command content prefix).command ≡ false)
      × IsWord (parse_prefixed_command content prefix).command
unfolding parse_prefixed_command split_command
parse_prefixed_command_found content prefix h = elim (Bool-cases guard) [
  | inl e ↦ absurd (ground arith)
  | inr e ↦ (
    ground arith,
    ground arith,
    ground arith,
    ground arith,
    rw e (until_separator-IsWord (drop (length prefix) content)),
  )
]
  where
    guard : Bool
    guard =
        is_empty prefix
        || (leb (length content) (length prefix) || not (starts_with prefix content))
