-- ===== src/Base/Bytes.antt =====
-- std::string as the list of its bytes.
use Prim.Native.Char.{code}
use Prim.Native.String.{String}
use routine_linux_edition.Base.{
  ℕ, ◌≡◌, refl, ◌↔◌, Bool, true, false, ◌&&◌, List, [], ◌∷◌, ◌++◌, arith, ◌==◌, ltb, ◌||◌,
}

abbrev pub Bytes : Type 0
Bytes = List ℕ

-- The bytes of an ASCII literal.
abbrev pub bytes : String → Bytes
bytes String.[] = []
bytes (String.◌∷◌ c s) = code c ∷ bytes s

-- std::string::empty
abbrev pub is_empty : Bytes → Bool
is_empty [] = true
is_empty (_ ∷ _) = false

-- operator== on std::string
unfoldable pub bytes_eq : Bytes → Bytes → Bool
bytes_eq [] [] = true
bytes_eq [] (b ∷ t) = false
bytes_eq (a ∷ s) [] = false
bytes_eq (a ∷ s) (b ∷ t) = a == b && bytes_eq s t

-- s.compare(0, p.size(), p) == 0
unfoldable pub starts_with : Bytes → Bytes → Bool
starts_with [] t = true
starts_with (a ∷ s) [] = false
starts_with (a ∷ s) (b ∷ t) = a == b && starts_with s t

pub bytes_eq_self : (a : Bytes) → bytes_eq a a ≡ true
unfolding bytes_eq
bytes_eq_self [] = refl
bytes_eq_self (a ∷ s) = ground (arith, bytes_eq_self s)

pub bytes_eq→eq : (a b : Bytes) → bytes_eq a b ≡ true → a ≡ b
unfolding bytes_eq
bytes_eq→eq [] [] h = refl
bytes_eq→eq [] (b ∷ t) h = cc
bytes_eq→eq (a ∷ s) [] h = cc
bytes_eq→eq (a ∷ s) (b ∷ t) h = ground (arith, bytes_eq→eq s t)

-- Equality of texts as the tactics want it.
pub bytes_eq_iff : (a b : Bytes) → (bytes_eq a b ≡ true) ↔ (a ≡ b)
bytes_eq_iff a b = (bytes_eq→eq a b, λ e. rw e (bytes_eq_self b))

pub starts_with-append : (p s : Bytes) → starts_with p (p ++ s) ≡ true
unfolding starts_with
starts_with-append [] s = refl
starts_with-append (a ∷ p) s = ground (arith, starts_with-append p s)

-- operator< on std::string
unfoldable pub bytes_less : Bytes → Bytes → Bool
bytes_less a [] = false
bytes_less [] (b ∷ t) = true
bytes_less (a ∷ s) (b ∷ t) = ltb a b || (a == b && bytes_less s t)

pub bytes_less_irrefl : (s : Bytes) → bytes_less s s ≡ false
unfolding bytes_less
bytes_less_irrefl [] = refl
bytes_less_irrefl (a ∷ s) = ground (arith, bytes_less_irrefl s)

pub bytes_less_trans :
    (r s t : Bytes) → bytes_less r s ≡ true → bytes_less s t ≡ true → bytes_less r t ≡ true
unfolding bytes_less
bytes_less_trans r s [] h k = cc
bytes_less_trans r [] (c ∷ t) h k = cc
bytes_less_trans [] (b ∷ s) (c ∷ t) h k = refl
bytes_less_trans (a ∷ r) (b ∷ s) (c ∷ t) h k = ground (arith, bytes_less_trans r s t)
