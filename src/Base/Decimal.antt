-- ===== src/Base/Decimal.antt =====
-- Numbers as decimal text: what std::to_string and operator<< print of an unsigned number below
-- 10^20, which every uint64_t is, and what std::stoull reads of a text of digits.
use Prim.Native.Nat.{◌^◌}
use native.Mathlib.Nat.{div-lt_iff_lt-mul, pow-suc}
use routine_linux_edition.Base.{
  ℕ, zero, suc, ◌+◌, ◌-◌, ◌*◌, ◌/◌, ◌%◌, ◌<◌, ◌≤◌, ◌≡◌, refl, Bool, true, false, ◌&&◌, [], ◌∷◌,
  ◌++◌, arith, if◌then◌else◌, if_each, ltb, leb, all,
}
use routine_linux_edition.Base.Bytes.{Bytes, is_empty}

abbrev pub digit : ℕ → ℕ
digit n = b'0' + n

-- The last digits of n, f of them at most.
unfoldable pub digits_of : ℕ → ℕ → Bytes
digits_of zero n = []
digits_of (suc f) n =
    let rest = digits_of f (n / 10) in
    if ltb n 10 then digit n ∷ [] else rest ++ digit (n % 10) ∷ []

unfoldable pub show_ℕ : ℕ → Bytes
show_ℕ n = digits_of 20 n

abbrev pub is_digit : ℕ → Bool
is_digit c = leb b'0' c && leb c b'9'

-- The number that the digits stand for, behind the number a.
unfoldable pub value_from : ℕ → Bytes → ℕ
value_from a [] = a
value_from a (c ∷ s) = value_from (a * 10 + (c - b'0')) s

value_from-append : (a : ℕ) (s t : Bytes) → value_from a (s ++ t) ≡ value_from (value_from a s) t
unfolding value_from
value_from-append a [] t = refl
value_from-append a (c ∷ s) t = value_from-append (a * 10 + (c - b'0')) s t

quotient_fits : (n f : ℕ) → n < 10 ^ suc f → n / 10 < 10 ^ f
quotient_fits n f h = (div-lt_iff_lt-mul (omega arith)).1 (rw (← pow-suc 10 f) h)

pub value_from-digits_of : (f n : ℕ) → n < 10 ^ f → value_from 0 (digits_of f n) ≡ n
unfolding value_from digits_of
value_from-digits_of zero n h = omega arith
value_from-digits_of (suc f) n h =
    let rest = value_from-digits_of f (n / 10) (quotient_fits n f h) in
    if_each (λ (s : Bytes). value_from 0 s ≡ n) (ltb n 10) (digit n ∷ []) _ (λ k. omega arith)
      (λ k.
        rw (value_from-append 0 (digits_of f (n / 10)) (digit (n % 10) ∷ []), rest) (omega arith))

pub all_append :
    (p : ℕ → Bool) (s t : Bytes) → all p s ≡ true → all p t ≡ true → all p (s ++ t) ≡ true
all_append p [] t h k = k
all_append p (c ∷ s) t h k = ground (arith, all_append p s t)

pub digits_of-digits : (f n : ℕ) → all is_digit (digits_of f n) ≡ true
unfolding digits_of
digits_of-digits zero n = refl
digits_of-digits (suc f) n =
    if_each (λ (s : Bytes). all is_digit s ≡ true) (ltb n 10) _ _ (λ k. ground arith)
      (λ k.
        all_append is_digit (digits_of f (n / 10)) _ (digits_of-digits f (n / 10)) (ground arith))

is_empty-snoc : (s : Bytes) (c : ℕ) → is_empty (s ++ c ∷ []) ≡ false
is_empty-snoc [] c = refl
is_empty-snoc (a ∷ s) c = refl

-- No number prints as the empty text.
pub show_ℕ_some : (n : ℕ) → is_empty (show_ℕ n) ≡ false
unfolding show_ℕ digits_of
show_ℕ_some n =
    if_each (λ (s : Bytes). is_empty s ≡ false) (ltb n 10) (digit n ∷ []) _ (λ k. refl)
      (λ k. is_empty-snoc (digits_of 19 (n / 10)) (digit (n % 10)))

-- Below 10 a number is its digit, and below 100 its two digits.
pub digits_of_one : (f n : ℕ) → n < 10 → digits_of (suc f) n ≡ digit n ∷ []
unfolding digits_of
digits_of_one f n h = let small : ltb n 10 ≡ true = ground arith in rw small refl

pub digits_of_two :
    (f n : ℕ) → n < 100 → 10 ≤ n → digits_of (suc (suc f)) n ≡ digit (n / 10) ∷ digit (n % 10) ∷ []
unfolding digits_of
digits_of_two f n h k =
    let large : ltb n 10 ≡ false = ground arith in
    rw (large, digits_of_one f (n / 10) (omega arith)) refl
