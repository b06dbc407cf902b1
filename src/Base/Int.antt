-- ===== src/Base/Int.antt =====
-- Signed integers over the native numbers: the int64_t and int32_t of the source, where no
-- operation overflows (signed overflow has no meaning in C++).
use routine_linux_edition.Base.{
  ℕ, suc, ◌+◌, ◌-◌, ◌*◌, ◌/◌, ◌≤◌, ◌≡◌, ap, ◌⊎◌, Bool, false, arith, ltb, leb, ◌==◌, if◌then◌else◌,
  ltb→lt, ltb→le, leb→le, leb→lt,
}

-- `negsuc n` is -(n + 1).
pub data ℤ : Type 0 where
  pos : ℕ → ℤ
  negsuc : ℕ → ℤ

abbrev pub pos_part : ℤ → ℕ
pos_part (pos n) = n
pos_part (negsuc n) = 0

abbrev pub neg_part : ℤ → ℕ
neg_part (pos n) = 0
neg_part (negsuc n) = suc n

-- a - b, as an integer.
abbrev pub sub_ℕ : ℕ → ℕ → ℤ
sub_ℕ a b = if leb b a then pos (a - b) else negsuc (b - a - 1)

infixl 65 ◌+ℤ◌ ◌-ℤ◌
infixl 70 ◌*ℤ◌ ◌/ℤ◌
infix 50 ◌≤ℤ◌
unfoldable pub ◌+ℤ◌ : ℤ → ℤ → ℤ
a +ℤ b = sub_ℕ (pos_part a + pos_part b) (neg_part a + neg_part b)

unfoldable pub ◌-ℤ◌ : ℤ → ℤ → ℤ
a -ℤ b = sub_ℕ (pos_part a + neg_part b) (neg_part a + pos_part b)

unfoldable pub ◌*ℤ◌ : ℤ → ℤ → ℤ
a *ℤ b =
    sub_ℕ (pos_part a * pos_part b + neg_part a * neg_part b)
      (pos_part a * neg_part b + neg_part a * pos_part b)

-- Division as in C++, towards zero. Every divisor of the source is a positive number.
unfoldable pub ◌/ℤ◌ : ℤ → ℕ → ℤ
a /ℤ n = sub_ℕ (pos_part a / n) (neg_part a / n)

abbrev pub ◌≤ℤ◌ : ℤ → ℤ → Type 0
a ≤ℤ b = pos_part a + neg_part b ≤ pos_part b + neg_part a

abbrev pub ltb_ℤ : ℤ → ℤ → Bool
ltb_ℤ a b = ltb (pos_part a + neg_part b) (pos_part b + neg_part a)

abbrev pub leb_ℤ : ℤ → ℤ → Bool
leb_ℤ a b = leb (pos_part a + neg_part b) (pos_part b + neg_part a)

-- !a
abbrev pub is_zero : ℤ → Bool
is_zero (pos n) = n == 0
is_zero (negsuc n) = false

-- std::max, std::min, std::clamp and std::abs.
unfoldable pub max_ℤ : ℤ → ℤ → ℤ
max_ℤ a b = if ltb_ℤ a b then b else a

unfoldable pub min_ℤ : ℤ → ℤ → ℤ
min_ℤ a b = if ltb_ℤ b a then b else a

unfoldable pub clamp : ℤ → ℤ → ℤ → ℤ
clamp v lo hi = if ltb_ℤ v lo then lo else if ltb_ℤ hi v then hi else v

abbrev pub abs_ℤ : ℤ → ℕ
abs_ℤ a = pos_part a + neg_part a

-- One lemma for each operation lets `omega` work with the operations shut, at any depth.
pub +ℤ_parts :
    (a b : ℤ)
    → pos_part (a +ℤ b) + neg_part a + neg_part b ≡ neg_part (a +ℤ b) + pos_part a + pos_part b
unfolding ◌+ℤ◌
+ℤ_parts a b = ground arith

pub -ℤ_parts :
    (a b : ℤ)
    → pos_part (a -ℤ b) + neg_part a + pos_part b ≡ neg_part (a -ℤ b) + pos_part a + neg_part b
unfolding ◌-ℤ◌
-ℤ_parts a b = ground arith

pub eq_of_parts : (a b : ℤ) → pos_part a + neg_part b ≡ pos_part b + neg_part a → a ≡ b
eq_of_parts a b h = ground arith

-- An equation as `omega` reads it.
pub ends : (a b : ℤ) → a ≡ b → (a ≤ℤ b) × (b ≤ℤ a)
ends a b e = rw e (omega arith, omega arith)

pub max_ℤ_bounds :
    (a b : ℤ) → (a ≤ℤ max_ℤ a b) × (b ≤ℤ max_ℤ a b) × ((max_ℤ a b ≡ a) ⊎ (max_ℤ a b ≡ b))
unfolding max_ℤ
max_ℤ_bounds a b = ground arith

pub min_ℤ_bounds :
    (a b : ℤ) → (min_ℤ a b ≤ℤ a) × (min_ℤ a b ≤ℤ b) × ((min_ℤ a b ≡ a) ⊎ (min_ℤ a b ≡ b))
unfolding min_ℤ
min_ℤ_bounds a b = ground arith

pub min_ℤ_above : (lo a b : ℤ) → lo ≤ℤ a → lo ≤ℤ b → lo ≤ℤ min_ℤ a b
unfolding min_ℤ
min_ℤ_above lo a b h k = ground arith

pub max_ℤ_below : (a b hi : ℤ) → a ≤ℤ hi → b ≤ℤ hi → max_ℤ a b ≤ℤ hi
unfolding max_ℤ
max_ℤ_below a b hi h k = ground arith

pub clamp_bounds : (v lo hi : ℤ) → lo ≤ℤ hi → (lo ≤ℤ clamp v lo hi) × (clamp v lo hi ≤ℤ hi)
unfolding clamp
clamp_bounds v lo hi h = ground arith

pub /ℤ_nonneg : (a : ℤ) (n : ℕ) → pos 0 ≤ℤ a → pos 0 ≤ℤ a /ℤ n
unfolding ◌/ℤ◌
/ℤ_nonneg a n h = ground arith

pub one_part : (a : ℤ) → (pos_part a ≡ 0) ⊎ (neg_part a ≡ 0)
one_part (pos n) = omega arith
one_part (negsuc n) = omega arith

-- By a positive number both parts are multiplied and divided.
pub *ℤ_parts :
    (a : ℤ) (k : ℕ)
    → (pos_part (a *ℤ pos k) ≡ pos_part a * k) × (neg_part (a *ℤ pos k) ≡ neg_part a * k)
unfolding ◌*ℤ◌
*ℤ_parts a k = ground arith

pub /ℤ_parts :
    (a : ℤ) (n : ℕ) → (pos_part (a /ℤ n) ≡ pos_part a / n) × (neg_part (a /ℤ n) ≡ neg_part a / n)
unfolding ◌/ℤ◌
/ℤ_parts a n = ground arith

pub ruleset int_laws = (arith, +ℤ_parts, -ℤ_parts, eq_of_parts)

pub ruleset int_tests = (int_laws, ltb→lt, ltb→le, leb→le, leb→lt)

-- Amounts that are not negative.
pub +ℤ_nonneg : (a b : ℤ) → pos 0 ≤ℤ a → pos 0 ≤ℤ b → pos 0 ≤ℤ a +ℤ b
+ℤ_nonneg a b h k = omega int_laws

pub *ℤ_nonneg : (a b : ℤ) → pos 0 ≤ℤ a → pos 0 ≤ℤ b → pos 0 ≤ℤ a *ℤ b
unfolding ◌*ℤ◌
*ℤ_nonneg a b h k = grind arith

pub max_ℤ_nonneg : (a : ℤ) → pos 0 ≤ℤ max_ℤ (pos 0) a
max_ℤ_nonneg a = (max_ℤ_bounds (pos 0) a).0

pub pos_add : (a b : ℕ) → pos a +ℤ pos b ≡ pos (a + b)
unfolding ◌+ℤ◌
pos_add a b = ground arith

pub pos_mul : (a b : ℕ) → pos a *ℤ pos b ≡ pos (a * b)
unfolding ◌*ℤ◌
pos_mul a b = ground arith

pub pos_div : (a n : ℕ) → pos a /ℤ n ≡ pos (a / n)
unfolding ◌/ℤ◌
pos_div a n = ground arith

pub nonneg_pos : (a : ℤ) → pos 0 ≤ℤ a → a ≡ pos (pos_part a)
nonneg_pos a h = ground arith

scale_mono : (x y k : ℕ) → x ≤ y → x * k ≤ y * k
scale_mono x y k h = grind arith

pub *ℤ_mono : (a b : ℤ) (k : ℕ) → a ≤ℤ b → a *ℤ pos k ≤ℤ b *ℤ pos k
*ℤ_mono a b k h = omega (
  arith,
  *ℤ_parts a k,
  *ℤ_parts b k,
  scale_mono (pos_part a + neg_part b) (pos_part b + neg_part a) k h,
)

-- A product over a sum, with one factor replaced and its difference made up.
pub *ℤ_split :
    (a e : ℤ) (k l : ℕ) → a *ℤ pos (k + l) ≡ e *ℤ pos k +ℤ (a -ℤ e) *ℤ pos k +ℤ a *ℤ pos l
*ℤ_split a e k l = eq_of_parts _ _ (
    omega (
      int_laws,
      *ℤ_parts a (k + l),
      *ℤ_parts e k,
      *ℤ_parts (a -ℤ e) k,
      *ℤ_parts a l,
      ap (λ (t : ℕ). t * k) (-ℤ_parts a e),
    ))

pub max_ℤ_left : (a : ℤ) → pos 0 ≤ℤ a → max_ℤ (pos 0) a ≡ a
unfolding max_ℤ
max_ℤ_left a h = ground arith

pub min_ℤ_right : (a b : ℤ) → b ≤ℤ a → min_ℤ a b ≡ b
unfolding min_ℤ
min_ℤ_right a b h = ground arith
