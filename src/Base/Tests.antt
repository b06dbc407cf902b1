-- ===== src/Base/Tests.antt =====
-- Boolean tests on the native numbers, and the ways to split on a computed value.
use Prim.Native.Nat.{ℕ, ◌≤◌, ◌<◌, compare, Ordering}
use mathlib.Core.Path.{◌≡◌, refl}
use mathlib.Core.Logic.{◌≢◌, ◌⊎◌, inl, inr}
use mathlib.Core.Bool.{Bool, true, false, ◌&&◌}
use mathlib.Core.Option.{Option, none, some}
use native.Mathlib.Omega.{arith}

abbrev pub ltb : ℕ → ℕ → Bool
ltb a b = elim (compare a b) [ Ordering.lt ↦ true | _ ↦ false ]

abbrev pub leb : ℕ → ℕ → Bool
leb a b = elim (compare a b) [ Ordering.gt ↦ false | _ ↦ true ]

infix 50 ◌==◌
abbrev pub ◌==◌ : ℕ → ℕ → Bool
a == b = elim (compare a b) [ Ordering.eq ↦ true | _ ↦ false ]

infix 1 if◌then◌else◌
abbrev pub if◌then◌else◌ {ℓ} : {A : Type ℓ} → Bool → A → A → A
if true then x else y = x
if false then x else y = y

pub Bool-cases : (b : Bool) → (b ≡ true) ⊎ (b ≡ false)
Bool-cases true = inl refl
Bool-cases false = inr refl

pub Option-cases {ℓ} : {A : Type ℓ} (o : Option A) → (o ≡ none) ⊎ ((a : A) × (o ≡ some a))
Option-cases none = inl refl
Option-cases (some a) = inr (a, refl)

pub ltb→lt : (a b : ℕ) → ltb a b ≡ true → a < b
ltb→lt a b h = ground arith

pub ltb→le : (a b : ℕ) → ltb a b ≡ false → b ≤ a
ltb→le a b h = ground arith

pub leb→le : (a b : ℕ) → leb a b ≡ true → a ≤ b
leb→le a b h = ground arith

pub leb→lt : (a b : ℕ) → leb a b ≡ false → b < a
leb→lt a b h = ground arith

pub ==→eq : (a b : ℕ) → a == b ≡ true → a ≡ b
==→eq a b h = ground arith

pub ==→ne : (a b : ℕ) → a == b ≡ false → a ≢ b
==→ne a b h = ground arith

pub ==_self : (a : ℕ) → a == a ≡ true
==_self a = ground arith

pub &&→both : (a b : Bool) → a && b ≡ true → (a ≡ true) × (b ≡ true)
&&→both true b h = (refl, h)
&&→both false b h = cc

pub ruleset tests = (arith, ltb→lt, ltb→le, leb→le, leb→lt, ==→eq, ==→ne)

-- What holds of both branches holds of the choice.
pub if_keeps {ℓ κ} :
    {A : Type ℓ} → (P : A → Type κ) → (b : Bool) → (x y : A) → P x → P y → P (if b then x else y)
if_keeps P true x y p q = p
if_keeps P false x y p q = q

-- The same, where each branch may use its test.
pub if_each {ℓ κ} :
    {A : Type ℓ}
    → (P : A → Type κ) → (b : Bool) → (x y : A) → (b ≡ true → P x)
    → (b ≡ false → P y)
    → P (if b then x else y)
if_each P true x y p q = p refl
if_each P false x y p q = q refl
