-- ===== src/Economy/Money/RoundTrip.antt =====
-- Reading the text of an amount.
use routine_linux_edition.Base.{
  ℕ, ◌+◌, ◌/◌, ◌%◌, ◌<◌, ◌≤◌, ◌≡◌, refl, ◌≢◌, ◌∙◌, ap, inl, inr, ◌⊎◌, true, false, [], ◌∷◌, ◌++◌,
  some, arith, ltb→lt, &&→both, ==_self, Bool-cases, ltb, ◌==◌, all, any, length, drop,
}
use routine_linux_edition.Base.Int.{pos}
use routine_linux_edition.Base.Bytes.{Bytes, is_empty, starts_with, starts_with-append}
use routine_linux_edition.Base.Decimal.{
  show_ℕ, is_digit, digit, value_from, value_from-digits_of, digits_of-digits, digits_of_one,
  digits_of_two, show_ℕ_some,
}
use routine_linux_edition.Economy.Money.{
  cash, parse_cash, parse_value, without, strip_symbol, cut_at, amount_of, two_digits, padded,
  starts_negative,
}

without-append : (c : ℕ) (s t : Bytes) → without c (s ++ t) ≡ without c s ++ without c t
unfolding without
without-append c [] t = refl
without-append c (a ∷ s) t = ground (arith, without-append c s t)

without-digits : (c : ℕ) (s : Bytes) → is_digit c ≡ false → all is_digit s ≡ true → without c s ≡ s
unfolding without
without-digits c [] h k = refl
without-digits c (a ∷ s) h k = ground (arith, without-digits c s)

cut_at-digits : (s t : Bytes) → all is_digit s ≡ true → cut_at b'.' (s ++ b'.' ∷ t) ≡ (s, some t)
unfolding cut_at
cut_at-digits [] t h = refl
cut_at-digits (a ∷ s) t h =
    let (here, later) = &&→both (is_digit a) (all is_digit s) h in
    let other : a == b'.' ≡ false = ground arith in rw (other, cut_at-digits s t later) refl

-- The digits of an amount, a point and two digits.
abbrev IsAmount : Bytes → Bytes → Type 0
IsAmount whole cents =
    (all is_digit whole ≡ true)
    × (is_empty whole ≡ false)
    × (all is_digit cents ≡ true)
    × (length cents ≡ 2)

without_point :
    (c : ℕ) (cents : Bytes)
    → is_digit c ≡ false
    → c ≢ b'.'
    → all is_digit cents ≡ true
    → without c (b'.' ∷ cents) ≡ b'.' ∷ cents
unfolding without
without_point c cents h k b =
    let other : b'.' == c ≡ false = ground arith in rw (other, without-digits c cents h b) refl

without-amount :
    (c : ℕ) (whole cents : Bytes)
    → is_digit c ≡ false
    → c ≢ b'.'
    → IsAmount whole cents
    → without c (whole ++ b'.' ∷ cents) ≡ whole ++ b'.' ∷ cents
without-amount c whole cents h k (a, _, b, _) =
    rw (without-append c whole (b'.' ∷ cents), without-digits c whole h a)
      (ap (λ (t : Bytes). whole ++ t) (without_point c cents h k b))

-- A symbol that is taken off: it holds no dollar sign, or is one.
abbrev pub IsSimple : Bytes → Type 0
IsSimple symbol = (without b'$' symbol ≡ symbol) ⊎ (symbol ≡ b'$' ∷ [])

head_digit :
    (whole t : Bytes)
    → all is_digit whole ≡ true
    → is_empty whole ≡ false
    → (c : ℕ) × (s : Bytes) × (whole ++ t ≡ c ∷ s) × (is_digit c ≡ true)
head_digit [] t h k = absurd (ground arith)
head_digit (c ∷ s) t h k = (c, s ++ t, refl, (&&→both (is_digit c) (all is_digit s) h).0)

drop-append : (s t : Bytes) → drop (length s) (s ++ t) ≡ t
drop-append [] t = refl
drop-append (c ∷ s) t = drop-append s t

strip_own : (symbol t : Bytes) → strip_symbol symbol (symbol ++ t) ≡ t
strip_own [] t = refl
strip_own (c ∷ s) t = rw (starts_with-append (c ∷ s) t) (drop-append s t)

strip_none : (t : Bytes) → starts_with (b'$' ∷ []) t ≡ false → strip_symbol (b'$' ∷ []) t ≡ t
strip_none t h = rw h refl

without_own : (c : ℕ) (t : Bytes) → without c ((c ∷ []) ++ t) ≡ without c t
unfolding without
without_own c t = rw (==_self c) refl

starts_plain :
    (whole t : Bytes)
    → all is_digit whole ≡ true
    → is_empty whole ≡ false
    → starts_with (b'$' ∷ []) (whole ++ t) ≡ false
unfolding starts_with
starts_plain [] t h k = absurd (ground arith)
starts_plain (c ∷ s) t h k = ground (arith, &&→both (is_digit c) (all is_digit s) h)

padded_two : (cents : Bytes) → length cents ≡ 2 → padded cents ≡ cents
padded_two [] h = absurd (omega arith)
padded_two (a ∷ []) h = absurd (omega arith)
padded_two (a ∷ b ∷ s) h = refl

some_of_two : (cents : Bytes) → length cents ≡ 2 → is_empty cents ≡ false
some_of_two [] h = absurd (omega arith)
some_of_two (a ∷ s) h = refl

no_point : (cents : Bytes) → all is_digit cents ≡ true → any (λ c. c == b'.') cents ≡ false
no_point [] h = refl
no_point (a ∷ s) h = ground (arith, no_point s)

-- Once dollar signs are gone, what is left of the symbol is taken off.
stripped :
    (symbol whole cents : Bytes)
    → IsSimple symbol
    → IsAmount whole cents
    → strip_symbol symbol (without b'$' (symbol ++ (whole ++ b'.' ∷ cents))) ≡ whole ++ b'.' ∷ cents
stripped symbol whole cents (inl plain) a =
    rw
      (
        without-append b'$' symbol (whole ++ b'.' ∷ cents),
        plain,
        without-amount b'$' whole cents refl (λ e. omega arith) a,
      )
      (strip_own symbol (whole ++ b'.' ∷ cents))
stripped symbol whole cents (inr dollar) a =
    let same = without-amount b'$' whole cents refl (λ e. omega arith) a in
    rw (dollar, without_own b'$' (whole ++ b'.' ∷ cents), same)
      (strip_none (whole ++ b'.' ∷ cents) (starts_plain whole _ a.0 a.1))

value_parsed :
    (whole cents : Bytes)
    → IsAmount whole cents
    → parse_value (whole ++ b'.' ∷ cents) ≡ amount_of whole cents
unfolding parse_value
value_parsed whole cents a =
    let (c, s, e, d) = head_digit whole (b'.' ∷ cents) a.0 a.1 in
    let some_text : is_empty (whole ++ b'.' ∷ cents) ≡ false = rw e refl in
    let no_sign : starts_negative (whole ++ b'.' ∷ cents) ≡ false = rw e (ground arith) in
    let pad = padded_two cents a.3 in
    let filled : is_empty cents ≡ false = some_of_two cents a.3 in
    let point = no_point cents a.2 in
    rw
      (
        cut_at-digits whole cents a.0,
        some_text,
        no_sign,
        a.3,
        point,
        a.1,
        a.1,
        a.0,
        pad,
        a.2,
        filled,
      )
      refl

parsed :
    (symbol whole cents : Bytes)
    → IsSimple symbol
    → IsAmount whole cents
    → parse_cash symbol (symbol ++ (whole ++ b'.' ∷ cents)) ≡ amount_of whole cents
unfolding parse_cash
parsed symbol whole cents h a =
    rw (stripped symbol whole cents h a, without-amount b',' whole cents refl (λ e. omega arith) a)
      (value_parsed whole cents a)

two_digits_lem : (r : ℕ) → r < 100 → two_digits r ≡ digit (r / 10) ∷ digit (r % 10) ∷ []
unfolding show_ℕ
two_digits_lem r h = elim (Bool-cases (ltb r 10)) [
  | inl one ↦
      rw (one, digits_of_one 19 r (ground arith))
        (let q : r / 10 ≡ 0 = (let k = ltb→lt r 10 one in omega arith) in
          let m : r % 10 ≡ r = (let k = ltb→lt r 10 one in omega arith) in rw (q, m) refl)
  | inr two ↦ rw (two, digits_of_two 18 r h (ground arith)) refl
]

two_digits-IsAmount : (w r : ℕ) → r < 100 → IsAmount (show_ℕ w) (two_digits r)
unfolding show_ℕ
two_digits-IsAmount w r h = (
  digits_of-digits 20 w,
  show_ℕ_some w,
  rw (two_digits_lem r h) (ground arith),
  rw (two_digits_lem r h) refl,
)

amount_back :
    (c : ℕ)
    → 0 < c
    → c ≤ 100_000_000_000_000
    → amount_of (show_ℕ (c / 100)) (two_digits (c % 100)) ≡ some (pos c)
unfolding amount_of show_ℕ
amount_back c h k =
    let whole = value_from-digits_of 20 (c / 100) (omega arith) in
    let cents : value_from 0 (two_digits (c % 100)) ≡ c % 100 =
      rw (two_digits_lem (c % 100) (omega arith)) (unfold value_from in omega arith) in
    rw (whole, cents) (ground arith)

cash_lem :
    (symbol : Bytes) (c : ℕ)
    → cash symbol (pos c) ≡ symbol ++ (show_ℕ (c / 100) ++ b'.' ∷ two_digits (c % 100))
unfolding cash
cash_lem symbol c =
    let size : c + 0 ≡ c = omega arith in
    let sign : ltb c 0 ≡ false = ground arith in rw (size, sign) refl

-- An amount of 1 to 10^14 cents that is printed is read back, where the symbol of the currency
-- holds no dollar sign or is one.
pub parse_cash-cash :
    (symbol : Bytes) (c : ℕ)
    → IsSimple symbol
    → 0 < c
    → c ≤ 100_000_000_000_000
    → parse_cash symbol (cash symbol (pos c)) ≡ some (pos c)
parse_cash-cash symbol c h k m =
    rw (cash_lem symbol c) (
      parsed symbol (show_ℕ (c / 100)) (two_digits (c % 100)) h
        (two_digits-IsAmount (c / 100) (c % 100) (omega arith)))
    ∙ amount_back c k m
