-- ===== src/Economy/Money.antt =====
-- Money as text: cash and parse_cash of lib/local_economy_extension.cpp. The symbol is
-- g_display_symbol; `none` is the answer false.
use routine_linux_edition.Base.{
  ℕ, zero, suc, ◌+◌, ◌*◌, ◌/◌, ◌%◌, ◌^◌, Bool, true, false, not, ◌&&◌, ◌||◌, List, [], ◌∷◌, ◌++◌,
  Option, none, some, leb, ltb, ◌==◌, if◌then◌else◌, length, drop, all, any,
}
use routine_linux_edition.Base.Int.{ℤ, pos, ltb_ℤ, abs_ℤ}
use routine_linux_edition.Base.Bytes.{Bytes, bytes, is_empty, starts_with}
use routine_linux_edition.Base.Decimal.{show_ℕ, is_digit, value_from, digit}
use routine_linux_edition.Economy.Status.{u64_mod}
pub mod RoundTrip
mod Tests

-- Two digits, filled with a zero.
abbrev pub two_digits : ℕ → Bytes
two_digits n = if ltb n 10 then b'0' ∷ show_ℕ n else show_ℕ n

pub cash : Bytes → ℤ → Bytes
cash symbol cents =
    let value = abs_ℤ cents in
    let amount = symbol ++ (show_ℕ (value / 100) ++ b'.' ∷ two_digits (value % 100)) in
    if ltb_ℤ cents (pos 0) then b'-' ∷ amount else amount

-- value.erase(std::remove(value.begin(), value.end(), c), value.end())
pub without : ℕ → Bytes → Bytes
without c [] = []
without c (a ∷ s) = let rest = without c s in if a == c then rest else a ∷ rest

abbrev pub strip_symbol : Bytes → Bytes → Bytes
strip_symbol symbol value =
    if not (is_empty symbol) && starts_with symbol value then drop (length symbol) value else value

-- The text before the first c, and behind it where there is one.
pub cut_at : ℕ → Bytes → Bytes × Option Bytes
cut_at c [] = ([], none)
cut_at c (a ∷ s) =
    let (before, behind) = cut_at c s in if a == c then ([], some s) else (a ∷ before, behind)

abbrev pub fraction_of : Option Bytes → Bytes
fraction_of none = []
fraction_of (some s) = s

-- while (fraction.size() < 2) fraction += '0';
abbrev pub padded : Bytes → Bytes
padded [] = b'0' ∷ b'0' ∷ []
padded (a ∷ []) = a ∷ b'0' ∷ []
padded s = s

abbrev pub all_digits : Bytes → Bool
all_digits s = not (is_empty s) && all is_digit s

-- std::stoull throws where the number is no uint64_t, and the product wraps around.
pub amount_of : Bytes → Bytes → Option ℤ
amount_of whole fraction =
    let dollars = value_from 0 whole in
    let total = (dollars * 100 + value_from 0 fraction) % u64_mod in
    if ltb dollars u64_mod && (not (total == 0) && leb total 100_000_000_000_000)
    then some (pos total)
    else none

abbrev pub starts_negative : Bytes → Bool
starts_negative [] = false
starts_negative (c ∷ s) = c == b'-'

-- What is read once the symbol and the commas are gone.
pub parse_value : Bytes → Option ℤ
parse_value value =
    let (before, behind) = cut_at b'.' value in
    let whole = if is_empty before then b'0' ∷ [] else before in
    let fraction = fraction_of behind in
    if is_empty value || starts_negative value
    then none
    else if ltb 2 (length fraction) || any (λ c. c == b'.') fraction
    then none
    else if all_digits whole && all_digits (padded fraction)
    then amount_of whole (padded fraction)
    else none

pub parse_cash : Bytes → Bytes → Option ℤ
parse_cash symbol text = parse_value (without b',' (strip_symbol symbol (without b'$' text)))
