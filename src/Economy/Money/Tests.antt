-- ===== src/Economy/Money/Tests.antt =====
-- Small amounts, and one that wraps around.
use routine_linux_edition.Base.{◌≡◌, refl, none, some, inr, arith}
use routine_linux_edition.Base.Int.{pos, negsuc}
use routine_linux_edition.Base.Bytes.{bytes, starts_with}
use routine_linux_edition.Base.Decimal.{show_ℕ, digits_of, value_from}
use routine_linux_edition.Economy.Money.RoundTrip.{parse_cash-cash}
use routine_linux_edition.Economy.Money.{cash, parse_cash, parse_value, without, cut_at, amount_of}

cash_refund : cash (bytes "C$") (negsuc 1_204) ≡ bytes "-C$12.05"
unfolding cash show_ℕ digits_of
cash_refund = refl

parse_thousand : parse_cash (bytes "$") (bytes "$1,000.5") ≡ some (pos 100_050)
unfolding parse_cash parse_value without cut_at amount_of value_from starts_with
parse_thousand = refl

-- A symbol that holds a dollar sign and more is not taken off.
parse_own_symbol : parse_cash (bytes "C$") (bytes "C$12.05") ≡ none
unfolding parse_cash parse_value without cut_at amount_of value_from starts_with
parse_own_symbol = refl

-- 2^64 / 100 dollars and a little more is read as 84 cents.
parse_wrapped : parse_cash (bytes "$") (bytes "184467440737095517") ≡ some (pos 84)
unfolding parse_cash parse_value without cut_at amount_of value_from starts_with
parse_wrapped = refl

parse_cash-cash_example :
    parse_cash (bytes "$") (cash (bytes "$") (pos 100_050)) ≡ some (pos 100_050)
parse_cash-cash_example = parse_cash-cash (bytes "$") 100_050 (inr refl) (omega arith) (omega arith)
