-- ===== src/Economy/Ledger/Liquid.antt =====
-- The money in the wallets and checking accounts of a table of players.
use routine_linux_edition.Base.{◌≡◌, [], ◌∷◌, some}
use routine_linux_edition.Base.Int.{ℤ, pos, ◌+ℤ◌, int_laws}
use routine_linux_edition.Base.Bytes.{Bytes}
use routine_linux_edition.Base.Dict.{Dict, lookup, insert}
use routine_linux_edition.Economy.State.{Player}

abbrev pub worth : Player → ℤ
worth p = p.wallet_cents +ℤ p.checking_cents

pub liquid : Dict Player → ℤ
liquid [] = pos 0
liquid ((_, p) ∷ d) = worth p +ℤ liquid d

-- Replacing a player changes the sum by the difference.
pub liquid-insert :
    (k : Bytes) (new old : Player) (d : Dict Player)
    → lookup k d ≡ some old
    → liquid (insert k new d) +ℤ worth old ≡ liquid d +ℤ worth new
unfolding liquid lookup insert
liquid-insert k new old [] e = cc
liquid-insert k new old ((j, p) ∷ d) e = grind (int_laws, liquid-insert k new old d)
