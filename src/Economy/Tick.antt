-- ===== src/Economy/Tick.antt =====
-- What the parts of a tick share: economy_tick_all_impl of lib/local_economy_extension.cpp, which
-- moves every server on in time. Each child models one of its loops.
use routine_linux_edition.Base.{ℕ, ◌+◌, ◌%◌, Bool, List, [], ◌∷◌, ◌++◌, Option, none, some}
use routine_linux_edition.Base.Int.{ℤ, pos, pos_part, ◌+ℤ◌, ◌-ℤ◌, ◌/ℤ◌, min_ℤ, max_ℤ, clamp}
use routine_linux_edition.Base.Bytes.{Bytes}
use routine_linux_edition.Economy.Status.{u32_mod}
use routine_linux_edition.Base.Dict.{insert}
use routine_linux_edition.Economy.State.{Store, Player, AuditEntry}
use routine_linux_edition.Economy.Accounts.{key_for, player_at, ensure_player}
pub mod Collect
pub mod Sound
pub mod Debt
pub mod Money
pub mod Agreement
pub mod Election
pub mod Heat
pub mod Auction
pub mod Property
pub mod Company
pub mod Whole
mod Tests

-- A store, and whether anything in it changed.
abbrev pub Ticked : Type 0
Ticked = Bool × Store

-- 24 * 3600
abbrev pub day : ℕ
day = 86_400

-- The payments that are due at a time, one each day, and `most` of them at once.
abbrev pub periods_due : ℤ → ℤ → ℤ → ℕ
periods_due most next now = pos_part (min_ℤ most (pos 1 +ℤ (now -ℤ next) /ℤ day))

-- The whole days since a time, 30 at most.
abbrev pub whole_days : ℤ → ℤ → ℤ
whole_days last now = clamp ((now -ℤ last) /ℤ day) (pos 0) (pos 30)

-- ++ on a uint32_t
abbrev pub next_u32 : ℕ → ℕ
next_u32 n = (n + 1) % u32_mod

-- The credit score behind a payment and behind a miss.
abbrev pub score_up : ℤ → ℤ → ℤ
score_up points score = min_ℤ (pos 850) (score +ℤ points)

abbrev pub score_down : ℤ → ℤ → ℤ
score_down points score = max_ℤ (pos 300) (score -ℤ points)

-- Whom an audit entry is about, and when.
pub record Subject : Type 0 where
  pub guild_id : Bytes
  pub user_id : Bytes
  pub now : ℤ

abbrev pub entry : Subject → Bytes → Bytes → AuditEntry
entry about action summary = record {
  guild_id = about.guild_id;
  user_id = about.user_id;
  timestamp = about.now;
  action = action;
  summary = summary;
}

-- What an autopay takes: from the checking account first, then from the wallet.
pub from_checking : ℤ → Player → ℤ
from_checking amount p = min_ℤ amount p.checking_cents

pub from_wallet : ℤ → Player → ℤ
from_wallet amount p = min_ℤ (amount -ℤ from_checking amount p) p.wallet_cents

pub collected : ℤ → Player → ℤ
collected amount p = from_checking amount p +ℤ from_wallet amount p

pub charged : ℤ → Player → Player
charged amount p = record p {
  checking_cents = p.checking_cents -ℤ from_checking amount p;
  wallet_cents = p.wallet_cents -ℤ from_wallet amount p;
}

-- ensure_player(guild_id, user_id).wallet_cents += amount
unfoldable pub credited : Bytes → Bytes → ℤ → Store → Store
credited guild_id user_id amount s =
    let player = player_at s guild_id user_id in
    let entered = ensure_player s guild_id user_id in
    record entered {
      players =
          insert (key_for guild_id user_id)
            (record player { wallet_cents = player.wallet_cents +ℤ amount }) entered.players;
    }

-- ensure_player(guild_id, user_id).wallet_cents -= amount
unfoldable pub debited : Bytes → Bytes → ℤ → Store → Store
debited guild_id user_id amount s =
    let player = player_at s guild_id user_id in
    let entered = ensure_player s guild_id user_id in
    record entered {
      players =
          insert (key_for guild_id user_id)
            (record player { wallet_cents = player.wallet_cents -ℤ amount }) entered.players;
    }
