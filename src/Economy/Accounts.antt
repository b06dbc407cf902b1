-- ===== src/Economy/Accounts.antt =====
-- Names, and the records that a call enters before it works: key_for to has_managed_property, valid_id,
-- snapshot, touch_global_player, sync_global_player and add_bounded of
-- lib/local_economy_extension.cpp.
use Prim.Native.Nat.{bit_and, bit_or}
use routine_linux_edition.Base.{
  ℕ, zero, suc, ◌+◌, ◌-◌, ◌^◌, Bool, true, false, not, ◌&&◌, ◌||◌, List, [], ◌∷◌, ◌++◌, Option,
  none, some, ltb, leb, ◌==◌, if◌then◌else◌, any,
}
use routine_linux_edition.Base.Int.{ℤ, pos, ◌+ℤ◌, ◌-ℤ◌, max_ℤ, min_ℤ, ltb_ℤ, leb_ℤ, is_zero}
use routine_linux_edition.Base.Bytes.{Bytes, bytes_eq}
use routine_linux_edition.Base.Dict.{lookup, insert, ensure, at, is_none}
use routine_linux_edition.Economy.Status.{maximum_transaction}
use routine_linux_edition.Economy.State.{
  Store, Player, new_player, new_guild_settings, GlobalPlayer, new_global_player, PropertyAsset,
  ChaosPlayer, PlayerDevelopment,
}
pub mod Keys
pub mod Bounded
mod Tests

-- '\x1f'
abbrev pub separator : ℕ
separator = 0x1f

-- What the keys of a server begin with.
abbrev pub prefix_of : Bytes → Bytes
prefix_of guild_id = guild_id ++ separator ∷ []

unfoldable pub key_for : Bytes → Bytes → Bytes
key_for guild_id user_id = guild_id ++ separator ∷ user_id

-- The loop of valid_id, with the length counted so far.
unfoldable pub digits_from : ℕ → Bytes → Bool
digits_from length [] = ltb 0 length
digits_from length (c ∷ s) =
    let rest = digits_from (length + 1) s in
    if ltb c b'0' || (ltb b'9' c || ltb 31 (length + 1)) then false else rest

-- A null pointer is refused as the empty text is.
unfoldable pub valid_id : Bytes → Bool
valid_id value = digits_from 0 value

-- A player who is new to the server.
unfoldable pub fresh_player : Store → Bytes → Player
fresh_player s guild_id = record new_player {
  wallet_cents = (at new_guild_settings guild_id s.settings).starting_balance_cents;
}

-- The player that `g_players.try_emplace` finds or makes.
unfoldable pub player_at : Store → Bytes → Bytes → Player
player_at s guild_id user_id = at (fresh_player s guild_id) (key_for guild_id user_id) s.players

-- A new player enters the default settings of the server too.
unfoldable pub ensure_player : Store → Bytes → Bytes → Store
ensure_player s guild_id user_id = record s {
  players = ensure (fresh_player s guild_id) (key_for guild_id user_id) s.players;
  settings =
      if is_none (lookup (key_for guild_id user_id) s.players)
      then ensure new_guild_settings guild_id s.settings
      else s.settings;
}

unfoldable pub has_managed_property : Store → Bytes → Bytes → Bool
has_managed_property s guild_id user_id =
    any (λ (p : PropertyAsset). bytes_eq p.guild_id guild_id && bytes_eq p.owner_id user_id)
      s.properties

abbrev seen : ℤ → GlobalPlayer → GlobalPlayer
seen now global =
    if ltb_ℤ (pos 0) now
    then record global {
      first_seen_unix = if is_zero global.first_seen_unix then now else global.first_seen_unix;
      last_seen_unix = max_ℤ global.last_seen_unix now;
    }
    else global

-- The record of the user after the touch; the caller enters it.
unfoldable pub touch_global_player : Store → Bytes → ℤ → GlobalPlayer
touch_global_player s user_id now = seen now (at new_global_player user_id s.global_players)

unfoldable pub add_bounded : ℤ → ℤ → ℤ
add_bounded target amount =
    if leb_ℤ amount (pos 0)
    then target
    else min_ℤ maximum_transaction (
        if ltb_ℤ (maximum_transaction -ℤ amount) target
        then maximum_transaction
        else target +ℤ amount)

-- `degree` runs from 9 down to 1.
unfoldable pub highest_education_from : ℕ → ℕ → ℕ
highest_education_from zero mask = 0
highest_education_from (suc d) mask =
    let rest = highest_education_from d mask in
    if bit_and mask (2 ^ suc d) == 0 then rest else suc d

unfoldable pub highest_education : ℕ → ℕ
highest_education mask = highest_education_from 9 mask

-- What is known of a user over all servers, and the local records, agree behind the call.
pub record Synced : Type 0 where
  pub global : GlobalPlayer
  pub local : ChaosPlayer
  pub development : PlayerDevelopment

abbrev learn : ℕ → GlobalPlayer → GlobalPlayer
learn degree global =
    if ltb 0 degree && leb degree 9
    then record global { education_mask = bit_or global.education_mask (2 ^ degree) }
    else global

abbrev license : ℕ → GlobalPlayer → GlobalPlayer
license certifications global = record global { licenses = bit_or global.licenses certifications }

abbrev pub min_ℕ : ℕ → ℕ → ℕ
min_ℕ a b = if ltb b a then b else a

abbrev pub max_ℕ : ℕ → ℕ → ℕ
max_ℕ a b = if ltb a b then b else a

unfoldable pub sync_global_player : Store → Bytes → ChaosPlayer → PlayerDevelopment → ℤ → Synced
sync_global_player s user_id local development now =
    let global =
      license development.certifications (learn local.degree (touch_global_player s user_id now)) in
    record {
      global = global;
      local = record local {
        degree = max_ℕ local.degree (highest_education global.education_mask);
      };
      development = record { certifications = bit_or development.certifications global.licenses };
    }
