-- ===== src/Economy/Transfer.antt =====
-- economy_transfer_impl of lib/local_economy_extension.cpp. `clock` and `clock'` are the two answers of
-- std::time, and `written` what the file system answers to the save.
use routine_linux_edition.Base.{ℕ, Bool, true, false, not, ◌&&◌, ◌||◌, ltb, if◌then◌else◌}
use routine_linux_edition.Base.Int.{ℤ, pos, ◌+ℤ◌, ◌-ℤ◌, leb_ℤ, ltb_ℤ}
use routine_linux_edition.Base.Bytes.{Bytes, bytes_eq}
use routine_linux_edition.Base.Dict.{lookup, insert, erase, ensure, restore, at, is_none}
use routine_linux_edition.Economy.Status.{
  ok, invalid_argument, insufficient_funds, self_transfer, storage_error, maximum_transaction,
}
use routine_linux_edition.Economy.State.{
  Store, Player, GlobalPlayer, new_global_player, GuildDynamics, new_guild_dynamics,
}
use routine_linux_edition.Economy.Accounts.{
  key_for, valid_id, player_at, ensure_player, touch_global_player, add_bounded,
}
use routine_linux_edition.Economy.Limits.{save_locked}
use routine_linux_edition.Economy.Ledger.{Outcome, forget, acted, traded}
pub mod Moves
pub mod Pays
mod Tests

-- Both players changed, and all records of the call entered.
pub transferred : Store → Bytes → Bytes → Bytes → ℤ → ℤ → ℤ → Store
transferred s guild_id from_user to_user amount clock clock' =
    let sender = player_at s guild_id from_user in
    let with_sender = ensure_player s guild_id from_user in
    let recipient = player_at with_sender guild_id to_user in
    let placed = ensure_player with_sender guild_id to_user in
    let dynamics = at new_guild_dynamics guild_id s.dynamics in
    let sent = record placed {
      players =
          insert (key_for guild_id to_user)
            (record recipient { wallet_cents = recipient.wallet_cents +ℤ amount })
            (insert (key_for guild_id from_user)
              (record sender { wallet_cents = sender.wallet_cents -ℤ amount }) placed.players);
      dynamics =
          insert guild_id
            (record dynamics { spending_cents = add_bounded dynamics.spending_cents amount })
            placed.dynamics;
      global_players =
          insert from_user (acted (traded amount (touch_global_player placed from_user clock)))
            placed.global_players;
    } in
    record sent {
      global_players = insert to_user (touch_global_player sent to_user clock') sent.global_players;
    }

-- What the source puts back when the save fails.
pub untransferred : Store → Bytes → Bytes → Bytes → Store → Store
untransferred s guild_id from_user to_user changed =
    let sender_key = key_for guild_id from_user in
    let recipient_key = key_for guild_id to_user in
    let with_sender = ensure_player s guild_id from_user in
    record changed {
      players =
          restore (is_none (lookup recipient_key with_sender.players)) recipient_key
            (player_at with_sender guild_id to_user)
            (restore (is_none (lookup sender_key s.players)) sender_key
              (player_at s guild_id from_user) changed.players);
      dynamics = insert guild_id (at new_guild_dynamics guild_id s.dynamics) changed.dynamics;
      global_players =
          restore (is_none (lookup to_user s.global_players)) to_user
            (at new_global_player to_user s.global_players)
            (restore (is_none (lookup from_user s.global_players)) from_user
              (at new_global_player from_user s.global_players) changed.global_players);
    }

-- The arguments that are refused at once.
pub bad_transfer : Bytes → Bytes → Bytes → ℤ → Bool
bad_transfer guild_id from_user to_user amount =
    not (valid_id guild_id)
    || (not (valid_id from_user)
        || (not (valid_id to_user) || (leb_ℤ amount (pos 0) || ltb_ℤ maximum_transaction amount)))

pub economy_transfer : Store → Bytes → Bytes → Bytes → ℤ → ℤ → ℤ → Bool → Outcome
economy_transfer s guild_id from_user to_user amount clock clock' written =
    let sender_key = key_for guild_id from_user in
    let recipient_key = key_for guild_id to_user in
    let sender_is_new = is_none (lookup sender_key s.players) in
    let sender = player_at s guild_id from_user in
    let with_sender = ensure_player s guild_id from_user in
    let recipient_is_new = is_none (lookup recipient_key with_sender.players) in
    let recipient = player_at with_sender guild_id to_user in
    let placed = ensure_player with_sender guild_id to_user in
    let changed = transferred s guild_id from_user to_user amount clock clock' in
    if bad_transfer guild_id from_user to_user amount
    then (invalid_argument, s)
    else if bytes_eq from_user to_user
    then (self_transfer, s)
    else if ltb_ℤ (pos 10_000_000) amount && ltb sender.work_count 10
    then (invalid_argument, forget sender_is_new sender_key with_sender)
    else if ltb_ℤ sender.wallet_cents amount
    then (insufficient_funds, forget sender_is_new sender_key with_sender)
    else if ltb_ℤ (maximum_transaction -ℤ amount) recipient.wallet_cents
    then (
      invalid_argument,
      forget recipient_is_new recipient_key (forget sender_is_new sender_key placed),
    )
    else if save_locked changed written
    then (ok, changed)
    else (storage_error, untransferred s guild_id from_user to_user changed)
