-- ===== src/Economy/Tick/Debt/Kept.antt =====
-- The autopay over all players, and the checks of the store.
use routine_linux_edition.Base.{◌≡◌, refl, false, [], ◌∷◌, Option, none, some, if_keeps}
use routine_linux_edition.Base.Int.{ℤ, pos}
use routine_linux_edition.Base.Bytes.{Bytes}
use routine_linux_edition.Base.Dict.{Dict, lookup, at, all-insert, all-lookup}
use routine_linux_edition.Economy.State.{
  Store, ChaosPlayer, Player, FinancialLifecycle, new_guild_settings,
}
use routine_linux_edition.Economy.Limits.{player_holds, chaos_holds}
use routine_linux_edition.Economy.Tick.{Ticked, Subject, periods_due}
use routine_linux_edition.Economy.Tick.Sound.{
  PlayersHold, player_holds-IsFunded, IsFunded-player_holds, chaos_holds-IsSound,
  IsSound-chaos_holds,
}
use routine_linux_edition.Economy.Tick.Debt.{
  Debtor, autopay_due, autopay_split, autopay_found, autopay_entry, autopay_all,
}
use routine_linux_edition.Economy.Tick.Debt.Solvent.{
  IsSolvent, autopay_loop-IsSolvent, cleared-IsSolvent,
}

autopay_due-PlayersHold :
    (now : ℤ) (key guild_id user_id : Bytes) (l : FinancialLifecycle) (player : ChaosPlayer)
    (wallet : Player) (s : Store)
    → lookup key s.chaos_players ≡ some player
    → lookup key s.players ≡ some wallet
    → PlayersHold s
    → PlayersHold (autopay_due now key guild_id user_id l player wallet s).1
unfolding autopay_due
autopay_due-PlayersHold now key guild_id user_id l player wallet s a b h =
    let symbol = (at new_guild_settings guild_id s.settings).currency_symbol in
    let about : Subject = record { guild_id = guild_id; user_id = user_id; now = now } in
    let before : Debtor = record {
      lifecycle = l;
      player = player;
      wallet = wallet;
      audit = s.audit;
      changed = false;
    } in
    let start : IsSolvent before = record {
      funded =
          player_holds-IsFunded key wallet
            (all-lookup player_holds key wallet s.players h.wallets b);
      sound =
          chaos_holds-IsSound key player
            (all-lookup chaos_holds key player s.chaos_players h.sound a);
    } in
    let end = cleared-IsSolvent _ (
      autopay_loop-IsSolvent symbol about (periods_due (pos 30) l.next_payment_unix now) before
        start) in
    record {
      wallets =
          all-insert player_holds key _ s.players (IsFunded-player_holds key _ end.funded)
            h.wallets;
      sound =
          all-insert chaos_holds key _ s.chaos_players (IsSound-chaos_holds key _ end.sound)
            h.sound;
    }

autopay_split-PlayersHold :
    (now : ℤ) (key : Bytes) (parts : Bytes × Option Bytes) (l : FinancialLifecycle)
    (player : ChaosPlayer) (wallet : Player) (s : Store)
    → lookup key s.chaos_players ≡ some player
    → lookup key s.players ≡ some wallet
    → PlayersHold s
    → PlayersHold (autopay_split now key parts l player wallet s).1
unfolding autopay_split
autopay_split-PlayersHold now key (guild_id, none) l player wallet s a b h = h
autopay_split-PlayersHold now key (guild_id, some user_id) l player wallet s a b h =
    autopay_due-PlayersHold now key guild_id user_id l player wallet s a b h

autopay_found-PlayersHold :
    (now : ℤ) (key : Bytes) (l : FinancialLifecycle) (player : Option ChaosPlayer)
    (wallet : Option Player) (s : Store)
    → lookup key s.chaos_players ≡ player
    → lookup key s.players ≡ wallet
    → PlayersHold s
    → PlayersHold (autopay_found now key l player wallet s).1
unfolding autopay_found
autopay_found-PlayersHold now key l none wallet s a b h = h
autopay_found-PlayersHold now key l (some player) none s a b h = h
autopay_found-PlayersHold now key l (some player) (some wallet) s a b h =
    if_keeps (λ (t : Ticked). PlayersHold t.1) _ _ _
      (autopay_split-PlayersHold now key _ l player wallet s a b h) h

-- When the wallets, accounts, debts and credit scores of all players meet the checks of the store,
-- they do after the autopay of debts has gone over all of them.
pub autopay_all-PlayersHold :
    (now : ℤ) (lifecycle : Dict FinancialLifecycle) (s : Store)
    → PlayersHold s
    → PlayersHold (autopay_all now lifecycle s).1
unfolding autopay_all autopay_entry
autopay_all-PlayersHold now [] s h = h
autopay_all-PlayersHold now ((key, l) ∷ lifecycle) s h = autopay_all-PlayersHold now lifecycle _ (
    autopay_found-PlayersHold now key l (lookup key s.chaos_players) (lookup key s.players) s refl
      refl h)
