-- ===== src/Economy/Banks/Tests.antt =====
-- A bank that fails.
use routine_linux_edition.Base.{ℕ, [], ◌∷◌, arith}
use routine_linux_edition.Base.Int.{ℤ, pos, negsuc}
use routine_linux_edition.Base.Bytes.{Bytes, bytes}
use routine_linux_edition.Economy.State.{
  ChaosPlayer, new_chaos_player, new_guild_economy, new_guild_bank_network, new_financial_lifecycle,
}
use routine_linux_edition.Economy.Accounts.{key_for}
use routine_linux_edition.Economy.Banks.{Vault, update_bank_network}
use routine_linux_edition.Economy.Banks.Network.{IsStanding, update_bank_network-IsStanding}

abbrev saver : ChaosPlayer
saver = record new_chaos_player { savings_cents = pos 3_000_000; hysa_cents = pos 500 }

abbrev vault : Vault
vault = record {
  network = record new_guild_bank_network { last_update_unix = pos 1_000 };
  chaos_players = (key_for (bytes "1") (bytes "2"), saver) ∷ [];
  audit = [];
}

abbrev no_text : ℤ → Bytes
no_text a = []

abbrev bad_luck : ℕ → ℕ → ℤ
bad_luck step bank = negsuc 1

vault-IsStanding : IsStanding vault
vault-IsStanding = record { shares = ground arith }

update_bank_network-IsStanding_example :
    IsStanding
      (update_bank_network no_text bad_luck
        (bytes "1")
        new_guild_economy
        ((key_for (bytes "1") (bytes "2"), new_financial_lifecycle) ∷ [])
        (pos 9_000)
        vault).1
update_bank_network-IsStanding_example =
    update_bank_network-IsStanding no_text bad_luck (bytes "1") new_guild_economy
      ((key_for (bytes "1") (bytes "2"), new_financial_lifecycle) ∷ []) (pos 9_000) vault
      vault-IsStanding
