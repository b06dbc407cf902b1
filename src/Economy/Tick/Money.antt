-- ===== src/Economy/Tick/Money.antt =====
-- The money that a tick moves: what players have in hand and what their businesses have.
use routine_linux_edition.Base.{◌≡◌, refl, [], ◌∷◌, some, inl, inr, Bool-cases, Option-cases}
use routine_linux_edition.Base.Int.{ℤ, pos, ◌+ℤ◌, ◌-ℤ◌, int_laws, ends, eq_of_parts}
use routine_linux_edition.Base.Bytes.{Bytes, bytes_eq}
use routine_linux_edition.Base.Dict.{Dict, lookup, insert, at, ensure, lookup-insert, lookup-ensure}
use routine_linux_edition.Economy.State.{Store, Player, ChaosPlayer, new_chaos_player}
use routine_linux_edition.Economy.Accounts.{key_for, ensure_player}
use routine_linux_edition.Economy.Ledger.Liquid.{liquid, liquid-insert}
use routine_linux_edition.Economy.Ledger.Pays.{player_at-known, ensure_player-known}
use routine_linux_edition.Economy.Tick.{credited, debited}

pub business_cash : Dict ChaosPlayer → ℤ
business_cash [] = pos 0
business_cash ((_, p) ∷ d) = p.business_cash_cents +ℤ business_cash d

-- A player who is not there yet has nothing.
pub business_cash-insert :
    (k : Bytes) (p : ChaosPlayer) (d : Dict ChaosPlayer)
    → business_cash (insert k p d) +ℤ (at new_chaos_player k d).business_cash_cents
      ≡ business_cash d +ℤ p.business_cash_cents
unfolding business_cash insert lookup
business_cash-insert k p [] = omega int_laws
business_cash-insert k p ((j, q) ∷ d) = grind (int_laws, business_cash-insert k p d)

-- What the players of all servers have together.
abbrev pub money : Store → ℤ
money s = liquid s.players +ℤ business_cash s.chaos_players

pub business_cash-ensure :
    (k : Bytes) (d : Dict ChaosPlayer)
    → business_cash (ensure new_chaos_player k d) ≡ business_cash d
unfolding business_cash ensure
business_cash-ensure k d = elim (Option-cases (lookup k d)) [
  | inl e ↦
      rw (e, ensure)
        (eq_of_parts _ _
          (omega (int_laws, ends _ _ (rw e at (business_cash-insert k new_chaos_player d)))))
  | inr (p, e) ↦ rw (e, ensure) refl
]

-- What is there stays.
pub insert-Has :
    (j k : Bytes) (q : Player) (d : Dict Player)
    → (p : Player) × (lookup j d ≡ some p)
    → (p : Player) × (lookup j (insert k q d) ≡ some p)
insert-Has j k q d (p, e) = elim (Bool-cases (bytes_eq j k)) [
  | inl same ↦ (q, rw (lookup-insert j k q d, same) refl)
  | inr other ↦ (p, rw (lookup-insert j k q d, other) e)
]

pub ensure-Has :
    (j k : Bytes) (q : Player) (d : Dict Player)
    → (p : Player) × (lookup j d ≡ some p)
    → (p : Player) × (lookup j (ensure q k d) ≡ some p)
ensure-Has j k q d (p, e) = elim (Bool-cases (bytes_eq j k)) [
  | inl same ↦ (at q k d, rw (lookup-ensure q j k d, same) refl)
  | inr other ↦ (p, rw (lookup-ensure q j k d, other) e)
]

abbrev pub IsKnown : Store → Bytes → Bytes → Type 0
IsKnown s guild_id user_id = (p : Player) × (lookup (key_for guild_id user_id) s.players ≡ some p)

pub credited_pays :
    (guild_id user_id : Bytes) (amount : ℤ) (s : Store)
    → IsKnown s guild_id user_id
    → liquid (credited guild_id user_id amount s).players ≡ liquid s.players +ℤ amount
unfolding credited
credited_pays guild_id user_id amount s (p, e) =
    let taken =
      liquid-insert (key_for guild_id user_id)
        (record p { wallet_cents = p.wallet_cents +ℤ amount }) p s.players e in
    rw (player_at-known s guild_id user_id p e, ensure_player-known s guild_id user_id p e)
      (eq_of_parts _ _ (omega (int_laws, ends _ _ taken)))

pub credited-IsKnown :
    (guild_id user_id : Bytes) (amount : ℤ) (s : Store) (g u : Bytes)
    → IsKnown s g u
    → IsKnown (credited guild_id user_id amount s) g u
unfolding credited ensure_player
credited-IsKnown guild_id user_id amount s g u h = insert-Has _ _ _ _ (ensure-Has _ _ _ _ h)

pub money-credited :
    (guild_id user_id : Bytes) (amount : ℤ) (s : Store)
    → IsKnown s guild_id user_id
    → money (credited guild_id user_id amount s) ≡ money s +ℤ amount
money-credited guild_id user_id amount s h =
    let cash = credited_pays guild_id user_id amount s h in
    let same : business_cash (credited guild_id user_id amount s).chaos_players
        ≡ business_cash s.chaos_players =
      unfold credited ensure_player in refl in
    eq_of_parts _ _ (omega (int_laws, ends _ _ cash, ends _ _ same))

pub debited_pays :
    (guild_id user_id : Bytes) (amount : ℤ) (s : Store)
    → IsKnown s guild_id user_id
    → liquid (debited guild_id user_id amount s).players +ℤ amount ≡ liquid s.players
unfolding debited
debited_pays guild_id user_id amount s (p, e) =
    let taken =
      liquid-insert (key_for guild_id user_id)
        (record p { wallet_cents = p.wallet_cents -ℤ amount }) p s.players e in
    rw (player_at-known s guild_id user_id p e, ensure_player-known s guild_id user_id p e)
      (eq_of_parts _ _ (omega (int_laws, ends _ _ taken)))

pub debited-IsKnown :
    (guild_id user_id : Bytes) (amount : ℤ) (s : Store) (g u : Bytes)
    → IsKnown s g u
    → IsKnown (debited guild_id user_id amount s) g u
unfolding debited ensure_player
debited-IsKnown guild_id user_id amount s g u h = insert-Has _ _ _ _ (ensure-Has _ _ _ _ h)

pub money-debited :
    (guild_id user_id : Bytes) (amount : ℤ) (s : Store)
    → IsKnown s guild_id user_id
    → money (debited guild_id user_id amount s) +ℤ amount ≡ money s
money-debited guild_id user_id amount s h =
    let cash = debited_pays guild_id user_id amount s h in
    let same : business_cash (debited guild_id user_id amount s).chaos_players
        ≡ business_cash s.chaos_players =
      unfold debited ensure_player in refl in
    eq_of_parts _ _ (omega (int_laws, ends _ _ cash, ends _ _ same))
