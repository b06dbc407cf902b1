-- ===== src/Economy/Worth/Leaderboard.antt =====
-- economy_leaderboard_impl of lib/local_economy_extension.cpp. The entries are sorted by insertion; the
-- comparison leaves no two users of a server equal, so every sort gives this order.
use routine_linux_edition.Base.{
  ℕ, ◌≤◌, ◌≡◌, Bool, not, ◌&&◌, ◌||◌, List, [], ◌∷◌, Option, none, some, arith, ◌==◌, if◌then◌else◌,
  if_each, if_keeps, refl, ap, zero, suc, take, drop, length, All,
}
use routine_linux_edition.Base.Int.{ℤ, pos, ◌+ℤ◌, ◌-ℤ◌, ◌≤ℤ◌, ltb_ℤ}
use routine_linux_edition.Base.Bytes.{Bytes, starts_with, bytes_less}
use routine_linux_edition.Base.Dict.{Dict, lookup}
use routine_linux_edition.Economy.Status.{stock_count, max_leaderboard}
use routine_linux_edition.Economy.State.{Store, Player, ChaosPlayer, AdvancedPlayer, GuildEconomy}
use routine_linux_edition.Economy.Accounts.{prefix_of, valid_id, min_ℕ}
use routine_linux_edition.Economy.Worth.{
  shares_value, property_equity, business_tangible_value, advanced_asset_value,
}

pub record Entry : Type 0 where
  pub user_id : Bytes
  pub net_worth_cents : ℤ

shares_in : ChaosPlayer → Option GuildEconomy → ℤ
shares_in player none = pos 0
shares_in player (some guild) = shares_value player.shares guild.prices stock_count

-- What the record of chaos adds.
chaos_worth : Store → Bytes → Bytes → Option ChaosPlayer → ℤ
chaos_worth s guild_id user_id none = pos 0
chaos_worth s guild_id user_id (some player) =
    player.savings_cents
    +ℤ player.hysa_cents
    +ℤ player.bonds_cents
    +ℤ player.business_cash_cents
    -ℤ player.debt_cents
    +ℤ property_equity s guild_id user_id
    +ℤ business_tangible_value s guild_id user_id
    +ℤ shares_in player (lookup guild_id s.guilds)

advanced_worth : Option AdvancedPlayer → Option GuildEconomy → ℤ
advanced_worth none guild = pos 0
advanced_worth (some player) none = pos 0
advanced_worth (some player) (some guild) = advanced_asset_value player guild

pub entry_of : Store → Bytes → Bytes → Player → Entry
entry_of s guild_id key p =
    let user_id = drop (length (prefix_of guild_id)) key in
    record {
      user_id = user_id;
      net_worth_cents =
          p.wallet_cents
          +ℤ p.checking_cents
          +ℤ chaos_worth s guild_id user_id (lookup key s.chaos_players)
          +ℤ advanced_worth (lookup key s.advanced_players) (lookup guild_id s.guilds);
    }

pub entries_of : Store → Bytes → Dict Player → List Entry
entries_of s guild_id [] = []
entries_of s guild_id ((key, p) ∷ players) =
    let rest = entries_of s guild_id players in
    if starts_with (prefix_of guild_id) key then entry_of s guild_id key p ∷ rest else rest

pub ranks_before : Entry → Entry → Bool
ranks_before left right =
    ltb_ℤ right.net_worth_cents left.net_worth_cents
    || (not (ltb_ℤ left.net_worth_cents right.net_worth_cents)
        && bytes_less left.user_id right.user_id)

pub place : Entry → List Entry → List Entry
place e [] = e ∷ []
place e (x ∷ xs) = let rest = place e xs in if ranks_before e x then e ∷ x ∷ xs else x ∷ rest

pub ranked : List Entry → List Entry
ranked [] = []
ranked (e ∷ es) = place e (ranked es)

-- The buffer of an entry holds 31 bytes of the user's id.
pub shown : Entry → Entry
shown e = record e { user_id = take 31 e.user_id }

pub shown_all : List Entry → List Entry
shown_all [] = []
shown_all (e ∷ es) = shown e ∷ shown_all es

pub economy_leaderboard : Store → Bytes → ℕ → List Entry
economy_leaderboard s guild_id capacity =
    if not (valid_id guild_id) || capacity == 0
    then []
    else shown_all
        (take (min_ℕ capacity max_leaderboard) (ranked (entries_of s guild_id s.players)))

abbrev IsBelow : Entry → Entry → Type 0
IsBelow x y = y.net_worth_cents ≤ℤ x.net_worth_cents

-- From the richest to the poorest.
abbrev pub IsRanked : List Entry → Type 0
IsRanked [] = Unit
IsRanked (e ∷ es) = All (IsBelow e) es × IsRanked es

place-All : (P : Entry → Type 0) (e : Entry) (es : List Entry) → P e → All P es → All P (place e es)
unfolding place
place-All P e [] p h = (p, tt)
place-All P e (x ∷ es) p h =
    if_each (All P) (ranks_before e x) _ _ (λ _. (p, h)) (λ _. (h.0, place-All P e es p h.1))

IsBelow-All :
    (e x : Entry) (es : List Entry) → IsBelow e x → All (IsBelow x) es → All (IsBelow e) es
IsBelow-All e x [] h k = tt
IsBelow-All e x (y ∷ es) h k = (omega (arith, h, k.0), IsBelow-All e x es h k.1)

place-IsRanked : (e : Entry) (es : List Entry) → IsRanked es → IsRanked (place e es)
unfolding place ranks_before
place-IsRanked e [] h = (tt, tt)
place-IsRanked e (x ∷ es) h =
    if_each IsRanked (ranks_before e x) _ _
      (λ b. let less : IsBelow e x = ground arith in ((less, IsBelow-All e x es less h.0), h))
      (λ b.
        let more : IsBelow x e = ground arith in
        (place-All (IsBelow x) e es more h.0, place-IsRanked e es h.1))

ranked-IsRanked : (es : List Entry) → IsRanked (ranked es)
unfolding ranked
ranked-IsRanked [] = tt
ranked-IsRanked (e ∷ es) = place-IsRanked e (ranked es) (ranked-IsRanked es)

take-All : (P : Entry → Type 0) (n : ℕ) (es : List Entry) → All P es → All P (take n es)
take-All P zero es h = tt
take-All P (suc n) [] h = tt
take-All P (suc n) (e ∷ es) h = (h.0, take-All P n es h.1)

take-IsRanked : (n : ℕ) (es : List Entry) → IsRanked es → IsRanked (take n es)
take-IsRanked zero es h = tt
take-IsRanked (suc n) [] h = tt
take-IsRanked (suc n) (e ∷ es) h = (take-All (IsBelow e) n es h.0, take-IsRanked n es h.1)

shown_all-IsBelow :
    (e : Entry) (es : List Entry) → All (IsBelow e) es → All (IsBelow (shown e)) (shown_all es)
unfolding shown shown_all
shown_all-IsBelow e [] h = tt
shown_all-IsBelow e (x ∷ es) h = (h.0, shown_all-IsBelow e es h.1)

shown_all-IsRanked : (es : List Entry) → IsRanked es → IsRanked (shown_all es)
unfolding shown_all
shown_all-IsRanked [] h = tt
shown_all-IsRanked (e ∷ es) h = (shown_all-IsBelow e es h.0, shown_all-IsRanked es h.1)

length-shown_all : (es : List Entry) → length (shown_all es) ≡ length es
unfolding shown_all
length-shown_all [] = refl
length-shown_all (e ∷ es) = ap suc (length-shown_all es)

length-take_short : (n : ℕ) (es : List Entry) → length (take n es) ≤ n
length-take_short zero es = omega arith
length-take_short (suc n) [] = omega arith
length-take_short (suc n) (e ∷ es) = omega (arith, length-take_short n es)

-- The leaderboard goes from the richest to the poorest, and it has no more entries than there is
-- room for, and at most ten.
pub economy_leaderboard-IsRanked :
    (s : Store) (guild_id : Bytes) (capacity : ℕ)
    → IsRanked (economy_leaderboard s guild_id capacity)
      × (length (economy_leaderboard s guild_id capacity) ≤ capacity)
      × (length (economy_leaderboard s guild_id capacity) ≤ max_leaderboard)
unfolding economy_leaderboard
economy_leaderboard-IsRanked s guild_id capacity =
    let es = ranked (entries_of s guild_id s.players) in
    let n = min_ℕ capacity max_leaderboard in
    let short : length (shown_all (take n es)) ≤ n =
      omega (arith, length-shown_all (take n es), length-take_short n es) in
    let few : (n ≤ capacity) × (n ≤ max_leaderboard) = ground arith in
    if_keeps
      (λ (xs : List Entry). IsRanked xs × (length xs ≤ capacity) × (length xs ≤ max_leaderboard))
      (not (valid_id guild_id) || capacity == 0) _ _ (tt, omega arith, omega arith)
      (
        shown_all-IsRanked _ (take-IsRanked n es (ranked-IsRanked _)),
        omega (arith, short, few.0),
        omega (arith, short, few.1),
      )
