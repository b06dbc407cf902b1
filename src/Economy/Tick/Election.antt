-- ===== src/Economy/Tick/Election.antt =====
-- The elections of economy_tick_all_impl of lib/local_economy_extension.cpp: the votes are counted when
-- an election ends, and the winner's platform takes effect.
use routine_linux_edition.Base.{
  ℕ, zero, suc, ◌+◌, Bool, true, false, not, ◌&&◌, ◌||◌, List, [], ◌∷◌, ◌++◌, ltb, ◌==◌,
  if◌then◌else◌,
}
use routine_linux_edition.Base.Int.{ℤ, pos, ◌+ℤ◌, ◌-ℤ◌, leb_ℤ, ltb_ℤ, min_ℤ, max_ℤ}
use routine_linux_edition.Base.Bytes.{Bytes, bytes, bytes_eq, is_empty, starts_with, bytes_less}
use routine_linux_edition.Base.Decimal.{show_ℕ}
use routine_linux_edition.Base.Dict.{Dict, insert, at}
use routine_linux_edition.Economy.State.{
  Store, new_guild_economy, GuildEconomy, GovernmentState, ElectionCandidate,
}
use routine_linux_edition.Economy.Accounts.{prefix_of}
use routine_linux_edition.Economy.Tick.{Ticked, Subject, entry}
pub mod Winner
pub mod Held

-- The votes for a user in a server.
unfoldable pub votes_for : Bytes → Bytes → Dict Bytes → ℕ
votes_for guild_id user_id [] = 0
votes_for guild_id user_id ((key, vote) ∷ votes) =
    let rest = votes_for guild_id user_id votes in
    if starts_with (prefix_of guild_id) key && bytes_eq vote user_id then suc rest else rest

-- The best of the candidates so far.
pub record Tally : Type 0 where
  pub winner : Bytes
  pub platform : ℕ
  pub votes : ℕ

abbrev pub nobody : Tally
nobody = record { winner = []; platform = 0; votes = 0 }

pub overtakes : Bytes → ℕ → Tally → Bool
overtakes user_id votes best =
    is_empty best.winner
    || (ltb best.votes votes || (votes == best.votes && bytes_less user_id best.winner))

pub tallied : Bytes → Dict Bytes → ElectionCandidate → Tally → Tally
tallied guild_id votes c best =
    let n = votes_for guild_id c.user_id votes in
    if bytes_eq c.guild_id guild_id && overtakes c.user_id n best
    then record { winner = c.user_id; platform = c.platform; votes = n }
    else best

unfoldable pub tally : Bytes → Dict Bytes → List ElectionCandidate → Tally → Tally
tally guild_id votes [] best = best
tally guild_id votes (c ∷ candidates) best =
    tally guild_id votes candidates (tallied guild_id votes c best)

-- The taxes and the welfare of a platform.
pub enacted : ℤ → Tally → GovernmentState → GovernmentState
enacted now best g = record g {
  mayor_id = best.winner;
  platform = best.platform;
  term_end_unix = now +ℤ pos 604_800;
  tax_basis_points =
      if best.platform == 1 then pos 800 else if best.platform == 2 then pos 400 else pos 250;
  welfare_cents =
      if best.platform == 1 then pos 5_000 else if best.platform == 2 then pos 2_000 else pos 1_000;
}

pub cheered : ℕ → GuildEconomy → GuildEconomy
cheered platform economy = record economy {
  confidence = min_ℤ (pos 90) (
      economy.confidence
      +ℤ (if platform == 2 then pos 5 else if platform == 0 then pos 3 else pos 1));
  unemployment_bp =
      if platform == 1 || platform == 2
      then max_ℤ (pos 150) (economy.unemployment_bp -ℤ (if platform == 2 then pos 200 else pos 100))
      else economy.unemployment_bp;
}

-- The winner takes office.
pub sworn_in : ℤ → Bytes → Tally → GovernmentState → Store → GovernmentState × Store
sworn_in now guild_id best g s =
    let about : Subject = record { guild_id = guild_id; user_id = best.winner; now = now } in
    (
      enacted now best g,
      record s {
        guilds =
            insert guild_id (cheered best.platform (at new_guild_economy guild_id s.guilds))
              s.guilds;
        audit =
            s.audit
            ++ entry about (bytes "election")
                (bytes "Won the mayoral election with " ++ (show_ℕ best.votes ++ bytes " vote(s)."))
              ∷ [];
      },
    )

unfoldable pub other_candidates : Bytes → List ElectionCandidate → List ElectionCandidate
other_candidates guild_id [] = []
other_candidates guild_id (c ∷ candidates) =
    let rest = other_candidates guild_id candidates in
    if bytes_eq c.guild_id guild_id then rest else c ∷ rest

unfoldable pub other_votes : Bytes → Dict Bytes → Dict Bytes
other_votes guild_id [] = []
other_votes guild_id ((key, vote) ∷ votes) =
    let rest = other_votes guild_id votes in
    if starts_with (prefix_of guild_id) key then rest else (key, vote) ∷ rest

abbrev pub is_running : ℤ → GovernmentState → Bool
is_running now g = leb_ℤ g.election_end_unix (pos 0) || ltb_ℤ now g.election_end_unix

-- The end of an election: candidates and votes are gone, whoever won.
unfoldable pub closed : Bytes → GovernmentState × Store → Store
closed guild_id (g, s) = record s {
  governments = insert guild_id (record g { election_end_unix = pos 0 }) s.governments;
  candidates = other_candidates guild_id s.candidates;
  votes = other_votes guild_id s.votes;
}

unfoldable pub elect : ℤ → Bytes → GovernmentState → Store → Ticked
elect now guild_id g s =
    let best = tally guild_id s.votes s.candidates nobody in
    if is_running now g then (false, s) else (
      true,
      closed guild_id (if is_empty best.winner then (g, s) else sworn_in now guild_id best g s),
    )

unfoldable pub elect_all : ℤ → Dict GovernmentState → Store → Ticked
elect_all now [] s = (false, s)
elect_all now ((guild_id, g) ∷ governments) s =
    let first = elect now guild_id g s in
    let rest = elect_all now governments first.1 in (first.0 || rest.0, rest.1)
