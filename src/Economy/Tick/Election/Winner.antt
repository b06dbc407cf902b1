-- ===== src/Economy/Tick/Election/Winner.antt =====
-- Who wins an election.
use routine_linux_edition.Base.{
  ◌≤◌, ◌≡◌, refl, Bool, true, false, ◌&&◌, List, [], ◌∷◌, ◌==◌, All, arith, Bool-cases, inl, inr,
  ◌⊎◌, any, ==_self, if_each, &&→both,
}
use routine_linux_edition.Base.Bytes.{
  Bytes, bytes_eq, bytes_eq_self, is_empty, bytes_less, bytes_less_irrefl, bytes_less_trans,
}
use routine_linux_edition.Base.Dict.{Dict}
use routine_linux_edition.Economy.State.{ElectionCandidate}
use routine_linux_edition.Economy.Tick.Election.{
  votes_for, Tally, nobody, overtakes, tallied, tally,
}

-- What the winner is to a candidate: no candidate of the server has more votes, and of those
-- with as many none has the smaller id.
pub record IsBeaten (guild_id : Bytes) (votes : Dict Bytes) (best : Tally) (c : ElectionCandidate)
    : Type 0 where
  pub some_one : is_empty best.winner ≡ false
  pub fewer : votes_for guild_id c.user_id votes ≤ best.votes
  pub later :
      votes_for guild_id c.user_id votes == best.votes && bytes_less c.user_id best.winner ≡ false

module _ (guild_id : Bytes) (votes : Dict Bytes) where
  -- A candidate who considers the best so far as better stays behind.
  behind :
      (c d : ElectionCandidate) (best : Tally)
      → is_empty d.user_id ≡ false
      → IsBeaten guild_id votes best c
      → overtakes d.user_id (votes_for guild_id d.user_id votes) best ≡ true
      → IsBeaten guild_id votes
          (record {
            winner = d.user_id;
            platform = d.platform;
            votes = votes_for guild_id d.user_id votes;
          })
          c
  unfolding overtakes
  behind c d best h k o =
      let a = k.some_one in
      let b = k.fewer in
      let e = k.later in
      record {
        some_one = h;
        fewer = ground arith;
        later = ground (arith, bytes_less_trans c.user_id d.user_id best.winner);
      }

  tallied-IsBeaten :
      (c d : ElectionCandidate) (best : Tally)
      → is_empty d.user_id ≡ false
      → IsBeaten guild_id votes best c
      → IsBeaten guild_id votes (tallied guild_id votes d best) c
  unfolding tallied
  tallied-IsBeaten c d best h k =
      if_each (λ (t : Tally). IsBeaten guild_id votes t c)
        (bytes_eq d.guild_id guild_id
          && overtakes d.user_id (votes_for guild_id d.user_id votes) best)
        _ _ (λ o. behind c d best h k (&&→both (bytes_eq d.guild_id guild_id) _ o).1) (λ _. k)

  considered :
      (c : ElectionCandidate) (best : Tally)
      → is_empty c.user_id ≡ false
      → overtakes c.user_id (votes_for guild_id c.user_id votes) best ≡ false
      → IsBeaten guild_id votes best c
  unfolding overtakes
  considered c best h o = record {
    some_one = ground arith;
    fewer = ground arith;
    later = ground arith;
  }

  tallied_own :
      (c : ElectionCandidate) (best : Tally)
      → is_empty c.user_id ≡ false
      → bytes_eq c.guild_id guild_id ≡ true
      → IsBeaten guild_id votes (tallied guild_id votes c best) c
  unfolding tallied
  tallied_own c best h e =
      let own = bytes_less_irrefl c.user_id in
      rw e (
        if_each (λ (t : Tally). IsBeaten guild_id votes t c)
          (overtakes c.user_id (votes_for guild_id c.user_id votes) best) _ _
          (λ o. record { some_one = h; fewer = omega arith; later = ground arith })
          (λ o. considered c best h o))

  tally-IsBeaten :
      (c : ElectionCandidate) (candidates : List ElectionCandidate) (best : Tally)
      → All (λ (d : ElectionCandidate). is_empty d.user_id ≡ false) candidates
      → IsBeaten guild_id votes best c
      → IsBeaten guild_id votes (tally guild_id votes candidates best) c
  unfolding tally
  tally-IsBeaten c [] best h k = k
  tally-IsBeaten c (d ∷ candidates) best (h, hs) k =
      tally-IsBeaten c candidates _ hs (tallied-IsBeaten c d best h k)

  abbrev pub IsBeatenIn : Tally → ElectionCandidate → Type 0
  IsBeatenIn best c = (bytes_eq c.guild_id guild_id ≡ false) ⊎ IsBeaten guild_id votes best c

  tally_beats :
      (candidates : List ElectionCandidate) (best : Tally)
      → All (λ (d : ElectionCandidate). is_empty d.user_id ≡ false) candidates
      → All (IsBeatenIn (tally guild_id votes candidates best)) candidates
  unfolding tally
  tally_beats [] best h = tt
  tally_beats (c ∷ candidates) best (h, hs) = (
    elim (Bool-cases (bytes_eq c.guild_id guild_id)) [
      | inl here ↦ inr (tally-IsBeaten c candidates _ hs (tallied_own c best h here))
      | inr other ↦ inl other
    ],
    tally_beats candidates _ hs,
  )

  -- The tally names a candidate of the server, and counts the votes.
  abbrev pub names : Tally → ElectionCandidate → Bool
  names best c =
      bytes_eq c.guild_id guild_id
      && (bytes_eq c.user_id best.winner && c.platform == best.platform)

  pub record IsRun (best : Tally) (candidates : List ElectionCandidate) : Type 0 where
    pub named : any (names best) candidates ≡ true
    pub counted : best.votes ≡ votes_for guild_id best.winner votes

  tallied-IsRun :
      (c : ElectionCandidate) (candidates : List ElectionCandidate) (best : Tally)
      → (tallied guild_id votes c best ≡ best)
        ⊎ IsRun (tallied guild_id votes c best) (c ∷ candidates)
  unfolding tallied
  tallied-IsRun c candidates best =
      if_each (λ (t : Tally). (t ≡ best) ⊎ IsRun t (c ∷ candidates))
        (bytes_eq c.guild_id guild_id
          && overtakes c.user_id (votes_for guild_id c.user_id votes) best)
        _ _
        (λ o.
          let here = (&&→both (bytes_eq c.guild_id guild_id) _ o).0 in
          inr (record {
            named = rw (here, bytes_eq_self c.user_id, ==_self c.platform) refl;
            counted = refl;
          }))
        (λ _. inl refl)

  more_candidates :
      (c : ElectionCandidate) (candidates : List ElectionCandidate) (best : Tally)
      → IsRun best candidates
      → IsRun best (c ∷ candidates)
  more_candidates c candidates best h =
      let k = h.named in record { named = ground arith; counted = h.counted }

  tally-IsRun :
      (candidates : List ElectionCandidate) (best : Tally)
      → (tally guild_id votes candidates best ≡ best)
        ⊎ IsRun (tally guild_id votes candidates best) candidates
  unfolding tally
  tally-IsRun [] best = inl refl
  tally-IsRun (c ∷ candidates) best =
      elim (tally-IsRun candidates (tallied guild_id votes c best)) [
        | inr run ↦ inr (more_candidates c candidates _ run)
        | inl same ↦ rw same (tallied-IsRun c candidates best)
      ]

-- Where the ids of the candidates are not empty, every candidate of the server has at most the
-- votes of the winner, none with as many has the smaller id, and the winner is a candidate of the
-- server with the platform and the votes that are counted, or there is no winner.
pub tally_elects :
    (guild_id : Bytes) (votes : Dict Bytes) (candidates : List ElectionCandidate)
    → All (λ (d : ElectionCandidate). is_empty d.user_id ≡ false) candidates
    → let best = tally guild_id votes candidates nobody in
      All (IsBeatenIn guild_id votes best) candidates
      × ((best ≡ nobody) ⊎ IsRun guild_id votes best candidates)
tally_elects guild_id votes candidates h =
    (tally_beats guild_id votes candidates nobody h, tally-IsRun guild_id votes candidates nobody)
