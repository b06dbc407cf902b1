-- ===== src/Economy/Tick/Election/Held.antt =====
-- Elections that are due are held.
use routine_linux_edition.Base.{
  ◌≡◌, refl, true, false, [], ◌∷◌, some, inl, inr, ◌⊎◌, Bool-cases, if◌then◌else◌, if_each,
  if_keeps, arith,
}
use routine_linux_edition.Base.Int.{ℤ, pos}
use routine_linux_edition.Base.Bytes.{Bytes, bytes_eq, is_empty}
use routine_linux_edition.Base.Dict.{Dict, lookup, lookup-insert}
use routine_linux_edition.Economy.State.{Store, GovernmentState}
use routine_linux_edition.Economy.Tick.{Ticked}
use routine_linux_edition.Economy.Tick.Election.{
  is_running, closed, sworn_in, elect, elect_all, tally, nobody,
}

-- A government with no election due, or one whose turn is to come.
abbrev Waits : ℤ → Dict GovernmentState → Bytes → GovernmentState → Type 0
Waits now governments k g = (is_running now g ≡ true) ⊎ (lookup k governments ≡ some g)

pub record IsPending (now : ℤ) (governments : Dict GovernmentState) (s : Store) : Type 0 where
  pub waits :
      (k : Bytes) (g : GovernmentState)
      → lookup k s.governments ≡ some g
      → Waits now governments k g

over :
    (now : ℤ) (g x : GovernmentState)
    → some (record g { election_end_unix = pos 0 }) ≡ some x
    → is_running now x ≡ true
over now g x e = ground arith

-- The servers but the first keep waiting.
passed :
    (now : ℤ) (guild_id k : Bytes) (g x : GovernmentState) (governments : Dict GovernmentState)
    → Waits now ((guild_id, g) ∷ governments) k x
    → bytes_eq k guild_id ≡ false
    → Waits now governments k x
unfolding lookup
passed now guild_id k g x governments (inl running) other = inl running
passed now guild_id k g x governments (inr e) other = inr (rw other at e)

-- The government of the server whose turn it is, with its election over.
closed-IsPending :
    (now : ℤ) (guild_id : Bytes) (g : GovernmentState) (governments : Dict GovernmentState)
    (s : Store) (r : GovernmentState × Store)
    → r.1.governments ≡ s.governments
    → IsPending now ((guild_id, g) ∷ governments) s
    → IsPending now governments (closed guild_id r)
unfolding closed
closed-IsPending now guild_id g governments s (after, t) same h = record {
  waits = λ k x e.
      let found =
        rw (lookup-insert k guild_id (record after { election_end_unix = pos 0 }) t.governments) at
          e in
      elim (Bool-cases (bytes_eq k guild_id)) [
        | inl here ↦ inl (over now after x (rw here at found))
        | inr other ↦
            passed now guild_id k g x governments (h.waits k x (rw same at (rw other at found)))
              other
      ];
}

still :
    (now : ℤ) (guild_id k : Bytes) (g x : GovernmentState) (governments : Dict GovernmentState)
    → is_running now g ≡ true
    → Waits now ((guild_id, g) ∷ governments) k x
    → bytes_eq k guild_id ≡ true
    → is_running now x ≡ true
unfolding lookup
still now guild_id k g x governments running (inl other) here = other
still now guild_id k g x governments running (inr e) here = ground arith

-- A running election waits on.
running-IsPending :
    (now : ℤ) (guild_id : Bytes) (g : GovernmentState) (governments : Dict GovernmentState)
    (s : Store)
    → is_running now g ≡ true
    → IsPending now ((guild_id, g) ∷ governments) s
    → IsPending now governments s
running-IsPending now guild_id g governments s running h = record {
  waits = λ k x e. elim (Bool-cases (bytes_eq k guild_id)) [
    | inl here ↦ inl (still now guild_id k g x governments running (h.waits k x e) here)
    | inr other ↦ passed now guild_id k g x governments (h.waits k x e) other
  ];
}

elect-IsPending :
    (now : ℤ) (guild_id : Bytes) (g : GovernmentState) (governments : Dict GovernmentState)
    (s : Store)
    → IsPending now ((guild_id, g) ∷ governments) s
    → IsPending now governments (elect now guild_id g s).1
unfolding elect
elect-IsPending now guild_id g governments s h =
    let best = tally guild_id s.votes s.candidates nobody in
    let same : (if is_empty best.winner
          then (g, s)
          else sworn_in now guild_id best g s).1.governments
        ≡ s.governments =
      if_keeps (λ (r : GovernmentState × Store). r.1.governments ≡ s.governments)
        (is_empty best.winner) _ _ refl (unfold sworn_in in refl) in
    if_each (λ (t : Ticked). IsPending now governments t.1) (is_running now g) _ _
      (λ running. running-IsPending now guild_id g governments s running h)
      (λ _. closed-IsPending now guild_id g governments s _ same h)

elect_all-IsPending :
    (now : ℤ) (governments : Dict GovernmentState) (s : Store)
    → IsPending now governments s
    → IsPending now [] (elect_all now governments s).1
unfolding elect_all
elect_all-IsPending now [] s h = h
elect_all-IsPending now ((guild_id, g) ∷ governments) s h =
    elect_all-IsPending now governments _ (elect-IsPending now guild_id g governments s h)

done : (now : ℤ) (k : Bytes) (g : GovernmentState) → Waits now [] k g → is_running now g ≡ true
unfolding lookup
done now k g (inl running) = running
done now k g (inr e) = absurd (ground arith)

-- After the loop over the governments no election is left whose end has come.
pub elect_all_holds :
    (now : ℤ) (s : Store) (guild_id : Bytes) (g : GovernmentState)
    → lookup guild_id (elect_all now s.governments s).1.governments ≡ some g
    → is_running now g ≡ true
elect_all_holds now s guild_id g e =
    let end = elect_all-IsPending now s.governments s (record { waits = λ k x f. inr f }) in
    done now guild_id g (end.waits guild_id g e)
