-- ===== src/Economy/Dynamics/Heard.antt =====
-- The loop over the global events, run again.
use routine_linux_edition.Base.{
  ℕ, ◌≤◌, ◌≡◌, refl, false, List, [], ◌∷◌, arith, Bool-cases, inl, inr, if_keeps, All,
}
use routine_linux_edition.Economy.State.{NewsEvent}
use routine_linux_edition.Economy.Dynamics.{Country}
use routine_linux_edition.Economy.Dynamics.Cycle.{hear, hear_all, is_unheard}

abbrev last_heard : Country → ℕ
last_heard c = c.dynamics.last_global_event_id

abbrev IsHeard : Country → NewsEvent → Type 0
IsHeard c event = is_unheard c event ≡ false

hear_more : (c : Country) (event : NewsEvent) → last_heard c ≤ last_heard (hear c event)
unfolding hear
hear_more c event =
    if_keeps (λ d. last_heard c ≤ last_heard d) (is_unheard c event) _ _ (ground arith)
      (omega arith)

hear_all_more : (c : Country) (news : List NewsEvent) → last_heard c ≤ last_heard (hear_all c news)
unfolding hear_all
hear_all_more c [] = omega arith
hear_all_more c (event ∷ news) = omega (arith, hear_more c event, hear_all_more (hear c event) news)

hear_self : (c : Country) (event : NewsEvent) → IsHeard (hear c event) event
unfolding hear
hear_self c event = elim (Bool-cases (is_unheard c event)) [
  | inl new ↦ rw new (ground arith)
  | inr old ↦ rw old old
]

IsHeard-later :
    (c d : Country) (event : NewsEvent)
    → IsHeard c event
    → last_heard c ≤ last_heard d
    → IsHeard d event
IsHeard-later c d event h k = ground arith

hear_all-IsHeard : (c : Country) (news : List NewsEvent) → All (IsHeard (hear_all c news)) news
unfolding hear_all
hear_all-IsHeard c [] = tt
hear_all-IsHeard c (event ∷ news) = (
  IsHeard-later (hear c event) (hear_all (hear c event) news) event (hear_self c event)
      (hear_all_more (hear c event) news),
  hear_all-IsHeard (hear c event) news,
)

hear_old : (c : Country) (event : NewsEvent) → IsHeard c event → hear c event ≡ c
unfolding hear
hear_old c event h = rw h refl

hear_all_old : (c : Country) (news : List NewsEvent) → All (IsHeard c) news → hear_all c news ≡ c
unfolding hear_all
hear_all_old c [] h = refl
hear_all_old c (event ∷ news) h = rw (hear_old c event h.0) (hear_all_old c news h.1)

-- A server that has gone through the news and goes through the same news again is not moved by them
-- a second time.
hear_all_twice :
    (c : Country) (news : List NewsEvent) → hear_all (hear_all c news) news ≡ hear_all c news
hear_all_twice c news = hear_all_old (hear_all c news) news (hear_all-IsHeard c news)
