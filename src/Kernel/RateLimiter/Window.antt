-- ===== src/Kernel/RateLimiter/Window.antt =====
-- The window of the last second over all routes.
use routine_linux_edition.Base.{
  ◌≤◌, ◌<◌, ◌≡◌, refl, sym, ◌∙◌, ap, inl, inr, List, [], ◌∷◌, ◌++◌, append_assoc, arith, Bool-cases,
  leb, length, length-append, All, tests,
}
use routine_linux_edition.Base.Int.{
  ℤ, pos, ◌+ℤ◌, ◌-ℤ◌, ◌*ℤ◌, ◌≤ℤ◌, leb_ℤ, ltb_ℤ, int_laws, int_tests, *ℤ_parts,
}
use routine_linux_edition.Kernel.RateLimiter.{
  RateLimiter, enforce_global_limit, global_delay, prune, admit, window_start, global_limit,
  global_window_ms, milliseconds, count_ms, ns_per_ms,
}
use routine_linux_edition.Kernel.RateLimiter.Bucket.{count_ms_bounds}

-- A request that leaves the queue is this old, in nanoseconds: the window but for a millisecond.
abbrev pub IsPast : ℤ → ℤ → Type 0
IsPast now t = t +ℤ pos 999_000_001 ≤ℤ now

-- What a request drops from the queue, and what it keeps.
pub record Admission (before : List ℤ) (later : ℤ) (after : List ℤ) : Type 0 where
  pub dropped : List ℤ
  pub kept : List ℤ
  pub splits : before ≡ dropped ++ kept
  pub records : after ≡ kept ++ later ∷ []
  pub past : All (λ (t : ℤ). IsPast later t) dropped
  pub room : length kept < global_limit

window_start_lem :
    (now : ℤ)
    → (window_start now +ℤ pos 1_000_000_000 ≤ℤ now)
      × (now ≤ℤ window_start now +ℤ pos 1_000_000_000)
unfolding window_start ◌*ℤ◌
window_start_lem now = omega int_laws

prune_splits :
    (now : ℤ) (ts : List ℤ)
    → (dropped : List ℤ) × (ts ≡ dropped ++ prune (window_start now) ts)
      × All (λ (t : ℤ). IsPast now t) dropped
unfolding prune
prune_splits now [] = ([], refl, tt)
prune_splits now (t ∷ ts) = elim (Bool-cases (ltb_ℤ t (window_start now))) [
  | inl old ↦
      let (dropped, e, past) = prune_splits now ts in
      (t ∷ dropped, rw old (ap (◌∷◌ t) e), (omega (int_tests, window_start_lem now), past))
  | inr recent ↦ ([], rw recent refl, tt)
]

length-prune-le : (w : ℤ) (ts : List ℤ) → length (prune w ts) ≤ length ts
unfolding prune
length-prune-le w [] = omega arith
length-prune-le w (t ∷ ts) = ground (arith, length-prune-le w ts)

-- Sleeping at least as long as is asked, the oldest request is past when the new one is recorded.
abbrev pub Sleeps : ℤ → ℤ → ℤ → Type 0
Sleeps now delay later = (now ≤ℤ later) × (now +ℤ milliseconds delay ≤ℤ later)

full-IsPast :
    (now later oldest : ℤ)
    → now ≤ℤ later
    → now +ℤ milliseconds (count_ms (oldest +ℤ milliseconds (pos global_window_ms) -ℤ now)) ≤ℤ later
    → IsPast later oldest
full-IsPast now later oldest h k =
    let end = oldest +ℤ milliseconds (pos global_window_ms) in
    let window = *ℤ_parts (pos global_window_ms) ns_per_ms in
    elim (Bool-cases (leb_ℤ end now)) [
      | inl over ↦ omega (int_tests, window)
      | inr running ↦ omega (int_tests, window, count_ms_bounds now end (omega int_tests))
    ]

All-IsPast-mono :
    (now later : ℤ) (ts : List ℤ)
    → now ≤ℤ later
    → All (λ (t : ℤ). IsPast now t) ts
    → All (λ (t : ℤ). IsPast later t) ts
All-IsPast-mono now later [] h p = tt
All-IsPast-mono now later (t ∷ ts) h p = (omega int_laws, All-IsPast-mono now later ts h p.1)

All-append :
    (later : ℤ) (xs ys : List ℤ)
    → All (λ (t : ℤ). IsPast later t) xs
    → All (λ (t : ℤ). IsPast later t) ys
    → All (λ (t : ℤ). IsPast later t) (xs ++ ys)
All-append later [] ys h k = k
All-append later (x ∷ xs) ys h k = (h.0, All-append later xs ys h.1 k)

admit_splits :
    (now later : ℤ) (ts : List ℤ)
    → length ts ≤ global_limit
    → Sleeps now ((admit now ts).0) later
    → (dropped : List ℤ) × (ts ≡ dropped ++ (admit now ts).1)
      × All (λ (t : ℤ). IsPast later t) dropped
      × (length ((admit now ts).1) < global_limit)
unfolding admit
admit_splits now later [] h s = ([], refl, tt, omega arith)
admit_splits now later (oldest ∷ rest) h s =
    elim (Bool-cases (leb global_limit (length (oldest ∷ rest)))) [
      | inl full ↦
          let s' = rw full at s in
          (
            oldest ∷ [],
            rw full refl,
            (full-IsPast now later oldest s.0 s'.1, tt),
            rw full (omega arith),
          )
      | inr some_room ↦ ([], rw some_room refl, tt, rw some_room (omega tests))
    ]

-- When at most 50 requests are remembered and the sleep lasts at least the delay that is asked for,
-- the request is recorded, at most 50 are remembered after it, and every request that is forgotten
-- came more than 999 milliseconds before.
pub enforce_global_limit-Admission :
    (r : RateLimiter) (now later : ℤ)
    → length r.global_requests ≤ global_limit
    → Sleeps now (global_delay r now) later
    → Admission r.global_requests later (enforce_global_limit r now later).global_requests
      × (length (enforce_global_limit r now later).global_requests ≤ global_limit)
unfolding enforce_global_limit global_delay
enforce_global_limit-Admission r now later h s =
    let pruned = prune (window_start now) r.global_requests in
    let (old, e, past) = prune_splits now r.global_requests in
    let small = length-prune-le (window_start now) r.global_requests in
    let (left, e', past', room) = admit_splits now later pruned (omega arith) s in
    let after = (admit now pruned).1 in
    (
      record {
        dropped = old ++ left;
        kept = after;
        splits = e ∙ ap (◌++◌ old) e' ∙ sym (append_assoc old left after);
        records = refl;
        past = All-append later old left (All-IsPast-mono now later old s.0 past) past';
        room = room;
      },
      omega (arith, length-append after (later ∷ [])),
    )
