-- ===== src/Kernel/RateLimiter.antt =====
-- src/rate_limiter.cpp: the buckets of each route, and at most 50 requests a second over all routes.
-- Time points are nanoseconds of the steady clock. A reading of the clock is an argument of the call
-- that reads it; the mutex makes each call one step.
use routine_linux_edition.Base.{
  ℕ, suc, ◌+◌, Bool, true, false, List, [], ◌∷◌, ◌++◌, Option, none, some, leb, if◌then◌else◌,
  length,
}
use routine_linux_edition.Base.Int.{ℤ, pos, ◌+ℤ◌, ◌-ℤ◌, ◌*ℤ◌, ◌/ℤ◌, ltb_ℤ, leb_ℤ}
use routine_linux_edition.Base.Bytes.{Bytes}
use routine_linux_edition.Base.Dict.{Dict, lookup, insert}
pub mod Bucket
pub mod Window
mod Tests

pub record BucketInfo : Type 0 where
  pub remaining : ℤ
  pub limit : ℤ
  pub reset_time : ℤ
  pub bucket_id : Bytes

pub record RateLimiter : Type 0 where
  pub buckets : Dict BucketInfo
  pub global_requests : List ℤ

abbrev pub global_limit : ℕ
global_limit = 50

abbrev pub global_window_ms : ℕ
global_window_ms = 1000

abbrev pub ns_per_ms : ℕ
ns_per_ms = 1_000_000

-- std::chrono::milliseconds, as a difference of time points.
abbrev pub milliseconds : ℤ → ℤ
milliseconds n = n *ℤ pos ns_per_ms

-- duration_cast<milliseconds>(…).count(), towards zero.
abbrev pub count_ms : ℤ → ℤ
count_ms d = d /ℤ ns_per_ms

pub can_make_request : RateLimiter → Bytes → ℤ → Bool × RateLimiter
can_make_request r route now = elim (lookup route r.buckets) [
  | none ↦ (true, r)
  | some b ↦
      if leb_ℤ b.reset_time now
      then (true, record r { buckets = insert route (record b { remaining = b.limit }) r.buckets })
      else (ltb_ℤ (pos 0) b.remaining, r)
]

pub update_from_headers : RateLimiter → Bytes → ℤ → ℤ → ℤ → Bytes → ℤ → RateLimiter
update_from_headers r route remaining limit reset_after bucket now = record r {
  buckets = insert route info r.buckets;
}
  where
    info : BucketInfo
    info = record {
      remaining = remaining;
      limit = limit;
      reset_time = now +ℤ milliseconds reset_after;
      bucket_id = bucket;
    }

-- The delay in milliseconds.
pub get_delay : RateLimiter → Bytes → ℤ → ℤ × RateLimiter
get_delay r route now = elim (lookup route r.buckets) [
  | none ↦ (pos 0, r)
  | some b ↦
      if leb_ℤ b.reset_time now
      then (pos 0, r)
      else if ltb_ℤ (pos 0) b.remaining
      then (
        pos 0,
        record r {
          buckets = insert route (record b { remaining = b.remaining -ℤ pos 1 }) r.buckets;
        },
      )
      else (count_ms (b.reset_time -ℤ now), r)
]

pub reset : RateLimiter → RateLimiter
reset r = record r { buckets = []; global_requests = [] }

-- Requests older than the window leave the front of the queue.
pub prune : ℤ → List ℤ → List ℤ
prune window_start [] = []
prune window_start (t ∷ ts) =
    let rest = prune window_start ts in if ltb_ℤ t window_start then rest else t ∷ ts

pub window_start : ℤ → ℤ
window_start now = now -ℤ milliseconds (pos global_window_ms)

-- The time that the call sleeps, in milliseconds, and what stays in the queue.
pub admit : ℤ → List ℤ → ℤ × List ℤ
admit now [] = (pos 0, [])
admit now (oldest ∷ rest) =
    if leb global_limit (length (oldest ∷ rest))
    then (count_ms (oldest +ℤ milliseconds (pos global_window_ms) -ℤ now), rest)
    else (pos 0, oldest ∷ rest)

-- `later` is the second reading of the clock, behind the sleep.
pub enforce_global_limit : RateLimiter → ℤ → ℤ → RateLimiter
enforce_global_limit r now later = record r {
  global_requests = (admit now (prune (window_start now) r.global_requests)).1 ++ later ∷ [];
}

-- How long the global limit makes a request sleep.
pub global_delay : RateLimiter → ℤ → ℤ
global_delay r now = (admit now (prune (window_start now) r.global_requests)).0

-- The clock is read by get_delay, before the window is looked at, and behind the sleep.
pub wait_if_needed : RateLimiter → Bytes → ℤ → ℤ → ℤ → RateLimiter
wait_if_needed r route asked now later = enforce_global_limit (get_delay r route asked).1 now later
