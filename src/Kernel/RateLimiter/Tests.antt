-- ===== src/Kernel/RateLimiter/Tests.antt =====
-- A limiter that is asked.
use routine_linux_edition.Base.{◌≤◌, ◌≡◌, refl, [], ◌∷◌, length, arith}
use routine_linux_edition.Base.Int.{pos, ◌-ℤ◌, ◌*ℤ◌, ◌+ℤ◌, ◌≤ℤ◌}
use routine_linux_edition.Base.Bytes.{bytes, bytes_eq}
use routine_linux_edition.Base.Dict.{lookup}
use routine_linux_edition.Kernel.RateLimiter.{
  RateLimiter, BucketInfo, get_delay, enforce_global_limit, global_delay, global_limit, admit,
  prune, window_start, milliseconds,
}
use routine_linux_edition.Kernel.RateLimiter.Bucket.{get_delay_waits}
use routine_linux_edition.Kernel.RateLimiter.Window.{enforce_global_limit-Admission, Admission}

abbrev two_left : BucketInfo
two_left = record { remaining = pos 2; limit = pos 5; reset_time = pos 7_500_000; bucket_id = [] }

abbrev none_left : BucketInfo
none_left = record two_left { remaining = pos 0 }

abbrev limiter : BucketInfo → RateLimiter
limiter b = record {
  buckets = (bytes "x", b) ∷ [];
  global_requests = pos 5 ∷ pos 2_000_000_000 ∷ [];
}

get_delay_waits_example :
    ((get_delay (limiter none_left) (bytes "x") (pos 9)).1 ≡ limiter none_left)
    × (pos 7_500_000
        ≤ℤ pos 9
          +ℤ milliseconds ((get_delay (limiter none_left) (bytes "x") (pos 9)).0)
          +ℤ pos 999_999)
    × (pos 9 +ℤ milliseconds ((get_delay (limiter none_left) (bytes "x") (pos 9)).0)
        ≤ℤ pos 7_500_000)
unfolding lookup bytes_eq
get_delay_waits_example =
    get_delay_waits (limiter none_left) (bytes "x") (pos 9) none_left refl refl refl

enforce_global_limit-Admission_example :
    Admission
      (pos 5 ∷ pos 2_000_000_000 ∷ [])
      (pos 2_500_000_000)
      (enforce_global_limit
        (limiter two_left)
        (pos 2_400_000_000)
        (pos 2_500_000_000)).global_requests
    × (length
          (enforce_global_limit
            (limiter two_left)
            (pos 2_400_000_000)
            (pos 2_500_000_000)).global_requests
        ≤ global_limit)
unfolding global_delay admit prune window_start ◌*ℤ◌ ◌-ℤ◌ ◌+ℤ◌
enforce_global_limit-Admission_example =
    enforce_global_limit-Admission (limiter two_left) (pos 2_400_000_000) (pos 2_500_000_000)
      (omega arith) (omega arith)
