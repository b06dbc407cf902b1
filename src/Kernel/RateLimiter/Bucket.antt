-- ===== src/Kernel/RateLimiter/Bucket.antt =====
-- The bucket of one route.
use routine_linux_edition.Base.{◌≡◌, refl, true, false, some, arith, if◌then◌else◌}
use routine_linux_edition.Base.Int.{
  ℤ, pos, ◌+ℤ◌, ◌-ℤ◌, ◌≤ℤ◌, leb_ℤ, ltb_ℤ, int_laws, one_part, *ℤ_parts, /ℤ_parts,
}
use routine_linux_edition.Base.Bytes.{Bytes, bytes_eq}
use routine_linux_edition.Base.Dict.{lookup, lookup-insert, lookup-insert_self}
use routine_linux_edition.Kernel.RateLimiter.{
  BucketInfo, RateLimiter, can_make_request, update_from_headers, get_delay, count_ms, milliseconds,
  ns_per_ms,
}

-- Where the bucket of a route has something left before its reset, the call is let through at once
-- and takes one.
pub get_delay_spends :
    (r : RateLimiter) (route : Bytes) (now : ℤ) (b : BucketInfo)
    → lookup route r.buckets ≡ some b
    → leb_ℤ b.reset_time now ≡ false
    → ltb_ℤ (pos 0) b.remaining ≡ true
    → ((get_delay r route now).0 ≡ pos 0)
      × (lookup route (get_delay r route now).1.buckets
          ≡ some (record b { remaining = b.remaining -ℤ pos 1 }))
unfolding get_delay
get_delay_spends r route now b e early left =
    rw (e, get_delay) (rw (early, left) (refl, lookup-insert_self route _ r.buckets))

-- The whole milliseconds between two time points fall short by less than one.
pub count_ms_bounds :
    (early late : ℤ)
    → early ≤ℤ late
    → (late ≤ℤ early +ℤ milliseconds (count_ms (late -ℤ early)) +ℤ pos 999_999)
      × (early +ℤ milliseconds (count_ms (late -ℤ early)) ≤ℤ late)
count_ms_bounds early late h =
    let d = count_ms (late -ℤ early) in
    omega (
      int_laws,
      *ℤ_parts,
      /ℤ_parts,
      one_part,
      *ℤ_parts d ns_per_ms,
      /ℤ_parts (late -ℤ early) ns_per_ms,
      one_part (late -ℤ early),
    )

-- Where the bucket of a route has nothing left before its reset, sleeping for the delay ends less
-- than a millisecond before the reset and not behind it, and the call changes nothing.
pub get_delay_waits :
    (r : RateLimiter) (route : Bytes) (now : ℤ) (b : BucketInfo)
    → lookup route r.buckets ≡ some b
    → leb_ℤ b.reset_time now ≡ false
    → ltb_ℤ (pos 0) b.remaining ≡ false
    → ((get_delay r route now).1 ≡ r)
      × (b.reset_time ≤ℤ now +ℤ milliseconds ((get_delay r route now).0) +ℤ pos 999_999)
      × (now +ℤ milliseconds ((get_delay r route now).0) ≤ℤ b.reset_time)
unfolding get_delay
get_delay_waits r route now b e early spent =
    let bounds = count_ms_bounds now b.reset_time (ground arith) in
    rw (e, get_delay) (rw (early, spent) (refl, bounds.0, bounds.1))

-- What the server names decides the next requests: the bucket holds the numbers of the headers, and
-- other routes keep theirs.
pub update_from_headers_lem :
    (r : RateLimiter) (route other : Bytes) (remaining limit reset_after : ℤ) (bucket : Bytes)
    (now : ℤ)
    → lookup other (update_from_headers r route remaining limit reset_after bucket now).buckets ≡ (
        if bytes_eq other route
        then some (record {
          remaining = remaining;
          limit = limit;
          reset_time = now +ℤ milliseconds reset_after;
          bucket_id = bucket;
        })
        else lookup other r.buckets)
unfolding update_from_headers
update_from_headers_lem r route other remaining limit reset_after bucket now = simp lookup-insert

-- A request that can_make_request admits is not delayed by get_delay at the same time.
pub get_delay-can_make_request :
    (r : RateLimiter) (route : Bytes) (now : ℤ)
    → (can_make_request r route now).0 ≡ true
    → (get_delay r route now).0 ≡ pos 0
unfolding get_delay can_make_request
get_delay-can_make_request r route now h = ground arith
