-- ===== src/Domain/Cache/Laws.antt =====
-- Freshness, age and what remains.
use ephemos.Base.{ℕ, ◌-◌, ◌≤◌, ◌<◌, ◌≡◌, ◌↔◌, true, arith}
use ephemos.Base.Int.{pos, ◌≤ℤ◌, ◌<ℤ◌, wrap_int64_lem, ◌-ℤ◌}
use ephemos.GoTime.{Time, sub_time, add_time, saturate}
use ephemos.Domain.Cache.{CacheEntry, is_fresh_at, expires_at, remaining_ttl_at, refresh_at}

sub_time_self : (t : Time) → sub_time t t ≡ pos 0
unfolding sub_time saturate
sub_time_self t = ground arith

-- An entry is fresh until, and not at, its expiry, for a time to live that is not negative, a time
-- not before the fetch, and an age that an int64 holds.
is_fresh_at-expires_at :
    (e : CacheEntry) (now : Time) (n : ℕ)
    → e.ttl ≡ pos n
    → e.fetched_at ≤ now
    → now - e.fetched_at ≤ 9223372036854775807
    → (is_fresh_at e now ≡ true) ↔ (now < expires_at e)
unfolding is_fresh_at expires_at sub_time saturate add_time
is_fresh_at-expires_at e now n t h b = ground arith

-- For a time to live that is not negative and fits an int64, and a time not before the fetch: some
-- time remains exactly while the entry is fresh, never less than none, and never more than the time
-- to live.
remaining_ttl_at-is_fresh_at :
    (e : CacheEntry) (now : Time) (n : ℕ)
    → e.ttl ≡ pos n
    → n ≤ 9223372036854775807
    → e.fetched_at ≤ now
    → ((pos 0 <ℤ remaining_ttl_at e now) ↔ (is_fresh_at e now ≡ true))
      × (pos 0 ≤ℤ remaining_ttl_at e now)
      × (remaining_ttl_at e now ≤ℤ e.ttl)
unfolding is_fresh_at remaining_ttl_at sub_time saturate
remaining_ttl_at-is_fresh_at e now n t b h =
    ground (arith, wrap_int64_lem (e.ttl -ℤ sub_time now e.fetched_at))

-- Refreshing makes an entry with a positive time to live fresh at that time.
pub refresh_at_fresh :
    (e : CacheEntry) (t : Time) → pos 0 <ℤ e.ttl → is_fresh_at (refresh_at e t) t ≡ true
unfolding is_fresh_at refresh_at
refresh_at_fresh e t h = rw (sub_time_self t) (ground arith)
