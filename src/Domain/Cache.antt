-- ===== src/Domain/Cache.antt =====
-- internal/core/domain/cache.go. The methods without a time take the time of the call.
pub mod Laws
use ephemos.Base.{
  ℕ, zero, suc, ◌+◌, ◌-◌, ◌≤◌, ◌<◌, ◌≡◌, refl, sym, ap, ◌∙◌, ◌≢◌, ◌↔◌, ◌⊎◌, inl, inr, Bool, true,
  false, not, ◌&&◌, ◌||◌, Option, none, some, List, [], ◌∷◌, ◌++◌, map, arith, ltb, leb, ◌==◌,
  if◌then◌else◌, Bool-cases, Option-cases, Result, ok, err, fail_if, wrap, ◌>>=◌, ◌>>◌, length, All,
}
use ephemos.Base.Int.{ℤ, pos, ltb_ℤ, ◌-ℤ◌, wrap_int64}
use ephemos.GoTime.{Time, Duration, sub_time, add_time}

pub record CacheEntry : Type 0 where
  pub fetched_at : Time
  pub ttl : Duration

-- `NewCacheEntry`, at the time of the call, and `NewCacheEntryAt`.
unfoldable pub new_cache_entry : Time → Duration → CacheEntry
new_cache_entry now ttl = record { fetched_at = now; ttl = ttl }

unfoldable pub is_fresh_at : CacheEntry → Time → Bool
is_fresh_at e now = ltb_ℤ (sub_time now e.fetched_at) e.ttl

unfoldable pub is_expired_at : CacheEntry → Time → Bool
unfolding is_fresh_at
is_expired_at e now = not (is_fresh_at e now)

unfoldable pub expires_at : CacheEntry → Time
expires_at e = add_time e.fetched_at e.ttl

unfoldable pub age_at : CacheEntry → Time → Duration
age_at e now = sub_time now e.fetched_at

-- The difference of two int64 wraps.
unfoldable pub remaining_ttl_at : CacheEntry → Time → Duration
remaining_ttl_at e now =
    let remaining = wrap_int64 (e.ttl -ℤ sub_time now e.fetched_at) in
    if ltb_ℤ remaining (pos 0) then pos 0 else remaining

unfoldable pub refresh_at : CacheEntry → Time → CacheEntry
refresh_at e t = record e { fetched_at = t }
