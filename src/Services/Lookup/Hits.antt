-- ===== src/Services/Lookup/Hits.antt =====
-- When a lookup of identity_service.go serves from the cache, and what it does otherwise.
use ephemos.Base.{
  Result-cases, ◌≡◌, refl, sym, ap, ◌∙◌, ◌⊎◌, inl, inr, true, false, Option, none, some, [], ◌∷◌,
  Bool-cases, Option-cases, ok,
}
use ephemos.GoTime.{Time}
use ephemos.Domain.Cache.{CacheEntry, is_fresh_at}
use ephemos.Domain.Certificate.{Certificate, is_expiring_within}
use ephemos.Services.Retry.{hit}
use ephemos.Services.State.{
  State, Mutex, free, writing, lock, r_lock, Call, returns, waits, Readings, Ports, service_name,
  refresh_threshold, note,
}
use ephemos.GoText.{Text, text}
use ephemos.Services.Lookup.{
  decide_cached, with_mutex, act, Decision, serve, fetch, crash, decide, decide_fresh,
  refresh_early, expiry_options, fetch_certificate, get_certificate,
}

-- The cache's entry is there and fresh.
abbrev pub FreshEntry : Option CacheEntry → Time → Type 0
FreshEntry entry now = (e : CacheEntry) × (entry ≡ some e) × (is_fresh_at e now ≡ true)

-- The cached certificate is there, fresh, accepted by the validator and not about to expire.
abbrev pub Serves : Ports → Readings → State → Certificate → Type 0
Serves p t s c =
    (s.cached_cert ≡ some c)
    × FreshEntry s.cert_cache_entry t.fresh
    × (p.validator t.valid (some c) expiry_options ≡ ok tt)
    × (is_expiring_within t.expiring (refresh_threshold s.cache_config) c ≡ false)

-- The three decisions, each with what it stands for.
data Decided (p : Ports) (t : Readings) (s : State) : Decision → Type 0 where
  decided_serve : (c : Certificate) → Serves p t s c → Decided p t s (serve c)
  decided_fetch :
      (left : Option Certificate)
      → ((c : Certificate) → ¬ Serves p t s c)
      → Decided p t s (fetch left)
  decided_crash : service_name s.cached_identity ≡ none → Decided p t s crash

fresh-Decided :
    (p : Ports) (t : Readings) (s : State) (c : Certificate)
    → s.cached_cert ≡ some c
    → FreshEntry s.cert_cache_entry t.fresh
    → Decided p t s (decide_fresh p t s c)
unfolding decide_fresh refresh_early
fresh-Decided p t s c h f = elim (Result-cases (p.validator t.valid (some c) expiry_options)) [
  | inr (e, v) ↦ rw (v, decide_fresh) (decided_fetch none (λ d (hd, fd, vd, xd). cc))
  | inl (tt, v) ↦
      elim (Bool-cases (is_expiring_within t.expiring (refresh_threshold s.cache_config) c)) [
        | inl x ↦ elim (Option-cases (service_name s.cached_identity)) [
          | inl n ↦ rw (v, x, n, decide_fresh, refresh_early) (decided_crash n)
          | inr (m, n) ↦
              rw (v, x, n, decide_fresh, refresh_early)
                (decided_fetch none (λ d (hd, fd, vd, xd). cc))
        ]
        | inr x ↦ rw (v, x, decide_fresh) (decided_serve c (h, f, v, x))
      ]
]

cached-Decided :
    (p : Ports) (t : Readings) (s : State) (cert : Option Certificate) (entry : Option CacheEntry)
    → s.cached_cert ≡ cert
    → s.cert_cache_entry ≡ entry
    → Decided p t s (decide_cached p t s cert entry)
cached-Decided p t s none entry h k = decided_fetch none (λ d (hd, fd, vd, xd). cc)
cached-Decided p t s (some c) none h k = decided_fetch (some c) (λ d (hd, (e, ed, ee), vd, xd). cc)
cached-Decided p t s (some c) (some e) h k = elim (Bool-cases (is_fresh_at e t.fresh)) [
  | inl f ↦ rw f (fresh-Decided p t s c h (e, k, f))
  | inr f ↦ rw f (decided_fetch (some c) (λ d (hd, (a, ed, ee), vd, xd). cc))
]

decided : (p : Ports) (t : Readings) (s : State) → Decided p t s (decide p t s)
unfolding decide
decided p t s = cached-Decided p t s s.cached_cert s.cert_cache_entry refl refl

-- A lookup that holds the mutex of its own service as a writer, and waits for it as a reader.
abbrev pub WaitsForItself {ℓ} : {A : Type ℓ} → Call A → Type ℓ
WaitsForItself {A = A} r =
    (s : State) × (r ≡ waits s) × (s.mutex ≡ writing) × (r_lock s.mutex ≡ none)

-- A hit: the certificate that serves is returned, and only the metrics change.
abbrev pub Hit : Ports → Readings → State → Type 0
Hit p t s =
    (c : Certificate) × Serves p t s c
    × (get_certificate p t s ≡ returns (note (hit (text "certificate") ∷ []) s) (ok (some c)))

act-Decided :
    (p : Ports) (t : Readings) (s : State) (n : Text) (d : Decision)
    → service_name s.cached_identity ≡ some n
    → Decided p t s d
    → ((c : Certificate) × Serves p t s c
        × (act p t (with_mutex writing s) d
            ≡ returns (note (hit (text "certificate") ∷ []) (with_mutex free s)) (ok (some c))))
      ⊎ (((c : Certificate) → ¬ Serves p t s c) × WaitsForItself (act p t (with_mutex writing s) d))
unfolding fetch_certificate r_lock
act-Decided p t s n d h (decided_serve c k) = inl (c, k, refl)
act-Decided p t s n d h (decided_fetch left k) = inr (k, (_, refl, refl, refl))
act-Decided p t s n d h (decided_crash k) = cc

pub get_certificate-free :
    (p : Ports) (t : Readings) (s : State)
    → lock s.mutex ≡ some writing
    → get_certificate p t s ≡ act p t (with_mutex writing s) (decide p t s)
unfolding get_certificate
get_certificate-free p t s h = rw (h, get_certificate) refl

pub lock-free : (s : State) → s.mutex ≡ free → lock s.mutex ≡ some writing
unfolding lock
lock-free s h = ap lock h

pub with_mutex-free : (s : State) → s.mutex ≡ free → with_mutex free s ≡ s
with_mutex-free s h = ap (λ (m : Mutex). with_mutex m s) (sym h)

-- With the mutex free and a path that is not empty, getCertificate returns exactly if a cached
-- certificate serves (fresh entry, accepted by the validator, not about to expire), and it returns
-- that one; otherwise it waits for a mutex that it holds itself.
pub get_certificate-Hit :
    (p : Ports) (t : Readings) (s : State) (n : Text)
    → s.mutex ≡ free
    → service_name s.cached_identity ≡ some n
    → Hit p t s ⊎ (((c : Certificate) → ¬ Serves p t s c) × WaitsForItself (get_certificate p t s))
get_certificate-Hit p t s n h k =
    let e = get_certificate-free p t s (lock-free s h) in
    elim (act-Decided p t s n (decide p t s) k (decided p t s)) [
      | inl (c, f, r) ↦ inl (
        c,
        f,
        e
            ∙ r
            ∙ ap (λ (u : State). returns (note (hit (text "certificate") ∷ []) u) (ok (some c)))
                (with_mutex-free s h),
      )
      | inr (f, (u, r, m, q)) ↦ inr (f, (u, e ∙ r, m, q))
    ]
