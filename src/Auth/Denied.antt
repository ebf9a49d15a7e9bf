-- ===== src/Auth/Denied.antt =====
-- What a refused request of `authenticate_bearer` (src/server/auth.py) changes, and when a limited one
-- may come back.
use Prim.Native.String.{String}
use mathlib.Core.Path.{subst}
use neuro_voice.Prelude.{
  ℕ, ◌+◌, ◌*◌, ◌/◌, ◌≤◌, ◌<◌, max, ◌≡◌, ◌≢◌, inl, inr, refl, sym, ap, ◌∙◌, Bool, true, false,
  Option, some, List, [], ◌∷◌, ◌==◌, length, arith, Option-cases, Bool-cases,
}
use neuro_voice.ApiKeys.{Text, ParsedApiKey, parse_api_key}
use neuro_voice.RateLimit.{Hit, RateLimitResult, check, sliding_window}
use neuro_voice.RateLimit.Wait.{retry_after-exact}
use neuro_voice.Auth.Defs.{
  Tenant, ApiKey, AuditRow, insufficient_scope, missing_bearer, bad_format, unknown_prefix,
  secret_mismatch, tenant_status, key_rate_limited,
}
use neuro_voice.Auth.Granted.{is_allowed}
use neuro_voice.Auth.{
  audited, known_actor, unknown_actor, Surroundings, Store, AuthReply, unauthorized, forbidden,
  insufficient_scope_403, rate_limited_429, lookup_active_by_prefix, is_active_tenant,
  missing_scopes, window_ms, set_hits, retry_seconds, limit_tenant, limit_key, check_scopes,
  check_tenant, check_key, bearer_token, authenticate_bearer,
}

-- A 401, or a 403 of either text.
abbrev pub is_refused : AuthReply → Bool
is_refused unauthorized = true
is_refused forbidden = true
is_refused (insufficient_scope_403 scopes) = true
is_refused _ = false

-- All but the audit log is as it was.
pub record IsUnspent (s s' : Store) : Type 0 where
  pub keys : s'.keys ≡ s.keys
  pub tenants : s'.tenants ≡ s.tenants
  pub key_hits : s'.key_hits ≡ s.key_hits
  pub tenant_hits : s'.tenant_hits ≡ s.tenant_hits

audited-IsUnspent : (e : Surroundings) (row : AuditRow) (s : Store) → IsUnspent s (audited e row s)
audited-IsUnspent e row s = elim (Bool-cases e.audit_fails) [
  | inl f ↦ rw f (record { keys = refl; tenants = refl; key_hits = refl; tenant_hits = refl })
  | inr f ↦ rw f (record { keys = refl; tenants = refl; key_hits = refl; tenant_hits = refl })
]

limit_tenant-refused :
    (e : Surroundings) (k : ApiKey) (t : Tenant) (s : Store)
    → is_refused (limit_tenant e k t s).0 ≡ false
unfolding limit_tenant
limit_tenant-refused e k t s =
    elim (Option-cases
      (check e.tenant_limit window_ms e.now e.tenant_member (s.tenant_hits t.id))) [
        | inl c ↦ ground (arith, c)
        | inr ((r, hits), c) ↦ elim (Bool-cases r.allowed) [
          | inl a ↦ ground (arith, c, a)
          | inr a ↦ ground (arith, c, a)
        ]
      ]

limit_key-refused :
    (e : Surroundings) (k : ApiKey) (t : Tenant) (s : Store)
    → is_refused (limit_key e k t s).0 ≡ false
unfolding limit_key
limit_key-refused e k t s =
    elim (Option-cases
      (check k.rate_limit_per_minute window_ms e.now e.key_member (s.key_hits k.id))) [
        | inl c ↦ ground (arith, c)
        | inr ((r, hits), c) ↦ elim (Bool-cases r.allowed) [
          | inl a ↦
              rw (c, a, limit_key)
                (limit_tenant-refused e k t (record s { key_hits = set_hits k.id hits s.key_hits }))
          | inr a ↦ ground (arith, c, a)
        ]
      ]

check_scopes-refused :
    (e : Surroundings) (required : List String) (k : ApiKey) (t : Tenant) (s : Store)
    → is_refused (check_scopes e required k t s).0 ≡ true
    → IsUnspent s (check_scopes e required k t s).1
unfolding check_scopes
check_scopes-refused e required k t s g = by_missing (missing_scopes required k.scopes) refl
  where
    by_missing :
        (m : List String)
        → missing_scopes required k.scopes ≡ m
        → IsUnspent s (check_scopes e required k t s).1
    by_missing [] f = ground (arith, f, g, limit_key-refused e k t s)
    by_missing (m ∷ ms) f =
        rw (f, check_scopes) (audited-IsUnspent e (known_actor (insufficient_scope (m ∷ ms)) k t) s)

check_key-refused :
    (e : Surroundings) (required : List String) (p : ParsedApiKey) (s : Store)
    → is_refused (check_key e required p s).0 ≡ true
    → IsUnspent s (check_key e required p s).1
unfolding check_key check_tenant
check_key-refused e required p s g = elim (Option-cases (lookup_active_by_prefix p.prefix s)) [
  | inl l ↦ rw (l, check_key) (audited-IsUnspent e (unknown_actor unknown_prefix) s)
  | inr ((k, t), l) ↦ elim (Bool-cases (e.verify k.secret_hash p.secret)) [
    | inr v ↦ rw (l, v, check_key) (audited-IsUnspent e (known_actor secret_mismatch k t) s)
    | inl v ↦ elim (Bool-cases (is_active_tenant t)) [
      | inr a ↦
          rw (l, v, a, check_key, check_tenant)
            (audited-IsUnspent e (known_actor (tenant_status t.status) k t) s)
      | inl a ↦
          rw (l, v, a, check_key, check_tenant)
            (check_scopes-refused e required k t s (ground (arith, g, l, v, a)))
    ]
  ]
]

-- A request that is answered by a 401 or a 403, whatever its reason, spends nothing of the caller's
-- key: no key is touched, no tenant changes, and no bucket of the limiter takes an entry.
pub authenticate_bearer-refused :
    (e : Surroundings) (required : List String) (header : Option Text) (s : Store)
    → is_refused (authenticate_bearer e required header s).0 ≡ true
    → IsUnspent s (authenticate_bearer e required header s).1
unfolding authenticate_bearer
authenticate_bearer-refused e required header s g = elim (Option-cases (bearer_token header)) [
  | inl b ↦ rw (b, authenticate_bearer) (audited-IsUnspent e (unknown_actor missing_bearer) s)
  | inr (token, b) ↦ elim (Option-cases (parse_api_key token)) [
    | inl q ↦ rw (b, q, authenticate_bearer) (audited-IsUnspent e (unknown_actor bad_format) s)
    | inr (p, q) ↦
        rw (b, q, authenticate_bearer) (check_key-refused e required p s (ground (arith, g, b, q)))
  ]
]

seconds-enough : (ms : ℕ) → ms ≤ max 1 (ms / 1000 + 1) * 1000
seconds-enough ms = omega arith

limit_tenant-not_429 :
    (e : Surroundings) (k : ApiKey) (t : Tenant) (s : Store) (seconds : ℕ)
    → (limit_tenant e k t s).0 ≢ rate_limited_429 seconds
unfolding limit_tenant
limit_tenant-not_429 e k t s seconds g =
    elim (Option-cases
      (check e.tenant_limit window_ms e.now e.tenant_member (s.tenant_hits t.id))) [
        | inl c ↦ ground (arith, g, c)
        | inr ((r, hits), c) ↦ elim (Bool-cases r.allowed) [
          | inl a ↦ ground (arith, g, c, a)
          | inr a ↦ ground (arith, g, c, a)
        ]
      ]

set_hits_same : (id : ℕ) (hits : List Hit) (all : ℕ → List Hit) → set_hits id hits all id ≡ hits
set_hits_same id hits all = ground arith

check_positive :
    (limit now member : ℕ) (hits : List Hit) (r : RateLimitResult) (kept : List Hit)
    → check limit window_ms now member hits ≡ some (r, kept)
    → (0 < limit) × (sliding_window limit window_ms now member hits ≡ (r, kept))
unfolding check
check_positive limit now member hits r kept c = elim (Bool-cases (limit == 0)) [
  | inl z ↦ ground (arith, c, z)
  | inr z ↦ (ground (arith, z), ground (arith, c, z))
]

check_after :
    (limit later member : ℕ) (hits : List Hit)
    → 0 < limit
    → (sliding_window limit window_ms later member hits).0.allowed ≡ true
    → is_allowed (check limit window_ms later member hits) ≡ true
unfolding check
check_after limit later member hits pos a = ground (arith, pos, a)

limited_hits :
    (e : Surroundings) (k : ApiKey) (t : Tenant) (s : Store) (r : RateLimitResult) (hits : List Hit)
    → check k.rate_limit_per_minute window_ms e.now e.key_member (s.key_hits k.id) ≡ some (r, hits)
    → r.allowed ≡ false
    → ((limit_key e k t s).0 ≡ rate_limited_429 (retry_seconds r))
      × ((limit_key e k t s).1.key_hits k.id ≡ hits)
unfolding limit_key
limited_hits e k t s r hits c a =
    let row = known_actor (key_rate_limited k.rate_limit_per_minute r.count) k t in
    let kept =
      (audited-IsUnspent e row (record s { key_hits = set_hits k.id hits s.key_hits })).key_hits in
    rw (c, a, limit_key) (refl, ap (λ all. all k.id) kept ∙ set_hits_same k.id hits s.key_hits)

same_seconds :
    (seconds : ℕ) (r : RateLimitResult)
    → rate_limited_429 seconds ≡ rate_limited_429 (retry_seconds r)
    → seconds ≡ retry_seconds r
same_seconds seconds r g = ground (arith, g)

allowed_after :
    (limit now member later next : ℕ) (hits : List Hit) (r : RateLimitResult) (kept : List Hit)
    → 0 < limit
    → length hits ≤ limit
    → now ≤ later
    → sliding_window limit window_ms now member hits ≡ (r, kept)
    → r.allowed ≡ false
    → now + r.retry_after_ms ≤ later
    → (sliding_window limit window_ms later next kept).0.allowed ≡ true
allowed_after limit now member later next hits r kept pos short after slid =
    subst
      (λ x.
        x.0.allowed ≡ false
        → now + x.0.retry_after_ms ≤ later
        → (sliding_window limit window_ms later next x.1).0.allowed ≡ true)
      slid
      (λ denied wait.
        (retry_after-exact limit window_ms now member later next hits pos short after denied).1
          wait)

-- After a 429 for the key, the limiter allows the key again at any time that is as many seconds later
-- as Retry-After says, if no other request of the key comes between; its bucket held at most as many
-- entries as its limit.
pub limit_key-retry_after :
    (e : Surroundings) (k : ApiKey) (t : Tenant) (s : Store) (seconds later member : ℕ)
    → (limit_key e k t s).0 ≡ rate_limited_429 seconds
    → length (s.key_hits k.id) ≤ k.rate_limit_per_minute
    → e.now + seconds * 1000 ≤ later
    → is_allowed
        (check k.rate_limit_per_minute window_ms later member ((limit_key e k t s).1.key_hits k.id))
      ≡ true
unfolding limit_key
limit_key-retry_after e k t s seconds later member g short wait =
    elim (Option-cases
      (check k.rate_limit_per_minute window_ms e.now e.key_member (s.key_hits k.id))) [
        | inl c ↦ ground (arith, g, c)
        | inr ((r, hits), c) ↦ elim (Bool-cases r.allowed) [
          | inl a ↦ absurd (
              limit_tenant-not_429 e k t (record s { key_hits = set_hits k.id hits s.key_hits })
                seconds (ground (arith, g, c, a)))
          | inr a ↦
              let (reply, same) = limited_hits e k t s r hits c a in
              let (pos, slid) =
                check_positive k.rate_limit_per_minute e.now e.key_member (s.key_hits k.id) r hits
                  c in
              let enough : e.now + r.retry_after_ms ≤ later = ground (
                arith,
                seconds-enough r.retry_after_ms,
                same_seconds seconds r (sym g ∙ reply),
                wait,
              ) in
              let after : e.now ≤ later = omega arith in
              let again =
                allowed_after k.rate_limit_per_minute e.now e.key_member later member
                  (s.key_hits k.id) r hits pos short after slid a enough in
              rw same (check_after k.rate_limit_per_minute later member hits pos again)
        ]
      ]
