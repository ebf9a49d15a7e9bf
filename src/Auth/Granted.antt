-- ===== src/Auth/Granted.antt =====
-- Who is let in by `authenticate_bearer` of src/server/auth.py.
use Prim.Native.String.{String}
use neuro_voice.Prelude.{
  ◌≡◌, ◌↔◌, inl, inr, refl, sym, ap, ◌∙◌, Bool, true, false, Option, none, some, List, [], ◌∷◌,
  arith, Option-cases, Bool-cases,
}
use neuro_voice.ApiKeys.{Text, ParsedApiKey, parse_api_key}
use neuro_voice.RateLimit.{Hit, RateLimitResult, check}
use neuro_voice.Auth.Defs.{Tenant, ApiKey}
use neuro_voice.Auth.{
  Surroundings, Store, granted, lookup_active_by_prefix, is_active_tenant, missing_scopes,
  window_ms, set_hits, limit_tenant, limit_key, check_scopes, check_tenant, check_key, bearer_token,
  authenticate_bearer,
}

abbrev pub is_allowed : Option (RateLimitResult × List Hit) → Bool
is_allowed none = false
is_allowed (some (r, hits)) = r.allowed

-- What a request has to show.
pub record IsEarned (e : Surroundings) (required : List String) (p : ParsedApiKey) (s : Store)
    (t : Tenant) (k : ApiKey) : Type 0 where
  pub known : lookup_active_by_prefix p.prefix s ≡ some (k, t)
  pub verified : e.verify k.secret_hash p.secret ≡ true
  pub active_tenant : is_active_tenant t ≡ true
  pub scoped : missing_scopes required k.scopes ≡ []
  pub key_limit :
      is_allowed (check k.rate_limit_per_minute window_ms e.now e.key_member (s.key_hits k.id))
      ≡ true
  pub tenant_limit :
      is_allowed (check e.tenant_limit window_ms e.now e.tenant_member (s.tenant_hits t.id)) ≡ true

-- Only the last step lets a request in, and it lets in the key that it was given.
limit_tenant-granted :
    (e : Surroundings) (k k' : ApiKey) (t t' : Tenant) (s : Store)
    → (limit_tenant e k t s).0 ≡ granted t' k'
    → (t ≡ t')
      × (k ≡ k')
      × (is_allowed (check e.tenant_limit window_ms e.now e.tenant_member (s.tenant_hits t.id))
          ≡ true)
unfolding limit_tenant
limit_tenant-granted e k k' t t' s g =
    elim (Option-cases
      (check e.tenant_limit window_ms e.now e.tenant_member (s.tenant_hits t.id))) [
        | inl c ↦ ground (arith, g, c)
        | inr ((r, hits), c) ↦ elim (Bool-cases r.allowed) [
          | inl a ↦ (ground (arith, g, c, a), ground (arith, g, c, a), rw c a)
          | inr a ↦ ground (arith, g, c, a)
        ]
      ]

-- What a check that is passed leaves to do.
limit_key_passed :
    (e : Surroundings) (k : ApiKey) (t : Tenant) (s : Store) (r : RateLimitResult) (hits : List Hit)
    → check k.rate_limit_per_minute window_ms e.now e.key_member (s.key_hits k.id) ≡ some (r, hits)
    → r.allowed ≡ true
    → limit_key e k t s ≡ limit_tenant e k t (record s { key_hits = set_hits k.id hits s.key_hits })
unfolding limit_key
limit_key_passed e k t s r hits c a = ground (arith, c, a)

check_scopes_passed :
    (e : Surroundings) (required : List String) (k : ApiKey) (t : Tenant) (s : Store)
    → missing_scopes required k.scopes ≡ []
    → check_scopes e required k t s ≡ limit_key e k t s
unfolding check_scopes
check_scopes_passed e required k t s m = ground (arith, m)

check_tenant_passed :
    (e : Surroundings) (required : List String) (k : ApiKey) (t : Tenant) (s : Store)
    → is_active_tenant t ≡ true
    → check_tenant e required k t s ≡ check_scopes e required k t s
unfolding check_tenant
check_tenant_passed e required k t s m = ground (arith, m)

check_key_passed :
    (e : Surroundings) (required : List String) (p : ParsedApiKey) (k : ApiKey) (t : Tenant)
    (s : Store)
    → lookup_active_by_prefix p.prefix s ≡ some (k, t)
    → e.verify k.secret_hash p.secret ≡ true
    → check_key e required p s ≡ check_tenant e required k t s
unfolding check_key
check_key_passed e required p k t s l v = ground (arith, l, v)

authenticate_bearer_parsed :
    (e : Surroundings) (required : List String) (header : Option Text) (token : Text)
    (p : ParsedApiKey) (s : Store)
    → bearer_token header ≡ some token
    → parse_api_key token ≡ some p
    → authenticate_bearer e required header s ≡ check_key e required p s
unfolding authenticate_bearer
authenticate_bearer_parsed e required header token p s b q = ground (arith, b, q)

limit_key-granted :
    (e : Surroundings) (k k' : ApiKey) (t t' : Tenant) (s : Store)
    → (limit_key e k t s).0 ≡ granted t' k'
    → (t ≡ t')
      × (k ≡ k')
      × (is_allowed (check k.rate_limit_per_minute window_ms e.now e.key_member (s.key_hits k.id))
          ≡ true)
      × (is_allowed (check e.tenant_limit window_ms e.now e.tenant_member (s.tenant_hits t.id))
          ≡ true)
unfolding limit_key
limit_key-granted e k k' t t' s g =
    elim (Option-cases
      (check k.rate_limit_per_minute window_ms e.now e.key_member (s.key_hits k.id))) [
        | inl c ↦ ground (arith, g, c)
        | inr ((r, hits), c) ↦ elim (Bool-cases r.allowed) [
          | inl a ↦
              let (same_t, same_k, ok) =
                limit_tenant-granted e k k' t t'
                  (record s { key_hits = set_hits k.id hits s.key_hits })
                  (sym (ap (λ x. x.0) (limit_key_passed e k t s r hits c a)) ∙ g) in
              (same_t, same_k, rw c a, ok)
          | inr a ↦ ground (arith, g, c, a)
        ]
      ]

check_scopes-granted :
    (e : Surroundings) (required : List String) (k k' : ApiKey) (t t' : Tenant) (s : Store)
    → (check_scopes e required k t s).0 ≡ granted t' k'
    → (missing_scopes required k.scopes ≡ []) × ((limit_key e k t s).0 ≡ granted t' k')
unfolding check_scopes
check_scopes-granted e required k k' t t' s g = by_missing (missing_scopes required k.scopes) refl
  where
    by_missing :
        (m : List String)
        → missing_scopes required k.scopes ≡ m
        → (missing_scopes required k.scopes ≡ []) × ((limit_key e k t s).0 ≡ granted t' k')
    by_missing [] f = (f, sym (ap (λ x. x.0) (check_scopes_passed e required k t s f)) ∙ g)
    by_missing (m ∷ ms) f = ground (arith, g, f)

check_key-granted :
    (e : Surroundings) (required : List String) (p : ParsedApiKey) (k' : ApiKey) (t' : Tenant)
    (s : Store)
    → (check_key e required p s).0 ≡ granted t' k'
    → IsEarned e required p s t' k'
unfolding check_key check_tenant
check_key-granted e required p k' t' s g =
    elim (Option-cases (lookup_active_by_prefix p.prefix s)) [
      | inl l ↦ ground (arith, g, l)
      | inr ((k, t), l) ↦ elim (Bool-cases (e.verify k.secret_hash p.secret)) [
        | inr v ↦ ground (arith, g, l, v)
        | inl v ↦ elim (Bool-cases (is_active_tenant t)) [
          | inr a ↦ ground (arith, g, l, v, a)
          | inl a ↦
              let steps =
                check_key_passed e required p k t s l v ∙ check_tenant_passed e required k t s a in
              let (m, g') =
                check_scopes-granted e required k k' t t' s (sym (ap (λ x. x.0) steps) ∙ g) in
              let (same_t, same_k, key_ok, tenant_ok) = limit_key-granted e k k' t t' s g' in
              rw (sym same_t, sym same_k)
                (record {
                  known = l;
                  verified = v;
                  active_tenant = a;
                  scoped = m;
                  key_limit = key_ok;
                  tenant_limit = tenant_ok;
                })
        ]
      ]
    ]

limit_tenant_passed :
    (e : Surroundings) (k : ApiKey) (t : Tenant) (s : Store)
    → is_allowed (check e.tenant_limit window_ms e.now e.tenant_member (s.tenant_hits t.id)) ≡ true
    → (limit_tenant e k t s).0 ≡ granted t k
unfolding limit_tenant
limit_tenant_passed e k t s ok =
    elim (Option-cases
      (check e.tenant_limit window_ms e.now e.tenant_member (s.tenant_hits t.id))) [
        | inl c ↦ ground (arith, ok, c)
        | inr ((r, hits), c) ↦
            let a : r.allowed ≡ true = ground (arith, ok, c) in ground (arith, c, a)
      ]

check_key-IsEarned :
    (e : Surroundings) (required : List String) (p : ParsedApiKey) (k : ApiKey) (t : Tenant)
    (s : Store)
    → IsEarned e required p s t k
    → (check_key e required p s).0 ≡ granted t k
check_key-IsEarned e required p k t s earned =
    elim (Option-cases
      (check k.rate_limit_per_minute window_ms e.now e.key_member (s.key_hits k.id))) [
        | inl c ↦ ground (arith, earned.key_limit, c)
        | inr ((r, hits), c) ↦
            let a : r.allowed ≡ true = ground (arith, earned.key_limit, c) in
            let rest =
              limit_tenant_passed e k t (record s { key_hits = set_hits k.id hits s.key_hits })
                earned.tenant_limit in
            ap (λ x. x.0)
              (check_key_passed e required p k t s earned.known earned.verified
                ∙ check_tenant_passed e required k t s earned.active_tenant
                ∙ check_scopes_passed e required k t s earned.scoped
                ∙ limit_key_passed e k t s r hits c a)
            ∙ rest
      ]

-- A request is let in as the key `k` of the tenant `t` exactly when its bearer token parses to a key
-- whose prefix the database has unrevoked as `k`, argon2 accepts the secret for the hash of `k`, `t` is
-- the tenant of `k` and is active, `k` has every scope that the route requires, and the limiter allows
-- both the key and the tenant.
pub authenticate_bearer-granted :
    (e : Surroundings) (required : List String) (header : Option Text) (s : Store) (t : Tenant)
    (k : ApiKey)
    → ((authenticate_bearer e required header s).0 ≡ granted t k) ↔ (
        (token : Text) × (p : ParsedApiKey) × (bearer_token header ≡ some token)
        × (parse_api_key token ≡ some p)
        × IsEarned e required p s t k)
unfolding authenticate_bearer
authenticate_bearer-granted e required header s t k = (
  λ g. elim (Option-cases (bearer_token header)) [
    | inl b ↦ ground (arith, g, b)
    | inr (token, b) ↦ elim (Option-cases (parse_api_key token)) [
      | inl q ↦ ground (arith, g, b, q)
      | inr (p, q) ↦
          let same = authenticate_bearer_parsed e required header token p s b q in
          (token, p, b, q, check_key-granted e required p k t s (sym (ap (λ x. x.0) same) ∙ g))
    ]
  ],
  λ (token, p, b, q, earned).
      ap (λ x. x.0) (authenticate_bearer_parsed e required header token p s b q)
      ∙ check_key-IsEarned e required p k t s earned,
)
