-- ===== src/Auth.antt =====
-- `authenticate_bearer` of src/server/auth.py, with the repositories that it uses, src/repos/api_key.py
-- and the status changes of src/repos/tenant.py. Each check ends the request or calls the next.
pub mod Defs
pub mod Granted
pub mod Denied
mod Tests
pub use Defs.*
use Prim.Native.String.{String}
use text.Mathlib.Text.{◌==◌ as str_eq}
use neuro_voice.Prelude.{
  ℕ, zero, suc, ◌+◌, ◌/◌, max, Bool, true, false, ◌&&◌, ◌||◌, not, Option, none, some, List, [],
  ◌∷◌, leb, ltb, ◌==◌, if◌then◌else◌, is_some, or_else, find, update_where,
}
use neuro_voice.ApiKeys.{Text, is_text, ParsedApiKey, parse_api_key}
use neuro_voice.RateLimit.{Hit, RateLimitResult, check}

-- The database and the sorted sets of the limiter, per key and per tenant.
pub record Store : Type 0 where
  pub keys : List ApiKey
  pub tenants : List Tenant
  pub audit : List AuditRow
  pub key_hits : ℕ → List Hit
  pub tenant_hits : ℕ → List Hit

-- argon2, the clock, the members that the limiter draws, `tenant_rate_limit_per_minute`, and whether
-- the audit row can be written.
pub record Surroundings : Type 0 where
  pub verify : ℕ → Text → Bool
  pub now : ℕ
  pub key_member : ℕ
  pub tenant_member : ℕ
  pub tenant_limit : ℕ
  pub audit_fails : Bool

abbrev pub window_ms : ℕ
window_ms = 60_000

-- `lookup_active_by_prefix`, with the tenant that the foreign key names.
abbrev pub is_active_prefix : Text → ApiKey → Bool
is_active_prefix prefix k = is_text k.prefix prefix && not (is_some k.revoked_at)

abbrev pub has_tenant_id : ℕ → Tenant → Bool
has_tenant_id id t = t.id == id

abbrev pub with_tenant : List Tenant → Option ApiKey → Option (ApiKey × Tenant)
with_tenant tenants none = none
with_tenant tenants (some k) = elim (find (has_tenant_id k.tenant_id) tenants) [
  | none ↦ none
  | some t ↦ some (k, t)
]

pub lookup_active_by_prefix : Text → Store → Option (ApiKey × Tenant)
lookup_active_by_prefix prefix s = with_tenant s.tenants (find (is_active_prefix prefix) s.keys)

abbrev pub has_key_id : ℕ → ApiKey → Bool
has_key_id id k = k.id == id

abbrev pub touched : ℕ → ApiKey → ApiKey
touched now k = record k { last_used_at = some now }

pub touch_last_used : ℕ → ℕ → List ApiKey → List ApiKey
touch_last_used id now = update_where (has_key_id id) (touched now)

-- `revoke`: a key that is revoked stays as it is.
abbrev pub revoked : Option String → ℕ → ApiKey → ApiKey
revoked reason now k = record k { revoked_at = some now; revoked_reason = reason }

pub revoke : ℕ → Option String → ℕ → List ApiKey → Option ApiKey × List ApiKey
revoke id reason now keys = elim (find (has_key_id id) keys) [
  | none ↦ (none, keys)
  | some k ↦
      if is_some k.revoked_at
      then (some k, keys)
      else (some (revoked reason now k), update_where (has_key_id id) (revoked reason now) keys)
]

-- `suspend` and `reactivate`
abbrev pub with_status : TenantStatus → Tenant → Tenant
with_status status t = record t { status = status }

pub set_status : ℕ → TenantStatus → List Tenant → Option Tenant × List Tenant
set_status id status tenants = elim (find (has_tenant_id id) tenants) [
  | none ↦ (none, tenants)
  | some t ↦
      (some (with_status status t), update_where (has_tenant_id id) (with_status status) tenants)
]

-- How the request ends. `unauthorized` and `forbidden` have the generic text for a body; the last is
-- an exception that the route does not catch.
pub data AuthReply : Type 0 where
  granted : Tenant → ApiKey → AuthReply
  unauthorized forbidden : AuthReply
  insufficient_scope_403 : List String → AuthReply
  rate_limited_429 tenant_rate_limited_429 : ℕ → AuthReply
  server_error : AuthReply

-- `_audit_async`: a row that cannot be written is dropped.
abbrev pub audited : Surroundings → AuditRow → Store → Store
audited e row s = if e.audit_fails then s else record s { audit = row ∷ s.audit }

abbrev pub unknown_actor : AuditEvent → AuditRow
unknown_actor event = record { event = event; tenant_id = none; actor_id = none }

abbrev pub known_actor : AuditEvent → ApiKey → Tenant → AuditRow
known_actor event k t = record { event = event; tenant_id = some t.id; actor_id = some k.id }

-- Step 8. The touch is in the transaction that the audit row commits or rolls back.
abbrev pub succeed : Surroundings → ApiKey → Tenant → Store → AuthReply × Store
succeed e k t s = (
  granted t k,
  if e.audit_fails then s else record (audited e (known_actor auth_success k t) s) {
    keys = touch_last_used k.id e.now s.keys;
  },
)

-- `max(1, retry_after_ms // 1000 + 1)`
abbrev pub retry_seconds : RateLimitResult → ℕ
retry_seconds r = max 1 (r.retry_after_ms / 1000 + 1)

abbrev pub set_hits : ℕ → List Hit → (ℕ → List Hit) → ℕ → List Hit
set_hits id hits all j = if j == id then hits else all j

-- Step 7: the bucket of the key, then the bucket of the tenant.
pub limit_tenant : Surroundings → ApiKey → Tenant → Store → AuthReply × Store
limit_tenant e k t s =
    elim (check e.tenant_limit window_ms e.now e.tenant_member (s.tenant_hits t.id)) [
      | none ↦ (server_error, s)
      | some (r, hits) ↦
          let s' = record s { tenant_hits = set_hits t.id hits s.tenant_hits } in
          if r.allowed then succeed e k t s' else (
            tenant_rate_limited_429 (retry_seconds r),
            audited e (known_actor (tenant_rate_limited e.tenant_limit r.count) k t) s',
          )
    ]

pub limit_key : Surroundings → ApiKey → Tenant → Store → AuthReply × Store
unfolding limit_tenant
limit_key e k t s =
    elim (check k.rate_limit_per_minute window_ms e.now e.key_member (s.key_hits k.id)) [
      | none ↦ (server_error, s)
      | some (r, hits) ↦
          let s' = record s { key_hits = set_hits k.id hits s.key_hits } in
          if r.allowed then limit_tenant e k t s' else (
            rate_limited_429 (retry_seconds r),
            audited e (known_actor (key_rate_limited k.rate_limit_per_minute r.count) k t) s',
          )
    ]

-- Step 6.
abbrev pub has_scope : List String → String → Bool
has_scope [] scope = false
has_scope (s ∷ scopes) scope = str_eq s scope || has_scope scopes scope

abbrev pub missing_scopes : List String → List String → List String
missing_scopes [] scopes = []
missing_scopes (r ∷ required) scopes =
    if has_scope scopes r
    then missing_scopes required scopes
    else r ∷ missing_scopes required scopes

pub check_scopes : Surroundings → List String → ApiKey → Tenant → Store → AuthReply × Store
unfolding limit_key
check_scopes e required k t s = elim (missing_scopes required k.scopes) [
  | [] ↦ limit_key e k t s
  | m ∷ missing ↦ (
    insufficient_scope_403 required,
    audited e (known_actor (insufficient_scope (m ∷ missing)) k t) s,
  )
]

-- Step 5.
abbrev pub is_active_tenant : Tenant → Bool
is_active_tenant t = elim t.status [ active ↦ true | _ ↦ false ]

pub check_tenant : Surroundings → List String → ApiKey → Tenant → Store → AuthReply × Store
unfolding check_scopes
check_tenant e required k t s =
    if is_active_tenant t
    then check_scopes e required k t s
    else (forbidden, audited e (known_actor (tenant_status t.status) k t) s)

-- Steps 3 and 4.
pub check_key : Surroundings → List String → ParsedApiKey → Store → AuthReply × Store
unfolding check_tenant lookup_active_by_prefix
check_key e required p s = elim (lookup_active_by_prefix p.prefix s) [
  | none ↦ (unauthorized, audited e (unknown_actor unknown_prefix) s)
  | some (k, t) ↦
      if e.verify k.secret_hash p.secret
      then check_tenant e required k t s
      else (unauthorized, audited e (known_actor secret_mismatch k t) s)
]

-- `authorization.lower().startswith("bearer ")`, and what follows. The header is Latin-1.
abbrev pub lower : ℕ → ℕ
lower c = if leb 65 c && leb c 90 then c + 32 else c

pub strip_bearer : Text → Text → Option Text
strip_bearer [] s = some s
strip_bearer (c ∷ w) [] = none
strip_bearer (c ∷ w) (d ∷ s) = let rest = strip_bearer w s in if lower d == c then rest else none

abbrev pub bearer : Text
bearer = 98 ∷ 101 ∷ 97 ∷ 114 ∷ 101 ∷ 114 ∷ 32 ∷ []

-- The white space of Latin-1, which `strip` takes off both ends.
abbrev pub is_space : ℕ → Bool
is_space c = (leb 9 c && leb c 13) || (leb 28 c && leb c 32) || c == 133 || c == 160

abbrev pub strip_left : Text → Text
strip_left [] = []
strip_left (c ∷ s) = if is_space c then strip_left s else c ∷ s

abbrev pub strip_right : Text → Text
strip_right [] = []
strip_right (c ∷ s) = elim (strip_right s) [
  | [] ↦ if is_space c then [] else c ∷ []
  | d ∷ rest ↦ c ∷ d ∷ rest
]

-- The token of the header; none is a missing or a strange scheme.
pub bearer_token : Option Text → Option Text
unfolding strip_bearer
bearer_token none = none
bearer_token (some header) = elim (strip_bearer bearer header) [
  | none ↦ none
  | some token ↦ some (strip_right (strip_left token))
]

-- Steps 1 and 2.
pub authenticate_bearer : Surroundings → List String → Option Text → Store → AuthReply × Store
unfolding check_key bearer_token
authenticate_bearer e required authorization s = elim (bearer_token authorization) [
  | none ↦ (unauthorized, audited e (unknown_actor missing_bearer) s)
  | some token ↦ elim (parse_api_key token) [
    | none ↦ (unauthorized, audited e (unknown_actor bad_format) s)
    | some p ↦ check_key e required p s
  ]
]
