-- ===== src/Auth/Defs.antt =====
-- The tables tenants and api_keys of src/db/models.py, and the audit rows of a request.
use Prim.Native.String.{String}
use neuro_voice.Prelude.{ℕ, Option, List}
use neuro_voice.ApiKeys.{Text}

pub data TenantStatus : Type 0 where
  active suspended deleted : TenantStatus

-- `Tenant`
pub record Tenant : Type 0 where
  pub id : ℕ
  pub slug : String
  pub display_name : String
  pub status : TenantStatus
  pub deleted_at : Option ℕ

-- `ApiKey`; the hash is only passed to argon2.
pub record ApiKey : Type 0 where
  pub id : ℕ
  pub tenant_id : ℕ
  pub prefix : Text
  pub secret_hash : ℕ
  pub scopes : List String
  pub rate_limit_per_minute : ℕ
  pub label : Option String
  pub created_at : ℕ
  pub created_by_operator_id : Option ℕ
  pub last_used_at : Option ℕ
  pub revoked_at : Option ℕ
  pub revoked_reason : Option String

-- The `reason` of a denial, or the action that was audited.
pub data AuditEvent : Type 0 where
  missing_bearer bad_format unknown_prefix secret_mismatch : AuditEvent
  tenant_status : TenantStatus → AuditEvent
  insufficient_scope : List String → AuditEvent
  key_rate_limited tenant_rate_limited : ℕ → ℕ → AuditEvent
  auth_success : AuditEvent

pub record AuditRow : Type 0 where
  pub event : AuditEvent
  pub tenant_id : Option ℕ
  pub actor_id : Option ℕ
