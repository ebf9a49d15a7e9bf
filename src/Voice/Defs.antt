-- ===== src/Voice/Defs.antt =====
-- The tables voices and voice_access of src/db/models.py. UUIDs are numbers; a slug is the number
-- that orders as its text does; an instant is a number of milliseconds. Free text is a String, and a
-- JSON object is the list of its members.
use Prim.Native.String.{String}
use neuro_voice.Prelude.{ℕ, Bool, Option, List}

pub data Visibility : Type 0 where
  private shared public : Visibility

pub data ReleaseStatus : Type 0 where
  draft staging production deprecated : ReleaseStatus

pub data LicenseKind : Type 0 where
  example synthetic user_owned talent_contract public_figure partner_licensed : LicenseKind

-- The value of a member: an object is told from the rest.
pub data JsonValue : Type 0 where
  object : List (String × String) → JsonValue
  other : String → JsonValue

abbrev pub Json : Type 0
Json = List (String × JsonValue)

-- `Voice`
pub record Voice : Type 0 where
  pub id : ℕ
  pub owner_tenant_id : ℕ
  pub voice_id : ℕ
  pub display_name : String
  pub language : String
  pub gender : String
  pub style_tags : List String
  pub reference_uri : String
  pub reference_sha256 : String
  pub reference_ms : ℕ
  pub reference_sample_rate : ℕ
  pub source : String
  pub license_kind : LicenseKind
  pub license_ref : Option String
  pub visibility : Visibility
  pub engine_params : Json
  pub description : Option String
  pub labels : Option (List String)
  pub preview_url : Option String
  pub voice_settings_defaults : Option Json
  pub adapter_uri : Option String
  pub adapter_sha256 : Option String
  pub adapter_type : Option String
  pub watermark_key_id : Option ℕ
  pub watermark_enabled : Bool
  pub eval_metrics : Option Json
  pub release_status : ReleaseStatus
  pub created_by_key_id : Option ℕ
  pub created_at : ℕ
  pub deleted_at : Option ℕ
  pub frozen_at : Option ℕ
  pub frozen_reason : Option String
  pub purge_after_at : Option ℕ
  pub purged_at : Option ℕ

-- `VoiceAccess`
pub record Grant : Type 0 where
  pub tenant_id : ℕ
  pub voice_id : ℕ
  pub permission : String
  pub granted_at : ℕ
  pub granted_by : Option ℕ
