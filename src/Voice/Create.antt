-- ===== src/Voice/Create.antt =====
-- `VoiceRepo.create` of src/repos/voice.py, against the unique constraint on (owner, slug) of
-- src/db/models.py. The constraint counts soft-deleted rows too.
use Prim.Native.String.{String}
use neuro_voice.Prelude.{
  ℕ, ◌≡◌, ◌↔◌, Bool, true, ◌&&◌, Option, none, some, List, [], ◌∷◌, ◌==◌, if◌then◌else◌, is_some,
  find, arith, or_else,
}
use neuro_voice.Voice.Defs.{Voice, Visibility, private, LicenseKind, Json, draft}

-- The keyword arguments of `create`; an optional one that is absent takes its default.
pub record NewVoice : Type 0 where
  pub voice_id : ℕ
  pub display_name : String
  pub reference_uri : String
  pub reference_sha256 : String
  pub reference_ms : ℕ
  pub license_kind : LicenseKind
  pub reference_sample_rate : Option ℕ
  pub language : Option String
  pub gender : Option String
  pub style_tags : Option (List String)
  pub source : Option String
  pub license_ref : Option String
  pub visibility : Option Visibility
  pub engine_params : Option Json
  pub created_by_key_id : Option ℕ
  pub description : Option String
  pub labels : Option (List String)
  pub preview_url : Option String
  pub voice_settings_defaults : Option Json

-- The row, with the column defaults of the model. Its key and its time are the database's.
abbrev pub new_voice : ℕ → NewVoice → ℕ → ℕ → Voice
new_voice tenant_id n id now = record {
  id = id;
  owner_tenant_id = tenant_id;
  voice_id = n.voice_id;
  display_name = n.display_name;
  language = or_else n.language "tr";
  gender = or_else n.gender "neutral";
  style_tags = or_else n.style_tags [];
  reference_uri = n.reference_uri;
  reference_sha256 = n.reference_sha256;
  reference_ms = n.reference_ms;
  reference_sample_rate = or_else n.reference_sample_rate 16000;
  source = or_else n.source "tenant-enroll";
  license_kind = n.license_kind;
  license_ref = n.license_ref;
  visibility = or_else n.visibility private;
  engine_params = or_else n.engine_params [];
  description = n.description;
  labels = n.labels;
  preview_url = n.preview_url;
  voice_settings_defaults = n.voice_settings_defaults;
  adapter_uri = none;
  adapter_sha256 = none;
  adapter_type = none;
  watermark_key_id = none;
  watermark_enabled = true;
  eval_metrics = none;
  release_status = draft;
  created_by_key_id = n.created_by_key_id;
  created_at = now;
  deleted_at = none;
  frozen_at = none;
  frozen_reason = none;
  purge_after_at = none;
  purged_at = none;
}

abbrev pub has_slug : ℕ → ℕ → Voice → Bool
has_slug tenant_id slug v = v.owner_tenant_id == tenant_id && v.voice_id == slug

-- None is the IntegrityError of the flush.
pub create : ℕ → NewVoice → ℕ → ℕ → List Voice → Option (List Voice)
create tenant_id n id now voices =
    if is_some (find (has_slug tenant_id n.voice_id) voices)
    then none
    else some (new_voice tenant_id n id now ∷ voices)

-- Enrolment fails exactly when the owner has, or has ever had, a voice of that slug: a soft-deleted
-- or purged one keeps its slug taken.
pub create_fails :
    (tenant_id id now : ℕ) (n : NewVoice) (voices : List Voice)
    → (create tenant_id n id now voices ≡ none)
      ↔ (is_some (find (has_slug tenant_id n.voice_id) voices) ≡ true)
unfolding create
create_fails tenant_id id now n voices = (λ h. ground arith, λ h. ground arith)
