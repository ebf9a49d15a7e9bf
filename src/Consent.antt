-- ===== src/Consent.antt =====
-- `VoiceConsentRecordRepo` of src/repos/voice_consent.py with the CHECK constraints of its table in
-- src/db/models.py. A digest is the list of its characters.
pub mod Latest
pub mod Checked
mod Tests
use Prim.Native.String.{String}
use neuro_voice.Prelude.{
  ℕ, zero, suc, Bool, true, false, ◌&&◌, ◌||◌, not, Option, none, some, List, [], ◌∷◌, leb, ◌==◌,
  if◌then◌else◌, is_some, or_else, find, update_where, select_where, length,
}

pub data ConsentKind : Type 0 where
  tenant_asserted recorded_statement signed_contract estate_permission : ConsentKind

pub data RecordedBy : Type 0 where
  tenant operator : RecordedBy

-- `VoiceConsentRecord`
pub record ConsentRecord : Type 0 where
  pub id : ℕ
  pub voice_id : ℕ
  pub consent_kind : ConsentKind
  pub evidence_uri : Option String
  pub evidence_sha256 : Option (List ℕ)
  pub evidence_notes : Option String
  pub recorded_at : ℕ
  pub recorded_by_kind : RecordedBy
  pub recorded_by_actor_id : Option ℕ
  pub revoked_at : Option ℕ
  pub revoked_reason : Option String

-- ORDER BY recorded_at DESC; what equal times leave open is the order of the table.
abbrev pub insert_newest : ConsentRecord → List ConsentRecord → List ConsentRecord
insert_newest r [] = r ∷ []
insert_newest r (x ∷ xs) =
    let rest = insert_newest r xs in
    if leb x.recorded_at r.recorded_at then r ∷ x ∷ xs else x ∷ rest

abbrev pub newest_first : List ConsentRecord → List ConsentRecord
newest_first [] = []
newest_first (r ∷ rs) = insert_newest r (newest_first rs)

-- The WHERE clauses.
abbrev pub is_of_voice : ℕ → ConsentRecord → Bool
is_of_voice voice_id r = r.voice_id == voice_id

abbrev pub is_active_for : ℕ → ConsentRecord → Bool
is_active_for voice_id r = r.voice_id == voice_id && not (is_some r.revoked_at)

-- LIMIT 1
abbrev pub first_of : List ConsentRecord → Option ConsentRecord
first_of [] = none
first_of (r ∷ rs) = some r

unfoldable pub latest_active : ℕ → List ConsentRecord → Option ConsentRecord
latest_active voice_id rs = first_of (newest_first (select_where (is_active_for voice_id) rs))

pub list_for_voice : ℕ → Bool → List ConsentRecord → List ConsentRecord
list_for_voice voice_id include_revoked rs =
    newest_first
      (select_where (if include_revoked then is_of_voice voice_id else is_active_for voice_id) rs)

abbrev pub is_asserted : ConsentKind → Bool
is_asserted k = elim k [ tenant_asserted ↦ true | _ ↦ false ]

-- voice_consent_records_evidence_presence
abbrev pub is_evidence_present : ConsentRecord → Bool
is_evidence_present r =
    if is_asserted r.consent_kind then not (is_some r.evidence_uri) else is_some r.evidence_uri

-- `[0-9a-f]`
abbrev pub is_hex : ℕ → Bool
is_hex c = (leb 48 c && leb c 57) || (leb 97 c && leb c 102)

abbrev pub all_hex : List ℕ → Bool
all_hex [] = true
all_hex (c ∷ cs) = is_hex c && all_hex cs

-- voice_consent_records_evidence_sha256_format
abbrev pub is_sha256 : Option (List ℕ) → Bool
is_sha256 none = true
is_sha256 (some digest) = length digest == 64 && all_hex digest

-- voice_consent_records_revoked_after_recorded
abbrev pub is_revoked_after : ConsentRecord → Bool
is_revoked_after r = elim r.revoked_at [ none ↦ true | some at ↦ leb r.recorded_at at ]

abbrev pub passes_checks : ConsentRecord → Bool
passes_checks r = is_evidence_present r && (is_sha256 r.evidence_sha256 && is_revoked_after r)

-- `missing` is None, `value_error` is the ValueError, `integrity_error` the one of the flush.
pub data ConsentReply : Type 0 where
  missing value_error integrity_error : ConsentReply
  stored : ConsentRecord → ConsentReply

-- The arguments of `record`.
pub record Evidence : Type 0 where
  pub voice_id : ℕ
  pub consent_kind : ConsentKind
  pub recorded_by_kind : RecordedBy
  pub recorded_by_actor_id : Option ℕ
  pub evidence_uri : Option String
  pub evidence_sha256 : Option (List ℕ)
  pub evidence_notes : Option String

abbrev pub new_record : Evidence → ℕ → ℕ → ConsentRecord
new_record e id now = record {
  id = id;
  voice_id = e.voice_id;
  consent_kind = e.consent_kind;
  evidence_uri = e.evidence_uri;
  evidence_sha256 = e.evidence_sha256;
  evidence_notes = e.evidence_notes;
  recorded_at = now;
  recorded_by_kind = e.recorded_by_kind;
  recorded_by_actor_id = e.recorded_by_actor_id;
  revoked_at = none;
  revoked_reason = none;
}

-- The flush; the foreign key wants the voice in the table.
abbrev pub insert_checked :
    Bool → ConsentRecord → List ConsentRecord → ConsentReply × List ConsentRecord
insert_checked voice_exists r rs =
    if voice_exists && passes_checks r then (stored r, r ∷ rs) else (integrity_error, rs)

-- `record`; the key and the time of the new row are arguments.
pub record_consent :
    Evidence → Bool → ℕ → ℕ → List ConsentRecord → ConsentReply × List ConsentRecord
record_consent e voice_exists id now rs =
    if is_asserted e.consent_kind && is_some e.evidence_uri
    then (value_error, rs)
    else if not (is_asserted e.consent_kind) && not (is_some e.evidence_uri)
    then (value_error, rs)
    else insert_checked voice_exists (new_record e id now) rs

abbrev pub has_consent_id : ℕ → ConsentRecord → Bool
has_consent_id id r = r.id == id

abbrev pub revoked : Option String → ℕ → ConsentRecord → ConsentRecord
revoked reason at r = record r { revoked_at = some at; revoked_reason = reason }

pub revoke :
    ℕ → Option String → Option ℕ → ℕ → List ConsentRecord → ConsentReply × List ConsentRecord
revoke id reason revoked_at now rs = elim (find (has_consent_id id) rs) [
  | none ↦ (missing, rs)
  | some r ↦
      let at = or_else revoked_at now in
      if is_some r.revoked_at
      then (missing, rs)
      else if passes_checks (revoked reason at r)
      then (stored (revoked reason at r), update_where (has_consent_id id) (revoked reason at) rs)
      else (integrity_error, rs)
]
