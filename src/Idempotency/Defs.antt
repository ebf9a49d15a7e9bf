-- ===== src/Idempotency/Defs.antt =====
-- The table job_idempotency of src/db/models.py. UUIDs, digests and URIs are only stored and
-- compared, so they are numbers; an instant is a number of milliseconds.
use Prim.Native.String.{String}
use neuro_voice.Prelude.{ℕ, Option, List}

-- The values of the column `status` (its CHECK constraint).
pub data Status : Type 0 where
  processing complete failed : Status

-- One item of `sentence_alignment`.
pub record AlignmentEntry : Type 0 where
  pub seq : ℕ
  pub start_ms : ℕ
  pub end_ms : ℕ
  pub text : Option String

-- `JobIdempotency`
pub record Row : Type 0 where
  pub request_id : ℕ
  pub tenant_id : ℕ
  pub api_key_id : ℕ
  pub request_hash : ℕ
  pub response_uri : Option ℕ
  pub status : Status
  pub created_at : ℕ
  pub expires_at : ℕ
  pub sentence_alignment : Option (List AlignmentEntry)
