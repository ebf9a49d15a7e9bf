-- ===== src/Pipeline/State.antt =====
-- What a job of src/worker/pipeline.py reads and writes, and what it gets from outside.
use Prim.Native.String.{String}
use neuro_voice.Prelude.{ℕ, Bool, Option, List, ◌==◌, if◌then◌else◌}
use neuro_voice.Idempotency.{Table}
use neuro_voice.Voice.{Voice, Grant}
use neuro_voice.Queue.{TtsJobPayload, TtsResult}
use neuro_voice.Watermark.{WatermarkKey}

-- How `process_one_job` ends: it returns, raises PoisonJob, raises TransientFailure, or lets another
-- exception through.
pub data Outcome : Type 0 where
  done poison transient unexpected : Outcome

pub data UsageStatus : Type 0 where
  ok error : UsageStatus

-- `UsageRecord` of src/db/models.py, with the columns that the pipeline fills from the job.
pub record UsageRow : Type 0 where
  pub tenant_id : ℕ
  pub api_key_id : ℕ
  pub voice_id : ℕ
  pub request_id : ℕ
  pub text_char_count : ℕ
  pub sentence_count : ℕ
  pub duration_ms : ℕ
  pub elapsed_ms : ℕ
  pub queue_wait_ms : Option ℕ
  pub inference_ms : Option ℕ
  pub first_audio_ms : Option ℕ
  pub worker_pickup_ms : Option ℕ
  pub status : UsageStatus
  pub error_code : Option String
  pub model_version : Option String
  pub app_label : Option String

-- The database, and the result stream of each request.
pub record World : Type 0 where
  pub idem : Table
  pub usage : List UsageRow
  pub voices : List Voice
  pub grants : List Grant
  pub keys : List WatermarkKey
  pub streams : ℕ → List TtsResult

abbrev pub set_stream : ℕ → List TtsResult → World → World
set_stream rid chunks w = record w { streams = λ r. if r == rid then chunks else w.streams r }

-- `SynthChunk`
pub record SynthChunk : Type 0 where
  pub pcm_int16 : List ℕ
  pub sample_rate : ℕ
  pub sentence_text : Option String

-- What the generator of the engine yields, and whether it (or a publish) then raises.
pub record EngineRun : Type 0 where
  pub chunks : List SynthChunk
  pub raised : Bool

pub data ArchiveReply : Type 0 where
  raised no_uri : ArchiveReply
  stored : ℕ → ArchiveReply

-- The code and the services that the pipeline calls, and the failures of one attempt. `outage` is
-- an exception of the first Redis call.
pub record Env : Type 0 where
  pub now : ℕ
  pub elapsed_ms : ℕ
  pub inference_ms : ℕ
  pub first_audio_ms : ℕ
  pub outage : Bool
  pub resolve_reference : String → Option ℕ
  pub audioseal : Bool
  pub engine : TtsJobPayload → Voice → ℕ → EngineRun
  pub sample_rate : ℕ
  pub apply_voice_settings : TtsJobPayload → Voice → ℕ → List ℕ → List ℕ
  pub watermark_pcm : ℕ → ℕ → List ℕ → List ℕ
  pub archive : Option (List ℕ → ArchiveReply)
  pub commit_raises : Bool
  pub final_raises : Bool
