-- ===== src/Pipeline.antt =====
-- `process_one_job` of src/worker/pipeline.py and what it publishes, in stages. Each stage ends the
-- job or calls the next.
mod State
mod Publish
pub mod Audio
pub mod Commit
pub mod Sealed
pub mod Effects
pub mod Redelivery
mod Tests
pub use State.*
unfoldable pub use Publish.*
use Prim.Native.String.{String}
use neuro_voice.Prelude.{
  or_else, ℕ, suc, ◌+◌, ◌-◌, ◌*◌, ◌/◌, max, Bool, true, false, ◌&&◌, not, Option, none, some, List,
  [], ◌∷◌, ◌++◌, ◌==◌, if◌then◌else◌, is_some, find, length,
}
use neuro_voice.Prelude.Float.{thousandths}
use neuro_voice.Idempotency.{AlignmentEntry, complete, fail}
use neuro_voice.Voice.{
  Voice, get_accessible, LicenseKind, talent_contract, public_figure, partner_licensed,
}
use neuro_voice.Queue.{TtsJobPayload, TtsResult}
use neuro_voice.Watermark.{WatermarkKey, get_active}
use neuro_voice.Models.{ModelPreset, resolve_model}

-- The variables of the chunk loop.
pub record Progress : Type 0 where
  pub seq : ℕ
  pub pcm : List ℕ
  pub cumulative_samples : ℕ
  pub alignment : List AlignmentEntry
  pub published : List TtsResult

abbrev pub no_progress : Progress
no_progress = record { seq = 0; pcm = []; cumulative_samples = 0; alignment = []; published = [] }

abbrev pub rate_or_default : ℕ → ℕ → ℕ
rate_or_default chunk_rate engine_rate = if chunk_rate == 0 then engine_rate else chunk_rate

-- `int(samples / max(rate, 1) * 1000)`, in floats.
unfoldable pub samples_ms : ℕ → ℕ → ℕ
unfolding thousandths
samples_ms samples rate = thousandths samples (max rate 1)

-- Speed and watermark, as the chunk loop applies them.
abbrev pub pcm_out : TtsJobPayload → Env → Voice → Option ℕ → SynthChunk → List ℕ
pcm_out job env v bits c =
    let pcm = env.apply_voice_settings job v c.sample_rate c.pcm_int16 in
    elim bits [
      | none ↦ pcm
      | some b ↦
          if env.audioseal
          then env.watermark_pcm b (rate_or_default c.sample_rate env.sample_rate) pcm
          else pcm
    ]

-- One round of the chunk loop: publish, extend the buffer, align (`sentence_text or ""`).
unfoldable pub publish_step : TtsJobPayload → ℕ → ℕ → List ℕ → Option String → Progress → Progress
publish_step job attempt rate pcm text p =
    let total = p.cumulative_samples + length pcm / 2 in
    let entry : AlignmentEntry = record {
      seq = p.seq;
      start_ms = samples_ms p.cumulative_samples rate;
      end_ms = samples_ms total rate;
      text = some (or_else text "");
    } in
    record {
      seq = suc p.seq;
      pcm = p.pcm ++ pcm;
      cumulative_samples = total;
      alignment = p.alignment ++ entry ∷ [];
      published = p.published ++ audio_chunk job.request_id p.seq pcm text attempt ∷ [];
    }

unfoldable pub publish_chunks :
    TtsJobPayload → Env → Voice → Option ℕ → ℕ → List SynthChunk → Progress → Progress
publish_chunks job env v bits attempt [] p = p
publish_chunks job env v bits attempt (c ∷ cs) p = publish_chunks job env v bits attempt cs (
    publish_step job attempt (rate_or_default c.sample_rate env.sample_rate)
      (pcm_out job env v bits c) c.sentence_text p)

-- Stage 7. The commit has been made.
unfoldable pub finish : TtsJobPayload → Env → ℕ → ℕ → World → Outcome × World
finish job env attempt seq w =
    if env.final_raises
    then (transient, w)
    else (done, xadd_result (final_chunk job.request_id seq attempt) w)

abbrev pub ok_usage : TtsJobPayload → Env → Voice → Option ℕ → ModelPreset → Progress → UsageRow
ok_usage job env v pickup preset p = record {
  tenant_id = job.tenant_id;
  api_key_id = job.api_key_id;
  voice_id = v.voice_id;
  request_id = job.request_id;
  text_char_count = length job.text;
  sentence_count = p.seq;
  duration_ms = samples_ms (length p.pcm / 2) env.sample_rate;
  elapsed_ms = env.elapsed_ms;
  queue_wait_ms = queue_wait_ms job env.now;
  inference_ms = some env.inference_ms;
  first_audio_ms = if p.seq == 0 then none else some env.first_audio_ms;
  worker_pickup_ms = pickup;
  status = UsageStatus.ok;
  error_code = none;
  model_version = some preset.model_id;
  app_label = job.app_label;
}

-- `alignment if alignment else None`
abbrev pub alignment_or_none : List AlignmentEntry → Option (List AlignmentEntry)
alignment_or_none [] = none
alignment_or_none (e ∷ es) = some (e ∷ es)

-- Stage 6: one transaction. The metrics after it cannot fail.
unfoldable pub commit_job :
    TtsJobPayload
    → Env
    → Voice
    → Option ℕ
    → ℕ
    → ModelPreset
    → Progress
    → ℕ
    → World
    → Outcome × World
commit_job job env v pickup attempt preset p uri w =
    let idem =
      complete job.tenant_id job.request_id (some uri) (alignment_or_none p.alignment) env.now
        w.idem in
    if env.commit_raises
    then (transient, w)
    else elim (record_usage (ok_usage job env v pickup preset p) w.usage) [
      | none ↦ (transient, w)
      | some usage ↦ finish job env attempt p.seq (record w { idem = idem; usage = usage })
    ]

-- Stage 5.
unfoldable pub archive_audio :
    TtsJobPayload → Env → Voice → Option ℕ → ℕ → ModelPreset → Progress → World → Outcome × World
archive_audio job env v pickup attempt preset p w = elim env.archive [
  | none ↦ (transient, w)
  | some archive ↦ elim p.pcm [
    | [] ↦ give_up job env "empty_pcm" p.seq attempt w
    | b ∷ bs ↦ elim (archive p.pcm) [
      | raised ↦ (transient, w)
      | no_uri ↦ (transient, w)
      | stored uri ↦ commit_job job env v pickup attempt preset p uri w
    ]
  ]
]

-- Stages 3 and 4. Chunks go out as they are made; a failure leaves them on the stream.
unfoldable pub synthesize :
    TtsJobPayload
    → Env
    → Voice
    → Option ℕ
    → Option ℕ
    → ℕ
    → ModelPreset
    → ℕ
    → World
    → Outcome × World
synthesize job env v bits pickup attempt preset ref w =
    let run = env.engine job v ref in
    let p = publish_chunks job env v bits attempt run.chunks no_progress in
    let w' = set_stream job.request_id (w.streams job.request_id ++ p.published) w in
    if run.raised then (transient, w') else archive_audio job env v pickup attempt preset p w'

-- Stage 2, and the lookup of the preset before the chunk loop.
unfoldable pub with_reference :
    TtsJobPayload → Env → Voice → Option ℕ → Option ℕ → ℕ → World → Outcome × World
with_reference job env v bits pickup attempt w = elim (env.resolve_reference v.reference_uri) [
  | none ↦ give_up job env "reference_missing" 0 attempt w
  | some ref ↦ elim (resolve_model job.model_id) [
    | none ↦ give_up job env "unknown_model_id" 0 attempt w
    | some preset ↦ synthesize job env v bits pickup attempt preset ref w
  ]
]

-- `_WATERMARK_REQUIRED_LICENSE_KINDS`
abbrev pub requires_watermark : LicenseKind → Bool
requires_watermark k = elim k [
  | talent_contract ↦ true
  | public_figure ↦ true
  | partner_licensed ↦ true
  | _ ↦ false
]

-- The bits of the active key that is bound to the voice, if watermarking is on.
unfoldable pub watermark_bits : Voice → List WatermarkKey → Option ℕ
watermark_bits v keys =
    if v.watermark_enabled
    then elim v.watermark_key_id [
      | none ↦ none
      | some id ↦ elim (get_active id keys) [ none ↦ none | some k ↦ some k.message_bits ]
    ]
    else none

-- The watermark gate of stage 1.
unfoldable pub with_voice : TtsJobPayload → Env → Voice → Option ℕ → ℕ → World → Outcome × World
with_voice job env v pickup attempt w =
    let bits = watermark_bits v w.keys in
    let next = with_reference job env v bits pickup attempt w in
    if requires_watermark v.license_kind
    then if is_some bits
      then if env.audioseal then next else (transient, w)
      else give_up job env "watermark_required_no_key" 0 attempt w
    else next

-- Stage 1, after the stream of the request has been deleted.
unfoldable pub process_one_job : TtsJobPayload → Env → Option ℕ → ℕ → World → Outcome × World
process_one_job job env pickup attempt w =
    let w' = set_stream job.request_id [] w in
    if env.outage
    then (unexpected, w)
    else elim (get_accessible job.tenant_id job.voice_id w.grants w.voices) [
      | none ↦ give_up job env "voice_not_found" 0 attempt w'
      | some v ↦ with_voice job env v pickup attempt w'
    ]
