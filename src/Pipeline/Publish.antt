-- ===== src/Pipeline/Publish.antt =====
-- What a job puts on its result stream, and its terminal failure: the helpers of
-- src/worker/pipeline.py before `process_one_job`.
use Prim.Native.String.{String}
use neuro_voice.Prelude.{
  ℕ, ◌-◌, Bool, true, false, ◌&&◌, Option, none, some, List, [], ◌∷◌, ◌++◌, ◌==◌, if◌then◌else◌,
  is_some, find, length,
}
use neuro_voice.Idempotency.{fail}
use neuro_voice.Queue.{TtsJobPayload, TtsResult}
use neuro_voice.Pipeline.State.{
  Outcome, poison, unexpected, UsageRow, UsageStatus, World, Env, set_stream,
}

-- XADD onto the result stream.
unfoldable pub xadd_result : TtsResult → World → World
xadd_result c w = set_stream c.request_id (w.streams c.request_id ++ c ∷ []) w

abbrev pub audio_chunk : ℕ → ℕ → List ℕ → Option String → ℕ → TtsResult
audio_chunk rid seq pcm text attempt = record {
  request_id = rid;
  seq = seq;
  pcm_bytes = pcm;
  sentence_text = text;
  final = false;
  error = none;
  attempt = attempt;
}

abbrev pub final_chunk : ℕ → ℕ → ℕ → TtsResult
final_chunk rid seq attempt = record {
  request_id = rid;
  seq = seq;
  pcm_bytes = [];
  sentence_text = none;
  final = true;
  error = none;
  attempt = attempt;
}

abbrev pub error_chunk : ℕ → ℕ → String → ℕ → TtsResult
error_chunk rid seq message attempt = record {
  request_id = rid;
  seq = seq;
  pcm_bytes = [];
  sentence_text = none;
  final = false;
  error = some message;
  attempt = attempt;
}

-- `_queue_wait_ms`; a negative wait is 0.
abbrev pub queue_wait_ms : TtsJobPayload → ℕ → Option ℕ
queue_wait_ms job now = elim job.enqueued_at_ms [ none ↦ none | some t ↦ some (now - t) ]

abbrev pub has_request : ℕ → UsageRow → Bool
has_request rid u = u.request_id == rid

-- `UsageRepo.record`: the column request_id is unique.
unfoldable pub record_usage : UsageRow → List UsageRow → Option (List UsageRow)
record_usage u usage =
    if is_some (find (has_request u.request_id) usage) then none else some (u ∷ usage)

abbrev pub failed_usage : TtsJobPayload → String → ℕ → ℕ → UsageRow
failed_usage job code elapsed now = record {
  tenant_id = job.tenant_id;
  api_key_id = job.api_key_id;
  voice_id = job.voice_id;
  request_id = job.request_id;
  text_char_count = length job.text;
  sentence_count = 0;
  duration_ms = 0;
  elapsed_ms = elapsed;
  queue_wait_ms = queue_wait_ms job now;
  inference_ms = none;
  first_audio_ms = none;
  worker_pickup_ms = none;
  status = UsageStatus.error;
  error_code = some code;
  model_version = none;
  app_label = job.app_label;
}

-- The world, and whether the call raised: the error chunk is out before the transaction begins.
unfoldable pub mark_terminal_failure :
    TtsJobPayload → String → String → ℕ → ℕ → ℕ → ℕ → Bool → World → World × Bool
unfolding xadd_result record_usage
mark_terminal_failure job code message seq elapsed attempt now commit_raises w =
    let w' = xadd_result (error_chunk job.request_id seq message attempt) w in
    let idem = fail job.tenant_id job.request_id now w.idem in
    let existing =
      find (λ u. u.tenant_id == job.tenant_id && u.request_id == job.request_id) w.usage in
    if commit_raises then (w', true) else elim existing [
      | some _ ↦ (record w' { idem = idem }, false)
      | none ↦ elim (record_usage (failed_usage job code elapsed now) w.usage) [
        | none ↦ (w', true)
        | some usage ↦ (record w' { idem = idem; usage = usage }, false)
      ]
    ]

-- `mark_terminal_failure` and then `raise PoisonJob`. What a message says after its code is left out.
unfoldable pub give_up : TtsJobPayload → Env → String → ℕ → ℕ → World → Outcome × World
unfolding mark_terminal_failure
give_up job env code seq attempt w =
    let (w', failed) =
      mark_terminal_failure job code code seq env.elapsed_ms attempt env.now env.commit_raises w in
    (if failed then unexpected else poison, w')
