-- ===== src/Gateway/Jobs.antt =====
-- `create_tts_job` and `get_tts_job` of src/server/main.py, in stages. `_hash_job_body`, the presigned
-- URL, the clock and XADD are outside; the audit and metrics of a refusal are left out. Other sessions
-- commit between the statements of a reservation, so each of them has its own view of the table.
pub mod Stages
pub mod Created
pub mod Repeated
pub mod Settled
pub mod Races
pub mod Served
use Prim.Native.String.{String}
use neuro_voice.Prelude.{
  ℕ, Bool, true, false, Option, none, some, List, [], ◌∷◌, ◌++◌, leb, ltb, ◌==◌, ◌&&◌,
  if◌then◌else◌, find, length, or_else,
}
use neuro_voice.ApiKeys.{Text}
use neuro_voice.Idempotency.{
  Row, Status, Table, Request, Reply, Moment, AlignmentEntry, get, reserve_or_get, delete, reserved,
  replay, conflict, integrity_error,
}
use neuro_voice.Voice.{Voice, Grant, Json}
use neuro_voice.Queue.{TtsJobPayload}
use neuro_voice.Consent.{ConsentRecord}
use neuro_voice.Models.{ModelPreset, resolve_model}
use neuro_voice.Pipeline.{UsageRow}
use neuro_voice.Gateway.Admission.{Decision, admit}
use neuro_voice.Gateway.Gate.{
  GateReply, GoneReason, invalid_voice_id, unknown_voice, gone, passed, gate,
}

-- `TtsJobCreate`. An id that `validate_voice_id` refuses is none; settings and params are what
-- `model_dump` makes of them.
pub record TtsJobCreate : Type 0 where
  pub text : Text
  pub voice_id : Option ℕ
  pub language : String
  pub audio_format : String
  pub model_id : Option String
  pub voice_settings : Option Json
  pub params : Option Json
  pub seed : Option ℕ
  pub previous_text : Option String
  pub next_text : Option String
  pub pronunciation_dict : Option (List (String × String))

-- The context of the caller, the headers (none is an Idempotency-Key that does not parse), and
-- what the code gets from outside.
pub record Call : Type 0 where
  pub tenant_id : ℕ
  pub api_key_id : ℕ
  pub idempotency_key : Option ℕ
  pub app_label : Option String
  pub now : ℕ
  pub async_max_chars : ℕ
  pub hash_job_body : TtsJobCreate → ℕ
  pub decision : Decision

-- XADD: done, not done, or done with the reply lost.
pub data Submission : Type 0 where
  sent refused reply_lost : Submission

-- The tables that the route reads and writes, and the job stream, oldest first.
pub record Site : Type 0 where
  pub idem : Table
  pub voices : List Voice
  pub grants : List Grant
  pub consents : List ConsentRecord
  pub jobs : List TtsJobPayload

-- What the four statements of `reserve_or_get` see.
pub record Moments : Type 0 where
  pub upfront : Moment
  pub insert : Moment
  pub reread : Moment
  pub again : Moment

pub data AcceptedStatus : Type 0 where
  queued complete : AcceptedStatus

pub record TtsJobAccepted : Type 0 where
  pub job_id : ℕ
  pub status : AcceptedStatus
  pub created_at : ℕ
  pub deduplicated : Bool

pub data JobReply : Type 0 where
  text_too_long_400 bad_key_400 bad_voice_id_400 unknown_model_400 : JobReply
  not_found_404 : JobReply
  gone_410 : GoneReason → JobReply
  conflict_409 : Row → JobReply
  saturated_503 : Decision → JobReply
  bad_gateway_502 server_error : JobReply
  accepted : TtsJobAccepted → JobReply

unfoldable pub payload_of : Call → ℕ → TtsJobCreate → Voice → ModelPreset → TtsJobPayload
payload_of c key body v preset = record {
  request_id = key;
  tenant_id = c.tenant_id;
  api_key_id = c.api_key_id;
  voice_id = v.voice_id;
  text = body.text;
  language = body.language;
  audio_format = body.audio_format;
  model_id = some preset.model_id;
  voice_settings = body.voice_settings;
  params = body.params;
  seed = body.seed;
  previous_text = body.previous_text;
  next_text = body.next_text;
  pronunciation_dict = body.pronunciation_dict;
  app_label = c.app_label;
  callback_url = none;
  enqueued_at_ms = some c.now;
}

abbrev pub newly_accepted : ℕ → Row → JobReply
newly_accepted key row =
    accepted
      (record { job_id = key; status = queued; created_at = row.created_at; deduplicated = false })

-- `queue.submit`, after the commit of the reservation; a failure deletes the row.
pub submit_job : Call → ℕ → Row → TtsJobPayload → Submission → Site → JobReply × Site
submit_job c key row job sent s = (newly_accepted key row, record s { jobs = s.jobs ++ job ∷ [] })
submit_job c key row job refused s =
    (bad_gateway_502, record s { idem = (delete c.tenant_id key s.idem).1 })
submit_job c key row job reply_lost s = (
  bad_gateway_502,
  record s { idem = (delete c.tenant_id key s.idem).1; jobs = s.jobs ++ job ∷ [] },
)

abbrev pub request_of : Call → ℕ → TtsJobCreate → Request
request_of c key body = record {
  request_id = key;
  api_key_id = c.api_key_id;
  request_hash = c.hash_job_body body;
  ttl = none;
}

-- `_is_new` is not looked at: a replay is submitted like a new reservation.
pub reserve_job :
    Call → ℕ → TtsJobCreate → Voice → ModelPreset → Moments → Submission → Site → JobReply × Site
unfolding submit_job payload_of
reserve_job c key body v preset m x s =
    let (reply, table) =
      reserve_or_get c.tenant_id (request_of c key body) m.upfront m.insert m.reread m.again in
    let s' = record s { idem = table } in
    elim reply [
      | reserved row ↦ submit_job c key row (payload_of c key body v preset) x s'
      | replay row ↦ submit_job c key row (payload_of c key body v preset) x s'
      | conflict row ↦ (conflict_409 row, s')
      | integrity_error ↦ (server_error, s')
    ]

abbrev pub accepted_status : Status → AcceptedStatus
accepted_status s = elim s [ Status.complete ↦ complete | _ ↦ queued ]

-- The row that the first `idem.get` found.
pub replay_job : Call → ℕ → TtsJobCreate → Row → JobReply
replay_job c key body row =
    if row.request_hash == c.hash_job_body body
    then accepted (record {
      job_id = key;
      status = accepted_status row.status;
      created_at = row.created_at;
      deduplicated = true;
    })
    else conflict_409 row

abbrev pub is_admit : Decision → Bool
is_admit d = elim d [ admit ↦ true | _ ↦ false ]

pub get_or_reserve_job :
    Call → ℕ → TtsJobCreate → Voice → ModelPreset → Moments → Submission → Site → JobReply × Site
unfolding reserve_job replay_job
get_or_reserve_job c key body v preset m x s = elim (get c.tenant_id key c.now s.idem) [
  | some row ↦ (replay_job c key body row, s)
  | none ↦
      if is_admit c.decision
      then reserve_job c key body v preset m x s
      else (saturated_503 c.decision, s)
]

-- The gate and the model.
pub checked_job : Call → ℕ → TtsJobCreate → Moments → Submission → Site → JobReply × Site
unfolding get_or_reserve_job
checked_job c key body m x s = elim (gate body.voice_id c.tenant_id s.grants s.voices s.consents) [
  | invalid_voice_id ↦ (bad_voice_id_400, s)
  | unknown_voice ↦ (not_found_404, s)
  | gone reason ↦ (gone_410 reason, s)
  | passed v ↦ elim (resolve_model body.model_id) [
    | none ↦ (unknown_model_400, s)
    | some preset ↦ get_or_reserve_job c key body v preset m x s
  ]
]

unfoldable pub create_tts_job : Call → TtsJobCreate → Moments → Submission → Site → JobReply × Site
unfolding checked_job
create_tts_job c body m x s =
    if ltb c.async_max_chars (length body.text)
    then (text_too_long_400, s)
    else elim c.idempotency_key [
      | none ↦ (bad_key_400, s)
      | some key ↦ checked_job c key body m x s
    ]

-- `_map_idempotency_status_to_job_status`
pub data JobStatus : Type 0 where
  queued running complete failed : JobStatus

pub map_idempotency_status_to_job_status : Status → JobStatus
map_idempotency_status_to_job_status s = elim s [
  | Status.complete ↦ JobStatus.complete
  | Status.failed ↦ failed
  | _ ↦ JobStatus.queued
]

-- `_find_usage_row`
abbrev pub find_usage_row : ℕ → ℕ → List UsageRow → Option UsageRow
find_usage_row tenant_id request_id =
    find (λ u. u.tenant_id == tenant_id && u.request_id == request_id)

-- `TtsJobMetrics`; rtf, a quotient of floats, is left out.
pub record TtsJobMetrics : Type 0 where
  pub queue_wait_ms : Option ℕ
  pub inference_ms : ℕ
  pub first_audio_ms : Option ℕ
  pub generated_audio_ms : ℕ
  pub character_count : ℕ
  pub model_id : Option String

-- `inference_ms or elapsed_ms`
abbrev pub inference_or_elapsed : UsageRow → ℕ
inference_or_elapsed u = elim u.inference_ms [
  | none ↦ u.elapsed_ms
  | some n ↦ if n == 0 then u.elapsed_ms else n
]

abbrev pub metrics_of : UsageRow → TtsJobMetrics
metrics_of u = record {
  queue_wait_ms = u.queue_wait_ms;
  inference_ms = inference_or_elapsed u;
  first_audio_ms = u.first_audio_ms;
  generated_audio_ms = u.duration_ms;
  character_count = u.text_char_count;
  model_id = u.model_version;
}

-- `TtsJobStatusResponse`; the audio URL is what `_maybe_presigned_url` makes of the URI.
pub record TtsJobStatusResponse : Type 0 where
  pub job_id : ℕ
  pub status : JobStatus
  pub created_at : ℕ
  pub audio_url : Option ℕ
  pub metrics : Option TtsJobMetrics
  pub alignment : Option (List AlignmentEntry)

pub data StatusReply : Type 0 where
  bad_id_400 not_found_404 : StatusReply
  found : TtsJobStatusResponse → StatusReply

abbrev pub alignment_of : Option (List AlignmentEntry) → Option (List AlignmentEntry)
alignment_of none = none
alignment_of (some []) = none
alignment_of (some (entry ∷ entries)) = some (entry ∷ entries)

abbrev pub is_complete : Status → Bool
is_complete s = elim s [ Status.complete ↦ true | _ ↦ false ]

pub status_response : (ℕ → ℕ) → ℕ → ℕ → List UsageRow → Row → TtsJobStatusResponse
unfolding map_idempotency_status_to_job_status
status_response presign tenant_id job_id usage row =
    if is_complete row.status
    then record {
      job_id = job_id;
      status = map_idempotency_status_to_job_status row.status;
      created_at = row.created_at;
      audio_url = elim row.response_uri [ none ↦ none | some uri ↦ some (presign uri) ];
      metrics = elim (find_usage_row tenant_id job_id usage) [
        | none ↦ none
        | some u ↦ some (metrics_of u)
      ];
      alignment = alignment_of row.sentence_alignment;
    }
    else record {
      job_id = job_id;
      status = map_idempotency_status_to_job_status row.status;
      created_at = row.created_at;
      audio_url = none;
      metrics = none;
      alignment = none;
    }

-- A path that is no UUID is none.
pub get_tts_job : (ℕ → ℕ) → ℕ → Option ℕ → ℕ → List UsageRow → Table → StatusReply
unfolding status_response
get_tts_job presign tenant_id none now usage idem = bad_id_400
get_tts_job presign tenant_id (some rid) now usage idem = elim (get tenant_id rid now idem) [
  | none ↦ not_found_404
  | some row ↦ found (status_response presign tenant_id rid usage row)
]
