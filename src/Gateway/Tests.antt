-- ===== src/Gateway/Tests.antt =====
-- One job on the routes of src/server/main.py: accepted, refused, repeated, raced for, and served.
use neuro_voice.Prelude.{
  ◌≤◌, ◌≡◌, ◌↔◌, ◌⊎◌, List, map, All, refl, false, none, some, [], ◌∷◌, ◌++◌, ◌==◌, if◌then◌else◌,
  not, is_some, select_where, count_where, arith,
}
use neuro_voice.Prelude.Int.{pos}
use neuro_voice.Fixtures.{narrator, greeting, reservation, studio, before}
use neuro_voice.Idempotency.{Row, get, reserve, reserve_or_get, delete}
use neuro_voice.Idempotency.Replay.{still}
use neuro_voice.Voice.{Voice, get_accessible, get_owned}
use neuro_voice.Voice.Lifecycle.{lifecycle_state}
use neuro_voice.Consent.{tenant_asserted, tenant, latest_active}
use neuro_voice.Models.{resolve_model, default_model}
use neuro_voice.Heartbeat.{ClusterCapacity}
use neuro_voice.Queue.{TtsJobPayload}
use neuro_voice.Pipeline.{
  World, done, process_one_job, with_voice, with_reference, synthesize, archive_audio, commit_job,
  finish, publish_chunks, publish_step, record_usage, watermark_bits, alignment_or_none,
}
use neuro_voice.Pipeline.Commit.{Committed}
use neuro_voice.Gateway.Admission.{
  admit, HasRoom, compute_backpressure_decision, compute_backpressure_decision_lem,
}
use neuro_voice.Gateway.Gate.{gate}
use neuro_voice.Gateway.Jobs.{
  TtsJobCreate, Call, Site, Moments, sent, refused, TtsJobAccepted, queued, accepted,
  bad_gateway_502, newly_accepted, payload_of, create_tts_job, JobStatus, found, not_found_404,
  get_tts_job, metrics_of,
}
use neuro_voice.Voice.Ownership.{is_of, UniqueIds}
use neuro_voice.DataDeletion.{Ticket, create, completed, in_progress}
use neuro_voice.Gateway.Erasure.{Records, resolve, created, create_data_deletion_request}
use mathlib.Core.List.{Memᴰ}
use neuro_voice.Gateway.Erasure.Covered.{IsMeant}
use neuro_voice.Gateway.Erasure.Stopped.{AllStopped, create_data_deletion_request_stops}
use neuro_voice.Gateway.Jobs.Stages.{IsValid, is_accepted}
use neuro_voice.Gateway.Jobs.Created.{IsAccepted, create_tts_job-accepted}
use neuro_voice.Gateway.Jobs.Repeated.{alone, create_tts_job-refused}
use neuro_voice.Gateway.Jobs.Settled.{Settling, completes, settle_rows}
use neuro_voice.Gateway.Jobs.Races.{create_tts_job_race}
use neuro_voice.Gateway.Jobs.Served.{get_tts_job-create_tts_job, get_tts_job-process_one_job}

abbrev small_cluster : ClusterCapacity
small_cluster = record {
  total_capacity = pos 2;
  total_inflight = pos 1;
  worker_count = 1;
  healthy_worker_ids = 1 ∷ [];
  last_pickup_max_age_ms = none;
}

compute_backpressure_decision_lem_example :
    (compute_backpressure_decision 200 3 (some small_cluster) ≡ admit)
    ↔ ((3 ≤ 200) × HasRoom 3 (some small_cluster))
compute_backpressure_decision_lem_example =
    compute_backpressure_decision_lem 200 3 (some small_cluster)

abbrev body : TtsJobCreate
body = record {
  text = 77 ∷ 101 ∷ [];
  voice_id = some 70;
  language = "tr";
  audio_format = "wav";
  model_id = none;
  voice_settings = none;
  params = none;
  seed = none;
  previous_text = none;
  next_text = none;
  pronunciation_dict = none;
}

-- A body hashes to 11.
abbrev call : Call
call = record {
  tenant_id = 1;
  api_key_id = 2;
  idempotency_key = some 3;
  app_label = none;
  now = 80;
  async_max_chars = 100_000;
  hash_job_body = λ b. 11;
  decision = admit;
}

abbrev site : Site
site = record {
  idem = [];
  voices = narrator ∷ [];
  grants = [];
  consents =
      record {
        id = 1;
        voice_id = 7;
        consent_kind = tenant_asserted;
        evidence_uri = none;
        evidence_sha256 = none;
        evidence_notes = none;
        recorded_at = 10;
        recorded_by_kind = tenant;
        recorded_by_actor_id = none;
        revoked_at = none;
        revoked_reason = none;
      }
      ∷ [];
  jobs = [];
}

abbrev ticket : TtsJobAccepted
ticket = record { job_id = 3; status = queued; created_at = 80; deduplicated = false }

abbrev job : TtsJobPayload
job = record greeting { model_id = some default_model.model_id; enqueued_at_ms = some 80 }

abbrev row : Row
row = record reservation { expires_at = 86_400_080 }

abbrev site' : Site
site' = record site { idem = row ∷ []; jobs = job ∷ [] }

takes_job : create_tts_job call body (alone 80 []) sent site ≡ (accepted ticket, site')
unfolding create_tts_job gate reserve_or_get get get_accessible lifecycle_state latest_active
    resolve_model payload_of get_owned reserve
takes_job = refl

create_tts_job-accepted_example : IsAccepted call body site ticket site'
create_tts_job-accepted_example =
    create_tts_job-accepted call body (alone 80 []) sent site site' ticket takes_job

xadd_fails : is_accepted (create_tts_job call body (alone 80 []) refused site).0 ≡ false
unfolding create_tts_job gate reserve_or_get get get_accessible lifecycle_state latest_active
    resolve_model get_owned reserve
xadd_fails = refl

create_tts_job-refused_example : (create_tts_job call body (alone 80 []) refused site).1 ≡ site
create_tts_job-refused_example = create_tts_job-refused call body refused site refl xadd_fails

-- The client repeats the request after the worker has completed the job.
abbrev settled : List Settling
settled = completes 1 3 (some 9) none 90 ∷ []

abbrev site'' : Site
site'' = record site' { idem = settle_rows settled (row ∷ []) }

abbrev late : Moments
late = record {
  upfront = still 81 (row ∷ []);
  insert = still 81 (row ∷ []);
  reread = still 81 (row ∷ []);
  again = still 81 (row ∷ []);
}

starts : IsValid call body site 3 narrator default_model
unfolding gate get_accessible get_owned lifecycle_state latest_active resolve_model
starts = record { short = omega arith; key_is = refl; usable = refl; known_model = refl }

free : get 1 3 80 [] ≡ none
unfolding get
free = refl

taken : get 1 3 81 (row ∷ []) ≡ some row
unfolding get
taken = refl

create_tts_job_race_example :
    (create_tts_job call body late sent site ≡ (
      newly_accepted 3 row,
      record site {
        idem = row ∷ [];
        jobs = [] ++ payload_of call 3 body narrator default_model ∷ [];
      },
    ))
    × (create_tts_job call body late refused site
        ≡ (bad_gateway_502, record site { idem = (delete 1 3 (row ∷ [])).1 }))
create_tts_job_race_example =
    create_tts_job_race call body late site 3 narrator default_model row starts free refl taken refl

get_tts_job-create_tts_job_example :
    (get_tts_job (λ uri. uri) 1 (some 3) 100 [] site'.idem
      ≡ found (record {
        job_id = 3;
        status = JobStatus.queued;
        created_at = 80;
        audio_url = none;
        metrics = none;
        alignment = none;
      }))
    × (get_tts_job (λ uri. uri) 2 (some 3) 100 [] (settle_rows settled site'.idem) ≡ not_found_404)
get_tts_job-create_tts_job_example =
    get_tts_job-create_tts_job call body sent site site' ticket 100 2 settled (λ uri. uri) []
      takes_job refl (omega arith) (omega arith)

abbrev found_by_worker : World
found_by_worker = record before { idem = row ∷ [] }

abbrev handled : World
handled =
    (process_one_job (payload_of call 3 body narrator default_model) studio none 1
      found_by_worker).1

finishes :
    process_one_job (payload_of call 3 body narrator default_model) studio none 1 found_by_worker
    ≡ (done, handled)
unfolding process_one_job payload_of with_voice with_reference synthesize archive_audio commit_job
    finish publish_chunks publish_step record_usage watermark_bits get_accessible get_owned
    resolve_model
finishes = refl

get_tts_job-process_one_job_example :
    (end : Committed
      (payload_of call 3 body narrator default_model)
      studio
      1
      (row ∷ [])
      []
      []
      (narrator ∷ [])
      handled)
    × (get_tts_job (λ uri. uri) 1 (some 3) 200 handled.usage handled.idem
        ≡ found (record {
          job_id = 3;
          status = JobStatus.complete;
          created_at = 80;
          audio_url = some end.uri;
          metrics = some (metrics_of end.row);
          alignment = alignment_or_none end.audio.alignment;
        }))
get_tts_job-process_one_job_example =
    get_tts_job-process_one_job call body sent site site' ticket narrator default_model studio none
      1 found_by_worker handled (λ uri. uri) 200 takes_job refl refl finishes (omega arith)
      (omega arith)

abbrev records : Records
records = record { voices = narrator ∷ []; grants = []; tickets = [] }

one_voice : UniqueIds (narrator ∷ [])
one_voice id = ground arith

abbrev erasure : Ticket
erasure = record {
  id = 9;
  tenant_id = 1;
  voice_slugs = 70 ∷ [];
  jurisdiction = none;
  status = in_progress;
  requested_at = 500;
  requested_by_actor_id = 2;
  reason = none;
  completed_at = none;
  completion_notes = none;
}

filed : (create_data_deletion_request 1 (70 ∷ []) 2 none none 9 500 records).0 ≡ created erasure
unfolding create_data_deletion_request resolve get_owned create
filed = refl

create_data_deletion_request_stops_example :
    let out = create_data_deletion_request 1 (70 ∷ []) 2 none none 9 500 records in
    (vs : List Voice) × ((v : Voice) → IsMeant 1 (70 ∷ []) (narrator ∷ []) v → Memᴰ v vs)
    × All (λ v. v.owner_tenant_id ≡ 1) vs
    × AllStopped vs out.1.voices
    × (select_where (is_of 2) out.1.voices ≡ select_where (is_of 2) (narrator ∷ []))
    × (erasure.voice_slugs ≡ map (λ v. v.voice_id) vs)
    × ((erasure.voice_slugs ≡ []) ⊎ (map (λ v. v.voice_id) vs ≡ 70 ∷ []))
    × (in_progress
        ≡ (if count_where (λ v. not (is_some v.purged_at)) vs == 0 then completed else in_progress))
create_data_deletion_request_stops_example =
    create_data_deletion_request_stops 1 (70 ∷ []) 2 none none 9 500 2 records erasure one_voice
      filed (omega arith)
