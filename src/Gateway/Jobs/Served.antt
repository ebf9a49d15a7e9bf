-- ===== src/Gateway/Jobs/Served.antt =====
-- A job from `create_tts_job` through the worker to `get_tts_job` (src/server/main.py).
use neuro_voice.Prelude.{
  ℕ, ◌+◌, ◌<◌, ◌≡◌, ◌≢◌, refl, ap, ◌∙◌, false, Option, none, some, List, [], ◌∷◌, find-update_key,
  arith,
}
use neuro_voice.Idempotency.{
  Row, Table, AlignmentEntry, new_row, has_key, is_visible, get, get-match, complete, completed,
  keep_or, default_ttl,
}
use neuro_voice.Idempotency.Alone.{get_other_tenant}
use neuro_voice.Voice.{Voice}
use neuro_voice.Models.{ModelPreset}
use neuro_voice.Pipeline.{World, Env, UsageRow, done, process_one_job, alignment_or_none}
use neuro_voice.Pipeline.Commit.{Committed, process_one_job-done}
use neuro_voice.Gateway.Jobs.Settled.{Settling, settle_rows, get-settle_rows-none}
use neuro_voice.Gateway.Jobs.Repeated.{alone, get-create_tts_job, create_tts_job-IsReserved}
use neuro_voice.Gateway.Jobs.{
  TtsJobCreate, Call, Submission, Site, TtsJobAccepted, accepted, payload_of, request_of,
  create_tts_job, JobStatus, find_usage_row, metrics_of, not_found_404, found, alignment_of,
  status_response, get_tts_job, map_idempotency_status_to_job_status,
}

-- `complete` at one time, seen at another.
get-complete_later :
    (tenant_id request_id uri now later : ℕ) (alignment : Option (List AlignmentEntry))
    (table : Table) (row : Row)
    → get tenant_id request_id now table ≡ some row
    → get tenant_id request_id later table ≡ some row
    → get tenant_id request_id later (complete tenant_id request_id (some uri) alignment now table)
      ≡ some (completed (some uri) alignment row)
unfolding complete get
get-complete_later tenant_id request_id uri now later alignment table row e f =
    rw (e, complete)
      (find-update_key (is_visible tenant_id request_id later) (has_key row.request_id)
        (completed (some uri) alignment) table {r = row}
        (λ a h. ground (arith, get-match tenant_id request_id now table row e)) (λ a. refl) f)

get_tts_job-found :
    (presign : ℕ → ℕ) (tenant_id rid now : ℕ) (usage : List UsageRow) (idem : Table) (row : Row)
    → get tenant_id rid now idem ≡ some row
    → get_tts_job presign tenant_id (some rid) now usage idem
      ≡ found (status_response presign tenant_id rid usage row)
unfolding get_tts_job
get_tts_job-found presign tenant_id rid now usage idem row hit = rw (hit, get_tts_job) refl

get_tts_job_missing :
    (presign : ℕ → ℕ) (tenant_id rid now : ℕ) (usage : List UsageRow) (idem : Table)
    → get tenant_id rid now idem ≡ none
    → get_tts_job presign tenant_id (some rid) now usage idem ≡ not_found_404
unfolding get_tts_job
get_tts_job_missing presign tenant_id rid now usage idem miss = rw (miss, get_tts_job) refl

-- A job that was newly accepted, with no other session at work until the 202, is reported to its
-- tenant as queued, with the time of the 202, as long as nothing is written to the table after the 202
-- and the row has not expired; and to every other tenant as not found, also after workers have
-- completed or failed any rows.
pub get_tts_job-create_tts_job :
    (c : Call) (body : TtsJobCreate) (x : Submission) (s s' : Site) (a : TtsJobAccepted)
    (later other : ℕ) (settled : List Settling) (presign : ℕ → ℕ) (usage : List UsageRow)
    → create_tts_job c body (alone c.now s.idem) x s ≡ (accepted a, s')
    → a.deduplicated ≡ false
    → later < c.now + default_ttl
    → other ≢ c.tenant_id
    → (get_tts_job presign c.tenant_id (some a.job_id) later usage s'.idem
        ≡ found (record {
          job_id = a.job_id;
          status = JobStatus.queued;
          created_at = a.created_at;
          audio_url = none;
          metrics = none;
          alignment = none;
        }))
      × (get_tts_job presign other (some a.job_id) later usage (settle_rows settled s'.idem)
          ≡ not_found_404)
unfolding status_response map_idempotency_status_to_job_status
get_tts_job-create_tts_job c body x s s' a later other settled presign usage e new soon differ =
    let (hit, time) = get-create_tts_job c body x s s' a later e new soon in
    let made = create_tts_job-IsReserved c body x s s' a e new in
    let miss : get other a.job_id later s'.idem ≡ none = rw made.stored (
      get_other_tenant c.tenant_id other c.now later (request_of c a.job_id body) s.idem made.table
        made.row made.reserved_row differ) in
    (
      get_tts_job-found presign c.tenant_id a.job_id later usage s'.idem
            (new_row c.tenant_id (request_of c a.job_id body) c.now) hit
          ∙ rw time refl,
      get_tts_job_missing presign other a.job_id later usage (settle_rows settled s'.idem)
          (get-settle_rows-none other a.job_id later settled s'.idem miss),
    )

alignment_of-completed :
    (l : List AlignmentEntry)
    → alignment_of (keep_or (alignment_or_none l) none) ≡ alignment_or_none l
alignment_of-completed [] = refl
alignment_of-completed (e ∷ es) = refl

find_usage_row_new :
    (tenant_id request_id : ℕ) (row : UsageRow) (usage : List UsageRow)
    → row.request_id ≡ request_id
    → row.tenant_id ≡ tenant_id
    → find_usage_row tenant_id request_id (row ∷ usage) ≡ some row
find_usage_row_new tenant_id request_id row usage e f = ground (arith, e, f)

-- A job that was newly accepted, with no other session at work until the 202, and that the worker then
-- handled to its end, within the day that the row lives, is reported as complete: the audio is what
-- the archive stored for exactly the published samples, the metrics are those of the one usage row of
-- the job, and the alignment is the timeline of the published chunks, from the samples before each to
-- those up to its end. The worker finds the table as the 202 left it, and the payload that the gateway
-- sent.
pub get_tts_job-process_one_job :
    (c : Call) (body : TtsJobCreate) (x : Submission) (s s' : Site) (a : TtsJobAccepted) (v : Voice)
    (preset : ModelPreset) (env : Env) (pickup : Option ℕ) (attempt : ℕ) (w w' : World)
    (presign : ℕ → ℕ) (later : ℕ)
    → create_tts_job c body (alone c.now s.idem) x s ≡ (accepted a, s')
    → a.deduplicated ≡ false
    → w.idem ≡ s'.idem
    → process_one_job (payload_of c a.job_id body v preset) env pickup attempt w ≡ (done, w')
    → env.now < c.now + default_ttl
    → later < c.now + default_ttl
    → (end : Committed
        (payload_of c a.job_id body v preset)
        env
        attempt
        w.idem
        w.usage
        w.grants
        w.voices
        w')
      × (get_tts_job presign c.tenant_id (some a.job_id) later w'.usage w'.idem
          ≡ found (record {
            job_id = a.job_id;
            status = JobStatus.complete;
            created_at = a.created_at;
            audio_url = some (presign end.uri);
            metrics = some (metrics_of end.row);
            alignment = alignment_or_none end.audio.alignment;
          }))
unfolding status_response map_idempotency_status_to_job_status payload_of
get_tts_job-process_one_job c body x s s' a v preset env pickup attempt w w' presign later e new
      table run soon soon' =
    let job = payload_of c a.job_id body v preset in
    let end = process_one_job-done job env pickup attempt w w' run in
    let row = new_row c.tenant_id (request_of c a.job_id body) c.now in
    let al = alignment_or_none end.audio.alignment in
    let (at_end, time) = get-create_tts_job c body x s s' a env.now e new soon in
    let (at_later, _) = get-create_tts_job c body x s s' a later e new soon' in
    let hit : get c.tenant_id a.job_id later w'.idem ≡ some (completed (some end.uri) al row) =
      rw end.completed (
        get-complete_later c.tenant_id a.job_id end.uri env.now later al w.idem row
          (ap (get c.tenant_id a.job_id env.now) table ∙ at_end)
          (ap (get c.tenant_id a.job_id later) table ∙ at_later)) in
    let billed : find_usage_row c.tenant_id a.job_id w'.usage ≡ some end.row =
      rw end.billed
        (find_usage_row_new c.tenant_id a.job_id end.row w.usage end.row_is.0 end.row_is.1) in
    (
      end,
      get_tts_job-found presign c.tenant_id a.job_id later w'.usage w'.idem
            (completed (some end.uri) al row) hit
          ∙ rw (billed, time, alignment_of-completed end.audio.alignment) refl,
    )
