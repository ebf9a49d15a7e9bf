-- ===== src/Pipeline/Effects.antt =====
-- What each outcome of src/worker/pipeline.py has done to the two tables that it writes.
use Prim.Native.String.{String}
use neuro_voice.Prelude.{
  ℕ, ◌≤◌, ◌≡◌, ◌⊎◌, refl, Bool, true, false, ◌&&◌, Option, none, some, List, [], ◌∷◌, ◌++◌, arith,
  if◌then◌else◌, Bool-cases, Option-cases, inl, inr, is_some, find, ◌==◌, count_where,
  find-none_count,
}
use neuro_voice.Idempotency.{Table, complete, fail, AlignmentEntry}
use neuro_voice.Voice.{Voice, get_accessible}
use neuro_voice.Queue.{TtsJobPayload}
use neuro_voice.Models.{ModelPreset, resolve_model}
use neuro_voice.Pipeline.State.{
  Outcome, done, poison, transient, unexpected, World, Env, UsageRow, set_stream, ArchiveReply,
  raised, no_uri, stored,
}
use neuro_voice.Pipeline.{
  Progress, no_progress, failed_usage, final_chunk, xadd_result, alignment_or_none, publish_chunks,
  finish, commit_job, archive_audio, synthesize, with_reference, with_voice, process_one_job,
  record_usage, ok_usage, give_up, mark_terminal_failure, watermark_bits, requires_watermark,
  has_request,
}

-- The usage table is as it was, or has one more row, of a request that had none.
abbrev pub Billed : ℕ → List UsageRow → List UsageRow → Type 0
Billed rid old new =
    (new ≡ old)
    ⊎ ((u : UsageRow) × (u.request_id ≡ rid)
        × (find (has_request rid) old ≡ none)
        × (new ≡ u ∷ old))

-- By the outcome: an unexpected error has written no table; a transient one has written none, or
-- has made the whole commit and only lost the final marker; a poison job is failed; a job that
-- returned is complete.
abbrev pub Effect : TtsJobPayload → Env → Table → List UsageRow → Outcome × World → Type 0
Effect job env idem usage (unexpected, w) = (w.idem ≡ idem) × (w.usage ≡ usage)
Effect job env idem usage (poison, w) =
    (w.idem ≡ fail job.tenant_id job.request_id env.now idem) × Billed job.request_id usage w.usage
Effect job env idem usage (transient, w) =
    ((w.idem ≡ idem) × (w.usage ≡ usage))
    ⊎ ((env.final_raises ≡ true)
        × (uri : ℕ) × (alignment : Option (List AlignmentEntry)) × (w.idem
            ≡ complete job.tenant_id job.request_id (some uri) alignment env.now idem)
        × Billed job.request_id usage w.usage)
Effect job env idem usage (done, w) =
    (uri : ℕ) × (alignment : Option (List AlignmentEntry)) × (w.idem
      ≡ complete job.tenant_id job.request_id (some uri) alignment env.now idem)
    × Billed job.request_id usage w.usage

record_usage-Billed :
    (u : UsageRow) (usage usage' : List UsageRow)
    → record_usage u usage ≡ some usage'
    → Billed u.request_id usage usage'
unfolding record_usage
record_usage-Billed u usage usage' e = inr (u, refl, ground arith, ground arith)

module _ (job : TtsJobPayload) (env : Env) (attempt : ℕ) where
  give_up-Effect :
      (code : String) (seq : ℕ) (w : World)
      → Effect job env w.idem w.usage (give_up job env code seq attempt w)
  unfolding give_up mark_terminal_failure xadd_result
  give_up-Effect code seq w = elim (Bool-cases env.commit_raises) [
    | inl down ↦ rw down (refl, refl)
    | inr up ↦ elim (Option-cases (find billed w.usage)) [
      | inr (u, old) ↦ rw up (rw (old, mark_terminal_failure) (refl, inl refl))
      | inl fresh ↦ elim (Option-cases (record_usage failed w.usage)) [
        | inl dup ↦
            rw up (rw (fresh, mark_terminal_failure) (rw (dup, mark_terminal_failure) (refl, refl)))
        | inr (usage, new) ↦ rw up (
            rw (fresh, mark_terminal_failure)
              (rw (new, mark_terminal_failure)
                (refl, record_usage-Billed failed w.usage usage new)))
      ]
    ]
  ]
    where
      billed : UsageRow → Bool
      billed u = u.tenant_id == job.tenant_id && u.request_id == job.request_id

      failed : UsageRow
      failed = failed_usage job code env.elapsed_ms env.now

  commit_job-Effect :
      (v : Voice) (pickup : Option ℕ) (preset : ModelPreset) (p : Progress) (uri : ℕ) (w : World)
      → Effect job env w.idem w.usage (commit_job job env v pickup attempt preset p uri w)
  unfolding commit_job finish xadd_result
  commit_job-Effect v pickup preset p uri w = elim (Bool-cases env.commit_raises) [
    | inl down ↦ rw down (inl (refl, refl))
    | inr up ↦ elim (Option-cases (record_usage (ok_usage job env v pickup preset p) w.usage)) [
      | inl dup ↦ rw up (rw (dup, commit_job) (inl (refl, refl)))
      | inr (usage, new) ↦ rw up (
          rw (new, commit_job)
            (by_final usage (record_usage-Billed row w.usage usage new) env.final_raises refl))
    ]
  ]
    where
      row : UsageRow
      row = ok_usage job env v pickup preset p

      after : List UsageRow → World
      after usage = record w {
        idem =
            complete job.tenant_id job.request_id (some uri) (alignment_or_none p.alignment) env.now
              w.idem;
        usage = usage;
      }

      by_final :
          (usage : List UsageRow)
          → Billed job.request_id w.usage usage
          → (b : Bool) → env.final_raises ≡ b
          → Effect job env w.idem w.usage (
              if b
              then (transient, after usage)
              else (done, xadd_result (final_chunk job.request_id p.seq attempt) (after usage)))
      by_final usage h true e = inr (e, uri, alignment_or_none p.alignment, refl, h)
      by_final usage h false e = (uri, alignment_or_none p.alignment, refl, h)

  archive_audio-Effect :
      (v : Voice) (pickup : Option ℕ) (preset : ModelPreset) (p : Progress) (w : World)
      → Effect job env w.idem w.usage (archive_audio job env v pickup attempt preset p w)
  unfolding archive_audio
  archive_audio-Effect v pickup preset p w = elim (Option-cases env.archive) [
    | inl unset ↦ rw (unset, archive_audio) (inl (refl, refl))
    | inr (archive, set) ↦ rw (set, archive_audio) (by_pcm archive p.pcm (archive p.pcm))
  ]
    where
      by_pcm :
          (archive : List ℕ → ArchiveReply) (pcm : List ℕ) (r : ArchiveReply)
          → Effect job env w.idem w.usage (elim pcm [
            | [] ↦ give_up job env "empty_pcm" p.seq attempt w
            | b ∷ bs ↦ elim r [
              | raised ↦ (transient, w)
              | no_uri ↦ (transient, w)
              | stored uri ↦ commit_job job env v pickup attempt preset p uri w
            ]
          ])
      by_pcm archive [] r = give_up-Effect "empty_pcm" p.seq w
      by_pcm archive (b ∷ bs) raised = inl (refl, refl)
      by_pcm archive (b ∷ bs) no_uri = inl (refl, refl)
      by_pcm archive (b ∷ bs) (stored uri) = commit_job-Effect v pickup preset p uri w

  with_reference-Effect :
      (v : Voice) (bits pickup : Option ℕ) (w : World)
      → Effect job env w.idem w.usage (with_reference job env v bits pickup attempt w)
  unfolding with_reference synthesize
  with_reference-Effect v bits pickup w =
      elim (Option-cases (env.resolve_reference v.reference_uri)) [
        | inl miss ↦ rw (miss, with_reference) (give_up-Effect "reference_missing" 0 w)
        | inr (ref, found) ↦ elim (Option-cases (resolve_model job.model_id)) [
          | inl miss ↦
              rw (found, with_reference)
                (rw (miss, with_reference) (give_up-Effect "unknown_model_id" 0 w))
          | inr (preset, known) ↦
              rw (found, with_reference)
                (rw (known, with_reference) (by_run preset ref (env.engine job v ref).raised))
        ]
      ]
    where
      progress : ℕ → Progress
      progress ref = publish_chunks job env v bits attempt (env.engine job v ref).chunks no_progress

      after : ℕ → World
      after ref = set_stream job.request_id (w.streams job.request_id ++ (progress ref).published) w

      by_run :
          (preset : ModelPreset) (ref : ℕ) (b : Bool)
          → Effect job env w.idem w.usage (
              if b
              then (transient, after ref)
              else archive_audio job env v pickup attempt preset (progress ref) (after ref))
      by_run preset ref true = inl (refl, refl)
      by_run preset ref false = archive_audio-Effect v pickup preset (progress ref) (after ref)

  with_voice-Effect :
      (v : Voice) (pickup : Option ℕ) (w : World)
      → Effect job env w.idem w.usage (with_voice job env v pickup attempt w)
  unfolding with_voice
  with_voice-Effect v pickup w =
      by_gate (requires_watermark v.license_kind) (is_some (watermark_bits v w.keys)) env.audioseal
    where
      next : Outcome × World
      next = with_reference job env v (watermark_bits v w.keys) pickup attempt w

      by_gate :
          (a b c : Bool)
          → Effect job env w.idem w.usage (
              if a
              then if b
                then if c then next else (transient, w)
                else give_up job env "watermark_required_no_key" 0 attempt w
              else next)
      by_gate true true true = with_reference-Effect v (watermark_bits v w.keys) pickup w
      by_gate true true false = inl (refl, refl)
      by_gate true false c = give_up-Effect "watermark_required_no_key" 0 w
      by_gate false b c = with_reference-Effect v (watermark_bits v w.keys) pickup w

-- Every run of a job ends in one of the four ways, with that effect on the tables and no other.
pub process_one_job-Effect :
    (job : TtsJobPayload) (env : Env) (pickup : Option ℕ) (attempt : ℕ) (w : World)
    → Effect job env w.idem w.usage (process_one_job job env pickup attempt w)
unfolding process_one_job
process_one_job-Effect job env pickup attempt w = elim (Bool-cases env.outage) [
  | inl down ↦ rw down (refl, refl)
  | inr up ↦ elim (Option-cases (get_accessible job.tenant_id job.voice_id w.grants w.voices)) [
    | inl miss ↦ rw up (
        rw (miss, process_one_job)
          (give_up-Effect job env attempt "voice_not_found" 0 (set_stream job.request_id [] w)))
    | inr (v, found) ↦ rw up (
        rw (found, process_one_job)
          (with_voice-Effect job env attempt v pickup (set_stream job.request_id [] w)))
  ]
]

-- At most one usage row has a given request id.
abbrev pub BilledOnce : List UsageRow → Type 0
BilledOnce usage = (k : ℕ) → count_where (has_request k) usage ≤ 1

Billed-BilledOnce :
    (rid : ℕ) (old new : List UsageRow) → Billed rid old new → BilledOnce old → BilledOnce new
Billed-BilledOnce rid old new (inl same) h k = rw same (h k)
Billed-BilledOnce rid old new (inr (u, e, free, added)) h k =
    rw added (ground (arith, h k, find-none_count (has_request rid) old free))

-- No run of a job, however it ends, bills a request twice.
pub process_one_job-BilledOnce :
    (job : TtsJobPayload) (env : Env) (pickup : Option ℕ) (attempt : ℕ) (w : World)
    → BilledOnce w.usage
    → BilledOnce (process_one_job job env pickup attempt w).1.usage
process_one_job-BilledOnce job env pickup attempt w h =
    by_outcome (process_one_job job env pickup attempt w)
      (process_one_job-Effect job env pickup attempt w)
  where
    by_outcome : (r : Outcome × World) → Effect job env w.idem w.usage r → BilledOnce r.1.usage
    by_outcome (done, w') (uri, alignment, e, b) =
        Billed-BilledOnce job.request_id w.usage w'.usage b h
    by_outcome (poison, w') (e, b) = Billed-BilledOnce job.request_id w.usage w'.usage b h
    by_outcome (transient, w') (inl (e, b)) = rw b h
    by_outcome (transient, w') (inr (f, uri, alignment, e, b)) =
        Billed-BilledOnce job.request_id w.usage w'.usage b h
    by_outcome (unexpected, w') (e, b) = rw b h

-- A terminal failure that is recorded fails the idempotency row.
pub mark_terminal_failure-idem :
    (job : TtsJobPayload) (code message : String) (seq elapsed attempt now : ℕ) (down : Bool)
    (w : World)
    → (mark_terminal_failure job code message seq elapsed attempt now down w).1 ≡ false
    → (mark_terminal_failure job code message seq elapsed attempt now down w).0.idem
      ≡ fail job.tenant_id job.request_id now w.idem
unfolding mark_terminal_failure
mark_terminal_failure-idem job code message seq elapsed attempt now true w e = cc
mark_terminal_failure-idem job code message seq elapsed attempt now false w e = ground (arith, e)
