-- ===== src/Pipeline/Commit.antt =====
-- Commit before final (src/worker/pipeline.py): what a job that returns has written.
use Prim.Native.String.{String}
use neuro_voice.Prelude.{
  ℕ, ◌≢◌, ◌⊎◌, ◌≡◌, refl, sym, ◌∙◌, ap, true, Option, none, some, List, [], ◌∷◌, ◌++◌, arith,
  Option-cases, inl, inr, find, ◌==◌,
}
use neuro_voice.Idempotency.{Table, complete}
use neuro_voice.Voice.{Voice, Grant, get_accessible}
use neuro_voice.Queue.{TtsJobPayload, TtsResult}
use neuro_voice.Models.{ModelPreset, resolve_model}
use neuro_voice.Pipeline.Audio.{
  IsSound, publish_chunks-IsSound, no_progress-IsSound, timeline, rates_of, publish_chunks-timeline,
}
use neuro_voice.Pipeline.State.{
  done, World, Env, UsageRow, set_stream, ArchiveReply, raised, no_uri, stored,
}
use neuro_voice.Pipeline.{
  Progress, no_progress, final_chunk, xadd_result, alignment_or_none, publish_chunks, finish,
  commit_job, archive_audio, synthesize, with_reference, with_voice, process_one_job, record_usage,
  ok_usage, give_up, watermark_bits, has_request,
}

-- What stands when the chunk loop is over: the voice is the one that the tenant can reach, the audio
-- comes from the engine's chunks for it and its reference, and the stream is what was published.
pub record IsPublished (job : TtsJobPayload) (env : Env) (attempt : ℕ) (voice : Voice)
    (reference : ℕ) (audio : Progress) (w : World) : Type 0 where
  pub sound : IsSound attempt audio
  pub aligned :
      audio.alignment
      ≡ timeline 0 (rates_of env (env.engine job voice reference).chunks) audio.published
  pub found : get_accessible job.tenant_id job.voice_id w.grants w.voices ≡ some voice
  pub referenced : env.resolve_reference voice.reference_uri ≡ some reference
  pub streamed : w.streams job.request_id ≡ audio.published

-- What has happened when a job returns: the archive took exactly the audio that was published and
-- gave a URI; the idempotency row was completed with it and with the timeline of that audio; one usage
-- row was added, for a request that had none; and the stream is the published run and then the final
-- marker, both of this attempt.
pub record Committed (job : TtsJobPayload) (env : Env) (attempt : ℕ) (idem : Table)
    (usage : List UsageRow) (grants : List Grant) (voices : List Voice) (w : World) : Type 0 where
  pub voice : Voice
  pub reference : ℕ
  pub audio : Progress
  pub uri : ℕ
  pub row : UsageRow
  pub archive : List ℕ → ArchiveReply
  pub found : get_accessible job.tenant_id job.voice_id grants voices ≡ some voice
  pub referenced : env.resolve_reference voice.reference_uri ≡ some reference
  pub sound : IsSound attempt audio
  pub aligned :
      audio.alignment
      ≡ timeline 0 (rates_of env (env.engine job voice reference).chunks) audio.published
  pub configured : env.archive ≡ some archive
  pub archived : archive audio.pcm ≡ stored uri
  pub completed :
      w.idem
      ≡ complete job.tenant_id job.request_id
          (some uri)
          (alignment_or_none audio.alignment)
          env.now
          idem
  pub unbilled : find (has_request job.request_id) usage ≡ none
  pub billed : w.usage ≡ row ∷ usage
  pub row_is :
      (row.request_id ≡ job.request_id)
      × (row.tenant_id ≡ job.tenant_id)
      × (row.sentence_count ≡ audio.seq)
  pub streamed :
      w.streams job.request_id
      ≡ audio.published ++ final_chunk job.request_id audio.seq attempt ∷ []

pub eq_self : (r : ℕ) → (r == r) ≡ true
eq_self r = ground arith

pub set_stream_self :
    (rid : ℕ) (cs : List TtsResult) (w : World) → (set_stream rid cs w).streams rid ≡ cs
set_stream_self rid cs w = rw (eq_self rid)

module _ (job : TtsJobPayload) (env : Env) (attempt : ℕ) (w' : World) where
  commit_job-done :
      (v : Voice) (ref : ℕ) (pickup : Option ℕ) (preset : ModelPreset) (p : Progress) (uri : ℕ)
      (w : World) (archive : List ℕ → ArchiveReply)
      → IsPublished job env attempt v ref p w
      → env.archive ≡ some archive
      → archive p.pcm ≡ stored uri
      → commit_job job env v pickup attempt preset p uri w ≡ (done, w')
      → Committed job env attempt w.idem w.usage w.grants w.voices w'
  unfolding commit_job finish xadd_result record_usage
  commit_job-done v ref pickup preset p uri w archive heard conf arch e = record {
    voice = v;
    reference = ref;
    audio = p;
    uri = uri;
    row = ok_usage job env v pickup preset p;
    archive = archive;
    found = heard.found;
    referenced = heard.referenced;
    sound = heard.sound;
    aligned = heard.aligned;
    configured = conf;
    archived = arch;
    completed = ground arith;
    unbilled = ground arith;
    billed = ground arith;
    row_is = (refl, refl, refl);
    streamed = ground (arith, heard.streamed, eq_self job.request_id);
  }

  give_up_not_done :
      (code : String) (seq : ℕ) (w : World) → (give_up job env code seq attempt w).0 ≢ done
  unfolding give_up
  give_up_not_done code seq w = ground arith

  archive_audio-done :
      (v : Voice) (ref : ℕ) (pickup : Option ℕ) (preset : ModelPreset) (p : Progress) (w : World)
      → IsPublished job env attempt v ref p w
      → archive_audio job env v pickup attempt preset p w ≡ (done, w')
      → Committed job env attempt w.idem w.usage w.grants w.voices w'
  unfolding archive_audio
  archive_audio-done v ref pickup preset p w heard e = elim (Option-cases env.archive) [
    | inl none_set ↦ absurd (ground arith)
    | inr (archive, conf) ↦ elim (reply (archive p.pcm)) [
      | inl other ↦ absurd (ground (arith, give_up_not_done "empty_pcm" p.seq w))
      | inr (uri, arch) ↦
          commit_job-done v ref pickup preset p uri w archive heard conf arch
            (ground (arith, give_up_not_done "empty_pcm" p.seq w))
    ]
  ]
    where
      reply : (r : ArchiveReply) → ((r ≡ raised) ⊎ (r ≡ no_uri)) ⊎ ((uri : ℕ) × (r ≡ stored uri))
      reply raised = inl (inl refl)
      reply no_uri = inl (inr refl)
      reply (stored uri) = inr (uri, refl)

  synthesize-done :
      (v : Voice) (bits pickup : Option ℕ) (preset : ModelPreset) (ref : ℕ) (w : World)
      → w.streams job.request_id ≡ []
      → get_accessible job.tenant_id job.voice_id w.grants w.voices ≡ some v
      → env.resolve_reference v.reference_uri ≡ some ref
      → synthesize job env v bits pickup attempt preset ref w ≡ (done, w')
      → Committed job env attempt w.idem w.usage w.grants w.voices w'
  unfolding synthesize
  synthesize-done v bits pickup preset ref w str found known e =
      let cs = (env.engine job v ref).chunks in
      let p = publish_chunks job env v bits attempt cs no_progress in
      let (added, published, aligned) =
        publish_chunks-timeline job env v bits attempt cs no_progress in
      let heard : IsPublished job env attempt v ref p
          (set_stream job.request_id (w.streams job.request_id ++ p.published) w) =
        record {
          sound =
              publish_chunks-IsSound job env v bits attempt cs no_progress
                (no_progress-IsSound attempt);
          aligned = aligned ∙ ap (timeline 0 (rates_of env cs)) (sym published);
          found = found;
          referenced = known;
          streamed =
              set_stream_self job.request_id (w.streams job.request_id ++ p.published) w
              ∙ ap (λ (l : List TtsResult). l ++ p.published) str;
        } in
      archive_audio-done v ref pickup preset p
        (set_stream job.request_id (w.streams job.request_id ++ p.published) w) heard (ground arith)

  with_reference-done :
      (v : Voice) (bits pickup : Option ℕ) (w : World)
      → w.streams job.request_id ≡ []
      → get_accessible job.tenant_id job.voice_id w.grants w.voices ≡ some v
      → with_reference job env v bits pickup attempt w ≡ (done, w')
      → Committed job env attempt w.idem w.usage w.grants w.voices w'
  unfolding with_reference
  with_reference-done v bits pickup w str found e =
      elim (Option-cases (env.resolve_reference v.reference_uri)) [
        | inl miss ↦ absurd (ground (arith, give_up_not_done "reference_missing" 0 w))
        | inr (ref, known) ↦ elim (Option-cases (resolve_model job.model_id)) [
          | inl miss ↦ absurd (ground (arith, give_up_not_done "unknown_model_id" 0 w))
          | inr (preset, model) ↦
              synthesize-done v bits pickup preset ref w str found known (ground arith)
        ]
      ]

  with_voice-done :
      (v : Voice) (pickup : Option ℕ) (w : World)
      → w.streams job.request_id ≡ []
      → get_accessible job.tenant_id job.voice_id w.grants w.voices ≡ some v
      → with_voice job env v pickup attempt w ≡ (done, w')
      → Committed job env attempt w.idem w.usage w.grants w.voices w'
  unfolding with_voice
  with_voice-done v pickup w str found e =
      with_reference-done v (watermark_bits v w.keys) pickup w str found
        (ground (arith, give_up_not_done "watermark_required_no_key" 0 w))

-- When a job returns, everything that `Committed` says has happened, to the tables that it found and
-- whatever an earlier attempt had left on the stream.
pub process_one_job-done :
    (job : TtsJobPayload) (env : Env) (pickup : Option ℕ) (attempt : ℕ) (w w' : World)
    → process_one_job job env pickup attempt w ≡ (done, w')
    → Committed job env attempt w.idem w.usage w.grants w.voices w'
unfolding process_one_job
process_one_job-done job env pickup attempt w w' e =
    let cleared = set_stream job.request_id [] w in
    elim (Option-cases (get_accessible job.tenant_id job.voice_id w.grants w.voices)) [
      | inl miss ↦
          absurd (ground (arith, give_up_not_done job env attempt w' "voice_not_found" 0 cleared))
      | inr (v, found) ↦
          with_voice-done job env attempt w' v pickup cleared (set_stream_self job.request_id [] w)
            found (ground arith)
    ]
