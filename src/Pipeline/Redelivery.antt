-- ===== src/Pipeline/Redelivery.antt =====
-- A job of src/worker/pipeline.py heard by the reader of src/server/result_stream.py, and a job that
-- is delivered again after its commit.
use neuro_voice.Prelude.{
  Bool, ℕ, ◌≡◌, ◌≢◌, refl, ◌∙◌, ap, Option, none, some, List, [], arith, length,
}
use neuro_voice.Queue.{TtsJobPayload, TtsResult}
use neuro_voice.ResultStream.Reads.{entries_read, InTime}
use neuro_voice.ResultStream.{collect_pcm_until_final}
use neuro_voice.ResultStream.Retry.{collect-retry}
use neuro_voice.Pipeline.Commit.{process_one_job-done}
use neuro_voice.Pipeline.State.{Outcome, done, World, Env, ArchiveReply, stored}
use neuro_voice.Pipeline.{process_one_job, final_chunk}

-- When a job returns, the gateway that reads its stream, in any number of XREADs of at most 64 entries
-- that together return it all before the deadline, gets with no error exactly the PCM that was
-- archived under the URI, whatever the stream held before the attempt.
pub done-collect :
    (job : TtsJobPayload) (env : Env) (pickup : Option ℕ) (attempt : ℕ) (w w' : World)
    (rounds : List (Bool × List TtsResult))
    → process_one_job job env pickup attempt w ≡ (done, w')
    → InTime rounds
    → entries_read rounds ≡ w'.streams job.request_id
    → (pcm : List ℕ) × (sentences : ℕ) × (uri : ℕ) × (archive : List ℕ → ArchiveReply)
      × (env.archive ≡ some archive)
      × (archive pcm ≡ stored uri)
      × (collect_pcm_until_final rounds ≡ some (pcm, sentences, none))
done-collect job env pickup attempt w w' rounds e time read =
    let c = process_one_job-done job env pickup attempt w w' e in
    let fin = final_chunk job.request_id c.audio.seq attempt in
    (
      c.audio.pcm,
      length c.audio.published,
      c.uri,
      c.archive,
      c.configured,
      c.archived,
      collect-retry attempt [] c.audio.published fin rounds tt c.sound.numbered (refl, refl, refl)
            time (read ∙ c.streamed)
          ∙ ap (λ (b : List ℕ). some (b, length c.audio.published, none)) c.sound.buffered,
    )

-- A job whose commit is done cannot return again: delivered once more, by a crash before its XACK or
-- after the final marker was lost, it never gets past the unique usage row, in any environment.
pub redelivered_not_done :
    (job : TtsJobPayload) (env again : Env) (pickup later : Option ℕ) (attempt next : ℕ)
    (w w' : World)
    → process_one_job job env pickup attempt w ≡ (done, w')
    → (process_one_job job again later next w').0 ≢ done
redelivered_not_done job env again pickup later attempt next w w' e f =
    let c = process_one_job-done job env pickup attempt w w' e in
    let r = process_one_job job again later next w' in
    let d = process_one_job-done job again later next w' r.1 (ap (λ (o : Outcome). (o, r.1)) f) in
    ground (arith, c.billed, d.unbilled, c.row_is)
