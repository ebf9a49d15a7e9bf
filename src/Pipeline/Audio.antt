-- ===== src/Pipeline/Audio.antt =====
-- The chunk loop of src/worker/pipeline.py writes a numbered run of chunks, the buffer of the same
-- audio, and an alignment that covers it.
use Prim.Native.String.{String}
use mathlib.Core.List.{append-nil, append_assoc}
use neuro_voice.Prelude.{
  ℕ, suc, ◌+◌, ◌/◌, or_else, some, ◌≡◌, refl, sym, ◌∙◌, ap, false, Option, List, [], ◌∷◌, ◌++◌,
  length, length-append, arith,
}
use neuro_voice.Idempotency.{AlignmentEntry}
use neuro_voice.Voice.{Voice}
use neuro_voice.Queue.{TtsJobPayload, TtsResult, is_terminal}
use neuro_voice.ResultStream.Retry.{IsRun, pcm_of}
use neuro_voice.Pipeline.State.{Env, SynthChunk}
use neuro_voice.Pipeline.{
  Progress, no_progress, publish_step, publish_chunks, audio_chunk, samples_ms, pcm_out,
  rate_or_default,
}

IsRun-snoc :
    (n k : ℕ) (run : List TtsResult) (c : TtsResult)
    → IsRun n k run
    → c.attempt ≡ n
    → c.seq ≡ k + length run
    → is_terminal c ≡ false
    → IsRun n k (run ++ c ∷ [])
IsRun-snoc n k [] c r a q t = (a, omega arith, t, tt)
IsRun-snoc n k (x ∷ run) c r a q t =
    (r.0, r.1, r.2, IsRun-snoc n (suc k) run c r.3 a (omega arith) t)

pcm_of-snoc :
    (run : List TtsResult) (c : TtsResult) → pcm_of (run ++ c ∷ []) ≡ pcm_of run ++ c.pcm_bytes
pcm_of-snoc [] c = append-nil c.pcm_bytes
pcm_of-snoc (x ∷ run) c =
    ap (◌++◌ x.pcm_bytes) (pcm_of-snoc run c)
    ∙ sym (append_assoc x.pcm_bytes (pcm_of run) c.pcm_bytes)

-- What the loop keeps: the chunks published are a run of the attempt, numbered from 0, they hold the
-- buffer, and `seq` counts them and the rows of the alignment.
pub record IsSound (attempt : ℕ) (p : Progress) : Type 0 where
  pub numbered : IsRun attempt 0 p.published
  pub buffered : pcm_of p.published ≡ p.pcm
  pub counted : length p.published ≡ p.seq
  pub aligned : length p.alignment ≡ p.seq

publish_step-IsSound :
    (job : TtsJobPayload) (attempt rate : ℕ) (pcm : List ℕ) (text : Option String) (p : Progress)
    → IsSound attempt p
    → IsSound attempt (publish_step job attempt rate pcm text p)
unfolding publish_step
publish_step-IsSound job attempt rate pcm text p v =
    let c = audio_chunk job.request_id p.seq pcm text attempt in
    record {
      numbered = IsRun-snoc attempt 0 p.published c v.numbered refl (omega arith) refl;
      buffered = pcm_of-snoc p.published c ∙ ap (λ (b : List ℕ). b ++ pcm) v.buffered;
      counted = omega (arith, length-append p.published (c ∷ []));
      aligned = rw (length-append p.alignment) (omega arith);
    }

-- The chunk loop keeps `IsSound` over any chunks of the engine: the chunks published are numbered from
-- 0 in one attempt, together they are the buffer that will be archived, and the alignment has a row
-- for each.
pub publish_chunks-IsSound :
    (job : TtsJobPayload) (env : Env) (v : Voice) (bits : Option ℕ) (attempt : ℕ)
    (cs : List SynthChunk) (p : Progress)
    → IsSound attempt p
    → IsSound attempt (publish_chunks job env v bits attempt cs p)
unfolding publish_chunks
publish_chunks-IsSound job env v bits attempt [] p h = h
publish_chunks-IsSound job env v bits attempt (c ∷ cs) p h =
    publish_chunks-IsSound job env v bits attempt cs _ (
      publish_step-IsSound job attempt (rate_or_default c.sample_rate env.sample_rate)
        (pcm_out job env v bits c) c.sentence_text p h)

pub no_progress-IsSound : (attempt : ℕ) → IsSound attempt no_progress
no_progress-IsSound attempt = record {
  numbered = tt;
  buffered = refl;
  counted = refl;
  aligned = refl;
}

-- What the alignment of published chunks has to be: a row for each, with its number and text, from the
-- time of the samples before it to the time of the samples up to its end, at the rate of the chunk.
abbrev pub timeline : ℕ → List ℕ → List TtsResult → List AlignmentEntry
timeline samples [] published = []
timeline samples (rate ∷ rates) [] = []
timeline samples (rate ∷ rates) (c ∷ published) =
    let end = samples + length c.pcm_bytes / 2 in
    record {
      seq = c.seq;
      start_ms = samples_ms samples rate;
      end_ms = samples_ms end rate;
      text = some (or_else c.sentence_text "");
    }
    ∷ timeline end rates published

abbrev pub rates_of : Env → List SynthChunk → List ℕ
rates_of env [] = []
rates_of env (c ∷ cs) = rate_or_default c.sample_rate env.sample_rate ∷ rates_of env cs

-- The chunk loop extends the published chunks, and the alignment by the timeline of what it adds.
pub publish_chunks-timeline :
    (job : TtsJobPayload) (env : Env) (v : Voice) (bits : Option ℕ) (attempt : ℕ)
    (cs : List SynthChunk) (p : Progress)
    → (added : List TtsResult) × ((publish_chunks job env v bits attempt cs p).published
        ≡ p.published ++ added)
      × ((publish_chunks job env v bits attempt cs p).alignment
          ≡ p.alignment ++ timeline p.cumulative_samples (rates_of env cs) added)
unfolding publish_chunks publish_step
publish_chunks-timeline job env v bits attempt [] p =
    ([], sym (append-nil p.published), sym (append-nil p.alignment))
publish_chunks-timeline job env v bits attempt (c ∷ cs) p =
    let rate = rate_or_default c.sample_rate env.sample_rate in
    let pcm = pcm_out job env v bits c in
    let p' = publish_step job attempt rate pcm c.sentence_text p in
    let (added, published, aligned) = publish_chunks-timeline job env v bits attempt cs p' in
    let chunk = audio_chunk job.request_id p.seq pcm c.sentence_text attempt in
    let row = timeline p.cumulative_samples (rate ∷ []) (chunk ∷ []) in
    (
      chunk ∷ added,
      published ∙ append_assoc p.published (chunk ∷ []) added,
      aligned
          ∙ append_assoc p.alignment row (timeline p'.cumulative_samples (rates_of env cs) added),
    )
