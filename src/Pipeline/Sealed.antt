-- ===== src/Pipeline/Sealed.antt =====
-- Commit before final (src/worker/pipeline.py): the final marker goes out after the commit or not at all.
use Prim.Native.String.{String}
use neuro_voice.Prelude.{ℕ, ◌≡◌, ◌≢◌, ◌⊎◌, false, List, All}
use neuro_voice.Voice.{Voice}
use neuro_voice.Queue.{TtsJobPayload, TtsResult}
use neuro_voice.Pipeline.Commit.{Committed}
use neuro_voice.Pipeline.State.{Outcome, done, World, Env}

-- No chunk is a final marker.
abbrev pub NoFinal : List TtsResult → Type 0
NoFinal cs = All (λ c. c.final ≡ false) cs

module _ (job : TtsJobPayload) (env : Env) (attempt : ℕ) where
  -- A stage that does not return leaves no final marker.
  abbrev Sealed : Outcome × World → Type 0
  Sealed r = (r.0 ≡ done) ⊎ NoFinal (r.1.streams job.request_id)

-- The run returned with everything written, or it did not return, and then the world is as it was or
-- the stream of the request has no final marker.
abbrev pub CommitsFirst : TtsJobPayload → Env → ℕ → World → Outcome × World → Type 0
CommitsFirst job env attempt w (outcome, after) =
    ((outcome ≡ done) × Committed job env attempt w.idem w.usage w.grants w.voices after)
    ⊎ ((outcome ≢ done) × ((after ≡ w) ⊎ NoFinal (after.streams job.request_id)))
