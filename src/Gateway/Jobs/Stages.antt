-- ===== src/Gateway/Jobs/Stages.antt =====
-- The checks of `create_tts_job` (src/server/main.py) that come before the idempotency row.
use neuro_voice.Prelude.{
  ℕ, ◌≤◌, ◌≡◌, ◌⊎◌, inl, inr, refl, Bool, true, false, some, ltb, length, arith, Option-cases,
  Bool-cases,
}
use neuro_voice.Voice.{Voice}
use neuro_voice.Models.{ModelPreset, resolve_model}
use neuro_voice.Gateway.Gate.{GateReply, passed, gate, invalid_voice_id, unknown_voice, gone}
use neuro_voice.Gateway.Jobs.{
  TtsJobCreate, Call, Submission, Site, Moments, JobReply, accepted, get_or_reserve_job,
  checked_job, create_tts_job,
}

abbrev pub is_accepted : JobReply → Bool
is_accepted (accepted a) = true
is_accepted _ = false

-- The request passes every check.
pub record IsValid (c : Call) (body : TtsJobCreate) (s : Site) (key : ℕ) (v : Voice)
    (preset : ModelPreset) : Type 0 where
  pub short : length body.text ≤ c.async_max_chars
  pub key_is : c.idempotency_key ≡ some key
  pub usable : gate body.voice_id c.tenant_id s.grants s.voices s.consents ≡ passed v
  pub known_model : resolve_model body.model_id ≡ some preset

pub create_tts_job-IsValid :
    (c : Call) (body : TtsJobCreate) (m : Moments) (x : Submission) (s : Site) (key : ℕ) (v : Voice)
    (preset : ModelPreset)
    → IsValid c body s key v preset
    → create_tts_job c body m x s ≡ get_or_reserve_job c key body v preset m x s
unfolding create_tts_job checked_job
create_tts_job-IsValid c body m x s key v preset valid =
    ground (arith, valid.short, valid.key_is, valid.usable, valid.known_model)

pub create_tts_job_cases :
    (c : Call) (body : TtsJobCreate) (m : Moments) (x : Submission) (s : Site)
    → ((is_accepted (create_tts_job c body m x s).0 ≡ false)
        × ((create_tts_job c body m x s).1 ≡ s))
      ⊎ ((key : ℕ) × (v : Voice) × (preset : ModelPreset) × IsValid c body s key v preset)
unfolding create_tts_job checked_job
create_tts_job_cases c body m x s = elim (Bool-cases (ltb c.async_max_chars (length body.text))) [
  | inl f ↦ inl (ground (arith, f), ground (arith, f))
  | inr f ↦ elim (Option-cases c.idempotency_key) [
    | inl g ↦ inl (ground (arith, f, g), ground (arith, f, g))
    | inr (key, g) ↦
        by_gate key g f (gate body.voice_id c.tenant_id s.grants s.voices s.consents) refl
  ]
]
  where
    by_gate :
        (key : ℕ)
        → c.idempotency_key ≡ some key
        → ltb c.async_max_chars (length body.text) ≡ false
        → (r : GateReply) → gate body.voice_id c.tenant_id s.grants s.voices s.consents ≡ r
        → ((is_accepted (create_tts_job c body m x s).0 ≡ false)
            × ((create_tts_job c body m x s).1 ≡ s))
          ⊎ ((key : ℕ) × (v : Voice) × (preset : ModelPreset) × IsValid c body s key v preset)
    by_gate key g f invalid_voice_id h = inl (ground (arith, f, g, h), ground (arith, f, g, h))
    by_gate key g f unknown_voice h = inl (ground (arith, f, g, h), ground (arith, f, g, h))
    by_gate key g f (gone reason) h = inl (ground (arith, f, g, h), ground (arith, f, g, h))
    by_gate key g f (passed v) h = elim (Option-cases (resolve_model body.model_id)) [
      | inl k ↦ inl (ground (arith, f, g, h, k), ground (arith, f, g, h, k))
      | inr (preset, k) ↦ inr (
        key,
        v,
        preset,
        record { short = ground (arith, f); key_is = g; usable = h; known_model = k },
      )
    ]
