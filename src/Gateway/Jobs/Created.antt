-- ===== src/Gateway/Jobs/Created.antt =====
-- What `create_tts_job` of src/server/main.py leaves behind, for each way in which it ends.
use mathlib.Core.Path.{subst}
use neuro_voice.Prelude.{
  ℕ, ◌≡◌, ◌⊎◌, inl, inr, refl, sym, ap, ◌∙◌, true, false, [], ◌∷◌, ◌++◌, ◌==◌, arith, Option-cases,
  Bool-cases,
}
use neuro_voice.Idempotency.{
  Row, Table, Reply, get, reserve_or_get, reserved, replay, conflict, integrity_error,
}
use neuro_voice.Voice.{Voice}
use neuro_voice.Queue.{TtsJobPayload}
use neuro_voice.Models.{ModelPreset}
use neuro_voice.Gateway.Gate.Passed.{MaySynthesize, gate-MaySynthesize}
use neuro_voice.Gateway.Admission.{Decision, admit, capacity_exhausted, queue_depth_limit}
use neuro_voice.Gateway.Jobs.Stages.{IsValid, create_tts_job-IsValid, create_tts_job_cases}
use neuro_voice.Gateway.Jobs.{
  TtsJobCreate, Call, Submission, sent, refused, reply_lost, Site, Moments, TtsJobAccepted,
  accepted, payload_of, request_of, submit_job, reserve_job, replay_job, is_admit,
  get_or_reserve_job, create_tts_job,
}

-- How a 202 comes about.
pub record IsAccepted (c : Call) (body : TtsJobCreate) (s : Site) (a : TtsJobAccepted) (s' : Site)
    : Type 0 where
  pub voice : Voice
  pub preset : ModelPreset
  pub valid : IsValid c body s a.job_id voice preset
  pub allowed : MaySynthesize body.voice_id c.tenant_id s.grants s.voices s.consents voice
  pub ending :
      ((a.deduplicated ≡ true) × (s' ≡ s))
      ⊎ ((a.deduplicated ≡ false)
          × (c.decision ≡ admit)
          × (s'.jobs ≡ s.jobs ++ payload_of c a.job_id body voice preset ∷ []))

submit_job-accepted :
    (c : Call) (key : ℕ) (row : Row) (job : TtsJobPayload) (x : Submission) (s s' : Site)
    (a : TtsJobAccepted)
    → submit_job c key row job x s ≡ (accepted a, s')
    → (a.job_id ≡ key) × (a.deduplicated ≡ false) × (s'.jobs ≡ s.jobs ++ job ∷ [])
unfolding submit_job
submit_job-accepted c key row job sent s s' a e =
    (ground (arith, e), ground (arith, e), sym (ap (λ p. p.1.jobs) e))
submit_job-accepted c key row job refused s s' a e = ground (arith, e)
submit_job-accepted c key row job reply_lost s s' a e = ground (arith, e)

reserve_job-accepted :
    (c : Call) (key : ℕ) (body : TtsJobCreate) (v : Voice) (preset : ModelPreset) (m : Moments)
    (x : Submission) (s s' : Site) (a : TtsJobAccepted)
    → reserve_job c key body v preset m x s ≡ (accepted a, s')
    → (a.job_id ≡ key)
      × (a.deduplicated ≡ false)
      × (s'.jobs ≡ s.jobs ++ payload_of c key body v preset ∷ [])
unfolding reserve_job
reserve_job-accepted c key body v preset m x s s' a e =
    by_reply
      (reserve_or_get c.tenant_id (request_of c key body) m.upfront m.insert m.reread m.again) refl
  where
    by_reply :
        (r : Reply × Table)
        → reserve_or_get c.tenant_id (request_of c key body) m.upfront m.insert m.reread m.again ≡ r
        → (a.job_id ≡ key)
          × (a.deduplicated ≡ false)
          × (s'.jobs ≡ s.jobs ++ payload_of c key body v preset ∷ [])
    by_reply (reserved row, table) f =
        submit_job-accepted c key row (payload_of c key body v preset) x (record s { idem = table })
          s' a (ground (arith, e, f))
    by_reply (replay row, table) f =
        submit_job-accepted c key row (payload_of c key body v preset) x (record s { idem = table })
          s' a (ground (arith, e, f))
    by_reply (conflict row, table) f = ground (arith, e, f)
    by_reply (integrity_error, table) f = ground (arith, e, f)

is_admit_lem : (d : Decision) → is_admit d ≡ true → d ≡ admit
is_admit_lem admit e = refl
is_admit_lem (capacity_exhausted depth limit c) e = ground (arith, e)
is_admit_lem (queue_depth_limit depth limit) e = ground (arith, e)

pub replay_job-accepted :
    (c : Call) (key : ℕ) (body : TtsJobCreate) (row : Row) (a : TtsJobAccepted)
    → replay_job c key body row ≡ accepted a
    → (a.job_id ≡ key) × (a.deduplicated ≡ true)
unfolding replay_job
replay_job-accepted c key body row a e =
    elim (Bool-cases (row.request_hash == c.hash_job_body body)) [
      | inl f ↦ (ground (arith, e, f), ground (arith, e, f))
      | inr f ↦ ground (arith, e, f)
    ]

get_or_reserve_job-accepted :
    (c : Call) (key : ℕ) (body : TtsJobCreate) (v : Voice) (preset : ModelPreset) (m : Moments)
    (x : Submission) (s s' : Site) (a : TtsJobAccepted)
    → get_or_reserve_job c key body v preset m x s ≡ (accepted a, s')
    → (a.job_id ≡ key)
      × (((a.deduplicated ≡ true) × (s' ≡ s))
          ⊎ ((a.deduplicated ≡ false)
              × (c.decision ≡ admit)
              × (s'.jobs ≡ s.jobs ++ payload_of c key body v preset ∷ [])))
unfolding get_or_reserve_job
get_or_reserve_job-accepted c key body v preset m x s s' a e =
    elim (Option-cases (get c.tenant_id key c.now s.idem)) [
      | inr (row, f) ↦
          let (same, dedup) = replay_job-accepted c key body row a (ground (arith, e, f)) in
          (same, inl (dedup, ground (arith, e, f)))
      | inl f ↦ elim (Bool-cases (is_admit c.decision)) [
        | inl g ↦
            let (same, new, jobs) =
              reserve_job-accepted c key body v preset m x s s' a (ground (arith, e, f, g)) in
            (same, inr (new, is_admit_lem c.decision g, jobs))
        | inr g ↦ ground (arith, e, f, g)
      ]
    ]

-- A 202 is given only for a text within the limit, a key that parses, a model that exists, and a voice
-- of the table that has the slug of the request, is the tenant's own, granted to it or public, is
-- neither frozen nor deleted nor purged nor due to be, and has an unrevoked consent record. It is
-- either a replay, which changes nothing, or, if the queue admits the job, exactly one message for
-- the request at the end of the job stream. Other sessions may do anything meanwhile.
pub create_tts_job-accepted :
    (c : Call) (body : TtsJobCreate) (m : Moments) (x : Submission) (s s' : Site)
    (a : TtsJobAccepted)
    → create_tts_job c body m x s ≡ (accepted a, s')
    → IsAccepted c body s a s'
create_tts_job-accepted c body m x s s' a e = elim (create_tts_job_cases c body m x s) [
  | inl (refusal, _) ↦ ground (arith, e, refusal)
  | inr (key, v, preset, valid) ↦
      let (same, ending) =
        get_or_reserve_job-accepted c key body v preset m x s s' a
          (sym (create_tts_job-IsValid c body m x s key v preset valid) ∙ e) in
      record {
        voice = v;
        preset = preset;
        valid = subst (λ i. IsValid c body s i v preset) (sym same) valid;
        allowed =
            gate-MaySynthesize body.voice_id c.tenant_id s.grants s.voices s.consents v
              valid.usable;
        ending =
            subst
              (λ i.
                ((a.deduplicated ≡ true) × (s' ≡ s))
                ⊎ ((a.deduplicated ≡ false)
                    × (c.decision ≡ admit)
                    × (s'.jobs ≡ s.jobs ++ payload_of c i body v preset ∷ [])))
              (sym same) ending;
      }
]
