-- ===== src/Gateway/Jobs/Races.antt =====
-- `create_tts_job` (src/server/main.py) called again with the same Idempotency-Key.
use neuro_voice.Prelude.{ℕ, ◌≡◌, ◌∙◌, some, none, some, [], ◌∷◌, ◌++◌, arith}
use neuro_voice.Idempotency.{Row, get, delete}
use neuro_voice.Idempotency.Alone.{reserve_or_get_found}
use neuro_voice.Voice.{Voice}
use neuro_voice.Models.{ModelPreset}
use neuro_voice.Gateway.Admission.{admit}
use neuro_voice.Gateway.Jobs.Stages.{IsValid, create_tts_job-IsValid}
use neuro_voice.Gateway.Jobs.{
  TtsJobCreate, Call, sent, refused, Site, Moments, bad_gateway_502, newly_accepted, payload_of,
  request_of, submit_job, reserve_job, get_or_reserve_job, create_tts_job,
}

-- Two requests race when another session of the tenant reserves the key, with the same body hash,
-- between the first look at the table and the reservation. The second one is then enqueued again and
-- called new; and if its XADD is refused, the row that the other session reserved is deleted.
pub create_tts_job_race :
    (c : Call) (body : TtsJobCreate) (m : Moments) (s : Site) (key : ℕ) (v : Voice)
    (preset : ModelPreset) (winner : Row)
    → IsValid c body s key v preset
    → get c.tenant_id key c.now s.idem ≡ none
    → c.decision ≡ admit
    → get c.tenant_id key m.upfront.now m.upfront.table ≡ some winner
    → winner.request_hash ≡ c.hash_job_body body
    → (create_tts_job c body m sent s ≡ (
      newly_accepted key winner,
      record s { idem = m.upfront.table; jobs = s.jobs ++ payload_of c key body v preset ∷ [] },
    ))
      × (create_tts_job c body m refused s
          ≡ (bad_gateway_502, record s { idem = (delete c.tenant_id key m.upfront.table).1 }))
unfolding get_or_reserve_job reserve_job submit_job
create_tts_job_race c body m s key v preset winner valid miss admitted hit same =
    let found =
      reserve_or_get_found c.tenant_id (request_of c key body) m.upfront m.insert m.reread m.again
        winner hit in
    (
      create_tts_job-IsValid c body m sent s key v preset valid
          ∙ ground (arith, miss, admitted, found, same),
      create_tts_job-IsValid c body m refused s key v preset valid
          ∙ ground (arith, miss, admitted, found, same),
    )
