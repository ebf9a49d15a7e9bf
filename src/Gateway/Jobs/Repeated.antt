-- ===== src/Gateway/Jobs/Repeated.antt =====
-- Refusals, repetitions and races of `create_tts_job` (src/server/main.py).
use mathlib.Core.Path.{subst}
use neuro_voice.Prelude.{
  ℕ, ◌+◌, ◌<◌, ◌≡◌, ◌⊎◌, inl, inr, sym, ap, ◌∙◌, Bool, true, false, none, some, arith, Option-cases,
  Bool-cases,
}
use neuro_voice.Idempotency.{Row, Table, new_row, get, reserve, default_ttl}
use neuro_voice.Idempotency.Replay.{still, get-reserve}
use neuro_voice.Idempotency.Alone.{
  reserve_or_get_fresh, reserve_or_get_taken, delete-reserve, reserve_row,
}
use neuro_voice.Voice.{Voice}
use neuro_voice.Models.{ModelPreset}
use neuro_voice.Gateway.Jobs.Stages.{is_accepted, create_tts_job-IsValid, create_tts_job_cases}
use neuro_voice.Gateway.Jobs.Created.{replay_job-accepted}
use neuro_voice.Gateway.Jobs.{
  TtsJobCreate, Call, Submission, sent, refused, reply_lost, Site, Moments, TtsJobAccepted,
  accepted, server_error, payload_of, request_of, submit_job, reserve_job, is_admit,
  get_or_reserve_job, create_tts_job,
}

-- No other session is at work.
abbrev pub alone : ℕ → Table → Moments
alone now table = record {
  upfront = still now table;
  insert = still now table;
  reread = still now table;
  again = still now table;
}

-- What is left to do once the key is free, with no other session at work.
reserve_job-alone :
    (c : Call) (key : ℕ) (body : TtsJobCreate) (v : Voice) (preset : ModelPreset) (x : Submission)
    (s : Site)
    → get c.tenant_id key c.now s.idem ≡ none
    → (reserve_job c key body v preset (alone c.now s.idem) x s ≡ (server_error, s))
      ⊎ ((row : Row) × (table : Table) × (reserve c.tenant_id (request_of c key body) c.now s.idem
            ≡ some (row, table))
          × (reserve_job c key body v preset (alone c.now s.idem) x s
              ≡ submit_job c key row
                  (payload_of c key body v preset)
                  x
                  (record s { idem = table })))
unfolding reserve_job
reserve_job-alone c key body v preset x s miss =
    elim (Option-cases (reserve c.tenant_id (request_of c key body) c.now s.idem)) [
      | inl r ↦ inl (
          ground
            (arith, reserve_or_get_taken c.tenant_id c.now (request_of c key body) s.idem miss r))
      | inr ((row, table), r) ↦ inr (
        row,
        table,
        r,
        ground (
          arith,
          reserve_or_get_fresh c.tenant_id c.now (request_of c key body) s.idem table row miss r,
        ),
      )
    ]

abbrev pub is_reply_lost : Submission → Bool
is_reply_lost x = elim x [ reply_lost ↦ true | _ ↦ false ]

submit_job-refused :
    (c : Call) (key : ℕ) (body : TtsJobCreate) (v : Voice) (preset : ModelPreset) (x : Submission)
    (s : Site) (row : Row) (table : Table)
    → reserve c.tenant_id (request_of c key body) c.now s.idem ≡ some (row, table)
    → is_reply_lost x ≡ false
    → is_accepted
        (submit_job c key row (payload_of c key body v preset) x (record s { idem = table })).0
      ≡ false
    → (submit_job c key row (payload_of c key body v preset) x (record s { idem = table })).1 ≡ s
unfolding submit_job
submit_job-refused c key body v preset sent s row table r kept e = ground (arith, e)
submit_job-refused c key body v preset refused s row table r kept e =
    ap (λ t. record s { idem = t })
      (delete-reserve c.tenant_id c.now (request_of c key body) s.idem table row r)
submit_job-refused c key body v preset reply_lost s row table r kept e = ground (arith, kept)

get_or_reserve_job-refused :
    (c : Call) (key : ℕ) (body : TtsJobCreate) (v : Voice) (preset : ModelPreset) (x : Submission)
    (s : Site)
    → is_reply_lost x ≡ false
    → is_accepted (get_or_reserve_job c key body v preset (alone c.now s.idem) x s).0 ≡ false
    → (get_or_reserve_job c key body v preset (alone c.now s.idem) x s).1 ≡ s
unfolding get_or_reserve_job
get_or_reserve_job-refused c key body v preset x s kept e =
    elim (Option-cases (get c.tenant_id key c.now s.idem)) [
      | inr (row, f) ↦ ground (arith, f)
      | inl f ↦ elim (Bool-cases (is_admit c.decision)) [
        | inr g ↦ ground (arith, f, g)
        | inl g ↦ elim (reserve_job-alone c key body v preset x s f) [
          | inl h ↦ ground (arith, f, g, h)
          | inr (row, table, r, h) ↦
              ground
                (arith, f, g, h, e, submit_job-refused c key body v preset x s row table r kept)
        ]
      ]
    ]

-- A request that is answered by anything but a 202 leaves the tables and the job stream as they were,
-- with no other session at work and unless the reply of a XADD that was done is lost. A refused XADD
-- takes its reservation back, so the key can be used again.
pub create_tts_job-refused :
    (c : Call) (body : TtsJobCreate) (x : Submission) (s : Site)
    → is_reply_lost x ≡ false
    → is_accepted (create_tts_job c body (alone c.now s.idem) x s).0 ≡ false
    → (create_tts_job c body (alone c.now s.idem) x s).1 ≡ s
create_tts_job-refused c body x s kept e =
    elim (create_tts_job_cases c body (alone c.now s.idem) x s) [
      | inl (_, same) ↦ same
      | inr (key, v, preset, valid) ↦
          let stages = create_tts_job-IsValid c body (alone c.now s.idem) x s key v preset valid in
          ap (λ p. p.1) stages
          ∙ get_or_reserve_job-refused c key body v preset x s kept
              (sym (ap (λ p. is_accepted p.0) stages) ∙ e)
    ]

-- A new 202, with no other session at work: the job's row was reserved and XADD was done.
pub record IsReserved (c : Call) (body : TtsJobCreate) (s : Site) (a : TtsJobAccepted) (s' : Site)
    : Type 0 where
  pub table : Table
  pub row : Row
  pub reserved_row :
      reserve c.tenant_id (request_of c a.job_id body) c.now s.idem ≡ some (row, table)
  pub stored : s'.idem ≡ table
  pub same_time : a.created_at ≡ row.created_at

submit_job-IsReserved :
    (c : Call) (key : ℕ) (body : TtsJobCreate) (v : Voice) (preset : ModelPreset) (x : Submission)
    (s s' : Site) (a : TtsJobAccepted) (row : Row) (table : Table)
    → reserve c.tenant_id (request_of c key body) c.now s.idem ≡ some (row, table)
    → submit_job c key row (payload_of c key body v preset) x (record s { idem = table })
      ≡ (accepted a, s')
    → IsReserved c body s a s'
unfolding submit_job
submit_job-IsReserved c key body v preset sent s s' a row table r e =
    let key_is : key ≡ a.job_id = ground (arith, e) in
    record {
      table = table;
      row = row;
      reserved_row =
          subst (λ i. reserve c.tenant_id (request_of c i body) c.now s.idem ≡ some (row, table))
            key_is r;
      stored = sym (ap (λ p. p.1.idem) e);
      same_time = ground (arith, e);
    }
submit_job-IsReserved c key body v preset refused s s' a row table r e = ground (arith, e)
submit_job-IsReserved c key body v preset reply_lost s s' a row table r e = ground (arith, e)

get_or_reserve_job-IsReserved :
    (c : Call) (key : ℕ) (body : TtsJobCreate) (v : Voice) (preset : ModelPreset) (x : Submission)
    (s s' : Site) (a : TtsJobAccepted)
    → get_or_reserve_job c key body v preset (alone c.now s.idem) x s ≡ (accepted a, s')
    → a.deduplicated ≡ false
    → IsReserved c body s a s'
unfolding get_or_reserve_job
get_or_reserve_job-IsReserved c key body v preset x s s' a e new =
    elim (Option-cases (get c.tenant_id key c.now s.idem)) [
      | inr (row, f) ↦
          ground (arith, new, replay_job-accepted c key body row a (ground (arith, e, f)))
      | inl f ↦ elim (Bool-cases (is_admit c.decision)) [
        | inr g ↦ ground (arith, e, f, g)
        | inl g ↦ elim (reserve_job-alone c key body v preset x s f) [
          | inl h ↦ ground (arith, e, f, g, h)
          | inr (row, table, r, h) ↦
              submit_job-IsReserved c key body v preset x s s' a row table r
                (ground (arith, e, f, g, h))
        ]
      ]
    ]

pub create_tts_job-IsReserved :
    (c : Call) (body : TtsJobCreate) (x : Submission) (s s' : Site) (a : TtsJobAccepted)
    → create_tts_job c body (alone c.now s.idem) x s ≡ (accepted a, s')
    → a.deduplicated ≡ false
    → IsReserved c body s a s'
create_tts_job-IsReserved c body x s s' a e new =
    elim (create_tts_job_cases c body (alone c.now s.idem) x s) [
      | inl (refusal, _) ↦ ground (arith, e, refusal)
      | inr (key, v, preset, valid) ↦
          get_or_reserve_job-IsReserved c key body v preset x s s' a
            (sym (create_tts_job-IsValid c body (alone c.now s.idem) x s key v preset valid) ∙ e)
            new
    ]

-- The row of a new 202, which `get` returns for a day.
pub get-create_tts_job :
    (c : Call) (body : TtsJobCreate) (x : Submission) (s s' : Site) (a : TtsJobAccepted) (later : ℕ)
    → create_tts_job c body (alone c.now s.idem) x s ≡ (accepted a, s')
    → a.deduplicated ≡ false
    → later < c.now + default_ttl
    → (get c.tenant_id a.job_id later s'.idem
        ≡ some (new_row c.tenant_id (request_of c a.job_id body) c.now))
      × (a.created_at ≡ c.now)
get-create_tts_job c body x s s' a later e new soon =
    let made = create_tts_job-IsReserved c body x s s' a e new in
    let is_new =
      reserve_row c.tenant_id c.now (request_of c a.job_id body) s.idem made.table made.row
        made.reserved_row in
    let expiry : later < made.row.expires_at = rw is_new soon in
    (
      rw made.stored (
          get-reserve c.tenant_id c.now later (request_of c a.job_id body) s.idem made.table
            made.row made.reserved_row expiry
          ∙ ap some is_new),
      made.same_time ∙ ap (λ r. r.created_at) is_new,
    )
