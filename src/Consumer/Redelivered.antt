-- ===== src/Consumer/Redelivered.antt =====
-- A job that had completed and whose message src/worker/consumer.py handles again.
use mathlib.Core.Path.{subst}
use neuro_voice.Prelude.{ℕ, ◌≤◌, ◌≡◌, ◌≢◌, refl, sym, false, Option, some, inl, inr}
use neuro_voice.Idempotency.{Row, failed, get, completed, marked_failed}
use neuro_voice.Idempotency.Replay.{get-complete, get-fail}
use neuro_voice.Queue.{TtsJobPayload}
use neuro_voice.Pipeline.{World, Outcome, done, poison, transient, unexpected, process_one_job, Env}
use neuro_voice.Pipeline.Effects.{Effect, process_one_job-Effect}
use neuro_voice.Pipeline.Redelivery.{redelivered_not_done}
use neuro_voice.Consumer.{
  Entry, Consumer, Handling, delivery_count, settle, handle_one, handle_payload, pickup_ms,
  count_transient, count_unknown, transient_max_retries, unknown_exception,
}
use neuro_voice.Consumer.Retries.{retry_or_bury-spent, drain_poison-pending}

settle-fails :
    (e : Entry) (job : TtsJobPayload) (attempt : ℕ) (h : Handling) (r : Outcome × World)
    (c : Consumer) (row : Row) (w : World)
    → h.ack_raises ≡ false
    → c.max_retries ≤ delivery_count e.entry_id h c
    → get job.tenant_id job.request_id h.env.now w.idem ≡ some row
    → Effect job h.env w.idem w.usage r
    → r.0 ≢ done
    → c.world ≡ r.1
    → (settle e job attempt h r.0 c).1 ≡ false
    → (row' : Row) × (get job.tenant_id job.request_id h.env.now
          (settle e job attempt h r.0 c).0.world.idem
        ≡ some row')
      × (row'.status ≡ failed)
unfolding settle
settle-fails e job attempt h (done, w') c row w up spent g f n same calm = absurd (n refl)
settle-fails e job attempt h (poison, w') c row w up spent g f n same calm = (
  marked_failed row,
  rw ((drain_poison-pending e job attempt h c up).1)
      (rw (same, f.0) (get-fail job.tenant_id job.request_id h.env.now w.idem row g)),
  refl,
)
settle-fails e job attempt h (unexpected, w') c row w up spent g f n same calm =
    let (_, idem) =
      retry_or_bury-spent e job unknown_exception count_unknown h c (λ x d. d) up spent calm in
    (
      marked_failed row,
      rw idem (rw (same, f.0) (get-fail job.tenant_id job.request_id h.env.now w.idem row g)),
      refl,
    )
settle-fails e job attempt h (transient, w') c row w up spent g (inl f) n same calm =
    let (_, idem) =
      retry_or_bury-spent e job transient_max_retries count_transient h c (λ x d. d) up spent
        calm in
    (
      marked_failed row,
      rw idem (rw (same, f.0) (get-fail job.tenant_id job.request_id h.env.now w.idem row g)),
      refl,
    )
settle-fails e job attempt h (transient, w') c row w up spent g (inr (lost, uri, alignment, f, b)) n
      same calm =
    let (_, idem) =
      retry_or_bury-spent e job transient_max_retries count_transient h c (λ x d. d) up spent
        calm in
    let again = get-complete job.tenant_id job.request_id uri h.env.now alignment w.idem row g in
    (
      marked_failed (completed (some uri) alignment row),
      rw idem (rw (same, f) (get-fail job.tenant_id job.request_id h.env.now _ _ again)),
      refl,
    )

abbrev pub IsFailed : TtsJobPayload → ℕ → World → Type 0
IsFailed job now w =
    (row : Row) × (get job.tenant_id job.request_id now w.idem ≡ some row) × (row.status ≡ failed)

completed-fails :
    (job : TtsJobPayload) (env : Env) (pickup : Option ℕ) (attempt : ℕ) (w : World) (e : Entry)
    (h : Handling) (c : Consumer) (row : Row)
    → process_one_job job env pickup attempt w ≡ (done, c.world)
    → h.ack_raises ≡ false
    → c.max_retries ≤ delivery_count e.entry_id h c
    → get job.tenant_id job.request_id h.env.now c.world.idem ≡ some row
    → (handle_payload (some job) e h c).1 ≡ false
    → IsFailed job h.env.now (handle_payload (some job) e h c).0.world
unfolding handle_payload delivery_count
completed-fails job env pickup attempt w e h c row ran up spent g calm =
    let count = delivery_count e.entry_id h c in
    let later = pickup_ms job h.env.now in
    let r = process_one_job job h.env later count c.world in
    settle-fails e job count h r (record c { world = r.1 }) row c.world up spent g
      (process_one_job-Effect job h.env later count c.world)
      (redelivered_not_done job env h.env pickup later attempt count w c.world ran) refl calm

-- A job that has returned, and so is complete, is marked failed in the end if its message is
-- delivered again, as after a crash before the XACK: once the retry budget is spent, a handling that
-- does not raise and whose XACK works leaves the row that was visible with the status failed.
pub handle_one-IsFailed :
    (job : TtsJobPayload) (env : Env) (pickup : Option ℕ) (attempt : ℕ) (w : World) (e : Entry)
    (h : Handling) (c : Consumer) (row : Row)
    → process_one_job job env pickup attempt w ≡ (done, c.world)
    → e.payload ≡ some job
    → h.ack_raises ≡ false
    → c.max_retries ≤ delivery_count e.entry_id h c
    → get job.tenant_id job.request_id h.env.now c.world.idem ≡ some row
    → (handle_one e h c).1 ≡ false
    → IsFailed job h.env.now (handle_one e h c).0.world
unfolding handle_one
handle_one-IsFailed job env pickup attempt w e h c row ran is_job up spent g calm =
    subst
      (λ (o : Option TtsJobPayload).
        (handle_payload o e h c).1 ≡ false
        → IsFailed job h.env.now (handle_payload o e h c).0.world)
      (sym is_job) (completed-fails job env pickup attempt w e h c row ran up spent g) calm
