-- ===== src/Consumer/Retries.antt =====
-- The retry budget of src/worker/consumer.py: when it is spent the message leaves the group.
use neuro_voice.Prelude.{
  ℕ, suc, ◌≤◌, ◌≡◌, refl, ◌∙◌, Bool, true, false, ◌||◌, Option, none, some, arith, if◌then◌else◌,
  ltb, find-delete_where,
}
use neuro_voice.Idempotency.{fail}
use neuro_voice.Queue.{TtsJobPayload}
use neuro_voice.Pipeline.{
  World, mark_terminal_failure, Outcome, done, poison, transient, unexpected, process_one_job,
}
use neuro_voice.Pipeline.Effects.{mark_terminal_failure-idem}
use neuro_voice.Consumer.{
  Entry, DeadLetter, Consumer, Handling, Verdict, kept, drained, raised, is_entry, ack,
  ack_propagates, count_acked, delivery_count, maybe_dlq_and_ack, retry_or_bury, drain_poison,
  settle, drain_malformed, handle_one, handle_payload, pickup_ms, Reason, count_transient,
  count_unknown, bury, poison_job, malformed_payload, reason_code, is_raised, count_dlq,
  transient_max_retries, unknown_exception,
}
use neuro_voice.Consumer.Loss.{is_pending}

ack-pending :
    (id : ℕ) (h : Handling) (c : Consumer)
    → h.ack_raises ≡ false
    → is_pending id (ack id h c) ≡ false
unfolding ack
ack-pending id h c up = ground (arith, find-delete_where (is_entry id) c.pending)

ack-world : (id : ℕ) (h : Handling) (c : Consumer) → (ack id h c).world ≡ c.world
unfolding ack
ack-world id h c = ground arith

-- What a spent budget leaves, if the terminal failure and the dead letter could be written.
abbrev pub IsDrained : Entry → TtsJobPayload → Handling → World → Consumer → Type 0
IsDrained e job h w c =
    (is_pending e.entry_id c ≡ false)
    × (c.world.idem ≡ fail job.tenant_id job.request_id h.env.now w.idem)

maybe_dlq-spent :
    (e : Entry) (job : TtsJobPayload) (reason : Reason) (h : Handling) (c : Consumer)
    → h.ack_raises ≡ false
    → c.max_retries ≤ delivery_count e.entry_id h c
    → is_raised (maybe_dlq_and_ack e job reason h c).0 ≡ false
    → IsDrained e job h c.world (maybe_dlq_and_ack e job reason h c).1
unfolding maybe_dlq_and_ack
maybe_dlq-spent e job reason h c up spent calm =
    by_tests (ltb (delivery_count e.entry_id h c) c.max_retries) marked.1 h.dlq_raises
      (ground arith) refl calm
  where
    marked : World × Bool
    marked =
        mark_terminal_failure job (reason_code reason) (reason_code reason) 0 0
          (delivery_count e.entry_id h c) h.env.now h.env.commit_raises c.world

    after : Consumer
    after = record c { world = marked.0 }

    letter : DeadLetter
    letter = record {
      entry_id = e.entry_id;
      request_id = some job.request_id;
      reason = reason;
      delivery_count = delivery_count e.entry_id h c;
    }

    verdict : Bool → Bool → Bool → Verdict × Consumer
    verdict a b d =
        if a
        then (kept, c)
        else if b || d
        then (raised, after)
        else (if ack_propagates h then raised else drained, ack e.entry_id h (bury letter after))

    by_tests :
        (a b d : Bool)
        → a ≡ false
        → marked.1 ≡ b
        → is_raised (verdict a b d).0 ≡ false
        → IsDrained e job h c.world (verdict a b d).1
    by_tests true b d no_more m r = cc
    by_tests false true d no_more m r = cc
    by_tests false false true no_more m r = cc
    by_tests false false false no_more m r = (
      ack-pending e.entry_id h (bury letter after) up,
      rw (ack-world e.entry_id h (bury letter after)) (
          mark_terminal_failure-idem job (reason_code reason) (reason_code reason) 0 0
            (delivery_count e.entry_id h c) h.env.now h.env.commit_raises c.world m),
    )

pub retry_or_bury-spent :
    (e : Entry) (job : TtsJobPayload) (reason : Reason) (count : Consumer → Consumer) (h : Handling)
    (c : Consumer)
    → ((x : Consumer) → IsDrained e job h c.world x → IsDrained e job h c.world (count x))
    → h.ack_raises ≡ false
    → c.max_retries ≤ delivery_count e.entry_id h c
    → (retry_or_bury e job reason count h c).1 ≡ false
    → IsDrained e job h c.world (retry_or_bury e job reason count h c).0
unfolding retry_or_bury
retry_or_bury-spent e job reason count h c k up spent calm =
    by_verdict (maybe_dlq_and_ack e job reason h c).0 (maybe_dlq_and_ack e job reason h c).1
      (maybe_dlq-spent e job reason h c up spent) calm
  where
    by_verdict :
        (v : Verdict) (x : Consumer)
        → (is_raised v ≡ false → IsDrained e job h c.world x)
        → (if◌then◌else◌ {A = Consumer × Bool}
            (is_raised v)
            (x, true)
            (count (count_dlq v x), false)).1
          ≡ false
        → IsDrained e job h c.world
            (if◌then◌else◌ {A = Consumer × Bool}
              (is_raised v)
              (x, true)
              (count (count_dlq v x), false)).0
    by_verdict kept x d r = k x (d refl)
    by_verdict drained x d r = k (count_dlq drained x) (d refl)
    by_verdict raised x d r = cc

pub drain_poison-pending :
    (e : Entry) (job : TtsJobPayload) (attempt : ℕ) (h : Handling) (c : Consumer)
    → h.ack_raises ≡ false
    → (is_pending e.entry_id (drain_poison e job attempt h c) ≡ false)
      × ((drain_poison e job attempt h c).world ≡ c.world)
unfolding drain_poison
drain_poison-pending e job attempt h c up = (
  ack-pending e.entry_id h (buried h.dlq_raises) up,
  ack-world e.entry_id h (buried h.dlq_raises) ∙ same h.dlq_raises,
)
  where
    letter : DeadLetter
    letter = record {
      entry_id = e.entry_id;
      request_id = some job.request_id;
      reason = poison_job;
      delivery_count = attempt;
    }

    buried : Bool → Consumer
    buried b = if b then c else record (bury letter c) { dlqed = suc c.dlqed }

    same : (b : Bool) → (buried b).world ≡ c.world
    same true = refl
    same false = refl

settle-drains :
    (e : Entry) (job : TtsJobPayload) (attempt : ℕ) (h : Handling) (o : Outcome) (c : Consumer)
    → h.ack_raises ≡ false
    → c.max_retries ≤ delivery_count e.entry_id h c
    → (settle e job attempt h o c).1 ≡ false
    → is_pending e.entry_id (settle e job attempt h o c).0 ≡ false
unfolding settle
settle-drains e job attempt h done c up spent calm = ack-pending e.entry_id h c up
settle-drains e job attempt h poison c up spent calm = (drain_poison-pending e job attempt h c up).0
settle-drains e job attempt h transient c up spent calm =
    (retry_or_bury-spent e job transient_max_retries count_transient h c (λ x d. d) up spent calm).0
settle-drains e job attempt h unexpected c up spent calm =
    (retry_or_bury-spent e job unknown_exception count_unknown h c (λ x d. d) up spent calm).0

drain_malformed-drains :
    (e : Entry) (h : Handling) (c : Consumer)
    → h.ack_raises ≡ false
    → (drain_malformed e h c).1 ≡ false
    → is_pending e.entry_id (drain_malformed e h c).0 ≡ false
unfolding drain_malformed
drain_malformed-drains e h c up calm = by_dlq h.dlq_raises calm
  where
    letter : DeadLetter
    letter = record {
      entry_id = e.entry_id;
      request_id = none;
      reason = malformed_payload;
      delivery_count = delivery_count e.entry_id h c;
    }

    after : Consumer
    after = ack e.entry_id h (bury letter c)

    end : Bool → Consumer × Bool
    end b = if b then (c, true) else (
      record after { poisoned = count_acked h after.poisoned; dlqed = count_acked h after.dlqed },
      ack_propagates h,
    )

    by_dlq : (b : Bool) → (end b).1 ≡ false → is_pending e.entry_id (end b).0 ≡ false
    by_dlq true r = cc
    by_dlq false r = ack-pending e.entry_id h (bury letter c) up

handle_payload-drains :
    (payload : Option TtsJobPayload) (e : Entry) (h : Handling) (c : Consumer)
    → h.ack_raises ≡ false
    → c.max_retries ≤ delivery_count e.entry_id h c
    → (handle_payload payload e h c).1 ≡ false
    → is_pending e.entry_id (handle_payload payload e h c).0 ≡ false
unfolding handle_payload delivery_count
handle_payload-drains none e h c up spent calm = drain_malformed-drains e h c up calm
handle_payload-drains (some job) e h c up spent calm =
    let attempt = delivery_count e.entry_id h c in
    let r = process_one_job job h.env (pickup_ms job h.env.now) attempt c.world in
    settle-drains e job attempt h r.0 (record c { world = r.1 }) up spent calm

-- When the retry budget is spent, a handling that does not raise and whose XACK works takes the
-- message out of the group, whatever became of its job.
pub handle_one-drains :
    (e : Entry) (h : Handling) (c : Consumer)
    → h.ack_raises ≡ false
    → c.max_retries ≤ delivery_count e.entry_id h c
    → (handle_one e h c).1 ≡ false
    → is_pending e.entry_id (handle_one e h c).0 ≡ false
unfolding handle_one
handle_one-drains e h c up spent calm = handle_payload-drains e.payload e h c up spent calm
