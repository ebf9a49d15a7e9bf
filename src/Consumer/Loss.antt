-- ===== src/Consumer/Loss.antt =====
-- No message of src/worker/consumer.py is dropped in silence.
use neuro_voice.Prelude.{
  ℕ, suc, ◌≡◌, ◌⊎◌, refl, Bool, true, false, ◌||◌, Option, none, some, arith, if◌then◌else◌, inl,
  inr, is_some, find, ◌==◌, ltb,
}
use neuro_voice.Queue.{TtsJobPayload}
use neuro_voice.Pipeline.{
  World, mark_terminal_failure, Outcome, done, poison, transient, unexpected, process_one_job,
}
use neuro_voice.Consumer.{
  ack_propagates, count_acked, Entry, DeadLetter, Consumer, Handling, Verdict, kept, drained,
  raised, is_entry, ack, delivery_count, maybe_dlq_and_ack, retry_or_bury, drain_poison, settle,
  drain_malformed, handle_one, handle_payload, pickup_ms, Reason, count_transient, count_unknown,
  bury, poison_job, malformed_payload, reason_code, is_raised, count_dlq, transient_max_retries,
  unknown_exception,
}

abbrev pub is_pending : ℕ → Consumer → Bool
is_pending id c = is_some (find (is_entry id) c.pending)

abbrev pub is_buried : ℕ → Consumer → Bool
is_buried id c = is_some (find (λ (d : DeadLetter). d.entry_id == id) c.dlq)

-- The outcome of the pipeline, where the entry decodes.
abbrev pub outcome : Option TtsJobPayload → Entry → Handling → Consumer → Option Outcome
outcome none e h c = none
outcome (some job) e h c =
    some
      (process_one_job job h.env (pickup_ms job h.env.now) (delivery_count e.entry_id h c)
        c.world).0

-- How an entry is accounted for.
abbrev pub IsAccounted : Entry → Handling → Option Outcome → Consumer → Type 0
IsAccounted e h o c =
    (is_pending e.entry_id c ≡ true)
    ⊎ (is_buried e.entry_id c ≡ true)
    ⊎ (o ≡ some done)
    ⊎ ((o ≡ some poison) × (h.dlq_raises ≡ true))

self : (id : ℕ) → (id == id) ≡ true
self id = ground arith

ack-dlq : (id : ℕ) (h : Handling) (c : Consumer) → (ack id h c).dlq ≡ c.dlq
unfolding ack
ack-dlq id h c = ground arith

buried :
    (d : DeadLetter) (h : Handling) (c : Consumer)
    → is_buried d.entry_id (ack d.entry_id h (bury d c)) ≡ true
buried d h c = rw (ack-dlq d.entry_id h (bury d c)) (rw (self d.entry_id))

buried_counted :
    (d : DeadLetter) (h : Handling) (c : Consumer)
    → is_buried d.entry_id (ack d.entry_id h (record (bury d c) { dlqed = suc c.dlqed })) ≡ true
buried_counted d h c =
    rw (ack-dlq d.entry_id h (record (bury d c) { dlqed = suc c.dlqed })) (rw (self d.entry_id))

abbrev IsHere : ℕ → Consumer → Type 0
IsHere id c = (is_pending id c ≡ true) ⊎ (is_buried id c ≡ true)

maybe_dlq-IsHere :
    (e : Entry) (job : TtsJobPayload) (reason : Reason) (h : Handling) (c : Consumer)
    → is_pending e.entry_id c ≡ true
    → IsHere e.entry_id (maybe_dlq_and_ack e job reason h c).1
unfolding maybe_dlq_and_ack
maybe_dlq-IsHere e job reason h c p =
    by_tests (ltb (delivery_count e.entry_id h c) c.max_retries) (marked.1 || h.dlq_raises)
  where
    marked : World × Bool
    marked =
        mark_terminal_failure job (reason_code reason) (reason_code reason) 0 0
          (delivery_count e.entry_id h c) h.env.now h.env.commit_raises c.world

    letter : DeadLetter
    letter = record {
      entry_id = e.entry_id;
      request_id = some job.request_id;
      reason = reason;
      delivery_count = delivery_count e.entry_id h c;
    }

    by_tests :
        (a b : Bool)
        → IsHere e.entry_id
            (if◌then◌else◌ {A = Verdict × Consumer} a
              (kept, c)
              (if b then (raised, record c { world = marked.0 }) else (
                if ack_propagates h then raised else drained,
                ack e.entry_id h (bury letter (record c { world = marked.0 })),
              ))).1
    by_tests true b = inl p
    by_tests false true = inl p
    by_tests false false = inr (buried letter h (record c { world = marked.0 }))

retry_or_bury-IsHere :
    (e : Entry) (job : TtsJobPayload) (reason : Reason) (count : Consumer → Consumer) (h : Handling)
    (c : Consumer)
    → ((x : Consumer) → IsHere e.entry_id x → IsHere e.entry_id (count x))
    → is_pending e.entry_id c ≡ true
    → IsHere e.entry_id (retry_or_bury e job reason count h c).0
unfolding retry_or_bury
retry_or_bury-IsHere e job reason count h c k p =
    by_verdict (maybe_dlq_and_ack e job reason h c).0 (maybe_dlq_and_ack e job reason h c).1
      (maybe_dlq-IsHere e job reason h c p)
  where
    by_verdict :
        (v : Verdict) (x : Consumer)
        → IsHere e.entry_id x
        → IsHere e.entry_id
            (if◌then◌else◌ {A = Consumer × Bool}
              (is_raised v)
              (x, true)
              (count (count_dlq v x), false)).0
    by_verdict kept x i = k x i
    by_verdict drained x i = k (count_dlq drained x) i
    by_verdict raised x i = i

accounted :
    (e : Entry) (h : Handling) (o : Option Outcome) (c : Consumer)
    → IsHere e.entry_id c
    → IsAccounted e h o c
accounted e h o c (inl p) = inl p
accounted e h o c (inr b) = inr (inl b)

settle-IsAccounted :
    (e : Entry) (job : TtsJobPayload) (attempt : ℕ) (h : Handling) (o : Outcome) (c : Consumer)
    → is_pending e.entry_id c ≡ true
    → IsAccounted e h (some o) (settle e job attempt h o c).0
unfolding settle drain_poison
settle-IsAccounted e job attempt h done c p = inr (inr (inl refl))
settle-IsAccounted e job attempt h poison c p = by_dlq h.dlq_raises refl
  where
    letter : DeadLetter
    letter = record {
      entry_id = e.entry_id;
      request_id = some job.request_id;
      reason = poison_job;
      delivery_count = attempt;
    }

    by_dlq :
        (b : Bool)
        → h.dlq_raises ≡ b
        → IsAccounted e h
            (some poison)
            (ack e.entry_id h (if b then c else record (bury letter c) { dlqed = suc c.dlqed }))
    by_dlq true down = inr (inr (inr (refl, down)))
    by_dlq false up = inr (inl (buried_counted letter h c))
settle-IsAccounted e job attempt h transient c p =
    accounted e h (some transient) (retry_or_bury e job transient_max_retries count_transient h c).0
      (retry_or_bury-IsHere e job transient_max_retries count_transient h c (λ x i. i) p)
settle-IsAccounted e job attempt h unexpected c p =
    accounted e h (some unexpected) (retry_or_bury e job unknown_exception count_unknown h c).0
      (retry_or_bury-IsHere e job unknown_exception count_unknown h c (λ x i. i) p)

drain_malformed-IsHere :
    (e : Entry) (h : Handling) (c : Consumer)
    → is_pending e.entry_id c ≡ true
    → IsHere e.entry_id (drain_malformed e h c).0
unfolding drain_malformed
drain_malformed-IsHere e h c p = by_dlq h.dlq_raises
  where
    letter : DeadLetter
    letter = record {
      entry_id = e.entry_id;
      request_id = none;
      reason = malformed_payload;
      delivery_count = delivery_count e.entry_id h c;
    }

    after : Consumer
    after = ack e.entry_id h (bury letter c)

    by_dlq :
        (b : Bool)
        → IsHere e.entry_id
            (if◌then◌else◌ {A = Consumer × Bool} b
              (c, true)
              (
                record after {
                  poisoned = count_acked h after.poisoned;
                  dlqed = count_acked h after.dlqed;
                },
                ack_propagates h,
              )).0
    by_dlq true = inl p
    by_dlq false = inr (buried letter h c)

handle_payload-IsAccounted :
    (payload : Option TtsJobPayload) (e : Entry) (h : Handling) (c : Consumer)
    → is_pending e.entry_id c ≡ true
    → IsAccounted e h (outcome payload e h c) (handle_payload payload e h c).0
unfolding handle_payload
handle_payload-IsAccounted none e h c p =
    accounted e h none (drain_malformed e h c).0 (drain_malformed-IsHere e h c p)
handle_payload-IsAccounted (some job) e h c p =
    let attempt = delivery_count e.entry_id h c in
    let r = process_one_job job h.env (pickup_ms job h.env.now) attempt c.world in
    settle-IsAccounted e job attempt h r.0 (record c { world = r.1 }) p

-- A pending message that has been handled, whether or not the handling raised, is still pending for
-- a retry, or is in the dead-letter stream, or its job returned; or it is a poison job and the
-- dead-letter stream could not be written.
pub handle_one-IsAccounted :
    (e : Entry) (h : Handling) (c : Consumer)
    → is_pending e.entry_id c ≡ true
    → IsAccounted e h (outcome e.payload e h c) (handle_one e h c).0
unfolding handle_one
handle_one-IsAccounted e h c p = handle_payload-IsAccounted e.payload e h c p
