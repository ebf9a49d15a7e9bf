-- ===== src/Consumer.antt =====
-- `WorkerConsumer` of src/worker/consumer.py: one message of the job stream, from its delivery to
-- its XACK, its retry or the dead-letter stream. The consumer group is the list of entries not yet
-- delivered and the list of pending ones (the PEL), with the counts that Redis keeps.
pub mod Loss
pub mod Retries
pub mod Redelivered
pub mod Run
mod Tests
use Prim.Native.String.{String}
use neuro_voice.Prelude.{
  ℕ, zero, suc, ◌+◌, ◌-◌, Bool, true, false, ◌||◌, ◌&&◌, not, Option, none, some, List, [], ◌∷◌,
  ltb, leb, ◌==◌, if◌then◌else◌, find, update_where, delete_where, max,
}
use neuro_voice.Queue.{TtsJobPayload}
use neuro_voice.Pipeline.{
  Outcome, done, poison, transient, unexpected, World, Env, process_one_job, mark_terminal_failure,
}

-- An entry of the job stream; `none` where `TtsJobPayload.decode` raises.
pub record Entry : Type 0 where
  pub entry_id : ℕ
  pub payload : Option TtsJobPayload

pub record Pending : Type 0 where
  pub entry : Entry
  pub times_delivered : ℕ

-- The `reason` of a dead letter.
pub data Reason : Type 0 where
  malformed_payload poison_job transient_max_retries unknown_exception : Reason

pub record DeadLetter : Type 0 where
  pub entry_id : ℕ
  pub request_id : Option ℕ
  pub reason : Reason
  pub delivery_count : ℕ

-- The consumer with its counters, the group, the dead letters and what the pipeline writes.
pub record Consumer : Type 0 where
  pub world : World
  pub incoming : List Entry
  pub pending : List Pending
  pub dlq : List DeadLetter
  pub max_retries : ℕ
  pub acked : ℕ
  pub poisoned : ℕ
  pub transient_failures : ℕ
  pub unknown_failures : ℕ
  pub claimed : ℕ
  pub dlqed : ℕ
  pub in_flight : ℕ
  pub last_pickup_ms : ℕ

-- What the pipeline meets, and which calls of Redis raise while the entry is handled;
-- `ack_escapes` is that XACK raises no ResponseError but, say, a lost connection.
pub record Handling : Type 0 where
  pub env : Env
  pub pending_raises : Bool
  pub ack_raises : Bool
  pub ack_escapes : Bool
  pub dlq_raises : Bool

abbrev pub is_entry : ℕ → Pending → Bool
is_entry id p = p.entry.entry_id == id

-- What `_ack` does to the group: an XACK that raises leaves the entry pending.
pub ack : ℕ → Handling → Consumer → Consumer
ack id h c = if h.ack_raises then c else record c { pending = delete_where (is_entry id) c.pending }

-- A ResponseError is logged, no more; another error goes on to the caller of `_ack`.
abbrev pub ack_propagates : Handling → Bool
ack_propagates h = h.ack_raises && h.ack_escapes

-- A counter that is raised after the XACK.
abbrev pub count_acked : Handling → ℕ → ℕ
count_acked h n = if ack_propagates h then n else suc n

-- `_delivery_count`
pub delivery_count : ℕ → Handling → Consumer → ℕ
delivery_count id h c =
    if h.pending_raises
    then 1
    else elim (find (is_entry id) c.pending) [ none ↦ 1 | some p ↦ max 1 p.times_delivered ]

abbrev pub bury : DeadLetter → Consumer → Consumer
bury d c = record c { dlq = d ∷ c.dlq }

-- The three ends of `_maybe_dlq_and_ack`.
pub data Verdict : Type 0 where
  kept drained raised : Verdict

abbrev pub reason_code : Reason → String
reason_code malformed_payload = "malformed_payload"
reason_code poison_job = "poison"
reason_code transient_max_retries = "transient_max_retries"
reason_code unknown_exception = "unknown_exception"

pub maybe_dlq_and_ack : Entry → TtsJobPayload → Reason → Handling → Consumer → Verdict × Consumer
maybe_dlq_and_ack e job reason h c =
    let count = delivery_count e.entry_id h c in
    let marked =
      mark_terminal_failure job (reason_code reason) (reason_code reason) 0 0 count h.env.now
        h.env.commit_raises c.world in
    let c' = record c { world = marked.0 } in
    let letter : DeadLetter = record {
      entry_id = e.entry_id;
      request_id = some job.request_id;
      reason = reason;
      delivery_count = count;
    } in
    if ltb count c.max_retries
    then (kept, c)
    else if marked.1 || h.dlq_raises
    then (raised, c')
    else (if ack_propagates h then raised else drained, ack e.entry_id h (bury letter c'))

abbrev pub count_dlq : Verdict → Consumer → Consumer
count_dlq drained c = record c { dlqed = suc c.dlqed }
count_dlq kept c = c
count_dlq raised c = c

abbrev pub is_raised : Verdict → Bool
is_raised raised = true
is_raised kept = false
is_raised drained = false

abbrev pub count_transient : Consumer → Consumer
count_transient c = record c { transient_failures = suc c.transient_failures }

abbrev pub count_unknown : Consumer → Consumer
count_unknown c = record c { unknown_failures = suc c.unknown_failures }

-- The `except TransientFailure` and `except Exception` blocks; the exception of a terminal failure
-- that cannot be recorded goes on to the caller.
pub retry_or_bury :
    Entry → TtsJobPayload → Reason → (Consumer → Consumer) → Handling → Consumer → Consumer × Bool
retry_or_bury e job reason count h c =
    let v = maybe_dlq_and_ack e job reason h c in
    if is_raised v.0 then (v.1, true) else (count (count_dlq v.0 v.1), false)

-- The `except PoisonJob` block: a dead letter that cannot be written does not stop the XACK.
pub drain_poison : Entry → TtsJobPayload → ℕ → Handling → Consumer → Consumer
drain_poison e job attempt h c =
    let letter : DeadLetter = record {
      entry_id = e.entry_id;
      request_id = some job.request_id;
      reason = poison_job;
      delivery_count = attempt;
    } in
    let c' = if h.dlq_raises then c else record (bury letter c) { dlqed = suc c.dlqed } in
    let c'' = ack e.entry_id h c' in record c'' { poisoned = count_acked h c''.poisoned }

-- What follows the pipeline's outcome.
pub settle : Entry → TtsJobPayload → ℕ → Handling → Outcome → Consumer → Consumer × Bool
settle e job attempt h done c =
    let c' = ack e.entry_id h c in (record c' { acked = count_acked h c'.acked }, ack_propagates h)
settle e job attempt h poison c = (drain_poison e job attempt h c, ack_propagates h)
settle e job attempt h transient c = retry_or_bury e job transient_max_retries count_transient h c
settle e job attempt h unexpected c = retry_or_bury e job unknown_exception count_unknown h c

-- A payload that does not decode.
pub drain_malformed : Entry → Handling → Consumer → Consumer × Bool
drain_malformed e h c =
    let letter : DeadLetter = record {
      entry_id = e.entry_id;
      request_id = none;
      reason = malformed_payload;
      delivery_count = delivery_count e.entry_id h c;
    } in
    let c' = ack e.entry_id h (bury letter c) in
    if h.dlq_raises then (c, true) else (
      record c' { poisoned = count_acked h c'.poisoned; dlqed = count_acked h c'.dlqed },
      ack_propagates h,
    )

abbrev pub pickup_ms : TtsJobPayload → ℕ → Option ℕ
pickup_ms job now = elim job.enqueued_at_ms [ none ↦ none | some t ↦ some (now - t) ]

-- `_handle_one` after the decoding of the payload.
pub handle_payload : Option TtsJobPayload → Entry → Handling → Consumer → Consumer × Bool
handle_payload none e h c = drain_malformed e h c
handle_payload (some job) e h c =
    let attempt = delivery_count e.entry_id h c in
    let r = process_one_job job h.env (pickup_ms job h.env.now) attempt c.world in
    settle e job attempt h r.0 (record c { world = r.1 })

-- `_handle_one`: the consumer after it, and whether it raised.
pub handle_one : Entry → Handling → Consumer → Consumer × Bool
unfolding handle_payload
handle_one e h c = handle_payload e.payload e h c

-- `_tick`: XREADGROUP hands over the next entry, with a first delivery. False where there is none,
-- or where the read itself fails. An exception leaves `in_flight` as it was.
pub tick : Bool → Handling → Consumer → Bool × Consumer × Bool
tick read_fails h c = elim c.incoming [
  | [] ↦ (false, c, false)
  | e ∷ es ↦
      let delivered = record c {
        incoming = es;
        pending = record { entry = e; times_delivered = 1 } ∷ c.pending;
        last_pickup_ms = h.env.now;
        in_flight = suc c.in_flight;
      } in
      let r = handle_one e h delivered in
      if read_fails
      then (false, c, false)
      else (true, record (r.0) { in_flight = r.0.in_flight - 1 }, r.1)
]

abbrev redelivered : Pending → Pending
redelivered p = record p { times_delivered = suc p.times_delivered }

-- `_xautoclaim_sweep`, for the entry that XAUTOCLAIM picked, if it picked one.
pub xautoclaim_sweep : Option Pending → Handling → Consumer → Consumer × Bool
xautoclaim_sweep none h c = (c, false)
xautoclaim_sweep (some p) h c = handle_one p.entry h (record c {
  claimed = suc c.claimed;
  pending = update_where (is_entry p.entry.entry_id) redelivered c.pending;
})
