-- ===== src/Consumer/Tests.antt =====
-- The consumer of src/worker/consumer.py with one message.
use neuro_voice.Prelude.{ℕ, ◌≡◌, refl, false, none, some, [], ◌∷◌, arith}
use neuro_voice.Idempotency.{Row, get, complete, completed}
use neuro_voice.Voice.{get_accessible, get_owned, earliest}
use neuro_voice.Models.{resolve_model}
use neuro_voice.Fixtures.{greeting, studio, before, reservation}
use neuro_voice.Pipeline.{
  samples_ms, World, done, process_one_job, with_voice, with_reference, synthesize, archive_audio,
  commit_job, finish, publish_chunks, publish_step, record_usage, xadd_result,
  mark_terminal_failure, watermark_bits,
}
use neuro_voice.Consumer.{
  Entry, Consumer, Handling, delivery_count, maybe_dlq_and_ack, retry_or_bury, settle,
  handle_payload, handle_one, ack,
}
use neuro_voice.Consumer.Loss.{IsAccounted, outcome, is_pending, handle_one-IsAccounted}
use neuro_voice.Consumer.Run.{Turn, run, EndsWithin, run_terminates}
use neuro_voice.Consumer.Retries.{handle_one-drains}
use neuro_voice.Consumer.Redelivered.{handle_one-IsFailed, IsFailed}

abbrev entry : Entry
entry = record { entry_id = 40; payload = some greeting }

abbrev calm : Handling
calm = record {
  env = studio;
  pending_raises = false;
  ack_raises = false;
  ack_escapes = false;
  dlq_raises = false;
}

-- The first delivery of the entry, before the job.
abbrev fresh : World → ℕ → Consumer
fresh w deliveries = record {
  world = w;
  incoming = [];
  pending = record { entry = entry; times_delivered = deliveries } ∷ [];
  dlq = [];
  max_retries = 3;
  acked = 0;
  poisoned = 0;
  transient_failures = 0;
  unknown_failures = 0;
  claimed = 0;
  dlqed = 0;
  in_flight = 0;
  last_pickup_ms = 0;
}

handle_one-IsAccounted_example :
    IsAccounted entry calm
      (outcome (some greeting) entry calm (fresh before 1))
      (handle_one entry calm (fresh before 1)).0
handle_one-IsAccounted_example = handle_one-IsAccounted entry calm (fresh before 1) refl

last_delivery : delivery_count 40 calm (fresh before 3) ≡ 3
unfolding delivery_count
last_delivery = refl

quiet : (handle_one entry calm (fresh before 3)).1 ≡ false
unfolding handle_one handle_payload settle process_one_job with_voice with_reference synthesize
    archive_audio commit_job finish publish_chunks publish_step samples_ms record_usage xadd_result
    watermark_bits get_accessible get_owned earliest resolve_model
quiet = refl

handle_one-drains_example : is_pending 40 (handle_one entry calm (fresh before 3)).0 ≡ false
handle_one-drains_example =
    handle_one-drains entry calm (fresh before 3) refl (omega (arith, last_delivery)) quiet

abbrev after : World
after = (process_one_job greeting studio none 1 before).1

returns : process_one_job greeting studio none 1 before ≡ (done, after)
unfolding process_one_job with_voice with_reference synthesize archive_audio commit_job finish
    publish_chunks publish_step samples_ms record_usage xadd_result watermark_bits get_accessible
    get_owned earliest resolve_model
returns = refl

-- The row of the job once it has returned.
abbrev spoken_row : Row
spoken_row =
    completed (some 9)
      (some (
        record { seq = 0; start_ms = 0; end_ms = 2; text = some "Mer" }
        ∷ record { seq = 1; start_ms = 2; end_ms = 3; text = some "haba" }
        ∷ []))
      reservation

visible : get 1 3 100 after.idem ≡ some spoken_row
unfolding get complete process_one_job with_voice with_reference synthesize archive_audio commit_job
    finish publish_chunks publish_step samples_ms record_usage xadd_result watermark_bits
    get_accessible get_owned earliest resolve_model
visible = refl

delivered_again : delivery_count 40 calm (fresh after 3) ≡ 3
unfolding delivery_count
delivered_again = refl

quiet_again : (handle_one entry calm (fresh after 3)).1 ≡ false
unfolding handle_one handle_payload settle retry_or_bury maybe_dlq_and_ack delivery_count ack
    mark_terminal_failure process_one_job with_voice with_reference synthesize archive_audio
    commit_job finish publish_chunks publish_step samples_ms record_usage xadd_result watermark_bits
    get_accessible get_owned earliest resolve_model
quiet_again = refl

handle_one-IsFailed_example : IsFailed greeting 100 (handle_one entry calm (fresh after 3)).0.world
handle_one-IsFailed_example =
    handle_one-IsFailed greeting studio none 1 before entry calm (fresh after 3) spoken_row returns
      refl refl (omega (arith, delivered_again)) visible quiet_again

-- A turn that reads the entry and handles it, with nothing to claim.
abbrev turn : Turn
turn = record {
  stop_before = false;
  read_fails = false;
  handling = calm;
  stop_after = false;
  now = 5;
  claim = λ _. none;
  claim_handling = calm;
  swept_at = 6;
}

run_terminates_example : EndsWithin 1 (run (some 1) 60 (turn ∷ turn ∷ []) 0 0 (fresh before 3))
run_terminates_example =
    run_terminates 1 60 (turn ∷ turn ∷ []) 0 0 (fresh before 3) (omega arith) (omega arith)
