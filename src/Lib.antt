-- ===== src/Lib.antt =====
-- The logic of NeuroVoice's multi-tenant speech service.
--
-- A gateway authenticates the caller, checks that the voice may be used and that the queue has
-- room, reserves the request id in the idempotency table, and puts a job on a Redis stream. A
-- worker reads the stream in a consumer group, synthesizes the audio in chunks onto a result stream
-- of the request, archives it, commits the idempotency row and the usage row in one transaction,
-- and publishes the final marker. The gateway reads the result stream. The repositories keep the
-- voices, who may use them, how they are frozen and purged, the watermark keys and the tickets of
-- erasure requests.
--
-- The files, by the part of the program that they model (paths from the repository's root):
--   * Idempotency: src/repos/idempotency.py. Defs has the row; Replay, Isolation and Alone are proofs.
--     Each statement of `reserve_or_get` has its own clock and table, since other sessions commit between.
--   * Voice: src/repos/voice.py. Create and Lifecycle are its methods `create` and from `get_by_id`
--     on; Access is src/repos/voice_access.py. Visible, Listing, Shown, Ownership, Lifecycle/Retention,
--     Lifecycle/Stopped and Access/Granted are proofs.
--   * ApiKeys: src/server/security/api_keys.py. RoundTrip is proofs.
--   * Auth: `authenticate_bearer` of src/server/auth.py with the repositories src/repos/api_key.py and
--     src/repos/tenant.py, cut at its checks into functions that end the request or call the next.
--     Defs has the tables; Granted and Denied are proofs.
--   * Consent: src/repos/voice_consent.py with its CHECK constraints. Latest and Checked are proofs.
--   * Contracts: src/repos/talent_contract.py with its CHECK constraints. Honoured is proofs.
--   * Heartbeat: src/server/heartbeat.py; Heartbeat/Writer is src/worker/heartbeat.py. Totals is proofs.
--   * Gateway: src/server/main.py. Admission, Gate and Jobs are the routes of asynchronous jobs, and
--     Erasure the erasure request. The children of Gate, Jobs and Erasure are proofs; Jobs/Served follows
--     a job from the gateway through the worker and back.
--   * Queue: src/server/queue.py, the job, the chunk and `backlog_depth`.
--   * ResultStream: src/server/result_stream.py. Reads, Steps, Order and Retry are proofs.
--   * Models: src/server/models.py.
--   * Pipeline: src/worker/pipeline.py, with `record` of src/repos/usage.py. `process_one_job` is cut
--     at its stages into functions that end the job or call the next; Pipeline/Publish has the helpers
--     before it, Pipeline/State the tables it writes and, as a record of parameters, the engine, the
--     archive and the failures of one attempt.
--     Audio, Commit, Sealed, Effects and Redelivery are proofs.
--   * Consumer: src/worker/consumer.py, its loop in Run. Loss, Retries and Redelivered are proofs.
--   * RateLimit: src/server/rate_limit.py. Wait and Window are proofs; the history of a bucket is a
--     relation of Window.
--   * Numbers: src/frontend/lang_packs/tr/numbers.py. Value reads the words back.
--   * Segment: src/frontend/lang_packs/tr/segment.py. Letters and Spoken are proofs. The regular
--     expressions are written out as functions on lists of code points.
--   * Watermark: src/repos/watermark.py, with its listings in Listings. Slots and Traced are proofs.
--   * DataDeletion: src/repos/data_deletion.py, with its listings in Inbox. Closing is proofs.
--   * Prelude: shared names, Boolean tests on numbers, the tables, and the float division of the
--     pipeline (Float). Fixtures and the modules Tests
--     try the theorems on concrete data.
--
-- A table is a list of rows; a query is the first row that passes its test, and an UPDATE changes the
-- rows of one key. UUIDs, digests and URIs are numbers, an instant is a number of milliseconds. An
-- exception is a value of a result type. Loops are structural recursion: over the chunks of the
-- engine, the entries of a read, the rounds of reads. The worker's loop runs over a list of turns, which
-- need be no longer than `max_iterations` and one. The bounds on fuel are that of the source,
-- the 128 probes for a free watermark payload, and those of a float quotient: 128 doublings are enough
-- for a sample rate below 2^76, and 11 lost bits for a product with 1000. An XREAD returns at most 64
-- entries; what the reader's rounds find on the stream is an argument.
--
-- Not modelled: the synchronous and websocket routes, enrolment, the operator's routes, tokens and
-- schemas (src/server), signal processing (src/audio), object storage (src/storage), evaluation,
-- finetuning, migrations and metrics. The wire format of the queue is left out, as are the audit rows
-- outside of authentication and the normalization of text (src/frontend/lang_packs/tr/normalize.py).
pub mod Prelude
pub mod ApiKeys
pub mod Auth
pub mod Heartbeat
pub mod Idempotency
pub mod Voice
pub mod Consent
pub mod Contracts
pub mod Queue
pub mod ResultStream
pub mod Models
pub mod Pipeline
pub mod Gateway
pub mod Fixtures
pub mod Consumer
pub mod RateLimit
pub mod Numbers
pub mod Segment
pub mod Watermark
pub mod DataDeletion
