-- ===== src/ResultStream.antt =====
-- The gateway's reader of a result stream, src/server/result_stream.py. A round of the loop
-- has the outcome of the deadline test and the entries that stand on the stream behind `last_id`, of
-- which one XREAD returns the first 64.
mod Steps
pub mod Reads
pub mod Order
pub mod Retry
mod Tests
use Prim.Native.String.{String}
use neuro_voice.Prelude.{
  ℕ, zero, suc, ◌+◌, Bool, true, false, ◌&&◌, not, Option, none, some, List, [], ◌∷◌, ◌++◌, ltb,
  ◌==◌, if◌then◌else◌, member,
}
use neuro_voice.Queue.{TtsResult, has_error, is_terminal}

-- `current_attempt` is -1 at first, here none.
pub record Dedupe : Type 0 where
  pub current_attempt : Option ℕ
  pub seen_seq : List ℕ

abbrev pub start : Dedupe
start = record { current_attempt = none; seen_seq = [] }

-- `chunk.attempt > current_attempt` and `chunk.attempt < current_attempt`
abbrev pub is_newer : ℕ → Option ℕ → Bool
is_newer attempt none = true
is_newer attempt (some c) = ltb c attempt

abbrev pub is_older : ℕ → Option ℕ → Bool
is_older attempt none = false
is_older attempt (some c) = ltb attempt c

abbrev pub advance : Dedupe → TtsResult → Dedupe
advance s c =
    if is_newer c.attempt s.current_attempt
    then record { current_attempt = some c.attempt; seen_seq = [] }
    else s

-- The chunk is dropped: a superseded attempt, or a sequence number that this attempt has had.
abbrev pub is_dropped : Dedupe → TtsResult → Bool
is_dropped s c =
    if is_older c.attempt s.current_attempt
    then true
    else member c.seq (advance s c).seen_seq && not (is_terminal c)

abbrev pub remember : Dedupe → TtsResult → Dedupe
remember s c =
    if is_terminal c
    then advance s c
    else record (advance s c) { seen_seq = c.seq ∷ (advance s c).seen_seq }

-- What the reader has yielded, and how it stands: still reading in a state, ended by a terminal
-- chunk, or timed out.
pub data Ending : Type 0 where
  reading : Dedupe → Ending
  finished timed_out : Ending

-- The inner loop, over the entries of one XREAD.
pub consume_entries : Dedupe → List TtsResult → List TtsResult × Ending
consume_entries s [] = ([], reading s)
consume_entries s (c ∷ cs) =
    let after = consume_entries (remember s c) cs in
    let skipped = consume_entries (advance s c) cs in
    if is_dropped s c
    then skipped
    else if is_terminal c
    then (c ∷ [], finished)
    else (c ∷ after.0, after.1)

-- After the entries of one XREAD the outer loop goes on in the state reached, or is over.
abbrev pub resume :
    (Dedupe → List TtsResult × Ending) → List TtsResult × Ending → List TtsResult × Ending
resume continue (yielded, reading s) = (yielded ++ (continue s).0, (continue s).1)
resume continue (yielded, finished) = (yielded, finished)
resume continue (yielded, timed_out) = (yielded, timed_out)

abbrev pub take : ℕ → List TtsResult → List TtsResult
take zero cs = []
take (suc n) [] = []
take (suc n) (c ∷ cs) = c ∷ take n cs

-- XREAD with count=64.
abbrev pub xread : List TtsResult → List TtsResult
xread available = take 64 available

-- The outer loop; the rounds end where the caller stops to wait.
pub consume_result_stream : Dedupe → List (Bool × List TtsResult) → List TtsResult × Ending
unfolding consume_entries
consume_result_stream s [] = ([], reading s)
consume_result_stream s ((overdue, available) ∷ rounds) =
    if overdue
    then ([], timed_out)
    else resume (λ s'. consume_result_stream s' rounds) (consume_entries s (xread available))

-- The buffer of `collect_pcm_until_final`.
pub record Buffer : Type 0 where
  pub pcm : List ℕ
  pub sentences : ℕ
  pub attempt : Option ℕ

abbrev pub empty_buffer : Buffer
empty_buffer = record { pcm = []; sentences = 0; attempt = none }

abbrev pub reset_on_advance : Buffer → TtsResult → Buffer
reset_on_advance b c =
    if is_newer c.attempt b.attempt
    then record { pcm = []; sentences = 0; attempt = some c.attempt }
    else b

-- The loop over the yielded chunks: PCM, sentence count, error message.
pub collect : Buffer → List TtsResult → List ℕ × ℕ × Option String
collect b [] = (b.pcm, b.sentences, none)
collect b (c ∷ cs) =
    let b' = reset_on_advance b c in
    let rest =
      collect (record b' { pcm = b'.pcm ++ c.pcm_bytes; sentences = suc b'.sentences }) cs in
    if has_error c
    then (b'.pcm, b'.sentences, c.error)
    else if c.final
    then (b'.pcm, b'.sentences, none)
    else rest

-- None is the timeout, which the iteration raises.
pub collect_pcm_until_final : List (Bool × List TtsResult) → Option (List ℕ × ℕ × Option String)
unfolding consume_result_stream collect
collect_pcm_until_final rounds =
    let (yielded, ending) = consume_result_stream start rounds in
    elim ending [ timed_out ↦ none | _ ↦ some (collect empty_buffer yielded) ]
