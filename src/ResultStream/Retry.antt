-- ===== src/ResultStream/Retry.antt =====
-- A retry seen by the synchronous reader of src/server/result_stream.py: what an earlier attempt
-- left on the stream does not reach the client.
use neuro_voice.Prelude.{
  Bool, ℕ, suc, ◌+◌, ◌<◌, ◌≡◌, refl, ◌∙◌, ap, true, false, Option, none, some, List, [], ◌∷◌, ◌++◌,
  member, arith, All, Bool-cases, inl, inr, length,
}
use mathlib.Core.List.{append-nil, append_assoc}
use neuro_voice.Queue.{TtsResult, has_error, is_terminal}
use neuro_voice.ResultStream.Steps.{consume-dropped, consume-kept}
use neuro_voice.ResultStream.Reads.{entries_read, InTime, consume-entries_read}
use neuro_voice.ResultStream.{
  Dedupe, start, advance, is_dropped, remember, Ending, finished, consume_entries, Buffer,
  empty_buffer, reset_on_advance, collect, collect_pcm_until_final,
}

-- A chunk that an attempt before the n-th left behind.
abbrev pub IsLeftover : ℕ → TtsResult → Type 0
IsLeftover n c = (c.attempt < n) × (is_terminal c ≡ false)

-- The audio chunks of attempt n, numbered from k.
abbrev pub IsRun : ℕ → ℕ → List TtsResult → Type 0
IsRun n k [] = Unit {0}
IsRun n k (c ∷ cs) = (c.attempt ≡ n) × (c.seq ≡ k) × (is_terminal c ≡ false) × IsRun n (suc k) cs

abbrev pub IsFinal : ℕ → TtsResult → Type 0
IsFinal n c = (c.attempt ≡ n) × (c.final ≡ true) × (has_error c ≡ false)

abbrev pub pcm_of : List TtsResult → List ℕ
pcm_of [] = []
pcm_of (c ∷ cs) = c.pcm_bytes ++ pcm_of cs

abbrev Older : ℕ → Option ℕ → Type 0
Older n none = Unit {0}
Older n (some a) = a < n

abbrev Below : ℕ → List ℕ → Type 0
Below k [] = Unit {0}
Below k (x ∷ xs) = (x < k) × Below k xs

Below-suc : (k : ℕ) (xs : List ℕ) → Below k xs → Below (suc k) xs
Below-suc k [] b = tt
Below-suc k (x ∷ xs) b = (omega arith, Below-suc k xs b.1)

member-Below : (k : ℕ) (xs : List ℕ) → Below k xs → member k xs ≡ false
member-Below k [] b = refl
member-Below k (x ∷ xs) b = ground (arith, member-Below k xs b.1)

-- Within the attempt every chunk of the run and the final one are yielded.
consume-run :
    (n k : ℕ) (seen : List ℕ) (run : List TtsResult) (fin : TtsResult)
    → Below k seen
    → IsRun n k run
    → IsFinal n fin
    → consume_entries (record { current_attempt = some n; seen_seq = seen }) (run ++ fin ∷ [])
      ≡ (run ++ fin ∷ [], finished)
unfolding consume_entries
consume-run n k seen [] fin b r f = ground arith
consume-run n k seen (c ∷ run) fin b r f =
    ground
      (arith, member-Below k seen b, Below-suc k seen b, consume-run n (suc k) (k ∷ seen) run fin)

-- The first chunk of a new attempt clears the numbers that were seen.
consume-new :
    (n : ℕ) (s : Dedupe) (run : List TtsResult) (fin : TtsResult)
    → Older n s.current_attempt
    → IsRun n 0 run
    → IsFinal n fin
    → consume_entries s (run ++ fin ∷ []) ≡ (run ++ fin ∷ [], finished)
unfolding consume_entries
consume-new n s [] fin o r f = ground arith
consume-new n s (c ∷ run) fin o r f = ground (arith, consume-run n 1 (0 ∷ []) run fin)

abbrev added : Buffer → TtsResult → Buffer
added b c = record b { pcm = b.pcm ++ c.pcm_bytes; sentences = suc b.sentences }

collect-audio :
    (b : Buffer) (c : TtsResult) (cs : List TtsResult)
    → is_terminal c ≡ false
    → collect b (c ∷ cs) ≡ collect (added (reset_on_advance b c) c) cs
unfolding collect
collect-audio b c cs h = ground arith

collect-run :
    (n k : ℕ) (b : Buffer) (run : List TtsResult) (fin : TtsResult)
    → b.attempt ≡ some n
    → IsRun n k run
    → IsFinal n fin
    → collect b (run ++ fin ∷ []) ≡ (b.pcm ++ pcm_of run, b.sentences + length run, none)
unfolding collect
collect-run n k b [] fin e r f = ground (arith, append-nil b.pcm)
collect-run n k b (c ∷ run) fin e r f =
    let same : reset_on_advance b c ≡ b = ground arith in
    collect-audio b c (run ++ fin ∷ []) r.2
    ∙ rw same (
        collect-run n (suc k) (added b c) run fin e r.3 f
        ∙ ground (arith, append_assoc b.pcm c.pcm_bytes (pcm_of run)))

collect-new :
    (n : ℕ) (b : Buffer) (run : List TtsResult) (fin : TtsResult)
    → Older n b.attempt
    → IsRun n 0 run
    → IsFinal n fin
    → collect b (run ++ fin ∷ []) ≡ (pcm_of run, length run, none)
unfolding collect
collect-new n b [] fin o r f = ground arith
collect-new n b (c ∷ run) fin o r f =
    let clear : Buffer = record { pcm = []; sentences = 0; attempt = some n } in
    let cleared : reset_on_advance b c ≡ clear = ground arith in
    collect-audio b c (run ++ fin ∷ []) r.2
    ∙ rw cleared (collect-run n 1 (added clear c) run fin refl r.3 f ∙ ground arith)

-- What is left over is skipped or collected into a buffer that the new attempt will clear.
skip :
    (n : ℕ) (s : Dedupe) (b : Buffer) (pre tail : List TtsResult)
    → Older n s.current_attempt
    → Older n b.attempt
    → All (IsLeftover n) pre
    → (s' : Dedupe) × (b' : Buffer) × Older n s'.current_attempt
      × Older n b'.attempt
      × (collect b (consume_entries s (pre ++ tail)).0 ≡ collect b' (consume_entries s' tail).0)
      × ((consume_entries s (pre ++ tail)).1 ≡ (consume_entries s' tail).1)
skip n s b [] tail os ob a = (s, b, os, ob, refl, refl)
skip n s b (c ∷ pre) tail os ob a = elim (Bool-cases (is_dropped s c)) [
  | inl drop ↦
      rw (consume-dropped s c (pre ++ tail) drop)
        (skip n (advance s c) b pre tail (older-advance s os) ob a.1)
  | inr keep ↦ rw (consume-kept s c (pre ++ tail) keep a.0.1) (
      rw (collect-audio b c (consume_entries (remember s c) (pre ++ tail)).0 a.0.1) (
        skip n (remember s c) (added (reset_on_advance b c) c) pre tail (older-remember s os)
          (older-reset b ob) a.1))
]
  where
    older-advance : (s : Dedupe) → Older n s.current_attempt → Older n (advance s c).current_attempt
    older-advance s o = ground arith

    older-remember :
        (s : Dedupe) → Older n s.current_attempt → Older n (remember s c).current_attempt
    older-remember s o = ground arith

    older-reset : (b : Buffer) → Older n b.attempt → Older n (reset_on_advance b c).attempt
    older-reset b o = ground arith

collect-rounds :
    (rounds : List (Bool × List TtsResult))
    → InTime rounds
    → (consume_entries start (entries_read rounds)).1 ≡ finished
    → collect_pcm_until_final rounds
      ≡ some (collect empty_buffer (consume_entries start (entries_read rounds)).0)
unfolding collect_pcm_until_final
collect-rounds rounds time h =
    rw (collect_pcm_until_final, consume-entries_read start rounds time, h)
      (ap (λ (r : List TtsResult × Ending). some (collect empty_buffer r.0))
        (consume-entries_read start rounds time))

-- Whatever audio earlier attempts left on the stream, the reader of a stream on which attempt n then
-- writes its chunks 0, 1, ... and its final marker returns exactly the audio of attempt n, in order,
-- with the number of its chunks and no error. The stream is read in any number of XREADs, of at most
-- 64 entries each, that together return it all before the deadline; some may come back empty.
pub collect-retry :
    (n : ℕ) (pre run : List TtsResult) (fin : TtsResult) (rounds : List (Bool × List TtsResult))
    → All (IsLeftover n) pre
    → IsRun n 0 run
    → IsFinal n fin
    → InTime rounds
    → entries_read rounds ≡ pre ++ (run ++ fin ∷ [])
    → collect_pcm_until_final rounds ≡ some (pcm_of run, length run, none)
collect-retry n pre run fin rounds a r f time read =
    let (s, b, os, ob, e, h) = skip n start empty_buffer pre (run ++ fin ∷ []) tt tt a in
    let new = consume-new n s run fin os r f in
    let done : (consume_entries start (pre ++ (run ++ fin ∷ []))).1 ≡ finished =
      h ∙ ap (λ (p : List TtsResult × Ending). p.1) new in
    collect-rounds rounds time
      (ap (λ (l : List TtsResult). (consume_entries start l).1) read ∙ done)
    ∙ ap (λ (l : List TtsResult). some (collect empty_buffer (consume_entries start l).0)) read
    ∙ ap some (e ∙ rw new (collect-new n b run fin ob r f))
