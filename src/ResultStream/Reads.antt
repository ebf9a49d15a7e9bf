-- ===== src/ResultStream/Reads.antt =====
-- The rounds of XREADs of src/server/result_stream.py and the stream that they read piece by piece.
use neuro_voice.Prelude.{
  ◌≡◌, refl, sym, ◌∙◌, ap, Bool, false, List, [], ◌∷◌, ◌++◌, All, Bool-cases, inl, inr,
}
use neuro_voice.Queue.{TtsResult, is_terminal}
use neuro_voice.ResultStream.Steps.{consume-dropped, consume-kept, consume-terminal}
use neuro_voice.ResultStream.{
  Dedupe, advance, is_dropped, remember, Ending, reading, finished, timed_out, resume,
  consume_entries, consume_result_stream, xread,
}

-- What the rounds read, one after the other.
abbrev pub entries_read : List (Bool × List TtsResult) → List TtsResult
entries_read [] = []
entries_read ((overdue, available) ∷ rounds) = xread available ++ entries_read rounds

-- No round finds the deadline passed.
abbrev pub InTime : List (Bool × List TtsResult) → Type 0
InTime rounds = All (λ (r : Bool × List TtsResult). r.0 ≡ false) rounds

resume-prepend :
    (continue : Dedupe → List TtsResult × Ending) (c : TtsResult) (r : List TtsResult × Ending)
    → resume continue (c ∷ r.0, r.1) ≡ (c ∷ (resume continue r).0, (resume continue r).1)
resume-prepend continue c (ys, reading s) = refl
resume-prepend continue c (ys, finished) = refl
resume-prepend continue c (ys, timed_out) = refl

-- The state that the inner loop ends in is all that the next read needs.
consume-append :
    (s : Dedupe) (xs ys : List TtsResult)
    → consume_entries s (xs ++ ys) ≡ resume (λ s'. consume_entries s' ys) (consume_entries s xs)
unfolding consume_entries
consume-append s [] ys = refl
consume-append s (c ∷ xs) ys = elim (Bool-cases (is_dropped s c)) [
  | inl drop ↦
      consume-dropped s c (xs ++ ys) drop
      ∙ consume-append (advance s c) xs ys
      ∙ ap (resume (λ s'. consume_entries s' ys)) (sym (consume-dropped s c xs drop))
  | inr keep ↦ elim (Bool-cases (is_terminal c)) [
    | inl last ↦
        consume-terminal s c (xs ++ ys) keep last
        ∙ ap (resume (λ s'. consume_entries s' ys)) (sym (consume-terminal s c xs keep last))
    | inr audio ↦
        consume-kept s c (xs ++ ys) keep audio
        ∙ ap (λ (r : List TtsResult × Ending). (c ∷ r.0, r.1)) (consume-append (remember s c) xs ys)
        ∙ sym (resume-prepend (λ s'. consume_entries s' ys) c (consume_entries (remember s c) xs))
        ∙ ap (resume (λ s'. consume_entries s' ys)) (sym (consume-kept s c xs keep audio))
  ]
]

resume-ext :
    (f g : Dedupe → List TtsResult × Ending) (r : List TtsResult × Ending)
    → ((s : Dedupe) → f s ≡ g s)
    → resume f r ≡ resume g r
resume-ext f g (ys, reading s) h = rw (h s) refl
resume-ext f g (ys, finished) h = refl
resume-ext f g (ys, timed_out) h = refl

-- Reads of any sizes give what one read of all their entries would give.
pub consume-entries_read :
    (s : Dedupe) (rounds : List (Bool × List TtsResult))
    → InTime rounds
    → consume_result_stream s rounds ≡ consume_entries s (entries_read rounds)
unfolding consume_result_stream
consume-entries_read s [] t = refl
consume-entries_read s ((overdue, available) ∷ rounds) t = rw t.0 (
    resume-ext (λ s'. consume_result_stream s' rounds)
      (λ s'. consume_entries s' (entries_read rounds)) (consume_entries s (xread available))
      (λ s'. consume-entries_read s' rounds t.1)
    ∙ sym (consume-append s (xread available) (entries_read rounds)))
