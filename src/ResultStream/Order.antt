-- ===== src/ResultStream/Order.antt =====
-- The reader of src/server/result_stream.py yields no audio chunk twice within an attempt, and never
-- goes back to an earlier attempt.
use neuro_voice.Prelude.{
  ◌<◌, ◌≡◌, ◌≢◌, Bool, true, false, some, List, [], ◌∷◌, ◌++◌, member, arith, All, All-map,
  Bool-cases, inl, inr, ◌⊎◌,
}
use neuro_voice.Queue.{TtsResult, is_terminal}
use neuro_voice.ResultStream.Steps.{consume-dropped, consume-kept, consume-terminal}
use neuro_voice.ResultStream.{
  resume, Dedupe, start, is_newer, advance, is_dropped, remember, Ending, reading, finished,
  timed_out, consume_entries, consume_result_stream, xread,
}

-- d may follow c: it is of a later attempt, or of the same one and terminal or of another number.
abbrev pub Follows : TtsResult → TtsResult → Type 0
Follows c d =
    (c.attempt < d.attempt) ⊎ ((c.attempt ≡ d.attempt) × ((is_terminal d ≡ true) ⊎ (c.seq ≢ d.seq)))

-- Every chunk may follow each chunk before it.
abbrev pub InOrder : List TtsResult → Type 0
InOrder [] = Unit {0}
InOrder (c ∷ cs) = All (Follows c) cs × InOrder cs

-- d is acceptable in a state of the reader.
abbrev After : Dedupe → TtsResult → Type 0
After s d =
    (is_newer d.attempt s.current_attempt ≡ true)
    ⊎ ((s.current_attempt ≡ some d.attempt)
        × ((is_terminal d ≡ true) ⊎ (member d.seq s.seen_seq ≡ false)))

After-advance : (s : Dedupe) (c d : TtsResult) → After (advance s c) d → After s d
After-advance s c d h = ground arith

After-remember : (s : Dedupe) (c d : TtsResult) → After (remember s c) d → After s d
After-remember s c d h = ground arith

Follows-remember :
    (s : Dedupe) (c d : TtsResult)
    → is_dropped s c ≡ false
    → is_terminal c ≡ false
    → After (remember s c) d
    → Follows c d
Follows-remember s c d k t h = ground arith

After-kept : (s : Dedupe) (c : TtsResult) → is_dropped s c ≡ false → After s c
After-kept s c k = ground arith

-- What a reader that began in a state has yielded, and what it may still yield.
abbrev Rest : Dedupe → List TtsResult → Ending → Type 0
Rest s ys (reading s') = (d : TtsResult) → After s' d → After s d × All (λ c. Follows c d) ys
Rest s ys finished = Unit {0}
Rest s ys timed_out = Unit {0}

abbrev Good : Dedupe → List TtsResult × Ending → Type 0
Good s (ys, ending) = All (After s) ys × InOrder ys × Rest s ys ending

Rest-advance :
    (s : Dedupe) (c : TtsResult) (ys : List TtsResult) (ending : Ending)
    → Rest (advance s c) ys ending
    → Rest s ys ending
Rest-advance s c ys (reading s') r = λ d h. (After-advance s c d (r d h).0, (r d h).1)
Rest-advance s c ys finished r = tt
Rest-advance s c ys timed_out r = tt

Rest-remember :
    (s : Dedupe) (c : TtsResult) (ys : List TtsResult) (ending : Ending)
    → is_dropped s c ≡ false
    → is_terminal c ≡ false
    → Rest (remember s c) ys ending
    → Rest s (c ∷ ys) ending
Rest-remember s c ys (reading s') k t r =
    λ d h. (After-remember s c d (r d h).0, (Follows-remember s c d k t (r d h).0, (r d h).1))
Rest-remember s c ys finished k t r = tt
Rest-remember s c ys timed_out k t r = tt

consume_entries-Good : (s : Dedupe) (cs : List TtsResult) → Good s (consume_entries s cs)
consume_entries-Good s [] = unfold consume_entries in (tt, tt, λ d h. (h, tt))
consume_entries-Good s (c ∷ cs) = elim (Bool-cases (is_dropped s c)) [
  | inl drop ↦
      let (a, o, r) = consume_entries-Good (advance s c) cs in
      let ys = consume_entries (advance s c) cs in
      rw (consume-dropped s c cs drop) (
        All-map (After (advance s c)) (After s) ys.0 (λ d. After-advance s c d) a,
        o,
        Rest-advance s c ys.0 ys.1 r,
      )
  | inr keep ↦ elim (Bool-cases (is_terminal c)) [
    | inl last ↦ rw (consume-terminal s c cs keep last) ((After-kept s c keep, tt), (tt, tt), tt)
    | inr audio ↦
        let (a, o, r) = consume_entries-Good (remember s c) cs in
        let ys = consume_entries (remember s c) cs in
        rw (consume-kept s c cs keep audio) (
          (
            After-kept s c keep,
            All-map (After (remember s c)) (After s) ys.0 (λ d. After-remember s c d) a,
          ),
          (
            All-map (After (remember s c)) (Follows c) ys.0 (λ d. Follows-remember s c d keep audio)
                a,
            o,
          ),
          Rest-remember s c ys.0 ys.1 keep audio r,
        )
  ]
]

All-append {ℓ} :
    {A : Type ℓ} (P : A → Type 0) (xs ys : List A) → All P xs → All P ys → All P (xs ++ ys)
All-append P [] ys hx hy = hy
All-append P (x ∷ xs) ys hx hy = (hx.0, All-append P xs ys hx.1 hy)

InOrder-append :
    (xs ys : List TtsResult)
    → InOrder xs
    → InOrder ys
    → All (λ d. All (λ c. Follows c d) xs) ys
    → InOrder (xs ++ ys)
InOrder-append [] ys hx hy h = hy
InOrder-append (x ∷ xs) ys hx hy h = (
  All-append (Follows x) xs ys hx.0 (All-map _ _ ys (λ d f. f.0) h),
  InOrder-append xs ys hx.1 hy (All-map _ _ ys (λ d f. f.1) h),
)

-- A state of the reader and what a reader yields from it on.
abbrev Yields : Dedupe → List TtsResult → Type 0
Yields s ys = All (After s) ys × InOrder ys

resume-InOrder :
    (s : Dedupe) (continue : Dedupe → List TtsResult × Ending) (ys : List TtsResult)
    (ending : Ending)
    → Good s (ys, ending)
    → ((s' : Dedupe) → Yields s' (continue s').0)
    → Yields s (resume continue (ys, ending)).0
resume-InOrder s continue ys (reading s') (a, o, r) next =
    let later = (next s').0 in
    (
      All-append (After s) ys (continue s').0 a
          (All-map (After s') (After s) _ (λ d h. (r d h).0) later),
      InOrder-append ys (continue s').0 o (next s').1
          (All-map (After s') (λ d. All (λ c. Follows c d) ys) _ (λ d h. (r d h).1) later),
    )
resume-InOrder s continue ys finished (a, o, r) next = (a, o)
resume-InOrder s continue ys timed_out (a, o, r) next = (a, o)

consume_result_stream-InOrder :
    (s : Dedupe) (rounds : List (Bool × List TtsResult))
    → Yields s (consume_result_stream s rounds).0
unfolding consume_result_stream
consume_result_stream-InOrder s [] = (tt, tt)
consume_result_stream-InOrder s ((true, available) ∷ rounds) = (tt, tt)
consume_result_stream-InOrder s ((false, available) ∷ rounds) =
    resume-InOrder s (λ s'. consume_result_stream s' rounds) (consume_entries s (xread available)).0
      (consume_entries s (xread available)).1 (consume_entries-Good s (xread available))
      (λ s'. consume_result_stream-InOrder s' rounds)

-- Over any sequence of reads, with duplicates, retries and late chunks in any order, the chunks that
-- the reader yields never go back to an earlier attempt, and no two audio chunks of one attempt have
-- the same number.
pub yielded-InOrder :
    (rounds : List (Bool × List TtsResult)) → InOrder (consume_result_stream start rounds).0
yielded-InOrder rounds = (consume_result_stream-InOrder start rounds).1
