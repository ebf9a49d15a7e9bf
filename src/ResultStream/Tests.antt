-- ===== src/ResultStream/Tests.antt =====
-- The reader of src/server/result_stream.py on a stream with a left-over of an earlier attempt.
use neuro_voice.Prelude.{ℕ, ◌≡◌, refl, Bool, true, false, none, some, List, [], ◌∷◌, arith, All}
use neuro_voice.Queue.{TtsResult}
use neuro_voice.ResultStream.{start, consume_result_stream, collect_pcm_until_final}
use neuro_voice.ResultStream.Order.{InOrder, yielded-InOrder}
use neuro_voice.ResultStream.Retry.{IsRun, IsLeftover, collect-retry}

abbrev chunk : ℕ → ℕ → List ℕ → Bool → TtsResult
chunk attempt seq pcm final = record {
  request_id = 3;
  seq = seq;
  pcm_bytes = pcm;
  sentence_text = none;
  final = final;
  error = none;
  attempt = attempt;
}

abbrev left_over : List TtsResult
left_over = chunk 1 0 (9 ∷ []) false ∷ []

abbrev attempt_two : List TtsResult
attempt_two = chunk 2 0 (1 ∷ 2 ∷ []) false ∷ chunk 2 1 (3 ∷ []) false ∷ []

yielded-InOrder_example :
    InOrder
      (consume_result_stream start
        ((false, left_over) ∷ (false, attempt_two) ∷ (false, left_over) ∷ [])).0
yielded-InOrder_example =
    yielded-InOrder ((false, left_over) ∷ (false, attempt_two) ∷ (false, left_over) ∷ [])

leftover : All (IsLeftover 2) left_over
leftover = ground arith

numbered : IsRun 2 0 attempt_two
numbered = ground arith

-- Three XREADs, of which one comes back empty.
abbrev rounds : List (Bool × List TtsResult)
rounds =
    (false, chunk 1 0 (9 ∷ []) false ∷ chunk 2 0 (1 ∷ 2 ∷ []) false ∷ [])
    ∷ (false, [])
    ∷ (false, chunk 2 1 (3 ∷ []) false ∷ chunk 2 2 [] true ∷ [])
    ∷ []

collect-retry_example : collect_pcm_until_final rounds ≡ some (1 ∷ 2 ∷ 3 ∷ [], 2, none)
collect-retry_example =
    collect-retry 2 left_over attempt_two (chunk 2 2 [] true) rounds leftover numbered
      (refl, refl, refl) (refl, (refl, (refl, tt))) refl
