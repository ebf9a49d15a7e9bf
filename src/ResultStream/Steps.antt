-- ===== src/ResultStream/Steps.antt =====
-- One step of the inner loop of src/server/result_stream.py, by what becomes of the chunk.
use neuro_voice.Prelude.{◌≡◌, true, false, List, [], ◌∷◌}
use neuro_voice.Queue.{TtsResult, is_terminal}
use neuro_voice.ResultStream.{Dedupe, advance, is_dropped, remember, consume_entries, finished}

pub consume-dropped :
    (s : Dedupe) (c : TtsResult) (cs : List TtsResult)
    → is_dropped s c ≡ true
    → consume_entries s (c ∷ cs) ≡ consume_entries (advance s c) cs
unfolding consume_entries
consume-dropped s c cs h = rw h

pub consume-kept :
    (s : Dedupe) (c : TtsResult) (cs : List TtsResult)
    → is_dropped s c ≡ false
    → is_terminal c ≡ false
    → consume_entries s (c ∷ cs)
      ≡ (c ∷ (consume_entries (remember s c) cs).0, (consume_entries (remember s c) cs).1)
unfolding consume_entries
consume-kept s c cs h t = rw (h, t)

pub consume-terminal :
    (s : Dedupe) (c : TtsResult) (cs : List TtsResult)
    → is_dropped s c ≡ false
    → is_terminal c ≡ true
    → consume_entries s (c ∷ cs) ≡ (c ∷ [], finished)
unfolding consume_entries
consume-terminal s c cs h t = rw (h, t)
