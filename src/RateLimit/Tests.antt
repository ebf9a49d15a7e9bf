-- ===== src/RateLimit/Tests.antt =====
-- The limiter of src/server/rate_limit.py at a full window.
use neuro_voice.Prelude.{count_where, ◌+◌, ◌≤◌, ◌≡◌, ◌↔◌, refl, true, false, List, [], ◌∷◌, arith}
use neuro_voice.RateLimit.Window.{History, empty, checked, is_within, count-admitted-le}
use neuro_voice.RateLimit.{zadd, Hit, sliding_window}
use neuro_voice.RateLimit.Wait.{retry_after-exact}

-- Two requests, at 10 and at 40; the limit is 2 in 100 ms.
abbrev hits : List Hit
hits = record { score = 10; member = 1 } ∷ record { score = 40; member = 2 } ∷ []

denied : (sliding_window 2 100 50 3 hits).0.allowed ≡ false
unfolding sliding_window
denied = refl

retry_after-exact_example :
    ((sliding_window 2 100 111 4 (sliding_window 2 100 50 3 hits).1).0.allowed ≡ true)
    ↔ (50 + (sliding_window 2 100 50 3 hits).0.retry_after_ms ≤ 111)
retry_after-exact_example =
    retry_after-exact 2 100 50 3 111 4 hits (omega arith) (omega arith) (omega arith) denied

-- Three checks, at 10, 40 and 50, of which the last is denied.
three_checks :
    History 2 100 50
      ((record { score = 40; member = 2 }) ∷ (record { score = 10; member = 1 }) ∷ [])
      (40 ∷ 10 ∷ [])
unfolding sliding_window zadd
three_checks =
    checked 50 3 (checked 40 2 (checked 10 1 empty (omega arith) refl) (omega arith) refl)
      (omega arith) refl

count-admitted-le_example : count_where (is_within 100 10) (40 ∷ 10 ∷ []) ≤ 2
count-admitted-le_example =
    count-admitted-le 2 100 50 10
      (record { score = 40; member = 2 } ∷ record { score = 10; member = 1 } ∷ []) (40 ∷ 10 ∷ [])
      three_checks
