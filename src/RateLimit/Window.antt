-- ===== src/RateLimit/Window.antt =====
-- The limit holds in every window, src/server/rate_limit.py.
use neuro_voice.Prelude.{
  ℕ, ◌+◌, ◌<◌, ◌≤◌, ◌≡◌, refl, Bool, ◌&&◌, none, List, [], ◌∷◌, ltb, leb, ◌==◌, if◌then◌else◌,
  length, delete_where, count_where, find, arith, Bool-cases, inl, inr,
}
use neuro_voice.RateLimit.{Hit, trim, zadd, sliding_window}

-- The history of one bucket: the time of its last check, its set, and the times of the requests that
-- were admitted. The clock does not go back, and a member is not in the set yet.
pub data History (limit window : ℕ) : ℕ → List Hit → List ℕ → Type 0 where
  empty : History limit window 0 [] []
  checked :
      {now : ℕ} {hits : List Hit} {log : List ℕ} (t member : ℕ)
      → History limit window now hits log
      → now ≤ t
      → find (λ (h : Hit). h.member == member) (trim window t hits) ≡ none
      → History limit window t
          (sliding_window limit window t member hits).1
          (if (sliding_window limit window t member hits).0.allowed then t ∷ log else log)

-- Whether an admission lies in the window that begins at T.
abbrev pub is_within : ℕ → ℕ → ℕ → Bool
is_within window T a = leb T a && ltb a (T + window)

abbrev is_recent : ℕ → ℕ → ℕ → Bool
is_recent window s a = ltb s (a + window)

count-within :
    (window T t : ℕ) (log : List ℕ)
    → t < T + window
    → count_where (is_within window T) log ≤ count_where (is_recent window t) log
count-within window T t [] lt = omega arith
count-within window T t (a ∷ log) lt = ground (arith, count-within window T t log lt)

trim-trim :
    (window t s : ℕ) (hits : List Hit)
    → t ≤ s
    → length (trim window s (trim window t hits)) ≡ length (trim window s hits)
trim-trim window t s [] le = refl
trim-trim window t s (h ∷ hits) le = ground (arith, trim-trim window t s hits le)

delete_where-none :
    (p : Hit → Bool) (hits : List Hit) → find p hits ≡ none → delete_where p hits ≡ hits
delete_where-none p [] e = refl
delete_where-none p (h ∷ hits) e = ground (arith, e, delete_where-none p hits)

-- What the history keeps: the set has every admission that has not left its window, and no window
-- has more than `limit` of them.
record IsKept (limit window now : ℕ) (hits : List Hit) (log : List ℕ) : Type 0 where
  remembered :
      (s : ℕ) → now ≤ s → count_where (is_recent window s) log ≤ length (trim window s hits)
  bounded : (T : ℕ) → count_where (is_within window T) log ≤ limit

checked-IsKept :
    (limit window now t member : ℕ) (hits : List Hit) (log : List ℕ)
    → IsKept limit window now hits log
    → now ≤ t
    → find (λ (h : Hit). h.member == member) (trim window t hits) ≡ none
    → IsKept limit window t
        (sliding_window limit window t member hits).1
        (if (sliding_window limit window t member hits).0.allowed then t ∷ log else log)
unfolding sliding_window zadd
checked-IsKept limit window now t member hits log k le fresh =
    elim (Bool-cases (leb limit (length (trim window t hits)))) [
      | inl full ↦ rw full (record {
        remembered =
            λ s later. ground (arith, k.remembered s, trim-trim window t s hits later, le, later);
        bounded = k.bounded;
      })
      | inr room ↦
          rw (room, delete_where-none _ (trim window t hits) fresh)
            (record {
              remembered = λ s later.
                  ground (arith, k.remembered s, trim-trim window t s hits later, le, later);
              bounded = λ T.
                  ground (arith, k.bounded T, k.remembered t le, count-within window T t log, room);
            })
    ]

History-IsKept :
    (limit window : ℕ) {now : ℕ} {hits : List Hit} {log : List ℕ}
    → History limit window now hits log
    → IsKept limit window now hits log
History-IsKept limit window empty = record {
  remembered = λ s later. omega arith;
  bounded = λ T. omega arith;
}
History-IsKept limit window (checked t member before le fresh) =
    checked-IsKept limit window _ t member _ _ (History-IsKept limit window before) le fresh

-- In every history of a bucket, no window of `window` milliseconds, wherever it begins, has more than
-- `limit` admitted requests. The clock of the history does not go back, and the member of a check is
-- not in the trimmed set yet.
pub count-admitted-le :
    (limit window now T : ℕ) (hits : List Hit) (log : List ℕ)
    → History limit window now hits log
    → count_where (is_within window T) log ≤ limit
count-admitted-le limit window now T hits log h = (History-IsKept limit window h).bounded T
