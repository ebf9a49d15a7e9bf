-- ===== src/RateLimit/Wait.antt =====
-- The `retry_after_ms` of src/server/rate_limit.py against the clock of the next check.
use neuro_voice.Prelude.{
  ap, ℕ, ◌+◌, ◌<◌, ◌≤◌, ◌≡◌, ◌↔◌, inl, inr, refl, Bool, true, false, none, some, List, [], ◌∷◌, leb,
  ◌==◌, if◌then◌else◌, length, delete_where, arith, Option-cases, Bool-cases,
}
use neuro_voice.RateLimit.{Hit, trim, oldest, RateLimitResult, retry_ms, sliding_window, zadd}

oldest-none : (hits : List Hit) → oldest hits ≡ none → hits ≡ []
unfolding oldest
oldest-none [] e = refl
oldest-none (h ∷ hs) e = elim (Option-cases (oldest hs)) [
  | inl empty ↦ ground (arith, e, empty)
  | inr (r, f) ↦ ground (arith, e, f)
]

length-trim-le : (window t : ℕ) (hits : List Hit) → length (trim window t hits) ≤ length hits
length-trim-le window t [] = omega arith
length-trim-le window t (h ∷ hs) = ground (arith, length-trim-le window t hs)

-- Trimming drops an element exactly when the oldest one has left the window.
length-trim-lt :
    (window t s : ℕ) (hits : List Hit)
    → oldest hits ≡ some s
    → (length (trim window t hits) < length hits) ↔ (s + window ≤ t)
unfolding oldest
length-trim-lt window t s [] e = ground arith
length-trim-lt window t s (h ∷ hs) e = elim (Option-cases (oldest hs)) [
  | inl empty ↦
      let nil = oldest-none hs empty in
      (λ p. ground (arith, e, empty, nil, p), λ p. ground (arith, e, empty, nil, p))
  | inr (r, f) ↦
      let ih = length-trim-lt window t r hs f in
      (
        λ p. ground (arith, length-trim-le window t hs, ih, e, f, p),
        λ p. ground (arith, length-trim-le window t hs, ih, e, f, p),
      )
]

oldest-trim :
    (window now s : ℕ) (hits : List Hit) → oldest (trim window now hits) ≡ some s → now < s + window
unfolding oldest
oldest-trim window now s [] e = ground (arith, e)
oldest-trim window now s (h ∷ hs) e = elim (Bool-cases (leb (h.score + window) now)) [
  | inl expired ↦ oldest-trim window now s hs (ground (arith, e, expired))
  | inr fresh ↦ elim (Option-cases (oldest (trim window now hs))) [
    | inl empty ↦ ground (arith, e, fresh, empty)
    | inr (r, f) ↦ ground (arith, e, fresh, f, oldest-trim window now r hs f)
  ]
]

-- The limiter's answer in the terms of its list.
denied_list :
    (limit window now member : ℕ) (hits : List Hit)
    → (sliding_window limit window now member hits).0.allowed ≡ false
    → (limit ≤ length (trim window now hits))
      × ((sliding_window limit window now member hits).1 ≡ trim window now hits)
      × ((sliding_window limit window now member hits).0.retry_after_ms
          ≡ retry_ms window now (oldest (trim window now hits)))
unfolding sliding_window
denied_list limit window now member hits e =
    by_tests (leb limit (length (trim window now hits))) refl e
  where
    T : Type 0
    T = RateLimitResult × List Hit

    k : List Hit
    k = trim window now hits

    by_tests :
        (b : Bool)
        → leb limit (length k) ≡ b
        → (if◌then◌else◌ {A = T} b
            (
              record {
                allowed = false;
                count = length k;
                retry_after_ms = retry_ms window now (oldest k);
              },
              k,
            )
            (
              record { allowed = true; count = length k + 1; retry_after_ms = 0 },
              zadd now member k,
            )).0.allowed
          ≡ false
        → (limit ≤ length k)
          × ((if◌then◌else◌ {A = T} b
                (
                  record {
                    allowed = false;
                    count = length k;
                    retry_after_ms = retry_ms window now (oldest k);
                  },
                  k,
                )
                (
                  record { allowed = true; count = length k + 1; retry_after_ms = 0 },
                  zadd now member k,
                )).1
              ≡ k)
          × ((if◌then◌else◌ {A = T} b
                (
                  record {
                    allowed = false;
                    count = length k;
                    retry_after_ms = retry_ms window now (oldest k);
                  },
                  k,
                )
                (
                  record { allowed = true; count = length k + 1; retry_after_ms = 0 },
                  zadd now member k,
                )).0.retry_after_ms
              ≡ retry_ms window now (oldest k))
    by_tests true f _ = (ground (arith, f), refl, refl)
    by_tests false f g = ground (arith, g)

allowed_at :
    (limit window t member : ℕ) (hits : List Hit)
    → ((sliding_window limit window t member hits).0.allowed ≡ true)
      ↔ (length (trim window t hits) < limit)
unfolding sliding_window
allowed_at limit window t member hits =
    elim (Bool-cases (leb limit (length (trim window t hits)))) [
      | inl e ↦ rw e (λ p. ground (arith, p, e), λ p. ground (arith, p, e))
      | inr e ↦ rw e (λ p. ground (arith, p, e), λ p. ground (arith, p, e))
    ]

length_nil : (hits : List Hit) → hits ≡ [] → length hits ≡ 0
length_nil hits e = ap length e

length-delete_where :
    (t : Hit → Bool) (hits : List Hit) → length (delete_where t hits) ≤ length hits
length-delete_where t [] = omega arith
length-delete_where t (h ∷ hs) = elim (Bool-cases (t h)) [
  | inl e ↦ ground (arith, e, length-delete_where t hs)
  | inr e ↦ ground (arith, e, length-delete_where t hs)
]

-- The set never holds more than `limit` entries, whatever the clock says.
pub length-sliding_window-le :
    (limit window now member : ℕ) (hits : List Hit)
    → length hits ≤ limit
    → length (sliding_window limit window now member hits).1 ≤ limit
unfolding sliding_window zadd
length-sliding_window-le limit window now member hits le =
    elim (Bool-cases (leb limit (length (trim window now hits)))) [
      | inl e ↦ rw e (ground (arith, length-trim-le window now hits))
      | inr e ↦
          rw e (
            ground (arith, e, length-delete_where (λ h. h.member == member) (trim window now hits)))
    ]

-- After a denial, a check of the same bucket with no other check between is allowed at exactly the
-- times from `retry_after_ms` on; the set held at most `limit` entries.
pub retry_after-exact :
    (limit window now member t next : ℕ) (hits : List Hit)
    → 0 < limit
    → length hits ≤ limit
    → now ≤ t
    → (sliding_window limit window now member hits).0.allowed ≡ false
    → ((sliding_window limit window t next
          (sliding_window limit window now member hits).1).0.allowed
        ≡ true)
      ↔ (now + (sliding_window limit window now member hits).0.retry_after_ms ≤ t)
retry_after-exact limit window now member t next hits pos le later denied =
    let (full, same, wait) = denied_list limit window now member hits denied in
    rw (same, wait)
      (elim (Option-cases (oldest (trim window now hits))) [
        | inl empty ↦
            let nil = oldest-none (trim window now hits) empty in
            let short = length_nil (trim window now hits) nil in
            (λ p. ground (arith, full, short), λ p. ground (arith, full, short))
        | inr (s, f) ↦
            let at = allowed_at limit window t next (trim window now hits) in
            let fewer = length-trim-lt window t s (trim window now hits) f in
            let small = length-trim-le window now hits in
            let fresh = oldest-trim window now s hits f in
            rw f (
              λ p. ground (arith, at, fewer, small, full, fresh, p),
              λ p. ground (arith, at, fewer, small, full, fresh, p),
            )
      ])
