-- ===== src/RateLimit.antt =====
-- The sliding-window limiter of src/server/rate_limit.py: the Lua script and `RateLimiter.check`. The
-- sorted set of a bucket is a list of entries. PEXPIRE drops a set only when each of its entries has
-- left the window, which the next check would trim anyway, so it does not stand in the model.
pub mod Wait
pub mod Window
mod Tests
use neuro_voice.Prelude.{
  ℕ, suc, ◌+◌, ◌-◌, ◌<◌, max, Bool, true, false, not, Option, none, some, List, [], ◌∷◌, ltb, leb,
  ◌==◌, if◌then◌else◌, length, delete_where,
}

-- An element of the sorted set. A member is a unique id.
pub record Hit : Type 0 where
  pub score : ℕ
  pub member : ℕ

-- ZREMRANGEBYSCORE from 0 to now - window
abbrev pub is_expired : ℕ → ℕ → Hit → Bool
is_expired window now h = leb (h.score + window) now

abbrev pub trim : ℕ → ℕ → List Hit → List Hit
trim window now = delete_where (is_expired window now)

-- ZRANGE 0 0: the least score.
pub oldest : List Hit → Option ℕ
oldest [] = none
oldest (h ∷ hs) = elim (oldest hs) [
  | none ↦ some h.score
  | some s ↦ some (if leb h.score s then h.score else s)
]

-- ZADD: an element of the same member takes the new score.
pub zadd : ℕ → ℕ → List Hit → List Hit
zadd now member hits =
    record { score = now; member = member } ∷ delete_where (λ h. h.member == member) hits

-- `RateLimitResult`
pub record RateLimitResult : Type 0 where
  pub allowed : Bool
  pub count : ℕ
  pub retry_after_ms : ℕ

abbrev pub retry_ms : ℕ → ℕ → Option ℕ → ℕ
retry_ms window now none = max 1 (0 + window - now)
retry_ms window now (some s) = max 1 (s + window - now)

-- SLIDING_WINDOW_LUA
unfoldable pub sliding_window : ℕ → ℕ → ℕ → ℕ → List Hit → RateLimitResult × List Hit
unfolding oldest zadd
sliding_window limit window now member hits =
    let kept = trim window now hits in
    if leb limit (length kept)
    then (
      record {
        allowed = false;
        count = length kept;
        retry_after_ms = retry_ms window now (oldest kept);
      },
      kept,
    )
    else (
      record { allowed = true; count = length kept + 1; retry_after_ms = 0 },
      zadd now member kept,
    )

-- `check`; none is a ValueError.
unfoldable pub check : ℕ → ℕ → ℕ → ℕ → List Hit → Option (RateLimitResult × List Hit)
unfolding sliding_window
check limit window now member hits =
    if limit == 0
    then none
    else if window == 0
    then none
    else some (sliding_window limit window now member hits)
