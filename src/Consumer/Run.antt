-- ===== src/Consumer/Run.antt =====
-- `run` of src/worker/consumer.py. Each turn of the loop has what it meets: the stop event, the read,
-- the two handlings, the entry that XAUTOCLAIM picks, and the clock before and after the sweep.
use neuro_voice.Prelude.{
  ℕ, suc, ◌+◌, ◌-◌, ◌<◌, ◌≤◌, ◌≡◌, inl, inr, refl, Bool, true, false, ◌&&◌, ◌||◌, not, Option, none,
  some, List, [], ◌∷◌, leb, if◌then◌else◌, length, arith, Bool-cases,
}
use neuro_voice.Consumer.{Pending, Handling, Consumer, tick, xautoclaim_sweep}

pub record Turn : Type 0 where
  pub stop_before : Bool
  pub read_fails : Bool
  pub handling : Handling
  pub stop_after : Bool
  pub now : ℕ
  pub claim : Consumer → Option Pending
  pub claim_handling : Handling
  pub swept_at : ℕ

-- How the coroutine ends: the stop event, `max_iterations`, or an exception of the sweep, which `run`
-- does not catch. `running` is that no turn is left to see.
pub data RunEnd : Type 0 where
  stopped exhausted escaped running : RunEnd

abbrev pub is_exhausted : Option ℕ → ℕ → Bool
is_exhausted none iters = false
is_exhausted (some max_iterations) iters = leb max_iterations iters

-- The consumer at the end, and the number of the ticks.
pub run : Option ℕ → ℕ → List Turn → ℕ → ℕ → Consumer → RunEnd × Consumer × ℕ
run max_iterations period [] iters last c = (running, c, iters)
run max_iterations period (t ∷ ts) iters last c =
    let next = run max_iterations period ts (suc iters) in
    let (read, c', raised) = tick t.read_fails t.handling c in
    let handled = read && not raised in
    let (swept, sweep_raised) = xautoclaim_sweep (t.claim c') t.claim_handling c' in
    if t.stop_before
    then (stopped, c, iters)
    else if is_exhausted max_iterations iters
    then (exhausted, c, iters)
    else if t.stop_after
    then (stopped, c', suc iters)
    else if not handled || leb period (t.now - last)
    then if sweep_raised then (escaped, swept, suc iters) else next t.swept_at swept
    else next last c'

-- The coroutine has returned or raised.
abbrev pub is_over : RunEnd → Bool
is_over running = false
is_over _ = true

-- It is over, after at most `max_iterations` calls of `_tick`.
abbrev pub EndsWithin : ℕ → RunEnd × Consumer × ℕ → Type 0
EndsWithin max_iterations (end, c, iters) = (is_over end ≡ true) × (iters ≤ max_iterations)

-- With `max_iterations` the loop is over after at most one turn more, whatever the turns meet, and
-- it has called `_tick` at most that often.
pub run_terminates :
    (max_iterations period : ℕ) (turns : List Turn) (iters last : ℕ) (c : Consumer)
    → iters ≤ max_iterations
    → max_iterations < length turns + iters
    → EndsWithin max_iterations (run (some max_iterations) period turns iters last c)
unfolding run
run_terminates m period [] iters last c le more = ground (arith, le, more)
run_terminates m period (t ∷ ts) iters last c le more = elim (Bool-cases t.stop_before) [
  | inl a ↦ rw a (refl, le)
  | inr a ↦ elim (Bool-cases (leb m iters)) [
    | inl b ↦ rw (a, b) (refl, le)
    | inr b ↦
        let on : (last' : ℕ) (c' : Consumer)
            → EndsWithin m (run (some m) period ts (suc iters) last' c') =
          λ last' c'.
            run_terminates m period ts (suc iters) last' c' (ground (arith, b))
              (ground (arith, more)) in
        let counted : suc iters ≤ m = ground (arith, b) in
        let (read, c', raised) = tick t.read_fails t.handling c in
        let (swept, sweep_raised) = xautoclaim_sweep (t.claim c') t.claim_handling c' in
        elim (Bool-cases t.stop_after) [
          | inl d ↦ rw (a, b, d) (refl, counted)
          | inr d ↦ elim (Bool-cases (not (read && not raised) || leb period (t.now - last))) [
            | inr e ↦ rw (a, b, d, e) (on last c')
            | inl e ↦ elim (Bool-cases sweep_raised) [
              | inl f ↦ rw (a, b, d, e, f) (refl, counted)
              | inr f ↦ rw (a, b, d, e, f) (on t.swept_at swept)
            ]
          ]
        ]
  ]
]
