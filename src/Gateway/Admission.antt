-- ===== src/Gateway/Admission.antt =====
-- `_compute_backpressure_decision` of src/server/main.py.
use neuro_voice.Prelude.{
  ℕ, ◌⊎◌, ◌≤◌, ◌≡◌, ◌↔◌, Bool, true, false, ◌&&◌, Option, none, some, ltb, leb, if◌then◌else◌,
  arith, inl, inr, Bool-cases, refl,
}
use neuro_voice.Prelude.Int.{ℤ, pos, ◌+ℤ◌, ◌-ℤ◌, le_ℤ}
use neuro_voice.Heartbeat.{ClusterCapacity}

-- `(True, None, {})`, or the reason of a refusal with its payload.
pub data Decision : Type 0 where
  admit : Decision
  capacity_exhausted : ℕ → ℕ → ClusterCapacity → Decision
  queue_depth_limit : ℕ → ℕ → Decision

abbrev pub headroom : ClusterCapacity → ℤ
headroom c = c.total_capacity -ℤ c.total_inflight

-- The fallback to the depth alone.
abbrev pub by_depth : ℕ → ℕ → Decision
by_depth limit depth = if leb depth limit then admit else queue_depth_limit depth limit

-- Workers are healthy.
abbrev pub by_capacity : ℕ → ℕ → ClusterCapacity → Decision
by_capacity limit depth c =
    if le_ℤ (pos 0) (headroom c)
      && leb depth limit
      && le_ℤ (pos depth) (headroom c +ℤ c.total_capacity)
    then admit
    else capacity_exhausted depth limit c

-- The limit is QUEUE_DEPTH_BACKPRESSURE; none is a `read_cluster_capacity` that raises.
pub compute_backpressure_decision : ℕ → ℕ → Option ClusterCapacity → Decision
compute_backpressure_decision limit depth none = by_depth limit depth
compute_backpressure_decision limit depth (some c) =
    if ltb 0 c.worker_count then by_capacity limit depth c else by_depth limit depth

-- No healthy worker reported, or those that did have room for the backlog.
abbrev pub HasRoom : ℕ → Option ClusterCapacity → Type 0
HasRoom depth none = Unit
HasRoom depth (some c) =
    (c.worker_count ≡ 0)
    ⊎ ((le_ℤ (pos 0) (headroom c) ≡ true)
        × (le_ℤ (pos depth) (headroom c +ℤ c.total_capacity) ≡ true))

by_depth_lem : (limit depth : ℕ) → (by_depth limit depth ≡ admit) ↔ (depth ≤ limit)
by_depth_lem limit depth = elim (Bool-cases (leb depth limit)) [
  | inl e ↦ (λ p. ground (arith, e), λ p. ground (arith, e))
  | inr e ↦ (λ p. ground (arith, e, p), λ p. ground (arith, e, p))
]

by_capacity_lem :
    (limit depth : ℕ) (c : ClusterCapacity)
    → (by_capacity limit depth c ≡ admit) ↔ (
        (depth ≤ limit)
        × (le_ℤ (pos 0) (headroom c) ≡ true)
        × (le_ℤ (pos depth) (headroom c +ℤ c.total_capacity) ≡ true))
by_capacity_lem limit depth c =
    of_tests (le_ℤ (pos 0) (headroom c)) (le_ℤ (pos depth) (headroom c +ℤ c.total_capacity))
  where
    of_tests :
        (a b : Bool)
        → ((if◌then◌else◌ {A = Decision}
              (a && leb depth limit && b)
              admit
              (capacity_exhausted depth limit c))
            ≡ admit)
          ↔ ((depth ≤ limit) × (a ≡ true) × (b ≡ true))
    of_tests true true = (λ p. (ground (arith, p), refl, refl), λ p. ground (arith, p))
    of_tests true false = (λ p. ground (arith, p), λ p. ground (arith, p))
    of_tests false b = (λ p. ground (arith, p), λ p. ground (arith, p))

-- A submission is admitted exactly when the backlog is within the limit and either no healthy
-- worker reported, or no more jobs are in flight than the workers' capacity and the backlog is within
-- the free capacity and the whole capacity together.
pub compute_backpressure_decision_lem :
    (limit depth : ℕ) (cluster : Option ClusterCapacity)
    → (compute_backpressure_decision limit depth cluster ≡ admit)
      ↔ ((depth ≤ limit) × HasRoom depth cluster)
unfolding compute_backpressure_decision
compute_backpressure_decision_lem limit depth none =
    (λ p. ((by_depth_lem limit depth).0 p, tt), λ p. (by_depth_lem limit depth).1 p.0)
compute_backpressure_decision_lem limit depth (some c) = elim (Bool-cases (ltb 0 c.worker_count)) [
  | inl e ↦ rw e (
    λ p. let (le, a, b) = (by_capacity_lem limit depth c).0 p in (le, inr (a, b)),
    λ (le, room). elim room [
      | inl idle ↦ ground (arith, e, idle)
      | inr (a, b) ↦ (by_capacity_lem limit depth c).1 (le, a, b)
    ],
  )
  | inr e ↦ rw e (
    λ p. ((by_depth_lem limit depth).0 p, inl (ground (arith, e))),
    λ p. (by_depth_lem limit depth).1 p.0,
  )
]
