-- ===== src/Heartbeat/Totals.antt =====
-- The totals of src/server/heartbeat.py against the list of the healthy workers.
use mathlib.Core.List.{filter_map, Permᴰ}
use mathlib.Core.List.Permᴰ.{filter_map as perm_filter_map}
use mathlib.Core.List.{append_assoc, append-nil}
use neuro_voice.Prelude.{
  ℕ, suc, ◌≡◌, inl, inr, refl, sym, ap, ◌∙◌, false, Option, none, some, List, [], ◌∷◌, ◌++◌, map,
  if◌then◌else◌, length, arith, Option-cases, Bool-cases,
}
use neuro_voice.Prelude.Int.{ℤ, pos, negsuc, ◌+ℤ◌, ◌-ℤ◌, lt_ℤ, +ℤ_comm, +ℤ_assoc, zero_+ℤ}
use neuro_voice.Heartbeat.{
  WorkerHash, Parsed, parse_hash, Tally, no_tally, later_pickup, counted, count_worker,
  count_workers, insert, sorted, ClusterCapacity, last_age, capacity_of, read_cluster_capacity,
}

insert_comm : (x y : ℕ) (l : List ℕ) → insert x (insert y l) ≡ insert y (insert x l)
insert_comm x y [] = ground arith
insert_comm x y (z ∷ l) = ground (arith, insert_comm x y l)

sorted-append_one : (x : ℕ) (l : List ℕ) → sorted (l ++ x ∷ []) ≡ insert x (sorted l)
sorted-append_one x [] = refl
sorted-append_one x (y ∷ l) = ap (insert y) (sorted-append_one x l) ∙ insert_comm y x (sorted l)

lt_ℤ-trichotomy : (a b : ℤ) → lt_ℤ a b ≡ false → lt_ℤ b a ≡ false → a ≡ b
lt_ℤ-trichotomy (pos m) (pos n) f g = ap pos (ground (arith, f, g))
lt_ℤ-trichotomy (pos m) (negsuc n) f g = ground (arith, f, g)
lt_ℤ-trichotomy (negsuc m) (pos n) f g = ground (arith, f, g)
lt_ℤ-trichotomy (negsuc m) (negsuc n) f g = ap negsuc (ground (arith, f, g))

later_pickup_comm :
    (a b : ℤ) (m : Option ℤ) → later_pickup a (later_pickup b m) ≡ later_pickup b (later_pickup a m)
later_pickup_comm (pos a) (pos b) none = ground arith
later_pickup_comm (pos a) (negsuc b) none = ground arith
later_pickup_comm (negsuc a) (pos b) none = ground arith
later_pickup_comm (negsuc a) (negsuc b) none = ground arith
later_pickup_comm (pos a) (pos b) (some (pos m)) = ground arith
later_pickup_comm (pos a) (negsuc b) (some (pos m)) = ground arith
later_pickup_comm (negsuc a) (pos b) (some (pos m)) = ground arith
later_pickup_comm (negsuc a) (negsuc b) (some (pos m)) = ground arith
later_pickup_comm (pos a) (pos b) (some (negsuc m)) = ground arith
later_pickup_comm (pos a) (negsuc b) (some (negsuc m)) = ground arith
later_pickup_comm (negsuc a) (pos b) (some (negsuc m)) = ground arith
later_pickup_comm (negsuc a) (negsuc b) (some (negsuc m)) = ground arith

-- The workers that count: their hash parses and is not older than the cutoff.
unfoldable pub as_healthy : ℤ → WorkerHash → Option (ℕ × Parsed)
as_healthy cutoff_ms w = elim (parse_hash w.fields) [
  | none ↦ none
  | some p ↦ if lt_ℤ p.updated_at_ms cutoff_ms then none else some (w.worker_id, p)
]

abbrev pub healthy : ℤ → List WorkerHash → List (ℕ × Parsed)
healthy cutoff_ms = filter_map (as_healthy cutoff_ms)

abbrev pub fold_right {ℓ κ} : {A : Type ℓ} {B : Type κ} → (A → B → B) → B → List A → B
fold_right f b [] = b
fold_right f b (x ∷ xs) = f x (fold_right f b xs)

abbrev pub sum_of : (ℕ × Parsed → ℤ) → List (ℕ × Parsed) → ℤ
sum_of f = fold_right (λ w sum. f w +ℤ sum) (pos 0)

abbrev pub latest_pickup : List (ℕ × Parsed) → Option ℤ
latest_pickup = fold_right (λ w latest. later_pickup w.1.last_pickup_ms latest) none

abbrev pub sorted_ids : List (ℕ × Parsed) → List ℕ
sorted_ids = fold_right (λ w ids. insert w.0 ids) []

-- The tally that the healthy workers add to another one.
abbrev totals : List (ℕ × Parsed) → Tally → Tally
totals [] s = s
totals (w ∷ ws) s = totals ws (counted w.0 w.1 s)

count_workers-healthy :
    (cutoff_ms : ℤ) (ws : List WorkerHash) (s : Tally)
    → count_workers cutoff_ms ws s ≡ totals (healthy cutoff_ms ws) s
unfolding count_workers count_worker as_healthy filter_map
count_workers-healthy cutoff_ms [] s = refl
count_workers-healthy cutoff_ms (w ∷ ws) s = elim (Option-cases (parse_hash w.fields)) [
  | inl e ↦
      rw (e, count_workers, count_worker, as_healthy, filter_map)
        (count_workers-healthy cutoff_ms ws s)
  | inr (p, e) ↦ elim (Bool-cases (lt_ℤ p.updated_at_ms cutoff_ms)) [
    | inl stale ↦
        rw (e, stale, count_workers, count_worker, as_healthy, filter_map)
          (count_workers-healthy cutoff_ms ws s)
    | inr fresh ↦
        rw (e, fresh, count_workers, count_worker, as_healthy, filter_map)
          (count_workers-healthy cutoff_ms ws (counted w.worker_id p s))
  ]
]

totals-capacity :
    (ws : List (ℕ × Parsed)) (s : Tally)
    → (totals ws s).total_capacity ≡ s.total_capacity +ℤ sum_of (λ w. w.1.capacity) ws
totals-capacity [] s = sym (zero_+ℤ s.total_capacity) ∙ +ℤ_comm (pos 0) s.total_capacity
totals-capacity (w ∷ ws) s =
    totals-capacity ws (counted w.0 w.1 s)
    ∙ +ℤ_assoc s.total_capacity w.1.capacity (sum_of (λ w. w.1.capacity) ws)

totals-inflight :
    (ws : List (ℕ × Parsed)) (s : Tally)
    → (totals ws s).total_inflight ≡ s.total_inflight +ℤ sum_of (λ w. w.1.in_flight) ws
totals-inflight [] s = sym (zero_+ℤ s.total_inflight) ∙ +ℤ_comm (pos 0) s.total_inflight
totals-inflight (w ∷ ws) s =
    totals-inflight ws (counted w.0 w.1 s)
    ∙ +ℤ_assoc s.total_inflight w.1.in_flight (sum_of (λ w. w.1.in_flight) ws)

totals-ids :
    (ws : List (ℕ × Parsed)) (s : Tally)
    → (totals ws s).healthy_ids ≡ s.healthy_ids ++ map (λ w. w.0) ws
totals-ids [] s = sym (append-nil s.healthy_ids)
totals-ids (w ∷ ws) s =
    totals-ids ws (counted w.0 w.1 s) ∙ append_assoc s.healthy_ids (w.0 ∷ []) (map (λ w. w.0) ws)

abbrev latest_after : List (ℕ × Parsed) → Option ℤ → Option ℤ
latest_after [] m = m
latest_after (w ∷ ws) m = later_pickup w.1.last_pickup_ms (latest_after ws m)

latest_after_step :
    (ws : List (ℕ × Parsed)) (a : ℤ) (m : Option ℤ)
    → latest_after ws (later_pickup a m) ≡ later_pickup a (latest_after ws m)
latest_after_step [] a m = refl
latest_after_step (w ∷ ws) a m =
    ap (later_pickup w.1.last_pickup_ms) (latest_after_step ws a m)
    ∙ later_pickup_comm w.1.last_pickup_ms a (latest_after ws m)

totals-pickup :
    (ws : List (ℕ × Parsed)) (s : Tally)
    → (totals ws s).max_pickup_ms ≡ latest_after ws s.max_pickup_ms
totals-pickup [] s = refl
totals-pickup (w ∷ ws) s =
    totals-pickup ws (counted w.0 w.1 s) ∙ latest_after_step ws w.1.last_pickup_ms s.max_pickup_ms

latest_after-none : (ws : List (ℕ × Parsed)) → latest_after ws none ≡ latest_pickup ws
latest_after-none [] = refl
latest_after-none (w ∷ ws) = ap (later_pickup w.1.last_pickup_ms) (latest_after-none ws)

sorted-map : (ws : List (ℕ × Parsed)) → sorted (map (λ w. w.0) ws) ≡ sorted_ids ws
sorted-map [] = refl
sorted-map (w ∷ ws) = ap (insert w.0) (sorted-map ws)

length-map : (ws : List (ℕ × Parsed)) → length (map (λ w. w.0) ws) ≡ length ws
length-map [] = refl
length-map (w ∷ ws) = ap suc (length-map ws)

-- The report from the healthy workers.
abbrev pub report : ℤ → List (ℕ × Parsed) → ClusterCapacity
report now ws = record {
  total_capacity = sum_of (λ w. w.1.capacity) ws;
  total_inflight = sum_of (λ w. w.1.in_flight) ws;
  worker_count = length ws;
  healthy_worker_ids = sorted_ids ws;
  last_pickup_max_age_ms = last_age now (latest_pickup ws);
}

capacity_of-report :
    (now : ℤ) (w : ℕ × Parsed) (ws : List (ℕ × Parsed)) (s : Tally)
    → s.total_capacity ≡ sum_of (λ w. w.1.capacity) (w ∷ ws)
    → s.total_inflight ≡ sum_of (λ w. w.1.in_flight) (w ∷ ws)
    → s.healthy_ids ≡ map (λ w. w.0) (w ∷ ws)
    → s.max_pickup_ms ≡ latest_pickup (w ∷ ws)
    → capacity_of now s ≡ report now (w ∷ ws)
capacity_of-report now w ws s a b c d = rw (c, a, b, d, length-map ws, sorted-map ws) refl

capacity_of-totals :
    (now : ℤ) (ws : List (ℕ × Parsed)) → capacity_of now (totals ws no_tally) ≡ report now ws
capacity_of-totals now [] = refl
capacity_of-totals now (w ∷ ws) =
    capacity_of-report now w ws (totals (w ∷ ws) no_tally)
      (totals-capacity (w ∷ ws) no_tally ∙ zero_+ℤ (sum_of (λ w. w.1.capacity) (w ∷ ws)))
      (totals-inflight (w ∷ ws) no_tally ∙ zero_+ℤ (sum_of (λ w. w.1.in_flight) (w ∷ ws)))
      (totals-ids (w ∷ ws) no_tally) (totals-pickup (w ∷ ws) no_tally ∙ latest_after-none (w ∷ ws))

-- The gateway's report is the one that the healthy workers make: the sums of their capacities and of
-- their jobs in flight, their number, their ids in order, and the age of the latest pickup. A hash
-- that does not parse, or whose `updated_at_ms` (`last_pickup_ms` on an old worker) is older than
-- the threshold, adds nothing, and with no healthy worker the report is all zeros.
pub read_cluster_capacity_lem :
    (now stale_ms : ℤ) (ws : List WorkerHash)
    → read_cluster_capacity now stale_ms ws ≡ report now (healthy (now -ℤ stale_ms) ws)
unfolding read_cluster_capacity
read_cluster_capacity_lem now stale_ms ws =
    ap (capacity_of now) (count_workers-healthy (now -ℤ stale_ms) ws no_tally)
    ∙ capacity_of-totals now (healthy (now -ℤ stale_ms) ws)

-- A fold whose steps commute does not see the order.
fold_right_perm {ℓ κ} :
    {A : Type ℓ} {B : Type κ} (f : A → B → B) (b : B)
    → ((x y : A) (c : B) → f x (f y c) ≡ f y (f x c))
    → {xs ys : List A} → Permᴰ xs ys
    → fold_right f b xs ≡ fold_right f b ys
fold_right_perm f b comm Permᴰ.nil = refl
fold_right_perm f b comm (Permᴰ.cons {a = x} {l₂ = l₂} e d) =
    ap (f x) (fold_right_perm f b comm d) ∙ ap (λ z. f z (fold_right f b l₂)) e
fold_right_perm f b comm (Permᴰ.swap {a = x} {b = y} {l = l} e₁ e₂) =
    comm x y (fold_right f b l) ∙ rw (e₁, e₂) refl
fold_right_perm f b comm (Permᴰ.trans d₁ d₂) =
    fold_right_perm f b comm d₁ ∙ fold_right_perm f b comm d₂

+ℤ_left_comm : (a b c : ℤ) → a +ℤ (b +ℤ c) ≡ b +ℤ (a +ℤ c)
+ℤ_left_comm a b c = sym (+ℤ_assoc a b c) ∙ ap (λ x. x +ℤ c) (+ℤ_comm a b) ∙ +ℤ_assoc b a c

length_fold : (ws : List (ℕ × Parsed)) → length ws ≡ fold_right (λ w n. suc n) 0 ws
length_fold [] = refl
length_fold (w ∷ ws) = ap suc (length_fold ws)

report_perm : (now : ℤ) {ws ws' : List (ℕ × Parsed)} → Permᴰ ws ws' → report now ws ≡ report now ws'
report_perm now {ws} {ws'} p =
    rw
      (
        fold_right_perm (λ w sum. w.1.capacity +ℤ sum) (pos 0)
            (λ x y. +ℤ_left_comm x.1.capacity y.1.capacity) p,
        fold_right_perm (λ w sum. w.1.in_flight +ℤ sum) (pos 0)
            (λ x y. +ℤ_left_comm x.1.in_flight y.1.in_flight) p,
        length_fold ws ∙ fold_right_perm (λ w n. suc n) 0 (λ x y n. refl) p ∙ sym (length_fold ws'),
        fold_right_perm (λ w ids. insert w.0 ids) [] (λ x y. insert_comm x.0 y.0) p,
        fold_right_perm (λ w m. later_pickup w.1.last_pickup_ms m) none
            (λ x y. later_pickup_comm x.1.last_pickup_ms y.1.last_pickup_ms) p,
      )
      refl

-- The report does not depend on the order in which SCAN returns the keys.
pub read_cluster_capacity_perm :
    (now stale_ms : ℤ) (ws ws' : List WorkerHash)
    → Permᴰ ws ws'
    → read_cluster_capacity now stale_ms ws ≡ read_cluster_capacity now stale_ms ws'
read_cluster_capacity_perm now stale_ms ws ws' p =
    read_cluster_capacity_lem now stale_ms ws
    ∙ report_perm now (perm_filter_map (as_healthy (now -ℤ stale_ms)) p)
    ∙ sym (read_cluster_capacity_lem now stale_ms ws')
