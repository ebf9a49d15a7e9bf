-- ===== src/Heartbeat.antt =====
-- `read_cluster_capacity` of src/server/heartbeat.py: what the gateway makes of the hashes of the
-- workers. A hash is the list of its fields, each with what `int` makes of its text; a worker id is
-- the number that orders as its text does. The prefix and the threshold are what the environment gives.
pub mod Totals
pub mod Writer
mod Tests
use Prim.Native.String.{String}
use text.Mathlib.Text.{◌==◌ as str_eq}
use neuro_voice.Prelude.{
  ℕ, zero, Bool, true, false, ◌||◌, Option, none, some, ◌>>=◌, List, [], ◌∷◌, ◌++◌, leb,
  if◌then◌else◌, length,
}
use neuro_voice.Prelude.Int.{ℤ, pos, negsuc, ◌+ℤ◌, ◌-ℤ◌, lt_ℤ}

-- none is a text that `int` refuses.
abbrev pub Fields : Type 0
Fields = List (String × Option ℤ)

pub record WorkerHash : Type 0 where
  pub worker_id : ℕ
  pub fields : Fields

abbrev pub lookup : String → Fields → Option (Option ℤ)
lookup name [] = none
lookup name ((field, value) ∷ fields) =
    let rest = lookup name fields in if str_eq field name then some value else rest

-- What `_parse_hash` returns.
pub record Parsed : Type 0 where
  pub capacity : ℤ
  pub in_flight : ℤ
  pub last_pickup_ms : ℤ
  pub started_at_ms : ℤ
  pub updated_at_ms : ℤ

-- A required field: missing and malformed are none alike.
abbrev pub required_int : String → Fields → Option ℤ
required_int name fields = elim (lookup name fields) [ none ↦ none | some value ↦ value ]

-- `updated_at_ms`, which old workers do not write.
abbrev pub updated_or : ℤ → Fields → Option ℤ
updated_or last_pickup_ms fields = elim (lookup "updated_at_ms" fields) [
  | none ↦ some last_pickup_ms
  | some value ↦ value
]

pub parse_fields : Fields → Option Parsed
parse_fields fields = do
  capacity ← required_int "capacity" fields
  in_flight ← required_int "in_flight" fields
  last_pickup_ms ← required_int "last_pickup_ms" fields
  started_at_ms ← required_int "started_at_ms" fields
  updated_at_ms ← updated_or last_pickup_ms fields
  some (record {
    capacity = capacity;
    in_flight = in_flight;
    last_pickup_ms = last_pickup_ms;
    started_at_ms = started_at_ms;
    updated_at_ms = updated_at_ms;
  })

-- `if not raw`
pub parse_hash : Fields → Option Parsed
unfolding parse_fields
parse_hash [] = none
parse_hash (f ∷ fs) = parse_fields (f ∷ fs)

-- The variables of the loop.
pub record Tally : Type 0 where
  pub total_capacity : ℤ
  pub total_inflight : ℤ
  pub healthy_ids : List ℕ
  pub max_pickup_ms : Option ℤ

abbrev pub no_tally : Tally
no_tally = record {
  total_capacity = pos 0;
  total_inflight = pos 0;
  healthy_ids = [];
  max_pickup_ms = none;
}

abbrev pub later_pickup : ℤ → Option ℤ → Option ℤ
later_pickup pickup none = some pickup
later_pickup pickup (some m) = if lt_ℤ m pickup then some pickup else some m

abbrev pub counted : ℕ → Parsed → Tally → Tally
counted worker_id p s = record {
  total_capacity = s.total_capacity +ℤ p.capacity;
  total_inflight = s.total_inflight +ℤ p.in_flight;
  healthy_ids = s.healthy_ids ++ worker_id ∷ [];
  max_pickup_ms = later_pickup p.last_pickup_ms s.max_pickup_ms;
}

-- One turn of the loop: a malformed or stale hash is skipped.
pub count_worker : ℤ → WorkerHash → Tally → Tally
unfolding parse_hash
count_worker cutoff_ms w s = elim (parse_hash w.fields) [
  | none ↦ s
  | some p ↦ if lt_ℤ p.updated_at_ms cutoff_ms then s else counted w.worker_id p s
]

pub count_workers : ℤ → List WorkerHash → Tally → Tally
unfolding count_worker
count_workers cutoff_ms [] s = s
count_workers cutoff_ms (w ∷ ws) s = count_workers cutoff_ms ws (count_worker cutoff_ms w s)

-- `sorted`
abbrev pub insert : ℕ → List ℕ → List ℕ
insert x [] = x ∷ []
insert x (y ∷ ys) = let rest = insert x ys in if leb x y then x ∷ y ∷ ys else y ∷ rest

abbrev pub sorted : List ℕ → List ℕ
sorted [] = []
sorted (x ∷ xs) = insert x (sorted xs)

-- `ClusterCapacity`
pub record ClusterCapacity : Type 0 where
  pub total_capacity : ℤ
  pub total_inflight : ℤ
  pub worker_count : ℕ
  pub healthy_worker_ids : List ℕ
  pub last_pickup_max_age_ms : Option ℤ

abbrev pub max_0 : ℤ → ℤ
max_0 (pos n) = pos n
max_0 (negsuc n) = pos 0

abbrev pub last_age : ℤ → Option ℤ → Option ℤ
last_age now none = none
last_age now (some m) = some (max_0 (now -ℤ m))

abbrev pub is_empty : List ℕ → Bool
is_empty [] = true
is_empty (x ∷ xs) = false

abbrev pub capacity_of : ℤ → Tally → ClusterCapacity
capacity_of now s =
    if is_empty s.healthy_ids
    then record {
      total_capacity = pos 0;
      total_inflight = pos 0;
      worker_count = 0;
      healthy_worker_ids = [];
      last_pickup_max_age_ms = none;
    }
    else record {
      total_capacity = s.total_capacity;
      total_inflight = s.total_inflight;
      worker_count = length s.healthy_ids;
      healthy_worker_ids = sorted s.healthy_ids;
      last_pickup_max_age_ms = last_age now s.max_pickup_ms;
    }

-- The hashes in the order in which SCAN returns their keys.
pub read_cluster_capacity : ℤ → ℤ → List WorkerHash → ClusterCapacity
unfolding count_workers
read_cluster_capacity now stale_ms ws =
    capacity_of now (count_workers (now -ℤ stale_ms) ws no_tally)
