-- ===== src/Heartbeat/Writer.antt =====
-- The worker's side, src/worker/heartbeat.py: `_write_once` and the loop of `start_heartbeat_loop`.
-- The key of a worker is its hash, which is empty where the key is absent, and its expiry.
use Prim.Native.String.{String}
use text.Mathlib.Text.{◌==◌ as str_eq}
use neuro_voice.Prelude.{ℕ, ◌+◌, Bool, Option, none, some, List, [], ◌∷◌, if◌then◌else◌, leb}
use neuro_voice.Prelude.Int.{ℤ, pos}
use neuro_voice.Heartbeat.{Fields, Parsed}

-- `WorkerHeartbeatState`
pub record WorkerHeartbeatState : Type 0 where
  pub capacity : ℤ
  pub in_flight : ℤ
  pub last_pickup_ms : ℤ
  pub started_at_ms : ℤ

-- HSET of one field.
pub hset : String → ℤ → Fields → Fields
hset name value [] = (name, some value) ∷ []
hset name value ((field, old) ∷ fields) =
    let rest = hset name value fields in
    if str_eq field name then (field, some value) ∷ fields else (field, old) ∷ rest

-- The mapping that `_write_once` writes; `now` is `_now_ms()`.
pub written : WorkerHeartbeatState → ℤ → Fields → Fields
unfolding hset
written state now fields = hset "started_at_ms" state.started_at_ms (
    hset "last_pickup_ms" state.last_pickup_ms (
      hset "updated_at_ms" now
        (hset "in_flight" state.in_flight (hset "capacity" state.capacity fields))))

-- What Redis does to the two commands of a refresh: both run, the second raises, the first raises.
pub data Link : Type 0 where
  up no_pexpire down : Link

-- A turn of the loop: the state (none where `get_state` raises), the clock and the link.
pub record Tick : Type 0 where
  pub state : Option WorkerHeartbeatState
  pub now : ℕ
  pub link : Link

-- The hash and, once PEXPIRE has run, its expiry; the key that HSET makes has none.
pub record Slot : Type 0 where
  pub fields : Fields
  pub expires : Option ℕ

pub write_once : ℕ → WorkerHeartbeatState → ℕ → Link → Slot → Slot
unfolding written
write_once ttl_ms state now up s = record {
  fields = written state (pos now) s.fields;
  expires = some (now + ttl_ms);
}
write_once ttl_ms state now no_pexpire s = record s { fields = written state (pos now) s.fields }
write_once ttl_ms state now down s = s

-- A turn swallows what it raises.
pub beat : ℕ → Tick → Slot → Slot
unfolding write_once
beat ttl_ms t s = elim t.state [ none ↦ s | some state ↦ write_once ttl_ms state t.now t.link s ]

-- The turns until the stop event, then the deletion, which may fail.
pub heartbeat_loop : ℕ → List Tick → Bool → Slot → Slot
unfolding beat
heartbeat_loop ttl_ms [] deletes s = if deletes then record { fields = []; expires = none } else s
heartbeat_loop ttl_ms (t ∷ ts) deletes s = heartbeat_loop ttl_ms ts deletes (beat ttl_ms t s)

abbrev pub read_back : WorkerHeartbeatState → ℤ → Parsed
read_back state now = record {
  capacity = state.capacity;
  in_flight = state.in_flight;
  last_pickup_ms = state.last_pickup_ms;
  started_at_ms = state.started_at_ms;
  updated_at_ms = now;
}

-- HGETALL at a time: a key that has expired is absent.
abbrev pub seen : ℕ → Slot → Fields
seen now s = elim s.expires [ none ↦ s.fields | some at ↦ if leb at now then [] else s.fields ]
