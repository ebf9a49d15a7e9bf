-- ===== src/Heartbeat/Tests.antt =====
-- Four hashes of src/server/heartbeat.py, of which two count.
use neuro_voice.Prelude.{◌≡◌, refl, none, some, List, [], ◌∷◌}
use neuro_voice.Prelude.Int.{pos}
use neuro_voice.Heartbeat.{WorkerHash, read_cluster_capacity}
use neuro_voice.Heartbeat.Writer.{WorkerHeartbeatState}

abbrev idle : WorkerHash
idle = record {
  worker_id = 2;
  fields =
      ("capacity", some (pos 4))
      ∷ ("in_flight", some (pos 1))
      ∷ ("last_pickup_ms", some (pos 300))
      ∷ ("started_at_ms", some (pos 200))
      ∷ ("updated_at_ms", some (pos 9_500))
      ∷ [];
}

-- An old worker, which does not write `updated_at_ms`.
abbrev old_image : WorkerHash
old_image = record {
  worker_id = 1;
  fields =
      ("capacity", some (pos 2))
      ∷ ("in_flight", some (pos 2))
      ∷ ("last_pickup_ms", some (pos 8_000))
      ∷ ("started_at_ms", some (pos 100))
      ∷ [];
}

abbrev junk : WorkerHash
junk = record { worker_id = 3; fields = ("capacity", none) ∷ [] }

abbrev cluster : List WorkerHash
cluster = idle ∷ junk ∷ old_image ∷ []

counts_two : read_cluster_capacity (pos 10_000) (pos 5_000) cluster ≡ record {
  total_capacity = pos 6;
  total_inflight = pos 3;
  worker_count = 2;
  healthy_worker_ids = 1 ∷ 2 ∷ [];
  last_pickup_max_age_ms = some (pos 2_000);
}
unfolding read_cluster_capacity
counts_two = refl

abbrev idle_worker : WorkerHeartbeatState
idle_worker = record {
  capacity = pos 4;
  in_flight = pos 0;
  last_pickup_ms = pos 300;
  started_at_ms = pos 200;
}
