-- ===== src/Gateway/Erasure/Stopped.antt =====
-- Which voices an erasure request stops, and whose it leaves alone (src/server/main.py).
use Prim.Native.String.{String}
use mathlib.Core.Path.{subst}
use neuro_voice.Prelude.{
  ℕ, ◌≡◌, ◌≢◌, ◌⊎◌, inl, inr, refl, sym, ap, ◌∙◌, true, false, not, Option, none, some, List, [],
  ◌∷◌, map, ◌==◌, if◌then◌else◌, is_some, select_where, count_where, All, All-map, arith,
  Bool-cases, Option-cases,
}
use neuro_voice.Voice.{Voice}
use neuro_voice.Voice.Ownership.{is_of, UniqueIds}
use neuro_voice.Voice.Lifecycle.{schedule_purge, default_purge_delay_days}
use neuro_voice.Voice.Lifecycle.Stopped.{
  IsStopped, IsHeld, schedule_purge-IsStopped, schedule_purge-kept, schedule_purge-IsHeld,
  held_purged, count-schedule_purge, schedule_purge_isolated,
}
use neuro_voice.DataDeletion.{Ticket, create, pending, completed, in_progress}
use mathlib.Core.List.{Memᴰ}
use neuro_voice.Gateway.Erasure.Covered.{IsMeant, resolve-covers, resolve_slugs}
use neuro_voice.Gateway.Erasure.Resolved.{resolve-All, UniqueIds-IsHeld}
use neuro_voice.Gateway.Erasure.{
  Records, resolve, schedule_all, settled, created, file_ticket, create_data_deletion_request,
}

schedule_all-kept :
    (id now : ℕ) (vs voices : List Voice)
    → IsStopped id voices
    → IsStopped id (schedule_all now vs voices).1
unfolding schedule_all
schedule_all-kept id now [] voices stopped = stopped
schedule_all-kept id now (v ∷ vs) voices stopped = elim (Bool-cases (is_some v.purged_at)) [
  | inl p ↦ rw p (schedule_all-kept id now vs voices stopped)
  | inr p ↦ rw p (
      schedule_all-kept id now vs (schedule_purge v.id default_purge_delay_days now voices).1
        (schedule_purge-kept id v.id default_purge_delay_days now voices stopped))
]

IsHeld-schedule_purge :
    (id now : ℕ) (vs voices : List Voice)
    → All (λ v. IsHeld v voices) vs
    → All (λ v. IsHeld v (schedule_purge id default_purge_delay_days now voices).1) vs
IsHeld-schedule_purge id now vs voices held =
    All-map (λ v. IsHeld v voices)
      (λ v. IsHeld v (schedule_purge id default_purge_delay_days now voices).1) vs
      (λ v h. schedule_purge-IsHeld v id default_purge_delay_days now voices h) held

schedule_all_skips :
    (now : ℕ) (v : Voice) (vs voices : List Voice)
    → is_some v.purged_at ≡ true
    → (schedule_all now (v ∷ vs) voices).1 ≡ (schedule_all now vs voices).1
unfolding schedule_all
schedule_all_skips now v vs voices p = rw p refl

schedule_all_schedules :
    (now : ℕ) (v : Voice) (vs voices : List Voice)
    → is_some v.purged_at ≡ false
    → (schedule_all now (v ∷ vs) voices).1
      ≡ (schedule_all now vs (schedule_purge v.id default_purge_delay_days now voices).1).1
unfolding schedule_all
schedule_all_schedules now v vs voices p = rw p refl

abbrev pub AllStopped : List Voice → List Voice → Type 0
AllStopped vs voices = All (λ v. IsStopped v.id voices) vs

schedule_all-AllStopped :
    (now : ℕ) (vs voices : List Voice)
    → All (λ v. IsHeld v voices) vs
    → AllStopped vs (schedule_all now vs voices).1
schedule_all-AllStopped now [] voices held = tt
schedule_all-AllStopped now (v ∷ vs) voices held = elim (Bool-cases (is_some v.purged_at)) [
  | inl p ↦ subst (AllStopped (v ∷ vs)) (sym (schedule_all_skips now v vs voices p)) (
    schedule_all-kept v.id now vs voices (held_purged v voices p held.0),
    schedule_all-AllStopped now vs voices held.1,
  )
  | inr p ↦
      let next = (schedule_purge v.id default_purge_delay_days now voices).1 in
      let (w, e, _, _) = held.0 in
      subst (AllStopped (v ∷ vs)) (sym (schedule_all_schedules now v vs voices p)) (
        schedule_all-kept v.id now vs next
            (schedule_purge-IsStopped v.id default_purge_delay_days now voices w e),
        schedule_all-AllStopped now vs next (IsHeld-schedule_purge v.id now vs voices held.1),
      )
]

schedule_all_isolated :
    (now tenant_id other : ℕ) (vs voices : List Voice)
    → All (λ v. IsHeld v voices) vs
    → All (λ v. v.owner_tenant_id ≡ tenant_id) vs
    → tenant_id ≢ other
    → UniqueIds voices
    → select_where (is_of other) (schedule_all now vs voices).1 ≡ select_where (is_of other) voices
unfolding schedule_all
schedule_all_isolated now tenant_id other [] voices held owned differ unique = refl
schedule_all_isolated now tenant_id other (v ∷ vs) voices held owned differ unique =
    elim (Bool-cases (is_some v.purged_at)) [
      | inl p ↦
          rw p (schedule_all_isolated now tenant_id other vs voices held.1 owned.1 differ unique)
      | inr p ↦
          let next = (schedule_purge v.id default_purge_delay_days now voices).1 in
          let (w, e, owner, _) = held.0 in
          let still_unique : UniqueIds next = λ id.
            rw (count-schedule_purge id v.id default_purge_delay_days now voices) (unique id) in
          rw p (
            schedule_all_isolated now tenant_id other vs next
              (IsHeld-schedule_purge v.id now vs voices held.1) owned.1 differ still_unique
            ∙ schedule_purge_isolated v.id default_purge_delay_days now other voices w e
                (λ same. differ (sym owned.0 ∙ sym owner ∙ same)) (unique w.id))
    ]

-- The loop counts the voices that are no tombstones.
schedule_all-count :
    (now : ℕ) (vs voices : List Voice)
    → (schedule_all now vs voices).0 ≡ count_where (λ v. not (is_some v.purged_at)) vs
unfolding schedule_all
schedule_all-count now [] voices = refl
schedule_all-count now (v ∷ vs) voices = ground (
  arith,
  schedule_all-count now vs voices,
  schedule_all-count now vs (schedule_purge v.id default_purge_delay_days now voices).1,
)

file_ticket_reply :
    (tenant_id : ℕ) (slugs : List ℕ) (actor : ℕ) (jurisdiction reason : Option String)
    (id now pending_count : ℕ) (s : Records)
    → (t : Ticket) × ((file_ticket tenant_id slugs actor jurisdiction reason id now pending_count
          s).0
        ≡ created t)
      × (t.voice_slugs ≡ slugs)
      × (t.status ≡ (if pending_count == 0 then completed else in_progress))
      × ((file_ticket tenant_id slugs actor jurisdiction reason id now pending_count s).1.voices
          ≡ s.voices)
unfolding file_ticket create
file_ticket_reply tenant_id slugs actor jurisdiction reason id now pending_count s =
    let t : Ticket = settled pending_count now (record {
      id = id;
      tenant_id = tenant_id;
      voice_slugs = slugs;
      jurisdiction = jurisdiction;
      status = pending;
      requested_at = now;
      requested_by_actor_id = actor;
      reason = reason;
      completed_at = none;
      completion_notes = none;
    }) in
    elim (Bool-cases (pending_count == 0)) [
      | inl z ↦ (t, refl, ground (arith, z), ground (arith, z), refl)
      | inr z ↦ (t, refl, ground (arith, z), ground (arith, z), refl)
    ]

request_is_filed :
    (tenant_id : ℕ) (slugs : List ℕ) (actor : ℕ) (jurisdiction reason : Option String) (id now : ℕ)
    (s : Records) (vs : List Voice)
    → resolve tenant_id slugs s.grants s.voices ≡ some vs
    → create_data_deletion_request tenant_id slugs actor jurisdiction reason id now s
      ≡ file_ticket tenant_id
          (map (λ v. v.voice_id) vs)
          actor
          jurisdiction
          reason
          id
          now
          (schedule_all now vs s.voices).0
          (record s { voices = (schedule_all now vs s.voices).1 })
unfolding create_data_deletion_request
request_is_filed tenant_id slugs actor jurisdiction reason id now s vs taken =
    rw (taken, create_data_deletion_request) refl

missing_not_created :
    (tenant_id : ℕ) (slugs : List ℕ) (actor : ℕ) (jurisdiction reason : Option String) (id now : ℕ)
    (s : Records) (t : Ticket)
    → (create_data_deletion_request tenant_id slugs actor jurisdiction reason id now s).0
      ≡ created t
    → (vs : List Voice) × (resolve tenant_id slugs s.grants s.voices ≡ some vs)
unfolding create_data_deletion_request
missing_not_created tenant_id slugs actor jurisdiction reason id now s t made =
    elim (Option-cases (resolve tenant_id slugs s.grants s.voices)) [
      | inl miss ↦ absurd (ground (arith, made, miss))
      | inr taken ↦ taken
    ]

-- An erasure request that is granted stops every voice that it means, that is each voice of the tenant
-- whose slug it names, or, if it names none, each voice of the tenant that is neither deleted nor
-- purged: afterwards the voice cannot be synthesized. The voices that it takes are all the tenant's,
-- and the ticket lists their slugs, the named ones if there are any; it is closed at once if all of them are tombstones and is in
-- progress otherwise. No voice of another tenant changes. The keys of the table are unique.
pub create_data_deletion_request_stops :
    (tenant_id : ℕ) (slugs : List ℕ) (actor : ℕ) (jurisdiction reason : Option String)
    (id now other : ℕ) (s : Records) (t : Ticket)
    → UniqueIds s.voices
    → (create_data_deletion_request tenant_id slugs actor jurisdiction reason id now s).0
      ≡ created t
    → tenant_id ≢ other
    → let out = create_data_deletion_request tenant_id slugs actor jurisdiction reason id now s in
      (vs : List Voice) × ((v : Voice) → IsMeant tenant_id slugs s.voices v → Memᴰ v vs)
      × All (λ v. v.owner_tenant_id ≡ tenant_id) vs
      × AllStopped vs out.1.voices
      × (select_where (is_of other) out.1.voices ≡ select_where (is_of other) s.voices)
      × (t.voice_slugs ≡ map (λ v. v.voice_id) vs)
      × ((slugs ≡ []) ⊎ (map (λ v. v.voice_id) vs ≡ slugs))
      × (t.status ≡ (
          if count_where (λ v. not (is_some v.purged_at)) vs == 0 then completed else in_progress))
create_data_deletion_request_stops tenant_id slugs actor jurisdiction reason id now other s t unique
      made differ =
    let (vs, taken) =
      missing_not_created tenant_id slugs actor jurisdiction reason id now s t made in
    let all = schedule_all now vs s.voices in
    let filed = request_is_filed tenant_id slugs actor jurisdiction reason id now s vs taken in
    let (u, reply, named, status, same) =
      file_ticket_reply tenant_id (map (λ v. v.voice_id) vs) actor jurisdiction reason id now all.0
        (record s { voices = all.1 }) in
    let (held, owned) =
      resolve-All (λ v. IsHeld v s.voices) tenant_id slugs s.grants s.voices vs
        (UniqueIds-IsHeld s.voices unique) taken in
    let table : (create_data_deletion_request tenant_id slugs actor jurisdiction reason id now
          s).1.voices
        ≡ all.1 =
      ap (λ p. p.1.voices) filed ∙ same in
    let replied : created u ≡ created t = sym reply ∙ sym (ap (λ p. p.0) filed) ∙ made in
    let ticket : u ≡ t = ground (arith, replied) in
    (
      vs,
      (λ v meant. resolve-covers tenant_id slugs s.grants s.voices vs v taken meant),
      owned,
      subst (AllStopped vs) (sym table) (schedule_all-AllStopped now vs s.voices held),
      ap (select_where (is_of other)) table
          ∙ schedule_all_isolated now tenant_id other vs s.voices held owned differ unique,
      ap (λ (x : Ticket). x.voice_slugs) (sym ticket) ∙ named,
      resolve_slugs tenant_id slugs s.grants s.voices vs taken,
      ap (λ (x : Ticket). x.status) (sym ticket)
          ∙ status
          ∙ ap (λ n. if n == 0 then completed else in_progress)
              (schedule_all-count now vs s.voices),
    )
