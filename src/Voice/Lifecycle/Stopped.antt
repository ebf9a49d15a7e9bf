-- ===== src/Voice/Lifecycle/Stopped.antt =====
-- `schedule_purge` of src/repos/voice.py stops a voice for good and changes no other.
use neuro_voice.Prelude.{
  ℕ, ◌≤◌, ◌≡◌, ◌≢◌, ◌⊎◌, inl, inr, refl, ◌∙◌, Bool, true, false, ◌&&◌, none, some, List, ◌==◌,
  is_some, find_passes, find_narrower, find-update_kept, find-update_key, select_where, count_where,
  count-update_same, update_where, select-update_found, arith, Option-cases, Bool-cases,
}
use neuro_voice.Voice.Defs.{Voice}
use neuro_voice.Voice.Ownership.{is_of}
use neuro_voice.Voice.Lifecycle.{
  active, lifecycle_state, has_id, get_by_id, on_unpurged, scheduled_row, schedule_purge,
}

-- The voice of an id can be synthesized no more.
abbrev pub IsStopped : ℕ → List Voice → Type 0
IsStopped id voices = (w : Voice) × (get_by_id id voices ≡ some w) × (lifecycle_state w ≢ active)

scheduled-has_id :
    (id after now : ℕ) (v : Voice) → has_id id (scheduled_row after now v) ≡ has_id id v
unfolding scheduled_row
scheduled-has_id id after now v = refl

scheduled_owner :
    (after now : ℕ) (v : Voice) → (scheduled_row after now v).owner_tenant_id ≡ v.owner_tenant_id
unfolding scheduled_row
scheduled_owner after now v = refl

scheduled_not_active :
    (after now : ℕ) (v : Voice) → lifecycle_state (scheduled_row after now v) ≢ active
unfolding lifecycle_state scheduled_row
scheduled_not_active after now v = ground arith

schedule_purge_purged :
    (id after now : ℕ) (voices : List Voice) (v : Voice)
    → get_by_id id voices ≡ some v
    → is_some v.purged_at ≡ true
    → (schedule_purge id after now voices).1 ≡ voices
unfolding schedule_purge on_unpurged
schedule_purge_purged id after now voices v e p = ground (arith, e, p)

schedule_purge_table :
    (id after now : ℕ) (voices : List Voice) (v : Voice)
    → get_by_id id voices ≡ some v
    → is_some v.purged_at ≡ false
    → (schedule_purge id after now voices).1
      ≡ update_where (has_id v.id) (scheduled_row after now) voices
unfolding schedule_purge on_unpurged
schedule_purge_table id after now voices v e p = ground (arith, e, p)

schedule_purge_missing :
    (id after now : ℕ) (voices : List Voice)
    → get_by_id id voices ≡ none
    → (schedule_purge id after now voices).1 ≡ voices
unfolding schedule_purge on_unpurged
schedule_purge_missing id after now voices e = ground (arith, e)

purged_not_active : (v : Voice) → is_some v.purged_at ≡ true → lifecycle_state v ≢ active
unfolding lifecycle_state
purged_not_active v p = ground (arith, p)

pub schedule_purge-IsStopped :
    (id after now : ℕ) (voices : List Voice) (v : Voice)
    → get_by_id id voices ≡ some v
    → IsStopped id (schedule_purge id after now voices).1
unfolding get_by_id
schedule_purge-IsStopped id after now voices v e = elim (Bool-cases (is_some v.purged_at)) [
  | inl p ↦ rw (schedule_purge_purged id after now voices v e p) (v, e, purged_not_active v p)
  | inr p ↦ rw (schedule_purge_table id after now voices v e p) (
    scheduled_row after now v,
    find-update_key (has_id id) (has_id v.id) (scheduled_row after now) voices {r = v}
        (λ a h. ground (arith, find_passes (has_id id) voices {r = v} e))
        (scheduled-has_id id after now) e,
    scheduled_not_active after now v,
  )
]

-- What a call makes of the row of another id.
pub schedule_purge_found :
    (id other after now : ℕ) (voices : List Voice) (w : Voice)
    → get_by_id id voices ≡ some w
    → (get_by_id id (schedule_purge other after now voices).1 ≡ some w)
      ⊎ (get_by_id id (schedule_purge other after now voices).1 ≡ some (scheduled_row after now w))
unfolding get_by_id
schedule_purge_found id other after now voices w e = elim (Option-cases (get_by_id other voices)) [
  | inl f ↦ rw (schedule_purge_missing other after now voices f) (inl e)
  | inr (v, f) ↦ elim (Bool-cases (is_some v.purged_at)) [
    | inl p ↦ rw (schedule_purge_purged other after now voices v f p) (inl e)
    | inr p ↦ rw (schedule_purge_table other after now voices v f p) (
        find-update_kept (has_id id) (has_id v.id) (scheduled_row after now) voices w
          (scheduled-has_id id after now) e)
  ]
]

-- A later call, for whatever voice, does not start it again.
pub schedule_purge-kept :
    (id other after now : ℕ) (voices : List Voice)
    → IsStopped id voices
    → IsStopped id (schedule_purge other after now voices).1
schedule_purge-kept id other after now voices (w, e, stopped) =
    elim (schedule_purge_found id other after now voices w e) [
      | inl g ↦ (w, g, stopped)
      | inr g ↦ (scheduled_row after now w, g, scheduled_not_active after now w)
    ]

-- A row with the owner and the tombstone of `v`.
abbrev pub IsHeld : Voice → List Voice → Type 0
IsHeld v voices =
    (w : Voice) × (get_by_id v.id voices ≡ some w)
    × (w.owner_tenant_id ≡ v.owner_tenant_id)
    × (is_some w.purged_at ≡ is_some v.purged_at)

pub schedule_purge-IsHeld :
    (v : Voice) (other after now : ℕ) (voices : List Voice)
    → IsHeld v voices
    → IsHeld v (schedule_purge other after now voices).1
unfolding scheduled_row
schedule_purge-IsHeld v other after now voices (w, e, owner, tomb) =
    elim (schedule_purge_found v.id other after now voices w e) [
      | inl g ↦ (w, g, owner, tomb)
      | inr g ↦ (scheduled_row after now w, g, owner, tomb)
    ]

pub held_purged :
    (v : Voice) (voices : List Voice)
    → is_some v.purged_at ≡ true
    → IsHeld v voices
    → IsStopped v.id voices
held_purged v voices p (w, e, owner, tomb) = (w, e, purged_not_active w (tomb ∙ p))

pub count-schedule_purge :
    (id other after now : ℕ) (voices : List Voice)
    → count_where (has_id id) (schedule_purge other after now voices).1
      ≡ count_where (has_id id) voices
count-schedule_purge id other after now voices = elim (Option-cases (get_by_id other voices)) [
  | inl f ↦ rw (schedule_purge_missing other after now voices f) refl
  | inr (v, f) ↦ elim (Bool-cases (is_some v.purged_at)) [
    | inl p ↦ rw (schedule_purge_purged other after now voices v f p) refl
    | inr p ↦ rw (schedule_purge_table other after now voices v f p) (
        count-update_same (has_id v.id) (has_id id) (scheduled_row after now) voices
          (scheduled-has_id id after now))
  ]
]

-- The voices of the tenants that do not own the voice stay as they are.
pub schedule_purge_isolated :
    (id after now other : ℕ) (voices : List Voice) (v : Voice)
    → get_by_id id voices ≡ some v
    → v.owner_tenant_id ≢ other
    → count_where (has_id v.id) voices ≤ 1
    → select_where (is_of other) (schedule_purge id after now voices).1
      ≡ select_where (is_of other) voices
unfolding get_by_id
schedule_purge_isolated id after now other voices v e differ unique =
    elim (Bool-cases (is_some v.purged_at)) [
      | inl p ↦ rw (schedule_purge_purged id after now voices v e p) refl
      | inr p ↦ rw (schedule_purge_table id after now voices v e p) (
          select-update_found own (has_id v.id) (is_of other) (scheduled_row after now) voices v
            (λ a h.
              (ground (arith, h, differ), ground (arith, h, differ, scheduled_owner after now a)))
            (find_narrower own (has_id id) voices v (λ a h. ground (arith, h)) e
              (ground (arith, find_passes (has_id id) voices {r = v} e)))
            (ground arith) unique)
    ]
  where
    own : Voice → Bool
    own a = has_id id a && a.owner_tenant_id == v.owner_tenant_id
