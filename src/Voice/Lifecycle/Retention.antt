-- ===== src/Voice/Lifecycle/Retention.antt =====
-- What freezing and purging guarantee (src/repos/voice.py, ADR-11).
use Prim.Native.String.{String}
use neuro_voice.Prelude.{
  ℕ, ◌≤◌, ◌<◌, ◌≡◌, refl, ◌≢◌, ◌↔◌, inl, inr, true, ◌||◌, Option, none, some, List, [], ◌∷◌, arith,
  ◌==◌, is_some, Option-cases, Bool-cases, find_passes, select_where, or_else, All,
  All-update_where, All-map, select-update_other, not, find-update_key,
}
use neuro_voice.Voice.Defs.{Voice, Json}
use neuro_voice.Voice.Lifecycle.{
  active, purged, lifecycle_state, has_id, get_by_id, on_unpurged, freeze, frozen_row, extended,
  unfreeze, unfrozen_row, schedule_purge, scheduled_row, pin_eval, pinned_row, execute_purge,
  purged_row, is_eval_payload, zero_digest,
}

-- A lifecycle call on one voice.
pub data Call : Type 0 where
  freezes : String → Option ℕ → Call
  unfreezes : Call
  schedules : ℕ → Call
  pins : Json → Call
  purges : Option ℕ → Call

-- The call, at a time; a ValueError leaves the table as it was.
pub step : ℕ → ℕ → Call → List Voice → List Voice
step id now (freezes reason after) voices = (freeze id reason after now voices).1
step id now unfreezes voices = (unfreeze id voices).1
step id now (schedules after) voices = (schedule_purge id after now voices).1
step id now (pins payload) voices = elim (pin_eval id payload voices) [
  | none ↦ voices
  | some r ↦ r.1
]
step id now (purges at) voices = (execute_purge id at now voices).1

pub run : ℕ → List (ℕ × Call) → List Voice → List Voice
run id [] voices = voices
run id ((now, c) ∷ cs) voices = run id cs (step id now c voices)

step-purged :
    (id now : ℕ) (c : Call) (voices : List Voice) (v : Voice)
    → get_by_id id voices ≡ some v
    → is_some v.purged_at ≡ true
    → step id now c voices ≡ voices
unfolding step freeze unfreeze schedule_purge pin_eval execute_purge on_unpurged
step-purged id now (freezes r a) voices v e p = ground (arith, e, p)
step-purged id now unfreezes voices v e p = ground (arith, e, p)
step-purged id now (schedules a) voices v e p = ground (arith, e, p)
step-purged id now (pins payload) voices v e p = ground (arith, e, p)
step-purged id now (purges at) voices v e p = ground (arith, e, p)

-- A purged voice is terminal: no sequence of lifecycle calls on it changes the table.
pub run-purged :
    (id : ℕ) (cs : List (ℕ × Call)) (voices : List Voice) (v : Voice)
    → get_by_id id voices ≡ some v
    → lifecycle_state v ≡ purged
    → run id cs voices ≡ voices
unfolding run lifecycle_state
run-purged id [] voices v e p = refl
run-purged id ((now, c) ∷ cs) voices v e p =
    rw (step-purged id now c voices v e (ground arith)) (run-purged id cs voices v e p)

-- `a <= b` where both are set, as in the CHECK constraints of the table.
abbrev pub LeIfSet : Option ℕ → Option ℕ → Type 0
LeIfSet none b = Unit {0}
LeIfSet (some a) none = Unit {0}
LeIfSet (some a) (some b) = a ≤ b

-- The constraint voices_purge_after_frozen, and no freeze in the future.
abbrev pub IsTimely : ℕ → Voice → Type 0
IsTimely now v = LeIfSet v.frozen_at (some now) × LeIfSet v.frozen_at v.purge_after_at

-- A voice that is not frozen has no purge date in the past.
abbrev pub IsAhead : ℕ → Voice → Type 0
IsAhead now v = v.frozen_at ≡ none → LeIfSet (some now) v.purge_after_at

on_unpurged-All :
    (P Q : Voice → Type 0) (id : ℕ) (f : Voice → Voice) (voices : List Voice)
    → ((v : Voice) → P v → Q (f v))
    → ((v : Voice) → P v → Q v)
    → All P voices
    → All Q (on_unpurged id f voices).1
unfolding on_unpurged
on_unpurged-All P Q id f voices h k all = elim (Option-cases (get_by_id id voices)) [
  | inl e ↦ rw (e, on_unpurged) (All-map P Q voices k all)
  | inr (v, e) ↦ elim (Bool-cases (is_some v.purged_at)) [
    | inl p ↦ rw (e, on_unpurged) (rw p (All-map P Q voices k all))
    | inr p ↦ rw (e, on_unpurged) (rw p (All-update_where P Q (has_id v.id) f voices h k all))
  ]
]

abbrev Before : ℕ → Voice → Type 0
Before now v = IsTimely now v × IsAhead now v

-- Where no voice has a purge date in the past while it is not frozen, no lifecycle call breaks the
-- constraint that a purge date is not before its freeze.
pub step-IsTimely :
    (id now : ℕ) (c : Call) (voices : List Voice)
    → All (λ v. IsTimely now v × IsAhead now v) voices
    → All (IsTimely now) (step id now c voices)
unfolding step freeze unfreeze schedule_purge pin_eval execute_purge frozen_row unfrozen_row
    scheduled_row pinned_row purged_row
step-IsTimely id now (freezes r none) voices all =
    on_unpurged-All (Before now) (IsTimely now) id _ voices (λ v h. ground arith) (λ v h. h.0) all
step-IsTimely id now (freezes r (some n)) voices all =
    on_unpurged-All (Before now) (IsTimely now) id _ voices (λ v h. ground arith) (λ v h. h.0) all
step-IsTimely id now unfreezes voices all =
    on_unpurged-All (Before now) (IsTimely now) id _ voices (λ v h. ground arith) (λ v h. h.0) all
step-IsTimely id now (schedules a) voices all =
    on_unpurged-All (Before now) (IsTimely now) id _ voices (λ v h. ground arith) (λ v h. h.0) all
step-IsTimely id now (pins payload) voices all = elim (Bool-cases (is_eval_payload payload)) [
  | inl passes ↦
      rw (passes, step)
        (on_unpurged-All (Before now) (IsTimely now) id (pinned_row payload) voices (λ v h. h.0)
          (λ v h. h.0) all)
  | inr bad ↦ rw (bad, step) (All-map (Before now) (IsTimely now) voices (λ v h. h.0) all)
]
step-IsTimely id now (purges at) voices all =
    on_unpurged-All (Before now) (IsTimely now) id _ voices (λ v h. h.0) (λ v h. h.0) all

-- Once the purge date of a voice that was unfrozen has passed, freezing it again with no new date,
-- or with one that is not later, writes a row that the constraint voices_purge_after_frozen rejects.
pub refreeze_violates :
    (now due : ℕ) (reason : String) (v : Voice)
    → v.frozen_at ≡ none
    → v.purge_after_at ≡ some due
    → due < now
    → ¬ IsTimely now (frozen_row reason none now v)
unfolding frozen_row
refreeze_violates now due reason v f d h t = ground arith

-- Freezing a voice that is not purged stops it: the row found afterwards is not active, keeps the
-- instant of an earlier freeze, has a purge date if it had one or one is asked for, and that date is
-- not earlier than it was.
pub freeze_stops :
    (id now : ℕ) (reason : String) (after : Option ℕ) (voices : List Voice) (v : Voice)
    → get_by_id id voices ≡ some v
    → v.purged_at ≡ none
    → (w : Voice) × (get_by_id id (freeze id reason after now voices).1 ≡ some w)
      × (lifecycle_state w ≢ active)
      × (w.frozen_at ≡ some (or_else v.frozen_at now))
      × (w.frozen_reason ≡ some reason)
      × LeIfSet v.purge_after_at w.purge_after_at
      × (is_some w.purge_after_at ≡ (is_some v.purge_after_at || is_some after))
unfolding freeze frozen_row get_by_id lifecycle_state on_unpurged
freeze_stops id now reason after voices v e p = (
  frozen_row reason after now v,
  ground (
    arith,
    find_passes (has_id id) voices {r = v} e,
    find-update_key (has_id id) (has_id v.id) (frozen_row reason after now) voices {r = v}
        (λ a h. ground (arith, find_passes (has_id id) voices {r = v} e)) (λ a. refl) e,
  ),
  ground arith,
  refl,
  refl,
  later v.purge_after_at after,
  set v.purge_after_at after,
)
  where
    later : (old n : Option ℕ) → LeIfSet old (extended n now old)
    later none n = tt
    later (some p) none = omega arith
    later (some p) (some n) = ground arith

    set : (old n : Option ℕ) → is_some (extended n now old) ≡ (is_some old || is_some n)
    set none none = refl
    set none (some n) = refl
    set (some p) none = refl
    set (some p) (some n) = ground arith

-- Unfreezing a voice that is not purged makes it active exactly when no purge is scheduled and it
-- is not deleted: the schedule stays.
pub lifecycle_state-unfreeze :
    (v : Voice)
    → v.purged_at ≡ none
    → (lifecycle_state (unfrozen_row v) ≡ active)
      ↔ ((v.purge_after_at ≡ none) × (v.deleted_at ≡ none))
unfolding lifecycle_state unfrozen_row
lifecycle_state-unfreeze v p = (λ h. ground arith, λ h. ground arith)

-- Purging a voice that is not yet purged leaves a tombstone: the row found afterwards is purged and
-- without reference, adapter, name, description, labels, preview, settings and eval result; its key,
-- owner, slug and licence stay; and every other row of the table is as it was.
pub execute_purge_scrubs :
    (id now : ℕ) (at : Option ℕ) (voices : List Voice) (v : Voice)
    → get_by_id id voices ≡ some v
    → v.purged_at ≡ none
    → let after = (execute_purge id at now voices).1 in
      (w : Voice) × (get_by_id id after ≡ some w)
      × (lifecycle_state w ≡ purged)
      × (w.purged_at ≡ some (or_else at now))
      × ((w.reference_uri ≡ "")
          × (w.reference_sha256 ≡ zero_digest)
          × (w.adapter_uri ≡ none)
          × (w.adapter_sha256 ≡ none)
          × (w.adapter_type ≡ none)
          × (w.display_name ≡ "[purged voice]")
          × (w.description ≡ none)
          × (w.labels ≡ none)
          × (w.preview_url ≡ none)
          × (w.voice_settings_defaults ≡ none)
          × (w.engine_params ≡ [])
          × (w.eval_metrics ≡ none))
      × ((w.id ≡ v.id)
          × (w.owner_tenant_id ≡ v.owner_tenant_id)
          × (w.voice_id ≡ v.voice_id)
          × (w.license_kind ≡ v.license_kind)
          × (w.license_ref ≡ v.license_ref))
      × (select_where (λ a. not (a.id == id)) after ≡ select_where (λ a. not (a.id == id)) voices)
unfolding execute_purge purged_row get_by_id lifecycle_state on_unpurged
execute_purge_scrubs id now at voices v e p = (
  purged_row (or_else at now) v,
  ground (
    arith,
    found,
    find-update_key (has_id id) (has_id v.id) (purged_row (or_else at now)) voices {r = v}
        (λ a h. ground (arith, found)) (λ a. refl) e,
  ),
  refl,
  refl,
  (refl, refl, refl, refl, refl, refl, refl, refl, refl, refl, refl, refl),
  (refl, refl, refl, refl, refl),
  ground (
    arith,
    found,
    select-update_other (has_id v.id) (λ a. not (a.id == id)) (purged_row (or_else at now)) voices
        (λ a h. ground (arith, found)) (λ a h. ground (arith, found)),
  ),
)
  where
    found : has_id id v ≡ true
    found = find_passes (has_id id) voices {r = v} e
