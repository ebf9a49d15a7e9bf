-- ===== src/Gateway/Gate/Passed.antt =====
-- What the gate of synthesis (src/server/main.py) lets through, said without its branches.
use mathlib.Core.List.{Memᴰ}
use mathlib.Core.Path.{subst}
use neuro_voice.Prelude.{
  ℕ, ◌≡◌, inl, inr, refl, ap, ◌∙◌, true, false, Option, none, some, List, [], ◌∷◌, leb,
  select_where, is_some, All, All-map, All-find, All-select_where, arith, Option-cases, Bool-cases,
}
use neuro_voice.Voice.{
  Voice, Grant, is_owned_slug, is_granted_slug, is_public_slug, get_owned, earliest, get_accessible,
}
use neuro_voice.Voice.Visible.{is_usable, get_accessible_safe}
use neuro_voice.Voice.Lifecycle.{
  State, active, frozen, purge_pending, deleted, purged, lifecycle_state,
}
use neuro_voice.Consent.{ConsentRecord, latest_active}
use neuro_voice.Consent.Latest.{latest_active_lem}
use neuro_voice.Gateway.Gate.{passed, assert_voice_accessible, ensure_voice_synthesizable, gate}

earliest-All :
    (P : Voice → Type 0) (vs : List Voice) (v : Voice) → All P vs → earliest vs ≡ some v → P v
unfolding earliest
earliest-All P [] v all e = absurd (ground (arith, e))
earliest-All P (x ∷ vs) v all e = elim (Option-cases (earliest vs)) [
  | inl f ↦ let same : x ≡ v = ground (arith, e, f) in subst P same all.0
  | inr (w, f) ↦ elim (Bool-cases (leb x.created_at w.created_at)) [
    | inl g ↦ let same : x ≡ v = ground (arith, e, f, g) in subst P same all.0
    | inr g ↦ earliest-All P vs v all.1 (ground (arith, e, f, g))
  ]
]

-- What holds of every voice of the table holds of the one that is found.
pub get_accessible-All :
    (P : Voice → Type 0) (tenant_id slug : ℕ) (grants : List Grant) (voices : List Voice)
    (v : Voice)
    → All P voices
    → get_accessible tenant_id slug grants voices ≡ some v
    → P v
unfolding get_accessible get_owned
get_accessible-All P tenant_id slug grants voices v all e =
    let granted = is_granted_slug tenant_id slug grants in
    elim (Option-cases (get_owned tenant_id slug voices)) [
      | inr (o, f) ↦ All-find P (is_owned_slug tenant_id slug) voices v all (ground (arith, e, f))
      | inl f ↦ elim (Option-cases (earliest (select_where granted voices))) [
        | inr (g, h) ↦
            earliest-All P (select_where granted voices) v (All-select_where P granted voices all)
              (ground (arith, e, f, h))
        | inl h ↦
            earliest-All P (select_where (is_public_slug slug) voices) v
              (All-select_where P (is_public_slug slug) voices all) (ground (arith, e, f, h))
      ]
    ]

All-Mem : (vs : List Voice) → All (λ v. Memᴰ v vs) vs
All-Mem [] = tt
All-Mem (x ∷ vs) = (
  Memᴰ.head refl,
  All-map (λ v. Memᴰ v vs) (λ v. Memᴰ v (x ∷ vs)) vs (λ v m. Memᴰ.tail m) (All-Mem vs),
)

-- The voice of the table has the slug that was asked for and is the tenant's, granted to it or public;
-- it is neither frozen nor deleted nor purged nor due to be; and an unrevoked record in the table is
-- a consent for it.
pub record MaySynthesize (voice_id : Option ℕ) (tenant_id : ℕ) (grants : List Grant)
    (voices : List Voice) (consents : List ConsentRecord) (v : Voice) : Type 0 where
  pub slug : ℕ
  pub consent : ConsentRecord
  pub named : voice_id ≡ some slug
  pub in_table : Memᴰ v voices
  pub usable : is_usable tenant_id slug grants v ≡ true
  pub unpurged : v.purged_at ≡ none
  pub undeleted : v.deleted_at ≡ none
  pub unscheduled : v.purge_after_at ≡ none
  pub unfrozen : v.frozen_at ≡ none
  pub recorded : Memᴰ consent consents
  pub of_voice : consent.voice_id ≡ v.id
  pub unrevoked : consent.revoked_at ≡ none

consented :
    (v : Voice) (consents : List ConsentRecord)
    → ensure_voice_synthesizable v consents ≡ none
    → (r : ConsentRecord) × (lifecycle_state v ≡ active) × (latest_active v.id consents ≡ some r)
unfolding ensure_voice_synthesizable
consented v consents e = by_state (lifecycle_state v) refl
  where
    by_state :
        (state : State)
        → lifecycle_state v ≡ state
        → (r : ConsentRecord) × (lifecycle_state v ≡ active)
          × (latest_active v.id consents ≡ some r)
    by_state active f = elim (Option-cases (latest_active v.id consents)) [
      | inl g ↦ absurd (ground (arith, e, f, g))
      | inr (r, g) ↦ (r, f, g)
    ]
    by_state frozen f = absurd (ground (arith, e, f))
    by_state purge_pending f = absurd (ground (arith, e, f))
    by_state deleted f = absurd (ground (arith, e, f))
    by_state purged f = absurd (ground (arith, e, f))

gate-parts :
    (voice_id : Option ℕ) (tenant_id : ℕ) (grants : List Grant) (voices : List Voice)
    (consents : List ConsentRecord) (v : Voice)
    → gate voice_id tenant_id grants voices consents ≡ passed v
    → (slug : ℕ) × (voice_id ≡ some slug)
      × (get_accessible tenant_id slug grants voices ≡ some v)
      × (ensure_voice_synthesizable v consents ≡ none)
unfolding gate assert_voice_accessible
gate-parts none tenant_id grants voices consents v e = absurd (ground (arith, e))
gate-parts (some slug) tenant_id grants voices consents v e =
    elim (Option-cases (get_accessible tenant_id slug grants voices)) [
      | inl f ↦ absurd (ground (arith, e, f))
      | inr (w, f) ↦ elim (Option-cases (ensure_voice_synthesizable w consents)) [
        | inr (r, g) ↦ absurd (ground (arith, e, f, g))
        | inl g ↦
            let same : w ≡ v = ground (arith, e, f, g) in
            (
              slug,
              refl,
              f ∙ ap some same,
              subst (λ u. ensure_voice_synthesizable u consents ≡ none) same g,
            )
      ]
    ]

unset : {A : Type 0} (o : Option A) → is_some o ≡ false → o ≡ none
unset none e = refl
unset (some a) e = absurd (ground (arith, e))

pub gate-MaySynthesize :
    (voice_id : Option ℕ) (tenant_id : ℕ) (grants : List Grant) (voices : List Voice)
    (consents : List ConsentRecord) (v : Voice)
    → gate voice_id tenant_id grants voices consents ≡ passed v
    → MaySynthesize voice_id tenant_id grants voices consents v
unfolding lifecycle_state
gate-MaySynthesize voice_id tenant_id grants voices consents v e =
    let (slug, named, found, passes) = gate-parts voice_id tenant_id grants voices consents v e in
    let (r, live, latest) = consented v consents passes in
    let (mem, act, _) = latest_active_lem v.id consents r latest in
    record {
      slug = slug;
      consent = r;
      named = named;
      in_table =
          get_accessible-All (λ w. Memᴰ w voices) tenant_id slug grants voices v (All-Mem voices)
            found;
      usable = get_accessible_safe tenant_id slug grants voices v found;
      unpurged = unset v.purged_at (ground (arith, live));
      undeleted = unset v.deleted_at (ground (arith, live));
      unscheduled = unset v.purge_after_at (ground (arith, live));
      unfrozen = unset v.frozen_at (ground (arith, live));
      recorded = mem;
      of_voice = ground (arith, act);
      unrevoked = unset r.revoked_at (ground (arith, act));
    }
