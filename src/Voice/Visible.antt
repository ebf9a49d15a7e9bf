-- ===== src/Voice/Visible.antt =====
-- Who can use a voice (src/repos/voice.py).
use neuro_voice.Prelude.{
  ℕ, ◌≡◌, refl, ◌⊎◌, inl, inr, Bool, true, ◌&&◌, ◌||◌, none, some, List, [], ◌∷◌, arith, leb, ◌==◌,
  is_some, find, select_where, Option-cases, Bool-cases, find_passes, map,
}
use neuro_voice.Voice.{
  Voice, Grant, private, is_granted, is_owned_slug, is_granted_slug, is_public_slug, is_live,
  is_public, get_owned, earliest, get_accessible, with_visibility,
}

-- The three ways of access, as one test.
abbrev pub is_usable : ℕ → ℕ → List Grant → Voice → Bool
is_usable tenant_id slug grants v =
    v.voice_id == slug
    && is_live v
    && (v.owner_tenant_id == tenant_id || is_granted tenant_id grants v.id || is_public v)

earliest-cases :
    (p : Voice → Bool) (vs : List Voice)
    → ((earliest (select_where p vs) ≡ none) × (find p vs ≡ none))
      ⊎ ((v : Voice) × (w : Voice) × (earliest (select_where p vs) ≡ some v)
          × (p v ≡ true)
          × (find p vs ≡ some w))
unfolding earliest
earliest-cases p [] = inl (refl, refl)
earliest-cases p (x ∷ vs) = elim (Bool-cases (p x)) [
  | inr miss ↦ rw miss (earliest-cases p vs)
  | inl hit ↦ elim (earliest-cases p vs) [
    | inl (e, f) ↦ rw hit (inr (x, x, ground arith, hit, refl))
    | inr (v, w, e, q, f) ↦ elim (Bool-cases (leb x.created_at v.created_at)) [
      | inl first ↦ rw hit (inr (x, x, ground arith, hit, refl))
      | inr later ↦ rw hit (inr (v, x, ground arith, q, refl))
    ]
  ]
]

found-or :
    (p q : Voice → Bool) (vs : List Voice)
    → is_some (find (λ v. p v || q v) vs) ≡ (is_some (find p vs) || is_some (find q vs))
found-or p q [] = refl
found-or p q (x ∷ vs) = ground (arith, found-or p q vs)

found-ext :
    (p q : Voice → Bool) (vs : List Voice) → ((v : Voice) → p v ≡ q v) → find p vs ≡ find q vs
found-ext p q [] h = refl
found-ext p q (x ∷ vs) h = ground (arith, h x, found-ext p q vs h)

-- Safety: the voice that `get_accessible` returns has the slug, is not deleted, and is the
-- tenant's own, granted to the tenant, or public.
pub get_accessible_safe :
    (tenant_id slug : ℕ) (grants : List Grant) (voices : List Voice) (v : Voice)
    → get_accessible tenant_id slug grants voices ≡ some v
    → is_usable tenant_id slug grants v ≡ true
unfolding get_accessible get_owned
get_accessible_safe tenant_id slug grants voices v e =
    elim (Option-cases (get_owned tenant_id slug voices)) [
      | inr (o, eo) ↦ ground (arith, find_passes (is_owned_slug tenant_id slug) voices {r = o} eo)
      | inl eo ↦ elim (earliest-cases (is_granted_slug tenant_id slug grants) voices) [
        | inr (g, w, eg, pg, fg) ↦ ground arith
        | inl (eg, fg) ↦ elim (earliest-cases (is_public_slug slug) voices) [
          | inr (g, w, ep, pg, fp) ↦ ground arith
          | inl (ep, fp) ↦ ground arith
        ]
      ]
    ]

-- Completeness: `get_accessible` finds a voice exactly when the table has a usable one.
pub get_accessible_complete :
    (tenant_id slug : ℕ) (grants : List Grant) (voices : List Voice)
    → is_some (get_accessible tenant_id slug grants voices)
      ≡ is_some (find (is_usable tenant_id slug grants) voices)
unfolding get_accessible get_owned
get_accessible_complete tenant_id slug grants voices =
    rw
      (found-ext (is_usable tenant_id slug grants)
        (λ v.
          is_owned_slug tenant_id slug v
          || (is_granted_slug tenant_id slug grants v || is_public_slug slug v))
        voices (λ v. ground arith))
      (rw
        (found-or (is_owned_slug tenant_id slug)
          (λ v. is_granted_slug tenant_id slug grants v || is_public_slug slug v) voices)
        (rw (found-or (is_granted_slug tenant_id slug grants) (is_public_slug slug) voices) (
          ground (
            arith,
            earliest-cases (is_granted_slug tenant_id slug grants) voices,
            earliest-cases (is_public_slug slug) voices,
          ))))

-- A grant outlives the visibility 'shared': a tenant that is granted a live voice of the slug can
-- use one also when every voice in the table has been set back to 'private'.
pub granted_private_usable :
    (tenant_id slug : ℕ) (grants : List Grant) (voices : List Voice) (v : Voice)
    → find (is_granted_slug tenant_id slug grants) voices ≡ some v
    → is_some (get_accessible tenant_id slug grants (map (with_visibility private) voices)) ≡ true
granted_private_usable tenant_id slug grants voices v e = rw get_accessible_complete (go voices e)
  where
    go :
        (vs : List Voice)
        → find (is_granted_slug tenant_id slug grants) vs ≡ some v
        → is_some (find (is_usable tenant_id slug grants) (map (with_visibility private) vs)) ≡ true
    go [] h = ground arith
    go (x ∷ vs) h = ground (arith, go vs)
