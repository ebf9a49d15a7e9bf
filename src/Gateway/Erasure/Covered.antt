-- ===== src/Gateway/Erasure/Covered.antt =====
-- No voice that an erasure request means is passed over (src/server/main.py).
use mathlib.Core.List.{Memᴰ}
use mathlib.Core.List.Memᴰ.{not-nil, cases_cons}
use mathlib.Core.Path.{subst}
use neuro_voice.Prelude.{
  ℕ, ◌≡◌, ◌⊎◌, inl, inr, refl, sym, ap, ◌∙◌, false, none, some, List, [], ◌∷◌, map, find_passes,
  select_where, arith, Option-cases,
}
use neuro_voice.Voice.{Voice, Grant, is_owned_slug, get_owned, list_accessible}
use neuro_voice.Voice.Listing.{Memᴰ-select_where, Memᴰ-list_accessible}
use neuro_voice.Gateway.Erasure.{resolve_named, is_unpurged_own, resolve}

-- The request means the voice: it names its slug and the tenant owns a voice of that slug, or it names
-- none and the voice is of the tenant and neither deleted nor purged.
abbrev pub IsMeant : ℕ → List ℕ → List Voice → Voice → Type 0
IsMeant tenant_id slugs voices v =
    ((slug : ℕ) × Memᴰ slug slugs × (get_owned tenant_id slug voices ≡ some v))
    ⊎ ((slugs ≡ [])
        × Memᴰ v voices
        × (v.owner_tenant_id ≡ tenant_id)
        × (v.deleted_at ≡ none)
        × (v.purged_at ≡ none))

resolve_named-covers :
    (tenant_id slug : ℕ) (slugs : List ℕ) (voices vs : List Voice) (v : Voice)
    → resolve_named tenant_id slugs voices ≡ some vs
    → Memᴰ slug slugs
    → get_owned tenant_id slug voices ≡ some v
    → Memᴰ v vs
unfolding resolve_named
resolve_named-covers tenant_id slug [] voices vs v e mem own = absurd (not-nil mem)
resolve_named-covers tenant_id slug (x ∷ slugs) voices vs v e mem own =
    elim (Option-cases (get_owned tenant_id x voices)) [
      | inl f ↦ absurd (ground (arith, e, f))
      | inr (u, f) ↦ elim (Option-cases (resolve_named tenant_id slugs voices)) [
        | inl g ↦ absurd (ground (arith, e, f, g))
        | inr (us, g) ↦
            let parts : vs ≡ u ∷ us = ground (arith, e, f, g) in
            subst (Memᴰ v) (sym parts) (elim (cases_cons mem) [
              | inl same ↦
                  let found : get_owned tenant_id slug voices ≡ some u =
                    ap (λ s. get_owned tenant_id s voices) same ∙ f in
                  Memᴰ.head (ground (arith, own, found))
              | inr rest ↦
                  Memᴰ.tail (resolve_named-covers tenant_id slug slugs voices us v g rest own)
            ])
      ]
    ]

pub resolve-covers :
    (tenant_id : ℕ) (slugs : List ℕ) (grants : List Grant) (voices vs : List Voice) (v : Voice)
    → resolve tenant_id slugs grants voices ≡ some vs
    → IsMeant tenant_id slugs voices v
    → Memᴰ v vs
unfolding resolve
resolve-covers tenant_id [] grants voices vs v e (inl (slug, mem, own)) = absurd (not-nil mem)
resolve-covers tenant_id [] grants voices vs v e (inr (none_named, mem, own, live, unpurged)) =
    let listed = list_accessible tenant_id grants false voices in
    let parts : vs ≡ select_where (is_unpurged_own tenant_id) listed = ground (arith, e) in
    subst (Memᴰ v) (sym parts) (
      Memᴰ-select_where (is_unpurged_own tenant_id) v listed (ground (arith, own, unpurged))
        (Memᴰ-list_accessible tenant_id grants v voices own live mem))
resolve-covers tenant_id (x ∷ slugs) grants voices vs v e (inl (slug, mem, own)) =
    resolve_named-covers tenant_id slug (x ∷ slugs) voices vs v e mem own
resolve-covers tenant_id (x ∷ slugs) grants voices vs v e
      (inr (none_named, mem, own, live, unpurged)) =
    absurd (ground (arith, none_named))

resolve_named_slugs :
    (tenant_id : ℕ) (slugs : List ℕ) (voices vs : List Voice)
    → resolve_named tenant_id slugs voices ≡ some vs
    → map (λ v. v.voice_id) vs ≡ slugs
unfolding resolve_named get_owned
resolve_named_slugs tenant_id [] voices vs e = let nil : vs ≡ [] = ground (arith, e) in rw nil refl
resolve_named_slugs tenant_id (x ∷ xs) voices vs e =
    elim (Option-cases (get_owned tenant_id x voices)) [
      | inl f ↦ absurd (ground (arith, e, f))
      | inr (u, f) ↦ elim (Option-cases (resolve_named tenant_id xs voices)) [
        | inl g ↦ absurd (ground (arith, e, f, g))
        | inr (us, g) ↦
            let parts : vs ≡ u ∷ us = ground (arith, e, f, g) in
            let slug_is : u.voice_id ≡ x =
              ground (arith, find_passes (is_owned_slug tenant_id x) voices {r = u} f) in
            rw parts (
              ap (λ (s : ℕ). s ∷ map (λ v. v.voice_id) us) slug_is
              ∙ ap (λ (l : List ℕ). x ∷ l) (resolve_named_slugs tenant_id xs voices us g))
      ]
    ]

-- The voices that named slugs stand for have those slugs, in their order.
pub resolve_slugs :
    (tenant_id : ℕ) (slugs : List ℕ) (grants : List Grant) (voices vs : List Voice)
    → resolve tenant_id slugs grants voices ≡ some vs
    → (slugs ≡ []) ⊎ (map (λ v. v.voice_id) vs ≡ slugs)
unfolding resolve
resolve_slugs tenant_id [] grants voices vs e = inl refl
resolve_slugs tenant_id (slug ∷ slugs) grants voices vs e =
    inr (resolve_named_slugs tenant_id (slug ∷ slugs) voices vs e)
