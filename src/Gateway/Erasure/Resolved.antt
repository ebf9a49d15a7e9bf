-- ===== src/Gateway/Erasure/Resolved.antt =====
-- Which voices `create_data_deletion_request` of src/server/main.py takes.
use mathlib.Core.Path.{subst}
use neuro_voice.Prelude.{
  ℕ, ◌≡◌, inl, inr, refl, sym, false, some, List, [], ◌∷◌, find, find_passes, find_counted_self,
  select_where, All, All-map, All-find, All-select_where, arith, Option-cases, Bool-cases,
}
use neuro_voice.Voice.{Voice, Grant, is_owned_slug, get_owned, list_accessible}
use neuro_voice.Voice.Listing.{list_accessible-All}
use neuro_voice.Voice.Ownership.{UniqueIds}
use neuro_voice.Voice.Lifecycle.{has_id, get_by_id}
use neuro_voice.Voice.Lifecycle.Stopped.{IsHeld}
use neuro_voice.Gateway.Erasure.{resolve_named, is_unpurged_own, resolve}

-- With unique keys every row is the one that its key finds.
pub UniqueIds-find :
    (voices : List Voice) → UniqueIds voices → All (λ v. find (has_id v.id) voices ≡ some v) voices
UniqueIds-find [] unique = tt
UniqueIds-find (x ∷ voices) unique = (
  ground arith,
  All-map (λ v. find (has_id v.id) voices ≡ some v) (λ v. find (has_id v.id) (x ∷ voices) ≡ some v)
      voices
      (λ v e.
        ground (arith, e, unique v.id, find_counted_self (has_id v.id) (has_id v.id) voices v e))
      (UniqueIds-find voices (λ id. ground (arith, unique id))),
)

pub UniqueIds-IsHeld : (voices : List Voice) → UniqueIds voices → All (λ v. IsHeld v voices) voices
unfolding get_by_id
UniqueIds-IsHeld voices unique =
    All-map (λ v. find (has_id v.id) voices ≡ some v) (λ v. IsHeld v voices) voices
      (λ v e. (v, e, refl, refl)) (UniqueIds-find voices unique)

resolve_named-All :
    (P : Voice → Type 0) (tenant_id : ℕ) (slugs : List ℕ) (voices vs : List Voice)
    → ((slug : ℕ) (v : Voice) → get_owned tenant_id slug voices ≡ some v → P v)
    → resolve_named tenant_id slugs voices ≡ some vs
    → All P vs
unfolding resolve_named
resolve_named-All P tenant_id [] voices vs h e =
    let nil : vs ≡ [] = ground (arith, e) in subst (All P) (sym nil) tt
resolve_named-All P tenant_id (slug ∷ slugs) voices vs h e =
    elim (Option-cases (get_owned tenant_id slug voices)) [
      | inl f ↦ absurd (ground (arith, e, f))
      | inr (v, f) ↦ elim (Option-cases (resolve_named tenant_id slugs voices)) [
        | inl g ↦ absurd (ground (arith, e, f, g))
        | inr (us, g) ↦
            let parts : vs ≡ v ∷ us = ground (arith, e, f, g) in
            subst (All P) (sym parts)
              (h slug v f, resolve_named-All P tenant_id slugs voices us h g)
      ]
    ]

owned_only :
    (tenant_id : ℕ) (listed : List Voice)
    → All (λ v. v.owner_tenant_id ≡ tenant_id) (select_where (is_unpurged_own tenant_id) listed)
owned_only tenant_id [] = tt
owned_only tenant_id (x ∷ xs) = elim (Bool-cases (is_unpurged_own tenant_id x)) [
  | inl hit ↦ rw hit (ground (arith, hit), owned_only tenant_id xs)
  | inr miss ↦ rw miss (owned_only tenant_id xs)
]

-- What holds of every voice of the table holds of those that are taken, and the tenant owns them.
pub resolve-All :
    (P : Voice → Type 0) (tenant_id : ℕ) (slugs : List ℕ) (grants : List Grant)
    (voices vs : List Voice)
    → All P voices
    → resolve tenant_id slugs grants voices ≡ some vs
    → All P vs × All (λ v. v.owner_tenant_id ≡ tenant_id) vs
unfolding resolve get_owned
resolve-All P tenant_id [] grants voices vs all e =
    let listed = list_accessible tenant_id grants false voices in
    let own : vs ≡ select_where (is_unpurged_own tenant_id) listed = ground (arith, e) in
    subst (λ l. All P l × All (λ v. v.owner_tenant_id ≡ tenant_id) l) (sym own)
      (
        All-select_where P (is_unpurged_own tenant_id) listed
            (list_accessible-All P tenant_id grants false voices all),
        owned_only tenant_id listed,
      )
resolve-All P tenant_id (slug ∷ slugs) grants voices vs all e = (
  resolve_named-All P tenant_id (slug ∷ slugs) voices vs
      (λ i v f. All-find P (is_owned_slug tenant_id i) voices v all f) e,
  resolve_named-All (λ v. v.owner_tenant_id ≡ tenant_id) tenant_id (slug ∷ slugs) voices vs
      (λ i v f. ground (arith, find_passes (is_owned_slug tenant_id i) voices {r = v} f)) e,
)
