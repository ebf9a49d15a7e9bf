-- ===== src/Voice/Ownership.antt =====
-- The owner's edits touch the owner's voices only (src/repos/voice.py).
use Prim.Native.String.{String}
use neuro_voice.Prelude.{
  ℕ, ◌≤◌, ◌≡◌, refl, ◌≢◌, inl, inr, Bool, some, List, arith, ◌==◌, find, select_where, Option-cases,
  count_where, select-update_found,
}
use neuro_voice.Voice.{
  Visibility, Voice, Metadata, Reply, has_id, is_owned_slug, get_owned, mutate, update_metadata,
  next_visibility, with_metadata, soft_delete, with_deleted, set_release_status,
  parse_release_status, with_release_status, set_visibility, parse_visibility, with_visibility,
}

pub data Edit : Type 0 where
  edits : Metadata → Edit
  deletes : Edit
  releases shows : String → Edit

-- An owner-only method of the tenant's repository, on a slug.
pub apply : ℕ → ℕ → ℕ → Edit → List Voice → Reply × List Voice
apply tenant_id slug now (edits m) voices = update_metadata tenant_id slug m voices
apply tenant_id slug now deletes voices = soft_delete tenant_id slug now voices
apply tenant_id slug now (releases s) voices = set_release_status tenant_id slug s voices
apply tenant_id slug now (shows s) voices = set_visibility tenant_id slug s voices

abbrev pub is_of : ℕ → Voice → Bool
is_of tenant_id v = v.owner_tenant_id == tenant_id

abbrev pub UniqueIds : List Voice → Type 0
UniqueIds voices = (id : ℕ) → count_where (has_id id) voices ≤ 1

mutate_isolated :
    (tenant_id slug other : ℕ) (f : Voice → Voice) (voices : List Voice)
    → tenant_id ≢ other
    → ((v : Voice) → (f v).owner_tenant_id ≡ v.owner_tenant_id)
    → UniqueIds voices
    → select_where (is_of other) (mutate (get_owned tenant_id slug voices) f voices).1
      ≡ select_where (is_of other) voices
unfolding get_owned mutate
mutate_isolated tenant_id slug other f voices h k u =
    elim (Option-cases (get_owned tenant_id slug voices)) [
      | inl e ↦ rw (e, mutate) refl
      | inr (v, e) ↦ rw (e, mutate) (isolated v e)
    ]
  where
    isolated :
        (v : Voice)
        → find (is_owned_slug tenant_id slug) voices ≡ some v
        → select_where (is_of other) (mutate (some v) f voices).1
          ≡ select_where (is_of other) voices
    isolated v e =
        select-update_found (is_owned_slug tenant_id slug) (has_id v.id) (is_of other) f voices v
          (λ a p. (ground arith, ground (arith, k a))) e (ground arith) (u v.id)

-- An edit by one tenant, successful or not, neither changes, adds nor removes a voice of another
-- tenant, in a table whose keys are unique.
pub apply_isolated :
    (tenant_id slug now other : ℕ) (c : Edit) (voices : List Voice)
    → tenant_id ≢ other
    → UniqueIds voices
    → select_where (is_of other) (apply tenant_id slug now c voices).1
      ≡ select_where (is_of other) voices
unfolding apply soft_delete set_release_status set_visibility update_metadata
apply_isolated tenant_id slug now other (edits m) voices h u =
    elim (Option-cases (get_owned tenant_id slug voices)) [
      | inl e ↦ rw (e, update_metadata) refl
      | inr (v, e) ↦ elim (Option-cases (next_visibility m.visibility v)) [
        | inl bad ↦ rw (e, update_metadata) (rw bad refl)
        | inr (s, good) ↦
            rw (e, update_metadata)
              (rw good (
                rw e at (
                  mutate_isolated tenant_id slug other (with_metadata m s) voices h
                    (λ a. same m s a) u)))
      ]
    ]
  where
    same :
        (m : Metadata) (s : Visibility) (a : Voice)
        → (with_metadata m s a).owner_tenant_id ≡ a.owner_tenant_id
    same m s a = refl
apply_isolated tenant_id slug now other deletes voices h u =
    mutate_isolated tenant_id slug other (with_deleted now) voices h (λ a. refl) u
apply_isolated tenant_id slug now other (releases t) voices h u =
    elim (Option-cases (parse_release_status t)) [
      | inl e ↦ rw (e, set_release_status) refl
      | inr (s, e) ↦
          rw (e, set_release_status)
            (mutate_isolated tenant_id slug other (with_release_status s) voices h (λ a. refl) u)
    ]
apply_isolated tenant_id slug now other (shows t) voices h u =
    elim (Option-cases (parse_visibility t)) [
      | inl e ↦ rw (e, set_visibility) refl
      | inr (s, e) ↦
          rw (e, set_visibility)
            (mutate_isolated tenant_id slug other (with_visibility s) voices h (λ a. refl) u)
    ]
