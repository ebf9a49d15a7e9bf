-- ===== src/Voice/Listing.antt =====
-- What a listing of `VoiceRepo` holds (src/repos/voice.py).
use mathlib.Core.List.{Memᴰ}
use mathlib.Core.List.Memᴰ.{not-nil, cases_cons}
use neuro_voice.Prelude.{
  ℕ, ◌≤◌, ◌≡◌, refl, ◌∙◌, sym, ap, ◌⊎◌, inl, inr, Bool-cases, none, Bool, true, false, ◌&&◌, List,
  [], ◌∷◌, arith, leb, if◌then◌else◌, select_where, count_where, All, All-map, All-select_where,
}
use neuro_voice.Voice.{Voice, Grant, is_listed, list_accessible, sort_by_slug, insert_by_slug}

-- The voices of a list are in the order of their slugs.
abbrev pub InOrder : List Voice → Type 0
InOrder [] = Unit {0}
InOrder (v ∷ vs) = All (λ w. v.voice_id ≤ w.voice_id) vs × InOrder vs

insert-All :
    (P : Voice → Type 0) (v : Voice) (vs : List Voice)
    → P v
    → All P vs
    → All P (insert_by_slug v vs)
unfolding insert_by_slug
insert-All P v [] p a = (p, tt)
insert-All P v (w ∷ ws) p a = by_test (leb v.voice_id w.voice_id) (insert-All P v ws p a.1)
  where
    by_test :
        (b : Bool)
        → All P (insert_by_slug v ws)
        → All P (if b then v ∷ w ∷ ws else w ∷ insert_by_slug v ws)
    by_test true rest = (p, a)
    by_test false rest = (a.0, rest)

insert-InOrder : (v : Voice) (vs : List Voice) → InOrder vs → InOrder (insert_by_slug v vs)
unfolding insert_by_slug
insert-InOrder v [] o = (tt, tt)
insert-InOrder v (w ∷ ws) o = by_test (leb v.voice_id w.voice_id) refl (insert-InOrder v ws o.1)
  where
    by_test :
        (b : Bool)
        → leb v.voice_id w.voice_id ≡ b
        → InOrder (insert_by_slug v ws)
        → InOrder (if b then v ∷ w ∷ ws else w ∷ insert_by_slug v ws)
    by_test true e rest = (
      (
        ground (arith, e),
        All-map (λ x. w.voice_id ≤ x.voice_id) (λ x. v.voice_id ≤ x.voice_id) ws
            (λ x h. ground (arith, e, h)) o.0,
      ),
      o,
    )
    by_test false e rest =
        (insert-All (λ x. w.voice_id ≤ x.voice_id) v ws (ground (arith, e)) o.0, rest)

count-insert :
    (q : Voice → Bool) (v : Voice) (vs : List Voice)
    → count_where q (insert_by_slug v vs) ≡ count_where q (v ∷ vs)
unfolding insert_by_slug
count-insert q v [] = refl
count-insert q v (w ∷ ws) = ground (arith, count-insert q v ws)

sort-InOrder : (vs : List Voice) → InOrder (sort_by_slug vs)
unfolding sort_by_slug
sort-InOrder [] = tt
sort-InOrder (v ∷ vs) = insert-InOrder v (sort_by_slug vs) (sort-InOrder vs)

count-sort :
    (q : Voice → Bool) (vs : List Voice) → count_where q (sort_by_slug vs) ≡ count_where q vs
unfolding sort_by_slug
count-sort q [] = refl
count-sort q (v ∷ vs) = ground (arith, count-insert q v (sort_by_slug vs), count-sort q vs)

count-select :
    (p q : Voice → Bool) (vs : List Voice)
    → count_where q (select_where p vs) ≡ count_where (λ v. p v && q v) vs
count-select p q [] = refl
count-select p q (v ∷ vs) = ground (arith, count-select p q vs)

-- The listing of a tenant is in the order of the slugs, and holds exactly the voices that are its
-- own, public or granted to it, each as often as the table does, and of these the live ones alone
-- unless the deleted ones are asked for.
pub list_accessible_lem :
    (tenant_id : ℕ) (grants : List Grant) (include_deleted : Bool) (voices : List Voice)
    → let listed = list_accessible tenant_id grants include_deleted voices in
      InOrder listed
      × ((q : Voice → Bool)
          → count_where q listed
            ≡ count_where (λ v. is_listed tenant_id grants include_deleted v && q v) voices)
unfolding list_accessible
list_accessible_lem tenant_id grants include_deleted voices =
    let p = is_listed tenant_id grants include_deleted in
    (
      sort-InOrder (select_where p voices),
      λ q. count-sort q (select_where p voices) ∙ count-select p q voices,
    )

sort-All : (P : Voice → Type 0) (vs : List Voice) → All P vs → All P (sort_by_slug vs)
unfolding sort_by_slug
sort-All P [] all = tt
sort-All P (v ∷ vs) all = insert-All P v (sort_by_slug vs) all.0 (sort-All P vs all.1)

-- What holds of every voice of the table holds of every voice of a listing.
pub list_accessible-All :
    (P : Voice → Type 0) (tenant_id : ℕ) (grants : List Grant) (include_deleted : Bool)
    (voices : List Voice)
    → All P voices
    → All P (list_accessible tenant_id grants include_deleted voices)
unfolding list_accessible
list_accessible-All P tenant_id grants include_deleted voices all =
    sort-All P (select_where (is_listed tenant_id grants include_deleted) voices)
      (All-select_where P (is_listed tenant_id grants include_deleted) voices all)

pub Memᴰ-select_where :
    (p : Voice → Bool) (v : Voice) (vs : List Voice)
    → p v ≡ true
    → Memᴰ v vs
    → Memᴰ v (select_where p vs)
Memᴰ-select_where p v [] e mem = absurd (not-nil mem)
Memᴰ-select_where p v (x ∷ vs) e mem = elim (cases_cons mem) [
  | inl same ↦ rw (ap p (sym same) ∙ e) (Memᴰ.head same)
  | inr rest ↦ elim (Bool-cases (p x)) [
    | inl hit ↦ rw hit (Memᴰ.tail (Memᴰ-select_where p v vs e rest))
    | inr miss ↦ rw miss (Memᴰ-select_where p v vs e rest)
  ]
]

Memᴰ-insert : (v w : Voice) (vs : List Voice) → (w ≡ v) ⊎ Memᴰ w vs → Memᴰ w (insert_by_slug v vs)
unfolding insert_by_slug
Memᴰ-insert v w [] (inl same) = Memᴰ.head same
Memᴰ-insert v w [] (inr mem) = absurd (not-nil mem)
Memᴰ-insert v w (x ∷ xs) (inl same) = elim (Bool-cases (leb v.voice_id x.voice_id)) [
  | inl e ↦ rw e (Memᴰ.head same)
  | inr e ↦ rw e (Memᴰ.tail (Memᴰ-insert v w xs (inl same)))
]
Memᴰ-insert v w (x ∷ xs) (inr mem) = elim (Bool-cases (leb v.voice_id x.voice_id)) [
  | inl e ↦ rw e (Memᴰ.tail mem)
  | inr e ↦ elim (cases_cons mem) [
    | inl same ↦ rw e (Memᴰ.head same)
    | inr rest ↦ rw e (Memᴰ.tail (Memᴰ-insert v w xs (inr rest)))
  ]
]

Memᴰ-sort : (w : Voice) (vs : List Voice) → Memᴰ w vs → Memᴰ w (sort_by_slug vs)
unfolding sort_by_slug
Memᴰ-sort w [] mem = absurd (not-nil mem)
Memᴰ-sort w (v ∷ vs) mem = elim (cases_cons mem) [
  | inl same ↦ Memᴰ-insert v w (sort_by_slug vs) (inl same)
  | inr rest ↦ Memᴰ-insert v w (sort_by_slug vs) (inr (Memᴰ-sort w vs rest))
]

-- The owner's live voices are in the listing of the owner.
pub Memᴰ-list_accessible :
    (tenant_id : ℕ) (grants : List Grant) (v : Voice) (voices : List Voice)
    → v.owner_tenant_id ≡ tenant_id
    → v.deleted_at ≡ none
    → Memᴰ v voices
    → Memᴰ v (list_accessible tenant_id grants false voices)
unfolding list_accessible
Memᴰ-list_accessible tenant_id grants v voices own live mem =
    let p = is_listed tenant_id grants false in
    Memᴰ-sort v (select_where p voices)
      (Memᴰ-select_where p v voices (ground (arith, own, live)) mem)
