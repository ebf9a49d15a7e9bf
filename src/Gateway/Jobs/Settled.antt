-- ===== src/Gateway/Jobs/Settled.antt =====
-- What the workers do to the rows of job_idempotency while they live (src/repos/idempotency.py).
use neuro_voice.Prelude.{
  ℕ, none, ◌≡◌, ◌⊎◌, inl, inr, refl, ap, ◌∙◌, Bool, Option, some, List, [], ◌∷◌, find, update_where,
  arith, Option-cases, Bool-cases,
}
use neuro_voice.Idempotency.{
  Row, Table, AlignmentEntry, has_key, is_visible, get, complete, completed, fail, marked_failed,
}

-- A row is completed or failed, of any tenant and at any time.
pub data Settling : Type 0 where
  completes : ℕ → ℕ → Option ℕ → Option (List AlignmentEntry) → ℕ → Settling
  fails : ℕ → ℕ → ℕ → Settling

abbrev pub settle_one : Settling → Table → Table
settle_one (completes tenant_id key uri alignment now) table =
    complete tenant_id key uri alignment now table
settle_one (fails tenant_id key now) table = fail tenant_id key now table

pub settle_rows : List Settling → Table → Table
settle_rows [] table = table
settle_rows (x ∷ xs) table = settle_rows xs (settle_one x table)

-- The row is still found, with the hash and the time that it had.
abbrev pub Kept : ℕ → ℕ → ℕ → Row → Table → Type 0
Kept tenant_id key now row table =
    (found : Row) × (get tenant_id key now table ≡ some found)
    × (found.request_hash ≡ row.request_hash)
    × (found.created_at ≡ row.created_at)

find-update_where :
    (p q : Row → Bool) (f : Row → Row) (rs : Table) (r : Row)
    → ((a : Row) → p (f a) ≡ p a)
    → find p rs ≡ some r
    → (r' : Row) × (find p (update_where q f rs) ≡ some r') × ((r' ≡ r) ⊎ (r' ≡ f r))
find-update_where p q f [] r h e = absurd (ground (arith, e))
find-update_where p q f (x ∷ rs) r h e = elim (Bool-cases (p x)) [
  | inl hit ↦
      let same : x ≡ r = ground (arith, e, hit) in
      elim (Bool-cases (q x)) [
        | inl g ↦ rw g (f x, rw (h x ∙ hit) refl, inr (ap f same))
        | inr g ↦ rw g (x, rw hit refl, inl same)
      ]
  | inr miss ↦
      let (r', found, is) = find-update_where p q f rs r h (ground (arith, e, miss)) in
      elim (Bool-cases (q x)) [
        | inl g ↦ rw g (r', rw (h x ∙ miss) found, is)
        | inr g ↦ rw g (r', rw miss found, is)
      ]
]

Kept-update_where :
    (tenant_id key now : ℕ) (row : Row) (q : Row → Bool) (f : Row → Row) (table : Table)
    → ((a : Row) → is_visible tenant_id key now (f a) ≡ is_visible tenant_id key now a)
    → ((a : Row) → ((f a).request_hash ≡ a.request_hash) × ((f a).created_at ≡ a.created_at))
    → Kept tenant_id key now row table
    → Kept tenant_id key now row (update_where q f table)
unfolding get
Kept-update_where tenant_id key now row q f table h same (r, found, hash, time) =
    let (r', found', is) = find-update_where (is_visible tenant_id key now) q f table r h found in
    elim is [
      | inl e ↦ (
        r',
        found',
        ap (λ (x : Row). x.request_hash) e ∙ hash,
        ap (λ (x : Row). x.created_at) e ∙ time,
      )
      | inr e ↦ (
        r',
        found',
        ap (λ (x : Row). x.request_hash) e ∙ (same r).0 ∙ hash,
        ap (λ (x : Row). x.created_at) e ∙ (same r).1 ∙ time,
      )
    ]

Kept-settle_one :
    (tenant_id key now : ℕ) (row : Row) (x : Settling) (table : Table)
    → Kept tenant_id key now row table
    → Kept tenant_id key now row (settle_one x table)
unfolding complete fail
Kept-settle_one tenant_id key now row (completes t k uri alignment at) table kept =
    elim (Option-cases (get t k at table)) [
      | inl e ↦ rw (e, complete) kept
      | inr (r, e) ↦
          rw (e, complete)
            (Kept-update_where tenant_id key now row (has_key r.request_id)
              (completed uri alignment) table (λ a. refl) (λ a. (refl, refl)) kept)
    ]
Kept-settle_one tenant_id key now row (fails t k at) table kept =
    elim (Option-cases (get t k at table)) [
      | inl e ↦ rw (e, fail) kept
      | inr (r, e) ↦
          rw (e, fail)
            (Kept-update_where tenant_id key now row (has_key r.request_id) marked_failed table
              (λ a. refl) (λ a. (refl, refl)) kept)
    ]

pub Kept-settle_rows :
    (tenant_id key now : ℕ) (row : Row) (xs : List Settling) (table : Table)
    → Kept tenant_id key now row table
    → Kept tenant_id key now row (settle_rows xs table)
unfolding settle_rows
Kept-settle_rows tenant_id key now row [] table kept = kept
Kept-settle_rows tenant_id key now row (x ∷ xs) table kept =
    Kept-settle_rows tenant_id key now row xs (settle_one x table)
      (Kept-settle_one tenant_id key now row x table kept)

find-update_none :
    (p q : Row → Bool) (f : Row → Row) (rs : Table)
    → ((a : Row) → p (f a) ≡ p a)
    → find p rs ≡ none
    → find p (update_where q f rs) ≡ none
find-update_none p q f [] h e = refl
find-update_none p q f (x ∷ rs) h e = elim (Bool-cases (p x)) [
  | inl hit ↦ absurd (ground (arith, e, hit))
  | inr miss ↦
      let rest = find-update_none p q f rs h (ground (arith, e, miss)) in
      elim (Bool-cases (q x)) [ inl g ↦ rw g (rw (h x ∙ miss) rest) | inr g ↦ rw g (rw miss rest) ]
]

get-settle_one-none :
    (tenant_id key now : ℕ) (x : Settling) (table : Table)
    → get tenant_id key now table ≡ none
    → get tenant_id key now (settle_one x table) ≡ none
unfolding complete fail get
get-settle_one-none tenant_id key now (completes t k uri alignment at) table e =
    elim (Option-cases (get t k at table)) [
      | inl f ↦ rw (f, complete) e
      | inr (r, f) ↦
          rw (f, complete)
            (find-update_none (is_visible tenant_id key now) (has_key r.request_id)
              (completed uri alignment) table (λ a. refl) e)
    ]
get-settle_one-none tenant_id key now (fails t k at) table e =
    elim (Option-cases (get t k at table)) [
      | inl f ↦ rw (f, fail) e
      | inr (r, f) ↦
          rw (f, fail)
            (find-update_none (is_visible tenant_id key now) (has_key r.request_id) marked_failed
              table (λ a. refl) e)
    ]

-- What a tenant does not see stays unseen.
pub get-settle_rows-none :
    (tenant_id key now : ℕ) (xs : List Settling) (table : Table)
    → get tenant_id key now table ≡ none
    → get tenant_id key now (settle_rows xs table) ≡ none
unfolding settle_rows
get-settle_rows-none tenant_id key now [] table e = e
get-settle_rows-none tenant_id key now (x ∷ xs) table e =
    get-settle_rows-none tenant_id key now xs (settle_one x table)
      (get-settle_one-none tenant_id key now x table e)
