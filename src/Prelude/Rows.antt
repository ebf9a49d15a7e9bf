-- ===== src/Prelude/Rows.antt =====
-- A table is a list of rows. A query takes the first row that passes its test, an UPDATE changes
-- every row that passes, a DELETE drops them.
use Prim.Native.Nat.{ℕ, suc, ◌≤◌}
use mathlib.Core.Path.{◌≡◌, refl}
use mathlib.Core.Bool.{Bool, true, false}
use mathlib.Core.Option.{Option, none, some}
use mathlib.Core.Logic.{inl, inr}
use mathlib.Core.List.{List, [], ◌∷◌}
use native.Mathlib.Omega.{arith}
use neuro_voice.Prelude.Tests.{if◌then◌else◌, Bool-cases}

module _ {ℓ} {A : Type ℓ} where
  -- `scalar_one_or_none`, or `LIMIT 1`
  abbrev pub find : (A → Bool) → List A → Option A
  find p [] = none
  find p (r ∷ rs) = if p r then some r else find p rs

  abbrev pub update_where : (A → Bool) → (A → A) → List A → List A
  update_where p f [] = []
  update_where p f (r ∷ rs) = (if p r then f r else r) ∷ update_where p f rs

  abbrev pub delete_where : (A → Bool) → List A → List A
  delete_where p [] = []
  delete_where p (r ∷ rs) = if p r then delete_where p rs else r ∷ delete_where p rs

  abbrev pub select_where : (A → Bool) → List A → List A
  select_where p [] = []
  select_where p (r ∷ rs) = if p r then r ∷ select_where p rs else select_where p rs

  -- The number of rows that pass.
  abbrev pub count_where : (A → Bool) → List A → ℕ
  count_where p [] = 0
  count_where p (r ∷ rs) = if p r then suc (count_where p rs) else count_where p rs

  pub find_passes : (p : A → Bool) (rs : List A) {r : A} → find p rs ≡ some r → p r ≡ true
  find_passes p [] e = ground arith
  find_passes p (x ∷ rs) e = elim (Bool-cases (p x)) [
    | inl hit ↦ ground arith
    | inr miss ↦ find_passes p rs (ground arith)
  ]

  -- A row that a narrower query finds is found, as some row, by a wider one.
  pub find_wider :
      (p q : A → Bool) (rs : List A) {r : A}
      → ((a : A) → p a ≡ true → q a ≡ true)
      → find p rs ≡ some r
      → (s : A) × (find q rs ≡ some s)
  find_wider p q [] h e = ground arith
  find_wider p q (x ∷ rs) {r} h e = elim (Bool-cases (q x)) [
    | inl hit ↦ (x, ground arith)
    | inr miss ↦
        let (s, found) = find_wider p q rs {r = r} h (ground (arith, h x)) in (s, ground arith)
  ]

  pub count-delete_where : (p : A → Bool) (rs : List A) → count_where p (delete_where p rs) ≡ 0
  count-delete_where p [] = refl
  count-delete_where p (x ∷ rs) = ground (arith, count-delete_where p rs)

  pub find-delete_where : (p : A → Bool) (rs : List A) → find p (delete_where p rs) ≡ none
  find-delete_where p [] = refl
  find-delete_where p (x ∷ rs) = ground (arith, find-delete_where p rs)

  -- Rows that fail the test of a DELETE are looked up as before.
  pub find-delete_other :
      (p q : A → Bool) (rs : List A)
      → ((a : A) → q a ≡ true → p a ≡ false)
      → find q (delete_where p rs) ≡ find q rs
  find-delete_other p q [] h = refl
  find-delete_other p q (x ∷ rs) h = ground (arith, find-delete_other p q rs h, h x)

  -- Rows that fail the test of an UPDATE are selected as before, if the test of the query does
  -- not change under it.
  pub select-update_other :
      (p q : A → Bool) (f : A → A) (rs : List A)
      → ((a : A) → p a ≡ true → q a ≡ false)
      → ((a : A) → p a ≡ true → q (f a) ≡ false)
      → select_where q (update_where p f rs) ≡ select_where q rs
  select-update_other p q f [] h k = refl
  select-update_other p q f (x ∷ rs) h k =
      ground (arith, select-update_other p q f rs h k, h x, k x)

  pub select-delete_other :
      (p q : A → Bool) (rs : List A)
      → ((a : A) → p a ≡ true → q a ≡ false)
      → select_where q (delete_where p rs) ≡ select_where q rs
  select-delete_other p q [] h = refl
  select-delete_other p q (x ∷ rs) h = ground (arith, select-delete_other p q rs h, h x)

  pub count-update_same :
      (p q : A → Bool) (f : A → A) (rs : List A)
      → ((a : A) → q (f a) ≡ q a)
      → count_where q (update_where p f rs) ≡ count_where q rs
  count-update_same p q f [] h = refl
  count-update_same p q f (x ∷ rs) h = ground (arith, count-update_same p q f rs h, h x)

  pub count-delete-le :
      (p q : A → Bool) (rs : List A) → count_where q (delete_where p rs) ≤ count_where q rs
  count-delete-le p q [] = omega arith
  count-delete-le p q (x ∷ rs) = ground (arith, count-delete-le p q rs)

  pub find-none_count : (p : A → Bool) (rs : List A) → find p rs ≡ none → count_where p rs ≡ 0
  find-none_count p [] e = refl
  find-none_count p (x ∷ rs) e = ground (arith, find-none_count p rs)

  pub update_where-none :
      (p : A → Bool) (f : A → A) (rs : List A) → count_where p rs ≡ 0 → update_where p f rs ≡ rs
  update_where-none p f [] h = refl
  update_where-none p f (x ∷ rs) h = ground (arith, update_where-none p f rs)

  pub find_counted :
      (p q : A → Bool) (rs : List A) {r : A}
      → ((a : A) → p a ≡ true → q a ≡ true)
      → find p rs ≡ some r
      → 1 ≤ count_where q rs
  find_counted p q [] h e = ground arith
  find_counted p q (x ∷ rs) {r} h e = ground (arith, find_counted p q rs {r = r} h, h x)

  -- An UPDATE by a key that one row has, a row that no query `u` takes before or after it.
  pub select-update_key :
      (p q u : A → Bool) (f : A → A) (rs : List A) {r : A}
      → ((a : A) → p a ≡ true → q a ≡ true)
      → ((a : A) → p a ≡ true → (u a ≡ false) × (u (f a) ≡ false))
      → find p rs ≡ some r
      → count_where q rs ≤ 1
      → select_where u (update_where q f rs) ≡ select_where u rs
  select-update_key p q u f [] h k e c = refl
  select-update_key p q u f (x ∷ rs) {r} h k e c = elim (Bool-cases (p x)) [
    | inl hit ↦ ground (arith, h x hit, k x hit, update_where-none q f rs)
    | inr miss ↦
        ground (arith, find_counted p q rs {r = r} h, select-update_key p q u f rs {r = r} h k)
  ]

  -- The row that was found is found again, changed, after an UPDATE by a key that it alone has.
  pub find-update_key :
      (p q : A → Bool) (f : A → A) (rs : List A) {r : A}
      → ((a : A) → p a ≡ true → q a ≡ true)
      → ((a : A) → p (f a) ≡ p a)
      → find p rs ≡ some r
      → find p (update_where q f rs) ≡ some (f r)
  find-update_key p q f [] h k e = ground arith
  find-update_key p q f (x ∷ rs) {r} h k e =
      ground (arith, find-update_key p q f rs {r = r} h k, h x, k x)

  pub find_counted_self :
      (p q : A → Bool) (rs : List A) (r : A)
      → find p rs ≡ some r
      → q r ≡ true
      → 1 ≤ count_where q rs
  find_counted_self p q [] r e h = ground arith
  find_counted_self p q (x ∷ rs) r e h = ground (arith, find_counted_self p q rs r)

  -- A narrower query finds the row that the wider one found, if that row passes.
  pub find_narrower :
      (p q : A → Bool) (rs : List A) (r : A)
      → ((a : A) → p a ≡ true → q a ≡ true)
      → find q rs ≡ some r
      → p r ≡ true
      → find p rs ≡ some r
  find_narrower p q [] r h e g = ground (arith, e)
  find_narrower p q (x ∷ rs) r h e g = elim (Bool-cases (q x)) [
    | inl hit ↦ ground (arith, e, g, hit)
    | inr miss ↦ ground (arith, e, miss, h x, find_narrower p q rs r h (ground (arith, e, miss)) g)
  ]

  -- An UPDATE by a key of the row that `p` found, which no other row has.
  pub select-update_found :
      (p q u : A → Bool) (f : A → A) (rs : List A) (r : A)
      → ((a : A) → p a ≡ true → (u a ≡ false) × (u (f a) ≡ false))
      → find p rs ≡ some r
      → q r ≡ true
      → count_where q rs ≤ 1
      → select_where u (update_where q f rs) ≡ select_where u rs
  select-update_found p q u f [] r k e h c = refl
  select-update_found p q u f (x ∷ rs) r k e h c = elim (Bool-cases (p x)) [
    | inl hit ↦ ground (arith, k x hit, update_where-none q f rs)
    | inr miss ↦ ground (arith, find_counted_self p q rs r, select-update_found p q u f rs r k)
  ]
