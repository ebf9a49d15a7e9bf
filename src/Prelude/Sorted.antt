-- ===== src/Prelude/Sorted.antt =====
-- ORDER BY: a stable insertion sort by a test that says which row may stand first.
use mathlib.Core.Path.{◌≡◌, refl}
use mathlib.Core.Logic.{inl, inr}
use mathlib.Core.Bool.{Bool, true, false, ◌&&◌}
use mathlib.Core.List.{List, [], ◌∷◌}
use native.Mathlib.Omega.{arith}
use neuro_voice.Prelude.Tests.{if◌then◌else◌, Bool-cases}
use neuro_voice.Prelude.Rows.{count_where, select_where}
use neuro_voice.Prelude.Every.{All, All-map}

pub count-select_where {ℓ} :
    {A : Type ℓ} (q p : A → Bool) (rs : List A)
    → count_where q (select_where p rs) ≡ count_where (λ r. q r && p r) rs
count-select_where q p [] = refl
count-select_where q p (r ∷ rs) = ground (arith, count-select_where q p rs)

module _ {ℓ} {A : Type ℓ} (precedes : A → A → Bool) where
  abbrev pub insert_by : A → List A → List A
  insert_by r [] = r ∷ []
  insert_by r (x ∷ xs) = let rest = insert_by r xs in if precedes r x then r ∷ x ∷ xs else x ∷ rest

  abbrev pub order_by : List A → List A
  order_by [] = []
  order_by (r ∷ rs) = insert_by r (order_by rs)

  -- Every row may stand before each of those behind it.
  abbrev pub IsOrdered : List A → Type ℓ
  IsOrdered [] = Unit
  IsOrdered (r ∷ rs) = All (λ x. precedes r x ≡ true) rs × IsOrdered rs

  All-insert_by : (P : A → Type 0) (r : A) (xs : List A) → P r → All P xs → All P (insert_by r xs)
  All-insert_by P r [] p all = (p, tt)
  All-insert_by P r (x ∷ xs) p all = elim (Bool-cases (precedes r x)) [
    | inl e ↦ rw e (p, all)
    | inr e ↦ rw e (all.0, All-insert_by P r xs p all.1)
  ]

  count-insert_by :
      (q : A → Bool) (r : A) (xs : List A) → count_where q (insert_by r xs) ≡ count_where q (r ∷ xs)
  count-insert_by q r [] = refl
  count-insert_by q r (x ∷ xs) = ground (arith, count-insert_by q r xs)

  pub count-order_by : (q : A → Bool) (rs : List A) → count_where q (order_by rs) ≡ count_where q rs
  count-order_by q [] = refl
  count-order_by q (r ∷ rs) = ground (arith, count-insert_by q r (order_by rs), count-order_by q rs)

  module _ (total : (a b : A) → precedes a b ≡ false → precedes b a ≡ true)
      (trans : (a b c : A) → precedes a b ≡ true → precedes b c ≡ true → precedes a c ≡ true) where
    insert_by-IsOrdered : (r : A) (xs : List A) → IsOrdered xs → IsOrdered (insert_by r xs)
    insert_by-IsOrdered r [] o = (tt, tt)
    insert_by-IsOrdered r (x ∷ xs) o = elim (Bool-cases (precedes r x)) [
      | inl e ↦ rw e (
        (
          e,
          All-map (λ y. precedes x y ≡ true) (λ y. precedes r y ≡ true) xs (λ y h. trans r x y e h)
              o.0,
        ),
        o,
      )
      | inr e ↦ rw e (
        All-insert_by (λ y. precedes x y ≡ true) r xs (total r x e) o.0,
        insert_by-IsOrdered r xs o.1,
      )
    ]

    pub order_by-IsOrdered : (rs : List A) → IsOrdered (order_by rs)
    order_by-IsOrdered [] = tt
    order_by-IsOrdered (r ∷ rs) = insert_by-IsOrdered r (order_by rs) (order_by-IsOrdered rs)
