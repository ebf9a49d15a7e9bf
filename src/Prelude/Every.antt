-- ===== src/Prelude/Every.antt =====
-- What every row of a table satisfies, and what it still satisfies after an UPDATE.
use mathlib.Core.Path.{◌≡◌, subst}
use mathlib.Core.Bool.{Bool}
use mathlib.Core.Option.{some}
use mathlib.Core.Logic.{◌⊎◌, inl, inr}
use mathlib.Core.List.{List, [], ◌∷◌}
use native.Mathlib.Omega.{arith}
use neuro_voice.Prelude.Tests.{Bool-cases}
use neuro_voice.Prelude.Rows.{find, update_where, select_where}

-- Every row satisfies P.
abbrev pub All {ℓ κ} : {A : Type ℓ} → (A → Type κ) → List A → Type κ
All P [] = Unit
All P (r ∷ rs) = P r × All P rs

pub All-update_where {ℓ κ μ} :
    {A : Type ℓ} (P : A → Type κ) (Q : A → Type μ) (p : A → Bool) (f : A → A) (rs : List A)
    → ((a : A) → P a → Q (f a))
    → ((a : A) → P a → Q a)
    → All P rs
    → All Q (update_where p f rs)
All-update_where P Q p f [] h k all = tt
All-update_where P Q p f (x ∷ rs) h k all = elim (Bool-cases (p x)) [
  | inl hit ↦ rw hit (h x all.0, All-update_where P Q p f rs h k all.1)
  | inr miss ↦ rw miss (k x all.0, All-update_where P Q p f rs h k all.1)
]

pub All-map {ℓ κ μ} :
    {A : Type ℓ} (P : A → Type κ) (Q : A → Type μ) (rs : List A)
    → ((a : A) → P a → Q a)
    → All P rs
    → All Q rs
All-map P Q [] h all = tt
All-map P Q (x ∷ rs) h all = (h x all.0, All-map P Q rs h all.1)

pub All-select_where {ℓ κ} :
    {A : Type ℓ} (P : A → Type κ) (p : A → Bool) (rs : List A)
    → All P rs
    → All P (select_where p rs)
All-select_where P p [] all = tt
All-select_where P p (x ∷ rs) all = elim (Bool-cases (p x)) [
  | inl hit ↦ rw hit (all.0, All-select_where P p rs all.1)
  | inr miss ↦ rw miss (All-select_where P p rs all.1)
]

pub All-find {ℓ κ} :
    {A : Type ℓ} (P : A → Type κ) (p : A → Bool) (rs : List A) (r : A)
    → All P rs
    → find p rs ≡ some r
    → P r
All-find P p [] r all e = absurd (ground (arith, e))
All-find P p (x ∷ rs) r all e = elim (Bool-cases (p x)) [
  | inl hit ↦ subst P (ground (arith, e, hit)) all.0
  | inr miss ↦ All-find P p rs r all.1 (ground (arith, e, miss))
]

-- After an UPDATE that the query does not notice, the row that was found is found, changed or not.
pub find-update_kept {ℓ} :
    {A : Type ℓ} (p q : A → Bool) (f : A → A) (rs : List A) (r : A)
    → ((a : A) → p (f a) ≡ p a)
    → find p rs ≡ some r
    → (find p (update_where q f rs) ≡ some r) ⊎ (find p (update_where q f rs) ≡ some (f r))
find-update_kept p q f [] r h e = inl (absurd (ground (arith, e)))
find-update_kept p q f (x ∷ rs) r h e = elim (Bool-cases (p x)) [
  | inl hit ↦
      let same : x ≡ r = ground (arith, e, hit) in
      elim (Bool-cases (q x)) [
        | inl changes ↦ inr (ground (arith, same, hit, changes, h x))
        | inr stays ↦ inl (ground (arith, same, hit, stays))
      ]
  | inr miss ↦ elim (find-update_kept p q f rs r h (ground (arith, e, miss))) [
    | inl g ↦ inl (ground (arith, miss, g, h x))
    | inr g ↦ inr (ground (arith, miss, g, h x))
  ]
]
