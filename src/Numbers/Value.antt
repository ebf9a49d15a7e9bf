-- ===== src/Numbers/Value.antt =====
-- Reading the words of src/frontend/lang_packs/tr/numbers.py back into the number.
use neuro_voice.Prelude.{
  ℕ, zero, suc, ◌+◌, ◌*◌, ◌/◌, ◌%◌, ◌^◌, ◌<◌, ◌≡◌, inl, inr, refl, ap, sym, ◌∙◌, Bool, true, false,
  Option, none, some, List, [], ◌∷◌, ◌++◌, leb, ◌==◌, if◌then◌else◌, arith, Bool-cases,
}
use mathlib.Core.List.{append_assoc, append-nil}
use native.Mathlib.Nat.{le-div_iff_mul-le, div-lt_iff_lt-mul, mod-lt, div-add-mod}
use neuro_voice.Numbers.{
  Word, ones, tens, sifir, eksi, yuz, bin, milyon, milyar, trilyon, below_thousand, scales,
  scale_words, number_words, number_to_turkish,
}

-- A reader of Turkish numbers: `group` is the number below a scale word, which is one where no word
-- stands before yuz or bin. The word of a digit counts for its last decimal place, so that an index
-- beyond the ten words of a table reads as another number.
one_if_none : ℕ → ℕ
one_if_none n = if n == 0 then 1 else n

pub read : ℕ → ℕ → List Word → ℕ
unfolding one_if_none
read total group [] = total + group
read total group (ones d ∷ ws) = read total (group + d % 10) ws
read total group (tens d ∷ ws) = read total (group + 10 * (d % 10)) ws
read total group (sifir ∷ ws) = read total group ws
read total group (eksi ∷ ws) = read total group ws
read total group (yuz ∷ ws) = read total (100 * one_if_none group) ws
read total group (bin ∷ ws) = read (total + 1_000 * one_if_none group) 0 ws
read total group (milyon ∷ ws) = read (total + 1_000_000 * group) 0 ws
read total group (milyar ∷ ws) = read (total + 1_000_000_000 * group) 0 ws
read total group (trilyon ∷ ws) = read (total + 1_000_000_000_000 * group) 0 ws

below_ten : (d : ℕ) → d < 10 → d % 10 ≡ d
below_ten d lt = omega arith

positive : (d : ℕ) → (suc d == 0) ≡ false
positive d = ground arith

not_one : (d : ℕ) → (suc (suc d) == 1) ≡ false
not_one d = ground arith

read-if_ones :
    (total group d : ℕ) (ws : List Word)
    → d < 10
    → read total group ((if d == 0 then [] else ones d ∷ []) ++ ws) ≡ read total (group + d) ws
unfolding read
read-if_ones total group zero ws lt = ap (λ g. read total g ws) (omega arith)
read-if_ones total group (suc d) ws lt =
    rw (positive d) (ap (λ r. read total (group + r) ws) (below_ten (suc d) lt))

read-if_tens :
    (total group d : ℕ) (ws : List Word)
    → d < 10
    → read total group ((if d == 0 then [] else tens d ∷ []) ++ ws) ≡ read total (group + 10 * d) ws
unfolding read
read-if_tens total group zero ws lt = ap (λ g. read total g ws) (omega arith)
read-if_tens total group (suc d) ws lt =
    rw (positive d) (ap (λ r. read total (group + 10 * r) ws) (below_ten (suc d) lt))

read-hundreds :
    (total d : ℕ) (ws : List Word)
    → d < 10
    → read total 0 ((if d == 0 then [] else if d == 1 then yuz ∷ [] else ones d ∷ yuz ∷ []) ++ ws)
      ≡ read total (100 * d) ws
unfolding read one_if_none
read-hundreds total zero ws lt = refl
read-hundreds total (suc zero) ws lt = refl
read-hundreds total (suc (suc d)) ws lt =
    rw (positive (suc d), not_one d, below_ten (suc (suc d)) lt)
      (ap (λ g. read total g ws) (ground arith))

read-below_thousand :
    (total n : ℕ) (ws : List Word)
    → n < 1000
    → read total 0 (below_thousand n ++ ws) ≡ read total n ws
unfolding below_thousand
read-below_thousand total zero ws lt = refl
read-below_thousand total (suc m) ws lt =
    rw
      (
        positive m,
        append_assoc (h (suc m / 100)) (t (suc m % 100 / 10) ++ o (suc m % 100 % 10)) ws,
        append_assoc (t (suc m % 100 / 10)) (o (suc m % 100 % 10)) ws,
      )
      (read-hundreds total (suc m / 100) (t (suc m % 100 / 10) ++ (o (suc m % 100 % 10) ++ ws))
          (omega arith)
        ∙ read-if_tens total (100 * (suc m / 100)) (suc m % 100 / 10) (o (suc m % 100 % 10) ++ ws)
            (omega arith)
        ∙ read-if_ones total (100 * (suc m / 100) + 10 * (suc m % 100 / 10)) (suc m % 100 % 10) ws
            (omega arith)
        ∙ ap (λ g. read total g ws) (omega arith))
  where
    h : ℕ → List Word
    h d = if d == 0 then [] else if d == 1 then yuz ∷ [] else ones d ∷ yuz ∷ []

    t : ℕ → List Word
    t d = if d == 0 then [] else tens d ∷ []

    o : ℕ → List Word
    o d = if d == 0 then [] else ones d ∷ []

-- A scale word and the count before it are read as the count times the value of the scale.
Reads : ℕ → Word → Type 0
Reads value name =
    (total count : ℕ) (ws : List Word)
    → 0 < count
    → count < 1000
    → read total 0 (scale_words count name ++ ws) ≡ read (total + value * count) 0 ws

read_count :
    (total count : ℕ) (name : Word) (ws : List Word)
    → count < 1000
    → read total 0 ((below_thousand count ++ name ∷ []) ++ ws) ≡ read total count (name ∷ ws)
read_count total count name ws lt =
    rw (append_assoc (below_thousand count) (name ∷ []) ws)
      (read-below_thousand total count (name ∷ ws) lt)

bin-Reads : Reads 1_000 bin
unfolding Reads read one_if_none
bin-Reads total zero ws pos lt = ground arith
bin-Reads total (suc zero) ws pos lt = refl
bin-Reads total (suc (suc c)) ws pos lt =
    rw (not_one c) (read_count total (suc (suc c)) bin ws lt ∙ rw (positive (suc c)) refl)

milyon-Reads : Reads 1_000_000 milyon
unfolding Reads read
milyon-Reads total count ws pos lt = read_count total count milyon ws lt

milyar-Reads : Reads 1_000_000_000 milyar
unfolding Reads read
milyar-Reads total count ws pos lt = read_count total count milyar ws lt

trilyon-Reads : Reads 1_000_000_000_000 trilyon
unfolding Reads read
trilyon-Reads total count ws pos lt = read_count total count trilyon ws lt

-- The words of n below `bound` are read back as n.
ReadsBelow : ℕ → List (ℕ × Word) → Type 0
ReadsBelow bound names = (total n : ℕ) → n < bound → read total 0 (number_words names n) ≡ total + n

number_words-nil : ReadsBelow 1_000 []
unfolding ReadsBelow number_words read
number_words-nil total zero lt = refl
number_words-nil total (suc n) lt =
    ap (read total 0) (no_words (suc n == 0) (positive n) (below_thousand (suc n)))
    ∙ ap (read total 0) (sym (append-nil (below_thousand (suc n))))
    ∙ read-below_thousand total (suc n) [] lt
  where
    no_words : (b : Bool) → b ≡ false → (ws : List Word) → (if b then [] else ws) ≡ ws
    no_words true e ws = ground (arith, e)
    no_words false e ws = refl

sum_assoc : (a b c : ℕ) → a + b + c ≡ a + (b + c)
sum_assoc a b c = omega arith

number_words-cons :
    (value : ℕ) (name : Word) (rest : List (ℕ × Word)) (total n : ℕ)
    → Reads value name
    → ReadsBelow value rest
    → 0 < value
    → n < 1000 * value
    → read total 0 (number_words ((value, name) ∷ rest) n) ≡ total + n
unfolding Reads ReadsBelow number_words
number_words-cons value name rest total n reads below pos lt = elim (Bool-cases (leb value n)) [
  | inl e ↦ rw e (
      reads total (n / value) (number_words rest (n % value))
        ((le-div_iff_mul-le pos).1 (ground (arith, e))) ((div-lt_iff_lt-mul pos).1 lt)
      ∙ below (total + value * (n / value)) (n % value) (mod-lt n pos)
      ∙ sum_assoc total (value * (n / value)) (n % value)
      ∙ ap (λ m. total + m) (div-add-mod n value))
  | inr e ↦ rw e (below total n (ground (arith, e)))
]

number_words-ReadsBelow : ReadsBelow (10 ^ 15) scales
unfolding ReadsBelow
number_words-ReadsBelow total n lt = from_trilyon total n lt
  where
    from_bin : ReadsBelow 1_000_000 ((1_000, bin) ∷ [])
    from_bin t m l = number_words-cons 1_000 bin [] t m bin-Reads number_words-nil (omega arith) l

    from_milyon : ReadsBelow 1_000_000_000 ((1_000_000, milyon) ∷ (1_000, bin) ∷ [])
    from_milyon t m l =
        number_words-cons 1_000_000 milyon _ t m milyon-Reads from_bin (omega arith) l

    from_milyar :
        ReadsBelow 1_000_000_000_000
          ((1_000_000_000, milyar) ∷ (1_000_000, milyon) ∷ (1_000, bin) ∷ [])
    from_milyar t m l =
        number_words-cons 1_000_000_000 milyar _ t m milyar-Reads from_milyon (omega arith) l

    from_trilyon : ReadsBelow (10 ^ 15) scales
    from_trilyon t m l =
        number_words-cons 1_000_000_000_000 trilyon _ t m trilyon-Reads from_milyar (omega arith) l

pub read_reply : Option (List Word) → Option ℕ
read_reply none = none
read_reply (some ws) = some (read 0 0 ws)

read-sifir : read 0 0 (sifir ∷ []) ≡ 0
unfolding read
read-sifir = refl

read-number_words : (n : ℕ) → n < 10 ^ 15 → read 0 0 (number_words scales n) ≡ n
unfolding ReadsBelow
read-number_words n lt = number_words-ReadsBelow 0 n lt ∙ zero_add n
  where
    zero_add : (m : ℕ) → 0 + m ≡ m
    zero_add m = omega arith

read-eksi : (ws : List Word) → read 0 0 (eksi ∷ ws) ≡ read 0 0 ws
unfolding read
read-eksi ws = refl

-- The words of every number below 10^15 are read back as that number, and exactly the numbers from
-- 10^15 on have no words. A minus sign changes neither.
pub read-number_to_turkish :
    (negative : Bool) (n : ℕ)
    → read_reply (number_to_turkish negative n) ≡ (if leb (10 ^ 15) n then none else some n)
unfolding number_to_turkish read_reply
read-number_to_turkish negative zero = ap some read-sifir
read-number_to_turkish negative (suc n) = elim (Bool-cases (leb (10 ^ 15) (suc n))) [
  | inl e ↦ rw (positive n, e) refl
  | inr e ↦ rw (positive n, e) (by_sign negative (ground (arith, e)))
]
  where
    by_sign :
        (b : Bool)
        → suc n < 10 ^ 15
        → some (
            read 0 0
              (if b then eksi ∷ number_words scales (suc n) else number_words scales (suc n)))
          ≡ some (suc n)
    by_sign true lt =
        ap some (read-eksi (number_words scales (suc n))) ∙ ap some (read-number_words (suc n) lt)
    by_sign false lt = ap some (read-number_words (suc n) lt)
