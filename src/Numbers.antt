-- ===== src/Numbers.antt =====
-- src/frontend/lang_packs/tr/numbers.py. The words of a number are a list, which `" ".join` turns
-- into text, and a word is the table that it stands in and its index.
pub mod Value
mod Tests
use neuro_voice.Prelude.{
  ℕ, zero, suc, ◌+◌, ◌-◌, ◌*◌, ◌/◌, ◌%◌, ◌^◌, Bool, true, false, ◌&&◌, Option, none, some, List, [],
  ◌∷◌, ◌++◌, ltb, leb, ◌==◌, if◌then◌else◌,
}

-- `ones d` and `tens d` are entries of `_ONES` and `_TENS`.
pub data Word : Type 0 where
  ones tens : ℕ → Word
  sifir eksi yuz bin milyon milyar trilyon : Word

-- `_below_thousand`
pub below_thousand : ℕ → List Word
below_thousand n =
    let hundreds = n / 100 in
    let rem = n % 100 in
    let h =
      if hundreds == 0 then [] else if hundreds == 1 then yuz ∷ [] else ones hundreds ∷ yuz ∷ [] in
    let t = if rem / 10 == 0 then [] else tens (rem / 10) ∷ [] in
    let o = if rem % 10 == 0 then [] else ones (rem % 10) ∷ [] in
    if n == 0 then [] else h ++ (t ++ o)

-- `_SCALES`
abbrev pub scales : List (ℕ × Word)
scales =
    (1_000_000_000_000, trilyon) ∷ (1_000_000_000, milyar) ∷ (1_000_000, milyon) ∷ (1_000, bin) ∷ []

abbrev pub is_bin : Word → Bool
is_bin bin = true
is_bin _ = false

-- One part of the loop over the scales: "bin" alone is 1000.
abbrev pub scale_words : ℕ → Word → List Word
scale_words count name =
    if is_bin name && (count == 1) then bin ∷ [] else below_thousand count ++ name ∷ []

-- The loop, and the remainder after it.
pub number_words : List (ℕ × Word) → ℕ → List Word
unfolding below_thousand
number_words [] remainder = if remainder == 0 then [] else below_thousand remainder
number_words ((value, name) ∷ rest) remainder =
    let parts = if leb value remainder then scale_words (remainder / value) name else [] in
    parts ++ number_words rest (if leb value remainder then remainder % value else remainder)

-- `number_to_turkish` of n, or of -n where `negative` is set. None is the ValueError.
pub number_to_turkish : Bool → ℕ → Option (List Word)
unfolding number_words
number_to_turkish negative n =
    if n == 0
    then some (sifir ∷ [])
    else if leb (10 ^ 15) n
    then none
    else some (if negative then eksi ∷ number_words scales n else number_words scales n)
