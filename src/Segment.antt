-- ===== src/Segment.antt =====
-- Sentence segmentation, src/frontend/lang_packs/tr/segment.py. `\w` of the re module is a parameter.
pub mod Letters
pub mod Spoken
mod Tests
use neuro_voice.Prelude.{
  ℕ, zero, suc, ◌+◌, ◌/◌, Bool, true, false, ◌&&◌, ◌||◌, not, Option, none, some, List, [], ◌∷◌,
  ◌++◌, map, leb, ltb, ◌==◌, if◌then◌else◌, length, member,
}
use neuro_voice.Prelude.Text.{Text, is_space, strip}

abbrev pub min_chars : ℕ
min_chars = 12

abbrev pub max_chars : ℕ
max_chars = 240

-- `_ABBREVIATION_PERIOD_PLACEHOLDER` and the period.
abbrev pub placeholder : ℕ
placeholder = 1

abbrev pub period : ℕ
period = 46

-- `_PROTECTED_ABBREVS`
abbrev pub protected_abbrevs : List Text
protected_abbrevs =
    (68 ∷ 114 ∷ [])
    ∷ (68 ∷ 111 ∷ 231 ∷ [])
    ∷ (80 ∷ 114 ∷ 111 ∷ 102 ∷ [])
    ∷ (65 ∷ 118 ∷ [])
    ∷ (83 ∷ 110 ∷ [])
    ∷ (72 ∷ 122 ∷ [])
    ∷ (83 ∷ 110 ∷ [])
    ∷ (78 ∷ 111 ∷ [])
    ∷ (67 ∷ 97 ∷ 100 ∷ [])
    ∷ (83 ∷ 111 ∷ 107 ∷ [])
    ∷ (77 ∷ 97 ∷ 104 ∷ [])
    ∷ (65 ∷ 112 ∷ 116 ∷ [])
    ∷ (66 ∷ 108 ∷ 100 ∷ [])
    ∷ (66 ∷ 108 ∷ 118 ∷ [])
    ∷ []

-- `_PROTECTED_MULTI_PERIOD`
abbrev pub protected_multi_period : List Text
protected_multi_period =
    (75 ∷ 46 ∷ 75 ∷ 46 ∷ 84 ∷ 46 ∷ 67 ∷ [])
    ∷ (77 ∷ 46 ∷ 214 ∷ [])
    ∷ (77 ∷ 46 ∷ 83 ∷ [])
    ∷ (84 ∷ 46 ∷ 67 ∷ [])
    ∷ []

-- What follows a literal.
abbrev pub after : Text → Text → Option Text
after [] s = some s
after (p ∷ ps) [] = none
after (p ∷ ps) (c ∷ s) = let rest = after ps s in if p == c then rest else none

abbrev pub starts_with_period : Text → Bool
starts_with_period [] = false
starts_with_period (c ∷ s) = c == period

-- The length of a match of `abbrev\.?` here.
abbrev pub match_multi : Text → Text → Option ℕ
match_multi abbreviation s = elim (after abbreviation s) [
  | none ↦ none
  | some rest ↦
      some (if starts_with_period rest then length abbreviation + 1 else length abbreviation)
]

-- The length of a match of one of the abbreviations and its period.
abbrev pub match_one : List Text → Text → Option ℕ
match_one [] s = none
match_one (a ∷ as_) s =
    let others = match_one as_ s in
    elim (after a s) [
      | none ↦ others
      | some rest ↦ if starts_with_period rest then some (length a + 1) else others
    ]

abbrev pub hide : ℕ → ℕ
hide c = if c == period then placeholder else c

-- `sub` of a pattern that begins with `\b`: whether the character before is of a word, and how many
-- characters of the current match are left.
pub sub : (ℕ → Bool) → (Text → Option ℕ) → Text → Bool → ℕ → Text
sub is_word match_at [] before n = []
sub is_word match_at (c ∷ s) before (suc n) = hide c ∷ sub is_word match_at s (is_word c) n
sub is_word match_at (c ∷ s) before zero =
    let rest = sub is_word match_at s (is_word c) in
    if (before && is_word c) || (not before && not (is_word c))
    then c ∷ rest 0
    else elim (match_at (c ∷ s)) [
      | none ↦ c ∷ rest 0
      | some k ↦ elim k [ zero ↦ c ∷ rest 0 | suc n ↦ hide c ∷ rest n ]
    ]

abbrev pub protect_multi : (ℕ → Bool) → List Text → Text → Text
protect_multi is_word [] s = s
protect_multi is_word (a ∷ as_) s =
    protect_multi is_word as_ (sub is_word (match_multi a) s false 0)

pub protect_abbreviations : (ℕ → Bool) → Text → Text
unfolding sub
protect_abbreviations is_word s =
    sub is_word (match_one protected_abbrevs) (protect_multi is_word protected_multi_period s) false
      0

abbrev pub restore : ℕ → ℕ
restore c = if c == placeholder then period else c

abbrev pub restore_abbreviations : Text → Text
restore_abbreviations = map restore

-- `split` at a run of white space behind a character of a class: `plain` before it, `ended` right
-- behind such a character, `skipping` within the run.
pub data Mode : Type 0 where
  plain ended skipping : Mode

abbrev pub is_skipping : Mode → Bool
is_skipping m = elim m [ skipping ↦ true | _ ↦ false ]

abbrev pub is_ended : Mode → Bool
is_ended m = elim m [ ended ↦ true | _ ↦ false ]

-- The rest of the first piece, and the pieces after it.
pub pieces : (ℕ → Bool) → (Text → Bool) → Text → Mode → Text × List Text
pieces is_end looks_ahead [] m = ([], [])
pieces is_end looks_ahead (c ∷ s) m =
    let rest = pieces is_end looks_ahead s in
    let next = rest (if is_end c then ended else plain) in
    if is_skipping m && is_space c
    then rest skipping
    else if is_ended m && (is_space c && looks_ahead s)
    then ([], (rest skipping).0 ∷ (rest skipping).1)
    else (c ∷ next.0, next.1)

pub split : (ℕ → Bool) → (Text → Bool) → Text → List Text
unfolding pieces
split is_end looks_ahead s =
    (pieces is_end looks_ahead s plain).0 ∷ (pieces is_end looks_ahead s plain).1

-- `[.!?…]`, `[A-ZÇĞİÖŞÜ0-9"'\(]` and `[,;:]`
abbrev pub is_sentence_end : ℕ → Bool
is_sentence_end c = c == 46 || c == 33 || c == 63 || c == 8230

abbrev pub is_sentence_start : ℕ → Bool
is_sentence_start c =
    (leb 65 c && leb c 90)
    || c == 199
    || c == 286
    || c == 304
    || c == 214
    || c == 350
    || c == 220
    || (leb 48 c && leb c 57)
    || c == 34
    || c == 39
    || c == 40

abbrev pub is_clause_end : ℕ → Bool
is_clause_end c = c == 44 || c == 59 || c == 58

-- The first character behind the white space starts a sentence.
abbrev pub starts_after : Text → Bool
starts_after [] = false
starts_after (c ∷ s) = let rest = starts_after s in if is_space c then rest else is_sentence_start c

-- `[r.strip() for r in raw if r.strip()]`
abbrev pub is_blank : Text → Bool
is_blank [] = true
is_blank (c ∷ s) = false

abbrev pub stripped : List Text → List Text
stripped [] = []
stripped (r ∷ rs) = let rest = stripped rs in if is_blank (strip r) then rest else strip r ∷ rest

-- `(buf + " " + seg).strip() if buf else seg`
abbrev pub candidate : Text → Text → Text
candidate [] seg = seg
candidate (c ∷ buf) seg = strip ((c ∷ buf) ++ 32 ∷ seg)

-- `merged[-1] = (merged[-1] + " " + buf).strip()`
abbrev pub append_last : List Text → Text → List Text
append_last [] buf = buf ∷ []
append_last (m ∷ ms) buf =
    let rest = append_last ms buf in elim ms [ [] ↦ strip (m ++ 32 ∷ buf) ∷ [] | _ ↦ m ∷ rest ]

-- The loop of `_merge_short`.
pub merge_loop : List Text → List Text → Text → List Text
merge_loop [] merged buf = if is_blank buf then merged else append_last merged buf
merge_loop (seg ∷ segs) merged buf =
    let c = candidate buf seg in
    if ltb (length c) min_chars
    then merge_loop segs merged c
    else merge_loop segs (merged ++ c ∷ []) []

pub merge_short : List Text → List Text
unfolding merge_loop
merge_short segs = merge_loop segs [] []

-- `rfind(" ", 0, end)`: the last index below the end.
abbrev pub rfind : Text → ℕ → ℕ → Option ℕ → Option ℕ
rfind [] at end best = best
rfind (c ∷ s) at end best = rfind s (suc at) end (if c == 32 && ltb at end then some at else best)

abbrev pub take : ℕ → Text → Text
take zero s = []
take (suc n) [] = []
take (suc n) (c ∷ s) = c ∷ take n s

abbrev pub drop : ℕ → Text → Text
drop zero s = s
drop (suc n) [] = []
drop (suc n) (c ∷ s) = drop n s

-- The last resort; -1 of `rfind` is none.
pub split_middle : Text → List Text
split_middle segment = elim (rfind segment 0 (length segment / 2 + 40) none) [
  | none ↦ segment ∷ []
  | some ws ↦
      if ltb ws min_chars
      then segment ∷ []
      else strip (take ws segment) ∷ strip (drop ws segment) ∷ []
]

-- The loop over the parts.
pub pack_loop : List Text → List Text → Text → List Text
pack_loop [] out buf = if is_blank buf then out else out ++ buf ∷ []
pack_loop (part ∷ parts) out buf =
    let c = candidate buf part in
    if ltb max_chars (length c) && not (is_blank buf)
    then pack_loop parts (out ++ buf ∷ []) part
    else pack_loop parts out c

abbrev pub split_parts : Text → List Text → List Text
split_parts segment [] = segment ∷ []
split_parts segment (part ∷ []) = split_middle segment
split_parts segment (part ∷ p ∷ parts) = pack_loop (part ∷ p ∷ parts) [] []

pub split_long : Text → List Text
unfolding split split_middle pack_loop
split_long segment =
    if leb (length segment) max_chars
    then segment ∷ []
    else split_parts segment (split is_clause_end (λ s. true) segment)

abbrev pub expand : List Text → List Text
expand [] = []
expand (seg ∷ segs) = split_long seg ++ expand segs

pub segment_sentences : (ℕ → Bool) → Text → List Text
unfolding protect_abbreviations split merge_short split_long
segment_sentences is_word text =
    if is_blank (strip text)
    then []
    else map restore_abbreviations (
        expand (
          merge_short (
            stripped
              (split is_sentence_end starts_after (protect_abbreviations is_word (strip text))))))
