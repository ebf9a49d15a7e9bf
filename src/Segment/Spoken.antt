-- ===== src/Segment/Spoken.antt =====
-- `segment_sentences` of src/frontend/lang_packs/tr/segment.py loses nothing that is spoken.
use mathlib.Core.Path.{subst}
use neuro_voice.Prelude.{
  ℕ, zero, suc, ◌≡◌, inl, inr, refl, sym, ap, ◌∙◌, Bool, true, false, ◌&&◌, ◌||◌, not, Option, List,
  [], ◌∷◌, ◌++◌, map, ◌==◌, count_where, arith, Option-cases, Bool-cases,
}
use neuro_voice.Prelude.Text.{Text, is_space, strip}
use neuro_voice.Segment.{
  placeholder, hide, restore, restore_abbreviations, sub, match_multi, match_one, protected_abbrevs,
  protected_multi_period, protect_multi, protect_abbreviations, split, is_blank, stripped,
  merge_short, is_sentence_end, starts_after, expand, segment_sentences,
}
use neuro_voice.Segment.Letters.{
  letters, all_letters, letters_space, letters_char, letters-strip, letters-split, letters_stripped,
  letters-merge_loop, letters-expand,
}

restore-hide : (c : ℕ) → restore (hide c) ≡ restore c
restore-hide c = ground arith

-- A substitution hides periods only.
restore-sub :
    (is_word : ℕ → Bool) (match_at : Text → Option ℕ) (s : Text) (before : Bool) (n : ℕ)
    → map restore (sub is_word match_at s before n) ≡ map restore s
unfolding sub
restore-sub is_word match_at [] before n = refl
restore-sub is_word match_at (c ∷ s) before (suc n) =
    ap (λ d. d ∷ map restore (sub is_word match_at s (is_word c) n)) (restore-hide c)
    ∙ ap (λ l. restore c ∷ l) (restore-sub is_word match_at s (is_word c) n)
restore-sub is_word match_at (c ∷ s) before zero =
    let plainly = ap (λ l. restore c ∷ l) (restore-sub is_word match_at s (is_word c) 0) in
    elim (Bool-cases ((before && is_word c) || (not before && not (is_word c)))) [
      | inl e ↦ rw e plainly
      | inr e ↦ elim (Option-cases (match_at (c ∷ s))) [
        | inl f ↦ rw (e, f) plainly
        | inr (k, f) ↦ rw (e, f) (by_length k (restore-sub is_word match_at s (is_word c)) plainly)
      ]
    ]
  where
    by_length :
        (k : ℕ)
        → ((n : ℕ) → map restore (sub is_word match_at s (is_word c) n) ≡ map restore s)
        → restore c ∷ map restore (sub is_word match_at s (is_word c) 0) ≡ map restore (c ∷ s)
        → map restore (elim k [
          | zero ↦ c ∷ sub is_word match_at s (is_word c) 0
          | suc n ↦ hide c ∷ sub is_word match_at s (is_word c) n
        ])
          ≡ map restore (c ∷ s)
    by_length zero ih plainly = plainly
    by_length (suc n) ih plainly =
        ap (λ d. d ∷ map restore (sub is_word match_at s (is_word c) n)) (restore-hide c)
        ∙ ap (λ l. restore c ∷ l) (ih n)

restore-protect_multi :
    (is_word : ℕ → Bool) (abbreviations : List Text) (s : Text)
    → map restore (protect_multi is_word abbreviations s) ≡ map restore s
restore-protect_multi is_word [] s = refl
restore-protect_multi is_word (a ∷ abbreviations) s =
    restore-protect_multi is_word abbreviations (sub is_word (match_multi a) s false 0)
    ∙ restore-sub is_word (match_multi a) s false 0

restore-protect_abbreviations :
    (is_word : ℕ → Bool) (s : Text) → map restore (protect_abbreviations is_word s) ≡ map restore s
unfolding protect_abbreviations
restore-protect_abbreviations is_word s =
    restore-sub is_word (match_one protected_abbrevs)
      (protect_multi is_word protected_multi_period s) false 0
    ∙ restore-protect_multi is_word protected_multi_period s

restore-is_space : (c : ℕ) → is_space (restore c) ≡ is_space c
restore-is_space c = elim (Bool-cases (c == placeholder)) [
  | inl e ↦
      let one : c ≡ placeholder = ground (arith, e) in
      subst (λ x. is_space (restore x) ≡ is_space x) (sym one) refl
  | inr e ↦ rw e refl
]

letters-map : (s : Text) → letters (map restore s) ≡ map restore (letters s)
letters-map [] = refl
letters-map (c ∷ s) = elim (Bool-cases (is_space c)) [
  | inl e ↦
      letters_space (restore c) (map restore s) (restore-is_space c ∙ e)
      ∙ letters-map s
      ∙ ap (map restore) (sym (letters_space c s e))
  | inr e ↦
      letters_char (restore c) (map restore s) (restore-is_space c ∙ e)
      ∙ ap (λ l. restore c ∷ l) (letters-map s)
      ∙ ap (map restore) (sym (letters_char c s e))
]

map-append : (s t : Text) → map restore (s ++ t) ≡ map restore s ++ map restore t
map-append [] t = refl
map-append (c ∷ s) t = ap (λ l. restore c ∷ l) (map-append s t)

all_letters-map :
    (ss : List Text) → all_letters (map restore_abbreviations ss) ≡ map restore (all_letters ss)
all_letters-map [] = refl
all_letters-map (s ∷ ss) =
    ap (λ l. l ++ all_letters (map restore_abbreviations ss)) (letters-map s)
    ∙ ap (λ l. map restore (letters s) ++ l) (all_letters-map ss)
    ∙ sym (map-append (letters s) (all_letters ss))

-- A text without the placeholder is its own restoration.
restored : (s : Text) → count_where (λ c. c == placeholder) s ≡ 0 → map restore s ≡ s
restored [] e = refl
restored (c ∷ s) e = ground (arith, e, restored s)

blank_letters : (s : Text) → is_blank s ≡ true → letters s ≡ []
blank_letters [] e = refl
blank_letters (c ∷ s) e = ground (arith, e)

letters_segments :
    (is_word : ℕ → Bool) (text : Text)
    → all_letters (
        map restore_abbreviations (
          expand (
            merge_short (
              stripped (
                split is_sentence_end starts_after (protect_abbreviations is_word (strip text)))))))
      ≡ letters (map restore text)
unfolding merge_short
letters_segments is_word text =
    let guarded = protect_abbreviations is_word (strip text) in
    let raw = stripped (split is_sentence_end starts_after guarded) in
    all_letters-map (expand (merge_short raw))
    ∙ ap (map restore) (
        letters-expand (merge_short raw)
        ∙ letters-merge_loop raw [] []
        ∙ letters_stripped (split is_sentence_end starts_after guarded)
        ∙ letters-split is_sentence_end starts_after guarded)
    ∙ sym (letters-map guarded)
    ∙ ap letters (restore-protect_abbreviations is_word (strip text))
    ∙ letters-map (strip text)
    ∙ ap (map restore) (letters-strip text)
    ∙ sym (letters-map text)

-- The segments of a text, one after the other, are the text but for white space: no character is
-- lost, doubled or moved, whichever way the segments are merged and split. The text is free of the
-- control character U+0001, which stands for a period inside an abbreviation meanwhile.
pub letters-segment_sentences :
    (is_word : ℕ → Bool) (text : Text)
    → count_where (λ c. c == placeholder) text ≡ 0
    → all_letters (segment_sentences is_word text) ≡ letters text
unfolding segment_sentences
letters-segment_sentences is_word text free = elim (Bool-cases (is_blank (strip text))) [
  | inl e ↦ rw (e, segment_sentences) (sym (blank_letters (strip text) e) ∙ letters-strip text)
  | inr e ↦
      rw (e, segment_sentences) (letters_segments is_word text ∙ ap letters (restored text free))
]
