-- ===== src/Segment/Tests.antt =====
-- "Dr. Ali geldi. Sen de gel!" is cut behind the sentence, not behind the title
-- (src/frontend/lang_packs/tr/segment.py).
use neuro_voice.Prelude.{ℕ, ◌≡◌, refl, Bool, ◌||◌, ◌&&◌, [], ◌∷◌, ◌++◌, leb}
use neuro_voice.Prelude.Text.{Text, strip}
use neuro_voice.Segment.{segment_sentences}
use neuro_voice.Segment.Letters.{letters, all_letters}
use neuro_voice.Segment.Spoken.{letters-segment_sentences}

abbrev is_letter : ℕ → Bool
is_letter c = (leb 65 c && leb c 90) || (leb 97 c && leb c 122)

-- "Dr. Ali geldi."
abbrev first : Text
first = 68 ∷ 114 ∷ 46 ∷ 32 ∷ 65 ∷ 108 ∷ 105 ∷ 32 ∷ 103 ∷ 101 ∷ 108 ∷ 100 ∷ 105 ∷ 46 ∷ []

-- "Sen de bize gel!"
abbrev second : Text
second =
    83 ∷ 101 ∷ 110 ∷ 32 ∷ 100 ∷ 101 ∷ 32 ∷ 98 ∷ 105 ∷ 122 ∷ 101 ∷ 32 ∷ 103 ∷ 101 ∷ 108 ∷ 33 ∷ []

cuts : segment_sentences is_letter (first ++ 32 ∷ 32 ∷ second) ≡ first ∷ second ∷ []
unfolding segment_sentences strip
cuts = refl

letters-segment_sentences_example :
    all_letters (segment_sentences is_letter (first ++ 32 ∷ second))
    ≡ letters (first ++ 32 ∷ second)
letters-segment_sentences_example = letters-segment_sentences is_letter (first ++ 32 ∷ second) refl
