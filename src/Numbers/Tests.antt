-- ===== src/Numbers/Tests.antt =====
-- src/frontend/lang_packs/tr/numbers.py at the number of its doc string.
use neuro_voice.Prelude.{◌≡◌, refl, true, false, some, [], ◌∷◌}
use neuro_voice.Numbers.{ones, tens, yuz, bin, milyon, number_to_turkish}
use neuro_voice.Numbers.Value.{read_reply, read-number_to_turkish}

-- bir milyon iki yüz otuz dört bin beş yüz altmış yedi
doc_string :
    number_to_turkish false 1_234_567
    ≡ some (
        ones 1
        ∷ milyon
        ∷ ones 2
        ∷ yuz
        ∷ tens 3
        ∷ ones 4
        ∷ bin
        ∷ ones 5
        ∷ yuz
        ∷ tens 6
        ∷ ones 7
        ∷ [])
unfolding number_to_turkish
doc_string = refl

read-number_to_turkish_example : read_reply (number_to_turkish true 1_234_567) ≡ some 1_234_567
read-number_to_turkish_example = read-number_to_turkish true 1_234_567
