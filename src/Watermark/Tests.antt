-- ===== src/Watermark/Tests.antt =====
-- src/repos/watermark.py with one active key.
use neuro_voice.Prelude.{◌≤◌, none, some, [], ◌∷◌, arith, count_where}
use neuro_voice.Watermark.{WatermarkKey, allocate, has_id}
use neuro_voice.Watermark.Listings.{list_by_bits}
use neuro_voice.Watermark.Traced.{allocates, retires, after_calls, list_by_bits_traced}
use neuro_voice.Watermark.Slots.{IsSound, IsGranted, allocate-IsSound}

abbrev key : WatermarkKey
key = record {
  id = 1;
  message_bits = 500;
  label = "studio";
  allocated_at = 10;
  retired_at = none;
  retired_reason = none;
  notes = none;
  created_by_operator_id = none;
}

key-IsSound : IsSound (key ∷ [])
key-IsSound = record { ranged = ground arith; unique = λ bits. ground arith }

-- The first draw is held.
allocate-IsSound_example :
    IsGranted (key ∷ []) (allocate "partner" none none none (500 ∷ 501 ∷ []) 2 20 (key ∷ []))
allocate-IsSound_example =
    allocate-IsSound "partner" none none none (500 ∷ 501 ∷ []) 2 20 (key ∷ []) (ground arith)
      key-IsSound

-- The key is retired, and its payload is given to another.
list_by_bits_traced_example :
    count_where (has_id 1) (list_by_bits 500 (key ∷ []))
    ≤ count_where (has_id 1) (
        list_by_bits 500 (
          after_calls
            (retires 1 (some "rotation") none 30
              ∷ allocates "partner" none none (some 500) [] 2 40
              ∷ [])
            (key ∷ [])))
list_by_bits_traced_example =
    list_by_bits_traced
      (retires 1 (some "rotation") none 30 ∷ allocates "partner" none none (some 500) [] 2 40 ∷ [])
      1 500 (key ∷ [])
