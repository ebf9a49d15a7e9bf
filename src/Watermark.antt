-- ===== src/Watermark.antt =====
-- `WatermarkKeyRepo` of src/repos/watermark.py: 16-bit payloads and the keys that hold them. What
-- `secrets.randbelow` draws is an argument, a list of numbers below 65536.
pub mod Slots
pub mod Listings
pub mod Traced
mod Tests
use Prim.Native.String.{String}
use neuro_voice.Prelude.{
  ℕ, zero, suc, Bool, true, false, ◌&&◌, not, Option, none, some, List, [], ◌∷◌, leb, ◌==◌,
  if◌then◌else◌, is_some, or_else, find, update_where,
}

-- `WatermarkKey`
pub record WatermarkKey : Type 0 where
  pub id : ℕ
  pub message_bits : ℕ
  pub label : String
  pub allocated_at : ℕ
  pub retired_at : Option ℕ
  pub retired_reason : Option String
  pub notes : Option String
  pub created_by_operator_id : Option ℕ

abbrev pub Keys : Type 0
Keys = List WatermarkKey

-- `_MAX_PAYLOAD`
abbrev pub max_payload : ℕ
max_payload = 65_535

abbrev pub has_id : ℕ → WatermarkKey → Bool
has_id id k = k.id == id

abbrev pub is_active : WatermarkKey → Bool
is_active k = not (is_some k.retired_at)

abbrev pub holds : ℕ → WatermarkKey → Bool
holds bits k = k.message_bits == bits && is_active k

abbrev pub get : ℕ → Keys → Option WatermarkKey
get id = find (has_id id)

abbrev pub get_active : ℕ → Keys → Option WatermarkKey
get_active id = find (λ k. k.id == id && is_active k)

abbrev pub get_active_by_bits : ℕ → Keys → Option WatermarkKey
get_active_by_bits bits = find (holds bits)

-- The probes of `_next_unused_bits`; the number is the rounds that are left.
pub next_unused_bits : ℕ → List ℕ → Keys → Option ℕ
next_unused_bits zero draws keys = none
next_unused_bits (suc n) [] keys = none
next_unused_bits (suc n) (candidate ∷ draws) keys =
    let rest = next_unused_bits n draws keys in
    if is_some (get_active_by_bits candidate keys) then rest else some candidate

-- The bits that `allocate` takes; none is a ValueError.
pub choose_bits : Option ℕ → List ℕ → Keys → Option ℕ
unfolding next_unused_bits
choose_bits none draws keys = next_unused_bits 128 draws keys
choose_bits (some bits) draws keys =
    if leb bits max_payload
    then if is_some (get_active_by_bits bits keys) then none else some bits
    else none

-- The key and the time of the new row are the database's.
pub allocate :
    String
    → Option ℕ
    → Option String
    → Option ℕ
    → List ℕ
    → ℕ
    → ℕ
    → Keys
    → Option (WatermarkKey × Keys)
unfolding choose_bits
allocate label operator notes message_bits draws id now keys =
    elim (choose_bits message_bits draws keys) [
      | none ↦ none
      | some bits ↦
          let key : WatermarkKey = record {
            id = id;
            message_bits = bits;
            label = label;
            allocated_at = now;
            retired_at = none;
            retired_reason = none;
            notes = notes;
            created_by_operator_id = operator;
          } in
          some (key, key ∷ keys)
    ]

abbrev pub retired : Option String → Option ℕ → ℕ → WatermarkKey → WatermarkKey
retired reason retired_at now k = record k {
  retired_at = some (or_else retired_at now);
  retired_reason = reason;
}

-- `missing` is None, `integrity_error` the one of the flush.
pub data RetireReply : Type 0 where
  missing integrity_error : RetireReply
  stored : WatermarkKey → RetireReply

-- watermark_keys_retired_after_allocated is checked by the flush.
pub retire : ℕ → Option String → Option ℕ → ℕ → Keys → RetireReply × Keys
retire id reason retired_at now keys = elim (get id keys) [
  | none ↦ (missing, keys)
  | some k ↦
      if is_active k
      then if leb k.allocated_at (or_else retired_at now)
        then (
          stored (retired reason retired_at now k),
          update_where (has_id k.id) (retired reason retired_at now) keys,
        )
        else (integrity_error, keys)
      else (stored k, keys)
]
