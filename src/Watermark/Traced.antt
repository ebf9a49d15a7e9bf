-- ===== src/Watermark/Traced.antt =====
-- What forensics rests on (src/repos/watermark.py): a payload leads back to each key that carried it.
use Prim.Native.String.{String}
use neuro_voice.Prelude.{
  ℕ, ◌≤◌, inl, inr, refl, Bool, ◌&&◌, Option, none, some, List, [], ◌∷◌, ◌==◌, leb, or_else,
  count_where, count-update_same, arith, Bool-cases, Option-cases,
}
use neuro_voice.Watermark.{
  WatermarkKey, Keys, is_active, get, has_id, choose_bits, allocate, retired, retire,
}
use neuro_voice.Watermark.Listings.{list_by_bits, list_by_bits_lem}

-- The two statements that write, with their arguments.
pub data Call : Type 0 where
  allocates : String → Option ℕ → Option String → Option ℕ → List ℕ → ℕ → ℕ → Call
  retires : ℕ → Option String → Option ℕ → ℕ → Call

-- A ValueError leaves the table as it was.
pub after_call : Call → Keys → Keys
unfolding allocate retire
after_call (allocates label operator notes bits draws id now) keys =
    elim (allocate label operator notes bits draws id now keys) [
      | none ↦ keys
      | some (k, keys') ↦ keys'
    ]
after_call (retires id reason at now) keys = (retire id reason at now keys).1

pub after_calls : List Call → Keys → Keys
unfolding after_call
after_calls [] keys = keys
after_calls (c ∷ cs) keys = after_calls cs (after_call c keys)

abbrev carries : ℕ → ℕ → WatermarkKey → Bool
carries id bits k = has_id id k && (k.message_bits == bits)

count-after_call :
    (c : Call) (id bits : ℕ) (keys : Keys)
    → count_where (carries id bits) keys ≤ count_where (carries id bits) (after_call c keys)
unfolding after_call retire
count-after_call (allocates label operator notes bits' draws id' now) id bits keys =
    elim (Option-cases (choose_bits bits' draws keys)) [
      | inl e ↦ rw (e, after_call) (omega arith)
      | inr (b, e) ↦ rw (e, after_call) (ground arith)
    ]
count-after_call (retires key reason at now) id bits keys = elim (Option-cases (get key keys)) [
  | inl e ↦ rw (e, after_call) (omega arith)
  | inr (k, e) ↦ elim (Bool-cases (is_active k)) [
    | inl f ↦ elim (Bool-cases (leb k.allocated_at (or_else at now))) [
      | inr t ↦ rw (e, f, t, after_call) (omega arith)
      | inl t ↦
          rw (e, f, t, after_call)
            (omega (
              arith,
              count-update_same (has_id k.id) (carries id bits) (retired reason at now) keys
                  (λ x. refl),
            ))
    ]
    | inr f ↦ rw (e, f, after_call) (omega arith)
  ]
]

-- No sequence of allocations and retirements takes a key out of the listing of its payload: a clip
-- that was marked once leads back to its key for ever.
pub list_by_bits_traced :
    (calls : List Call) (id bits : ℕ) (keys : Keys)
    → count_where (has_id id) (list_by_bits bits keys)
      ≤ count_where (has_id id) (list_by_bits bits (after_calls calls keys))
unfolding after_calls
list_by_bits_traced [] id bits keys = omega arith
list_by_bits_traced (c ∷ cs) id bits keys =
    let now = (list_by_bits_lem bits (has_id id) keys).1 in
    let then_ = (list_by_bits_lem bits (has_id id) (after_call c keys)).1 in
    let step = count-after_call c id bits keys in
    let rest = list_by_bits_traced cs id bits (after_call c keys) in
    omega (arith, now, then_, step, rest)
