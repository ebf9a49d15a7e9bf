-- ===== src/Watermark/Listings.antt =====
-- The listings of src/repos/watermark.py, by which an old clip is traced to the keys that have carried
-- its payload. What equal times leave open is the order of the table.
use neuro_voice.Prelude.{ℕ, ◌≡◌, Bool, ◌&&◌, leb, ◌==◌, select_where, count_where, arith, ◌∙◌}
use neuro_voice.Prelude.Sorted.{
  order_by, IsOrdered, order_by-IsOrdered, count-order_by, count-select_where,
}
use neuro_voice.Watermark.{WatermarkKey, Keys, is_active}

abbrev pub newer : WatermarkKey → WatermarkKey → Bool
newer k l = leb l.allocated_at k.allocated_at

pub list_by_bits : ℕ → Keys → Keys
list_by_bits bits keys = order_by newer (select_where (λ k. k.message_bits == bits) keys)

pub list_active : Keys → Keys
list_active keys = order_by newer (select_where is_active keys)

newer-IsOrdered : (keys : Keys) → IsOrdered newer (order_by newer keys)
newer-IsOrdered =
    order_by-IsOrdered newer (λ k l e. ground (arith, e)) (λ k l m e f. ground (arith, e, f))

-- The listing of a payload holds each key that has it, active or retired, as often as the table does
-- and no other key, the newest first.
pub list_by_bits_lem :
    (bits : ℕ) (q : WatermarkKey → Bool) (keys : Keys)
    → IsOrdered newer (list_by_bits bits keys)
      × (count_where q (list_by_bits bits keys)
          ≡ count_where (λ k. q k && (k.message_bits == bits)) keys)
unfolding list_by_bits
list_by_bits_lem bits q keys =
    let l = select_where (λ k. k.message_bits == bits) keys in
    (
      newer-IsOrdered l,
      count-order_by newer q l ∙ count-select_where q (λ k. k.message_bits == bits) keys,
    )

-- The listing of active keys holds the keys that are not retired, the newest first.
pub list_active_lem :
    (q : WatermarkKey → Bool) (keys : Keys)
    → IsOrdered newer (list_active keys)
      × (count_where q (list_active keys) ≡ count_where (λ k. q k && is_active k) keys)
unfolding list_active
list_active_lem q keys =
    let l = select_where is_active keys in
    (newer-IsOrdered l, count-order_by newer q l ∙ count-select_where q is_active keys)
