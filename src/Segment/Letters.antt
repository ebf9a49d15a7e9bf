-- ===== src/Segment/Letters.antt =====
-- Segmentation (src/frontend/lang_packs/tr/segment.py) moves white space only.
use mathlib.Core.List.{append_assoc, append-nil}
use neuro_voice.Prelude.{
  ℕ, zero, suc, ◌+◌, ◌/◌, ◌≡◌, inl, inr, refl, sym, ap, ◌∙◌, Bool, true, false, ◌&&◌, not, none,
  List, [], ◌∷◌, ◌++◌, leb, ltb, if◌then◌else◌, length, delete_where, arith, Option-cases,
  Bool-cases,
}
use neuro_voice.Prelude.Text.{Text, is_space, strip, strip_left, strip_right}
use neuro_voice.Segment.{
  Mode, plain, ended, skipping, is_skipping, is_ended, pieces, split, is_blank, stripped, candidate,
  append_last, min_chars, max_chars, merge_loop, take, drop, rfind, split_middle, pack_loop,
  split_parts, split_long, is_clause_end, expand,
}

-- A text without its white space, and those of a list one after the other.
abbrev pub letters : Text → Text
letters = delete_where is_space

abbrev pub all_letters : List Text → Text
all_letters [] = []
all_letters (s ∷ ss) = letters s ++ all_letters ss

pub letters_space : (c : ℕ) (s : Text) → is_space c ≡ true → letters (c ∷ s) ≡ letters s
letters_space c s e = rw e refl

pub letters_char : (c : ℕ) (s : Text) → is_space c ≡ false → letters (c ∷ s) ≡ c ∷ letters s
letters_char c s e = rw e refl

letters-append : (s t : Text) → letters (s ++ t) ≡ letters s ++ letters t
letters-append [] t = refl
letters-append (c ∷ s) t = elim (Bool-cases (is_space c)) [
  | inl e ↦ rw e (letters-append s t)
  | inr e ↦ rw e (ap (λ l. c ∷ l) (letters-append s t))
]

strip_left_char : (c : ℕ) (s : Text) → is_space c ≡ false → strip_left (c ∷ s) ≡ c ∷ s
unfolding strip_left
strip_left_char c s e = rw e refl

letters-strip_left : (s : Text) → letters (strip_left s) ≡ letters s
unfolding strip_left
letters-strip_left [] = refl
letters-strip_left (c ∷ s) = elim (Bool-cases (is_space c)) [
  | inl e ↦ rw e (letters-strip_left s)
  | inr e ↦ ap letters (strip_left_char c s e)
]

letters-cons : (c : ℕ) (s t : Text) → letters s ≡ letters t → letters (c ∷ s) ≡ letters (c ∷ t)
letters-cons c s t e = elim (Bool-cases (is_space c)) [
  | inl f ↦ rw f e
  | inr f ↦ rw f (ap (λ l. c ∷ l) e)
]

letters-strip_right : (s : Text) → letters (strip_right s) ≡ letters s
unfolding strip_right
letters-strip_right [] = refl
letters-strip_right (c ∷ s) = by_rest (strip_right s) refl (letters-strip_right s)
  where
    by_rest :
        (r : Text)
        → strip_right s ≡ r
        → letters (strip_right s) ≡ letters s
        → letters (strip_right (c ∷ s)) ≡ letters (c ∷ s)
    by_rest [] f ih = ground (arith, f, ih)
    by_rest (d ∷ r) f ih = rw f (letters-cons c (d ∷ r) s (sym (ap letters f) ∙ ih))

pub letters-strip : (s : Text) → letters (strip s) ≡ letters s
unfolding strip
letters-strip s = letters-strip_right (strip_left s) ∙ letters-strip_left s

all_letters-append : (ss ts : List Text) → all_letters (ss ++ ts) ≡ all_letters ss ++ all_letters ts
all_letters-append [] ts = refl
all_letters-append (s ∷ ss) ts =
    ap (λ l. letters s ++ l) (all_letters-append ss ts)
    ∙ sym (append_assoc (letters s) (all_letters ss) (all_letters ts))

letters-pieces :
    (is_end : ℕ → Bool) (looks_ahead : Text → Bool) (s : Text) (m : Mode)
    → letters (pieces is_end looks_ahead s m).0 ++ all_letters (pieces is_end looks_ahead s m).1
      ≡ letters s
unfolding pieces
letters-pieces is_end looks_ahead [] m = refl
letters-pieces is_end looks_ahead (c ∷ s) m =
    let skipped = letters-pieces is_end looks_ahead s skipping in
    let next = letters-pieces is_end looks_ahead s (if is_end c then ended else plain) in
    elim (Bool-cases (is_skipping m && is_space c)) [
      | inl e ↦ rw e (skipped ∙ sym (letters_space c s (ground (arith, e))))
      | inr e ↦ elim (Bool-cases (is_ended m && (is_space c && looks_ahead s))) [
        | inl f ↦ rw (e, f) (skipped ∙ sym (letters_space c s (ground (arith, f))))
        | inr f ↦
            rw (e, f)
              (elim (Bool-cases (is_space c)) [
                | inl g ↦ rw g next
                | inr g ↦ rw g (ap (λ l. c ∷ l) next)
              ])
      ]
    ]

pub letters-split :
    (is_end : ℕ → Bool) (looks_ahead : Text → Bool) (s : Text)
    → all_letters (split is_end looks_ahead s) ≡ letters s
unfolding split
letters-split is_end looks_ahead s = letters-pieces is_end looks_ahead s plain

pub letters_stripped : (rs : List Text) → all_letters (stripped rs) ≡ all_letters rs
letters_stripped [] = refl
letters_stripped (r ∷ rs) = by_strip (strip r) refl (letters_stripped rs)
  where
    by_strip :
        (t : Text)
        → strip r ≡ t
        → all_letters (stripped rs) ≡ all_letters rs
        → all_letters (stripped (r ∷ rs)) ≡ all_letters (r ∷ rs)
    by_strip [] e ih =
        ap (λ l. all_letters (if is_blank l then stripped rs else l ∷ stripped rs)) e
        ∙ ih
        ∙ sym (ap (λ l. l ++ all_letters rs) (sym (letters-strip r) ∙ ap letters e))
    by_strip (c ∷ t) e ih =
        ap (λ l. all_letters (if is_blank l then stripped rs else l ∷ stripped rs)) e
        ∙ ap (λ l. letters l ++ all_letters (stripped rs)) (sym e)
        ∙ ap (λ l. l ++ all_letters (stripped rs)) (letters-strip r)
        ∙ ap (λ l. letters r ++ l) ih

letters-candidate : (buf seg : Text) → letters (candidate buf seg) ≡ letters buf ++ letters seg
letters-candidate [] seg = refl
letters-candidate (c ∷ buf) seg =
    letters-strip ((c ∷ buf) ++ 32 ∷ seg) ∙ letters-append (c ∷ buf) (32 ∷ seg)

letters-append_last :
    (ms : List Text) (buf : Text) → all_letters (append_last ms buf) ≡ all_letters ms ++ letters buf
letters-append_last [] buf = append-nil (letters buf)
letters-append_last (m ∷ []) buf =
    append-nil (letters (strip (m ++ 32 ∷ buf)))
    ∙ letters-strip (m ++ 32 ∷ buf)
    ∙ letters-append m (32 ∷ buf)
    ∙ ap (λ l. l ++ letters buf) (sym (append-nil (letters m)))
letters-append_last (m ∷ n ∷ ms) buf =
    ap (λ l. letters m ++ l) (letters-append_last (n ∷ ms) buf)
    ∙ sym (append_assoc (letters m) (all_letters (n ∷ ms)) (letters buf))

all_letters-one :
    (ss : List Text) (s : Text) → all_letters (ss ++ s ∷ []) ≡ all_letters ss ++ letters s
all_letters-one ss s =
    all_letters-append ss (s ∷ []) ∙ ap (λ l. all_letters ss ++ l) (append-nil (letters s))

pub letters-merge_loop :
    (segs merged : List Text) (buf : Text)
    → all_letters (merge_loop segs merged buf)
      ≡ all_letters merged ++ (letters buf ++ all_letters segs)
unfolding merge_loop
letters-merge_loop [] merged [] = sym (append-nil (all_letters merged))
letters-merge_loop [] merged (c ∷ buf) =
    letters-append_last merged (c ∷ buf)
    ∙ ap (λ l. all_letters merged ++ l) (sym (append-nil (letters (c ∷ buf))))
letters-merge_loop (seg ∷ segs) merged buf =
    let c = candidate buf seg in
    let inner =
      ap (λ l. l ++ all_letters segs) (letters-candidate buf seg)
      ∙ append_assoc (letters buf) (letters seg) (all_letters segs) in
    elim (Bool-cases (ltb (length c) min_chars)) [
      | inl e ↦ rw e (letters-merge_loop segs merged c ∙ ap (λ l. all_letters merged ++ l) inner)
      | inr e ↦ rw e (
          letters-merge_loop segs (merged ++ c ∷ []) []
          ∙ ap (λ l. l ++ all_letters segs) (all_letters-one merged c)
          ∙ append_assoc (all_letters merged) (letters c) (all_letters segs)
          ∙ ap (λ l. all_letters merged ++ l) inner)
    ]

letters-pack_loop :
    (parts out : List Text) (buf : Text)
    → all_letters (pack_loop parts out buf) ≡ all_letters out ++ (letters buf ++ all_letters parts)
unfolding pack_loop
letters-pack_loop [] out [] = sym (append-nil (all_letters out))
letters-pack_loop [] out (c ∷ buf) =
    all_letters-one out (c ∷ buf)
    ∙ ap (λ l. all_letters out ++ l) (sym (append-nil (letters (c ∷ buf))))
letters-pack_loop (part ∷ parts) out buf =
    let c = candidate buf part in
    let inner =
      ap (λ l. l ++ all_letters parts) (letters-candidate buf part)
      ∙ append_assoc (letters buf) (letters part) (all_letters parts) in
    elim (Bool-cases (ltb max_chars (length c) && not (is_blank buf))) [
      | inr e ↦ rw e (letters-pack_loop parts out c ∙ ap (λ l. all_letters out ++ l) inner)
      | inl e ↦ rw e (
          letters-pack_loop parts (out ++ buf ∷ []) part
          ∙ ap (λ l. l ++ (letters part ++ all_letters parts)) (all_letters-one out buf)
          ∙ append_assoc (all_letters out) (letters buf) (letters part ++ all_letters parts))
    ]

letters_halves : (n : ℕ) (s : Text) → letters (take n s) ++ letters (drop n s) ≡ letters s
letters_halves zero s = refl
letters_halves (suc n) [] = refl
letters_halves (suc n) (c ∷ s) = elim (Bool-cases (is_space c)) [
  | inl e ↦ rw e (letters_halves n s)
  | inr e ↦ rw e (ap (λ l. c ∷ l) (letters_halves n s))
]

letters-split_middle : (s : Text) → all_letters (split_middle s) ≡ letters s
unfolding split_middle
letters-split_middle s = elim (Option-cases (rfind s 0 (length s / 2 + 40) none)) [
  | inl e ↦ rw (e, split_middle) (append-nil (letters s))
  | inr (ws, e) ↦ elim (Bool-cases (ltb ws min_chars)) [
    | inl f ↦ rw (e, f, split_middle) (append-nil (letters s))
    | inr f ↦
        rw (e, f, split_middle)
          (ap (λ l. letters (strip (take ws s)) ++ l) (append-nil (letters (strip (drop ws s))))
            ∙ ap (λ l. l ++ letters (strip (drop ws s))) (letters-strip (take ws s))
            ∙ ap (λ l. letters (take ws s) ++ l) (letters-strip (drop ws s))
            ∙ letters_halves ws s)
  ]
]

letters-split_parts :
    (s : Text) (parts : List Text)
    → all_letters parts ≡ letters s
    → all_letters (split_parts s parts) ≡ letters s
letters-split_parts s [] e = append-nil (letters s)
letters-split_parts s (part ∷ []) e = letters-split_middle s
letters-split_parts s (part ∷ p ∷ parts) e = letters-pack_loop (part ∷ p ∷ parts) [] [] ∙ e

letters-split_long : (s : Text) → all_letters (split_long s) ≡ letters s
unfolding split_long
letters-split_long s = elim (Bool-cases (leb (length s) max_chars)) [
  | inl e ↦ rw e (append-nil (letters s))
  | inr e ↦ rw e (
      letters-split_parts s (split is_clause_end (λ t. true) s)
        (letters-split is_clause_end (λ t. true) s))
]

pub letters-expand : (segs : List Text) → all_letters (expand segs) ≡ all_letters segs
letters-expand [] = refl
letters-expand (s ∷ segs) =
    all_letters-append (split_long s) (expand segs)
    ∙ ap (λ l. l ++ all_letters (expand segs)) (letters-split_long s)
    ∙ ap (λ l. letters s ++ l) (letters-expand segs)
