-- ===== src/Watermark/Slots.antt =====
-- Which key holds a payload (src/repos/watermark.py).
use Prim.Native.String.{String}
use neuro_voice.Prelude.{
  ℕ, zero, suc, ◌≤◌, ◌≡◌, ◌↔◌, ◌⊎◌, leb, or_else, inl, inr, refl, true, false, Option, none, some,
  List, [], ◌∷◌, is_some, update_where, count_where, find-none_count, arith, Option-cases,
  Bool-cases, All, All-update_where, find_passes, length, find-update_key,
}
use neuro_voice.Watermark.{
  WatermarkKey, Keys, max_payload, has_id, is_active, holds, get, get_active_by_bits,
  next_unused_bits, choose_bits, allocate, retired, retire,
}

-- Every payload has 16 bits, and at most one active key holds it.
pub record IsSound (keys : Keys) : Type 0 where
  pub ranged : All (λ k. k.message_bits ≤ max_payload) keys
  pub unique : (bits : ℕ) → count_where (holds bits) keys ≤ 1

abbrev pub AreDraws : List ℕ → Type 0
AreDraws draws = All (λ d. d ≤ max_payload) draws

next_unused_bits-fresh :
    (n : ℕ) (draws : List ℕ) (keys : Keys) (bits : ℕ)
    → AreDraws draws
    → next_unused_bits n draws keys ≡ some bits
    → (bits ≤ max_payload) × (get_active_by_bits bits keys ≡ none)
unfolding next_unused_bits
next_unused_bits-fresh zero draws keys bits a e = ground (arith, e)
next_unused_bits-fresh (suc n) [] keys bits a e = ground (arith, e)
next_unused_bits-fresh (suc n) (d ∷ draws) keys bits a e =
    elim (Option-cases (get_active_by_bits d keys)) [
      | inl free ↦ ground (arith, e, free, a.0)
      | inr (k, held) ↦ next_unused_bits-fresh n draws keys bits a.1 (ground (arith, e, held))
    ]

choose_bits-fresh :
    (message_bits : Option ℕ) (draws : List ℕ) (keys : Keys) (bits : ℕ)
    → AreDraws draws
    → choose_bits message_bits draws keys ≡ some bits
    → (bits ≤ max_payload) × (get_active_by_bits bits keys ≡ none)
unfolding choose_bits
choose_bits-fresh none draws keys bits a e = next_unused_bits-fresh 128 draws keys bits a e
choose_bits-fresh (some b) draws keys bits a e = (ground (arith, e), ground (arith, e))

cons-IsSound :
    (k : WatermarkKey) (keys : Keys)
    → k.message_bits ≤ max_payload
    → get_active_by_bits k.message_bits keys ≡ none
    → IsSound keys
    → IsSound (k ∷ keys)
cons-IsSound k keys small free s = record {
  ranged = (small, s.ranged);
  unique = λ bits. ground (arith, s.unique bits, find-none_count (holds k.message_bits) keys free);
}

-- What a successful call returns: the payload was free, and the new table is sound.
abbrev pub IsGranted : Keys → Option (WatermarkKey × Keys) → Type 0
IsGranted keys none = Unit {0}
IsGranted keys (some (k, keys')) = (get_active_by_bits k.message_bits keys ≡ none) × IsSound keys'

-- An allocation hands out a payload that no active key held, and keeps the table sound: payloads of
-- 16 bits, of which each is held by at most one active key. The draws are of 16 bits.
pub allocate-IsSound :
    (label : String) (operator : Option ℕ) (notes : Option String) (message_bits : Option ℕ)
    (draws : List ℕ) (id now : ℕ) (keys : Keys)
    → AreDraws draws
    → IsSound keys
    → IsGranted keys (allocate label operator notes message_bits draws id now keys)
unfolding allocate
allocate-IsSound label operator notes message_bits draws id now keys a s =
    elim (Option-cases (choose_bits message_bits draws keys)) [
      | inl full ↦ rw (full, allocate) tt
      | inr (bits, chosen) ↦
          let (small, free) = choose_bits-fresh message_bits draws keys bits a chosen in
          rw (chosen, allocate) (free, cons-IsSound _ keys small free s)
    ]

count-retired :
    (bits id now : ℕ) (reason : Option String) (at : Option ℕ) (keys : Keys)
    → count_where (holds bits) (update_where (has_id id) (retired reason at now) keys)
      ≤ count_where (holds bits) keys
count-retired bits id now reason at [] = omega arith
count-retired bits id now reason at (k ∷ keys) =
    ground (arith, count-retired bits id now reason at keys)

retire-active :
    (id now : ℕ) (reason : Option String) (at : Option ℕ) (keys : Keys) (k : WatermarkKey)
    → get id keys ≡ some k
    → is_active k ≡ true
    → leb k.allocated_at (or_else at now) ≡ true
    → (retire id reason at now keys).1 ≡ update_where (has_id k.id) (retired reason at now) keys
unfolding retire
retire-active id now reason at keys k e a t = rw (e, retire) (rw (a, t))

retire_early :
    (id now : ℕ) (reason : Option String) (at : Option ℕ) (keys : Keys) (k : WatermarkKey)
    → get id keys ≡ some k
    → is_active k ≡ true
    → leb k.allocated_at (or_else at now) ≡ false
    → (retire id reason at now keys).1 ≡ keys
unfolding retire
retire_early id now reason at keys k e a t = rw (e, retire) (rw (a, t))

retire-inactive :
    (id now : ℕ) (reason : Option String) (at : Option ℕ) (keys : Keys) (k : WatermarkKey)
    → get id keys ≡ some k
    → is_active k ≡ false
    → (retire id reason at now keys).1 ≡ keys
unfolding retire
retire-inactive id now reason at keys k e a = rw (e, retire) (rw a)

-- Retiring a key keeps the table sound. Once the key is retired, to retire it again, at whatever time
-- and for whatever reason, changes nothing; and a time before the allocation is refused.
pub retire_lem :
    (id now later : ℕ) (reason again : Option String) (at at' : Option ℕ) (keys : Keys)
    (k : WatermarkKey)
    → IsSound keys
    → get id keys ≡ some k
    → IsSound (retire id reason at now keys).1
      × (((retire id reason at now keys).1 ≡ keys)
          ⊎ ((retire id again at' later (retire id reason at now keys).1).1
              ≡ (retire id reason at now keys).1))
retire_lem id now later reason again at at' keys k s e = elim (Bool-cases (is_active k)) [
  | inr gone ↦
      rw (retire-inactive id now reason at keys k e gone)
        (s, inr (retire-inactive id later again at' keys k e gone))
  | inl live ↦ elim (Bool-cases (leb k.allocated_at (or_else at now))) [
    | inr early ↦ rw (retire_early id now reason at keys k e live early) (s, inl refl)
    | inl timely ↦
        let after = update_where (has_id k.id) (retired reason at now) keys in
        let kept : get id after ≡ some (retired reason at now k) =
          find-update_key (has_id id) (has_id k.id) (retired reason at now) keys {r = k}
            (λ a h. ground (arith, find_passes (has_id id) keys {r = k} e)) (λ a. refl) e in
        rw (retire-active id now reason at keys k e live timely) (
          (record {
            ranged =
                All-update_where (λ a. a.message_bits ≤ max_payload)
                  (λ a. a.message_bits ≤ max_payload) (has_id k.id) (retired reason at now) keys
                  (λ a h. h) (λ a h. h) s.ranged;
            unique =
                λ bits. omega (arith, s.unique bits, count-retired bits k.id now reason at keys);
          }),
          inr (retire-inactive id later again at' after (retired reason at now k) kept refl),
        )
  ]
]

abbrev pub take : ℕ → List ℕ → List ℕ
take zero xs = []
take (suc n) [] = []
take (suc n) (x ∷ xs) = x ∷ take n xs

-- A call with no payload fails exactly when each of the first 128 draws is held by an active key,
-- which says nothing of the payloads that were not drawn.
pub next_unused_bits-none :
    (draws : List ℕ) (n : ℕ) (keys : Keys)
    → n ≤ length draws
    → (next_unused_bits n draws keys ≡ none)
      ↔ All (λ d. is_some (get_active_by_bits d keys) ≡ true) (take n draws)
unfolding next_unused_bits
next_unused_bits-none draws zero keys le = (λ _. tt, λ _. refl)
next_unused_bits-none [] (suc n) keys le = (λ _. tt, λ _. refl)
next_unused_bits-none (d ∷ draws) (suc n) keys le =
    elim (Bool-cases (is_some (get_active_by_bits d keys))) [
      | inl held ↦
          let ih = next_unused_bits-none draws n keys (omega (arith, le)) in
          (λ h. ground (arith, ih, held, h), λ h. ground (arith, ih, held, h.1))
      | inr free ↦ (λ h. ground (arith, free, h), λ h. ground (arith, free, h.0))
    ]
