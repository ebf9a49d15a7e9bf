-- ===== src/ApiKeys/RoundTrip.antt =====
-- A generated key is parsed back (src/server/security/api_keys.py).
use mathlib.Core.Path.{subst}
use mathlib.Core.List.{append-nil}
use neuro_voice.Prelude.{
  ℕ, zero, suc, ◌<◌, ltb, Bool-cases, inl, inr, ◌≡◌, refl, true, some, [], ◌∷◌, ◌++◌, All, length,
  arith,
}
use neuro_voice.ApiKeys.{
  Text, Environment, prod, staging, dev, env_text, nv, underscore, is_base62, full_key, eat,
  eat_base62, eat_random, matches_full, split_parts, parse_api_key, generate_api_key, key_prefix,
  prefix_len, secret_len, letter_at, rand_base62,
}

abbrev pub IsBase62 : Text → Type 0
IsBase62 s = All (λ c. is_base62 c ≡ true) s

eat-append : (w s : Text) → eat w (w ++ s) ≡ some s
unfolding eat
eat-append [] s = refl
eat-append (c ∷ w) s = ground (arith, eat-append w s)

eat_base62-append :
    (w s : Text) (n : ℕ) → IsBase62 w → length w ≡ n → eat_base62 n (w ++ s) ≡ some s
unfolding eat_base62
eat_base62-append [] s zero b l = refl
eat_base62-append [] s (suc n) b l = absurd (omega arith)
eat_base62-append (c ∷ w) s zero b l = absurd (omega arith)
eat_base62-append (c ∷ w) s (suc n) b l = rw b.0 (eat_base62-append w s n b.1 (omega arith))

split_parts-base62 : (w : Text) → IsBase62 w → split_parts w ≡ (w, [])
unfolding split_parts
split_parts-base62 [] b = refl
split_parts-base62 (c ∷ w) b = ground (arith, b.0, split_parts-base62 w b.1)

split_parts-append :
    (w s : Text)
    → IsBase62 w
    → split_parts (w ++ underscore ∷ s) ≡ (w, (split_parts s).0 ∷ (split_parts s).1)
unfolding split_parts
split_parts-append [] s b = refl
split_parts-append (c ∷ w) s b = ground (arith, b.0, split_parts-append w s b.1)

env_text-IsBase62 : (env : Environment) → IsBase62 (env_text env)
env_text-IsBase62 prod = (refl, (refl, (refl, (refl, tt))))
env_text-IsBase62 staging = (refl, (refl, (refl, (refl, (refl, (refl, (refl, tt)))))))
env_text-IsBase62 dev = (refl, (refl, (refl, tt)))

split_parts-full_key :
    (env : Environment) (p secret : Text)
    → IsBase62 p
    → IsBase62 secret
    → split_parts (full_key env p secret) ≡ (nv, env_text env ∷ p ∷ secret ∷ [])
unfolding split_parts
split_parts-full_key env p secret bp bs =
    let last = split_parts-base62 secret bs in
    let third = split_parts-append p secret bp in
    let second =
      split_parts-append (env_text env) (p ++ underscore ∷ secret) (env_text-IsBase62 env) in
    rw (second, third, last) refl

eat_random-end :
    (p secret : Text)
    → IsBase62 p
    → IsBase62 secret
    → length p ≡ 14
    → length secret ≡ 40
    → eat_random (underscore ∷ (p ++ underscore ∷ secret)) ≡ some []
unfolding eat_random eat
eat_random-end p secret bp bs lp ls = rw (eat_base62-append p (underscore ∷ secret) 14 bp lp) (
    subst (λ (t : Text). eat_base62 40 t ≡ some []) (append-nil secret)
      (eat_base62-append secret [] 40 bs ls))

matches_full-full_key :
    (env : Environment) (p secret : Text)
    → eat_random (underscore ∷ (p ++ underscore ∷ secret)) ≡ some []
    → matches_full (full_key env p secret) ≡ true
unfolding matches_full eat
matches_full-full_key prod p secret e = rw e refl
matches_full-full_key staging p secret e = rw e refl
matches_full-full_key dev p secret e = rw e refl

parse_api_key-full_key :
    (env : Environment) (p secret : Text)
    → IsBase62 p
    → IsBase62 secret
    → length p ≡ prefix_len
    → length secret ≡ secret_len
    → parse_api_key (full_key env p secret)
      ≡ some (record { environment = env_text env; prefix = key_prefix env p; secret = secret })
unfolding parse_api_key
parse_api_key-full_key env p secret bp bs lp ls =
    rw
      (
        matches_full-full_key env p secret (eat_random-end p secret bp bs lp ls),
        split_parts-full_key env p secret bp bs,
      )
      refl

letter_at-IsBase62 : (i : ℕ) → i < 62 → is_base62 (letter_at i) ≡ true
letter_at-IsBase62 i h = elim (Bool-cases (ltb i 26)) [
  | inl e ↦ rw e (ground (arith, e))
  | inr e ↦ elim (Bool-cases (ltb i 52)) [
    | inl f ↦ rw (e, f) (ground (arith, e, f))
    | inr f ↦ rw (e, f) (ground (arith, e, f, h))
  ]
]

rand_base62-IsBase62 :
    (n : ℕ) (draws : ℕ → ℕ) → ((k : ℕ) → draws k < 62) → IsBase62 (rand_base62 n draws)
unfolding rand_base62
rand_base62-IsBase62 zero draws h = tt
rand_base62-IsBase62 (suc n) draws h = (
  letter_at-IsBase62 (draws 0) (h 0),
  rand_base62-IsBase62 n (λ k. draws (suc k)) (λ k. h (suc k)),
)

length-rand_base62 : (n : ℕ) (draws : ℕ → ℕ) → length (rand_base62 n draws) ≡ n
unfolding rand_base62
length-rand_base62 zero draws = refl
length-rand_base62 (suc n) draws = omega (arith, length-rand_base62 n (λ k. draws (suc k)))

-- What `generate_api_key` hands out is parsed into its environment, its prefix, which is the one
-- stored, and the secret that was drawn. `secrets.choice` draws indices of the 62 characters.
pub parse_api_key-generate_api_key {ℓ} :
    {H : Type ℓ} (hash_secret : Text → H) (env : Environment) (for_prefix for_secret : ℕ → ℕ)
    → ((k : ℕ) → for_prefix k < 62)
    → ((k : ℕ) → for_secret k < 62)
    → parse_api_key (generate_api_key hash_secret env for_prefix for_secret).0
      ≡ some (record {
        environment = env_text env;
        prefix = (generate_api_key hash_secret env for_prefix for_secret).1;
        secret = rand_base62 secret_len for_secret;
      })
unfolding generate_api_key
parse_api_key-generate_api_key hash_secret env for_prefix for_secret hp hs =
    parse_api_key-full_key env (rand_base62 prefix_len for_prefix)
      (rand_base62 secret_len for_secret) (rand_base62-IsBase62 prefix_len for_prefix hp)
      (rand_base62-IsBase62 secret_len for_secret hs) (length-rand_base62 prefix_len for_prefix)
      (length-rand_base62 secret_len for_secret)
