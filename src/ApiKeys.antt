-- ===== src/ApiKeys.antt =====
-- The shape of an API key, src/server/security/api_keys.py. A text is the list of its characters'
-- code points. `secrets.choice` and `hash_secret` are outside: the draws and the
-- hash are arguments.
pub mod RoundTrip
mod Tests
use neuro_voice.Prelude.{
  ℕ, zero, suc, ◌+◌, ◌-◌, ltb, Bool, true, false, ◌&&◌, ◌||◌, Option, none, some, List, [], ◌∷◌,
  ◌++◌, leb, ◌==◌, if◌then◌else◌,
}

abbrev pub Text : Type 0
Text = List ℕ

-- Equality of two texts.
abbrev pub is_text : Text → Text → Bool
is_text [] [] = true
is_text [] (d ∷ t) = false
is_text (c ∷ s) [] = false
is_text (c ∷ s) (d ∷ t) = c == d && is_text s t

pub data Environment : Type 0 where
  prod staging dev : Environment

abbrev pub env_text : Environment → Text
env_text prod = 112 ∷ 114 ∷ 111 ∷ 100 ∷ []
env_text staging = 115 ∷ 116 ∷ 97 ∷ 103 ∷ 105 ∷ 110 ∷ 103 ∷ []
env_text dev = 100 ∷ 101 ∷ 118 ∷ []

-- "nv" and "_"
abbrev pub nv : Text
nv = 110 ∷ 118 ∷ []

abbrev pub underscore : ℕ
underscore = 95

-- `_ALPHABET`
abbrev pub is_base62 : ℕ → Bool
is_base62 c = (leb 97 c && leb c 122) || (leb 65 c && leb c 90) || (leb 48 c && leb c 57)

-- `nv_<env>_<prefix_random>`, and the full key.
abbrev pub key_prefix : Environment → Text → Text
key_prefix env p = nv ++ underscore ∷ (env_text env ++ underscore ∷ p)

abbrev pub full_key : Environment → Text → Text → Text
full_key env p secret = nv ++ underscore ∷ (env_text env ++ underscore ∷ (p ++ underscore ∷ secret))

-- PREFIX_LEN and SECRET_LEN
abbrev pub prefix_len : ℕ
prefix_len = 14

abbrev pub secret_len : ℕ
secret_len = 40

-- The character of `_ALPHABET` at an index: lower case, upper case, digits.
abbrev pub letter_at : ℕ → ℕ
letter_at i = if ltb i 26 then 97 + i else if ltb i 52 then 65 + (i - 26) else 48 + (i - 52)

-- `_rand_base62`, from the indices that `secrets.choice` draws.
pub rand_base62 : ℕ → (ℕ → ℕ) → Text
rand_base62 zero draws = []
rand_base62 (suc n) draws = letter_at (draws 0) ∷ rand_base62 n (λ k. draws (suc k))

-- `generate_api_key`, from the draws for the prefix and for the secret.
unfoldable pub generate_api_key {ℓ} :
    {H : Type ℓ} → (Text → H) → Environment → (ℕ → ℕ) → (ℕ → ℕ) → Text × Text × H
unfolding rand_base62
generate_api_key hash_secret env for_prefix for_secret =
    let p = rand_base62 prefix_len for_prefix in
    let secret = rand_base62 secret_len for_secret in
    (full_key env p secret, key_prefix env p, hash_secret secret)

-- KEY_FULL_REGEX, piece by piece: a literal, a run of base62 of a given length, the end. The end of a
-- Python pattern also matches before a last newline.
pub eat : Text → Text → Option Text
eat [] s = some s
eat (c ∷ w) [] = none
eat (c ∷ w) (d ∷ s) = let rest = eat w s in if c == d then rest else none

pub eat_base62 : ℕ → Text → Option Text
eat_base62 zero s = some s
eat_base62 (suc n) [] = none
eat_base62 (suc n) (c ∷ s) = let rest = eat_base62 n s in if is_base62 c then rest else none

abbrev pub is_end : Text → Bool
is_end [] = true
is_end (c ∷ []) = c == 10
is_end (c ∷ d ∷ s) = false

abbrev pub then_eat : Option Text → (Text → Option Text) → Option Text
then_eat none k = none
then_eat (some s) k = k s

-- `_<14>_<40>` after the environment, and what is left.
pub eat_random : Text → Option Text
unfolding eat eat_base62
eat_random s =
    then_eat (then_eat (then_eat (eat (underscore ∷ []) s) (eat_base62 14)) (eat (underscore ∷ [])))
      (eat_base62 40)

abbrev pub ends : Option Text → Bool
ends none = false
ends (some s) = is_end s

-- Only one of the three environments can be a prefix of the token.
abbrev pub matches_env : Text → Environment → Bool
matches_env s env = ends (then_eat (eat (env_text env) s) eat_random)

pub matches_full : Text → Bool
unfolding eat_random
matches_full token = elim (eat (nv ++ underscore ∷ []) token) [
  | none ↦ false
  | some s ↦ matches_env s prod || matches_env s staging || matches_env s dev
]

-- `token.split("_")`: the first part, and the parts after it.
pub split_parts : Text → Text × List Text
split_parts [] = ([], [])
split_parts (c ∷ s) =
    let rest = split_parts s in
    if c == underscore then ([], rest.0 ∷ rest.1) else (c ∷ rest.0, rest.1)

-- `ParsedApiKey`
pub record ParsedApiKey : Type 0 where
  pub environment : Text
  pub prefix : Text
  pub secret : Text

abbrev pub of_parts : Text × List Text → Option ParsedApiKey
of_parts (first, env ∷ p ∷ secret ∷ []) = some (record {
  environment = env;
  prefix = nv ++ underscore ∷ (env ++ underscore ∷ p);
  secret = secret;
})
of_parts (first, _) = none

-- `parse_api_key`; none is the APIKeyFormatError.
unfoldable pub parse_api_key : Text → Option ParsedApiKey
unfolding matches_full split_parts
parse_api_key [] = none
parse_api_key (c ∷ s) = if matches_full (c ∷ s) then of_parts (split_parts (c ∷ s)) else none
