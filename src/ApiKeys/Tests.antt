-- ===== src/ApiKeys/Tests.antt =====
-- One key of src/server/security/api_keys.py, and tokens that are none.
use neuro_voice.Prelude.{ℕ, ◌<◌, arith, ◌≡◌, refl, none, some}
use neuro_voice.ApiKeys.{
  Text, prod, env_text, full_key, rand_base62, generate_api_key, parse_api_key,
}
use neuro_voice.ApiKeys.RoundTrip.{parse_api_key-generate_api_key}

abbrev hashed : Text → ℕ
hashed s = 5

-- Each draw is the last character of the alphabet, the digit 9.
abbrev last : ℕ → ℕ
last k = 61

in_range : (k : ℕ) → last k < 62
in_range k = omega arith

short_secret : parse_api_key (full_key prod (rand_base62 14 last) (rand_base62 39 last)) ≡ none
unfolding parse_api_key rand_base62
short_secret = refl

parse_api_key-generate_api_key_example :
    parse_api_key (generate_api_key hashed prod last last).0
    ≡ some (record {
      environment = env_text prod;
      prefix = (generate_api_key hashed prod last last).1;
      secret = rand_base62 40 last;
    })
parse_api_key-generate_api_key_example =
    parse_api_key-generate_api_key hashed prod last last in_range in_range
