-- ===== src/Auth/Tests.antt =====
-- A tenant with one key at the door of src/server/auth.py.
use neuro_voice.Prelude.{
  ℕ, zero, suc, ◌≡◌, ◌↔◌, refl, true, false, none, some, [], ◌∷◌, ◌++◌, ◌==◌, if◌then◌else◌, length,
}
use neuro_voice.ApiKeys.{Text, ParsedApiKey, prod, full_key, key_prefix, parse_api_key}
use neuro_voice.RateLimit.{check, sliding_window}
use neuro_voice.Auth.Defs.{Tenant, ApiKey, active}
use neuro_voice.Auth.Granted.{IsEarned, authenticate_bearer-granted}
use neuro_voice.Auth.Denied.{is_refused, IsUnspent, authenticate_bearer-refused}
use neuro_voice.Auth.{
  Surroundings, Store, granted, rate_limited_429, bearer, limit_key, bearer_token,
  authenticate_bearer,
}

abbrev letters : ℕ → Text
letters zero = []
letters (suc n) = 97 ∷ letters n

abbrev studio : Tenant
studio = record {
  id = 1;
  slug = "studio";
  display_name = "Studio";
  status = active;
  deleted_at = none;
}

abbrev first_key : ApiKey
first_key = record {
  id = 2;
  tenant_id = 1;
  prefix = key_prefix prod (letters 14);
  secret_hash = 40;
  scopes = "tts:write" ∷ [];
  rate_limit_per_minute = 1;
  label = none;
  created_at = 5;
  created_by_operator_id = none;
  last_used_at = none;
  revoked_at = none;
  revoked_reason = none;
}

-- The key has made its one request of the minute at 1000.
abbrev after_one : Store
after_one = record {
  keys = first_key ∷ [];
  tenants = studio ∷ [];
  audit = [];
  key_hits = λ id. if id == 2 then record { score = 1_000; member = 8 } ∷ [] else [];
  tenant_hits = λ id. [];
}

abbrev untouched : Store
untouched = record after_one { key_hits = λ id. [] }

-- A hash stands for the length of its secret.
abbrev at_1500 : Surroundings
at_1500 = record {
  verify = λ hash secret. length secret == hash;
  now = 1_500;
  key_member = 9;
  tenant_member = 10;
  tenant_limit = 100;
  audit_fails = false;
}

abbrev header : Text
header = bearer ++ full_key prod (letters 14) (letters 40)

lets_in :
    (authenticate_bearer at_1500 ("tts:write" ∷ []) (some header) untouched).0
    ≡ granted studio first_key
unfolding authenticate_bearer parse_api_key check sliding_window
lets_in = refl

authenticate_bearer-granted_example :
    ((authenticate_bearer at_1500 ("tts:write" ∷ []) (some header) untouched).0
      ≡ granted studio first_key)
    ↔ ((token : Text) × (p : ParsedApiKey) × (bearer_token (some header) ≡ some token)
        × (parse_api_key token ≡ some p)
        × IsEarned at_1500 ("tts:write" ∷ []) p untouched studio first_key)
authenticate_bearer-granted_example =
    authenticate_bearer-granted at_1500 ("tts:write" ∷ []) (some header) untouched studio first_key

no_scope :
    is_refused (authenticate_bearer at_1500 ("tts:read" ∷ []) (some header) untouched).0 ≡ true
unfolding authenticate_bearer parse_api_key
no_scope = refl

authenticate_bearer-refused_example :
    IsUnspent untouched (authenticate_bearer at_1500 ("tts:read" ∷ []) (some header) untouched).1
authenticate_bearer-refused_example =
    authenticate_bearer-refused at_1500 ("tts:read" ∷ []) (some header) untouched no_scope

limited : (limit_key at_1500 first_key studio after_one).0 ≡ rate_limited_429 60
unfolding limit_key check sliding_window
limited = refl
