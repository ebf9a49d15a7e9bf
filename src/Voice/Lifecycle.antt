-- ===== src/Voice/Lifecycle.antt =====
-- The lifecycle of a voice in src/repos/voice.py: freeze, unfreeze, schedule a purge, pin an eval
-- result, purge. These methods find the row by its key; the clock is an argument.
pub mod Retention
pub mod Stopped
use Prim.Native.String.{String}
use text.Mathlib.Text.{◌==◌ as str_eq}
use neuro_voice.Prelude.{
  ℕ, ◌+◌, ◌*◌, Bool, true, false, ◌&&◌, not, Option, none, some, List, [], ◌∷◌, ltb, ◌==◌,
  if◌then◌else◌, is_some, or_else, find, update_where,
}
use neuro_voice.Voice.Defs.{Voice, Json, JsonValue, object}

-- What `lifecycle_state` returns.
pub data State : Type 0 where
  active frozen purge_pending deleted purged : State

unfoldable pub lifecycle_state : Voice → State
lifecycle_state v =
    if is_some v.purged_at
    then purged
    else if is_some v.deleted_at
    then deleted
    else if is_some v.purge_after_at
    then purge_pending
    else if is_some v.frozen_at
    then frozen
    else active

-- A day, in milliseconds, and `DEFAULT_PURGE_DELAY_DAYS`.
abbrev pub days : ℕ → ℕ
days n = n * 86_400_000

abbrev pub default_purge_delay_days : ℕ
default_purge_delay_days = 30

abbrev pub has_id : ℕ → Voice → Bool
has_id id v = v.id == id

unfoldable pub get_by_id : ℕ → List Voice → Option Voice
get_by_id id = find (has_id id)

-- Every method returns early for a row that is missing or purged, and returns it as it is.
pub on_unpurged : ℕ → (Voice → Voice) → List Voice → Option Voice × List Voice
unfolding get_by_id
on_unpurged id f voices = elim (get_by_id id voices) [
  | none ↦ (none, voices)
  | some v ↦
      if is_some v.purged_at
      then (some v, voices)
      else (some (f v), update_where (has_id v.id) f voices)
]

-- "Don't shorten an already-scheduled purge silently."
abbrev pub later_of : Option ℕ → ℕ → Option ℕ
later_of none scheduled = some scheduled
later_of (some old) scheduled = if ltb old scheduled then some scheduled else some old

abbrev pub extended : Option ℕ → ℕ → Option ℕ → Option ℕ
extended none now old = old
extended (some n) now old = later_of old (now + days n)

pub frozen_row : String → Option ℕ → ℕ → Voice → Voice
frozen_row reason purge_after_days now v = record v {
  frozen_at = some (or_else v.frozen_at now);
  frozen_reason = some reason;
  purge_after_at = extended purge_after_days now v.purge_after_at;
}

pub freeze : ℕ → String → Option ℕ → ℕ → List Voice → Option Voice × List Voice
unfolding on_unpurged frozen_row
freeze id reason purge_after_days now = on_unpurged id (frozen_row reason purge_after_days now)

pub unfrozen_row : Voice → Voice
unfrozen_row v = record v { frozen_at = none; frozen_reason = none }

pub unfreeze : ℕ → List Voice → Option Voice × List Voice
unfolding on_unpurged unfrozen_row
unfreeze id = on_unpurged id unfrozen_row

-- `v.frozen_reason or "scheduled for purge"`
abbrev pub reason_or_default : Option String → String
reason_or_default none = "scheduled for purge"
reason_or_default (some r) = if str_eq r "" then "scheduled for purge" else r

pub scheduled_row : ℕ → ℕ → Voice → Voice
scheduled_row after_days now v = record v {
  frozen_at = some (or_else v.frozen_at now);
  frozen_reason =
      if is_some v.frozen_at then v.frozen_reason else some (reason_or_default v.frozen_reason);
  purge_after_at = some (now + days after_days);
}

pub schedule_purge : ℕ → ℕ → ℕ → List Voice → Option Voice × List Voice
unfolding on_unpurged scheduled_row
schedule_purge id after_days now = on_unpurged id (scheduled_row after_days now)

abbrev pub member? : String → Json → Option JsonValue
member? k [] = none
member? k ((j, x) ∷ m) = if str_eq j k then some x else member? k m

-- `isinstance(payload["metrics"], dict)` and not empty
abbrev pub is_filled_object : Option JsonValue → Bool
is_filled_object (some (object (x ∷ xs))) = true
is_filled_object _ = false

abbrev pub is_eval_payload : Json → Bool
is_eval_payload p =
    is_some (member? "schema_version" p)
    && is_some (member? "evaluated_at" p)
    && is_filled_object (member? "metrics" p)

pub pinned_row : Json → Voice → Voice
pinned_row payload v = record v { eval_metrics = some payload }

-- None is the ValueError.
pub pin_eval : ℕ → Json → List Voice → Option (Option Voice × List Voice)
unfolding on_unpurged pinned_row
pin_eval id payload voices =
    if is_eval_payload payload then some (on_unpurged id (pinned_row payload) voices) else none

-- `"0" * 64`
abbrev pub zero_digest : String
zero_digest = "0000000000000000000000000000000000000000000000000000000000000000"

-- What `execute_purge` writes. The other columns stay.
unfoldable pub purged_row : ℕ → Voice → Voice
purged_row at v = record v {
  reference_uri = "";
  reference_sha256 = zero_digest;
  adapter_uri = none;
  adapter_sha256 = none;
  adapter_type = none;
  display_name = "[purged voice]";
  description = none;
  labels = none;
  preview_url = none;
  voice_settings_defaults = none;
  engine_params = [];
  eval_metrics = none;
  purged_at = some at;
}

pub execute_purge : ℕ → Option ℕ → ℕ → List Voice → Option Voice × List Voice
unfolding on_unpurged purged_row
execute_purge id purged_at now = on_unpurged id (purged_row (or_else purged_at now))
