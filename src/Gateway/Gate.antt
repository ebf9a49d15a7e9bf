-- ===== src/Gateway/Gate.antt =====
-- `_assert_voice_accessible_or_404` and `_ensure_voice_synthesizable` of src/server/main.py.
pub mod Passed
use neuro_voice.Prelude.{ℕ, Option, none, some, List}
use neuro_voice.Voice.{Voice, Grant, get_accessible}
use neuro_voice.Voice.Lifecycle.{State, lifecycle_state, active}
use neuro_voice.Consent.{ConsentRecord, latest_active}

-- Why a voice is gone: its state, or no consent.
pub data GoneReason : Type 0 where
  voice_state : State → GoneReason
  no_active_consent : GoneReason

-- The voice, or the error that the request ends with.
pub data GateReply : Type 0 where
  invalid_voice_id unknown_voice : GateReply
  gone : GoneReason → GateReply
  passed : Voice → GateReply

-- None is a voice that may be synthesized.
pub ensure_voice_synthesizable : Voice → List ConsentRecord → Option GoneReason
ensure_voice_synthesizable v consents = elim (lifecycle_state v) [
  | active ↦ elim (latest_active v.id consents) [ none ↦ some no_active_consent | some r ↦ none ]
  | state ↦ some (voice_state state)
]

-- An id that `validate_voice_id` refuses is none.
pub assert_voice_accessible : Option ℕ → ℕ → List Grant → List Voice → GateReply
assert_voice_accessible none tenant_id grants voices = invalid_voice_id
assert_voice_accessible (some slug) tenant_id grants voices =
    elim (get_accessible tenant_id slug grants voices) [ none ↦ unknown_voice | some v ↦ passed v ]

-- The two in the order of the synthesis routes.
unfoldable pub gate : Option ℕ → ℕ → List Grant → List Voice → List ConsentRecord → GateReply
unfolding ensure_voice_synthesizable assert_voice_accessible
gate voice_id tenant_id grants voices consents =
    elim (assert_voice_accessible voice_id tenant_id grants voices) [
      | passed v ↦ elim (ensure_voice_synthesizable v consents) [
        | none ↦ passed v
        | some reason ↦ gone reason
      ]
      | refusal ↦ refusal
    ]
