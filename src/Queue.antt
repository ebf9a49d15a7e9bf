-- ===== src/Queue.antt =====
-- The wire format of src/server/queue.py: jobs, and the chunks of a per-request result stream. UUIDs
-- are numbers; PCM is a list of bytes; a text that the program measures is a list of characters.
use Prim.Native.String.{String}
use text.Mathlib.Text.{◌==◌ as str_eq}
use neuro_voice.Prelude.{
  ℕ, ◌+◌, Bool, false, ◌||◌, not, Option, none, some, List, [], ◌∷◌, if◌then◌else◌,
}
use neuro_voice.Voice.{Json}

-- `TtsJobPayload`
pub record TtsJobPayload : Type 0 where
  pub request_id : ℕ
  pub tenant_id : ℕ
  pub api_key_id : ℕ
  pub voice_id : ℕ
  pub text : List ℕ
  pub language : String
  pub audio_format : String
  pub model_id : Option String
  pub voice_settings : Option Json
  pub params : Option Json
  pub seed : Option ℕ
  pub previous_text : Option String
  pub next_text : Option String
  pub pronunciation_dict : Option (List (String × String))
  pub app_label : Option String
  pub callback_url : Option String
  pub enqueued_at_ms : Option ℕ

-- `TtsResult`
pub record TtsResult : Type 0 where
  pub request_id : ℕ
  pub seq : ℕ
  pub pcm_bytes : List ℕ
  pub sentence_text : Option String
  pub final : Bool
  pub error : Option String
  pub attempt : ℕ

-- `bool(chunk.error)`: an empty message is no error.
abbrev pub has_error : TtsResult → Bool
has_error c = elim c.error [ none ↦ false | some s ↦ not (str_eq s "") ]

-- `bool(chunk.error or chunk.final)`
abbrev pub is_terminal : TtsResult → Bool
is_terminal c = has_error c || c.final

-- One row of XINFO GROUPS; `none` where the field is absent or does not parse.
pub record GroupRow : Type 0 where
  pub name : String
  pub pending : Option ℕ
  pub lag : Option ℕ

-- The loop of `backlog_depth` over the groups.
pub backlog_of : ℕ → String → List GroupRow → ℕ
backlog_of xlen group [] = xlen
backlog_of xlen group (row ∷ rows) =
    if str_eq row.name group
    then elim row.pending [
      | none ↦ xlen
      | some p ↦ elim row.lag [ none ↦ xlen | some lag ↦ p + lag ]
    ]
    else backlog_of xlen group rows

-- The second argument is none if XINFO GROUPS raised.
pub backlog_depth : ℕ → Option (List GroupRow) → String → ℕ
unfolding backlog_of
backlog_depth xlen none group = xlen
backlog_depth xlen (some groups) group = backlog_of xlen group groups
