-- ===== src/Models.antt =====
-- The preset registry of src/server/models.py. A cfg value is in tenths.
use Prim.Native.String.{String}
use text.Mathlib.Text.{◌==◌ as str_eq}
use neuro_voice.Prelude.{
  ℕ, Bool, true, false, Option, none, some, List, [], ◌∷◌, if◌then◌else◌, find,
}

-- `ModelPreset`, without its texts for people.
pub record ModelPreset : Type 0 where
  pub model_id : String
  pub cfg_value : ℕ
  pub inference_timesteps : ℕ
  pub is_default : Bool

abbrev preset : String → ℕ → ℕ → Bool → ModelPreset
preset id cfg steps default = record {
  model_id = id;
  cfg_value = cfg;
  inference_timesteps = steps;
  is_default = default;
}

-- `DEFAULT_MODEL`
abbrev pub default_model : ModelPreset
default_model = preset "voxcpm2-tr-hd" 20 16 true

-- `_PRESETS`
abbrev pub presets : List ModelPreset
presets =
    preset "voxcpm2-tr-turbo" 15 8 false
    ∷ default_model
    ∷ preset "voxcpm2-tr-character" 25 24 false
    ∷ preset "voxcpm2-fast" 20 7 false
    ∷ preset "voxcpm2-standard" 20 10 false
    ∷ preset "voxcpm2-studio" 25 16 false
    ∷ []

-- None is the UnknownModelError. An empty id is as good as none.
unfoldable pub resolve_model : Option String → Option ModelPreset
resolve_model none = some default_model
resolve_model (some id) =
    if str_eq id "" then some default_model else find (λ p. str_eq p.model_id id) presets
