-- ===== src/Launch/Claude.antt =====
-- `augment_claude_environment`: the model of each slot of Claude Code.
pub mod Allowed
use gatebroker.Prelude.{
  String, Bool, true, false, not, ◌&&◌, ◌||◌, Option, none, some, List, [], ◌∷◌, if◌then◌else◌,
}
use gatebroker.Text.{is_empty}
use gatebroker.Policy.{mem}
use gatebroker.ModelDiscovery.{select_claude_model}
use gatebroker.Launch.Environment.{Paths, Environment, set, is_claude_command}

abbrev pub small_fast_model_variable : String
small_fast_model_variable = "ANTHROPIC_SMALL_FAST_MODEL"

abbrev pub haiku_model_variable : String
haiku_model_variable = "ANTHROPIC_DEFAULT_HAIKU_MODEL"

abbrev pub model_variables : List String
model_variables =
    "ANTHROPIC_MODEL" ∷ small_fast_model_variable ∷ "ANTHROPIC_DEFAULT_OPUS_MODEL"
    ∷ "ANTHROPIC_DEFAULT_SONNET_MODEL" ∷ haiku_model_variable ∷ "ANTHROPIC_DEFAULT_FABLE_MODEL"
    ∷ "CLAUDE_CODE_SUBAGENT_MODEL" ∷ []

abbrev pub is_none : List String → Bool
is_none [] = true
is_none (m ∷ ms) = false

abbrev pub is_approved : List String → String → Bool
is_approved available pin = not (is_empty pin) && (is_none available || mem pin available)

unfoldable pub first_approved_pin : List (Option String) → List String → String → String
first_approved_pin [] available default = default
first_approved_pin (none ∷ pins) available default = first_approved_pin pins available default
first_approved_pin (some pin ∷ pins) available default =
    let rest = first_approved_pin pins available default in
    if is_approved available pin then pin else rest

abbrev pub is_small : String → Bool
is_small key = mem key (small_fast_model_variable ∷ haiku_model_variable ∷ [])

-- The loop over the variables, but for those of the small model.
unfoldable pub pin_models : List String → List String → String → Environment → Environment
unfolding first_approved_pin
pin_models [] available default merged = merged
pin_models (key ∷ keys) available default merged =
    if is_small key
    then pin_models keys available default merged
    else pin_models keys available default
        (set key (first_approved_pin (merged key ∷ []) available default) merged)

abbrev pub selected_small : List String → String → Environment → String
selected_small available default env =
    first_approved_pin (env small_fast_model_variable ∷ env haiku_model_variable ∷ []) available
      default

abbrev pub claude_environment : List String → String → Environment → Environment
claude_environment available default env =
    set haiku_model_variable (selected_small available default env) (
      set small_fast_model_variable (selected_small available default env)
        (pin_models model_variables available default env))

-- `casefold` is the method of `str`, `preferences` the profile's models, most preferred first, and
-- `primary_model` the first of them.
unfoldable pub augment_claude_environment :
    Paths
    → (String → String)
    → List String
    → String
    → List String
    → List String
    → Environment
    → Environment
unfolding is_claude_command pin_models first_approved_pin
augment_claude_environment p casefold preferences primary_model command available env =
    if is_claude_command p command
    then claude_environment available
        (select_claude_model casefold preferences available primary_model) env
    else env
