-- ===== src/Launch/Run.antt =====
-- `_run_with_broker_environment`, up to the start of the process: the environments and the command
-- line of the three agents, one after the other.
pub mod Confined
use Prim.Native.String
use gatebroker.Prelude.{
  String, Bool, true, false, ◌||◌, ◌≡◌, refl, Option, none, some, List, [], ◌∷◌, map, str_eq,
  if◌then◌else◌,
}
use gatebroker.Launch.Environment.{
  Paths, Environment, set, is_claude_command, is_codex_command, augment_copilot_environment,
}
use gatebroker.Launch.Claude.{augment_claude_environment}
use gatebroker.Launch.Codex.{Model, first_id, augment_codex_command}

-- What the profile gives, and what a launch is given from outside: `casefold` is the method of
-- `str`, and `catalog_path` where the catalog was written.
pub record Distribution : Type 0 where
  pub base_url : String
  pub gateway_name : String
  pub models : List Model
  pub paths : Paths
  pub casefold : String → String
  pub catalog_path : String

pub record Launched : Type 0 where
  pub command : List String
  pub environment : Environment

-- `text.removesuffix(suffix)` for a suffix that is not empty
pub remove_suffix : String → String → String
remove_suffix suffix String.[] = String.[]
remove_suffix suffix (String.◌∷◌ c s) =
    let rest = remove_suffix suffix s in
    if str_eq (String.◌∷◌ c s) suffix then String.[] else String.◌∷◌ c rest

unfoldable pub broker_environment : String → String → Environment → Environment
unfolding remove_suffix
broker_environment base_url token env = set "ANTHROPIC_AUTH_TOKEN" token (
    set "ANTHROPIC_BASE_URL" (remove_suffix "/v1" base_url)
      (set "OPENAI_API_KEY" token (set "OPENAI_BASE_URL" base_url env)))

unfoldable pub selects_a_model : Paths → List String → Bool
selects_a_model p command = is_claude_command p command || is_codex_command p command

-- `model_preference()` and `primary_model()`
abbrev pub preferences : Distribution → List String
preferences d = map (λ (m : Model). m.0) d.models

-- `reported` is what `allowed_models` returns.
abbrev pub available : Distribution → List String → List String → List String
unfolding selects_a_model
available d command reported = if selects_a_model d.paths command then reported else []

abbrev pub launch_environment :
    Distribution → String → List String → List String → Environment → Environment
launch_environment d token reported command env =
    augment_claude_environment d.paths d.casefold (preferences d) (first_id d.models) command
      (available d command reported)
      (augment_copilot_environment d.paths (first_id d.models) command d.base_url token
        (broker_environment d.base_url token env))

unfoldable pub run_with_broker_environment :
    Distribution → String → List String → List String → Environment → Launched
unfolding broker_environment augment_copilot_environment augment_claude_environment
    augment_codex_command selects_a_model
run_with_broker_environment d token reported command env = record {
  command =
      augment_codex_command d.paths d.models d.gateway_name d.base_url d.catalog_path
        (available d command reported) command;
  environment = launch_environment d token reported command env;
}

remove_suffix_test : remove_suffix "/v1" "https://g/v1" ≡ "https://g"
unfolding remove_suffix
remove_suffix_test = refl
