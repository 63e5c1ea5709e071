-- ===== src/Tests/Agents.antt =====
-- The theorems on the start of an agent, each at a concrete input.
use gatebroker.Prelude.{
  ◌≡◌, refl, String, true, false, none, some, [], ◌∷◌, In, str_eq, if◌then◌else◌,
}
use gatebroker.Policy.{mem}
use gatebroker.Launch.Environment.{Paths, Environment, is_claude_command}
use gatebroker.Launch.Claude.{model_variables, augment_claude_environment}
use gatebroker.Launch.Claude.Allowed.{Names, augment_claude_environment-Names}
use gatebroker.Launch.Run.{Distribution, Launched, run_with_broker_environment}
use gatebroker.Launch.Run.Confined.{Agree, run-confines_token}

abbrev plain_paths : Paths
plain_paths = record { windows_name = λ s. s; posix_name = λ s. s; lower = λ s. s }

abbrev haiku_pinned : Environment
haiku_pinned name = if str_eq name "ANTHROPIC_DEFAULT_HAIKU_MODEL" then some "m2" else none

starts_claude : is_claude_command plain_paths ("claude" ∷ []) ≡ true
unfolding is_claude_command mem gatebroker.Launch.Environment.has_backslash
starts_claude = refl

augment_claude_environment-Names_example :
    ((name : String)
      → In name model_variables
      → Names ("m1" ∷ "m2" ∷ []) (
          augment_claude_environment plain_paths
            (λ s. s)
            ("m9" ∷ [])
            "m9"
            ("claude" ∷ [])
            ("m1" ∷ "m2" ∷ [])
            haiku_pinned
            name))
    × ((name : String)
        → mem name model_variables ≡ false
        → augment_claude_environment plain_paths
            (λ s. s)
            ("m9" ∷ [])
            "m9"
            ("claude" ∷ [])
            ("m1" ∷ "m2" ∷ [])
            haiku_pinned
            name
          ≡ haiku_pinned name)
augment_claude_environment-Names_example =
    augment_claude_environment-Names plain_paths (λ s. s) ("m9" ∷ []) "m9" ("claude" ∷ [])
      ("m1" ∷ "m2" ∷ []) haiku_pinned starts_claude refl

abbrev distribution : Distribution
distribution = record {
  base_url = "https://g/v1";
  gateway_name = "G";
  models = ("m1", "One") ∷ [];
  paths = plain_paths;
  casefold = λ s. s;
  catalog_path = "/c/codex-model-catalog.json";
}

abbrev launched : String → Launched
launched token =
    run_with_broker_environment distribution token ("m2" ∷ []) ("codex" ∷ "-q" ∷ []) haiku_pinned

run-confines_token_example :
    ((launched "t1").command ≡ (launched "t2").command)
    × Agree (launched "t1").environment (launched "t2").environment
run-confines_token_example =
    run-confines_token distribution "t1" "t2" ("m2" ∷ []) ("codex" ∷ "-q" ∷ []) haiku_pinned
