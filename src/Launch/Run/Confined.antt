-- ===== src/Launch/Run/Confined.antt =====
-- The access token reaches an agent only in the variables that are for it.
use gatebroker.Prelude.{
  String, false, ◌≡◌, refl, inl, inr, ap, ap₂, arith, some, List, [], ◌∷◌, All, str_eq, Bool-cases,
}
use gatebroker.Policy.{mem}
use gatebroker.Launch.Environment.{
  Paths, Environment, set, text_or, is_copilot_command, is_claude_command,
  augment_copilot_environment,
}
use gatebroker.Launch.Codex.{first_id}
use gatebroker.Launch.Claude.{
  is_small, pin_models, model_variables, first_approved_pin, selected_small, claude_environment,
  augment_claude_environment, small_fast_model_variable, haiku_model_variable,
}
use gatebroker.Launch.Run.{
  Distribution, broker_environment, preferences, available, run_with_broker_environment,
}

-- The variables that hold the token.
abbrev pub secrets : List String
secrets = "OPENAI_API_KEY" ∷ "ANTHROPIC_AUTH_TOKEN" ∷ "COPILOT_PROVIDER_API_KEY" ∷ []

abbrev pub IsPublic : String → Type 0
IsPublic name = mem name secrets ≡ false

-- Two environments that differ in the token's variables at most.
abbrev pub Agree : Environment → Environment → Type 0
Agree e f = (name : String) → IsPublic name → e name ≡ f name

set-Agree : (k v w : String) (e f : Environment) → v ≡ w → Agree e f → Agree (set k v e) (set k w f)
set-Agree k v w e f same h name p = elim (Bool-cases (str_eq k name)) [
  | inl eq ↦ rw eq (ap some same)
  | inr eq ↦ rw eq (h name p)
]

set_secret-Agree :
    (k v w : String) (e f : Environment)
    → ((name : String) → IsPublic name → str_eq k name ≡ false)
    → Agree e f
    → Agree (set k v e) (set k w f)
set_secret-Agree k v w e f s h name p = rw (s name p) (h name p)

api_key-secret : (name : String) → IsPublic name → str_eq "OPENAI_API_KEY" name ≡ false
unfolding mem
api_key-secret name p = ground arith

auth_token-secret : (name : String) → IsPublic name → str_eq "ANTHROPIC_AUTH_TOKEN" name ≡ false
unfolding mem
auth_token-secret name p = ground arith

provider_key-secret :
    (name : String) → IsPublic name → str_eq "COPILOT_PROVIDER_API_KEY" name ≡ false
unfolding mem
provider_key-secret name p = ground arith

broker_environment-Agree :
    (base_url t u : String) (env : Environment)
    → Agree (broker_environment base_url t env) (broker_environment base_url u env)
unfolding broker_environment
broker_environment-Agree base_url t u env = set_secret-Agree _ t u _ _ auth_token-secret (
    set-Agree _ _ _ _ _ refl
      (set_secret-Agree _ t u _ _ api_key-secret (set-Agree _ _ _ env env refl (λ name p. refl))))

augment_copilot-Agree :
    (p : Paths) (model : String) (command : List String) (base_url t u : String) (e f : Environment)
    → Agree e f
    → Agree
        (augment_copilot_environment p model command base_url t e)
        (augment_copilot_environment p model command base_url u f)
unfolding augment_copilot_environment mem
augment_copilot-Agree p model command base_url t u e f h =
    elim (Bool-cases (is_copilot_command p command)) [
      | inl c ↦ rw c (
          set-Agree _ _ _ _ _ (ap (λ o. text_or o model) (h "COPILOT_MODEL" refl)) (
            set_secret-Agree _ t u _ _ provider_key-secret
              (set-Agree _ _ _ _ _ refl (set-Agree _ _ _ e f refl h))))
      | inr c ↦ rw c h
    ]

pin_models-Agree :
    (keys models : List String) (default : String) (e f : Environment)
    → All IsPublic keys
    → Agree e f
    → Agree (pin_models keys models default e) (pin_models keys models default f)
unfolding pin_models
pin_models-Agree [] models default e f a h = h
pin_models-Agree (key ∷ keys) models default e f (p, a) h = elim (Bool-cases (is_small key)) [
  | inl s ↦ rw s (pin_models-Agree keys models default e f a h)
  | inr s ↦ rw s (
      pin_models-Agree keys models default _ _ a
        (set-Agree key _ _ e f (ap (λ o. first_approved_pin (o ∷ []) models default) (h key p)) h))
]

claude_environment-Agree :
    (models : List String) (default : String) (e f : Environment)
    → Agree e f
    → Agree (claude_environment models default e) (claude_environment models default f)
unfolding mem
claude_environment-Agree models default e f h = set-Agree haiku_model_variable _ _ _ _ small (
    set-Agree small_fast_model_variable _ _ _ _ small (
      pin_models-Agree model_variables models default e f
        (refl, (refl, (refl, (refl, (refl, (refl, (refl, tt))))))) h))
  where
    small : selected_small models default e ≡ selected_small models default f
    small =
        ap₂ (λ a b. first_approved_pin (a ∷ b ∷ []) models default)
          (h small_fast_model_variable refl) (h haiku_model_variable refl)

augment_claude-Agree :
    (p : Paths) (casefold : String → String) (preferred : List String) (model : String)
    (command models : List String) (e f : Environment)
    → Agree e f
    → Agree
        (augment_claude_environment p casefold preferred model command models e)
        (augment_claude_environment p casefold preferred model command models f)
unfolding augment_claude_environment
augment_claude-Agree p casefold preferred model command models e f h =
    elim (Bool-cases (is_claude_command p command)) [
      | inl c ↦ rw c (claude_environment-Agree models _ e f h)
      | inr c ↦ rw c h
    ]

-- With the same models reported, two tokens give the same command line, and environments that differ
-- in `OPENAI_API_KEY`, `ANTHROPIC_AUTH_TOKEN` and `COPILOT_PROVIDER_API_KEY` at most.
pub run-confines_token :
    (d : Distribution) (t u : String) (reported command : List String) (env : Environment)
    → ((run_with_broker_environment d t reported command env).command
        ≡ (run_with_broker_environment d u reported command env).command)
      × Agree
          (run_with_broker_environment d t reported command env).environment
          (run_with_broker_environment d u reported command env).environment
unfolding run_with_broker_environment
run-confines_token d t u reported command env = (
  refl,
  augment_claude-Agree d.paths d.casefold (preferences d) (first_id d.models) command
      (available d command reported) _ _
      (augment_copilot-Agree d.paths (first_id d.models) command d.base_url t u _ _
        (broker_environment-Agree d.base_url t u env)),
)
