-- ===== src/Launch/Claude/Allowed.antt =====
-- Claude Code is started with models that its caller may use.
use gatebroker.Prelude.{
  String, true, false, ◌≡◌, refl, ap, ◌∙◌, arith, inl, inr, Option, none, some, List, [], ◌∷◌,
  str_eq, eq_refl, Bool-cases, In,
}
use gatebroker.Policy.{mem}
use gatebroker.Policy.Matching.{mem_iff}
use gatebroker.ModelDiscovery.Choice.{select_claude_model-In}
use gatebroker.Launch.Environment.{Paths, Environment, set, is_claude_command}
use gatebroker.Launch.Claude.{
  model_variables, small_fast_model_variable, haiku_model_variable, is_none, is_approved, is_small,
  first_approved_pin, pin_models, selected_small, claude_environment, augment_claude_environment,
}

-- A variable names one of the models.
pub record Names (available : List String) (value : Option String) : Type 0 where
  pub model : String
  pub is_set : value ≡ some model
  pub allowed : In model available

approved-In :
    (available : List String) (pin : String)
    → is_none available ≡ false
    → is_approved available pin ≡ true
    → In pin available
approved-In available pin h e = (mem_iff pin available).0 (ground arith)

first_approved_pin-In :
    (pins : List (Option String)) (available : List String) (default : String)
    → is_none available ≡ false
    → In default available
    → In (first_approved_pin pins available default) available
unfolding first_approved_pin
first_approved_pin-In [] available default h d = d
first_approved_pin-In (none ∷ pins) available default h d =
    first_approved_pin-In pins available default h d
first_approved_pin-In (some pin ∷ pins) available default h d =
    elim (Bool-cases (is_approved available pin)) [
      | inl e ↦ rw e (approved-In available pin h e)
      | inr e ↦ rw e (first_approved_pin-In pins available default h d)
    ]

set-Names :
    (available : List String) (k v : String) (env : Environment) (name : String)
    → In v available
    → (str_eq k name ≡ false → Names available (env name))
    → Names available (set k v env name)
set-Names available k v env name i h = elim (Bool-cases (str_eq k name)) [
  | inl e ↦ rw e (record { model = v; is_set = refl; allowed = i })
  | inr e ↦ rw e (h e)
]

module _ (available : List String) (default : String) (h : is_none available ≡ false)
    (d : In default available) where
  pin_models-keeps :
      (keys : List String) (env : Environment) (name : String)
      → Names available (env name)
      → Names available (pin_models keys available default env name)
  unfolding pin_models
  pin_models-keeps [] env name n = n
  pin_models-keeps (key ∷ keys) env name n = elim (Bool-cases (is_small key)) [
    | inl e ↦ rw e (pin_models-keeps keys env name n)
    | inr e ↦ rw e (
        pin_models-keeps keys _ name (
          set-Names available key _ env name
            (first_approved_pin-In (env key ∷ []) available default h d) (λ o. n)))
  ]

  pin_models-Names :
      (keys : List String) (env : Environment) (name : String)
      → In name keys
      → is_small name ≡ false
      → Names available (pin_models keys available default env name)
  unfolding pin_models
  pin_models-Names [] env name i s = absurd i
  pin_models-Names (key ∷ keys) env name (inl e) s = rw e (
      rw s (
        pin_models-keeps keys _ name (
          set-Names available name _ env name
            (first_approved_pin-In (env name ∷ []) available default h d)
            (λ o. ground (arith, eq_refl name)))))
  pin_models-Names (key ∷ keys) env name (inr i) s = elim (Bool-cases (is_small key)) [
    | inl e ↦ rw e (pin_models-Names keys env name i s)
    | inr e ↦ rw e (pin_models-Names keys _ name i s)
  ]

set-other :
    (k v : String) (env : Environment) (name : String)
    → str_eq k name ≡ false
    → set k v env name ≡ env name
set-other k v env name h = rw h refl

pin_models-other :
    (keys available : List String) (default : String) (env : Environment) (name : String)
    → mem name keys ≡ false
    → pin_models keys available default env name ≡ env name
unfolding pin_models mem
pin_models-other [] available default env name h = refl
pin_models-other (key ∷ keys) available default env name h = elim (Bool-cases (is_small key)) [
  | inl e ↦ rw e (pin_models-other keys available default env name (ground arith))
  | inr e ↦ rw e (
      pin_models-other keys available default _ name (ground arith)
      ∙ set-other key _ env name (ground arith))
]

-- The two environments before `claude_environment`.
abbrev pinned : List String → String → Environment → Environment
pinned available default env = pin_models model_variables available default env

abbrev with_small : List String → String → Environment → Environment
with_small available default env =
    set small_fast_model_variable (selected_small available default env)
      (pinned available default env)

not_small :
    (name : String)
    → str_eq haiku_model_variable name ≡ false
    → str_eq small_fast_model_variable name ≡ false
    → is_small name ≡ false
unfolding mem
not_small name e f = rw e (rw f refl)

claude_environment-Names :
    (available : List String) (default : String) (env : Environment) (name : String)
    → is_none available ≡ false
    → In default available
    → In name model_variables
    → Names available (claude_environment available default env name)
claude_environment-Names available default env name h d i =
    set-Names available haiku_model_variable _ (with_small available default env) name small (λ e.
      set-Names available small_fast_model_variable _ (pinned available default env) name small
        (λ f.
          pin_models-Names available default h d model_variables env name i (not_small name e f)))
  where
    small : In (selected_small available default env) available
    small = first_approved_pin-In _ available default h d

claude_environment-other :
    (available : List String) (default : String) (env : Environment) (name : String)
    → mem name model_variables ≡ false
    → claude_environment available default env name ≡ env name
unfolding mem
claude_environment-other available default env name h =
    set-other haiku_model_variable (selected_small available default env)
      (with_small available default env) name (ground arith)
    ∙ set-other small_fast_model_variable (selected_small available default env)
        (pinned available default env) name (ground arith)
    ∙ pin_models-other model_variables available default env name h

-- Where the broker reports any model, Claude Code is started with every model variable naming one
-- of those, whatever the environment held, and with every other variable as it was.
pub augment_claude_environment-Names :
    (p : Paths) (casefold : String → String) (preferences : List String) (primary_model : String)
    (command available : List String) (env : Environment)
    → is_claude_command p command ≡ true
    → is_none available ≡ false
    → ((name : String)
        → In name model_variables
        → Names available (
            augment_claude_environment p casefold preferences primary_model command available env
              name))
      × ((name : String)
          → mem name model_variables ≡ false
          → augment_claude_environment p casefold preferences primary_model command available env
              name
            ≡ env name)
unfolding augment_claude_environment
augment_claude_environment-Names p casefold preferences primary_model command available env c h =
    rw c (
      (λ name i.
          claude_environment-Names available _ env name h
            (select_claude_model-In casefold preferences available primary_model
              (λ e. ground (arith, ap is_none e)))
            i),
      (λ name i. claude_environment-other available _ env name i),
    )
