-- ===== src/Launch/Codex.antt =====
-- `augment_codex_command`: the overrides on the command line of Codex. `catalog_path` is the path of
-- the catalog that was written before.
use Prim.Native.String.{◌++◌}
use gatebroker.Prelude.{String, ◌≡◌, refl, Option, none, some, List, [], ◌∷◌, str_eq, if◌then◌else◌}
use gatebroker.Text.{split_on}
use gatebroker.ModelDiscovery.{last_part}
use gatebroker.Launch.Environment.{Paths, text_or, is_codex_command}

-- A model's id and its label; `dict(...)` keeps the last label of an id.
abbrev pub Model : Type 0
Model = String × String

unfoldable pub label_of : String → List Model → Option String
label_of slug [] = none
label_of slug ((id, label) ∷ models) =
    let rest = label_of slug models in
    elim rest [ some l ↦ some l | none ↦ (if str_eq id slug then some label else none) ]

-- `slug.rsplit("/", 1)[-1]`
abbrev pub label_for : String → String
label_for slug = last_part (split_on b'/' slug)

unfoldable pub labelled : List Model → List String → List Model
unfolding label_of
labelled models [] = []
labelled models (slug ∷ slugs) =
    (slug, text_or (label_of slug models) (label_for slug)) ∷ labelled models slugs

-- `models` is the profile's.
unfoldable pub catalog_entries : List Model → List String → List Model
unfolding labelled
catalog_entries models [] = models
catalog_entries models (slug ∷ slugs) = labelled models (slug ∷ slugs)

-- `-c` before each override
abbrev pub flagged : List String → List String → List String
flagged [] args = args
flagged (o ∷ overrides) args = "-c" ∷ o ∷ flagged overrides args

abbrev pub cli_overrides : String → String → String → String → List String
cli_overrides gateway_name base_url catalog_path default_model =
    "model_provider=\"gabro\""
    ∷ ("model=\"" ++ default_model ++ "\"")
    ∷ ("model_catalog_json=\"" ++ catalog_path ++ "\"")
    ∷ ("model_providers.gabro.name=\"" ++ gateway_name ++ "\"")
    ∷ ("model_providers.gabro.base_url=\"" ++ base_url ++ "\"")
    ∷ "model_providers.gabro.env_key=\"OPENAI_API_KEY\""
    ∷ "model_providers.gabro.wire_api=\"responses\""
    ∷ []

-- `entries[0][0]`; a profile lists at least one model.
abbrev pub first_id : List Model → String
first_id [] = ""
first_id ((id, label) ∷ models) = id

unfoldable pub augment_codex_command :
    Paths → List Model → String → String → String → List String → List String → List String
unfolding is_codex_command catalog_entries
augment_codex_command p models gateway_name base_url catalog_path available [] = []
augment_codex_command p models gateway_name base_url catalog_path available (raw ∷ args) =
    if is_codex_command p (raw ∷ args)
    then raw
      ∷ flagged
          (cli_overrides gateway_name base_url catalog_path
            (first_id (catalog_entries models available)))
          args
    else raw ∷ args

labelled_test :
    catalog_entries (("m1", "Model one") ∷ []) ("m1" ∷ "vendor/m2" ∷ [])
    ≡ ("m1", "Model one") ∷ ("vendor/m2", "m2") ∷ []
unfolding catalog_entries labelled label_of split_on
labelled_test = refl
