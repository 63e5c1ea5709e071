-- ===== src/ModelDiscovery.antt =====
-- src/gatebroker/model_discovery.py: the model that an agent is started with, chosen of those that
-- the broker reports. The request to the broker is not modelled, only what is read of its answer.
pub mod Choice
use gatebroker.Prelude.{
  String, ◌≡◌, refl, Bool, true, false, not, ◌&&◌, ◌||◌, Option, none, some, List, [], ◌∷◌, str_eq,
  if◌then◌else◌,
}
use gatebroker.Text.{is_empty, split_on, ends_with}
use gatebroker.Json.{Value, str, arr, obj, Items, nil, cons, Fields, end, field, get}
use gatebroker.Policy.{mem}

-- The entries of `data` that name a model.
entry_ids : Items → List String
unfolding get
entry_ids nil = []
entry_ids (cons (obj entry) entries) = elim (get "id" entry) [
  | some (str id) ↦ if is_empty id then entry_ids entries else id ∷ entry_ids entries
  | _ ↦ entry_ids entries
]
entry_ids (cons v entries) = entry_ids entries

abbrev ids_in : Option Value → List String
ids_in (some (arr entries)) = entry_ids entries
ids_in v = []

-- `allowed_models`, from the document that the broker answers with; `none` is a failure to read it.
abbrev allowed_models : Option Value → List String
allowed_models (some (obj document)) = ids_in (get "data" document)
allowed_models v = []

allowed_models_test :
    allowed_models (
      some (
        obj
          (field "data" (arr (cons (obj (field "id" (str "m1") end)) (cons (str "m2") nil))) end)))
    ≡ "m1" ∷ []
unfolding entry_ids get
allowed_models_test = refl

abbrev first_or : List String → String → String
first_or [] fallback = fallback
first_or (m ∷ ms) fallback = m

-- The loop over the preferences, and what follows it.
pub prefer : List String → List String → String → String
unfolding mem
prefer [] available fallback = first_or available fallback
prefer (p ∷ ps) available fallback =
    let rest = prefer ps available fallback in if mem p available then p else rest

unfoldable pub select : List String → List String → String → String
unfolding prefer
select preferences [] fallback = fallback
select preferences (m ∷ ms) fallback = prefer preferences (m ∷ ms) fallback

abbrev pub router_markers : List String
router_markers = "auto-router" ∷ "auto_router" ∷ "autorouter" ∷ "smart-router" ∷ []

-- `text.rsplit("/", 1)[-1]`
abbrev pub last_part : List String → String
last_part [] = ""
last_part (p ∷ []) = p
last_part (p ∷ q ∷ ps) = last_part (q ∷ ps)

abbrev is_router_name : String → Bool
is_router_name basename =
    str_eq basename "auto" || ends_with basename "-auto" || mem basename router_markers

-- `casefold` is the method of `str`.
module _ (casefold : String → String) where
  pub looks_like_router : String → Bool
  looks_like_router model_id = is_router_name (last_part (split_on b'/' (casefold model_id)))

  pub select_router : List String → Option String
  unfolding looks_like_router
  select_router [] = none
  select_router (m ∷ ms) =
      let rest = select_router ms in if looks_like_router m then some m else rest

  -- `router or chosen`, where the empty text counts as none
  abbrev pub or_else : Option String → String → String
  or_else none chosen = chosen
  or_else (some router) chosen = if is_empty router then chosen else router

  unfoldable pub select_claude_model : List String → List String → String → String
  unfolding select_router
  select_claude_model preferences available fallback =
      or_else (select_router available) (select preferences available fallback)
