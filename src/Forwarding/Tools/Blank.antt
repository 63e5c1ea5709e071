-- ===== src/Forwarding/Tools/Blank.antt =====
-- Descriptions that count as none, and the tools that the upstream hosts.
use gatebroker.Prelude.{
  String, ◌≡◌, refl, sym, ◌∙◌, ap, true, false, Option, none, some, List, [], ◌∷◌, arith, In,
}
use gatebroker.Text.{nonblank}
use gatebroker.Policy.{mem}
use gatebroker.Policy.Matching.{mem_iff}
use gatebroker.Json.{Value, null, bool, num, str, arr, obj, Fields, get}
use gatebroker.Forwarding.Tools.{
  is_missing_or_blank, is_builtin_type, is_builtin_responses_tool, builtin_responses_tool_types,
}

-- There is no value, a null, or a text of white space.
pub data IsBlank (o : Option Value) : Type 0 where
  absent : o ≡ none → IsBlank o
  empty : o ≡ some null → IsBlank o
  white : (s : String) → o ≡ some (str s) → nonblank s ≡ false → IsBlank o

pub missing_of_IsBlank : (o : Option Value) → IsBlank o → is_missing_or_blank o ≡ true
missing_of_IsBlank o (absent e) = rw e refl
missing_of_IsBlank o (empty e) = rw e refl
missing_of_IsBlank o (white s e h) = rw e (rw h refl)

pub is_missing_or_blank-IsBlank : (o : Option Value) → is_missing_or_blank o ≡ true → IsBlank o
is_missing_or_blank-IsBlank none h = absent refl
is_missing_or_blank-IsBlank (some null) h = empty refl
is_missing_or_blank-IsBlank (some (str s)) h = white s refl (ground arith)
is_missing_or_blank-IsBlank (some (bool b)) h = cc
is_missing_or_blank-IsBlank (some (num n)) h = cc
is_missing_or_blank-IsBlank (some (arr n)) h = cc
is_missing_or_blank-IsBlank (some (obj n)) h = cc

-- The tools that the upstream hosts, by their type.
abbrev pub hosted : List String
hosted =
    "web_search" ∷ "web_search_2025_08_26" ∷ "web_search_preview" ∷ "web_search_preview_2025_03_11"
    ∷ "file_search" ∷ "code_interpreter" ∷ "computer" ∷ "computer_use_preview" ∷ "image_generation"
    ∷ "mcp" ∷ "apply_patch" ∷ "shell" ∷ "local_shell" ∷ "tool_search" ∷ "programmatic_tool_calling"
    ∷ []

abbrev pub IsHosted : Fields → Type 0
IsHosted tool = (type : String) × (get "type" tool ≡ some (str type)) × In type hosted

hosted-eq : builtin_responses_tool_types ≡ hosted
unfolding builtin_responses_tool_types
hosted-eq = refl

pub builtin_of_IsHosted : (tool : Fields) → IsHosted tool → is_builtin_responses_tool tool ≡ true
unfolding is_builtin_responses_tool
builtin_of_IsHosted tool (t, e, i) = rw e (ap (mem t) hosted-eq ∙ (mem_iff t hosted).1 i)

hosted_type :
    (o : Option Value)
    → is_builtin_type o ≡ true
    → (type : String) × (o ≡ some (str type)) × In type hosted
hosted_type (some (str t)) h = (t, refl, (mem_iff t hosted).0 (ap (mem t) (sym hosted-eq) ∙ h))
hosted_type none h = cc
hosted_type (some null) h = cc
hosted_type (some (bool b)) h = cc
hosted_type (some (num n)) h = cc
hosted_type (some (arr n)) h = cc
hosted_type (some (obj n)) h = cc

pub is_builtin_responses_tool-IsHosted :
    (tool : Fields) → is_builtin_responses_tool tool ≡ true → IsHosted tool
unfolding is_builtin_responses_tool
is_builtin_responses_tool-IsHosted tool h = hosted_type (get "type" tool) h
