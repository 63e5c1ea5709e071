-- ===== src/Forwarding/Tools.antt =====
-- The tool descriptions of `/v1/responses`: which action a tool needs and how it is applied, to a
-- tool, to its function, to a list of tools and to the items of the input.
pub mod Untouched
pub mod Blank
pub mod Wanted
pub mod Chosen
pub mod Described
use gatebroker.Prelude.{
  String, Bool, true, false, not, ◌&&◌, ◌||◌, Option, none, some, List, [], ◌∷◌, if◌then◌else◌,
}
use gatebroker.Result.{Result, ok, err, ◌>>=◌}
use gatebroker.Text.{strip, nonblank}
use gatebroker.Json.{
  Value, null, str, arr, obj, Items, Fields, get, put, delete, has, is_str, traverse_items, mem_str,
  append_item,
}
use gatebroker.Policy.{mem}

abbrev pub empty_tool_description_fallback : String
empty_tool_description_fallback = "No description provided."

abbrev pub encrypted_reasoning_include : String
encrypted_reasoning_include = "reasoning.encrypted_content"

pub builtin_responses_tool_types : List String
builtin_responses_tool_types =
    "web_search" ∷ "web_search_2025_08_26" ∷ "web_search_preview" ∷ "web_search_preview_2025_03_11"
    ∷ "file_search" ∷ "code_interpreter" ∷ "computer" ∷ "computer_use_preview" ∷ "image_generation"
    ∷ "mcp" ∷ "apply_patch" ∷ "shell" ∷ "local_shell" ∷ "tool_search" ∷ "programmatic_tool_calling"
    ∷ []

-- An exception of the sanitizer: `TypeError`, for a value with no hash.
pub data Raised : Type 0 where
  unhashable : Raised

-- `value.strip()` of a text that is not blank
abbrev name_in : Option Value → Option String
name_in (some (str s)) = if nonblank s then some (strip s) else none
name_in v = none

abbrev pub object_in : Option Value → Option Fields
object_in (some (obj fs)) = some fs
object_in v = none

abbrev function_name : Option Fields → Option String
function_name none = none
function_name (some f) = name_in (get "name" f)

abbrev or_else : Option String → String → String
or_else none t = t
or_else (some s) t = s

unfoldable pub tool_description_fallback : Fields → String
tool_description_fallback tool =
    or_else (name_in (get "name" tool))
      (or_else (function_name (object_in (get "function" tool))) empty_tool_description_fallback)

abbrev is_builtin_type : Option Value → Bool
is_builtin_type (some (str t)) = mem t builtin_responses_tool_types
is_builtin_type v = false

unfoldable pub is_builtin_responses_tool : Fields → Bool
unfolding builtin_responses_tool_types
is_builtin_responses_tool tool = is_builtin_type (get "type" tool)

abbrev is_some_object : Option Value → Bool
is_some_object (some (obj fs)) = true
is_some_object v = false

-- `tool_type in {"function", "custom"}`: the test hashes the value, and a list or a dict has no hash.
abbrev pub is_client_type : Option Value → Result Raised Bool
is_client_type none = ok false
is_client_type (some (arr items)) = err unhashable
is_client_type (some (obj fs)) = err unhashable
is_client_type (some v) = ok (is_str "function" v || is_str "custom" v)

abbrev is_nonblank : Option Value → Bool
is_nonblank (some (str s)) = nonblank s
is_nonblank v = false

unfoldable pub is_client_defined_tool : Fields → Result Raised Bool
is_client_defined_tool tool = do
  by_type ← is_client_type (get "type" tool)
  ok (
      by_type
      || is_some_object (get "function" tool)
      || (has "name" tool && has "parameters" tool)
      || (is_nonblank (get "name" tool) && not (is_builtin_responses_tool tool)))

abbrev pub is_missing_or_blank : Option Value → Bool
is_missing_or_blank none = true
is_missing_or_blank (some null) = true
is_missing_or_blank (some (str s)) = not (nonblank s)
is_missing_or_blank (some v) = false

pub description_missing_or_blank : Fields → Bool
description_missing_or_blank tool = is_missing_or_blank (get "description" tool)

pub data Action : Type 0 where
  fill omit leave : Action

unfoldable pub tool_description_action : Fields → Result Raised Action
unfolding description_missing_or_blank
tool_description_action tool =
    if not (description_missing_or_blank tool)
    then ok leave
    else if is_builtin_responses_tool tool
    then ok (if has "description" tool then omit else leave)
    else (do
      client ← is_client_defined_tool tool
      ok (if client || has "description" tool then fill else leave))

abbrev pub apply_action : Action → Fields → Fields
apply_action fill tool = put "description" (str (tool_description_fallback tool)) tool
apply_action omit tool = delete "description" tool
apply_action leave tool = tool

unfoldable pub apply_tool_description_action : Fields → Result Raised Fields
apply_tool_description_action tool = do
  action ← tool_description_action tool
  ok (apply_action action tool)

abbrev pub sanitize_function : Option Value → Fields → Result Raised Fields
sanitize_function (some (obj f)) tool = do
  function ← apply_tool_description_action f
  ok (put "function" (obj function) tool)
sanitize_function v tool = ok tool

unfoldable pub sanitize_tool : Fields → Result Raised Fields
sanitize_tool tool = do
  sanitized ← apply_tool_description_action tool
  sanitize_function (get "function" sanitized) sanitized

abbrev pub sanitize_tool_value : Value → Result Raised Value
sanitize_tool_value (obj tool) = do sanitized ← sanitize_tool tool; ok (obj sanitized)
sanitize_tool_value v = ok v

pub sanitize_tool_list : Value → Result Raised Value
sanitize_tool_list (arr tools) = do ts ← traverse_items sanitize_tool_value tools; ok (arr ts)
sanitize_tool_list v = ok v

-- `d["tools"] = _sanitize_tool_list(d["tools"])`, where the key is there
abbrev pub sanitize_tools : Option Value → Fields → Result Raised Fields
sanitize_tools none fs = ok fs
sanitize_tools (some tools) fs = do ts ← sanitize_tool_list tools; ok (put "tools" ts fs)

pub sanitize_input_item_tools : Fields → Result Raised Fields
sanitize_input_item_tools item = sanitize_tools (get "tools" item) item

abbrev pub sanitize_item_value : Value → Result Raised Value
sanitize_item_value (obj item) = do fs ← sanitize_input_item_tools item; ok (obj fs)
sanitize_item_value v = ok v

abbrev pub sanitize_input : Option Value → Fields → Result Raised Fields
sanitize_input (some (arr items)) fs = do
  vs ← traverse_items sanitize_item_value items
  ok (put "input" (arr vs) fs)
sanitize_input v fs = ok fs

unfoldable pub sanitize_responses_empty_tool_descriptions : Fields → Result Raised Fields
unfolding sanitize_tool_list sanitize_input_item_tools
sanitize_responses_empty_tool_descriptions body = do
  result ← sanitize_tools (get "tools" body) body
  sanitize_input (get "input" result) result

abbrev pub include_reasoning : Option Value → Fields → Fields
include_reasoning (some (arr items)) fs =
    if mem_str encrypted_reasoning_include items
    then fs
    else put "include" (arr (append_item items (str encrypted_reasoning_include))) fs
include_reasoning none fs =
    put "include" (arr (Items.cons (str encrypted_reasoning_include) Items.nil)) fs
include_reasoning (some null) fs =
    put "include" (arr (Items.cons (str encrypted_reasoning_include) Items.nil)) fs
include_reasoning (some v) fs = fs

unfoldable pub ensure_encrypted_reasoning_include : Fields → Fields
ensure_encrypted_reasoning_include body =
    if has "reasoning" body then include_reasoning (get "include" body) body else body
