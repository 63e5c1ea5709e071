-- ===== src/Forwarding/Checks.antt =====
-- The checks of a parsed request: `_valid_model`, `_stream_is_supported`, `_valid_endpoint_body`,
-- `_valid_endpoint_headers`, `_valid_query`; and the header filters.
use gatebroker.Prelude.{
  String, Bool, true, false, not, ◌&&◌, ◌||◌, Option, none, some, List, [], ◌∷◌, ◌++◌, all, str_eq,
  leb, length,
}
use gatebroker.Prelude.Int.{pos, ltb_ℤ}
use gatebroker.Text.{is_empty, strip, nonblank}
use gatebroker.Json.{Value, bool, num, str, arr, obj, Number, Fields, get, has, all_items, is_nil}
use gatebroker.Forwarding.{
  Endpoint, messages, Request, is_streaming_path, safe_request_headers, endpoint_request_headers,
  safe_response_headers_set,
}

abbrev is_nonblank : Option Value → Bool
is_nonblank (some (str s)) = nonblank s
is_nonblank v = false

unfoldable pub valid_model : Fields → Bool
valid_model body = is_nonblank (get "model" body)

abbrev stream_ok : Endpoint → Option Value → Bool
stream_ok e none = true
stream_ok e (some (bool stream)) = not stream || is_streaming_path e
stream_ok e (some v) = false

unfoldable pub stream_is_supported : Endpoint → Fields → Bool
stream_is_supported e body = stream_ok e (get "stream" body)

abbrev is_positive : Option Value → Bool
is_positive (some (num (Number.int n))) = ltb_ℤ (pos 0) n
is_positive v = false

is_message : Value → Bool
is_message (obj fs) = has "role" fs && has "content" fs
is_message v = false

abbrev are_messages : Option Value → Bool
are_messages (some (arr items)) = not (is_nil items) && all_items is_message items
are_messages v = false

unfoldable pub valid_endpoint_body : Endpoint → Fields → Bool
unfolding is_message
valid_endpoint_body messages body =
    is_positive (get "max_tokens" body) && are_messages (get "messages" body)
valid_endpoint_body e body = true

abbrev is_trimmed : String → Bool
is_trimmed s = nonblank s && str_eq s (strip s)

abbrev is_one_version : List String → Bool
is_one_version (v ∷ []) = is_trimmed v
is_one_version vs = false

unfoldable pub valid_endpoint_headers : Endpoint → Request → Bool
valid_endpoint_headers messages request =
    is_one_version (request.getlist "anthropic-version")
    && leb (length (request.getlist "anthropic-beta")) 1
    && all is_trimmed (request.getlist "anthropic-beta")
valid_endpoint_headers e request = true

abbrev is_messages : Endpoint → Bool
is_messages messages = true
is_messages e = false

unfoldable pub valid_query : Endpoint → Request → Bool
valid_query e request =
    is_empty request.query || (is_messages e && str_eq request.query "beta=true")

-- The condition of `forward` on a body that was read, negated.
unfoldable pub is_valid_request : Endpoint → Request → Fields → Bool
is_valid_request e request body =
    valid_model body
    && stream_is_supported e body
    && valid_endpoint_body e body
    && valid_endpoint_headers e request
    && valid_query e request

-- The names of a list that the lookup has, with their values.
pub pick_headers : (String → Option String) → List String → List (String × String)
pick_headers header [] = []
pick_headers header (name ∷ names) = elim (header name) [
  | none ↦ pick_headers header names
  | some value ↦ (name, value) ∷ pick_headers header names
]

unfoldable pub safe_upstream_headers : Endpoint → Request → List (String × String)
unfolding pick_headers
safe_upstream_headers e request =
    pick_headers request.header (safe_request_headers ++ endpoint_request_headers e)

unfoldable pub safe_response_headers : (String → Option String) → List (String × String)
unfolding pick_headers
safe_response_headers header = pick_headers header safe_response_headers_set
