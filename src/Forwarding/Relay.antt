-- ===== src/Forwarding/Relay.antt =====
-- `_bounded_response_content`, `_relay_stream` and `_upstream_error_detail`: reading the upstream's
-- response within bounds.
pub mod Trace
pub mod Bounds
use gatebroker.Prelude.{
  ℕ, zero, suc, ◌+◌, ◌-◌, String, Bool, true, false, ◌&&◌, ◌||◌, Option, none, some, List, [], ◌∷◌,
  ◌++◌, leb, ltb, length, if◌then◌else◌, str_eq,
}
use gatebroker.Text.{contains, words, join}
use gatebroker.Forwarding.{Bytes}
use gatebroker.Forwarding.Effects.{
  AuditEvent, Effect, audit, emit, aclose, Upstream, forwarded, upstream_failed,
}

-- The content, or why there is none.
pub data Content : Type 0 where
  whole : Bytes → Content
  too_large : Content
  failed : String → Content

abbrev pub ending : Option String → Bytes → Content
ending none content = whole content
ending (some name) content = failed name

-- The loop, from `received` bytes and the chunks read so far, joined.
pub read_content : ℕ → Option String → ℕ → Bytes → List Bytes → Content
read_content max failure received content [] = ending failure content
read_content max failure received content (chunk ∷ chunks) =
    let rest = read_content max failure (received + length chunk) (content ++ chunk) chunks in
    if ltb max (received + length chunk) then too_large else rest

unfoldable pub bounded_response_content : Upstream → ℕ → Content
unfolding read_content
bounded_response_content response max_response_bytes =
    read_content max_response_bytes response.failure 0 [] response.chunks

-- What the events of one request share.
pub record Labels : Type 0 where
  pub path : String
  pub policy_id : String
  pub model : String

abbrev pub size_limit_detail : String
size_limit_detail = "upstream response exceeded the size limit"

abbrev pub failure_event : Labels → String → AuditEvent
failure_event l detail = record {
  outcome = upstream_failed;
  path = l.path;
  status_code = 502;
  policy_id = some l.policy_id;
  model = some l.model;
  detail = some detail;
}

abbrev pub forwarded_event : Labels → ℕ → AuditEvent
forwarded_event l status_code = record {
  outcome = forwarded;
  path = l.path;
  status_code = status_code;
  policy_id = some l.policy_id;
  model = some l.model;
  detail = none;
}

-- `closed`: the consumer closes the generator while it waits at the `yield` of the last chunk, so
-- that only the `finally` block runs on.
abbrev pub relay_end : Labels → ℕ → Option String → Bool → List Effect
relay_end l status failure true = aclose ∷ []
relay_end l status none false = audit (forwarded_event l status) ∷ aclose ∷ []
relay_end l status (some name) false = audit (failure_event l name) ∷ aclose ∷ []

pub relay : Labels → ℕ → ℕ → Option String → Bool → ℕ → List Bytes → List Effect
relay l max status failure closed received [] = relay_end l status failure closed
relay l max status failure closed received (chunk ∷ chunks) =
    let rest = relay l max status failure closed (received + length chunk) chunks in
    if ltb max (received + length chunk)
    then audit (failure_event l size_limit_detail) ∷ aclose ∷ []
    else emit chunk ∷ rest

unfoldable pub relay_stream : Upstream → Labels → ℕ → Bool → List Effect
unfolding relay
relay_stream upstream l max_response_bytes closed =
    relay l max_response_bytes upstream.status_code upstream.failure closed 0 upstream.chunks

abbrev pub max_detail_snippet_bytes : ℕ
max_detail_snippet_bytes = 2048

abbrev pub take : ℕ → Bytes → Bytes
take zero bs = []
take (suc n) [] = []
take (suc n) (b ∷ bs) = b ∷ take n bs

-- The first bytes of an error's body, in chunks: `remaining <= 0` ends the loop.
pub read_snippet : Bytes → List Bytes → Option String → Option Bytes
read_snippet body [] none = some body
read_snippet body [] (some name) = none
read_snippet body (chunk ∷ chunks) failure =
    let remaining = max_detail_snippet_bytes - length body in
    let rest = read_snippet (body ++ take remaining chunk) chunks failure in
    if leb remaining 0 then some body else rest

-- The answers are the code's fixed words.
pub classify : String → String → Bool → String
classify text normalized is_json =
    if str_eq text "Access denied"
    then "envoy_access_denied"
    else if contains "rate limit" normalized
    then "upstream_rate_limited"
    else if contains "budget" normalized
    then "upstream_budget_denied"
    else if contains "invalid api key" normalized || contains "invalid key" normalized
    then "upstream_key_rejected"
    else if contains "model" normalized
        && (contains "not allowed" normalized || contains "access denied" normalized)
    then "upstream_model_denied"
    else if contains "description" normalized
        && (contains "tool" normalized || contains "function" normalized)
    then "upstream_tool_schema_rejected"
    else if is_json
    then "upstream_json_error"
    else "upstream_plaintext_error"

-- `decode` is UTF-8 with replacement, `casefold` the method of `str`.
module _ (decode : Bytes → String) (casefold : String → String) where
  is_json_type : Option String → Bool
  is_json_type none = contains "json" (casefold "")
  is_json_type (some value) = contains "json" (casefold value)

  unfoldable pub upstream_error_detail : Upstream → String
  unfolding read_snippet classify is_json_type
  upstream_error_detail response = elim (read_snippet [] response.chunks response.failure) [
    | none ↦ "upstream_error_body_unavailable"
    | some body ↦
        let text = join (words (decode body)) in
        classify text (casefold text) (is_json_type (response.header "content-type"))
  ]
