-- ===== src/Forwarding/Body.antt =====
-- `_upstream_body`: the body sent upstream, made of the allowed fields of the caller's.
pub mod Keys
use gatebroker.Prelude.{String, Bool, true, false, Option, none, some, List, [], ◌∷◌, if◌then◌else◌}
use gatebroker.Result.{Result, ok, ◌>>=◌}
use gatebroker.Json.{Value, bool, str, obj, Fields, end, field, get, put}
use gatebroker.Forwarding.{
  Endpoint, chat_completions, embeddings, messages, responses, allowed_fields,
}
use gatebroker.Forwarding.Tools.{
  Raised, sanitize_responses_empty_tool_descriptions, ensure_encrypted_reasoning_include,
}

-- `result[key] = body[key]`, where the body has the key. For `model` the code does not ask whether
-- it has it: a request without a model was rejected before.
abbrev pub copy_field : String → Option Value → Fields → Fields
copy_field k none fs = fs
copy_field k (some v) fs = put k v fs

-- `{field: body[field] for field in allowed if field in body}`, in the order of the list
pub select_fields : List String → Fields → Fields
select_fields [] body = end
select_fields (k ∷ ks) body = copy_field k (get k body) (select_fields ks body)

abbrev pub for_responses : Endpoint → Fields → Result Raised Fields
for_responses responses result = do
  sanitized ← sanitize_responses_empty_tool_descriptions (put "store" (bool false) result)
  ok (ensure_encrypted_reasoning_include sanitized)
for_responses e result = ok result

abbrev pub attribute : Endpoint → String → Fields → Fields
attribute messages oid result = put "metadata" (obj (field "user_id" (str oid) end)) result
attribute e oid result = put "user" (str oid) result

unfoldable pub upstream_body : Endpoint → Fields → String → Result Raised Fields
unfolding select_fields
upstream_body e body oid = do
  result ←
      for_responses e
        (copy_field "model" (get "model" body) (select_fields (allowed_fields e) body))
  ok (attribute e oid result)
