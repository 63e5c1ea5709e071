-- ===== src/Tests/Examples.antt =====
-- Each theorem at a concrete input.
use gatebroker.Prelude.{
  All, ◌≢◌, ℕ, ◌≡◌, ◌↔◌, ◌≤◌, ◌<◌, ◌+◌, if◌then◌else◌, refl, inl, inr, true, false, none, some,
  List, [], ◌∷◌, ◌++◌, arith, In, map, ltb, length,
}
use gatebroker.Result.{Result, ok, err}
use gatebroker.Json.{Value, null, arr, Items, obj, Fields, get, has, field, str, end}
use gatebroker.Policy.{load_policies, resolve_entitlement, no_match, tie, winner}
use gatebroker.Policy.Resolve.{
  IsWinner, NoneMatches, IsTie, resolve_entitlement-eq-ok_iff, resolve_entitlement-eq-no_match_iff,
}
use gatebroker.Policy.Load.{IsLoaded, load_policies-IsLoaded}
use gatebroker.Oidc.{validate_access_token}
use gatebroker.Oidc.Accepts.{IsValidToken}
use gatebroker.Oidc.Complete.{validate_access_token-eq-ok_iff}
use gatebroker.Forwarding.{Bytes, chat_completions, total, joined}
use gatebroker.Forwarding.Depth.{exceeds_max_json_depth, max_json_depth}
use gatebroker.Forwarding.Depth.Nesting.{opened, closed, outside, exceeds_max_json_depth_iff}
use gatebroker.Forwarding.Reading.{dict, bearer_token, request_object}
use gatebroker.Forwarding.Reading.Bounds.{IsBody, request_object-eq-dict_iff}
use gatebroker.Forwarding.Reading.Bearer.{IsBearer, bearer_token-eq-some_iff}
use gatebroker.Forwarding.Tools.{
  apply_tool_description_action, unhashable, description_missing_or_blank,
  ensure_encrypted_reasoning_include,
}
use gatebroker.Forwarding.Tools.Described.{
  IsDescribed, is_unhashable, apply_tool_description_action-IsDescribed,
  apply_tool_description_action-eq-err_iff,
}
use gatebroker.Forwarding.Tools.Untouched.{AsksReasoning, IsExtensible, ensure_include_asks}
use gatebroker.Forwarding.Body.{upstream_body}
use gatebroker.Forwarding.Body.Keys.{expected_field, upstream_body-get}
use gatebroker.Forwarding.Effects.{Effect, send, emit, audits, acloses}
use gatebroker.Forwarding.Relay.{
  relay_stream, relay_end, bounded_response_content, too_large, ending,
}
use gatebroker.Forwarding.Relay.Bounds.{
  emitted, bounded_response_content_lem, relay_stream_prefix, relay_stream_whole,
}
use gatebroker.Forwarding.Handler.{forward, serve, labels}
use gatebroker.Forwarding.Handler.Granted.{IsGranted, forward-sends_iff}
use gatebroker.Forwarding.Handler.Audited.{owed, serve-audits, serve_closes}
use gatebroker.Forwarding.BaseUrl.{validated_base_url}
use gatebroker.Forwarding.BaseUrl.Trusted.{IsBaseUrl, validated_base_url-eq-some_iff}
use gatebroker.Runtime.RateLimiter.{fresh, call}
use gatebroker.Runtime.RateLimiter.Window.{IsBounded, start, next, reached-IsBounded}
use gatebroker.Runtime.RateLimiter.Grants.{calls_of, grants, least, grants_bounded, grants_of_fresh}
use gatebroker.Runtime.Settings.{byte_bound}
use gatebroker.Runtime.Settings.Bounds.{IsByteBound, byte_bound-eq-ok_iff}
use gatebroker.Text.Number.{parse_int}
use gatebroker.ModelDiscovery.{select_claude_model}
use gatebroker.ModelDiscovery.Choice.{select_claude_model-In}
use gatebroker.Runtime.JwksUrl.{validate_jwks_url}
use gatebroker.Runtime.JwksUrl.Issuer.{IsBound, validate_jwks_url-eq-ok_iff}
use gatebroker.Runtime.Jwks.{seconds}
use gatebroker.Runtime.Jwks.Steps.{look_up, IsOrderly, reached-IsOrderly, Step-keeps_keys}
use gatebroker.Policy.{Policy}
use gatebroker.Runtime.Readiness.{is_usable, readiness}
use gatebroker.Runtime.Readiness.Keys.{readiness-eq_iff}
use gatebroker.Tests.World.{
  team, other_team, config, caller, verifier, chat_body, sent_chat_body, upstream_response, broker,
  request, sent_request, parsed_document, blank_tool, described_tool, reasoning_body, limits, key,
  two_calls, gateway, parse_gateway, split_issuer, two_fetched, with_key, looked_up,
  with_key_has_keys,
}

sent : In (send sent_request) (forward broker chat_completions request).effects
unfolding forward gatebroker.Forwarding.Effects.◌>>=◌ gatebroker.Forwarding.Handler.bearer
    gatebroker.Forwarding.Reading.bearer_token gatebroker.Forwarding.Handler.authenticate
    gatebroker.Text.lower_eq gatebroker.Forwarding.Handler.read_request gatebroker.Text.partition
    gatebroker.Text.strip gatebroker.Forwarding.Handler.entitle gatebroker.Text.has_space
    gatebroker.Forwarding.Handler.permit gatebroker.Oidc.validate_access_token
    gatebroker.Forwarding.Handler.limit gatebroker.Result.◌>>=◌
    gatebroker.Forwarding.Handler.usable_key gatebroker.Json.get
    gatebroker.Forwarding.Handler.sanitized gatebroker.Forwarding.Handler.built
    gatebroker.Json.num_lt gatebroker.Forwarding.Handler.upstream_url gatebroker.Policy.mem
    gatebroker.Forwarding.allowed_fields gatebroker.Text.words
    gatebroker.Forwarding.Handler.upstream_headers gatebroker.Forwarding.Reading.request_object
    gatebroker.Forwarding.Depth.exceeds_max_json_depth gatebroker.Forwarding.Checks.is_valid_request
    gatebroker.Forwarding.Checks.valid_model gatebroker.Forwarding.Checks.stream_is_supported
    gatebroker.Forwarding.Checks.valid_endpoint_body
    gatebroker.Forwarding.Checks.valid_endpoint_headers gatebroker.Forwarding.Checks.valid_query
    gatebroker.Policy.resolve_entitlement gatebroker.Forwarding.Effects.◌>>◌
    gatebroker.Forwarding.Body.upstream_body gatebroker.Json.put
    gatebroker.Forwarding.Checks.safe_upstream_headers
sent = inr (inr (inl refl))

forward-sends_iff_example :
    In (send sent_request) (forward broker chat_completions request).effects
    ↔ IsGranted broker chat_completions request sent_request
forward-sends_iff_example = forward-sends_iff broker chat_completions request sent_request

resolve_entitlement-eq-ok_iff_example :
    (resolve_entitlement (team ∷ other_team ∷ []) ("g1" ∷ []) [] ≡ ok team)
    ↔ IsWinner ("g1" ∷ []) [] (team ∷ other_team ∷ []) team
resolve_entitlement-eq-ok_iff_example =
    resolve_entitlement-eq-ok_iff ("g1" ∷ []) [] (team ∷ other_team ∷ []) team

resolve_entitlement-eq-no_match_iff_example :
    ((resolve_entitlement (team ∷ other_team ∷ []) ("g3" ∷ []) [] ≡ err no_match)
      ↔ NoneMatches ("g3" ∷ []) [] (team ∷ other_team ∷ []))
    × ((resolve_entitlement (team ∷ other_team ∷ []) ("g3" ∷ []) [] ≡ err tie)
        ↔ IsTie ("g3" ∷ []) [] (team ∷ other_team ∷ []))
resolve_entitlement-eq-no_match_iff_example =
    resolve_entitlement-eq-no_match_iff ("g3" ∷ []) [] (team ∷ other_team ∷ [])

validate_access_token-eq-ok_iff_example :
    (validate_access_token "t" config verifier broker.now ≡ ok caller)
    ↔ IsValidToken "t" config verifier broker.now caller
validate_access_token-eq-ok_iff_example =
    validate_access_token-eq-ok_iff "t" config verifier broker.now caller

body_of_chat : upstream_body chat_completions chat_body "u1" ≡ ok sent_chat_body
unfolding upstream_body gatebroker.Result.◌>>=◌ gatebroker.Json.put get
    gatebroker.Forwarding.allowed_fields
body_of_chat = refl

upstream_body-get_example :
    get "api_base" sent_chat_body ≡ expected_field chat_completions chat_body "u1" "api_base"
upstream_body-get_example =
    upstream_body-get chat_completions chat_body "u1" sent_chat_body "api_base" body_of_chat refl

serve-audits_example :
    audits (serve broker chat_completions request true)
    ≡ owed broker.max_response_bytes true (forward broker chat_completions request).response
serve-audits_example = serve-audits broker chat_completions request true

serve_closes_example : 1 ≤ acloses (serve broker chat_completions request true)
serve_closes_example =
    serve_closes broker chat_completions request true sent_request upstream_response sent refl

exceeds_max_json_depth_iff_example : (exceeds_max_json_depth (0x7B ∷ 0x22 ∷ 0x5B ∷ []) ≡ true) ↔ (
    (before : List ℕ) × (after : List ℕ) × (0x7B ∷ 0x22 ∷ 0x5B ∷ [] ≡ before ++ after)
    × (max_json_depth + closed (outside before) < opened (outside before)))
exceeds_max_json_depth_iff_example = exceeds_max_json_depth_iff (0x7B ∷ 0x22 ∷ 0x5B ∷ [])

request_object-eq-dict_iff_example :
    (request_object broker.json_loads request 100 ≡ dict chat_body)
    ↔ IsBody broker.json_loads request 100 chat_body
request_object-eq-dict_iff_example =
    request_object-eq-dict_iff broker.json_loads request 100 chat_body

bearer_token-eq-some_iff_example :
    (bearer_token (some "bEarer abc") ≡ some "abc") ↔ IsBearer "bEarer abc" "abc"
bearer_token-eq-some_iff_example = bearer_token-eq-some_iff "bEarer abc" "abc"

bounded_response_content_lem_example : bounded_response_content upstream_response 2 ≡ (
    if ltb 2 (total upstream_response.chunks)
    then too_large
    else ending upstream_response.failure (joined upstream_response.chunks))
bounded_response_content_lem_example = bounded_response_content_lem upstream_response 2

relay_stream_prefix_example :
    (length
        (emitted (relay_stream upstream_response (labels chat_completions team chat_body) 2 false))
      ≤ 2)
    × ((rest : Bytes) × (joined upstream_response.chunks
          ≡ emitted
              (relay_stream upstream_response (labels chat_completions team chat_body) 2 false)
            ++ rest))
relay_stream_prefix_example =
    relay_stream_prefix upstream_response (labels chat_completions team chat_body) 2 false

relay_stream_whole_example :
    relay_stream upstream_response (labels chat_completions team chat_body) 3 false
    ≡ map emit upstream_response.chunks
      ++ relay_end (labels chat_completions team chat_body) 200 none false
relay_stream_whole_example =
    relay_stream_whole upstream_response (labels chat_completions team chat_body) 3 false
      (omega arith)

loads_team : load_policies parsed_document "document" ≡ ok (team ∷ [])
unfolding load_policies gatebroker.Result.◌>>=◌ get gatebroker.Policy.policy_from_record
    gatebroker.Text.strip gatebroker.Policy.strings gatebroker.Json.all_items
    gatebroker.Policy.nonempty_strings gatebroker.Policy.is_key_ref gatebroker.Policy.mem
    gatebroker.Policy.stripped
loads_team = refl

load_policies-IsLoaded_example : IsLoaded (team ∷ [])
load_policies-IsLoaded_example =
    load_policies-IsLoaded parsed_document "document" (team ∷ []) loads_team

described : apply_tool_description_action blank_tool ≡ ok described_tool
unfolding apply_tool_description_action gatebroker.Result.◌>>=◌
    gatebroker.Forwarding.Tools.tool_description_action get gatebroker.Text.strip
    gatebroker.Forwarding.Tools.is_builtin_responses_tool gatebroker.Policy.mem
    gatebroker.Forwarding.Tools.is_client_defined_tool gatebroker.Json.put
    gatebroker.Forwarding.Tools.tool_description_fallback
described = refl

apply_tool_description_action-IsDescribed_example : IsDescribed blank_tool described_tool
apply_tool_description_action-IsDescribed_example =
    apply_tool_description_action-IsDescribed blank_tool described_tool described

apply_tool_description_action-eq-err_iff_example :
    (apply_tool_description_action (field "type" (arr Items.nil) end) ≡ err unhashable) ↔ (
      (description_missing_or_blank (field "type" (arr Items.nil) end) ≡ true)
      × (is_unhashable (get "type" (field "type" (arr Items.nil) end)) ≡ true))
apply_tool_description_action-eq-err_iff_example =
    apply_tool_description_action-eq-err_iff (field "type" (arr Items.nil) end)

uses_reasoning : has "reasoning" reasoning_body ≡ true
unfolding get
uses_reasoning = refl

includes_nothing : IsExtensible (get "include" reasoning_body)
unfolding get
includes_nothing = tt

ensure_include_asks_example :
    AsksReasoning (get "include" (ensure_encrypted_reasoning_include reasoning_body))
ensure_include_asks_example = ensure_include_asks reasoning_body uses_reasoning includes_nothing

validated_base_url-eq-some_iff_example :
    (validated_base_url parse_gateway "gw" ("gw.ns.svc" ∷ []) true ≡ some gateway)
    ↔ IsBaseUrl parse_gateway "gw" ("gw.ns.svc" ∷ []) true gateway
validated_base_url-eq-some_iff_example =
    validated_base_url-eq-some_iff parse_gateway "gw" ("gw.ns.svc" ∷ []) true gateway

reached-IsBounded_example : IsBounded limits (call limits 61 key fresh).1
reached-IsBounded_example =
    reached-IsBounded limits (call limits 61 key fresh).1 (next 61 key start)

grants_bounded_example : grants limits key (call limits 3 key fresh).1 two_calls ≤ 1
grants_bounded_example =
    grants_bounded limits key (call limits 3 key fresh).1 1 two_calls (next 3 key start)
      (refl, (refl, tt))

grants_of_fresh_example : grants limits key fresh two_calls ≡ least 1 (calls_of key two_calls)
grants_of_fresh_example = grants_of_fresh limits key 1 two_calls (refl, (refl, tt)) (omega arith)

byte_bound-eq-ok_iff_example :
    (byte_bound parse_int "2048" ≡ ok 2048) ↔ IsByteBound (parse_int "2048") 2048
byte_bound-eq-ok_iff_example = byte_bound-eq-ok_iff parse_int "2048" 2048

select_claude_model-In_example :
    In (select_claude_model broker.casefold ("m9" ∷ []) ("m1" ∷ "m2" ∷ []) "m9") ("m1" ∷ "m2" ∷ [])
select_claude_model-In_example =
    select_claude_model-In broker.casefold ("m9" ∷ []) ("m1" ∷ "m2" ∷ []) "m9" (λ h. cc)

validate_jwks_url-eq-ok_iff_example :
    (validate_jwks_url split_issuer "issuer" "keys" ≡ ok tt) ↔ IsBound split_issuer "issuer" "keys"
validate_jwks_url-eq-ok_iff_example = validate_jwks_url-eq-ok_iff split_issuer "issuer" "keys"

reached-IsOrderly_example : IsOrderly ℕ (looked_up 70 "k2")
reached-IsOrderly_example = reached-IsOrderly ℕ (looked_up 70 "k2") (two_fetched 70 "k2")

Step-keeps_keys_example : (looked_up 70 "k2").shared.keys ≢ []
Step-keeps_keys_example =
    Step-keeps_keys ℕ with_key (looked_up 70 "k2") (look_up with_key (seconds 70) "k2")
      with_key_has_keys

readiness-eq_iff_example : (readiness broker.key_resolver true (team ∷ other_team ∷ []) ≡ 200) ↔ (
    (true ≡ true)
    × All
        (λ (p : Policy). is_usable (broker.key_resolver p.key_ref) ≡ true)
        (team ∷ other_team ∷ []))
readiness-eq_iff_example = readiness-eq_iff broker.key_resolver true (team ∷ other_team ∷ [])
