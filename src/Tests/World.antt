-- ===== src/Tests/World.antt =====
-- A broker with one policy, a caller of it, and the documents, responses and tools of the examples.
use gatebroker.Prelude.{
  refl, ◌≢◌, ℕ, String, true, false, Option, none, some, List, [], ◌∷◌, str_eq, if◌then◌else◌,
}
use gatebroker.Prelude.Int.{pos}
use gatebroker.Json.{Value, num, str, arr, obj, int, Items, Fields, end, field}
use gatebroker.Policy.{Policy}
use gatebroker.Oidc.{TokenValidationConfig, ValidatedIdentity}
use gatebroker.Forwarding.{Request}
use gatebroker.Forwarding.Effects.{RateLimitKey, UpstreamRequest, Upstream}
use gatebroker.Forwarding.Reading.{parsed}
use gatebroker.Forwarding.BaseUrl.{Url}
use gatebroker.Runtime.Jwks.{
  seconds, new, begin_refresh, named, complete_refresh, fetch_keys, signing_key,
}
use gatebroker.Runtime.Jwks.Steps.{
  System, initial, begun, decided, Reaches, look_up, refresh, complete,
}
use gatebroker.Runtime.JwksUrl.{SplitResult}
use gatebroker.Runtime.RateLimiter.{Limits}
use gatebroker.Runtime.RateLimiter.Grants.{Call}
use gatebroker.Forwarding.Handler.{Broker, allowed, key_text, response}

abbrev pub team : Policy
team = record {
  id = "team";
  group_ids = "g1" ∷ [];
  allowed_models = "m1" ∷ [];
  key_ref = "TEAM_KEY";
  priority = pos 1;
  app_roles = [];
}

abbrev pub other_team : Policy
other_team = record {
  id = "other";
  group_ids = "g2" ∷ [];
  allowed_models = "m2" ∷ [];
  key_ref = "OTHER_KEY";
  priority = pos 2;
  app_roles = [];
}

abbrev pub config : TokenValidationConfig
config = record {
  issuer = "iss1";
  audience = "aud1";
  required_delegated_scope = "chat";
  allowed_app_roles = [];
  subject_claim = "oid";
  scope_claim = "scp";
}

abbrev pub claims : Fields
claims = field "iss" (str "iss1") (
    field "aud" (str "aud1") (
      field "exp" (num (int (pos 20))) (
        field "scp" (str "chat")
          (field "oid" (str "u1") (field "groups" (arr (Items.cons (str "g1") Items.nil)) end)))))

abbrev pub caller : ValidatedIdentity
caller = record { subject = "u1"; group_ids = "g1" ∷ []; app_roles = [] }

abbrev pub verifier : String → Option Value
verifier token = if str_eq token "t" then some (obj claims) else none

-- A body with a key that is not allowed, and another user.
abbrev pub chat_body : Fields
chat_body = field "model" (str "m1") (
    field "messages" (arr Items.nil)
      (field "user" (str "root") (field "api_base" (str "evil") end)))

abbrev pub sent_chat_body : Fields
sent_chat_body =
    field "messages" (arr Items.nil) (field "model" (str "m1") (field "user" (str "u1") end))

abbrev pub upstream_response : Upstream
upstream_response = record {
  status_code = 200;
  header = λ name. none;
  chunks = (1 ∷ 2 ∷ []) ∷ (3 ∷ []) ∷ [];
  failure = none;
}

abbrev pub broker : Broker
broker = record {
  oidc_config = config;
  token_verifier = verifier;
  now = int (pos 10);
  policies = team ∷ other_team ∷ [];
  rate_limiter = λ key. allowed true;
  key_resolver = λ key_ref. key_text "k";
  base_url = "http://gw";
  join = λ base path. path;
  with_query = λ url query. url;
  builds = λ u. true;
  upstream = λ u. response upstream_response;
  json_loads = λ bytes. parsed (obj chat_body);
  decode = λ bytes. "";
  casefold = λ s. s;
  max_request_bytes = 100;
  max_response_bytes = 100;
}

abbrev pub getlist : String → List String
getlist name = if str_eq name "authorization" then "Bearer t" ∷ [] else []

abbrev pub request : Request
request = record {
  getlist = getlist;
  header = λ name. none;
  query = "";
  has_query_params = false;
  client_host = some "10.0.0.1";
  chunks = (0x7B ∷ []) ∷ (0x7D ∷ []) ∷ [];
}

abbrev pub sent_request : UpstreamRequest
sent_request = record {
  url = "v1/chat/completions";
  body = sent_chat_body;
  headers = ("authorization", "Bearer k") ∷ ("x-gabro-policy-id", "team") ∷ [];
}

-- A policy document, as parsed.
abbrev pub policy_record : Fields
policy_record = field "id" (str " team ") (
    field "group_ids" (arr (Items.cons (str "g1") Items.nil)) (
      field "allowed_models" (arr (Items.cons (str "m1") Items.nil))
        (field "key_ref" (str "TEAM_KEY") (field "priority" (num (int (pos 1))) end))))

abbrev pub parsed_document : String → Option Value
parsed_document document =
    some (obj (field "policies" (arr (Items.cons (obj policy_record) Items.nil)) end))

-- A custom tool with a blank description.
abbrev pub blank_tool : Fields
blank_tool =
    field "type" (str "custom") (field "name" (str "grep") (field "description" (str " ") end))

abbrev pub described_tool : Fields
described_tool =
    field "type" (str "custom") (field "name" (str "grep") (field "description" (str "grep") end))

-- A body that uses reasoning and includes nothing.
abbrev pub reasoning_body : Fields
reasoning_body = field "reasoning" (obj end) end

abbrev pub limits : Limits
limits = record { requests = 1; window_seconds = 60; max_keys = 2 }

abbrev pub key : RateLimitKey
key = record { subject = "u1"; policy_id = "team"; client_ip = "10.0.0.1" }

-- Two calls in the window that begins at the 60th second.
abbrev pub two_calls : List Call
two_calls = (61, key) ∷ (62, key) ∷ []

abbrev pub gateway : Url
gateway = record {
  scheme = "http";
  userinfo = "";
  host = "gw.ns.svc";
  port = some 8443;
  path = "/";
  query = "";
  fragment = "";
}

abbrev pub parse_gateway : String → Option Url
parse_gateway value = some gateway

-- An issuer and its key endpoint, as split.
abbrev pub split_issuer : String → Option SplitResult
split_issuer url = some (record {
  scheme = "https";
  netloc = "idp:8443";
  path = if str_eq url "issuer" then "/realm" else "/realm/keys";
  query = "";
  fragment = "";
})

-- A verifier that has fetched one key, and looks another up.
abbrev pub fetching_first : System ℕ
fetching_first = begun ℕ (begin_refresh ℕ (new ℕ)) (initial ℕ)

abbrev pub with_key : System ℕ
with_key = record {
  shared =
      complete_refresh ℕ (seconds 1) (fetch_keys ℕ (some ((some "k1", 7) ∷ [])))
        (begun ℕ (begin_refresh ℕ (new ℕ)) (initial ℕ)).shared;
  fetching = 0;
  key_misses = [];
}

abbrev pub looked_up : ℕ → String → System ℕ
looked_up at kid = decided ℕ (seconds at) (signing_key ℕ (seconds at) kid with_key.shared) with_key

pub two_fetched : (at : ℕ) (kid : String) → Reaches ℕ (looked_up at kid)
unfolding begin_refresh
two_fetched at kid =
    Reaches.next
      (Reaches.next (Reaches.next Reaches.start (refresh (initial ℕ)))
        (complete fetching_first (seconds 1) 0 (some ((some "k1", 7) ∷ [])) refl))
      (look_up with_key (seconds at) kid)

pub with_key_has_keys : with_key.shared.keys ≢ []
unfolding named
with_key_has_keys e = cc
