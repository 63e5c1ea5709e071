-- ===== src/Forwarding/Handler.antt =====
-- The two handlers of `create_app`, `forward` and `list_models`, as stages that go on or return
-- early. What the broker is given from outside is the record `Broker`.
pub mod Stages
pub mod Granted
pub mod Audited
pub mod Headers
pub mod Unsent
use Prim.Native.String
use Prim.Native.String.{compare}
use text.Mathlib.Text.{is_le}
use gatebroker.Prelude.{
  ℕ, String, Bool, true, false, not, ◌&&◌, Option, none, some, List, [], ◌∷◌, ◌++◌, ltb, leb,
  if◌then◌else◌, str_eq,
}
use gatebroker.Result.{ok, err}
use gatebroker.Text.{is_empty}
use gatebroker.Json.{Value, bool, str, Number, Fields, get}
use gatebroker.Policy.{Policy, mem, unique, resolve_entitlement}
use gatebroker.Oidc.{TokenValidationConfig, ValidatedIdentity, is_true, validate_access_token}
use gatebroker.Forwarding.{Bytes, Endpoint, path_of, models_path, Request}
use gatebroker.Forwarding.Reading
use gatebroker.Forwarding.Reading.{Loaded, Body, dict, nothing, bearer_token, request_object}
use gatebroker.Forwarding.Checks.{is_valid_request, safe_upstream_headers, safe_response_headers}
use gatebroker.Forwarding.Body.{upstream_body}
use gatebroker.Forwarding.Effects.{
  Outcome, authentication_failed, invalid_request, authorization_denied, rate_limit_denied,
  service_unavailable, upstream_failed, models_listed, AuditEvent, RateLimitKey, UpstreamRequest,
  Effect, audit, consult, read_key, send, aclose, Upstream, Response, error, listed, content,
  stream, crashed, Reply, Stage, or_reply, result_or, check, ◌>>=◌, ◌>>◌,
}
use gatebroker.Forwarding.Relay.{
  Labels, Content, whole, too_large, failed, bounded_response_content, upstream_error_detail,
  forwarded_event, size_limit_detail, relay_stream,
}

-- What the rate limiter does with a key: it raises, or returns a bool or something else.
pub data Limited : Type 0 where
  raised : String → Limited
  allowed : Bool → Limited
  not_a_bool : Limited

-- What the key resolver does with a reference.
pub data Resolved : Type 0 where
  raised : String → Resolved
  key_text : String → Resolved
  not_a_text : Resolved

-- What the HTTP client does with a request: it responds, raises an `HTTPError` of some class, or
-- raises another exception.
pub data Sent : Type 0 where
  response : Upstream → Sent
  http_error : String → Sent
  other_error : Sent

-- `join` and `with_query` are the two operations of `httpx.URL` on the base URL, `json_loads`
-- parses a body, `builds` says whether httpx's `build_request` gives a request or raises (for a body
-- that is not JSON or a header that has no encoding), `decode` and `casefold` are those of Python's
-- texts.
pub record Broker : Type 0 where
  pub oidc_config : TokenValidationConfig
  pub token_verifier : String → Option Value
  pub now : Number
  pub policies : List Policy
  pub rate_limiter : RateLimitKey → Limited
  pub key_resolver : String → Resolved
  pub base_url : String
  pub join : String → String → String
  pub with_query : String → String → String
  pub builds : UpstreamRequest → Bool
  pub upstream : UpstreamRequest → Sent
  pub json_loads : Bytes → Loaded
  pub decode : Bytes → String
  pub casefold : String → String
  pub max_request_bytes : ℕ
  pub max_response_bytes : ℕ

-- `audited_error`: one audit event, and the error that the caller sees
pub audited_error :
    String → ℕ → String → Outcome → Option String → Option String → Option String → Reply
audited_error path status_code message outcome policy_id model detail = record {
  response = error status_code message;
  effects =
      audit (record {
        outcome = outcome;
        path = path;
        status_code = status_code;
        policy_id = policy_id;
        model = model;
        detail = detail;
      })
      ∷ [];
}

-- The header is there exactly once.
abbrev pub single : List String → Option String
single (value ∷ []) = some value
single values = none

unfoldable pub bearer : String → Request → Stage String
unfolding audited_error
bearer path request =
    or_reply (bearer_token (single (request.getlist "authorization")))
      (audited_error path 401 "authentication failed" authentication_failed none none none)

unfoldable pub authenticate : Broker → String → String → Stage ValidatedIdentity
unfolding audited_error
authenticate b path token =
    result_or (validate_access_token token b.oidc_config b.token_verifier b.now) λ error.
      audited_error path 401 "authentication failed" authentication_failed none none
        (some "TokenValidationError")

-- An exception that no handler of the code catches: it leaves the handler.
abbrev pub crash : Reply
crash = record { response = crashed; effects = [] }

abbrev pub invalid : Endpoint → Reply
invalid e = audited_error (path_of e) 400 "invalid request" invalid_request none none none

-- The body, if it was read and the request passes every check.
abbrev pub valid_body : Endpoint → Request → Body → Stage Fields
valid_body e request (dict body) =
    if is_valid_request e request body then ok body else err (invalid e)
valid_body e request nothing = err (invalid e)
valid_body e request Body.raised = err crash

unfoldable pub read_request : Broker → Endpoint → Request → Stage Fields
unfolding audited_error
read_request b e request =
    valid_body e request (request_object b.json_loads request b.max_request_bytes)

abbrev pub text_or_empty : Option Value → String
text_or_empty (some (str s)) = s
text_or_empty v = ""

-- `body["model"]`, a text once the request is valid
abbrev pub model_of : Fields → String
model_of body = text_or_empty (get "model" body)

unfoldable pub entitle : Broker → String → ValidatedIdentity → Stage Policy
unfolding audited_error
entitle b path identity =
    result_or (resolve_entitlement b.policies identity.group_ids identity.app_roles)
      λ error. audited_error path 403 "request denied" authorization_denied none none none

unfoldable pub permit : Endpoint → Policy → String → Stage (Unit {0})
unfolding audited_error
permit e policy model =
    check (mem model policy.allowed_models) (
      audited_error (path_of e) 403 "request denied" authorization_denied (some policy.id) none
        none)

pub unavailable : Labels → String → Reply
unfolding audited_error
unavailable l detail =
    audited_error l.path 503 "service unavailable" service_unavailable (some l.policy_id)
      (some l.model) (some detail)

unfoldable pub limit : Labels → Limited → Stage (Unit {0})
unfolding unavailable
limit l (Limited.raised name) = err (unavailable l name)
limit l (allowed true) = ok tt
limit l (allowed false) = err (
    audited_error l.path 429 "request denied" rate_limit_denied (some l.policy_id) (some l.model)
      none)
limit l not_a_bool = err (unavailable l "rate limiter returned a non-boolean result")

unfoldable pub usable_key : Labels → Resolved → Stage String
unfolding unavailable
usable_key l (Resolved.raised name) = err (unavailable l name)
usable_key l (key_text key) =
    if is_empty key then err (unavailable l "resolved key is empty or not a string") else ok key
usable_key l not_a_text = err (unavailable l "resolved key is empty or not a string")

-- An exception of `_upstream_body` leaves the handler.
unfoldable pub sanitized : Endpoint → Fields → String → Stage Fields
sanitized e body oid = result_or (upstream_body e body oid) λ raised. crash

-- `headers[name] = value`
pub set_header : String → String → List (String × String) → List (String × String)
set_header name value [] = (name, value) ∷ []
set_header name value ((k, v) ∷ hs) =
    if str_eq k name then (k, value) ∷ hs else (k, v) ∷ set_header name value hs

unfoldable pub upstream_headers : Endpoint → Request → String → Policy → List (String × String)
unfolding set_header
upstream_headers e request key policy =
    set_header "x-gabro-policy-id" policy.id
      (set_header "authorization" (String.◌++◌ "Bearer " key) (safe_upstream_headers e request))

abbrev pub lstrip_slash : String → String
lstrip_slash String.[] = String.[]
lstrip_slash (String.◌∷◌ c s) =
    let rest = lstrip_slash s in
    if str_eq (String.◌∷◌ c String.[]) "/" then rest else String.◌∷◌ c s

unfoldable pub upstream_url : Broker → Endpoint → Request → String
upstream_url b e request =
    let url = b.join b.base_url (lstrip_slash (path_of e)) in
    if request.has_query_params then b.with_query url request.query else url

abbrev pub is_success : ℕ → Bool
is_success status = leb 200 status && ltb status 300

pub upstream_error : Labels → ℕ → String → String → Reply
unfolding audited_error
upstream_error l status message detail =
    audited_error l.path status message upstream_failed (some l.policy_id) (some l.model)
      (some detail)

-- The reply once the content is read: an `HTTPError` closes the response a second time.
pub relayed : Broker → Labels → Upstream → Content → Reply
unfolding upstream_error
relayed b l u (whole bytes) = record {
  response = content u.status_code (safe_response_headers u.header) bytes;
  effects = aclose ∷ audit (forwarded_event l u.status_code) ∷ [];
}
relayed b l u too_large =
    aclose >> upstream_error l 502 "upstream response failed" size_limit_detail
relayed b l u (failed name) =
    aclose >> (aclose >> upstream_error l 502 "upstream request failed" name)

pub answer : Broker → Labels → Fields → Upstream → Reply
unfolding relayed
answer b l body u =
    if not (is_success u.status_code)
    then aclose
      >> upstream_error l u.status_code "upstream request failed"
          (upstream_error_detail b.decode b.casefold u)
    else if is_true (get "stream" body)
    then record {
      response = stream u.status_code (safe_response_headers u.header) u l.policy_id l.model;
      effects = [];
    }
    else relayed b l u (bounded_response_content u b.max_response_bytes)

pub deliver : Broker → Labels → Fields → Sent → Reply
unfolding answer upstream_error
deliver b l body (response u) = answer b l body u
deliver b l body (http_error name) = upstream_error l 502 "upstream request failed" name
deliver b l body other_error = record { response = crashed; effects = [] }

-- `request.client.host if request.client is not None else ""`
abbrev pub host_or_empty : Option String → String
host_or_empty none = ""
host_or_empty (some host) = host

abbrev pub rate_limit_key : Request → ValidatedIdentity → Policy → RateLimitKey
rate_limit_key request identity policy = record {
  subject = identity.subject;
  policy_id = policy.id;
  client_ip = host_or_empty request.client_host;
}

abbrev pub labels : Endpoint → Policy → Fields → Labels
labels e policy body = record { path = path_of e; policy_id = policy.id; model = model_of body }

abbrev pub outgoing : Broker → Endpoint → Request → Policy → String → Fields → UpstreamRequest
outgoing b e request policy key body = record {
  url = upstream_url b e request;
  body = body;
  headers = upstream_headers e request key policy;
}

-- What `build_request` raises is no `HTTPError`.
unfoldable pub built : Broker → UpstreamRequest → Stage (Unit {0})
built b u = check (b.builds u) crash

unfoldable pub forward : Broker → Endpoint → Request → Reply
forward b e request = do
  token ← bearer (path_of e) request
  identity ← authenticate b (path_of e) token
  body ← read_request b e request
  policy ← entitle b (path_of e) identity
  _ ← permit e policy (model_of body)
  consult (rate_limit_key request identity policy)
  _ ← limit (labels e policy body) (b.rate_limiter (rate_limit_key request identity policy))
  read_key policy.key_ref
  key ← usable_key (labels e policy body) (b.key_resolver policy.key_ref)
  sent_body ← sanitized e body identity.subject
  _ ← built b (outgoing b e request policy key sent_body)
  send (outgoing b e request policy key sent_body)
  deliver b (labels e policy body) body (b.upstream (outgoing b e request policy key sent_body))

-- `sorted(models)`: an insertion into a sorted list, by code points
pub insert_sorted : String → List String → List String
insert_sorted m [] = m ∷ []
insert_sorted m (n ∷ ns) = if is_le (compare m n) then m ∷ n ∷ ns else n ∷ insert_sorted m ns

pub sorted : List String → List String
unfolding insert_sorted
sorted [] = []
sorted (m ∷ ms) = insert_sorted m (sorted ms)

unfoldable pub list_models : Broker → Request → Reply
unfolding sorted
list_models b request = do
  token ← bearer models_path request
  identity ← authenticate b models_path token
  policy ← entitle b models_path identity
  record {
    response = listed (sorted (unique policy.allowed_models));
    effects =
        audit (record {
          outcome = models_listed;
          path = models_path;
          status_code = 200;
          policy_id = some policy.id;
          model = none;
          detail = none;
        })
        ∷ [];
  }

-- What the server adds by iterating a streamed body to its end, or up to where the client is gone.
abbrev pub streamed : String → ℕ → Bool → Response → List Effect
streamed path max_response_bytes closed (stream status headers u policy_id model) =
    relay_stream u (record { path = path; policy_id = policy_id; model = model }) max_response_bytes
      closed
streamed path max_response_bytes closed r = []

-- All the effects of one request of the four paths that are forwarded.
unfoldable pub serve : Broker → Endpoint → Request → Bool → List Effect
serve b e request closed =
    let reply = forward b e request in
    reply.effects ++ streamed (path_of e) b.max_response_bytes closed reply.response
