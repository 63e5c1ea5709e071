-- ===== src/Tests/Service.antt =====
-- The theorems on the settings, the profile, the spans and the verifier, each at a concrete input.
use gatebroker.Prelude.{
  ℕ, ◌≡◌, ◌↔◌, refl, arith, String, true, false, Option, none, some, List, [], ◌∷◌, str_eq,
  if◌then◌else◌,
}
use gatebroker.Result.{Result, ok}
use gatebroker.Text.{is_empty}
use gatebroker.Json.{int, Value, str, arr, obj, Items, Fields, end, field}
use gatebroker.Runtime.JwksUrl.{SplitResult}
use gatebroker.Prelude.Int.{pos}
use gatebroker.Oidc.{is_finite, validate_access_token}
use gatebroker.Oidc.Accepts.{IsAccepted}
use gatebroker.Text.Number.{parse_int}
use gatebroker.Runtime.Verify.{Jwt, verify}
use gatebroker.Runtime.Verify.Signed.{IsSigned, validate_access_token-IsSigned_iff}
use gatebroker.Tests.World.{claims, config, caller}
use gatebroker.Runtime.Settings.Load.{RuntimeSettings, load_runtime_settings}
use gatebroker.Runtime.Settings.Load.Sound.{IsSound, load_runtime_settings-IsSound}
use gatebroker.Profile.{Profile, System, is_truthy, apply_development_profile}
use gatebroker.Profile.Development.{IsApplied, PrintsTruth, apply_development_profile-IsApplied}
use gatebroker.Telemetry.{Span, export}
use gatebroker.Telemetry.Redacted.{AreExported, export-AreExported}

-- An environment with what must be set.
abbrev environment : String → Option String
environment name =
    if str_eq name "GABRO_OIDC_ISSUER"
    then some "https://idp/r"
    else if str_eq name "GABRO_OIDC_JWKS_URL"
    then some "https://idp/r/keys"
    else if str_eq name "GABRO_UPSTREAM_TRUSTED_HOSTS"
    then some "gw, "
    else if str_eq name "GABRO_TLS_CA_BUNDLE"
    then none
    else if str_eq name "GABRO_RATE_LIMIT_REQUESTS"
    then some "7"
    else if str_eq name "GABRO_OIDC_AUDIENCE"
    then some "aud"
    else if str_eq name "GABRO_OIDC_REQUIRED_SCOPE"
    then some "chat"
    else if str_eq name "GABRO_POLICY_PATH"
    then some "/p"
    else if str_eq name "GABRO_UPSTREAM_BASE_URL"
    then some "https://gw"
    else none

abbrev split_two : String → Option SplitResult
split_two url = some (record {
  scheme = "https";
  netloc = "idp";
  path = if str_eq url "https://idp/r" then "/r" else "/r/keys";
  query = "";
  fragment = "";
})

abbrev loaded : RuntimeSettings
loaded = record {
  oidc = record {
    issuer = "https://idp/r";
    audience = "aud";
    required_delegated_scope = "chat";
    allowed_app_roles = [];
    subject_claim = "oid";
    scope_claim = "scp";
  };
  jwks_url = "https://idp/r/keys";
  policies_json = "{}";
  upstream_base_url = "https://gw";
  trusted_upstream_hosts = "gw" ∷ [];
  rate_limit_requests = 7;
  rate_limit_window_seconds = 60;
  rate_limit_max_keys = 10000;
  allow_cluster_local_plaintext_upstream = false;
  key_directory = "";
  max_request_bytes = 10485760;
  max_response_bytes = 10485760;
  tls_ca_bundle = "";
}

environment-loads :
    load_runtime_settings (λ path. some "{}") (λ path. true) split_two parse_int environment
    ≡ ok loaded
unfolding load_runtime_settings gatebroker.Result.◌>>=◌ gatebroker.Text.strip
    gatebroker.Forwarding.BaseUrl.rstrip_slash gatebroker.Text.starts_with gatebroker.Text.split_on
    parse_int
environment-loads = refl

load_runtime_settings-IsSound_example : IsSound split_two loaded
load_runtime_settings-IsSound_example =
    load_runtime_settings-IsSound (λ path. some "{}") (λ path. true) split_two parse_int environment
      loaded environment-loads

-- A profile of a demo, and a system on which every text is a document of it.
abbrev document : Fields
document = field "client_id" (str "gabro") (
    field "scope" (str "openid") (
      field "base_url" (str "https://g/v1") (
        field "oidc_authority" (str "https://idp") (
          field "models"
            (arr (
              Items.cons (arr (Items.cons (str "m1") (Items.cons (str "One") Items.nil)))
                Items.nil))
            end))))

abbrev printed : Value → String
printed (str s) = s
printed v = "value"

abbrev demo : System
demo = record {
  read_document = λ path. some (obj document);
  to_text = printed;
  is_absolute = λ path. true;
  beside = λ location path. path;
  normal = λ path. path;
  is_file = λ path. true;
}

demo-PrintsTruth : PrintsTruth demo
demo-PrintsTruth (str s) h = ground arith
demo-PrintsTruth v h = refl

abbrev shipped : Profile
shipped = record {
  tenant_id = "0";
  oidc_authority = "";
  client_id = "0";
  scope = "api";
  base_url = "https://invalid/v1";
  gateway_name = "GateBroker";
  ca_bundle = "";
  models = ("gpt", "GPT") ∷ [];
  configured = false;
  development = false;
}

abbrev applied : Profile
applied = record {
  tenant_id = "";
  oidc_authority = "https://idp";
  client_id = "gabro";
  scope = "openid";
  base_url = "https://g/v1";
  gateway_name = "GateBroker";
  ca_bundle = "";
  models = ("m1", "One") ∷ [];
  configured = true;
  development = true;
}

demo-applies : apply_development_profile demo " demo.json" shipped ≡ ok applied
unfolding apply_development_profile gatebroker.Result.◌>>=◌ gatebroker.Json.get
    gatebroker.Profile.listed_models gatebroker.Profile.pairs_of gatebroker.Profile.read_profile
    gatebroker.Text.strip
demo-applies = refl

apply_development_profile-IsApplied_example : IsApplied shipped applied
apply_development_profile-IsApplied_example =
    apply_development_profile-IsApplied demo " demo.json" shipped applied demo-PrintsTruth
      demo-applies

abbrev spans : List (Span String ℕ String String ℕ String)
spans =
    record {
      name = "GET";
      context = some 7;
      parent = none;
      resource = "broker";
      attributes = ("client.port", "1") ∷ ("http.method", "GET") ∷ [];
      events = "sent" ∷ [];
      links = [];
      kind = 1;
      status = (1, none);
      start_time = some 10;
      end_time = some 12;
      instrumentation_scope = none;
    }
    ∷ []

export-AreExported_example : AreExported spans (export spans)
export-AreExported_example = export-AreExported spans

-- A token of the key "k1", as PyJWT reads it.
abbrev pyjwt : Jwt String
pyjwt = record {
  get_unverified_header = λ token. some (field "alg" (str "RS256") (field "kid" (str "k1") end));
  decode = λ token key algorithms audience issuer required.
      if str_eq key "key" then some claims else none;
}

abbrev snapshot : String → Option String
snapshot kid = if str_eq kid "k1" then some "key" else none

validate_access_token-IsSigned_iff_example :
    (validate_access_token "token" config (verify pyjwt config snapshot) (int (pos 10)) ≡ ok caller)
    ↔ ((c : Fields) × IsSigned pyjwt config snapshot "token" c
        × (is_finite (int (pos 10)) ≡ true)
        × IsAccepted c config (int (pos 10)) caller)
validate_access_token-IsSigned_iff_example =
    validate_access_token-IsSigned_iff pyjwt config snapshot "token" (int (pos 10)) caller
