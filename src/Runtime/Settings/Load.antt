-- ===== src/Runtime/Settings/Load.antt =====
-- `load_runtime_settings` and `_readable_ca_bundle`: the environment as a whole.
pub mod Sound
use gatebroker.Prelude.{
  ℕ, String, Bool, true, false, not, Option, none, some, List, [], ◌∷◌, if◌then◌else◌,
}
use gatebroker.Prelude.Int.{ℤ}
use gatebroker.Result.{Result, ok, err, ◌>>=◌, ◌>>◌, guard, or_raise}
use gatebroker.Text.{is_empty, strip}
use gatebroker.Oidc.{TokenValidationConfig}
use gatebroker.Runtime.JwksUrl.{SplitResult, JwksUrlError, validate_jwks_url}
use gatebroker.Runtime.Settings.{
  RuntimeError, required, csv, boolean, positive_integer, byte_bound, claim_name,
}

pub record RuntimeSettings : Type 0 where
  pub oidc : TokenValidationConfig
  pub jwks_url : String
  pub policies_json : String
  pub upstream_base_url : String
  pub trusted_upstream_hosts : List String
  pub rate_limit_requests : ℕ
  pub rate_limit_window_seconds : ℕ
  pub rate_limit_max_keys : ℕ
  pub allow_cluster_local_plaintext_upstream : Bool
  pub key_directory : String
  pub max_request_bytes : ℕ
  pub max_response_bytes : ℕ
  pub tls_ca_bundle : String

-- `RuntimeError`, by what it is about.
pub data SettingsError : Type 0 where
  variable : RuntimeError → SettingsError
  jwks : JwksUrlError → SettingsError
  no_trusted_hosts unreadable_policy unreadable_ca_bundle : SettingsError

abbrev pub of_variable {ℓ} : {A : Type ℓ} → Result RuntimeError A → Result SettingsError A
of_variable (ok a) = ok a
of_variable (err e) = err (variable e)

abbrev pub of_jwks {ℓ} : {A : Type ℓ} → Result JwksUrlError A → Result SettingsError A
of_jwks (ok a) = ok a
of_jwks (err e) = err (jwks e)

-- `values.get(name, default)`
abbrev pub get_or : Option String → String → String
get_or none default = default
get_or (some value) default = value

abbrev pub is_nonempty : List String → Bool
is_nonempty [] = false
is_nonempty (h ∷ hs) = true

-- `read_text` gives the text of a file, `is_readable` says whether a path is a file that can be read,
-- and `urlsplit` and `int` are Python's.
module _ (read_text : String → Option String) (is_readable : String → Bool)
    (urlsplit : String → Option SplitResult) (int : String → Option ℤ) where
  pub readable_ca_bundle : String → Result SettingsError String
  readable_ca_bundle path =
      if is_empty path
      then ok ""
      else if is_readable path
      then ok path
      else err unreadable_ca_bundle

  unfoldable pub load_runtime_settings :
      (String → Option String) → Result SettingsError RuntimeSettings
  unfolding required csv boolean positive_integer byte_bound claim_name validate_jwks_url
      readable_ca_bundle
  load_runtime_settings values = do
    issuer ← of_variable (required (values "GABRO_OIDC_ISSUER"))
    audience ← of_variable (required (values "GABRO_OIDC_AUDIENCE"))
    required_scope ← of_variable (required (values "GABRO_OIDC_REQUIRED_SCOPE"))
    jwks_url ← of_variable (required (values "GABRO_OIDC_JWKS_URL"))
    of_jwks (validate_jwks_url urlsplit issuer jwks_url)
    policy_path ← of_variable (required (values "GABRO_POLICY_PATH"))
    upstream_base_url ← of_variable (required (values "GABRO_UPSTREAM_BASE_URL"))
    trusted_hosts ← of_variable (required (values "GABRO_UPSTREAM_TRUSTED_HOSTS"))
    guard (is_nonempty (csv trusted_hosts)) no_trusted_hosts
    policies_json ← or_raise (read_text policy_path) unreadable_policy
    subject_claim ← of_variable (claim_name (get_or (values "GABRO_OIDC_SUBJECT_CLAIM") "oid"))
    scope_claim ← of_variable (claim_name (get_or (values "GABRO_OIDC_SCOPE_CLAIM") "scp"))
    requests ← of_variable (positive_integer int (get_or (values "GABRO_RATE_LIMIT_REQUESTS") "60"))
    window ←
        of_variable (positive_integer int (get_or (values "GABRO_RATE_LIMIT_WINDOW_SECONDS") "60"))
    max_keys ←
        of_variable (positive_integer int (get_or (values "GABRO_RATE_LIMIT_MAX_KEYS") "10000"))
    plaintext ←
        of_variable
          (boolean (get_or (values "GABRO_UPSTREAM_ALLOW_CLUSTER_LOCAL_PLAINTEXT") "false"))
    request_bytes ←
        of_variable (byte_bound int (get_or (values "GABRO_MAX_REQUEST_BYTES") "10485760"))
    response_bytes ←
        of_variable (byte_bound int (get_or (values "GABRO_MAX_RESPONSE_BYTES") "10485760"))
    ca_bundle ← readable_ca_bundle (strip (get_or (values "GABRO_TLS_CA_BUNDLE") ""))
    ok (record {
      oidc = record {
        issuer = issuer;
        audience = audience;
        required_delegated_scope = required_scope;
        allowed_app_roles = csv (get_or (values "GABRO_OIDC_ALLOWED_APP_ROLES") "");
        subject_claim = subject_claim;
        scope_claim = scope_claim;
      };
      jwks_url = jwks_url;
      policies_json = policies_json;
      upstream_base_url = upstream_base_url;
      trusted_upstream_hosts = csv trusted_hosts;
      rate_limit_requests = requests;
      rate_limit_window_seconds = window;
      rate_limit_max_keys = max_keys;
      allow_cluster_local_plaintext_upstream = plaintext;
      key_directory = strip (get_or (values "GABRO_KEY_DIR") "");
      max_request_bytes = request_bytes;
      max_response_bytes = response_bytes;
      tls_ca_bundle = ca_bundle;
    })
