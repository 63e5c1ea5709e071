-- ===== src/Runtime/JwksUrl.antt =====
-- `_validate_jwks_url` and `_validate_entra_jwks_url`: where signing keys may come from.
pub mod Issuer
use Prim.Native.String.{◌++◌}
use gatebroker.Prelude.{
  String, Bool, true, false, not, ◌&&◌, ◌||◌, Option, none, some, List, [], ◌∷◌, str_eq,
  if◌then◌else◌,
}
use gatebroker.Result.{Result, ok, err, ◌>>=◌, ◌>>◌, guard, or_raise}
use gatebroker.Text.{is_empty, split_on, starts_with}
use gatebroker.Forwarding.BaseUrl.{rstrip_slash}

-- The parts of a `SplitResult` that are read.
pub record SplitResult : Type 0 where
  pub scheme : String
  pub netloc : String
  pub path : String
  pub query : String
  pub fragment : String

-- `RuntimeError`, by its message, and the `ValueError` of `urlsplit`
pub data JwksUrlError : Type 0 where
  not_a_url invalid_issuer invalid_jwks_url other_origin outside_issuer : JwksUrlError
  invalid_entra_issuer not_entra_endpoint : JwksUrlError

abbrev pub entra_host : String
entra_host = "login.microsoftonline.com"

-- An https URL without query or fragment.
abbrev pub is_plain_https : SplitResult → Bool
is_plain_https u = str_eq u.scheme "https" && is_empty u.query && is_empty u.fragment

abbrev pub is_issuer : SplitResult → Bool
is_issuer u = is_plain_https u && not (is_empty u.netloc)

abbrev pub is_below : SplitResult → SplitResult → Bool
is_below issuer jwks =
    is_empty (rstrip_slash issuer.path) || starts_with jwks.path (rstrip_slash issuer.path ++ "/")

pub check_same_origin : SplitResult → SplitResult → Result JwksUrlError (Unit {0})
check_same_origin issuer jwks = do
  guard (is_plain_https jwks) invalid_jwks_url
  guard (str_eq jwks.netloc issuer.netloc) other_origin
  guard (is_below issuer jwks) outside_issuer

-- The tenant of the path's parts.
abbrev pub tenant_of : List String → Option String
tenant_of (root ∷ tenant ∷ version ∷ []) =
    if not (is_empty tenant) && str_eq version "v2.0" then some tenant else none
tenant_of parts = none

abbrev pub entra_endpoint : String → String
entra_endpoint tenant = "https://login.microsoftonline.com/" ++ (tenant ++ "/discovery/v2.0/keys")

pub validate_entra_jwks_url : SplitResult → String → Result JwksUrlError (Unit {0})
validate_entra_jwks_url issuer jwks_url = do
  tenant ← or_raise (tenant_of (split_on b'/' issuer.path)) invalid_entra_issuer
  guard (str_eq jwks_url (entra_endpoint tenant)) not_entra_endpoint

-- `urlsplit` is that of `urllib.parse`; `none` is the exception it may raise.
module _ (urlsplit : String → Option SplitResult) where
  pub validate_other_jwks_url : SplitResult → String → Result JwksUrlError (Unit {0})
  unfolding check_same_origin
  validate_other_jwks_url issuer jwks_url = do
    jwks ← or_raise (urlsplit jwks_url) not_a_url
    check_same_origin issuer jwks

  unfoldable pub validate_jwks_url : String → String → Result JwksUrlError (Unit {0})
  unfolding validate_entra_jwks_url validate_other_jwks_url
  validate_jwks_url issuer jwks_url = do
    parsed ← or_raise (urlsplit issuer) not_a_url
    guard (is_issuer parsed) invalid_issuer
    (if str_eq parsed.netloc entra_host
        then validate_entra_jwks_url parsed jwks_url
        else validate_other_jwks_url parsed jwks_url)
