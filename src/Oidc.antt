-- ===== src/Oidc.antt =====
-- src/gatebroker/oidc.py: the checks that turn a verified token's claims into an identity. The
-- signature verifier is a parameter; claims are the JSON values that a token carries.
pub mod Accepts
pub mod Complete
use mathlib.Core.Option.{get_or}
use gatebroker.Prelude.{
  String, Bool, true, false, not, ◌&&◌, ◌||◌, Option, none, some, List, [], ◌∷◌, if◌then◌else◌,
}
use gatebroker.Result.{Result, ok, err, ◌>>=◌, ◌>>◌, guard, or_raise}
use gatebroker.Text.{nonblank, words}
use gatebroker.Json.{
  Value, bool, num, str, arr, obj, Number, int, finite, Items, nil, cons, Fields, get, has, is_str,
  mem_str, num_lt, is_some,
}
use gatebroker.Policy.{mem, overlaps}

-- TokenValidationError, by its message
pub data TokenValidationError : Type 0 where
  verification_failed invalid_time invalid_issuer invalid_audience : TokenValidationError
  token_expired not_yet_valid group_overage : TokenValidationError
  missing_authorization missing_subject : TokenValidationError

pub record TokenValidationConfig : Type 0 where
  pub issuer : String
  pub audience : String
  pub required_delegated_scope : String
  pub allowed_app_roles : List String
  pub subject_claim : String
  pub scope_claim : String

pub record ValidatedIdentity : Type 0 where
  pub subject : String
  pub group_ids : List String
  pub app_roles : List String

-- A mapping, or any other value of the verifier.
abbrev pub mapping : Value → Option Fields
mapping (obj fs) = some fs
mapping v = none

-- `_number` of a number: a bool is another constructor of `Value`
abbrev pub is_finite : Number → Bool
is_finite (int n) = true
is_finite (finite m k) = true
is_finite x = false

abbrev pub number_of : Value → Option Number
number_of (num x) = if is_finite x then some x else none
number_of v = none

-- `_number(claims.get(key))`, with the number
abbrev pub get_number : String → Fields → Option Number
get_number k claims = elim (get k claims) [ none ↦ none | some v ↦ number_of v ]

abbrev pub claim_is : String → Option Value → Bool
claim_is s none = false
claim_is s (some v) = is_str s v

pub has_configured_audience : Option Value → String → Bool
has_configured_audience none s = false
has_configured_audience (some (arr items)) s = mem_str s items
has_configured_audience (some v) s = is_str s v

pub check_nbf : Fields → Number → Result TokenValidationError (Unit {0})
check_nbf claims now =
    if has "nbf" claims
    then (do
      nbf ← or_raise (get_number "nbf" claims) not_yet_valid
      guard (not (num_lt now nbf)) not_yet_valid)
    else ok tt

-- `now >= exp` is `not (now < exp)`: both are finite numbers here.
pub validate_temporal_claims : Fields → Number → Result TokenValidationError (Unit {0})
unfolding check_nbf
validate_temporal_claims claims now = do
  exp ← or_raise (get_number "exp" claims) token_expired
  guard (num_lt now exp) token_expired
  check_nbf claims now

abbrev pub maps_groups : Option Value → Bool
maps_groups (some (obj fs)) = has "groups" fs
maps_groups v = false

abbrev pub is_true : Option Value → Bool
is_true (some (bool b)) = b
is_true v = false

pub reject_group_overage : Fields → Result TokenValidationError (Unit {0})
reject_group_overage claims =
    guard (not (maps_groups (get "_claim_names" claims) || is_true (get "hasgroups" claims)))
      group_overage

pub texts : Items → Option (List String)
texts nil = some []
texts (cons (str s) vs) = elim (texts vs) [ none ↦ none | some ss ↦ some (s ∷ ss) ]
texts (cons v vs) = none

pub string_set : Option Value → List String
unfolding texts
string_set (some (arr items)) = get_or (texts items) []
string_set v = []

pub has_scope : Option Value → String → Bool
has_scope (some (str scopes)) required = mem required (words scopes)
has_scope v required = false

pub is_authorized : Fields → TokenValidationConfig → Bool
unfolding has_scope
is_authorized claims config =
    has_scope (get config.scope_claim claims) config.required_delegated_scope
    || overlaps (string_set (get "roles" claims)) config.allowed_app_roles

abbrev pub text_of : Option Value → Option String
text_of (some (str s)) = if nonblank s then some s else none
text_of v = none

-- The checks of `validate_access_token` after the verifier returned a mapping.
pub validate_claims :
    Fields → TokenValidationConfig → Number → Result TokenValidationError ValidatedIdentity
unfolding has_configured_audience validate_temporal_claims reject_group_overage is_authorized
    string_set
validate_claims claims config now = do
  guard (is_finite now) invalid_time
  guard (claim_is config.issuer (get "iss" claims)) invalid_issuer
  guard (has_configured_audience (get "aud" claims) config.audience) invalid_audience
  validate_temporal_claims claims now
  reject_group_overage claims
  guard (is_authorized claims config) missing_authorization
  subject ← or_raise (text_of (get config.subject_claim claims)) missing_subject
  ok (record {
    subject = subject;
    group_ids = string_set (get "groups" claims);
    app_roles = string_set (get "roles" claims);
  })

-- `verifier token` is `none` where the verifier raises.
unfoldable pub validate_access_token :
    String
    → TokenValidationConfig
    → (String → Option Value)
    → Number
    → Result TokenValidationError ValidatedIdentity
unfolding validate_claims
validate_access_token token config verifier now = do
  value ← or_raise (verifier token) verification_failed
  claims ← or_raise (mapping value) verification_failed
  validate_claims claims config now
