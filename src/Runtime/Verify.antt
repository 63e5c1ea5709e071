-- ===== src/Runtime/Verify.antt =====
-- `JwksVerifier.__call__`: the verifier of the signature that the broker is given.
pub mod Signed
use gatebroker.Prelude.{String, Bool, true, false, Option, none, some, List, [], ◌∷◌, if◌then◌else◌}
use gatebroker.Text.{is_empty}
use gatebroker.Json.{Value, str, obj, Fields, get, is_str}
use gatebroker.Oidc.{TokenValidationConfig}

-- PyJWT: what `get_unverified_header` and `decode` return, with `none` where they raise. `decode` takes
-- the token, the key, the algorithms, the audience, the issuer and the claims that it requires.
pub record Jwt (Key : Type 0) : Type 0 where
  pub get_unverified_header : String → Option Fields
  pub decode : String → Key → List String → String → String → List String → Option Fields

abbrev pub is_rs256 : Option Value → Bool
is_rs256 none = false
is_rs256 (some v) = is_str "RS256" v

-- A key id is a text that is not empty.
abbrev pub key_id : Option Value → Option String
key_id (some (str kid)) = if is_empty kid then none else some kid
key_id v = none

abbrev pub required_claims : TokenValidationConfig → List String
required_claims config = "exp" ∷ "iss" ∷ "aud" ∷ config.subject_claim ∷ []

-- `signing_key` is what `_signing_key` answers.
module _ {Key : Type 0} (jwt : Jwt Key) (config : TokenValidationConfig)
    (signing_key : String → Option Key) where
  abbrev pub decoded : String → Option Key → Option Fields
  decoded token none = none
  decoded token (some key) =
      jwt.decode token key ("RS256" ∷ []) config.audience config.issuer (required_claims config)

  abbrev pub with_key_id : String → Option String → Option Fields
  with_key_id token none = none
  with_key_id token (some kid) = decoded token (signing_key kid)

  abbrev pub with_header : String → Option Fields → Option Fields
  with_header token none = none
  with_header token (some header) =
      if is_rs256 (get "alg" header) then with_key_id token (key_id (get "kid" header)) else none

  abbrev pub mapping_of : Option Fields → Option Value
  mapping_of none = none
  mapping_of (some claims) = some (obj claims)

  -- The claims, with `none` where the verifier raises.
  unfoldable pub verify : String → Option Value
  verify token = mapping_of (with_header token (jwt.get_unverified_header token))
