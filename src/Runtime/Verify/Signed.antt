-- ===== src/Runtime/Verify/Signed.antt =====
-- What a caller's identity rests on: a signature under a key of the snapshot, and accepted claims.
use gatebroker.Prelude.{
  String, ◌≡◌, ◌↔◌, refl, sym, ◌∙◌, ap, arith, inl, inr, true, false, Option, none, some, [], ◌∷◌,
  Bool-cases, eq_iff,
}
use gatebroker.Result.{ok}
use gatebroker.Text.{is_empty}
use gatebroker.Json.{Value, str, obj, Fields, Number, get}
use gatebroker.Oidc.{TokenValidationConfig, ValidatedIdentity, is_finite, validate_access_token}
use gatebroker.Oidc.Accepts.{IsAccepted}
use gatebroker.Oidc.Complete.{validate_access_token-eq-ok_iff}
use gatebroker.Runtime.Verify.{
  Jwt, is_rs256, key_id, required_claims, decoded, with_key_id, with_header, mapping_of, verify,
}

none_ne_some : {A : Type 0} {a : A} → ◌≡◌ {A = Option A} none (some a) → ⊥
none_ne_some e = cc

some_injective : {A : Type 0} {a b : A} → ◌≡◌ {A = Option A} (some a) (some b) → a ≡ b
some_injective e = cc

is_rs256-text : (o : Option Value) → is_rs256 o ≡ true → o ≡ some (str "RS256")
is_rs256-text (some (str t)) h = ground (arith, eq_iff t "RS256")
is_rs256-text o h = ground arith

key_id-text :
    (o : Option Value) (kid : String)
    → key_id o ≡ some kid
    → (o ≡ some (str kid)) × (is_empty kid ≡ false)
key_id-text (some (str t)) kid h = elim (Bool-cases (is_empty t)) [
  | inl e ↦ absurd (none_ne_some (rw e at h))
  | inr e ↦
      let same = some_injective (rw e at h) in
      (ap (λ k. some (str k)) same, ap is_empty (sym same) ∙ e)
]
key_id-text o kid h = absurd (ground arith)

module _ {Key : Type 0} (jwt : Jwt Key) (config : TokenValidationConfig)
    (signing_key : String → Option Key) where
  -- The token is signed with RS256 under the key that its header names, for the audience and the
  -- issuer that are configured, and has these claims.
  pub record IsSigned (token : String) (claims : Fields) : Type 0 where
    pub header : Fields
    pub kid : String
    pub key : Key
    pub has_header : jwt.get_unverified_header token ≡ some header
    pub has_algorithm : get "alg" header ≡ some (str "RS256")
    pub has_key_id : get "kid" header ≡ some (str kid)
    pub nonempty : is_empty kid ≡ false
    pub is_known : signing_key kid ≡ some key
    pub is_decoded :
        jwt.decode token key ("RS256" ∷ []) config.audience config.issuer (required_claims config)
        ≡ some claims

  mapping_of-some :
      (o : Option Fields) (claims : Fields)
      → mapping_of jwt config signing_key o ≡ some (obj claims)
      → o ≡ some claims
  mapping_of-some none claims h = cc
  mapping_of-some (some d) claims h = cc

  decoded-some :
      (token : String) (o : Option Key) (claims : Fields)
      → decoded jwt config signing_key token o ≡ some claims
      → (key : Key) × (o ≡ some key)
        × (jwt.decode token key
              ("RS256" ∷ [])
              config.audience
              config.issuer
              (required_claims config)
            ≡ some claims)
  decoded-some token none claims h = absurd (ground arith)
  decoded-some token (some key) claims h = (key, refl, h)

  IsSigned-of_key_id :
      (token : String) (header : Fields) (o : Option String) (claims : Fields)
      → jwt.get_unverified_header token ≡ some header
      → get "alg" header ≡ some (str "RS256")
      → key_id (get "kid" header) ≡ o
      → with_key_id jwt config signing_key token o ≡ some claims
      → IsSigned token claims
  IsSigned-of_key_id token header none claims h a k e = absurd (ground arith)
  IsSigned-of_key_id token header (some kid) claims h a k e =
      let (key, known, decodes) = decoded-some token (signing_key kid) claims e in
      let (text, full) = key_id-text (get "kid" header) kid k in
      record {
        header = header;
        kid = kid;
        key = key;
        has_header = h;
        has_algorithm = a;
        has_key_id = text;
        nonempty = full;
        is_known = known;
        is_decoded = decodes;
      }

  IsSigned-of_header :
      (token : String) (o : Option Fields) (claims : Fields)
      → jwt.get_unverified_header token ≡ o
      → with_header jwt config signing_key token o ≡ some claims
      → IsSigned token claims
  IsSigned-of_header token none claims h e = absurd (ground arith)
  IsSigned-of_header token (some header) claims h e =
      elim (Bool-cases (is_rs256 (get "alg" header))) [
        | inl a ↦
            IsSigned-of_key_id token header (key_id (get "kid" header)) claims h
              (is_rs256-text (get "alg" header) a) refl (rw a at e)
        | inr a ↦ absurd (none_ne_some (rw a at e))
      ]

  verify-IsSigned :
      (token : String) (claims : Fields)
      → verify jwt config signing_key token ≡ some (obj claims)
      → IsSigned token claims
  unfolding verify
  verify-IsSigned token claims e =
      IsSigned-of_header token (jwt.get_unverified_header token) claims refl
        (mapping_of-some _ claims e)

  verify_of_signed :
      (token : String) (claims : Fields)
      → IsSigned token claims
      → verify jwt config signing_key token ≡ some (obj claims)
  unfolding verify
  verify_of_signed token claims s = rw (s.has_header) (
      rw (s.has_algorithm)
        (rw (s.has_key_id) (rw (s.nonempty) (rw (s.is_known) (rw (s.is_decoded) refl)))))

  -- A caller has an identity exactly when its token is signed with RS256 under the key of the
  -- snapshot that the token's header names, for the configured audience and issuer, and its claims
  -- are accepted at a finite time.
  pub validate_access_token-IsSigned_iff :
      (token : String) (now : Number) (identity : ValidatedIdentity)
      → (validate_access_token token config (verify jwt config signing_key) now ≡ ok identity) ↔ (
          (claims : Fields) × IsSigned token claims
          × (is_finite now ≡ true)
          × IsAccepted claims config now identity)
  validate_access_token-IsSigned_iff token now identity = (
    (λ h.
        let (claims, v, fin, accepted) =
          (validate_access_token-eq-ok_iff token config (verify jwt config signing_key) now
              identity).0
            h in
        (claims, verify-IsSigned token claims v, fin, accepted)),
    (λ (claims, s, fin, accepted).
        (validate_access_token-eq-ok_iff token config (verify jwt config signing_key) now
            identity).1
          (claims, verify_of_signed token claims s, fin, accepted)),
  )
