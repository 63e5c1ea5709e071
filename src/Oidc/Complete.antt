-- ===== src/Oidc/Complete.antt =====
-- The other direction: the conditions of `IsAccepted` are all that the validation asks for.
use gatebroker.Prelude.{
  String, ◌≡◌, refl, ◌∙◌, ◌≢◌, ◌↔◌, ◌⊎◌, inl, inr, true, false, Option, none, some, arith, eq_refl,
}
use gatebroker.Result.{ok, or_raise-some, bind_ok, guard-true}
use gatebroker.Text.{nonblank, words}
use gatebroker.Json.{
  Value, bool, num, str, obj, Number, Items, nil, cons, Fields, get, has, mem_str,
}
use gatebroker.Policy.Matching.{mem_iff, overlaps_complete}
use gatebroker.Oidc.{
  TokenValidationConfig, ValidatedIdentity, is_finite, string_set, has_configured_audience,
  claim_is, get_number, is_authorized, validate_claims, has_scope, check_nbf,
  validate_temporal_claims, reject_group_overage, text_of, maps_groups, is_true,
  validate_access_token,
}
use gatebroker.Oidc.Accepts.{
  InItems, IsAudience, IsNotAfter, IsAuthorized, IsAccepted, IsValidToken,
  validate_access_token-Ensures,
}

mem_str_complete : (s : String) (vs : Items) → InItems (str s) vs → mem_str s vs ≡ true
unfolding mem_str
mem_str_complete s nil i = absurd i
mem_str_complete s (cons v vs) (inl e) = rw e (rw eq_refl)
mem_str_complete s (cons v vs) (inr i) = ground (arith, mem_str_complete s vs i)

audience_complete :
    (v : Option Value) (s : String) → IsAudience v s → has_configured_audience v s ≡ true
unfolding has_configured_audience
audience_complete v s (inl e) = rw e (eq_refl s)
audience_complete v s (inr (items, e, i)) = rw e (mem_str_complete s items i)

claim_is_complete : (v : Option Value) (s : String) → v ≡ some (str s) → claim_is s v ≡ true
claim_is_complete v s e = rw e (eq_refl s)

authorized_complete :
    (claims : Fields) (config : TokenValidationConfig)
    → IsAuthorized claims config
    → is_authorized claims config ≡ true
unfolding is_authorized has_scope
authorized_complete claims config (inl (scopes, e, i)) =
    rw e (rw ((mem_iff config.required_delegated_scope (words scopes)).1 i))
authorized_complete claims config (inr (s, i, j)) =
    ground
      (arith, overlaps_complete (string_set (get "roles" claims)) config.allowed_app_roles s i j)

get_number_complete :
    (k : String) (fs : Fields) (x : Number)
    → get k fs ≡ some (num x)
    → is_finite x ≡ true
    → get_number k fs ≡ some x
get_number_complete k fs x e f = ground arith

maps_groups-false :
    (o : Option Value)
    → ((fs : Fields) → o ≡ some (obj fs) → get "groups" fs ≡ none)
    → maps_groups o ≡ false
maps_groups-false (some (obj fs)) h = rw (h fs refl)
maps_groups-false o h = refl

is_true-false : (o : Option Value) → o ≢ some (bool true) → is_true o ≡ false
is_true-false (some (bool true)) h = absurd (h refl)
is_true-false (some (bool false)) h = refl
is_true-false o h = refl

text_of_complete :
    (v : Option Value) (s : String) → v ≡ some (str s) → nonblank s ≡ true → text_of v ≡ some s
text_of_complete v s e n = ground arith

module _ (claims : Fields) (config : TokenValidationConfig) (now : Number)
    (identity : ValidatedIdentity) (fin : is_finite now ≡ true)
    (a : IsAccepted claims config now identity) where
  nbf_complete : check_nbf claims now ≡ ok tt
  unfolding check_nbf
  nbf_complete = go a.valid_now
    where
      go :
          ((get "nbf" claims ≡ none) ⊎ IsNotAfter now (get "nbf" claims))
          → check_nbf claims now ≡ ok tt
      go (inl e) = rw e
      go (inr (nbf, at, nbf_fin, le)) =
          let there : has "nbf" claims ≡ true = rw at in
          rw there (
            bind_ok _ _ nbf
              (or_raise-some _ _ nbf (get_number_complete "nbf" claims nbf at nbf_fin))
            ∙ rw le)

  temporal_complete : validate_temporal_claims claims now ≡ ok tt
  unfolding validate_temporal_claims
  temporal_complete =
      let (exp, at, exp_fin, later) = a.unexpired in
      bind_ok _ _ exp (or_raise-some _ _ exp (get_number_complete "exp" claims exp at exp_fin))
      ∙ guard-true _ _ _ later
      ∙ nbf_complete

  overage_complete : reject_group_overage claims ≡ ok tt
  unfolding reject_group_overage
  overage_complete =
      ground (arith, maps_groups-false _ a.no_claim_names, is_true-false _ a.no_hasgroups)

  validate_claims_complete : validate_claims claims config now ≡ ok identity
  unfolding validate_claims
  validate_claims_complete =
      guard-true _ _ _ fin
      ∙ guard-true _ _ _ (claim_is_complete _ _ a.issuer)
      ∙ guard-true _ _ _ (audience_complete _ _ a.audience)
      ∙ bind_ok _ _ tt temporal_complete
      ∙ bind_ok _ _ tt overage_complete
      ∙ guard-true _ _ _ (authorized_complete claims config a.authorized)
      ∙ bind_ok _ _ identity.subject
          (or_raise-some _ _ identity.subject (text_of_complete _ _ a.subject a.nonblank_subject))
      ∙ cc (a.groups, a.roles)

-- A token is accepted, with this identity, exactly when the verifier returns a mapping of claims at
-- a finite current time and those have the configured issuer and audience, a finite `exp` after
-- the current time, no `nbf` that is later or unusable, no group overage, the required scope or
-- an allowed app role, and the identity's non-blank subject, groups and roles.
pub validate_access_token-eq-ok_iff :
    (token : String) (config : TokenValidationConfig) (verifier : String → Option Value)
    (now : Number) (identity : ValidatedIdentity)
    → (validate_access_token token config verifier now ≡ ok identity)
      ↔ IsValidToken token config verifier now identity
unfolding validate_access_token
validate_access_token-eq-ok_iff token config verifier now identity = (
  (λ h. (validate_access_token-Ensures token config verifier now).at identity h),
  (λ (claims, verified, fin, accepted).
      bind_ok _ _ (obj claims) (or_raise-some _ _ _ verified)
      ∙ bind_ok _ _ claims refl
      ∙ validate_claims_complete claims config now identity fin accepted),
)
