-- ===== src/Oidc/Accepts.antt =====
-- When a token is accepted, said without the order of the checks.
use mathlib.Core.Bool.{false≢true}
use gatebroker.Prelude.{
  String, ◌≡◌, ◌≢◌, refl, ◌∙◌, ap, ◌⊎◌, inl, inr, true, false, Option, none, some, arith, eq_iff,
  Bool-cases, In,
}
use gatebroker.Result.{ok, Ensures, Ensures-ok, Ensures-bind, Ensures-guard, or_raise-eq-ok}
use gatebroker.Text.{nonblank, words}
use gatebroker.Json.{
  Value, bool, num, str, arr, obj, Number, Items, nil, cons, Fields, get, has, is_str, mem_str,
  num_lt,
}
use gatebroker.Policy.Matching.{mem_iff, overlaps_sound, Shares}
use gatebroker.Oidc.{
  TokenValidationConfig, ValidatedIdentity, is_finite, string_set, mapping, has_configured_audience,
  claim_is, get_number, is_authorized, validate_claims, has_scope, validate_temporal_claims,
  reject_group_overage, text_of, validate_access_token,
}

abbrev pub InItems : Value → Items → Type 0
InItems v nil = ⊥
InItems v (cons w ws) = (w ≡ v) ⊎ InItems v ws

-- The audience is the configured text, or a list that holds it.
abbrev pub IsAudience : Option Value → String → Type 0
IsAudience aud s =
    (aud ≡ some (str s)) ⊎ ((items : Items) × (aud ≡ some (arr items)) × InItems (str s) items)

-- A finite number claim after `now`.
abbrev pub IsAfter : Number → Option Value → Type 0
IsAfter now v = (x : Number) × (v ≡ some (num x)) × (is_finite x ≡ true) × (num_lt now x ≡ true)

abbrev pub IsNotAfter : Number → Option Value → Type 0
IsNotAfter now v = (x : Number) × (v ≡ some (num x)) × (is_finite x ≡ true) × (num_lt now x ≡ false)

-- The scope claim grants the required scope, or an app role of the token is allowed.
abbrev pub IsAuthorized : Fields → TokenValidationConfig → Type 0
IsAuthorized claims config =
    ((scopes : String) × (get config.scope_claim claims ≡ some (str scopes))
      × In config.required_delegated_scope (words scopes))
    ⊎ Shares (string_set (get "roles" claims)) config.allowed_app_roles

pub record IsAccepted (claims : Fields) (config : TokenValidationConfig) (now : Number)
    (identity : ValidatedIdentity) : Type 0 where
  pub issuer : get "iss" claims ≡ some (str config.issuer)
  pub audience : IsAudience (get "aud" claims) config.audience
  pub unexpired : IsAfter now (get "exp" claims)
  pub valid_now : (get "nbf" claims ≡ none) ⊎ IsNotAfter now (get "nbf" claims)
  pub no_hasgroups : get "hasgroups" claims ≢ some (bool true)
  pub no_claim_names :
      (fs : Fields) → get "_claim_names" claims ≡ some (obj fs) → get "groups" fs ≡ none
  pub authorized : IsAuthorized claims config
  pub subject : get config.subject_claim claims ≡ some (str identity.subject)
  pub nonblank_subject : nonblank identity.subject ≡ true
  pub groups : identity.group_ids ≡ string_set (get "groups" claims)
  pub roles : identity.app_roles ≡ string_set (get "roles" claims)

is_str_sound : (s : String) (v : Value) → is_str s v ≡ true → v ≡ str s
is_str_sound s (str t) h = ap str ((eq_iff t s).0 h)
is_str_sound s v h = cc

claim_is_sound : (s : String) (v : Option Value) → claim_is s v ≡ true → v ≡ some (str s)
claim_is_sound s none h = cc
claim_is_sound s (some v) h = ap some (is_str_sound s v h)

mem_str_sound : (s : String) (vs : Items) → mem_str s vs ≡ true → InItems (str s) vs
unfolding mem_str
mem_str_sound s nil h = cc
mem_str_sound s (cons v vs) h = elim (Bool-cases (is_str s v)) [
  | inl e ↦ inl (is_str_sound s v e)
  | inr e ↦ inr (mem_str_sound s vs (rw e at h))
]

IsAudience-sound :
    (v : Option Value) (s : String) → has_configured_audience v s ≡ true → IsAudience v s
unfolding has_configured_audience
IsAudience-sound none s h = cc
IsAudience-sound (some (arr items)) s h = inr (items, refl, mem_str_sound s items h)
IsAudience-sound (some v) s h = inl (ap some (is_str_sound s v h))

get_number_sound :
    (k : String) (fs : Fields) (x : Number)
    → get_number k fs ≡ some x
    → (get k fs ≡ some (num x)) × (is_finite x ≡ true)
get_number_sound k fs x h = ground arith

scope_sound :
    (v : Option Value) (s : String)
    → has_scope v s ≡ true
    → (scopes : String) × (v ≡ some (str scopes)) × In s (words scopes)
unfolding has_scope
scope_sound (some (str scopes)) s h = (scopes, refl, (mem_iff s (words scopes)).0 h)
scope_sound v s h = absurd (false≢true h)

IsAuthorized-sound :
    (claims : Fields) (config : TokenValidationConfig)
    → is_authorized claims config ≡ true
    → IsAuthorized claims config
unfolding is_authorized
IsAuthorized-sound claims config h =
    elim (Bool-cases (has_scope (get config.scope_claim claims) config.required_delegated_scope)) [
      | inl e ↦ inl (scope_sound (get config.scope_claim claims) config.required_delegated_scope e)
      | inr e ↦ inr (overlaps_sound _ _ (rw e at h))
    ]

text_of_sound :
    (v : Option Value) (s : String) → text_of v ≡ some s → (v ≡ some (str s)) × (nonblank s ≡ true)
text_of_sound (some (str t)) s h = ground arith
text_of_sound v s h = cc

abbrev IsTimely : Number → Fields → Unit {0} → Type 0
IsTimely now claims _ =
    IsAfter now (get "exp" claims) × ((get "nbf" claims ≡ none) ⊎ IsNotAfter now (get "nbf" claims))

temporal_sound :
    (claims : Fields) (now : Number)
    → Ensures (IsTimely now claims) (validate_temporal_claims claims now)
unfolding validate_temporal_claims
temporal_sound claims now = Ensures-bind _ _ λ exp exp_ok. Ensures-guard _ _ _ λ later.
    let (at, fin) = get_number_sound "exp" claims exp (or_raise-eq-ok _ _ _ exp_ok) in
    elim (Bool-cases (has "nbf" claims)) [
      | inl e ↦ rw e (
          Ensures-bind _ _ λ nbf nbf_ok.
            let (at', fin') = get_number_sound "nbf" claims nbf (or_raise-eq-ok _ _ _ nbf_ok) in
            record { at = λ u g. ((exp, at, fin, later), inr (nbf, at', fin', ground arith)) })
      | inr e ↦ rw e (Ensures-ok _ ((exp, at, fin, later), inl (ground arith)))
    ]

overage_sound :
    (claims : Fields)
    → reject_group_overage claims ≡ ok tt
    → (get "hasgroups" claims ≢ some (bool true))
      × ((fs : Fields) → get "_claim_names" claims ≡ some (obj fs) → get "groups" fs ≡ none)
unfolding reject_group_overage
overage_sound claims h = ((λ e. ground arith), (λ fs e. ground arith))

module _ (claims : Fields) (config : TokenValidationConfig) (now : Number) where
  validate_claims-Ensures :
      Ensures
        (λ i. (is_finite now ≡ true) × IsAccepted claims config now i)
        (validate_claims claims config now)
  unfolding validate_claims
  validate_claims-Ensures = Ensures-guard _ _ _ λ fin. Ensures-guard _ _ _ λ iss.
      Ensures-guard _ _ _ λ aud. Ensures-bind _ _ λ u timely. Ensures-bind _ _ λ w overage.
        Ensures-guard _ _ _ λ auth. Ensures-bind _ _ λ subject subject_ok. Ensures-ok _ (
          let (after, before) = (temporal_sound claims now).at u timely in
          let (hasgroups, names) = overage_sound claims overage in
          let (subject_at, nonblank_at) = text_of_sound _ _ (or_raise-eq-ok _ _ _ subject_ok) in
          (
            fin,
            record {
              issuer = claim_is_sound _ _ iss;
              audience = IsAudience-sound _ _ aud;
              unexpired = after;
              valid_now = before;
              no_hasgroups = hasgroups;
              no_claim_names = names;
              authorized = IsAuthorized-sound claims config auth;
              subject = subject_at;
              nonblank_subject = nonblank_at;
              groups = refl;
              roles = refl;
            },
          ))

mapping_sound : (v : Value) (fs : Fields) → mapping v ≡ some fs → v ≡ obj fs
mapping_sound (obj gs) fs h = cc
mapping_sound v fs h = cc

module _ (token : String) (config : TokenValidationConfig) (verifier : String → Option Value)
    (now : Number) where
  -- The verifier returned a mapping whose claims are accepted at a finite time.
  abbrev pub IsValidToken : ValidatedIdentity → Type 0
  IsValidToken i =
      (claims : Fields) × (verifier token ≡ some (obj claims))
      × (is_finite now ≡ true)
      × IsAccepted claims config now i

  pub validate_access_token-Ensures :
      Ensures IsValidToken (validate_access_token token config verifier now)
  unfolding validate_access_token
  validate_access_token-Ensures = Ensures-bind _ _ λ value value_ok.
      Ensures-bind _ _ λ claims claims_ok. record {
        at = λ i h.
            let (fin, accepted) = (validate_claims-Ensures claims config now).at i h in
            (
              claims,
              or_raise-eq-ok _ _ _ value_ok
                  ∙ ap some (mapping_sound value claims (or_raise-eq-ok _ _ _ claims_ok)),
              fin,
              accepted,
            );
      }
