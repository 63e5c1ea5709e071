-- ===== src/Forwarding/Handler/Stages.antt =====
-- What each stage of a handler passes on, and what it answers where it stops.
use mathlib.Core.Path.{subst}
use gatebroker.Prelude.{
  ℕ, String, ◌≡◌, refl, sym, ap, ◌↔◌, ◌⊎◌, inl, inr, Bool, true, false, Option, none, some, [], ◌∷◌,
  arith, Bool-cases, In,
}
use gatebroker.Result.{Result, ok, err, Result-cases}
use gatebroker.Text.{is_empty}
use gatebroker.Json.{Fields}
use gatebroker.Policy.{Policy}
use gatebroker.Policy.Matching.{mem_iff}
use gatebroker.Policy.Resolve.{IsWinner, resolve_entitlement-eq-ok_iff}
use gatebroker.Oidc.{ValidatedIdentity}
use gatebroker.Oidc.Accepts.{IsValidToken}
use gatebroker.Oidc.Complete.{validate_access_token-eq-ok_iff}
use gatebroker.Forwarding.{Endpoint, Request}
use gatebroker.Forwarding.Reading.{Body, dict, nothing, bearer_token, request_object}
use gatebroker.Forwarding.Checks.{is_valid_request}
use gatebroker.Forwarding.Body.{upstream_body}
use gatebroker.Forwarding.Effects.{
  UpstreamRequest, Outcome, AuditEvent, audit, error, crashed, Reply, or_reply, result_or, check,
}
use gatebroker.Forwarding.Relay.{Labels}
use gatebroker.Forwarding.Handler.{
  Broker, crash, invalid, built, single, audited_error, bearer, authenticate, valid_body,
  read_request, entitle, permit, Limited, allowed, not_a_bool, limit, unavailable, Resolved,
  key_text, not_a_text, usable_key, sanitized,
}

-- An error for the caller, one audit event, and nothing else.
pub record IsRefusal (r : Reply) : Type 0 where
  pub status : ℕ
  pub message : String
  pub event : AuditEvent
  pub response : r.response ≡ error status message
  pub effects : r.effects ≡ audit event ∷ []
  pub same_status : event.status_code ≡ status

audited_error-IsRefusal :
    (path : String) (status : ℕ) (message : String) (outcome : Outcome)
    (policy_id model detail : Option String)
    → IsRefusal (audited_error path status message outcome policy_id model detail)
unfolding audited_error
audited_error-IsRefusal path status message outcome policy_id model detail = record {
  status = status;
  message = message;
  event = record {
    outcome = outcome;
    path = path;
    status_code = status;
    policy_id = policy_id;
    model = model;
    detail = detail;
  };
  response = refl;
  effects = refl;
  same_status = refl;
}

err-injective : {A : Type 0} (r s : Reply) → ◌≡◌ {A = Result Reply A} (err r) (err s) → r ≡ s
err-injective r s e = cc

ok-ne-err : {A : Type 0} (a : A) (s : Reply) → ◌≡◌ {A = Result Reply A} (ok a) (err s) → ⊥
ok-ne-err a s e = cc

-- A stage that stops gives a refusal.
abbrev pub Refuses : {A : Type 0} → Result Reply A → Type 0
Refuses m = (r : Reply) → m ≡ err r → IsRefusal r

Refuses-err : {A : Type 0} (r : Reply) → IsRefusal r → Refuses {A = A} (err r)
Refuses-err r h s e = subst IsRefusal (err-injective r s e) h

Refuses-ok : {A : Type 0} (a : A) → Refuses (ok a)
Refuses-ok a s e = absurd (ok-ne-err a s e)

or_reply-Refuses : {A : Type 0} (o : Option A) (r : Reply) → IsRefusal r → Refuses (or_reply o r)
or_reply-Refuses none r h = Refuses-err r h
or_reply-Refuses (some a) r h = Refuses-ok a

or_reply-eq-ok : {A : Type 0} (o : Option A) (r : Reply) (a : A) → or_reply o r ≡ ok a → o ≡ some a
or_reply-eq-ok none r a h = cc
or_reply-eq-ok (some x) r a h = cc

result_or-Refuses :
    {A E : Type 0} (m : Result E A) (f : E → Reply)
    → ((e : E) → IsRefusal (f e))
    → Refuses (result_or m f)
result_or-Refuses (ok a) f h = Refuses-ok a
result_or-Refuses (err e) f h = Refuses-err (f e) (h e)

result_or-eq-ok :
    {A E : Type 0} (m : Result E A) (f : E → Reply) (a : A) → result_or m f ≡ ok a → m ≡ ok a
result_or-eq-ok (ok x) f a h = cc
result_or-eq-ok (err e) f a h = cc

check-Refuses : (t : Bool) (r : Reply) → IsRefusal r → Refuses (check t r)
check-Refuses true r h = Refuses-ok tt
check-Refuses false r h = Refuses-err r h

check-eq-ok : (t : Bool) (r : Reply) (u : Unit {0}) → check t r ≡ ok u → t ≡ true
check-eq-ok true r u h = refl
check-eq-ok false r u h = cc

pub bearer-Refuses : (path : String) (request : Request) → Refuses (bearer path request)
unfolding bearer
bearer-Refuses path request = or_reply-Refuses _ _ (audited_error-IsRefusal _ _ _ _ _ _ _)

module _ (b : Broker) (path : String) where
  pub authenticate-Refuses : (token : String) → Refuses (authenticate b path token)
  unfolding authenticate
  authenticate-Refuses token = result_or-Refuses _ _ (λ e. audited_error-IsRefusal _ _ _ _ _ _ _)

  pub entitle-Refuses : (identity : ValidatedIdentity) → Refuses (entitle b path identity)
  unfolding entitle
  entitle-Refuses identity = result_or-Refuses _ _ (λ e. audited_error-IsRefusal _ _ _ _ _ _ _)

  pub authenticate-eq-ok_iff :
      (token : String) (identity : ValidatedIdentity)
      → (authenticate b path token ≡ ok identity)
        ↔ IsValidToken token b.oidc_config b.token_verifier b.now identity
  unfolding authenticate
  authenticate-eq-ok_iff token identity =
      let (to, from) =
        validate_access_token-eq-ok_iff token b.oidc_config b.token_verifier b.now identity in
      ((λ h. to (result_or-eq-ok _ _ _ h)), (λ v. rw (from v)))

  pub entitle-eq-ok_iff :
      (identity : ValidatedIdentity) (policy : Policy)
      → (entitle b path identity ≡ ok policy)
        ↔ IsWinner identity.group_ids identity.app_roles b.policies policy
  unfolding entitle
  entitle-eq-ok_iff identity policy =
      let (to, from) =
        resolve_entitlement-eq-ok_iff identity.group_ids identity.app_roles b.policies policy in
      ((λ h. to (result_or-eq-ok _ _ _ h)), (λ w. rw (from w)))

pub bearer-eq-ok_iff :
    (path : String) (request : Request) (token : String)
    → (bearer path request ≡ ok token)
      ↔ (bearer_token (single (request.getlist "authorization")) ≡ some token)
unfolding bearer
bearer-eq-ok_iff path request token = ((λ h. or_reply-eq-ok _ _ _ h), (λ h. rw h))

-- A stage that stops gives a refusal, or an exception that answers nothing and audits nothing.
abbrev pub Ends : {A : Type 0} → Result Reply A → Type 0
Ends m = (r : Reply) → m ≡ err r → IsRefusal r ⊎ ((r.response ≡ crashed) × (r.effects ≡ []))

refused : {A : Type 0} (q : Reply) → IsRefusal q → Ends {A = A} (err q)
refused q h r e = inl (subst IsRefusal (err-injective q r e) h)

crashes : {A : Type 0} → Ends {A = A} (err crash)
crashes r e =
    let same = err-injective crash r e in
    inr (ap (λ (q : Reply). q.response) (sym same), ap (λ (q : Reply). q.effects) (sym same))

valid_body-Ends : (e : Endpoint) (request : Request) (o : Body) → Ends (valid_body e request o)
valid_body-Ends e request (dict body) = elim (Bool-cases (is_valid_request e request body)) [
  | inl v ↦ rw v (λ r h. absurd (ok-ne-err body r h))
  | inr v ↦ rw v (refused (invalid e) (audited_error-IsRefusal _ _ _ _ _ _ _))
]
valid_body-Ends e request nothing = refused (invalid e) (audited_error-IsRefusal _ _ _ _ _ _ _)
valid_body-Ends e request Body.raised = crashes

valid_body-eq-ok_iff :
    (e : Endpoint) (request : Request) (o : Body) (body : Fields)
    → (valid_body e request o ≡ ok body)
      ↔ ((o ≡ dict body) × (is_valid_request e request body ≡ true))
valid_body-eq-ok_iff e request o body = ground arith

-- A request that httpx cannot build crashes.
pub built-Ends : (b : Broker) (u : UpstreamRequest) → Ends (built b u)
unfolding built
built-Ends b u = elim (Bool-cases (b.builds u)) [
  | inl v ↦ rw v (λ r h. absurd (ok-ne-err tt r h))
  | inr v ↦ rw v crashes
]

pub built-eq-ok_iff :
    (b : Broker) (u : UpstreamRequest) (x : Unit {0}) → (built b u ≡ ok x) ↔ (b.builds u ≡ true)
unfolding built
built-eq-ok_iff b u x = ((λ h. check-eq-ok _ _ x h), (λ h. rw h))

module _ (b : Broker) (e : Endpoint) (request : Request) where
  -- The body was read within its bounds, and the request passes every check.
  abbrev pub IsReadable : Fields → Type 0
  IsReadable body =
      (request_object b.json_loads request b.max_request_bytes ≡ dict body)
      × (is_valid_request e request body ≡ true)

  pub read_request-Ends : Ends (read_request b e request)
  unfolding read_request
  read_request-Ends =
      valid_body-Ends e request (request_object b.json_loads request b.max_request_bytes)

  pub read_request-eq-ok_iff :
      (body : Fields) → (read_request b e request ≡ ok body) ↔ IsReadable body
  unfolding read_request
  read_request-eq-ok_iff body =
      valid_body-eq-ok_iff e request (request_object b.json_loads request b.max_request_bytes) body

module _ (e : Endpoint) (policy : Policy) (model : String) where
  pub permit-Refuses : Refuses (permit e policy model)
  unfolding permit
  permit-Refuses = check-Refuses _ _ (audited_error-IsRefusal _ _ _ _ _ _ _)

  pub permit-eq-ok_iff :
      (u : Unit {0}) → (permit e policy model ≡ ok u) ↔ In model policy.allowed_models
  unfolding permit
  permit-eq-ok_iff u =
      let (to, from) = mem_iff model policy.allowed_models in
      ((λ h. to (check-eq-ok _ _ u h)), (λ i. rw (from i)))

module _ (l : Labels) where
  unavailable-IsRefusal : (detail : String) → IsRefusal (unavailable l detail)
  unfolding unavailable
  unavailable-IsRefusal detail = audited_error-IsRefusal _ _ _ _ _ _ _

  pub limit-Refuses : (r : Limited) → Refuses (limit l r)
  unfolding limit
  limit-Refuses (Limited.raised name) = Refuses-err _ (unavailable-IsRefusal name)
  limit-Refuses (allowed true) = Refuses-ok tt
  limit-Refuses (allowed false) = Refuses-err _ (audited_error-IsRefusal _ _ _ _ _ _ _)
  limit-Refuses not_a_bool = Refuses-err _ (unavailable-IsRefusal _)

  pub limit-eq-ok_iff : (r : Limited) (u : Unit {0}) → (limit l r ≡ ok u) ↔ (r ≡ allowed true)
  unfolding limit
  limit-eq-ok_iff r u = ground arith

  pub usable_key-Refuses : (r : Resolved) → Refuses (usable_key l r)
  unfolding usable_key
  usable_key-Refuses (Resolved.raised name) = Refuses-err _ (unavailable-IsRefusal name)
  usable_key-Refuses (key_text key) = elim (Bool-cases (is_empty key)) [
    | inl e ↦ rw e (Refuses-err _ (unavailable-IsRefusal _))
    | inr e ↦ rw e (Refuses-ok key)
  ]
  usable_key-Refuses not_a_text = Refuses-err _ (unavailable-IsRefusal _)

  pub usable_key-eq-ok_iff :
      (r : Resolved) (key : String)
      → (usable_key l r ≡ ok key) ↔ ((r ≡ key_text key) × (is_empty key ≡ false))
  unfolding usable_key
  usable_key-eq-ok_iff r key = ground arith

pub sanitized-eq-ok_iff :
    (e : Endpoint) (body fs : Fields) (oid : String)
    → (sanitized e body oid ≡ ok fs) ↔ (upstream_body e body oid ≡ ok fs)
unfolding sanitized
sanitized-eq-ok_iff e body fs oid = ((λ h. result_or-eq-ok _ _ _ h), (λ h. rw h))

-- A crash of the sanitizer answers nothing and audits nothing.
pub sanitized-eq-err :
    (e : Endpoint) (body : Fields) (oid : String) (r : Reply)
    → sanitized e body oid ≡ err r
    → (r.response ≡ crashed) × (r.effects ≡ [])
unfolding sanitized
sanitized-eq-err e body oid r h = elim (Result-cases (upstream_body e body oid)) [
  | inl (fs, at) ↦ absurd (ok-ne-err fs r (rw at at h))
  | inr (x, at) ↦
      let same = err-injective _ r (rw at at h) in
      (ap (λ (q : Reply). q.response) (sym same), ap (λ (q : Reply). q.effects) (sym same))
]
