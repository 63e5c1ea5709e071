-- ===== src/Forwarding/Effects.antt =====
-- What a handler does in the world, in order, and what it answers: audit events, calls of the rate
-- limiter and the key resolver, requests sent upstream, bytes relayed and responses closed.
use gatebroker.Prelude.{
  ℕ, suc, ◌+◌, String, ◌≡◌, refl, ap, Bool, true, false, Option, none, some, List, [], ◌∷◌, ◌++◌,
  arith,
}
use gatebroker.Result.{Result, ok, err}
use gatebroker.Json.{Fields}
use gatebroker.Forwarding.{Bytes}

pub data Outcome : Type 0 where
  authentication_failed invalid_request authorization_denied rate_limit_denied : Outcome
  service_unavailable upstream_failed forwarded models_listed : Outcome

-- The event of `_audit_event`, but for the clock's `duration_ms`.
pub record AuditEvent : Type 0 where
  pub outcome : Outcome
  pub path : String
  pub status_code : ℕ
  pub policy_id : Option String
  pub model : Option String
  pub detail : Option String

-- Subject, policy id and client address.
pub record RateLimitKey : Type 0 where
  pub subject : String
  pub policy_id : String
  pub client_ip : String

pub record UpstreamRequest : Type 0 where
  pub url : String
  pub body : Fields
  pub headers : List (String × String)

pub data Effect : Type 0 where
  audit : AuditEvent → Effect
  consult : RateLimitKey → Effect
  read_key : String → Effect
  send : UpstreamRequest → Effect
  emit : Bytes → Effect
  aclose : Effect

-- A response of the upstream: what its body's stream gives, and the class of the `HTTPError` that
-- ends it, if one does.
pub record Upstream : Type 0 where
  pub status_code : ℕ
  pub header : String → Option String
  pub chunks : List Bytes
  pub failure : Option String

-- What the server is given to answer; `crashed` is an exception that leaves the handler.
pub data Response : Type 0 where
  error : ℕ → String → Response
  listed : List String → Response
  content : ℕ → List (String × String) → Bytes → Response
  stream : ℕ → List (String × String) → Upstream → String → String → Response
  crashed : Response

pub record Reply : Type 0 where
  pub response : Response
  pub effects : List Effect

-- One step of a handler: it goes on with a value, or returns early.
abbrev pub Stage : Type 0 → Type 0
Stage A = Result Reply A

-- Go on with the value, or return early with the reply.
abbrev pub or_reply {ℓ} : {A : Type ℓ} → Option A → Reply → Result Reply A
or_reply none r = err r
or_reply (some a) r = ok a

abbrev pub result_or {ℓ ι} : {A : Type ℓ} {E : Type ι} → Result E A → (E → Reply) → Result Reply A
result_or (ok a) r = ok a
result_or (err e) r = err (r e)

abbrev pub check : Bool → Reply → Stage (Unit {0})
check true r = ok tt
check false r = err r

infixl 5 ◌>>=◌ ◌>>◌
unfoldable pub ◌>>=◌ : {A : Type 0} → Stage A → (A → Reply) → Reply
ok a >>= f = f a
err r >>= f = r

-- `e >> r` performs `e` and goes on as `r`.
unfoldable pub ◌>>◌ : Effect → Reply → Reply
e >> r = record r { effects = e ∷ r.effects }

-- The number of audit events.
abbrev pub audits : List Effect → ℕ
audits [] = 0
audits (audit e ∷ es) = suc (audits es)
audits (e ∷ es) = audits es

-- How often an upstream response is closed.
abbrev pub acloses : List Effect → ℕ
acloses [] = 0
acloses (aclose ∷ es) = suc (acloses es)
acloses (e ∷ es) = acloses es

pub audits-append : (xs ys : List Effect) → audits (xs ++ ys) ≡ audits xs + audits ys
audits-append [] ys = omega arith
audits-append (audit e ∷ es) ys = omega (arith, audits-append es ys)
audits-append (e ∷ es) ys = audits-append es ys

pub acloses-append : (xs ys : List Effect) → acloses (xs ++ ys) ≡ acloses xs + acloses ys
acloses-append [] ys = omega arith
acloses-append (aclose ∷ es) ys = omega (arith, acloses-append es ys)
acloses-append (e ∷ es) ys = acloses-append es ys

-- The reply has `P`: a handler is walked stage by stage.
pub record Post (P : Reply → Type 0) (r : Reply) : Type 0 where
  pub at : P r

module _ {P : Reply → Type 0} where
  pub Post-stage :
      {A : Type 0} (m : Stage A) (f : A → Reply)
      → ((r : Reply) → m ≡ err r → P r)
      → ((a : A) → m ≡ ok a → Post P (f a))
      → Post P (m >>= f)
  unfolding ◌>>=◌
  Post-stage (ok a) f early go_on = go_on a refl
  Post-stage (err r) f early go_on = record { at = early r refl }

  pub Post-effect :
      (e : Effect) (r : Reply)
      → Post (λ q. P (record q { effects = e ∷ q.effects })) r
      → Post P (e >> r)
  unfolding ◌>>◌
  Post-effect e r h = record { at = h.at }

pub stage_ok : {A : Type 0} (m : Stage A) (f : A → Reply) (a : A) → m ≡ ok a → (m >>= f) ≡ f a
unfolding ◌>>=◌
stage_ok m f a h = rw h

-- Performing an effect, as a function of what follows.
pub perform : {r s : Reply} (e : Effect) → r ≡ s → (e >> r) ≡ (e >> s)
perform e h = ap (λ r. e >> r) h
