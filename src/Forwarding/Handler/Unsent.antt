-- ===== src/Forwarding/Handler/Unsent.antt =====
-- The parts of a handler that send nothing upstream.
use mathlib.Core.Path.{subst}
use gatebroker.Prelude.{String, ◌≡◌, sym, inl, inr, List, [], ◌∷◌, Bool-cases, In}
use gatebroker.Result.{err}
use gatebroker.Json.{Fields, get}
use gatebroker.Oidc.{is_true}
use gatebroker.Forwarding.{Endpoint}
use gatebroker.Forwarding.Effects.{
  RateLimitKey, UpstreamRequest, Effect, audit, emit, send, consult, read_key, aclose, Reply,
  Upstream, ◌>>◌,
}
use gatebroker.Forwarding.Relay.{
  Labels, Content, whole, too_large, failed, bounded_response_content,
}
use gatebroker.Forwarding.Handler.{
  Broker, audited_error, upstream_error, relayed, answer, deliver, Sent, response, http_error,
  other_error, is_success, sanitized,
}
use gatebroker.Forwarding.Handler.Stages.{IsRefusal, sanitized-eq-err}

abbrev pub Sends : UpstreamRequest → List Effect → Type 0
Sends u es = In (send u) es

-- Nothing in the list is sent upstream.
abbrev pub NoSend : List Effect → Type 0
NoSend [] = Unit
NoSend (send u ∷ es) = ⊥
NoSend (audit a ∷ es) = NoSend es
NoSend (consult k ∷ es) = NoSend es
NoSend (read_key ref ∷ es) = NoSend es
NoSend (emit bs ∷ es) = NoSend es
NoSend (aclose ∷ es) = NoSend es

pub NoSend-not-Sends : (u : UpstreamRequest) (es : List Effect) → NoSend es → ¬ (Sends u es)
NoSend-not-Sends u [] n i = i
NoSend-not-Sends u (send v ∷ es) n i = n
NoSend-not-Sends u (audit a ∷ es) n (inl e) = cc
NoSend-not-Sends u (audit a ∷ es) n (inr i) = NoSend-not-Sends u es n i
NoSend-not-Sends u (consult k ∷ es) n (inl e) = cc
NoSend-not-Sends u (consult k ∷ es) n (inr i) = NoSend-not-Sends u es n i
NoSend-not-Sends u (read_key ref ∷ es) n (inl e) = cc
NoSend-not-Sends u (read_key ref ∷ es) n (inr i) = NoSend-not-Sends u es n i
NoSend-not-Sends u (emit bs ∷ es) n (inl e) = cc
NoSend-not-Sends u (emit bs ∷ es) n (inr i) = NoSend-not-Sends u es n i
NoSend-not-Sends u (aclose ∷ es) n (inl e) = cc
NoSend-not-Sends u (aclose ∷ es) n (inr i) = NoSend-not-Sends u es n i

pub at_end :
    (u out : UpstreamRequest) (k : RateLimitKey) (ref : String) (es : List Effect)
    → NoSend es
    → Sends u (consult k ∷ read_key ref ∷ send out ∷ es)
    → out ≡ u
at_end u out k ref es n (inl e) = absurd (cc)
at_end u out k ref es n (inr (inl e)) = absurd (cc)
at_end u out k ref es n (inr (inr (inl e))) = cc
at_end u out k ref es n (inr (inr (inr i))) = absurd (NoSend-not-Sends u es n i)

pub refusal_NoSend : (r : Reply) → IsRefusal r → NoSend r.effects
refusal_NoSend r h = subst NoSend (sym h.effects) tt

module _ (b : Broker) (l : Labels) where
  relayed-NoSend : (r : Upstream) (c : Content) → NoSend (relayed b l r c).effects
  unfolding relayed upstream_error audited_error ◌>>◌
  relayed-NoSend r (whole bytes) = tt
  relayed-NoSend r too_large = tt
  relayed-NoSend r (failed name) = tt

  answer-NoSend : (body : Fields) (r : Upstream) → NoSend (answer b l body r).effects
  unfolding answer upstream_error audited_error ◌>>◌
  answer-NoSend body r = elim (Bool-cases (is_success r.status_code)) [
    | inl good ↦ rw good (elim (Bool-cases (is_true (get "stream" body))) [
      | inl s ↦ rw s tt
      | inr s ↦ rw s (relayed-NoSend r (bounded_response_content r b.max_response_bytes))
    ])
    | inr bad ↦ rw bad tt
  ]

  pub deliver-NoSend : (body : Fields) (s : Sent) → NoSend (deliver b l body s).effects
  unfolding deliver upstream_error audited_error
  deliver-NoSend body (response r) = answer-NoSend body r
  deliver-NoSend body (http_error name) = tt
  deliver-NoSend body other_error = tt

pub crash_NoSend :
    (e : Endpoint) (body : Fields) (oid : String) (r : Reply)
    → sanitized e body oid ≡ err r
    → r.effects ≡ []
crash_NoSend e body oid r h = (sanitized-eq-err e body oid r h).1
