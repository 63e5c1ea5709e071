-- ===== src/Forwarding/Handler/Granted.antt =====
-- When a request reaches the upstream gateway: exactly when every gate has let it through.
use mathlib.Core.Path.{subst}
use Prim.Native.String.{◌++◌}
use gatebroker.Prelude.{
  String, ◌≡◌, refl, sym, ◌∙◌, ap, ◌↔◌, inl, inr, true, false, some, List, ◌∷◌, In,
}
use gatebroker.Result.{Result, ok, err}
use gatebroker.Text.{is_empty}
use gatebroker.Json.{Fields}
use gatebroker.Policy.{Policy}
use gatebroker.Policy.Resolve.{IsWinner}
use gatebroker.Oidc.{ValidatedIdentity}
use gatebroker.Oidc.Accepts.{IsValidToken}
use gatebroker.Forwarding.{Endpoint, path_of, Request}
use gatebroker.Forwarding.Reading.{bearer_token}
use gatebroker.Forwarding.Body.{upstream_body}
use gatebroker.Forwarding.Effects.{
  UpstreamRequest, Effect, send, consult, read_key, Reply, Post, Post-stage, Post-effect, stage_ok,
  perform, ◌>>◌,
}
use gatebroker.Forwarding.Handler.Unsent.{
  Sends, NoSend, NoSend-not-Sends, at_end, refusal_NoSend, crash_NoSend, deliver-NoSend,
}
use gatebroker.Forwarding.Handler.Headers.{upstream_headers-authorized, upstream_headers-attributed}
use gatebroker.Forwarding.Handler
use gatebroker.Forwarding.Handler.{
  authenticate, read_request, entitle, permit, limit, usable_key, Broker, single, audited_error,
  upstream_error, relayed, answer, deliver, Sent, response, http_error, other_error, Limited,
  allowed, Resolved, key_text, model_of, rate_limit_key, labels, outgoing, forward, is_success,
  sanitized,
}
use gatebroker.Forwarding.Handler.Stages.{
  Refuses, Ends, built-Ends, built-eq-ok_iff, IsReadable, bearer-Refuses, authenticate-Refuses,
  entitle-Refuses, read_request-Ends, permit-Refuses, limit-Refuses, usable_key-Refuses,
  bearer-eq-ok_iff, authenticate-eq-ok_iff, entitle-eq-ok_iff, read_request-eq-ok_iff,
  permit-eq-ok_iff, limit-eq-ok_iff, usable_key-eq-ok_iff, sanitized-eq-ok_iff,
}

module _ (b : Broker) (e : Endpoint) (request : Request) where
  -- The request `u` is what the broker sends for a caller with a valid token whose winning policy
  -- allows the model, whom the limiter lets through, under the policy's key.
  pub record IsGranted (u : UpstreamRequest) : Type 0 where
    pub token : String
    pub identity : ValidatedIdentity
    pub body : Fields
    pub policy : Policy
    pub key : String
    pub sent_body : Fields
    pub bearer : bearer_token (single (request.getlist "authorization")) ≡ some token
    pub valid : IsValidToken token b.oidc_config b.token_verifier b.now identity
    pub readable : IsReadable b e request body
    pub winner : IsWinner identity.group_ids identity.app_roles b.policies policy
    pub permitted : In (model_of body) policy.allowed_models
    pub limited : b.rate_limiter (rate_limit_key request identity policy) ≡ allowed true
    pub resolved : b.key_resolver policy.key_ref ≡ key_text key
    pub nonempty : is_empty key ≡ false
    pub sanitized : upstream_body e body identity.subject ≡ ok sent_body
    pub built : b.builds u ≡ true
    pub authorized : In ("authorization", "Bearer " ++ key) u.headers
    pub attributed : In ("x-gabro-policy-id", policy.id) u.headers
    pub at : outgoing b e request policy key sent_body ≡ u

  abbrev Justified : UpstreamRequest → Reply → Type 0
  Justified u r = Sends u r.effects → IsGranted u

  ends : {A : Type 0} (m : Result Reply A) → Ends m → (r : Reply) → m ≡ err r → NoSend r.effects
  ends m h r e = elim (h r e) [
    | inl refusal ↦ refusal_NoSend r refusal
    | inr (crashed', none') ↦ subst NoSend (sym none') tt
  ]

  stops :
      {A : Type 0} (u : UpstreamRequest) (m : Result Reply A)
      → Refuses m
      → (r : Reply) → m ≡ err r
      → NoSend r.effects
  stops u m h r e = refusal_NoSend r (h r e)

  granted :
      (u : UpstreamRequest) (token : String) (identity : ValidatedIdentity) (body : Fields)
      (policy : Policy) (key : String) (sent_body : Fields) (v w x : Unit {0})
      → Handler.bearer (path_of e) request ≡ ok token
      → authenticate b (path_of e) token ≡ ok identity
      → read_request b e request ≡ ok body
      → entitle b (path_of e) identity ≡ ok policy
      → permit e policy (model_of body) ≡ ok v
      → limit (labels e policy body) (b.rate_limiter (rate_limit_key request identity policy))
        ≡ ok w
      → usable_key (labels e policy body) (b.key_resolver policy.key_ref) ≡ ok key
      → Handler.sanitized e body identity.subject ≡ ok sent_body
      → Handler.built b (outgoing b e request policy key sent_body) ≡ ok x
      → outgoing b e request policy key sent_body ≡ u
      → IsGranted u
  granted u token identity body policy key sent_body v w x t_ok i_ok b_ok p_ok m_ok l_ok k_ok s_ok
        c_ok at =
      let l = labels e policy body in
      record {
        token = token;
        identity = identity;
        body = body;
        policy = policy;
        key = key;
        sent_body = sent_body;
        bearer = (bearer-eq-ok_iff (path_of e) request token).0 t_ok;
        valid = (authenticate-eq-ok_iff b (path_of e) token identity).0 i_ok;
        readable = (read_request-eq-ok_iff b e request body).0 b_ok;
        winner = (entitle-eq-ok_iff b (path_of e) identity policy).0 p_ok;
        permitted = (permit-eq-ok_iff e policy (model_of body) v).0 m_ok;
        limited = (limit-eq-ok_iff l _ w).0 l_ok;
        resolved = ((usable_key-eq-ok_iff l _ key).0 k_ok).0;
        nonempty = ((usable_key-eq-ok_iff l _ key).0 k_ok).1;
        sanitized = (sanitized-eq-ok_iff e body sent_body identity.subject).0 s_ok;
        built =
            ap b.builds (sym at)
            ∙ (built-eq-ok_iff b (outgoing b e request policy key sent_body) x).0 c_ok;
        authorized =
            subst (λ (v : UpstreamRequest). In ("authorization", "Bearer " ++ key) v.headers) at
              (upstream_headers-authorized e request key policy);
        attributed =
            subst (λ (v : UpstreamRequest). In ("x-gabro-policy-id", policy.id) v.headers) at
              (upstream_headers-attributed e request key policy);
        at = at;
      }

  sent_IsGranted : (u : UpstreamRequest) → Post (Justified u) (forward b e request)
  unfolding forward
  sent_IsGranted u =
      let quiet = λ (es : List Effect) (n : NoSend es) (i : Sends u es).
        absurd {A = IsGranted u} (NoSend-not-Sends u es n i) in
      Post-stage _ _ (λ r h. quiet _ (stops u _ (bearer-Refuses (path_of e) request) r h))
        λ token token_ok.
          Post-stage _ _ (λ r h. quiet _ (stops u _ (authenticate-Refuses b (path_of e) token) r h))
            λ identity identity_ok.
              Post-stage _ _ (λ r h. quiet _ (ends _ (read_request-Ends b e request) r h))
                λ body body_ok.
                  Post-stage _ _
                    (λ r h. quiet _ (stops u _ (entitle-Refuses b (path_of e) identity) r h))
                    λ policy policy_ok.
                      Post-stage _ _
                        (λ r h. quiet _ (stops u _ (permit-Refuses e policy (model_of body)) r h))
                        λ permitted permitted_ok. Post-effect _ _ (
                          Post-stage _ _
                            (λ r h.
                              quiet (consult _ ∷ r.effects)
                                (stops u _ (limit-Refuses (labels e policy body) _) r h))
                            λ limited limited_ok. Post-effect _ _ (
                              Post-stage _ _
                                (λ r h.
                                  quiet (consult _ ∷ read_key _ ∷ r.effects)
                                    (stops u _ (usable_key-Refuses (labels e policy body) _) r h))
                                λ key key_ok.
                                  Post-stage _ _
                                    (λ r h. quiet (consult _ ∷ read_key _ ∷ r.effects) (
                                      subst NoSend (sym (crash_NoSend e body identity.subject r h))
                                        tt))
                                    λ sent_body sent_ok.
                                      Post-stage _ _
                                        (λ r h.
                                          quiet (consult _ ∷ read_key _ ∷ r.effects)
                                            (ends _ (built-Ends b _) r h))
                                        λ made made_ok. Post-effect _ _ (record {
                                          at = λ i.
                                              granted u token identity body policy key sent_body
                                                permitted limited made token_ok identity_ok body_ok
                                                policy_ok permitted_ok limited_ok key_ok sent_ok
                                                made_ok
                                                (at_end u _ (rate_limit_key request identity policy)
                                                  policy.key_ref _
                                                  (deliver-NoSend b (labels e policy body) body
                                                    (b.upstream _))
                                                  i);
                                        })))

  -- The request is sent on, and delivered, once every gate has let it through.
  pub forward_granted :
      (u : UpstreamRequest) (g : IsGranted u)
      → forward b e request ≡ (
          consult (rate_limit_key request g.identity g.policy)
          >> (read_key g.policy.key_ref
              >> (send u >> deliver b (labels e g.policy g.body) g.body (b.upstream u))))
  unfolding forward
  forward_granted u g =
      stage_ok _ _ g.token ((bearer-eq-ok_iff (path_of e) request g.token).1 g.bearer)
      ∙ stage_ok _ _ g.identity
          ((authenticate-eq-ok_iff b (path_of e) g.token g.identity).1 g.valid)
      ∙ stage_ok _ _ g.body ((read_request-eq-ok_iff b e request g.body).1 g.readable)
      ∙ stage_ok _ _ g.policy ((entitle-eq-ok_iff b (path_of e) g.identity g.policy).1 g.winner)
      ∙ stage_ok _ _ tt ((permit-eq-ok_iff e g.policy (model_of g.body) tt).1 g.permitted)
      ∙ perform _ (
          stage_ok _ _ tt ((limit-eq-ok_iff (labels e g.policy g.body) _ tt).1 g.limited)
          ∙ perform _ (
              stage_ok _ _ g.key (
                (usable_key-eq-ok_iff (labels e g.policy g.body) _ g.key).1
                  (g.resolved, g.nonempty))
              ∙ stage_ok _ _ g.sent_body
                  ((sanitized-eq-ok_iff e g.body g.sent_body g.identity.subject).1 g.sanitized)
              ∙ stage_ok _ _ tt ((built-eq-ok_iff b _ tt).1 (ap b.builds g.at ∙ g.built))
              ∙ ap (λ v. send v >> deliver b (labels e g.policy g.body) g.body (b.upstream v))
                  g.at))

  granted-Sends : (u : UpstreamRequest) → IsGranted u → Sends u (forward b e request).effects
  unfolding ◌>>◌
  granted-Sends u g = rw (forward_granted u g) (inr (inr (inl refl)))

-- A request is sent upstream exactly when the one authorization header holds a bearer token that
-- is valid, the body is read within its bounds and passes every check, the caller's winning
-- policy lists the requested model, the rate limiter answers true, the policy's key reference
-- resolves to a key that is not empty, the body can be sanitized and httpx can build the request;
-- and what is sent is then the sanitized body, to the endpoint's URL, with that key in the
-- authorization header and that policy's id in its own.
pub forward-sends_iff :
    (b : Broker) (e : Endpoint) (request : Request) (u : UpstreamRequest)
    → In (send u) (forward b e request).effects ↔ IsGranted b e request u
forward-sends_iff b e request u =
    ((λ i. (sent_IsGranted b e request u).at i), granted-Sends b e request u)
