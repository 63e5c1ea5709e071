-- ===== src/Forwarding/Handler/Audited.antt =====
-- The audit trail and the closing of upstream responses, on every path through `forward`.
use gatebroker.Prelude.{
  ℕ, ◌+◌, ◌≤◌, inl, inr, String, ◌≡◌, refl, sym, ◌∙◌, ap, Bool, true, false, ltb, if◌then◌else◌,
  arith, Bool-cases, In,
}
use gatebroker.Result.{Result, err}
use gatebroker.Json.{Fields, get}
use gatebroker.Oidc.{is_true}
use gatebroker.Forwarding.{Endpoint, path_of, Request, total}
use gatebroker.Forwarding.Effects.{
  send, Upstream, UpstreamRequest, Response, error, listed, content, stream, crashed, Reply, audits,
  acloses, audits-append, acloses-append, Post, Post-stage, Post-effect, ◌>>◌,
}
use gatebroker.Forwarding.Relay.{
  Labels, Content, whole, too_large, failed, bounded_response_content,
}
use gatebroker.Forwarding.Relay.Trace.{
  zero_add, relay_stream-audits, relay_stream_closed-audits, relay_stream-acloses,
}
use gatebroker.Forwarding.Handler.{
  Broker, audited_error, upstream_error, relayed, answer, deliver, Sent, response, http_error,
  other_error, is_success, model_of, labels, forward, streamed, serve,
}
use gatebroker.Forwarding.Handler.Stages.{
  IsRefusal, Refuses, Ends, built-Ends, bearer-Refuses, authenticate-Refuses, entitle-Refuses,
  read_request-Ends, permit-Refuses, limit-Refuses, usable_key-Refuses, sanitized-eq-err,
}
use gatebroker.Forwarding.Handler.Granted.{forward_granted, forward-sends_iff}

-- How many events the handler itself owes for an answer: a streamed one is audited by its relay.
abbrev due : Response → ℕ
due crashed = 0
due (stream status headers u policy_id model) = 0
due r = 1

abbrev IsAudited : Reply → Type 0
IsAudited r = audits r.effects ≡ due r.response

refusal-IsAudited : (r : Reply) → IsRefusal r → IsAudited r
refusal-IsAudited r h = ap audits h.effects ∙ ap due (sym h.response)

module _ (b : Broker) (l : Labels) where
  relayed-IsAudited : (u : Upstream) (c : Content) → IsAudited (relayed b l u c)
  unfolding relayed upstream_error audited_error ◌>>◌
  relayed-IsAudited u (whole bytes) = refl
  relayed-IsAudited u too_large = refl
  relayed-IsAudited u (failed name) = refl

  answer-IsAudited : (body : Fields) (u : Upstream) → IsAudited (answer b l body u)
  unfolding answer upstream_error audited_error ◌>>◌
  answer-IsAudited body u = elim (Bool-cases (is_success u.status_code)) [
    | inl good ↦ rw good (elim (Bool-cases (is_true (get "stream" body))) [
      | inl s ↦ rw s
      | inr s ↦ rw s (relayed-IsAudited u (bounded_response_content u b.max_response_bytes))
    ])
    | inr bad ↦ rw bad
  ]

  deliver-IsAudited : (body : Fields) (s : Sent) → IsAudited (deliver b l body s)
  unfolding deliver upstream_error audited_error
  deliver-IsAudited body (response u) = answer-IsAudited body u
  deliver-IsAudited body (http_error name) = refl
  deliver-IsAudited body other_error = refl

module _ (b : Broker) (e : Endpoint) (request : Request) where
  stops : {A : Type 0} (m : Result Reply A) → Refuses m → (r : Reply) → m ≡ err r → IsAudited r
  stops m h r at = refusal-IsAudited r (h r at)

  ends : {A : Type 0} (m : Result Reply A) → Ends m → (r : Reply) → m ≡ err r → IsAudited r
  ends m h r at = elim (h r at) [
    | inl refusal ↦ refusal-IsAudited r refusal
    | inr (crashed', none') ↦ ap audits none' ∙ ap due (sym crashed')
  ]

  forward-IsAudited : Post IsAudited (forward b e request)
  unfolding forward
  forward-IsAudited = Post-stage _ _ (stops _ (bearer-Refuses (path_of e) request)) λ token _.
      Post-stage _ _ (stops _ (authenticate-Refuses b (path_of e) token)) λ identity _.
        Post-stage _ _ (ends _ (read_request-Ends b e request)) λ body _.
          Post-stage _ _ (stops _ (entitle-Refuses b (path_of e) identity)) λ policy _.
            Post-stage _ _ (stops _ (permit-Refuses e policy (model_of body))) λ _ _.
              Post-effect _ _ (
                Post-stage _ _ (stops _ (limit-Refuses (labels e policy body) _)) λ _ _.
                  Post-effect _ _ (
                    Post-stage _ _ (stops _ (usable_key-Refuses (labels e policy body) _)) λ key _.
                      Post-stage _ _
                        (λ r h.
                          let (crashed', none') = sanitized-eq-err e body identity.subject r h in
                          ap audits none' ∙ ap due (sym crashed'))
                        λ sent_body _. Post-stage _ _ (ends _ (built-Ends b _)) λ _ _.
                          Post-effect _ _
                            (record { at = deliver-IsAudited b (labels e policy body) body _ })))

-- One event for each request, but none for an exception that leaves the handler, and none for a
-- stream within the bound whose client has gone away, `closed`.
abbrev pub owed : ℕ → Bool → Response → ℕ
owed max closed crashed = 0
owed max true (stream status headers u policy_id model) = if ltb max (total u.chunks) then 1 else 0
owed max closed r = 1

due-streamed :
    (path : String) (max : ℕ) (closed : Bool) (r : Response)
    → due r + audits (streamed path max closed r) ≡ owed max closed r
due-streamed path max true (error status message) = refl
due-streamed path max true (listed models) = refl
due-streamed path max true (content status headers bytes) = refl
due-streamed path max true (stream status headers u policy_id model) =
    zero_add
    ∙ relay_stream_closed-audits u (record { path = path; policy_id = policy_id; model = model })
        max
due-streamed path max true crashed = refl
due-streamed path max false (error status message) = refl
due-streamed path max false (listed models) = refl
due-streamed path max false (content status headers bytes) = refl
due-streamed path max false (stream status headers u policy_id model) = omega (
  arith,
  relay_stream-audits u (record { path = path; policy_id = policy_id; model = model }) max,
)
due-streamed path max false crashed = refl

-- Every forwarded request leaves exactly one audit event, refused, failed, answered, streamed to
-- its end or cut off by the bound, with two exceptions, in which it leaves none: an exception leaves
-- the handler, or the client of a stream within the bound goes away before its end.
pub serve-audits :
    (b : Broker) (e : Endpoint) (request : Request) (closed : Bool)
    → audits (serve b e request closed)
      ≡ owed b.max_response_bytes closed (forward b e request).response
unfolding serve
serve-audits b e request closed =
    let r = forward b e request in
    let later = streamed (path_of e) b.max_response_bytes closed r.response in
    audits-append r.effects later
    ∙ ap (λ n. n + audits later) (forward-IsAudited b e request).at
    ∙ due-streamed (path_of e) b.max_response_bytes closed r.response

-- A response that was received is closed, by the handler or by the relay that it starts.
abbrev closings : Broker → String → Bool → Reply → ℕ
closings b path closed r =
    acloses r.effects + acloses (streamed path b.max_response_bytes closed r.response)

module _ (b : Broker) (l : Labels) (closed : Bool) where
  relayed_closes : (u : Upstream) (c : Content) → 1 ≤ closings b l.path closed (relayed b l u c)
  unfolding relayed upstream_error audited_error ◌>>◌
  relayed_closes u (whole bytes) = omega arith
  relayed_closes u too_large = omega arith
  relayed_closes u (failed name) = omega arith

  answer_closes : (body : Fields) (u : Upstream) → 1 ≤ closings b l.path closed (answer b l body u)
  unfolding answer upstream_error audited_error ◌>>◌
  answer_closes body u = elim (Bool-cases (is_success u.status_code)) [
    | inl good ↦ rw good (elim (Bool-cases (is_true (get "stream" body))) [
      | inl s ↦ rw s (
          omega (
            arith,
            relay_stream-acloses u
                (record { path = l.path; policy_id = l.policy_id; model = l.model })
                b.max_response_bytes closed,
          ))
      | inr s ↦ rw s (relayed_closes u (bounded_response_content u b.max_response_bytes))
    ])
    | inr bad ↦ rw bad (omega arith)
  ]

-- Whenever the upstream answers a request that was sent, its response is closed at least once, also
-- where reading it fails, it is too large or it is no success, or a streaming client goes away
-- while it is relayed.
pub serve_closes :
    (b : Broker) (e : Endpoint) (request : Request) (closed : Bool) (u : UpstreamRequest)
    (r : Upstream)
    → In (send u) (forward b e request).effects
    → b.upstream u ≡ response r
    → 1 ≤ acloses (serve b e request closed)
unfolding serve ◌>>◌ deliver
serve_closes b e request closed u r i answered =
    let g = (forward-sends_iff b e request u).0 i in
    rw (forward_granted b e request u g)
      (rw answered (rw acloses-append (answer_closes b (labels e g.policy g.body) closed g.body r)))
