-- ===== src/Telemetry/Redacted.antt =====
-- What reaches the exporter.
use mathlib.Core.Path.{subst}
use gatebroker.Prelude.{
  String, ◌≡◌, refl, ◌∙◌, arith, true, false, none, List, [], ◌∷◌, eq_iff, Bool-cases, inl, inr, In,
  if◌then◌else◌,
}
use gatebroker.Policy.{mem}
use gatebroker.Policy.Matching.{mem_iff}
use gatebroker.Telemetry.{
  Span, sensitive_attribute_keys, redacted, redacted_span, export, attribute_of,
}

-- The names under which a client's address, port or program stand in a span.
pub data IsClientData : String → Type 0 where
  client_address : IsClientData "client.address"
  client_port : IsClientData "client.port"
  client_ip : IsClientData "http.client_ip"
  http_user_agent : IsClientData "http.user_agent"
  peer_ip : IsClientData "net.peer.ip"
  peer_port : IsClientData "net.peer.port"
  network_peer_address : IsClientData "network.peer.address"
  network_peer_port : IsClientData "network.peer.port"
  user_agent : IsClientData "user_agent.original"

-- A span as it is exported: no attribute says who the client is, every other attribute and all else
-- are as they were.
pub record IsExported {A X S E L R : Type 0} (before after : Span A X S E L R) : Type 0 where
  pub removed : (key : String) → IsClientData key → attribute_of key after.attributes ≡ none
  pub kept :
      (key : String)
      → ¬ (IsClientData key)
      → attribute_of key after.attributes ≡ attribute_of key before.attributes
  pub name : after.name ≡ before.name
  pub context : after.context ≡ before.context
  pub parent : after.parent ≡ before.parent
  pub resource : after.resource ≡ before.resource
  pub events : after.events ≡ before.events
  pub links : after.links ≡ before.links
  pub kind : after.kind ≡ before.kind
  pub status : after.status ≡ before.status
  pub start_time : after.start_time ≡ before.start_time
  pub end_time : after.end_time ≡ before.end_time
  pub scope : after.instrumentation_scope ≡ before.instrumentation_scope

pub data AreExported {A X S E L R : Type 0}
    : List (Span A X S E L R) → List (Span A X S E L R) → Type 0 where
  all : AreExported [] []
  also :
      {s t : Span A X S E L R} {before after : List (Span A X S E L R)}
      → IsExported s t
      → AreExported before after
      → AreExported (s ∷ before) (t ∷ after)

attribute_of-redacted {ℓ} :
    {A : Type ℓ} (key : String) (attributes : List (String × A))
    → attribute_of key (redacted attributes)
      ≡ (if mem key sensitive_attribute_keys then none else attribute_of key attributes)
unfolding redacted
attribute_of-redacted key [] = ground arith
attribute_of-redacted key ((k, value) ∷ attributes) =
    ground (arith, eq_iff k key, attribute_of-redacted key attributes)

sensitive : {key : String} → IsClientData key → mem key sensitive_attribute_keys ≡ true
unfolding mem
sensitive client_address = refl
sensitive client_port = refl
sensitive client_ip = refl
sensitive http_user_agent = refl
sensitive peer_ip = refl
sensitive peer_port = refl
sensitive network_peer_address = refl
sensitive network_peer_port = refl
sensitive user_agent = refl

named : (key : String) → In key sensitive_attribute_keys → IsClientData key
named key (inl e) = subst IsClientData e client_address
named key (inr (inl e)) = subst IsClientData e client_port
named key (inr (inr (inl e))) = subst IsClientData e client_ip
named key (inr (inr (inr (inl e)))) = subst IsClientData e http_user_agent
named key (inr (inr (inr (inr (inl e))))) = subst IsClientData e peer_ip
named key (inr (inr (inr (inr (inr (inl e)))))) = subst IsClientData e peer_port
named key (inr (inr (inr (inr (inr (inr (inl e))))))) = subst IsClientData e network_peer_address
named key (inr (inr (inr (inr (inr (inr (inr (inl e)))))))) = subst IsClientData e network_peer_port
named key (inr (inr (inr (inr (inr (inr (inr (inr (inl e))))))))) = subst IsClientData e user_agent
named key (inr (inr (inr (inr (inr (inr (inr (inr (inr x))))))))) = absurd x

harmless : (key : String) → ¬ (IsClientData key) → mem key sensitive_attribute_keys ≡ false
harmless key n = elim (Bool-cases (mem key sensitive_attribute_keys)) [
  | inl e ↦ absurd (n (named key ((mem_iff key sensitive_attribute_keys).0 e)))
  | inr e ↦ e
]

redacted-removes :
    {A : Type 0} (attributes : List (String × A)) (key : String)
    → IsClientData key
    → attribute_of key (redacted attributes) ≡ none
redacted-removes attributes key c = attribute_of-redacted key attributes ∙ rw (sensitive c) refl

redacted-keeps :
    {A : Type 0} (attributes : List (String × A)) (key : String)
    → ¬ (IsClientData key)
    → attribute_of key (redacted attributes) ≡ attribute_of key attributes
redacted-keeps attributes key n = attribute_of-redacted key attributes ∙ rw (harmless key n) refl

-- The exporter behind is given one span for each, in order, in which no attribute holds the client's
-- address, port or user agent, and every other attribute and all else are as they were.
pub export-AreExported :
    {A X S E L R : Type 0} (spans : List (Span A X S E L R)) → AreExported spans (export spans)
unfolding export redacted_span
export-AreExported [] = all
export-AreExported (s ∷ spans) =
    also
      (record {
        removed = redacted-removes s.attributes;
        kept = redacted-keeps s.attributes;
        name = refl;
        context = refl;
        parent = refl;
        resource = refl;
        events = refl;
        links = refl;
        kind = refl;
        status = refl;
        start_time = refl;
        end_time = refl;
        scope = refl;
      })
      (export-AreExported spans)
