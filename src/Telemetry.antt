-- ===== src/Telemetry.antt =====
-- src/gatebroker/telemetry.py: what of a span is exported, and whether any is. The set-up of the
-- exporters is not modelled.
pub mod Redacted
use gatebroker.Prelude.{
  ℕ, String, Bool, true, false, not, Option, none, some, List, [], ◌∷◌, str_eq, if◌then◌else◌,
}
use gatebroker.Text.{nonblank}
use gatebroker.Policy.{mem}

abbrev pub sensitive_attribute_keys : List String
sensitive_attribute_keys =
    "client.address" ∷ "client.port" ∷ "http.client_ip" ∷ "http.user_agent" ∷ "net.peer.ip"
    ∷ "net.peer.port" ∷ "network.peer.address" ∷ "network.peer.port" ∷ "user_agent.original" ∷ []

-- A completed span, of the tracing library: `A` are the values of attributes, `X` and `S` its contexts
-- and scopes, and `E`, `L` and `R` its events, links and resources.
pub record Span (A X S E L R : Type 0) : Type 0 where
  pub name : String
  pub context : Option X
  pub parent : Option X
  pub resource : R
  pub attributes : List (String × A)
  pub events : List E
  pub links : List L
  pub kind : ℕ
  pub status : ℕ × Option String
  pub start_time : Option ℕ
  pub end_time : Option ℕ
  pub instrumentation_scope : Option S

unfoldable pub redacted {ℓ} : {A : Type ℓ} → List (String × A) → List (String × A)
redacted [] = []
redacted ((key, value) ∷ attributes) =
    let rest = redacted attributes in
    if mem key sensitive_attribute_keys then rest else (key, value) ∷ rest

module _ {A X S E L R : Type 0} where
  unfoldable pub redacted_span : Span A X S E L R → Span A X S E L R
  unfolding redacted
  redacted_span span = record {
    name = span.name;
    context = span.context;
    parent = span.parent;
    resource = span.resource;
    attributes = redacted span.attributes;
    events = span.events;
    links = span.links;
    kind = span.kind;
    status = span.status;
    start_time = span.start_time;
    end_time = span.end_time;
    instrumentation_scope = span.instrumentation_scope;
  }

  -- The list that the exporter behind is given.
  unfoldable pub export : List (Span A X S E L R) → List (Span A X S E L R)
  unfolding redacted_span
  export [] = []
  export (span ∷ spans) = redacted_span span ∷ export spans

-- `values.get("OTEL_EXPORTER_OTLP_ENDPOINT", "")`, the empty text where it is not set
unfoldable pub traces_enabled : String → Bool
traces_enabled endpoint = nonblank endpoint

-- `attributes.get(key)`
abbrev pub attribute_of {ℓ} : {A : Type ℓ} → String → List (String × A) → Option A
attribute_of key [] = none
attribute_of key ((k, value) ∷ attributes) =
    if str_eq k key then some value else attribute_of key attributes
