-- ===== src/Tests/Profiles.antt =====
-- The theorems on the launcher profiles, each at a concrete input.
use gatebroker.Prelude.{◌≡◌, refl, String, true, none, some, [], ◌∷◌}
use gatebroker.Result.{ok}
use gatebroker.Json.{Value, str, obj, end, field}
use gatebroker.Cli.Vault.{Vault, success, integrity, update}
use gatebroker.Cli.Cache.Visible.{quiet}
use gatebroker.Cli.Agents.{
  Bytes, Agents, missing, holding, Libraries, document_value, load_agents, save_agents,
}
use gatebroker.Cli.Agents.Returned.{Returned}
use gatebroker.Cli.Agents.RoundTrip.{Loads, save_agents-load}
use gatebroker.Cli.Agents.Sorted.{sorted_keys}
use gatebroker.Cli.Agents.Authentic.{IsAuthentic, load_agents-IsAuthentic}

-- They are not in the order of their names.
abbrev two_agents : Agents
two_agents = ("writer", "claude" ∷ "-p" ∷ []) ∷ ("coder", "codex" ∷ []) ∷ []

abbrev in_order : Agents
in_order = ("coder", "codex" ∷ []) ∷ ("writer", "claude" ∷ "-p" ∷ []) ∷ []

abbrev four : Bytes → Bytes
four bytes = 1 ∷ 2 ∷ 3 ∷ 4 ∷ bytes

abbrev some_bytes : Bytes
some_bytes = four (four (four (four (four (four (four (four [])))))))

-- A document of the two agents is printed as its code.
abbrev print_code : Value → String
print_code (obj (field a agents (field b (str mac) end))) = mac
print_code v = ""

abbrev libraries : Libraries
libraries = record {
  encode = λ bytes. "key";
  decode = λ text. some some_bytes;
  canonical = λ v. "agents";
  dump = print_code;
  loads = λ text. some (document_value in_order text);
  hmac = λ key text. "code";
}

abbrev no_key : Vault
no_key = record { store = λ a. none; outcomes = success ∷ [] }

printed-loads :
    (mac : String)
    → libraries.loads (libraries.dump (document_value (sorted_keys two_agents) mac))
      ≡ some (document_value (sorted_keys two_agents) mac)
unfolding sorted_keys
printed-loads mac = refl

save_agents-load_example :
    Returned
      (λ saved s. Loads two_agents (load_agents libraries true saved (quiet s)) (quiet s))
      (save_agents libraries true some_bytes true true two_agents missing no_key)
save_agents-load_example =
    save_agents-load libraries some_bytes true true two_agents missing no_key
      ((refl, (refl, (refl, tt))), ((refl, (refl, tt)), tt)) printed-loads

two_agents-saved : save_agents libraries true some_bytes true true two_agents missing no_key ≡ (
  ok (holding "code"),
  record { store = update (λ a. none) integrity (some "key"); outcomes = [] },
)
unfolding save_agents gatebroker.Cli.Vault.get_password gatebroker.Cli.Vault.set_password
two_agents-saved = refl

abbrev with_key : Vault
with_key = record { store = λ a. some "key"; outcomes = success ∷ [] }

two_agents-loaded :
    load_agents libraries true (holding "code") with_key
    ≡ (ok in_order, record { store = λ a. some "key"; outcomes = [] })
unfolding load_agents gatebroker.Json.get gatebroker.Cli.Agents.agent_fields
    gatebroker.Cli.Vault.get_password
two_agents-loaded = refl

load_agents-IsAuthentic_example : IsAuthentic libraries (holding "code") in_order (λ a. some "key")
load_agents-IsAuthentic_example =
    load_agents-IsAuthentic libraries true (holding "code") with_key
      (record { store = λ a. some "key"; outcomes = [] }) in_order two_agents-loaded
