-- ===== src/Cli/Agents.antt =====
-- The launcher profiles: `_load_agents`, `_save_agents` and the key of their integrity.
pub mod Sorted
pub mod Returned
pub mod RoundTrip
pub mod Authentic
use gatebroker.Prelude.{
  ℕ, String, Bool, true, false, not, ◌&&◌, ◌||◌, ◌==◌, Option, none, some, List, [], ◌∷◌, length,
  str_eq, if◌then◌else◌,
}
use gatebroker.Result.{Result, ok, err}
use gatebroker.Text.{is_empty}
use gatebroker.Json.{Value, str, obj, arr, Items, nil, cons, Fields, end, field, get}
use gatebroker.Cli.Vault.{
  integrity, Vault, Failure, keyring_error, insecure, invalid_agents, cannot_save_agents, Action,
  pure, raise, raise_if, then_do, ◌>>=◌, ◌>>◌, get_password, set_password,
}
use gatebroker.Cli.Journal.{lift, or_raise}
use gatebroker.Cli.Agents.Sorted.{sorted_keys}

abbrev pub Bytes : Type 0
Bytes = List ℕ

-- A name and its command.
abbrev pub Agents : Type 0
Agents = List (String × List String)

abbrev pub cons_argument : Value → Option (List String) → Option (List String)
cons_argument (str s) (some arguments) = if is_empty s then none else some (s ∷ arguments)
cons_argument v arguments = none

pub arguments_of : Items → Option (List String)
arguments_of nil = some []
arguments_of (cons v vs) = cons_argument v (arguments_of vs)

-- A command is a list that is not empty, of texts that are not empty.
abbrev pub command_of : Value → Option (List String)
command_of (arr (cons v vs)) = cons_argument v (arguments_of vs)
command_of v = none

abbrev pub cons_agent : String → Option (List String) → Option Agents → Option Agents
cons_agent name (some command) (some agents) =
    if is_empty name then none else some ((name, command) ∷ agents)
cons_agent name command agents = none

unfoldable pub agents_in : Fields → Option Agents
unfolding arguments_of
agents_in end = some []
agents_in (field name v fs) = cons_agent name (command_of v) (agents_in fs)

abbrev pub agents_of : Option Value → Option Agents
agents_of (some (obj fs)) = agents_in fs
agents_of v = none

pub argument_values : List String → Items
argument_values [] = nil
argument_values (a ∷ arguments) = cons (str a) (argument_values arguments)

unfoldable pub agent_fields : Agents → Fields
unfolding argument_values
agent_fields [] = end
agent_fields ((name, command) ∷ agents) =
    field name (arr (argument_values command)) (agent_fields agents)

abbrev pub agents_value : Agents → Value
agents_value agents = obj (agent_fields agents)

abbrev pub document_value : Agents → String → Value
document_value agents mac = obj (field "agents" (agents_value agents) (field "mac" (str mac) end))

-- The file: it is not there, it is refused or cannot be read, or it holds a text.
pub data File : Type 0 where
  missing refused_file : File
  holding : String → File

-- Python's libraries: `encode` and `decode` are those of URL-safe base64, `canonical` and `dump` the two
-- ways in which documents are printed, in the order of their fields, `dump` with the new line at the
-- end, `loads` is `json.load`, and `hmac` the hexadecimal digest under a key.
pub record Libraries : Type 0 where
  pub encode : Bytes → String
  pub decode : String → Option Bytes
  pub canonical : Value → String
  pub dump : Value → String
  pub loads : String → Option Value
  pub hmac : Bytes → String → String

-- `sort_keys=True` is `sorted_keys`: the other fields of the documents stand in order.
abbrev pub agents_mac : Libraries → Agents → Bytes → String
agents_mac l agents key = l.hmac key (l.canonical (agents_value (sorted_keys agents)))

abbrev pub checked_key : Libraries → String → Result Failure Bytes
checked_key l encoded = elim (l.decode encoded) [
  | none ↦ err keyring_error
  | some key ↦ (if length key == 32 then ok key else err keyring_error)
]

abbrev pub stored_or_new : Libraries → Bool → Bytes → Option String → Action String
stored_or_new l create random (some encoded) = pure encoded
stored_or_new l false random none = raise keyring_error
stored_or_new l true random none = do
  set_password integrity (l.encode random)
  pure (l.encode random)

-- `_profile_integrity_key`; `random` is what `secrets.token_bytes` returns.
pub profile_integrity_key : Libraries → Bool → Bool → Bytes → Action Bytes
profile_integrity_key l secure create random = do
  raise_if (not secure) insecure
  stored ← get_password integrity
  encoded ← stored_or_new l create random stored
  lift (checked_key l encoded)

-- `except ... as error: raise click.ClickException`
abbrev pub raised_as : Failure → Failure → Failure
raised_as f keyring_error = f
raised_as f e = e

abbrev pub relabelled : {A : Type 0} → Failure → Result Failure A × Vault → Result Failure A × Vault
relabelled f (ok a, v) = (ok a, v)
relabelled f (err e, v) = (err (raised_as f e), v)

abbrev pub relabel : {A : Type 0} → Failure → Action A → Action A
relabel f m v = relabelled f (m v)

abbrev pub is_mac : Option Value → String → Bool
is_mac (some (str s)) mac = str_eq s mac
is_mac v mac = false

-- The check of a document's integrity. `compare_digest` is only reached for a `mac` that is a text, but
-- the key is read only then too.
abbrev pub has_mac : Option Value → Bool
has_mac (some (str s)) = true
has_mac v = false

unfoldable pub checked_agents : Libraries → Bool → Option Value → Agents → Action Agents
unfolding profile_integrity_key
checked_agents l secure mac agents = do
  raise_if (not (has_mac mac)) keyring_error
  key ← profile_integrity_key l secure false []
  raise_if (not (is_mac mac (agents_mac l agents key))) keyring_error
  pure agents

abbrev pub load_document : Libraries → Bool → Option Value → Action Agents
load_document l secure (some (obj document)) = do
  agents ← or_raise (agents_of (get "agents" document)) keyring_error
  checked_agents l secure (get "mac" document) agents
load_document l secure v = raise keyring_error

abbrev pub load_file : Libraries → Bool → File → Action Agents
load_file l secure missing = pure []
load_file l secure refused_file = raise keyring_error
load_file l secure (holding text) = load_document l secure (l.loads text)

-- `_load_agents`
unfoldable pub load_agents : Libraries → Bool → File → Action Agents
unfolding checked_agents agents_in
load_agents l secure file = relabel invalid_agents (load_file l secure file)

-- `_save_agents`, with the new file. `is_safe` says whether the directory can be used, `is_replaced`
-- whether the new file took the place of the old one, as a whole.
abbrev pub written : Bool → String → File → Action File
written true text file = pure (holding text)
written false text file = raise keyring_error

unfoldable pub save_agents : Libraries → Bool → Bytes → Bool → Bool → Agents → File → Action File
unfolding profile_integrity_key agent_fields
save_agents l secure random is_safe is_replaced agents file = relabel cannot_save_agents (do
  raise_if (not is_safe) keyring_error
  key ← profile_integrity_key l secure true random
  written is_replaced (l.dump (document_value (sorted_keys agents) (agents_mac l agents key))) file)
