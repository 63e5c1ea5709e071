-- ===== src/Cli/Agents/RoundTrip.antt =====
-- What is saved is loaded again.
use mathlib.Core.Path.{subst}
use gatebroker.Prelude.{
  String, ◌≡◌, refl, sym, ap, Bool, true, false, not, some, List, [], ◌∷◌, All, eq_refl,
}
use mathlib.Core.List.{Perm}
use gatebroker.Result.{Result, ok}
use gatebroker.Text.{is_empty}
use gatebroker.Json.{arr, get}
use gatebroker.Cli.Vault.{Store, Vault, Failure, keyring_error, cannot_save_agents, raise_if}
use gatebroker.Cli.Cache.Visible.{quiet}
use gatebroker.Cli.Agents.{
  Bytes, Agents, File, holding, Libraries, agents_mac, agents_in, agent_fields, arguments_of,
  argument_values, command_of, agents_value, document_value, profile_integrity_key, checked_agents,
  load_agents, save_agents, written,
}
use gatebroker.Cli.Agents.Sorted.{
  IsSorted, sorted_keys, sorted_keys-IsSorted, sorted_keys_of_IsSorted, sorted_keys-Perm,
  sorted_keys-All,
}
use gatebroker.Cli.Agents.Returned.{
  HasKey, Returned, Returned-then, Returned-mono, Returned-raise_if, Returned-relabelled,
  Returned-profile_integrity_key, profile_integrity_key-stored,
}

-- A command that can be configured: some arguments, none of them empty.
abbrev pub IsCommand : List String → Type 0
IsCommand [] = ⊥
IsCommand (a ∷ arguments) = All (λ s. is_empty s ≡ false) (a ∷ arguments)

abbrev pub IsAgent : (String × List String) → Type 0
IsAgent (name, command) = (is_empty name ≡ false) × IsCommand command

-- A result that is the agents, in the order of their names.
abbrev pub Loads : Agents → Result Failure Agents × Vault → Vault → Type 0
Loads agents r v = (loaded : Agents) × (r ≡ (ok loaded, v)) × Perm loaded agents × IsSorted loaded

arguments_of-argument_values :
    (arguments : List String)
    → All (λ s. is_empty s ≡ false) arguments
    → arguments_of (argument_values arguments) ≡ some arguments
unfolding arguments_of argument_values
arguments_of-argument_values [] h = refl
arguments_of-argument_values (a ∷ arguments) (e, h) =
    rw (arguments_of-argument_values arguments h) (rw e refl)

command_of-argument_values :
    (command : List String)
    → IsCommand command
    → command_of (arr (argument_values command)) ≡ some command
unfolding argument_values
command_of-argument_values [] h = absurd h
command_of-argument_values (a ∷ arguments) (e, h) =
    rw (arguments_of-argument_values arguments h) (rw e refl)

agents_in-agent_fields :
    (agents : Agents) → All IsAgent agents → agents_in (agent_fields agents) ≡ some agents
unfolding agents_in agent_fields
agents_in-agent_fields [] h = refl
agents_in-agent_fields ((name, command) ∷ agents) ((e, c), h) =
    rw (agents_in-agent_fields agents h) (rw (command_of-argument_values command c) (rw e refl))

module _ (l : Libraries) where
  -- What is saved: the document with the code of its agents under the stored key.
  abbrev pub IsSaved : Agents → File → Store → Type 0
  IsSaved agents file s =
      (key : Bytes) × HasKey l key s
      × (file ≡ holding (l.dump (document_value (sorted_keys agents) (agents_mac l agents key))))

  Returned-written :
      (b : Bool) (text : String) (file : File) (v : Vault)
      → Returned (λ f s. (f ≡ holding text) × (s ≡ v.store)) (written b text file v)
  unfolding Returned
  Returned-written true text file v = (refl, refl)
  Returned-written false text file v = tt

  Returned-save_agents :
      (random : Bytes) (is_safe is_replaced : Bool) (agents : Agents) (file : File) (v : Vault)
      → Returned (IsSaved agents) (save_agents l true random is_safe is_replaced agents file v)
  unfolding save_agents
  Returned-save_agents random is_safe is_replaced agents file v =
      Returned-relabelled (IsSaved agents) cannot_save_agents _ (
        Returned-then (λ u s. not is_safe ≡ false) (IsSaved agents)
          (raise_if (not is_safe) keyring_error v) _
          (Returned-raise_if (not is_safe) keyring_error v)
          (λ u w h.
            Returned-then (HasKey l) (IsSaved agents) (profile_integrity_key l true true random w) _
              (Returned-profile_integrity_key l true true random w)
              (λ key x k.
                Returned-mono _ (IsSaved agents) _
                  (Returned-written is_replaced
                    (l.dump (document_value (sorted_keys agents) (agents_mac l agents key))) file x)
                  (λ f s e. (key, subst (HasKey l key) (sym e.1) k, e.0)))))

  -- The code does not depend on the order of the agents.
  agents_mac-sorted_keys :
      (agents : Agents) (key : Bytes)
      → agents_mac l (sorted_keys agents) key ≡ agents_mac l agents key
  agents_mac-sorted_keys agents key =
      ap (λ xs. l.hmac key (l.canonical (agents_value xs)))
        (sorted_keys_of_IsSorted (sorted_keys agents) (sorted_keys-IsSorted agents))

  load_saved :
      (agents : Agents) (file : File) (s : Store)
      → All IsAgent agents
      → ((mac : String)
          → l.loads (l.dump (document_value (sorted_keys agents) mac))
            ≡ some (document_value (sorted_keys agents) mac))
      → IsSaved agents file s
      → load_agents l true file (quiet s) ≡ (ok (sorted_keys agents), quiet s)
  unfolding load_agents get checked_agents
  load_saved agents file s h p (key, k, e) = rw e (
      rw (p (agents_mac l agents key)) (
        rw (agents_in-agent_fields (sorted_keys agents) (sorted_keys-All IsAgent agents h)) (
          rw (profile_integrity_key-stored l key s k) (
            rw (agents_mac-sorted_keys agents key) (rw (eq_refl (agents_mac l agents key)) refl)))))

  -- Agents that were saved are loaded again from the new file and the store left behind, sorted by
  -- name and the same but for their order, where the keyring is secure and answers every call of the
  -- load, no name, command or argument is empty and the sorted document parses to what was printed.
  pub save_agents-load :
      (random : Bytes) (is_safe is_replaced : Bool) (agents : Agents) (file : File) (v : Vault)
      → All IsAgent agents
      → ((mac : String)
          → l.loads (l.dump (document_value (sorted_keys agents) mac))
            ≡ some (document_value (sorted_keys agents) mac))
      → Returned
          (λ saved s. Loads agents (load_agents l true saved (quiet s)) (quiet s))
          (save_agents l true random is_safe is_replaced agents file v)
  save_agents-load random is_safe is_replaced agents file v h p =
      Returned-mono (IsSaved agents) _ _
        (Returned-save_agents random is_safe is_replaced agents file v)
        (λ saved s e. (
          sorted_keys agents,
          load_saved agents saved s h p e,
          sorted_keys-Perm agents,
          sorted_keys-IsSorted agents,
        ))
