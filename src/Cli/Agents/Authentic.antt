-- ===== src/Cli/Agents/Authentic.antt =====
-- What is loaded was authenticated.
use gatebroker.Prelude.{
  String, ◌≡◌, refl, inl, inr, arith, Bool, false, not, Option, some, [], eq_iff, Bool-cases,
}
use gatebroker.Result.{ok}
use gatebroker.Json.{Value, str, obj, Fields, get}
use gatebroker.Cli.Vault.{Store, Vault, keyring_error, invalid_agents, pure, raise_if, ◌>>◌}
use gatebroker.Cli.Journal.{or_raise}
use gatebroker.Cli.Agents.{
  Bytes, Agents, File, missing, refused_file, holding, Libraries, agents_mac, agents_of,
  profile_integrity_key, checked_agents, load_document, load_agents, has_mac, is_mac,
}
use gatebroker.Cli.Agents.Returned.{
  Returned-ok, HasKey, Returned, Returned-then, Returned-mono, Returned-or_raise, Returned-raise_if,
  Returned-relabelled, Returned-profile_integrity_key,
}

module _ (l : Libraries) where
  -- What agents that are used rest on: there is no file, or its document has the code of the agents
  -- under the key that stands in the credential store.
  pub data IsAuthentic (file : File) (agents : Agents) (s : Store) : Type 0 where
    without_file : file ≡ missing → agents ≡ [] → IsAuthentic file agents s
    with_code :
        (text : String) (document : Fields) (key : Bytes)
        → file ≡ holding text
        → l.loads text ≡ some (obj document)
        → agents_of (get "agents" document) ≡ some agents
        → get "mac" document ≡ some (str (agents_mac l agents key))
        → HasKey l key s
        → IsAuthentic file agents s

  is_mac-text : (o : Option Value) (mac : String) → not (is_mac o mac) ≡ false → o ≡ some (str mac)
  is_mac-text (some (str s)) mac h = ground (arith, eq_iff s mac)
  is_mac-text o mac h = ground arith

  compared :
      (mac : Option Value) (agents : Agents) (key : Bytes) (v : Vault)
      → HasKey l key v.store
      → Returned
          (λ a s.
            (a ≡ agents)
            × ((key : Bytes) × HasKey l key s × (mac ≡ some (str (agents_mac l agents key)))))
          ((raise_if (not (is_mac mac (agents_mac l agents key))) keyring_error >> pure agents) v)
  unfolding Returned
  compared mac agents key v k = elim (Bool-cases (not (is_mac mac (agents_mac l agents key)))) [
    | inl e ↦ rw e tt
    | inr e ↦ rw e ((refl, (key, k, is_mac-text mac (agents_mac l agents key) e)))
  ]

  Returned-checked_agents :
      (secure : Bool) (mac : Option Value) (agents : Agents) (v : Vault)
      → Returned
          (λ a s.
            (a ≡ agents)
            × ((key : Bytes) × HasKey l key s × (mac ≡ some (str (agents_mac l agents key)))))
          (checked_agents l secure mac agents v)
  unfolding checked_agents
  Returned-checked_agents secure mac agents v =
      Returned-then (λ u s. not (has_mac mac) ≡ false) _
        (raise_if (not (has_mac mac)) keyring_error v) _
        (Returned-raise_if (not (has_mac mac)) keyring_error v)
        (λ u w h.
          Returned-then (HasKey l) _ (profile_integrity_key l secure false [] w) _
            (Returned-profile_integrity_key l secure false [] w)
            (λ key x k. compared mac agents key x k))

  loaded :
      (secure : Bool) (text : String) (o : Option Value) (v : Vault)
      → l.loads text ≡ o
      → Returned (IsAuthentic (holding text)) (load_document l secure o v)
  unfolding Returned
  loaded secure text (some (obj document)) v e =
      Returned-then (λ agents t. agents_of (get "agents" document) ≡ some agents)
        (IsAuthentic (holding text)) (or_raise (agents_of (get "agents" document)) keyring_error v)
        _ (Returned-or_raise _ (agents_of (get "agents" document)) keyring_error v (λ a i. i))
        (λ agents w i.
          Returned-mono
            (λ a t.
              (a ≡ agents)
              × ((key : Bytes) × HasKey l key t
                  × (get "mac" document ≡ some (str (agents_mac l agents key)))))
            (IsAuthentic (holding text)) _
            (Returned-checked_agents secure (get "mac" document) agents w)
            (λ a t (same, (key, k, mac)).
              with_code text document key refl e (rw same i) (rw same mac) k))
  loaded secure text o v e = tt

  Returned-load_agents :
      (secure : Bool) (file : File) (v : Vault)
      → Returned (IsAuthentic file) (load_agents l secure file v)
  unfolding load_agents Returned
  Returned-load_agents secure missing v = without_file refl refl
  Returned-load_agents secure refused_file v = tt
  Returned-load_agents secure (holding text) v =
      Returned-relabelled (IsAuthentic (holding text)) invalid_agents _
        (loaded secure text (l.loads text) v refl)

  -- Agents that are loaded are those of no file, or their document's code is theirs under the key of
  -- the credential store.
  pub load_agents-IsAuthentic :
      (secure : Bool) (file : File) (v w : Vault) (agents : Agents)
      → load_agents l secure file v ≡ (ok agents, w)
      → IsAuthentic file agents w.store
  load_agents-IsAuthentic secure file v w agents h =
      Returned-ok (IsAuthentic file) _ agents w (Returned-load_agents secure file v) h
