-- ===== src/Runtime/Readiness.antt =====
-- `keys_are_resolvable` and `readiness` of `create_runtime_app`.
pub mod Keys
use gatebroker.Prelude.{
  ℕ, String, Bool, true, false, not, ◌&&◌, Option, none, some, List, [], ◌∷◌, map, if◌then◌else◌,
}
use gatebroker.Text.{is_empty, strip}
use gatebroker.Policy.{Policy, unique}
use gatebroker.Forwarding.Handler.{Resolved, key_text, not_a_text}

abbrev pub is_usable : Resolved → Bool
is_usable (Resolved.raised name) = false
is_usable (key_text key) = not (is_empty key)
is_usable not_a_text = false

-- `resolve_key` is the key source.
module _ (resolve_key : String → Resolved) where
  -- The loop over the required keys.
  pub keys_are_resolvable : List String → Bool
  keys_are_resolvable [] = true
  keys_are_resolvable (name ∷ names) =
      let rest = keys_are_resolvable names in if is_usable (resolve_key name) then rest else false

  pub required_keys : List Policy → List String
  required_keys policies = unique (map (λ (p : Policy). p.key_ref) policies)

  -- The status code of `/readyz`; `verifier_ready` is what the verifier answers.
  unfoldable pub readiness : Bool → List Policy → ℕ
  unfolding keys_are_resolvable required_keys
  readiness verifier_ready policies =
      if verifier_ready && keys_are_resolvable (required_keys policies) then 200 else 503
