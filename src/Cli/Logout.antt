-- ===== src/Cli/Logout.antt =====
-- `logout`: the removal of the stored sign-in state. What it prints is not modelled.
pub mod Atomic
use gatebroker.Prelude.{
  ℕ, String, Bool, true, false, not, Option, none, some, List, [], ◌∷◌, if◌then◌else◌,
}
use gatebroker.Json.{Value}
use gatebroker.Cli.Vault.{
  primary, cleanup, Action, pure, raise_if, ◌>>=◌, ◌>>◌, present, get_password, delete_password,
  invalid_state, unavailable, insecure,
}
use gatebroker.Cli.Manifest.{Entry, Manifest, windows_cache_manifest}
use gatebroker.Cli.Journal.{
  lift, translate, when, is_nonempty, pending_windows_cache_cleanup, merge_windows_cache_entries,
  write_windows_cache_cleanup, delete_windows_cache_manifest_entries,
}
use gatebroker.Cli.Cache.{invalid_windows_manifest}

-- The entries that a manifest names.
abbrev pub entries_of : Option Manifest → List Entry
entries_of none = []
entries_of (some (g, n, es)) = (g, n) ∷ es

-- `strict_loads` is `_strict_json_loads`, with `none` where it raises; `dumps` is `json.dumps`.
module _ (strict_loads : String → Option Value) (dumps : Value → String) where
  -- What is done once the primary credential is gone.
  pub remove_entries : List Entry → Action (Unit {0})
  remove_entries entries = do
    failed ← delete_windows_cache_manifest_entries entries
    when (is_nonempty failed) (write_windows_cache_cleanup strict_loads dumps failed)
    raise_if (is_nonempty failed) unavailable
    when (is_nonempty entries) (delete_password cleanup)

  pub remove_all : Option String → List Entry → Action (Unit {0})
  unfolding remove_entries
  remove_all serialized entries = do
    when (is_nonempty entries) (write_windows_cache_cleanup strict_loads dumps entries)
    when (present serialized) (delete_password primary)
    remove_entries entries

  abbrev pub is_nothing : Option String → List Entry → Bool
  is_nothing none [] = true
  is_nothing serialized entries = false

  pub remove_listed : Option String → List Entry → Action (Unit {0})
  unfolding remove_all
  remove_listed serialized pending = do
    entries ← lift (
        merge_windows_cache_entries
          (pending ∷ entries_of (windows_cache_manifest strict_loads dumps serialized) ∷ []))
    (if is_nothing serialized entries then pure tt else remove_all serialized entries)

  -- What follows the reading of the primary credential.
  pub remove_state : Option String → Action (Unit {0})
  unfolding remove_listed
  remove_state serialized = do
    raise_if (invalid_windows_manifest strict_loads dumps serialized) invalid_state
    pending ← pending_windows_cache_cleanup strict_loads dumps
    remove_listed serialized pending

  unfoldable pub logout_windows : Action (Unit {0})
  unfolding remove_state
  logout_windows = do serialized ← get_password primary; remove_state serialized

  abbrev pub logout_other : Action (Unit {0})
  logout_other = do
    serialized ← get_password primary
    when (present serialized) (delete_password primary)

  unfoldable pub logout : Bool → Bool → Action (Unit {0})
  unfolding logout_windows
  logout secure windows =
      translate
        (do raise_if (not secure) insecure; (if windows then logout_windows else logout_other))
