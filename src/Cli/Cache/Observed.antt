-- ===== src/Cli/Cache/Observed.antt =====
-- What an operation on the store promises to a reader.
use gatebroker.Prelude.{◌≡◌, ◌⊎◌, inl, inr, String, Option}
use gatebroker.Result.{Result, ok, err}
use gatebroker.Json.{Value}
use gatebroker.Cli.Vault.{
  Store, Vault, primary, Failure, keyring_error, insecure, invalid_agents, cannot_save_agents,
  invalid_state, cannot_save, unavailable,
}
use gatebroker.Cli.Manifest.{windows_cache_manifest}
use gatebroker.Cli.Journal.{translated}
use gatebroker.Cli.Cache.Visible.{Same, visible, visible-Same}
use gatebroker.Cli.Cache.Commit.{Settled}

module _ (strict_loads : String → Option Value) (dumps : Value → String) where
  -- What a reader is given after a call that started at a store: the new state where it returned, the
  -- old or the new one where it raised.
  unfoldable pub IsAtomic : Store → Option String → Result Failure (Unit {0}) × Vault → Type 0
  IsAtomic before new (ok u, v) = visible strict_loads dumps v.store ≡ ok new
  IsAtomic before new (err e, v) =
      (visible strict_loads dumps v.store ≡ visible strict_loads dumps before)
      ⊎ (visible strict_loads dumps v.store ≡ ok new)

  raised_atomic :
      (before : Store) (new : Option String) (v : Vault)
      → Same (windows_cache_manifest strict_loads dumps (before primary)) before v.store
        ⊎ (visible strict_loads dumps v.store ≡ ok new)
      → (visible strict_loads dumps v.store ≡ visible strict_loads dumps before)
        ⊎ (visible strict_loads dumps v.store ≡ ok new)
  raised_atomic before new v (inl h) = inl (visible-Same strict_loads dumps before v.store h)
  raised_atomic before new v (inr h) = inr h

  pub translated-IsAtomic :
      (before : Store) (new : Option String) (r : Result Failure (Unit {0}) × Vault)
      → Settled strict_loads dumps
          (windows_cache_manifest strict_loads dumps (before primary))
          before
          new
          r
      → IsAtomic before new (translated r)
  unfolding Settled IsAtomic
  translated-IsAtomic before new (ok u, v) h = h
  translated-IsAtomic before new (err keyring_error, v) h = raised_atomic before new v h
  translated-IsAtomic before new (err invalid_state, v) h = raised_atomic before new v h
  translated-IsAtomic before new (err cannot_save, v) h = raised_atomic before new v h
  translated-IsAtomic before new (err unavailable, v) h = raised_atomic before new v h
  translated-IsAtomic before new (err insecure, v) h = raised_atomic before new v h
  translated-IsAtomic before new (err invalid_agents, v) h = raised_atomic before new v h
  translated-IsAtomic before new (err cannot_save_agents, v) h = raised_atomic before new v h
