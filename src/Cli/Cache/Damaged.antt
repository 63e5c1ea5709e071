-- ===== src/Cli/Cache/Damaged.antt =====
-- A manifest that was cut off, or damaged behind its key, is not handed to MSAL as a cache.
use Prim.Native.String.{[], ◌∷◌, ◌++◌}
use gatebroker.Prelude.{
  ◌≡◌, refl, ◌⊎◌, String, Bool, true, false, if◌then◌else◌, Option, none, some,
}
use gatebroker.Result.{err}
use gatebroker.Text.{is_empty}
use gatebroker.Json.{Value}
use gatebroker.Cli.Vault.{Vault, invalid_state}
use gatebroker.Cli.Manifest.{Manifest, windows_cache_manifest_key, windows_cache_manifest}
use gatebroker.Cli.Lexer.Truncated.{brace, quote, contains_windows_manifest_key_of_damaged}
use gatebroker.Cli.Cache.{invalid_windows_manifest, load_windows_chunked_cache_unlocked}

abbrev nothing : Option Manifest
nothing = none

same : (b : Bool) → (if b then none else none) ≡ nothing
same true = refl
same false = refl

module _ (strict_loads : String → Option Value) (dumps : Value → String) where
  not_a_manifest :
      (text : String)
      → strict_loads text ≡ none
      → windows_cache_manifest strict_loads dumps (some text) ≡ none
  unfolding windows_cache_manifest
  not_a_manifest text h = rw h (same (is_empty text))

  -- A text that does not parse, begins with a brace, a quote and a part of the manifest's key that is
  -- not empty, and ends there, or has the whole key and a closing quote there, is refused as an
  -- invalid state when the cache is read, and nothing is read or changed in the credential store.
  pub load_windows_chunked_cache_unlocked_of_damaged :
      (p q s : String) (v : Vault)
      → windows_cache_manifest_key ≡ p ++ q
      → is_empty p ≡ false
      → strict_loads (brace ∷ quote ∷ (p ++ s)) ≡ none
      → (s ≡ []) ⊎ ((q ≡ []) × ((rest : String) × (s ≡ quote ∷ rest)))
      → load_windows_chunked_cache_unlocked strict_loads dumps (brace ∷ quote ∷ (p ++ s)) v
        ≡ (err invalid_state, v)
  unfolding load_windows_chunked_cache_unlocked invalid_windows_manifest
  load_windows_chunked_cache_unlocked_of_damaged p q s v e n h which =
      rw (not_a_manifest (brace ∷ quote ∷ (p ++ s)) h) (
        rw (contains_windows_manifest_key_of_damaged strict_loads p q s e n h which)
          (rw (not_a_manifest (brace ∷ quote ∷ (p ++ s)) h) refl))
