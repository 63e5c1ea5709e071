-- ===== src/Cli/Cache/Atomic.antt =====
-- Storing the sign-in state on Windows is atomic, whatever calls of the credential store fail.
use gatebroker.Prelude.{
  ℕ, ◌≡◌, String, Bool, true, false, not, Option, some, List, [], All, leb, length, if◌then◌else◌,
}
use gatebroker.Text.{is_empty}
use gatebroker.Json.{Value}
use gatebroker.Cli.Vault.{
  Store, Vault, primary, insecure, invalid_state, raise_if, set_password, ◌>>◌,
}
use gatebroker.Cli.Chunks.{size, windows_cache_chunk_bytes, split_windows_cache, concat}
use gatebroker.Cli.Chunks.Laws.{split_windows_cache_lem}
use gatebroker.Cli.Manifest.{
  Entry, Manifest, is_generation, manifest_value, windows_cache_manifest,
  windows_cache_manifest_document,
}
use gatebroker.Cli.Manifest.RoundTrip.{IsEntry, windows_cache_manifest-document}
use gatebroker.Cli.Lexer.{contains_windows_manifest_key}
use gatebroker.Cli.Journal.{active_of, embedded_of}
use gatebroker.Cli.Cache.{
  invalid_windows_manifest, store_small, store_large, store_windows_cache, store_cache_unlocked,
  store_cache, write_chunks,
}
use gatebroker.Cli.Cache.Rules.{Keeps-when}
use gatebroker.Cli.Cache.Visible.{Same-refl}
use gatebroker.Cli.Cache.Untouched.{
  IsSpare, Keeps-pending, Keeps-record, Keeps-retry, Keeps-record_active, new_generation-IsSpare,
}
use gatebroker.Cli.Cache.Commit.{
  Settles, Settles-bind, Settles-lift, Settles-raise_if, Settles-get_primary, Settled-commit,
  Settled-chunks,
}
use gatebroker.Cli.Cache.Observed.{IsAtomic, translated-IsAtomic}
use gatebroker.Cli.Cache.Shown.{
  shows_small, shows_large, bare-IsManifest, new_generation-is_generation, in_range-length,
}

module _ (strict_loads : String → Option Value) (dumps : Value → String) where
  -- The text of a manifest: it is not empty, and it parses to what was printed.
  pub record IsPrinted (m : Manifest) : Type 0 where
    pub nonempty : is_empty (dumps (manifest_value m)) ≡ false
    pub parses : strict_loads (dumps (manifest_value m)) ≡ some (manifest_value m)

  -- A text that can be stored, and the generations that may be drawn.
  pub record IsStorable (new : String) (candidates : List String) : Type 0 where
    pub nonempty : is_empty new ≡ false
    pub claims_no_key : contains_windows_manifest_key strict_loads (some new) ≡ false
    pub generations : All (λ g. is_generation g ≡ true) candidates
    pub prints : (g : String) (n : ℕ) → IsEntry (g, n) → IsPrinted (g, n, [])

  module _ (s₀ : Store) (m : Option Manifest) (new : String) (candidates : List String) where
    Settles-small :
        IsStorable new candidates
        → Settles strict_loads dumps m s₀
            (some new)
            (store_small strict_loads dumps (active_of m) new)
    unfolding store_small
    Settles-small h =
        Settles-bind _ _ (Keeps-record_active strict_loads dumps m s₀ (active_of m)) (λ u. record {
          at = λ v k.
              Settled-commit strict_loads dumps m s₀ (some new) new v k
                (shows_small strict_loads dumps v.store new h.nonempty h.claims_no_key);
        })

    Settles-publish :
        (g : String) (cs : List String)
        → IsStorable new candidates
        → IsSpare m g
        → IsEntry (g, length cs)
        → concat cs ≡ new
        → Settles strict_loads dumps m s₀ (some new) (
            write_chunks g 0 cs
            >> set_password primary
                (windows_cache_manifest_document strict_loads dumps (g, length cs, [])))
    unfolding windows_cache_manifest_document
    Settles-publish g cs h i e j = record {
      at = λ v k. Settled-chunks strict_loads dumps m s₀ (some new) g 0 cs _ v i k (λ w l c _.
          Settled-commit strict_loads dumps m s₀ (some new) _ w l (
            shows_large strict_loads dumps w.store new g cs j c (h.prints g (length cs) e).nonempty
              (windows_cache_manifest-document strict_loads dumps (g, length cs, [])
                (bare-IsManifest g (length cs) e) (h.prints g (length cs) e).nonempty
                (h.prints g (length cs) e).parses)));
    }

    Settles-large :
        (pending : List Entry) (cs : List String)
        → IsStorable new candidates
        → concat cs ≡ new
        → Settles strict_loads dumps m s₀
            (some new)
            (store_large strict_loads dumps (active_of m) pending candidates cs)
    unfolding store_large
    Settles-large pending cs h j = Settles-raise_if _ _ _ (λ few. Settles-lift _ _ (λ g e.
        Settles-bind _ _ (Keeps-record strict_loads dumps m s₀ _) (λ u.
          Settles-publish g cs h (new_generation-IsSpare m pending candidates g e)
            (
              new_generation-is_generation _ candidates g h.generations e,
              in_range-length cs new j h.nonempty few,
            )
            j)))

    Settles-fitting :
        (pending : List Entry) (fits : Bool)
        → IsStorable new candidates
        → Settles strict_loads dumps m s₀ (some new) (
            if fits
            then store_small strict_loads dumps (active_of m) new
            else store_large strict_loads dumps
                (active_of m)
                pending
                candidates
                (split_windows_cache new))
    Settles-fitting pending true h = Settles-small h
    Settles-fitting pending false h =
        Settles-large pending (split_windows_cache new) h ((split_windows_cache_lem new).0)

    Settles-store :
        IsStorable new candidates
        → Settles strict_loads dumps m s₀
            (some new)
            (store_windows_cache strict_loads dumps m candidates new)
    unfolding store_windows_cache
    Settles-store h =
        Settles-bind _ _ (Keeps-when _ _ (Keeps-record strict_loads dumps m s₀ (embedded_of m)))
          (λ u. Settles-bind _ _ (Keeps-retry strict_loads dumps m s₀) (λ t.
            Settles-bind _ _ (Keeps-pending strict_loads dumps m s₀)
              (λ pending. Settles-fitting pending (leb (size new) windows_cache_chunk_bytes) h)))

  Settles-unlocked :
      (secure : Bool) (s₀ : Store) (new : String) (candidates : List String)
      → IsStorable new candidates
      → Settles strict_loads dumps
          (windows_cache_manifest strict_loads dumps (s₀ primary))
          s₀
          (some new)
          (store_cache_unlocked strict_loads dumps secure true candidates new)
  unfolding store_cache_unlocked
  Settles-unlocked secure s₀ new candidates h = Settles-raise_if (not secure) insecure _ (λ s.
      Settles-get_primary
        (λ previous.
          raise_if (invalid_windows_manifest strict_loads dumps previous) invalid_state
          >> store_windows_cache strict_loads dumps
              (windows_cache_manifest strict_loads dumps previous) candidates new)
        (Settles-raise_if (invalid_windows_manifest strict_loads dumps (s₀ primary)) invalid_state _
          (λ i. Settles-store s₀ _ new candidates h)))

  -- Storing a sign-in state on Windows is atomic: whichever calls of the credential store raise,
  -- before or after they took effect, and wherever the process ends, a reader is given what it was
  -- given before or the new text, and the new text where `_store_cache` returned. The text must not be
  -- empty nor claim the manifest's key, the generations drawn have 32 digits, and the text of a
  -- manifest is not empty and parses to what was printed.
  pub store_cache-IsAtomic :
      (secure : Bool) (candidates : List String) (new : String) (v : Vault)
      → IsStorable new candidates
      → IsAtomic strict_loads dumps v.store
          (some new)
          (store_cache strict_loads dumps secure true candidates new v)
  unfolding store_cache
  store_cache-IsAtomic secure candidates new v h =
      translated-IsAtomic strict_loads dumps v.store (some new) _
        ((Settles-unlocked secure v.store new candidates h).at v (Same-refl _ v.store))
