-- ===== src/Cli/Cache/Shown.antt =====
-- What a text shows that stands in the primary credential, and which generations and counts are valid.
use gatebroker.Prelude.{
  ℕ, ◌≡◌, refl, ap, arith, inl, inr, String, Bool, true, false, Bool-cases, Option, none, some,
  List, [], ◌∷◌, All, ltb, length, map, if◌then◌else◌,
}
use gatebroker.Result.{Result, ok}
use gatebroker.Text.{is_empty}
use gatebroker.Json.{Value, obj}
use gatebroker.Cli.Vault.{
  Store, Vault, primary, chunk, Failure, keyring_error, insecure, invalid_state, cannot_save,
  unavailable, Action, raise_if, update, set_password, get_password, ◌>>◌,
}
use gatebroker.Cli.Chunks.{concat}
use gatebroker.Cli.Manifest.{
  Entry, Manifest, is_generation, in_range, manifest_of, manifest_value, keys_in,
  windows_cache_manifest_key, windows_cache_max_chunks, windows_cache_manifest,
  windows_cache_manifest_document,
}
use gatebroker.Cli.Manifest.RoundTrip.{IsEntry, IsManifest}
use gatebroker.Cli.Lexer.{contains_windows_manifest_key, claims_key}
use gatebroker.Cli.Cache.{
  all_present, invalid_windows_manifest, new_windows_cache_generation,
  load_windows_chunked_cache_unlocked, read_cache,
}
use gatebroker.Cli.Cache.Visible.{chunks_at-same, read_chunks-quiet, visible}
use gatebroker.Cli.Cache.Commit.{Written, chunks_at-Written}

all_present-some : (cs : List String) → all_present (map some cs) ≡ some cs
all_present-some [] = refl
all_present-some (c ∷ cs) = rw (all_present-some cs) refl

-- Where a text does not claim the manifest's key, it is no manifest.
manifest_of-claims_key :
    (strict_loads : String → Option Value) (text : String) (v : Option Value)
    → claims_key strict_loads text v ≡ false
    → manifest_of v ≡ none
unfolding gatebroker.Cli.Manifest.has_keys gatebroker.Cli.Manifest.has_all
manifest_of-claims_key loads text none h = refl
manifest_of-claims_key loads text (some (obj fs)) h =
    rw h (elim (Bool-cases (keys_in (windows_cache_manifest_key ∷ []) fs)) [
      | inl e ↦ rw e refl
      | inr e ↦ rw e refl
    ])
manifest_of-claims_key loads text (some v) h = refl

-- A manifest with no cleanup list.
pub bare-IsManifest : (g : String) (n : ℕ) → IsEntry (g, n) → IsManifest (g, n, [])
unfolding gatebroker.Cli.Manifest.is_duplicate_free gatebroker.Cli.Manifest.consistent_from
    gatebroker.Cli.Manifest.count_in
bare-IsManifest g n e = record {
  active = e;
  cleanup = record { entries = tt; distinct = refl; few = refl };
  consistent = refl;
}

pick-is_generation :
    (c g : String) (b : Bool) (rest : Result Failure String)
    → is_generation c ≡ true
    → (rest ≡ ok g → is_generation g ≡ true)
    → (if b then rest else ok c) ≡ ok g
    → is_generation g ≡ true
pick-is_generation c g true rest h k e = k e
pick-is_generation c g false rest h k e = ground arith

pub new_generation-is_generation :
    (es : List Entry) (cs : List String) (g : String)
    → All (λ c. is_generation c ≡ true) cs
    → new_windows_cache_generation es cs ≡ ok g
    → is_generation g ≡ true
unfolding new_windows_cache_generation
new_generation-is_generation es [] g h e = ground arith
new_generation-is_generation es (c ∷ cs) g (h, hs) e =
    pick-is_generation c g _ _ h (new_generation-is_generation es cs g hs) e

-- The number of chunks of a text that is not empty is a valid count, where they are not too many.
pub in_range-length :
    (cs : List String) (new : String)
    → concat cs ≡ new
    → is_empty new ≡ false
    → ltb windows_cache_max_chunks (length cs) ≡ false
    → in_range (length cs) ≡ true
in_range-length [] new j e f = ground (arith, ap is_empty j)
in_range-length (c ∷ cs) new j e f = ground arith

module _ (strict_loads : String → Option Value) (dumps : Value → String) where
  not_manifest :
      (text : String)
      → contains_windows_manifest_key strict_loads (some text) ≡ false
      → windows_cache_manifest strict_loads dumps (some text) ≡ none
  unfolding contains_windows_manifest_key windows_cache_manifest
  not_manifest text h = elim (Bool-cases (is_empty text)) [
    | inl e ↦ rw e refl
    | inr e ↦ rw e (manifest_of-claims_key strict_loads text (strict_loads text) h)
  ]

  -- What a text shows once it stands in the primary credential: itself, where it claims no key.
  pub shows_small :
      (s : Store) (new : String)
      → is_empty new ≡ false
      → contains_windows_manifest_key strict_loads (some new) ≡ false
      → visible strict_loads dumps (update s primary (some new)) ≡ ok (some new)
  unfolding visible read_cache get_password load_windows_chunked_cache_unlocked
      invalid_windows_manifest gatebroker.Cli.Vault.same_account
  shows_small s new e c =
      rw (e, visible)
        (rw (not_manifest new c, load_windows_chunked_cache_unlocked)
          (rw (c, invalid_windows_manifest) (rw e refl)))

  -- A manifest shows the chunks it names.
  pub shows_large :
      (s : Store) (new : String) (g : String) (cs : List String)
      → concat cs ≡ new
      → Written g 0 cs s
      → is_empty (windows_cache_manifest_document strict_loads dumps (g, length cs, [])) ≡ false
      → windows_cache_manifest strict_loads dumps
          (some (windows_cache_manifest_document strict_loads dumps (g, length cs, [])))
        ≡ some (g, length cs, [])
      → visible strict_loads dumps (
          update s primary
            (some (windows_cache_manifest_document strict_loads dumps (g, length cs, []))))
        ≡ ok (some new)
  unfolding visible read_cache get_password load_windows_chunked_cache_unlocked
      gatebroker.Cli.Vault.same_account
  shows_large s new g cs j w e m =
      rw (e, visible)
        (rw (m, load_windows_chunked_cache_unlocked)
          (rw (read_chunks-quiet (update s primary _) g 0 (length cs)) (
            rw (chunks_at-same s (update s primary _) g 0 (length cs) (λ i. refl)) (
              rw (chunks_at-Written g 0 cs s w)
                (rw (all_present-some cs) (ap (λ t. ok (some t)) j))))))
