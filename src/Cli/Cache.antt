-- ===== src/Cli/Cache.antt =====
-- The cached sign-in state: how it is stored, in chunks on Windows, how it is read and cleaned up.
-- The lock that a process holds meanwhile is not modelled: the actions of one holder follow each
-- other.
pub mod Rules
pub mod Visible
pub mod Untouched
pub mod Commit
pub mod Shown
pub mod Observed
pub mod Atomic
pub mod Damaged
use gatebroker.Prelude.{
  ℕ, zero, suc, ◌+◌, String, Bool, true, false, not, ◌&&◌, ◌||◌, Option, none, some, List, [], ◌∷◌,
  ◌++◌, ◌==◌, leb, ltb, any, filter, length, map, str_eq, if◌then◌else◌,
}
use gatebroker.Result.{Result, ok, err}
use gatebroker.Text.{is_empty}
use gatebroker.Json.{Value, null, obj, Fields, get, delete, has, is_some}
use gatebroker.Policy.{mem}
use gatebroker.Cli.Vault.{
  primary, cleanup, chunk, Vault, Failure, keyring_error, invalid_state, cannot_save, unavailable,
  insecure, Action, pure, raise, raise_if, ◌>>=◌, ◌>>◌, present, get_password, set_password,
  delete_password,
}
use gatebroker.Cli.Chunks.{size, windows_cache_chunk_bytes, split_windows_cache, concat}
use gatebroker.Cli.Manifest.{
  Entry, Manifest, mem_entry, is_duplicate_free, have_consistent_counts, windows_cache_max_chunks,
  windows_cache_max_cleanup_entries, windows_cache_entries, journal_value, windows_cache_manifest,
  windows_cache_manifest_document,
}
use gatebroker.Cli.Lexer.{contains_windows_manifest_key}
use gatebroker.Cli.Journal.{
  lift, caught, attempt, translated, translate, when, or_raise, is_nonempty, list_of, merge_group,
  checked_merge, merge_groups, merge_windows_cache_entries, delete_chunk, delete_chunks,
  delete_windows_cache_generation, delete_windows_cache_manifest_entries, conflicts, is_stale,
  active_of, embedded_of, journal_of, pending_windows_cache_cleanup, write_windows_cache_cleanup,
  record_windows_cache_cleanup, keep_remaining, retry_windows_cache_cleanup, record_active,
}

-- `_new_windows_cache_generation`; the candidates are what `secrets.token_hex` returns, one for
-- each of the eight tries.
pub new_windows_cache_generation : List Entry → List String → Result Failure String
new_windows_cache_generation forbidden [] = err cannot_save
new_windows_cache_generation forbidden (generation ∷ candidates) =
    let rest = new_windows_cache_generation forbidden candidates in
    if mem generation (map (λ (e : Entry). e.0) forbidden) then rest else ok generation

pub write_chunks : String → ℕ → List String → Action (Unit {0})
write_chunks generation index [] = pure tt
write_chunks generation index (c ∷ cs) = do
  set_password (chunk generation index) c
  write_chunks generation (index + 1) cs

pub read_chunks : String → ℕ → ℕ → Action (List (Option String))
read_chunks generation index zero = pure []
read_chunks generation index (suc n) = do
  c ← get_password (chunk generation index)
  cs ← read_chunks generation (index + 1) n
  pure (c ∷ cs)

-- `"".join(chunks)`, if all of them are there
abbrev pub cons_some : Option String → Option (List String) → Option (List String)
cons_some (some c) (some cs) = some (c ∷ cs)
cons_some c cs = none

abbrev pub all_present : List (Option String) → Option (List String)
all_present [] = some []
all_present (c ∷ cs) = cons_some c (all_present cs)

-- `bool(serialized)`
abbrev pub has_text : Option String → Bool
has_text none = false
has_text (some serialized) = not (is_empty serialized)

-- `strict_loads` is `_strict_json_loads`, with `none` where it raises; `dumps` is `json.dumps`.
module _ (strict_loads : String → Option Value) (dumps : Value → String) where
  unfoldable pub invalid_windows_manifest : Option String → Bool
  invalid_windows_manifest serialized =
      has_text serialized
      && contains_windows_manifest_key strict_loads serialized
      && not (is_some (windows_cache_manifest strict_loads dumps serialized))

  -- The part of `_store_cache_unlocked` for a text that fits into one credential.
  pub store_small : Option Entry → String → Action (Unit {0})
  unfolding record_windows_cache_cleanup
  store_small active serialized = do
    record_active strict_loads dumps active
    set_password primary serialized

  -- The part for a text that does not: the intent, the chunks, and then the manifest.
  pub store_large : Option Entry → List Entry → List String → List String → Action (Unit {0})
  unfolding record_windows_cache_cleanup new_windows_cache_generation write_chunks
  store_large active pending candidates chunks = do
    raise_if (ltb windows_cache_max_chunks (length chunks)) cannot_save
    generation ← lift (new_windows_cache_generation (list_of active ++ pending) candidates)
    record_windows_cache_cleanup strict_loads dumps
        (list_of active ++ (generation, length chunks) ∷ [])
    write_chunks generation 0 chunks
    set_password primary
        (windows_cache_manifest_document strict_loads dumps (generation, length chunks, []))

  pub store_windows_cache : Option Manifest → List String → String → Action (Unit {0})
  unfolding record_windows_cache_cleanup retry_windows_cache_cleanup store_small store_large
  store_windows_cache manifest candidates serialized = do
    when (is_nonempty (embedded_of manifest))
        (record_windows_cache_cleanup strict_loads dumps (embedded_of manifest))
    retry_windows_cache_cleanup strict_loads dumps (active_of manifest)
    pending ← pending_windows_cache_cleanup strict_loads dumps
    (if leb (size serialized) windows_cache_chunk_bytes
        then store_small (active_of manifest) serialized
        else store_large (active_of manifest) pending candidates (split_windows_cache serialized))

  -- `secure` is the answer of `_require_secure_keyring`, `windows` whether the platform is win32.
  unfoldable pub store_cache_unlocked : Bool → Bool → List String → String → Action (Unit {0})
  unfolding store_windows_cache invalid_windows_manifest
  store_cache_unlocked secure windows candidates serialized = do
    raise_if (not secure) insecure
    (if windows
        then (do
          previous ← get_password primary
          raise_if (invalid_windows_manifest previous) invalid_state
          store_windows_cache (windows_cache_manifest strict_loads dumps previous) candidates
              serialized)
        else set_password primary serialized)

  unfoldable pub store_cache : Bool → Bool → List String → String → Action (Unit {0})
  store_cache secure windows candidates serialized =
      translate (store_cache_unlocked secure windows candidates serialized)

  -- `_load_windows_chunked_cache_unlocked`
  abbrev pub load_manifest : String → Option Manifest → Action String
  load_manifest serialized none = do
    raise_if (invalid_windows_manifest (some serialized)) invalid_state
    pure serialized
  load_manifest serialized (some (generation, count, es)) = do
    chunks ← translate (read_chunks generation 0 count)
    texts ← or_raise (all_present chunks) invalid_state
    pure (concat texts)

  pub load_windows_chunked_cache_unlocked : String → Action String
  unfolding read_chunks invalid_windows_manifest
  load_windows_chunked_cache_unlocked serialized =
      load_manifest serialized (windows_cache_manifest strict_loads dumps (some serialized))

  -- What `_load_cache` reads: an empty text counts as none.
  abbrev pub read_text : Bool → Option String → Action (Option String)
  read_text windows none = pure none
  read_text windows (some serialized) =
      if is_empty serialized
      then pure none
      else if windows
      then (do text ← load_windows_chunked_cache_unlocked serialized; pure (some text))
      else pure (some serialized)

  unfoldable pub read_cache : Bool → Action (Option String)
  unfolding load_windows_chunked_cache_unlocked
  read_cache windows = do serialized ← get_password primary; read_text windows serialized

  -- `_sanitize_cache`: the text without `IdToken`, and whether that was there; `none` is its
  -- `ValueError`. A null under the key is not counted.
  abbrev pub is_not_null : Option Value → Bool
  is_not_null none = false
  is_not_null (some null) = false
  is_not_null (some v) = true

  abbrev pub without_id_token : Option Value → Option (String × Bool)
  without_id_token (some (obj fs)) =
      some (dumps (obj (delete "IdToken" fs)), is_not_null (get "IdToken" fs))
  without_id_token v = none

  abbrev pub sanitize_cache : String → Option (String × Bool)
  sanitize_cache serialized = without_id_token (strict_loads serialized)

  abbrev pub sanitize_text : Bool → Bool → List String → Option String → Action (Option String)
  sanitize_text secure windows candidates none = pure none
  sanitize_text secure windows candidates (some serialized) = do
    sanitized ← or_raise (sanitize_cache serialized) invalid_state
    when (sanitized.1) (store_cache_unlocked secure windows candidates (sanitized.0))
    pure (some (sanitized.0))

  -- `_load_cache`, up to MSAL's `deserialize` of the text
  unfoldable pub load_cache : Bool → Bool → List String → Action (Option String)
  unfolding store_cache_unlocked read_cache
  load_cache secure windows candidates = do
    raise_if (not secure) insecure
    translate
        (do serialized ← read_cache windows; sanitize_text secure windows candidates serialized)
