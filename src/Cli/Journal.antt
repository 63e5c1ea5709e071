-- ===== src/Cli/Journal.antt =====
-- The cleanup journal of a chunked cache: the generations whose chunks may be left, the deletion of
-- their chunks, and the parts of an action that the operations on the store share.
use gatebroker.Prelude.{
  ℕ, zero, suc, ◌+◌, String, Bool, true, false, not, ◌&&◌, Option, none, some, List, [], ◌∷◌, ◌++◌,
  ◌==◌, ltb, any, filter, length, str_eq, if◌then◌else◌,
}
use gatebroker.Result.{Result, ok, err}
use gatebroker.Json.{Value, is_some}
use gatebroker.Cli.Vault.{
  cleanup, chunk, Vault, Failure, keyring_error, invalid_state, cannot_save, unavailable, Action,
  pure, raise, raise_if, ◌>>=◌, ◌>>◌, get_password, set_password, delete_password,
}
use gatebroker.Cli.Manifest.{
  Entry, Manifest, mem_entry, is_duplicate_free, have_consistent_counts,
  windows_cache_max_cleanup_entries, windows_cache_entries, journal_value,
}

abbrev pub lift : {A : Type 0} → Result Failure A → Action A
lift r v = (r, v)

-- `try: m` where `KeyringError` and `OSError` are caught: did it succeed?
abbrev pub caught : Result Failure (Unit {0}) × Vault → Result Failure Bool × Vault
caught (ok u, v) = (ok true, v)
caught (err keyring_error, v) = (ok false, v)
caught (err e, v) = (err e, v)

abbrev pub attempt : Action (Unit {0}) → Action Bool
attempt m v = caught (m v)

-- `except (KeyringError, OSError)` that raises the message "unavailable"
abbrev pub translated : {A : Type 0} → Result Failure A × Vault → Result Failure A × Vault
translated (err keyring_error, v) = (err unavailable, v)
translated (r, v) = (r, v)

abbrev pub translate : {A : Type 0} → Action A → Action A
translate m v = translated (m v)

abbrev pub when : Bool → Action (Unit {0}) → Action (Unit {0})
when true m = m
when false m = pure tt

abbrev pub or_raise : {A : Type 0} → Option A → Failure → Action A
or_raise none e = raise e
or_raise (some a) e = pure a

abbrev pub is_nonempty : List Entry → Bool
is_nonempty [] = false
is_nonempty (e ∷ es) = true

abbrev pub list_of : Option Entry → List Entry
list_of none = []
list_of (some e) = e ∷ []

-- `_merge_windows_cache_entries`
unfoldable pub merge_group : List Entry → List Entry → List Entry
merge_group merged [] = merged
merge_group merged (e ∷ es) =
    merge_group (if mem_entry e merged then merged else merged ++ e ∷ []) es

abbrev pub checked_merge : List Entry → Result Failure (List Entry)
checked_merge merged =
    if not (have_consistent_counts merged)
    then err invalid_state
    else if ltb windows_cache_max_cleanup_entries (length merged)
    then err cannot_save
    else ok merged

unfoldable pub merge_groups : List Entry → List (List Entry) → Result Failure (List Entry)
unfolding merge_group
merge_groups merged [] = checked_merge merged
merge_groups merged (group ∷ groups) =
    let rest = merge_groups (merge_group merged group) groups in
    if is_duplicate_free group then rest else err invalid_state

unfoldable pub merge_windows_cache_entries : List (List Entry) → Result Failure (List Entry)
unfolding merge_groups
merge_windows_cache_entries groups = merge_groups [] groups

-- `_delete_windows_cache_generation`
unfoldable pub delete_chunk : String → ℕ → Action (Unit {0})
delete_chunk generation index = do
  found ← get_password (chunk generation index)
  when (is_some found) (delete_password (chunk generation index))

unfoldable pub delete_chunks : String → ℕ → ℕ → Action Bool
unfolding delete_chunk
delete_chunks generation index zero = pure true
delete_chunks generation index (suc n) = do
  deleted ← attempt (delete_chunk generation index)
  elim deleted [ true ↦ delete_chunks generation (index + 1) n | false ↦ pure false ]

abbrev pub delete_windows_cache_generation : Entry → Action Bool
delete_windows_cache_generation (generation, count) = delete_chunks generation 0 count

-- `_delete_windows_cache_manifest_entries`: the entries that could not be deleted.
unfoldable pub delete_windows_cache_manifest_entries : List Entry → Action (List Entry)
unfolding delete_chunks
delete_windows_cache_manifest_entries [] = pure []
delete_windows_cache_manifest_entries (e ∷ es) = do
  deleted ← delete_windows_cache_generation e
  failed ← delete_windows_cache_manifest_entries es
  pure (if deleted then failed else e ∷ failed)

-- A cleanup entry of the active generation with another count.
abbrev pub conflicts : Option Entry → List Entry → Bool
conflicts none entries = false
conflicts (some (g, n)) entries = any (λ (e : Entry). str_eq e.0 g && not (e.1 == n)) entries

abbrev pub is_stale : Option Entry → Entry → Bool
is_stale none e = true
is_stale (some (g, n)) e = not (str_eq e.0 g)

abbrev pub active_of : Option Manifest → Option Entry
active_of none = none
active_of (some (g, n, es)) = some (g, n)

abbrev pub embedded_of : Option Manifest → List Entry
embedded_of none = []
embedded_of (some (g, n, es)) = es

-- `strict_loads` is `_strict_json_loads`, with `none` where it raises; `dumps` is `json.dumps`.
module _ (strict_loads : String → Option Value) (dumps : Value → String) where
  abbrev pub journal_of : Option String → Action (List Entry)
  journal_of none = pure []
  journal_of (some serialized) =
      or_raise (windows_cache_entries (strict_loads serialized)) invalid_state

  unfoldable pub pending_windows_cache_cleanup : Action (List Entry)
  pending_windows_cache_cleanup = do serialized ← get_password cleanup; journal_of serialized

  unfoldable pub write_windows_cache_cleanup : List Entry → Action (Unit {0})
  write_windows_cache_cleanup entries = set_password cleanup (dumps (journal_value entries))

  unfoldable pub record_windows_cache_cleanup : List Entry → Action (Unit {0})
  unfolding pending_windows_cache_cleanup write_windows_cache_cleanup merge_windows_cache_entries
  record_windows_cache_cleanup entries = do
    pending ← pending_windows_cache_cleanup
    merged ← lift (merge_windows_cache_entries (pending ∷ entries ∷ []))
    write_windows_cache_cleanup merged

  -- The journal keeps what remains; without that it is deleted.
  unfoldable pub keep_remaining : List Entry → List Entry → Action (Unit {0})
  unfolding write_windows_cache_cleanup
  keep_remaining (e ∷ es) entries = write_windows_cache_cleanup (e ∷ es)
  keep_remaining [] entries = when (is_nonempty entries) (delete_password cleanup)

  unfoldable pub retry_windows_cache_cleanup : Option Entry → Action (Unit {0})
  unfolding pending_windows_cache_cleanup delete_windows_cache_manifest_entries
      merge_windows_cache_entries keep_remaining
  retry_windows_cache_cleanup active = do
    entries ← pending_windows_cache_cleanup
    raise_if (conflicts active entries) invalid_state
    failed ← delete_windows_cache_manifest_entries (filter (is_stale active) entries)
    remaining ← lift (merge_windows_cache_entries (list_of active ∷ failed ∷ []))
    keep_remaining remaining entries

  abbrev pub record_active : Option Entry → Action (Unit {0})
  record_active none = pure tt
  record_active (some e) = record_windows_cache_cleanup (e ∷ [])
