-- ===== src/Cli/Manifest/RoundTrip.antt =====
-- What is written is read again.
use gatebroker.Prelude.{
  ℕ, ◌≡◌, refl, true, false, String, Option, some, List, [], ◌∷◌, leb, length, All,
}
use gatebroker.Prelude.Int.{pos}
use gatebroker.Text.{is_empty}
use gatebroker.Json.{Value, num, str, Number, get}
use gatebroker.Policy.{mem}
use gatebroker.Cli.Manifest.{
  Entry, Manifest, is_generation, in_range, has_keys, parse_entry, parse_entries, entry_value,
  entry_values, is_duplicate_free, have_consistent_counts, windows_cache_max_cleanup_entries,
  checked_cleanup, manifest_of, manifest_value, windows_cache_entries, journal_value,
  windows_cache_manifest, windows_cache_manifest_document, valid_generation, valid_count, entry_of,
}

abbrev pub IsEntry : Entry → Type 0
IsEntry e = (is_generation e.0 ≡ true) × (in_range e.1 ≡ true)

-- A list of entries that the code accepts.
pub record IsCleanup (es : List Entry) : Type 0 where
  pub entries : All IsEntry es
  pub distinct : is_duplicate_free es ≡ true
  pub few : leb (length es) windows_cache_max_cleanup_entries ≡ true

pub record IsManifest (m : Manifest) : Type 0 where
  pub active : IsEntry (m.0, m.1)
  pub cleanup : IsCleanup m.2
  pub consistent : have_consistent_counts ((m.0, m.1) ∷ m.2) ≡ true

fields_parse :
    (g : String) (n : ℕ)
    → IsEntry (g, n)
    → entry_of (valid_generation (some (str g))) (valid_count (some (num (Number.int (pos n)))))
      ≡ some (g, n)
fields_parse g n (a, b) = rw a (rw b refl)

parse_entry-entry_value : (e : Entry) → IsEntry e → parse_entry (entry_value e) ≡ some e
unfolding has_keys mem get
parse_entry-entry_value (g, n) h = fields_parse g n h

parse_entries-entry_values :
    (es : List Entry) → All IsEntry es → parse_entries (entry_values es) ≡ some es
unfolding parse_entries entry_values
parse_entries-entry_values [] h = refl
parse_entries-entry_values (e ∷ es) (p, h) =
    rw (parse_entry-entry_value e p) (rw (parse_entries-entry_values es h) refl)

checked : (m : Manifest) → IsManifest m → checked_cleanup m.0 m.1 m.2 ≡ some m
checked (g, n, es) h = rw h.cleanup.few (rw h.cleanup.distinct (rw h.consistent refl))

manifest_of-manifest_value :
    (m : Manifest) → IsManifest m → manifest_of (some (manifest_value m)) ≡ some m
unfolding has_keys mem get
manifest_of-manifest_value (g, n, []) h = rw (fields_parse g n h.active) (checked (g, n, []) h)
manifest_of-manifest_value (g, n, e ∷ es) h =
    rw (fields_parse g n h.active)
      (rw (parse_entries-entry_values (e ∷ es) h.cleanup.entries) (checked (g, n, e ∷ es) h))

-- The journal that is written is read again, if its entries are accepted.
pub windows_cache_entries-journal_value :
    (es : List Entry)
    → IsCleanup es
    → have_consistent_counts es ≡ true
    → windows_cache_entries (some (journal_value es)) ≡ some es
unfolding has_keys mem get
windows_cache_entries-journal_value es h c =
    rw (parse_entries-entry_values es h.entries) (rw h.distinct (rw c (rw h.few refl)))

module _ (strict_loads : String → Option Value) (dumps : Value → String) where
  -- A manifest of a valid generation and count, with a cleanup list that is accepted, is read as it
  -- was written, where its document is not empty and parses to what was printed.
  pub windows_cache_manifest-document :
      (m : Manifest)
      → IsManifest m
      → is_empty (dumps (manifest_value m)) ≡ false
      → strict_loads (dumps (manifest_value m)) ≡ some (manifest_value m)
      → windows_cache_manifest strict_loads dumps
          (some (windows_cache_manifest_document strict_loads dumps m))
        ≡ some m
  unfolding windows_cache_manifest windows_cache_manifest_document
  windows_cache_manifest-document m h e l = rw e (rw l (manifest_of-manifest_value m h))
