-- ===== src/Cli/Manifest.antt =====
-- The manifest and the cleanup journal of a chunked cache, as JSON values and as entries.
pub mod RoundTrip
use Prim.Native.Char.{code}
use Prim.Native.String
use gatebroker.Prelude.{
  ℕ, suc, ◌+◌, String, Bool, true, false, not, ◌&&◌, ◌||◌, Option, none, some, List, [], ◌∷◌, ◌==◌,
  leb, length, str_eq, if◌then◌else◌,
}
use gatebroker.Prelude.Int.{ℤ, pos}
use gatebroker.Text.{is_empty}
use gatebroker.Json.{
  Value, num, str, arr, obj, Number, Items, nil, cons, Fields, end, field, get, has,
}
use gatebroker.Policy.{mem}

-- A generation and its number of chunks.
abbrev pub Entry : Type 0
Entry = String × ℕ

abbrev pub same_entry : Entry → Entry → Bool
same_entry (g, n) (h, m) = str_eq g h && (n == m)

unfoldable pub mem_entry : Entry → List Entry → Bool
mem_entry e [] = false
mem_entry e (f ∷ fs) = same_entry f e || mem_entry e fs

abbrev pub windows_cache_manifest_key : String
windows_cache_manifest_key = "windows-cache-chunks"

abbrev pub windows_cache_max_chunks : ℕ
windows_cache_max_chunks = 1024

abbrev pub windows_cache_max_cleanup_entries : ℕ
windows_cache_max_cleanup_entries = 16

-- `set(d) == {names}`
pub keys_in : List String → Fields → Bool
keys_in names end = true
keys_in names (field k v fs) = mem k names && keys_in names fs

unfoldable pub has_all : List String → Fields → Bool
has_all [] fs = true
has_all (name ∷ names) fs = has name fs && has_all names fs

unfoldable pub has_keys : List String → Fields → Bool
unfolding keys_in has_all
has_keys names fs = keys_in names fs && has_all names fs

abbrev pub is_hex : ℕ → Bool
is_hex c = (leb b'0' c && leb c b'9') || (leb b'a' c && leb c b'f')

unfoldable pub all_hex : String → Bool
all_hex String.[] = true
all_hex (String.◌∷◌ c s) = is_hex (code c) && all_hex s

abbrev pub characters : String → ℕ
characters String.[] = 0
characters (String.◌∷◌ c s) = suc (characters s)

unfoldable pub is_generation : String → Bool
unfolding all_hex
is_generation s = (characters s == 32) && all_hex s

-- `_valid_windows_cache_generation` and `_valid_windows_cache_count`, with the value that is valid
abbrev pub valid_generation : Option Value → Option String
valid_generation (some (str s)) = if is_generation s then some s else none
valid_generation v = none

abbrev pub in_range : ℕ → Bool
in_range n = leb 1 n && leb n windows_cache_max_chunks

abbrev pub valid_count : Option Value → Option ℕ
valid_count (some (num (Number.int (pos n)))) = if in_range n then some n else none
valid_count v = none

abbrev pub entry_of : Option String → Option ℕ → Option Entry
entry_of (some g) (some n) = some (g, n)
entry_of g n = none

-- One entry of a list, an object of exactly two keys.
abbrev pub parse_entry : Value → Option Entry
parse_entry (obj fs) =
    if has_keys ("generation" ∷ "count" ∷ []) fs
    then entry_of (valid_generation (get "generation" fs)) (valid_count (get "count" fs))
    else none
parse_entry v = none

abbrev pub join_entry : Option Entry → Option (List Entry) → Option (List Entry)
join_entry (some e) (some es) = some (e ∷ es)
join_entry e es = none

pub parse_entries : Items → Option (List Entry)
parse_entries nil = some []
parse_entries (cons v vs) = join_entry (parse_entry v) (parse_entries vs)

-- `len(entries) != len(set(entries))`, negated
unfoldable pub is_duplicate_free : List Entry → Bool
unfolding mem_entry
is_duplicate_free [] = true
is_duplicate_free (e ∷ es) = not (mem_entry e es) && is_duplicate_free es

-- `counts.setdefault(generation, count)`, in the list of the entries seen, and the comparison
unfoldable pub count_in : String → List Entry → Option ℕ
count_in g [] = none
count_in g ((h, n) ∷ es) = if str_eq h g then some n else count_in g es

abbrev pub agrees : Option ℕ → ℕ → Bool
agrees none n = true
agrees (some m) n = m == n

unfoldable pub consistent_from : List Entry → List Entry → Bool
unfolding count_in
consistent_from seen [] = true
consistent_from seen ((g, n) ∷ es) =
    agrees (count_in g seen) n && consistent_from ((g, n) ∷ seen) es

abbrev pub have_consistent_counts : List Entry → Bool
have_consistent_counts es = consistent_from [] es

abbrev pub Manifest : Type 0
Manifest = String × ℕ × List Entry

abbrev pub checked_cleanup : String → ℕ → List Entry → Option Manifest
checked_cleanup g n entries =
    if leb (length entries) windows_cache_max_cleanup_entries
      && is_duplicate_free entries
      && have_consistent_counts ((g, n) ∷ entries)
    then some (g, n, entries)
    else none

abbrev pub with_cleanup : Option Entry → Option (List Entry) → Option Manifest
with_cleanup (some (g, n)) (some entries) = checked_cleanup g n entries
with_cleanup e entries = none

-- `value.get("cleanup", [])`, as entries
abbrev pub cleanup_entries : Option Value → Option (List Entry)
cleanup_entries none = some []
cleanup_entries (some (arr items)) = parse_entries items
cleanup_entries (some v) = none

-- The value under the manifest's key.
abbrev pub parse_manifest : Option Value → Option Manifest
parse_manifest (some (obj fs)) =
    if has_keys ("generation" ∷ "count" ∷ []) fs
      || has_keys ("generation" ∷ "count" ∷ "cleanup" ∷ []) fs
    then with_cleanup
        (entry_of (valid_generation (get "generation" fs)) (valid_count (get "count" fs)))
        (cleanup_entries (get "cleanup" fs))
    else none
parse_manifest v = none

abbrev pub manifest_of : Option Value → Option Manifest
manifest_of (some (obj fs)) =
    if has_keys (windows_cache_manifest_key ∷ []) fs
    then parse_manifest (get windows_cache_manifest_key fs)
    else none
manifest_of v = none

-- The list of a cleanup journal: no duplicates, one count for a generation, not too many.
abbrev pub journal_entries : Option (List Entry) → Option (List Entry)
journal_entries none = none
journal_entries (some entries) =
    if is_duplicate_free entries
      && have_consistent_counts entries
      && leb (length entries) windows_cache_max_cleanup_entries
    then some entries
    else none

abbrev pub listed_entries : Option Value → Option (List Entry)
listed_entries (some (arr items)) = journal_entries (parse_entries items)
listed_entries v = none

-- `_windows_cache_entries`
abbrev pub windows_cache_entries : Option Value → Option (List Entry)
windows_cache_entries (some (obj fs)) =
    if has_keys ("cleanup" ∷ []) fs then listed_entries (get "cleanup" fs) else none
windows_cache_entries v = none

-- The documents that are written.
abbrev pub entry_value : Entry → Value
entry_value (g, n) = obj (field "generation" (str g) (field "count" (num (Number.int (pos n))) end))

pub entry_values : List Entry → Items
entry_values [] = nil
entry_values (e ∷ es) = cons (entry_value e) (entry_values es)

abbrev pub cleanup_fields : List Entry → Fields
cleanup_fields [] = end
cleanup_fields (e ∷ es) = field "cleanup" (arr (entry_values (e ∷ es))) end

abbrev pub manifest_value : Manifest → Value
manifest_value (g, n, cleanup) = obj (
    field windows_cache_manifest_key
      (obj (
        field "generation" (str g)
          (field "count" (num (Number.int (pos n))) (cleanup_fields cleanup))))
      end)

abbrev pub journal_value : List Entry → Value
journal_value es = obj (field "cleanup" (arr (entry_values es)) end)

-- `strict_loads` is `_strict_json_loads`, with `none` where it raises; `dumps` is `json.dumps`.
module _ (strict_loads : String → Option Value) (dumps : Value → String) where
  unfoldable pub windows_cache_manifest : Option String → Option Manifest
  unfolding has_keys parse_entries is_generation is_duplicate_free consistent_from
  windows_cache_manifest none = none
  windows_cache_manifest (some serialized) =
      if is_empty serialized then none else manifest_of (strict_loads serialized)

  unfoldable pub windows_cache_manifest_document : Manifest → String
  unfolding entry_values
  windows_cache_manifest_document m = dumps (manifest_value m)
