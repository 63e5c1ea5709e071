-- ===== src/Tests/SignIn.antt =====
-- The theorems on the stored sign-in state, each at a concrete input.
use Prim.Native.String.{[], ◌∷◌}
use Prim.Native.Char.{code}
use gatebroker.Prelude.{
  ℕ, zero, suc, ◌+◌, ◌==◌, if◌then◌else◌, ap, ◌∙◌, arith, All, false, ◌≡◌, refl, String, true,
  Option, none, some, inl, List,
}
use gatebroker.Prelude.Int.{pos}
use gatebroker.Text.{is_empty}
use gatebroker.Json.{Value, num, str, obj, Number, end, field}
use gatebroker.Cli.Logout.{logout}
use gatebroker.Cli.Logout.Atomic.{logout-IsAtomic}
use gatebroker.Result.{err}
use gatebroker.Cli.Vault.{invalid_state, primary, same_account, Vault, success, refused, broken_off}
use gatebroker.Cli.Chunks.{split_windows_cache, concat}
use gatebroker.Cli.Chunks.Laws.{Fits, split_windows_cache_lem}
use gatebroker.Cli.Manifest.{
  Manifest, manifest_value, windows_cache_manifest, windows_cache_manifest_document,
}
use gatebroker.Cli.Manifest.RoundTrip.{IsManifest, windows_cache_manifest-document}
use gatebroker.Cli.Cache.Damaged.{load_windows_chunked_cache_unlocked_of_damaged}
use gatebroker.Cli.Cache.{store_cache, load_windows_chunked_cache_unlocked}
use gatebroker.Cli.Cache.Visible.{quiet}
use gatebroker.Cli.Cache.Observed.{IsAtomic}
use gatebroker.Cli.Cache.Atomic.{IsStorable, store_cache-IsAtomic}

split_windows_cache_lem_example :
    (concat (split_windows_cache "{}") ≡ "{}") × All Fits (split_windows_cache "{}")
split_windows_cache_lem_example = split_windows_cache_lem "{}"

abbrev sample : Manifest
sample = (
  "0123456789abcdef0123456789abcdef",
  2,
  List.◌∷◌ ("0123456789abcdef0123456789abcdee", 1) List.[],
)

abbrev print_sample : Value → String
print_sample v = "printed"

abbrev parse_sample : String → Option Value
parse_sample s = some (manifest_value sample)

sample-IsManifest : IsManifest sample
unfolding gatebroker.Cli.Manifest.is_generation gatebroker.Cli.Manifest.all_hex
    gatebroker.Cli.Manifest.is_duplicate_free gatebroker.Cli.Manifest.consistent_from
    gatebroker.Cli.Manifest.mem_entry gatebroker.Cli.Manifest.count_in
sample-IsManifest = record {
  active = (refl, refl);
  cleanup = record { entries = ((refl, refl), tt); distinct = refl; few = refl };
  consistent = refl;
}

windows_cache_manifest-document_example :
    windows_cache_manifest parse_sample print_sample
      (some (windows_cache_manifest_document parse_sample print_sample sample))
    ≡ some sample
windows_cache_manifest-document_example =
    windows_cache_manifest-document parse_sample print_sample sample sample-IsManifest refl refl

abbrev unparsable : String → Option Value
unparsable s = none

load_windows_chunked_cache_unlocked_of_damaged_example :
    load_windows_chunked_cache_unlocked unparsable (λ v. "") "{\"windows-cache" (quiet (λ a. none))
    ≡ (err invalid_state, quiet (λ a. none))
load_windows_chunked_cache_unlocked_of_damaged_example =
    load_windows_chunked_cache_unlocked_of_damaged unparsable (λ v. "") "windows-cache" "-chunks" []
      (quiet (λ a. none)) refl refl refl (inl refl)

-- A printer of manifests without a cleanup list, and the parser that reads them.
counted : ℕ → String → String
counted zero g = "#" ∷ g
counted (suc n) g = "x" ∷ counted n g

print_bare : Value → String
unfolding counted
print_bare (obj (field k (obj (field l (str g) (field i (num (Number.int (pos n))) end))) end)) =
    counted n g
print_bare v = "journal"

parse_counted : ℕ → String → Option Value
parse_counted n [] = none
parse_counted n (c ∷ s) =
    let rest = parse_counted (suc n) s in
    if code c == b'#' then some (manifest_value (s, n, List.[])) else rest

abbrev parse_bare : String → Option Value
parse_bare s = parse_counted 0 s

parse_counted-counted :
    (m n : ℕ) (g : String)
    → parse_counted m (counted n g) ≡ some (manifest_value (g, m + n, List.[]))
unfolding parse_counted counted
parse_counted-counted m zero g = ap (λ k. some (manifest_value (g, k, List.[]))) (omega arith)
parse_counted-counted m (suc n) g =
    parse_counted-counted (suc m) n g
    ∙ ap (λ k. some (manifest_value (g, k, List.[]))) (omega arith)

is_empty-counted : (n : ℕ) (g : String) → is_empty (counted n g) ≡ false
unfolding counted
is_empty-counted zero g = refl
is_empty-counted (suc n) g = refl

abbrev long_text : ℕ → String
long_text zero = []
long_text (suc n) = "a" ∷ long_text n

abbrev drawn : List String
drawn = List.◌∷◌ "0123456789abcdef0123456789abcdef" List.[]

long_text-IsStorable : IsStorable parse_bare print_bare (long_text 1300) drawn
unfolding print_bare gatebroker.Cli.Manifest.is_generation gatebroker.Cli.Manifest.all_hex
    gatebroker.Cli.Lexer.contains_windows_manifest_key gatebroker.Cli.Lexer.scan_root parse_counted
    gatebroker.Text.is_space
long_text-IsStorable = record {
  nonempty = refl;
  claims_no_key = refl;
  generations = (refl, tt);
  prints = λ g n h. record {
    nonempty = is_empty-counted n g;
    parses =
        parse_counted-counted 0 n g ∙ ap (λ k. some (manifest_value (g, k, List.[]))) (omega arith);
  };
}

-- The third call raises after it took effect, and the fifth is refused.
abbrev failing : Vault
failing = record {
  store = λ a. none;
  outcomes =
      List.◌∷◌ success
        (List.◌∷◌ success (List.◌∷◌ broken_off (List.◌∷◌ success (List.◌∷◌ refused List.[]))));
}

store_cache-IsAtomic_example :
    IsAtomic parse_bare print_bare failing.store
      (some (long_text 1300))
      (store_cache parse_bare print_bare true true drawn (long_text 1300) failing)
store_cache-IsAtomic_example =
    store_cache-IsAtomic parse_bare print_bare true drawn (long_text 1300) failing
      long_text-IsStorable

-- A store with a small text, and a broken delete.
abbrev signed_in : Vault
signed_in = record {
  store = λ a. if same_account primary a then some "{}" else none;
  outcomes = List.◌∷◌ success (List.◌∷◌ success (List.◌∷◌ broken_off List.[]));
}

logout-IsAtomic_example :
    IsAtomic parse_bare print_bare signed_in.store none
      (logout parse_bare print_bare true true signed_in)
logout-IsAtomic_example = logout-IsAtomic parse_bare print_bare true signed_in
