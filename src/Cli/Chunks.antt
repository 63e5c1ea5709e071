-- ===== src/Cli/Chunks.antt =====
-- `_split_windows_cache`: the pieces of a cache text that fit into one credential each.
pub mod Laws
use Prim.Native.Char.{Char, code}
use Prim.Native.String.{[], ◌∷◌, ◌++◌}
use gatebroker.Prelude.{ℕ, ◌+◌, String, Bool, true, false, not, ◌&&◌, List, ltb, leb, if◌then◌else◌}
use gatebroker.Text.{is_empty}

-- `len(character.encode("utf-16-le"))`
abbrev pub utf16_bytes : ℕ → ℕ
utf16_bytes c = if leb c 0xFFFF then 2 else 4

abbrev pub size : String → ℕ
size [] = 0
size (c ∷ s) = utf16_bytes (code c) + size s

abbrev pub windows_cache_chunk_bytes : ℕ
windows_cache_chunk_bytes = 2400

abbrev pub flush : String → List String
flush [] = List.[]
flush (c ∷ s) = List.◌∷◌ (c ∷ s) List.[]

-- The loop, from the characters read so far of the current chunk and their size.
pub split_from : String → ℕ → String → List String
split_from current current_bytes [] = flush current
split_from current current_bytes (c ∷ s) =
    let full =
      not (is_empty current)
      && ltb windows_cache_chunk_bytes (current_bytes + utf16_bytes (code c)) in
    let next = split_from (c ∷ []) (utf16_bytes (code c)) s in
    let same = split_from (current ++ (c ∷ [])) (current_bytes + utf16_bytes (code c)) s in
    if full then List.◌∷◌ current next else same

unfoldable pub split_windows_cache : String → List String
unfolding split_from
split_windows_cache serialized = split_from [] 0 serialized

-- `"".join(chunks)`
abbrev pub concat : List String → String
concat List.[] = []
concat (List.◌∷◌ c cs) = c ++ concat cs
