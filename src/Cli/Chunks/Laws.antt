-- ===== src/Cli/Chunks/Laws.antt =====
-- The chunks are the text, and each fits.
use Prim.Native.Char.{Char, code}
use Prim.Native.String.{[], ◌∷◌, ◌++◌}
use text.Mathlib.TextLemmas.{nil-append, append-nil, append_assoc, cons-append}
use gatebroker.Prelude.{
  ℕ, ◌+◌, ◌≤◌, ◌≡◌, refl, sym, ◌∙◌, ap, inl, inr, false, not, ◌&&◌, String, ltb, All, arith,
  Bool-cases,
}
use gatebroker.Text.{is_empty}
use gatebroker.Cli.Chunks.{
  utf16_bytes, size, windows_cache_chunk_bytes, flush, split_from, split_windows_cache, concat,
}

single-append : (c : Char) (s : String) → (c ∷ []) ++ s ≡ c ∷ s
single-append c s = cons-append c [] s ∙ ap (λ t. c ∷ t) (nil-append s)

concat-flush : (current : String) → concat (flush current) ≡ current
concat-flush [] = refl
concat-flush (c ∷ s) = append-nil (c ∷ s)

concat-split_from :
    (current : String) (n : ℕ) (s : String) → concat (split_from current n s) ≡ current ++ s
unfolding split_from
concat-split_from current n [] = concat-flush current ∙ sym (append-nil current)
concat-split_from current n (c ∷ s) =
    elim (Bool-cases
      (not (is_empty current) && ltb windows_cache_chunk_bytes (n + utf16_bytes (code c)))) [
        | inl e ↦ rw e (
            ap (λ t. current ++ t)
              (concat-split_from (c ∷ []) (utf16_bytes (code c)) s ∙ single-append c s))
        | inr e ↦ rw e (
            concat-split_from (current ++ (c ∷ [])) (n + utf16_bytes (code c)) s
            ∙ append_assoc current (c ∷ []) s
            ∙ ap (λ t. current ++ t) (single-append c s))
      ]

size-snoc : (s : String) (c : Char) → size (s ++ (c ∷ [])) ≡ size s + utf16_bytes (code c)
size-snoc [] c = ap size (nil-append (c ∷ [])) ∙ omega arith
size-snoc (d ∷ s) c = ap size (cons-append d s (c ∷ [])) ∙ omega (arith, size-snoc s c)

snoc_nonempty : (s : String) (c : Char) → is_empty (s ++ (c ∷ [])) ≡ false
snoc_nonempty [] c = ap is_empty (nil-append (c ∷ []))
snoc_nonempty (d ∷ s) c = ap is_empty (cons-append d s (c ∷ []))

-- A chunk that fits into one credential, and is not empty.
abbrev pub Fits : String → Type 0
Fits s = (size s ≤ windows_cache_chunk_bytes) × (is_empty s ≡ false)

flush-Fits : (s : String) → size s ≤ windows_cache_chunk_bytes → All Fits (flush s)
flush-Fits [] h = tt
flush-Fits (c ∷ s) h = ((h, refl), tt)

bytes_le : (c : ℕ) → utf16_bytes c ≤ 4
bytes_le c = ground arith

room :
    (t : String) (n b : ℕ)
    → size t ≡ n
    → b ≤ 4
    → not (is_empty t) && ltb windows_cache_chunk_bytes (n + b) ≡ false
    → n + b ≤ windows_cache_chunk_bytes
room [] n b e h f = omega arith
room (c ∷ t) n b e h f = ground arith

split_from-Fits :
    (current : String) (n : ℕ) (s : String)
    → size current ≡ n
    → n ≤ windows_cache_chunk_bytes
    → All Fits (split_from current n s)
unfolding split_from
split_from-Fits current n [] e h = flush-Fits current (omega arith)
split_from-Fits current n (c ∷ s) e h =
    elim (Bool-cases
      (not (is_empty current) && ltb windows_cache_chunk_bytes (n + utf16_bytes (code c)))) [
        | inl f ↦ rw f (
          (omega arith, ground arith),
          split_from-Fits (c ∷ []) (utf16_bytes (code c)) s (omega arith)
              (omega (arith, bytes_le (code c))),
        )
        | inr f ↦ rw f (
            split_from-Fits (current ++ (c ∷ [])) (n + utf16_bytes (code c)) s
              (size-snoc current c ∙ omega arith)
              (room current n (utf16_bytes (code c)) e (bytes_le (code c)) f))
      ]

-- The chunks of a text, joined, are the text, and every chunk fits into one credential.
pub split_windows_cache_lem :
    (serialized : String)
    → (concat (split_windows_cache serialized) ≡ serialized)
      × All Fits (split_windows_cache serialized)
unfolding split_windows_cache
split_windows_cache_lem serialized = (
  concat-split_from [] 0 serialized ∙ nil-append serialized,
  split_from-Fits [] 0 serialized (omega arith) (omega arith),
)
