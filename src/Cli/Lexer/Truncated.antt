-- ===== src/Cli/Lexer/Truncated.antt =====
-- A manifest that was cut off, or damaged behind its key, is still recognised as one.
use Prim.Native.Char.{Char, code}
use Prim.Native.String.{[], ◌∷◌, ◌++◌}
use text.Mathlib.TextLemmas.{nil-append, cons-append}
use gatebroker.Prelude.{
  ℕ, ◌≡◌, refl, sym, ◌∙◌, ap, ◌⊎◌, inl, inr, String, Bool, true, false, not, ◌&&◌, ◌||◌, Option,
  none, some, ◌==◌, arith,
}
use gatebroker.Text.{is_empty}
use gatebroker.Json.{Value}
use gatebroker.Cli.Manifest.{windows_cache_manifest_key}
use gatebroker.Cli.Lexer.{
  Lexer, plain, lex, Scan, answer, go_on, key, between, in_string, step_in, scan,
  contains_windows_manifest_key,
}

abbrev pub brace : Char
brace = "{"

abbrev pub quote : Char
quote = "\""

-- No quote and no backslash.
abbrev is_plain : String → Bool
is_plain [] = true
is_plain (c ∷ s) = not (code c == b'"') && not (code c == 0x5C) && is_plain s

is_plain-append : (p q : String) → is_plain (p ++ q) ≡ true → is_plain p ≡ true
is_plain-append [] q h = refl
is_plain-append (c ∷ p) q h =
    let h' = (ap is_plain (sym (cons-append c p q)) ∙ h) in ground (arith, is_plain-append p q)

abbrev lexing : String → Bool → Lexer
lexing target started = record { target = target; started = started; matches = true; mode = plain }

abbrev reading_key : String → Bool → Scan
reading_key target started = record {
  depth = 1;
  root_state = key;
  reading = in_string (lexing target started);
}

or_false : (b : Bool) → b || false ≡ b
or_false b = ground arith

or_true : (b : Bool) → b || true ≡ true
or_true b = ground arith

self : (n : ℕ) → (n == n) ≡ true
self n = ground arith

module _ (strict_loads : String → Option Value) where
  scan_go_on :
      (st next : Scan) (c : Char) (s : String)
      → step_in strict_loads st.reading st c ≡ go_on next
      → scan strict_loads st (c ∷ s) ≡ scan strict_loads next s
  unfolding scan
  scan_go_on st next c s e = ap (λ n. elim n [ answer b ↦ b | go_on x ↦ scan strict_loads x s ]) e

  scan-answer :
      (st : Scan) (c : Char) (s : String) (b : Bool)
      → step_in strict_loads st.reading st c ≡ answer b
      → scan strict_loads st (c ∷ s) ≡ b
  unfolding scan
  scan-answer st c s b e = ap (λ n. elim n [ answer b ↦ b | go_on x ↦ scan strict_loads x s ]) e

  -- A part of the key is read.
  scan_key_char :
      (c : Char) (t s : String) (started : Bool)
      → (code c == b'"') ≡ false
      → (code c == 0x5C) ≡ false
      → scan strict_loads (reading_key (c ∷ t) started) (c ∷ s)
        ≡ scan strict_loads (reading_key t true) s
  scan_key_char c t s started q b =
      scan_go_on (reading_key (c ∷ t) started) (reading_key t true) c s
        (unfold lex in rw q (rw b (rw (self (code c)) refl)))

  scan_key :
      (p q s : String) (started : Bool)
      → is_plain p ≡ true
      → scan strict_loads (reading_key (p ++ q) started) (p ++ s)
        ≡ scan strict_loads (reading_key q (started || not (is_empty p))) s
  scan_key [] q s started h =
      rw (nil-append q) (
        rw (nil-append s)
          (ap (λ b. scan strict_loads (reading_key q b) s) (sym (or_false started))))
  scan_key (c ∷ p) q s started h = rw (cons-append c p q) (
      rw (cons-append c p s) (
        scan_key_char c (p ++ q) (p ++ s) started (ground arith) (ground arith)
        ∙ scan_key p q s true (ground arith)
        ∙ ap (λ b. scan strict_loads (reading_key q b) s) (sym (or_true started))))

  -- A text that does not parse and begins with a brace, a quote and some part of the manifest's key
  -- claims the key, if it ends there, or if the whole key and a closing quote stand there.
  pub contains_windows_manifest_key_of_damaged :
      (p q s : String)
      → windows_cache_manifest_key ≡ p ++ q
      → is_empty p ≡ false
      → strict_loads (brace ∷ quote ∷ (p ++ s)) ≡ none
      → (s ≡ []) ⊎ ((q ≡ []) × ((rest : String) × (s ≡ quote ∷ rest)))
      → contains_windows_manifest_key strict_loads (some (brace ∷ quote ∷ (p ++ s))) ≡ true
  unfolding contains_windows_manifest_key gatebroker.Text.is_space
  contains_windows_manifest_key_of_damaged p q s e n h which = rw h (
      scan_go_on (record { depth = 1; root_state = key; reading = between })
        (reading_key windows_cache_manifest_key false) quote (p ++ s) refl
      ∙ ap (λ t. scan strict_loads (reading_key t false) (p ++ s)) e
      ∙ scan_key p q s false (is_plain-append p q (ap is_plain (sym e)))
      ∙ ap (λ b. scan strict_loads (reading_key q (not b)) s) n
      ∙ elim which [
        | inl cut ↦ rw cut (unfold scan in refl)
        | inr (whole, (rest, closing)) ↦
            rw closing
              (rw whole (scan-answer (reading_key [] true) quote rest true (unfold lex in refl)))
      ])
