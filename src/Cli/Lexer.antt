-- ===== src/Cli/Lexer.antt =====
-- `_matches_partial_windows_manifest_key` and `_contains_windows_manifest_key`: whether a text claims
-- the manifest's key, also where it is damaged. The loops go over positions; here they go over the
-- characters, and what a loop does at a position is a step on its state.
pub mod Truncated
use Prim.Native.Char.{Char, code}
use Prim.Native.String.{[], ◌∷◌, ◌++◌}
use gatebroker.Prelude.{
  ℕ, suc, ◌+◌, ◌-◌, ◌/◌, ◌%◌, String, Bool, true, false, not, ◌&&◌, ◌||◌, Option, none, some, List,
  ◌==◌, leb, length, all, if◌then◌else◌,
}
use gatebroker.Text.{is_empty, is_space, codes, lower}
use gatebroker.Json.{Value, null, bool, num, str, arr, obj, has}
use gatebroker.Cli.Manifest.{windows_cache_manifest_key}

-- Where the lexer of one string stands: in plain text, behind a backslash, or in the digits behind
-- `\u`, with those read so far.
pub data Mode : Type 0 where
  plain escape : Mode
  digits : List ℕ → Mode

-- `target` is what is left of the key, `started` whether any of it was matched.
pub record Lexer : Type 0 where
  pub target : String
  pub started : Bool
  pub matches : Bool
  pub mode : Mode

abbrev pub new_lexer : Lexer
new_lexer = record {
  target = windows_cache_manifest_key;
  started = false;
  matches = true;
  mode = plain;
}

-- `f"{ord(character):04x}"`, as code points
abbrev pub hex_digit : ℕ → ℕ
hex_digit n = if leb n 9 then b'0' + n else b'a' + (n - 10)

abbrev pub four_digits : ℕ → List ℕ
four_digits n = List.◌∷◌ (hex_digit (n / 4096 % 16)) (
    List.◌∷◌ (hex_digit (n / 256 % 16))
      (List.◌∷◌ (hex_digit (n / 16 % 16)) (List.◌∷◌ (hex_digit (n % 16)) List.[])))

abbrev pub expected_digits : Bool → String → List ℕ
expected_digits true (c ∷ s) = four_digits (code c)
expected_digits matches target = List.[]

-- `digits.lower() == expected[: len(digits)]`
pub is_prefix : List ℕ → List ℕ → Bool
is_prefix List.[] expected = true
is_prefix (List.◌∷◌ d ds) List.[] = false
is_prefix (List.◌∷◌ d ds) (List.◌∷◌ e es) = (lower d == e) && is_prefix ds es

abbrev pub is_hex_digit : ℕ → Bool
is_hex_digit c =
    (leb b'0' c && leb c b'9') || (leb b'a' c && leb c b'f') || (leb b'A' c && leb c b'F')

abbrev pub rest_of : String → String
rest_of [] = []
rest_of (c ∷ s) = s

abbrev pub starts : String → ℕ → Bool
starts [] n = false
starts (c ∷ s) n = code c == n

abbrev pub mismatch : Lexer → Lexer
mismatch l = record l { matches = false; mode = plain }

abbrev pub advance : Lexer → Lexer
advance l = record l { target = rest_of l.target; started = true; mode = plain }

abbrev pub snoc : List ℕ → ℕ → List ℕ
snoc List.[] d = List.◌∷◌ d List.[]
snoc (List.◌∷◌ e es) d = List.◌∷◌ e (snoc es d)

-- The four digits are read.
abbrev pub four_read : Lexer → List ℕ → Lexer
four_read l ds =
    if all is_hex_digit ds
      && l.matches
      && not (is_empty l.target)
      && is_prefix ds (expected_digits l.matches l.target)
    then advance l
    else mismatch l

abbrev pub digit_read : Lexer → List ℕ → Lexer
digit_read l ds = if length ds == 4 then four_read l ds else record l { mode = digits ds }

-- At the closing quote the lexer answers; else it goes on.
pub data Lexed : Type 0 where
  closed : Bool → Lexed
  reading : Lexer → Lexed

abbrev pub lex_plain : Lexer → ℕ → Lexed
lex_plain l c =
    if c == b'"'
    then closed (l.matches && is_empty l.target)
    else if c == 0x5C
    then reading (record l { mode = escape })
    else if l.matches && starts l.target c
    then reading (advance l)
    else reading (mismatch l)

abbrev pub lex_in : Mode → Lexer → ℕ → Lexed
lex_in plain l c = lex_plain l c
lex_in escape l c =
    if c == b'u' then reading (record l { mode = digits List.[] }) else reading (mismatch l)
lex_in (digits ds) l c = reading (digit_read l (snoc ds c))

unfoldable pub lex : Lexer → ℕ → Lexed
unfolding is_prefix
lex l c = lex_in l.mode l c

-- What the lexer answers where the text ends in the string.
abbrev pub cut_in : Mode → Lexer → Bool
cut_in plain l = l.matches && l.started
cut_in escape l = l.matches && not (is_empty l.target)
cut_in (digits ds) l = l.matches && is_prefix ds (expected_digits l.matches l.target)

abbrev pub cut : Lexer → Bool
cut l = cut_in l.mode l

pub data RootState : Type 0 where
  key colon value after_value : RootState

pub data Reading : Type 0 where
  between : Reading
  in_string : Lexer → Reading
  in_scalar : String → Reading

-- The variables of the loop, and what it reads at the position.
pub record Scan : Type 0 where
  pub depth : ℕ
  pub root_state : RootState
  pub reading : Reading

pub data Next : Type 0 where
  answer : Bool → Next
  go_on : Scan → Next

abbrev pub at_root : RootState → Next
at_root r = go_on (record { depth = 1; root_state = r; reading = between })

abbrev pub is_open : ℕ → Bool
is_open c = (c == 0x7B) || (c == 0x5B)

abbrev pub is_close : ℕ → Bool
is_close c = (c == 0x7D) || (c == 0x5D)

abbrev pub ends_scalar : ℕ → Bool
ends_scalar c = (c == 32) || (c == 9) || (c == 13) || (c == 10) || (c == b',') || (c == 0x7D)

abbrev pub is_scalar : Option Value → Bool
is_scalar none = false
is_scalar (some (str s)) = false
is_scalar (some (arr items)) = false
is_scalar (some (obj fs)) = false
is_scalar (some v) = true

-- The root's state behind a string that is not the key.
abbrev pub behind_string : RootState → RootState
behind_string key = colon
behind_string value = after_value
behind_string r = r

abbrev pub is_key : RootState → Bool
is_key key = true
is_key r = false

abbrev pub is_root : ℕ → Bool
is_root depth = depth == 1

abbrev pub string_read : Scan → Bool → Next
string_read st matches =
    if is_root st.depth && is_key st.root_state && matches
    then answer true
    else go_on (record {
      depth = st.depth;
      root_state = if is_root st.depth then behind_string st.root_state else st.root_state;
      reading = between;
    })

abbrev pub after_lexed : Scan → Lexed → Next
after_lexed st (closed matches) = string_read st matches
after_lexed st (reading l) = go_on (record st { reading = in_string l })

-- A character behind a value of the root.
abbrev pub behind_value : ℕ → Next
behind_value c =
    if is_space c then at_root after_value else if c == b',' then at_root key else answer false

module _ (strict_loads : String → Option Value) where
  abbrev pub scalar_step : String → Char → Next
  scalar_step text c =
      if ends_scalar (code c)
      then (if is_scalar (strict_loads text) then behind_value (code c) else answer false)
      else go_on (record { depth = 1; root_state = value; reading = in_scalar (text ++ (c ∷ [])) })

  abbrev pub root_step : RootState → Char → Next
  root_step key c = answer false
  root_step colon c = if code c == b':' then at_root value else answer false
  root_step value c =
      if is_open (code c)
      then go_on (record { depth = 2; root_state = value; reading = between })
      else scalar_step [] c
  root_step after_value c = if code c == b',' then at_root key else answer false

  abbrev pub nested_step : Scan → ℕ → Next
  nested_step st c =
      if is_open c
      then go_on (record st { depth = st.depth + 1 })
      else if is_close c
      then (if st.depth == 2
          then at_root after_value
          else go_on (record st { depth = st.depth - 1 }))
      else go_on st

  abbrev pub between_step : Scan → Char → Next
  between_step st c =
      if is_space (code c)
      then go_on st
      else if code c == b'"'
      then go_on (record st { reading = in_string new_lexer })
      else if is_root st.depth
      then root_step st.root_state c
      else nested_step st (code c)

  abbrev pub step_in : Reading → Scan → Char → Next
  step_in between st c = between_step st c
  step_in (in_string l) st c = after_lexed st (lex l (code c))
  step_in (in_scalar text) st c = scalar_step text c

  -- The text ends: a string that is cut off may still claim the key.
  abbrev pub at_end_in : Reading → Scan → Bool
  at_end_in (in_string l) st = is_root st.depth && is_key st.root_state && cut l
  at_end_in r st = false

  pub scan : Scan → String → Bool
  scan st [] = at_end_in st.reading st
  scan st (c ∷ s) = elim (step_in st.reading st c) [ answer b ↦ b | go_on next ↦ scan next s ]

  -- The white space before the root object, and its brace.
  unfoldable pub scan_root : String → Bool
  unfolding scan lex
  scan_root [] = false
  scan_root (c ∷ s) = elim (is_space (code c)) [
    | true ↦ scan_root s
    | false ↦
        (if code c == 0x7B
          then scan (record { depth = 1; root_state = key; reading = between }) s
          else false)
  ]

  abbrev pub claims_key : String → Option Value → Bool
  claims_key serialized (some (obj fs)) = has windows_cache_manifest_key fs
  claims_key serialized (some v) = false
  claims_key serialized none = scan_root serialized

  unfoldable pub contains_windows_manifest_key : Option String → Bool
  unfolding scan_root
  contains_windows_manifest_key none = false
  contains_windows_manifest_key (some serialized) = claims_key serialized (strict_loads serialized)
