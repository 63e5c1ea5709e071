-- ===== src/Runtime/Settings.antt =====
-- The readers of one environment variable each: `_required`, `_csv`, `_boolean`,
-- `_positive_integer`, `_byte_bound` and `_claim_name`.
pub mod Bounds
pub mod Load
use Prim.Native.Char.{code}
use Prim.Native.String
use gatebroker.Prelude.{
  ℕ, String, Bool, true, false, not, ◌&&◌, ◌||◌, ◌≡◌, refl, Option, none, some, List, [], ◌∷◌, leb,
  ltb, ◌==◌, str_eq, if◌then◌else◌,
}
use gatebroker.Prelude.Int.{ℤ, pos, negsuc, ltb_ℤ}
use gatebroker.Result.{Result, ok, err, ◌>>=◌, or_raise}
use gatebroker.Text.{is_empty, strip, nonblank, split_on}

-- `RuntimeError`, by what its message asks for
pub data RuntimeError : Type 0 where
  must_be_configured must_be_positive must_be_at_least must_not_exceed : RuntimeError
  must_be_boolean must_be_claim_name : RuntimeError

-- `values.get(name)` is the argument.
unfoldable pub required : Option String → Result RuntimeError String
required none = err must_be_configured
required (some value) = if nonblank value then ok (strip value) else err must_be_configured

unfoldable pub csv_items : List String → List String
csv_items [] = []
csv_items (item ∷ items) = if nonblank item then strip item ∷ csv_items items else csv_items items

unfoldable pub csv : String → List String
unfolding csv_items
csv value = csv_items (split_on b',' value)

unfoldable pub boolean : String → Result RuntimeError Bool
boolean value =
    if str_eq value "true"
    then ok true
    else if str_eq value "false"
    then ok false
    else err must_be_boolean

abbrev pub positive : ℤ → Result RuntimeError ℕ
positive (pos n) = if n == 0 then err must_be_positive else ok n
positive (negsuc n) = err must_be_positive

-- `int` is Python's, of a text; `none` is its `ValueError`.
unfoldable pub positive_integer : (String → Option ℤ) → String → Result RuntimeError ℕ
positive_integer int value = do parsed ← or_raise (int value) must_be_positive; positive parsed

abbrev pub max_configurable_bytes : ℕ
max_configurable_bytes = 104857600

-- `_validated_byte_bound` of an integer that is positive
abbrev pub validated_byte_bound : ℕ → Result RuntimeError ℕ
validated_byte_bound value =
    if ltb value 1024
    then err must_be_at_least
    else if ltb max_configurable_bytes value
    then err must_not_exceed
    else ok value

unfoldable pub byte_bound : (String → Option ℤ) → String → Result RuntimeError ℕ
byte_bound int value = do parsed ← positive_integer int value; validated_byte_bound parsed

-- `re.fullmatch(r"[A-Za-z_][A-Za-z0-9_]*", claim)`
abbrev is_letter : ℕ → Bool
is_letter c = (leb b'A' c && leb c b'Z') || (leb b'a' c && leb c b'z') || (c == b'_')

unfoldable pub claim_tail : String → Bool
claim_tail String.[] = true
claim_tail (String.◌∷◌ c s) =
    (is_letter (code c) || (leb b'0' (code c) && leb (code c) b'9')) && claim_tail s

unfoldable pub is_claim_name : String → Bool
unfolding claim_tail
is_claim_name String.[] = false
is_claim_name (String.◌∷◌ c s) = is_letter (code c) && claim_tail s

unfoldable pub claim_name : String → Result RuntimeError String
unfolding is_claim_name
claim_name value = if is_claim_name (strip value) then ok (strip value) else err must_be_claim_name

required_test : required (some " iss ") ≡ ok "iss"
unfolding required strip
required_test = refl

csv_test : csv "a, b,," ≡ "a" ∷ "b" ∷ []
unfolding csv split_on strip
csv_test = refl

boolean_test : boolean "True" ≡ err must_be_boolean
unfolding boolean
boolean_test = refl

claim_name_test : claim_name " oid " ≡ ok "oid"
unfolding claim_name strip
claim_name_test = refl
