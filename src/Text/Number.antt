-- ===== src/Text/Number.antt =====
-- `int(text)` of a text in Latin-1, as a header is decoded: white space round it, a sign, ASCII digits
-- with single underscores between them, and at most 4300 digits.
use Prim.Native.Char.{code}
use Prim.Native.String.{[], ◌∷◌}
use gatebroker.Prelude.{
  ℕ, zero, suc, ◌+◌, ◌-◌, ◌*◌, String, ◌≡◌, refl, Bool, false, not, ◌&&◌, Option, none, some, leb,
  ◌==◌, if◌then◌else◌,
}
use gatebroker.Prelude.Int.{ℤ, pos, negsuc}
use gatebroker.Text.{is_space, is_empty}

abbrev pub max_digits : ℕ
max_digits = 4300

abbrev is_digit : ℕ → Bool
is_digit c = leb b'0' c && leb c b'9'

-- `after` says that a digit was read last; `count` digits have been read, worth `n`.
digits : Bool → ℕ → ℕ → String → Option ℕ
digits after count n [] = if after && leb count max_digits then some n else none
digits after count n (c ∷ s) =
    let d = is_digit (code c) in
    let rest =
      digits d (if d then count + 1 else count) (if d then n * 10 + (code c - b'0') else n) s in
    if d then rest else if (code c == b'_') && after then rest else none

negative : Option ℕ → Option ℤ
negative none = none
negative (some zero) = some (pos 0)
negative (some (suc n)) = some (negsuc n)

positive : Option ℕ → Option ℤ
positive none = none
positive (some n) = some (pos n)

signed : String → Option ℤ
signed [] = none
signed (c ∷ s) =
    if code c == b'-'
    then negative (digits false 0 0 s)
    else if code c == b'+'
    then positive (digits false 0 0 s)
    else positive (digits false 0 0 (c ∷ s))

-- The white space that `int` allows round a number: unlike `str.strip`, not the separators from
-- 0x1C to 0x1F.
abbrev is_number_space : ℕ → Bool
is_number_space c = is_space c && not (leb 28 c && leb c 31)

drop_space : String → String
unfolding is_space
drop_space [] = []
drop_space (c ∷ s) = let rest = drop_space s in if is_number_space (code c) then rest else c ∷ s

drop_space_behind : String → String
unfolding is_space
drop_space_behind [] = []
drop_space_behind (c ∷ s) =
    let rest = drop_space_behind s in
    if is_empty rest && is_number_space (code c) then [] else c ∷ rest

unfoldable pub parse_int : String → Option ℤ
unfolding signed digits positive negative drop_space drop_space_behind
parse_int s = signed (drop_space_behind (drop_space s))

parse_int_test : parse_int " -1_0\n" ≡ some (negsuc 9)
unfolding parse_int
parse_int_test = refl

parse_int_refused : parse_int "1__0" ≡ none
unfolding parse_int
parse_int_refused = refl

parse_int_separated : parse_int "\u{1c};7" ≡ none
unfolding parse_int
parse_int_separated = refl
