-- ===== src/Text.antt =====
-- The operations of Python's `str` that the broker uses, over the native `String`: `isspace`,
-- `strip`, `split`, `partition`, `startswith`, `endswith`, `in`.
pub mod Strip
pub mod Number
use Prim.Native.Char.{Char, code}
use Prim.Native.String.{[], ◌∷◌, ◌++◌}
use mathlib.Core.List
use gatebroker.Prelude.{
  ℕ, ◌+◌, String, ◌≡◌, refl, Bool, true, false, not, ◌&&◌, ◌||◌, List, leb, ◌==◌, if◌then◌else◌,
}

-- `str.isspace` of one character, by its code point
unfoldable pub is_space : ℕ → Bool
is_space c =
    (leb 9 c && leb c 13)
    || (leb 28 c && leb c 32)
    || (c == 133)
    || (c == 160)
    || (c == 5760)
    || (leb 8192 c && leb c 8202)
    || (c == 8232)
    || (c == 8233)
    || (c == 8239)
    || (c == 8287)
    || (c == 12288)

abbrev pub is_empty : String → Bool
is_empty [] = true
is_empty (c ∷ s) = false

pub lstrip : String → String
lstrip [] = []
lstrip (c ∷ s) = let rest = lstrip s in if is_space (code c) then rest else c ∷ s

-- what `rstrip` keeps of `c ∷ s`, from what it keeps of `s`
abbrev rkeep : Char → String → String
rkeep c [] = if is_space (code c) then [] else c ∷ []
rkeep c (d ∷ s) = c ∷ d ∷ s

pub rstrip : String → String
rstrip [] = []
rstrip (c ∷ s) = rkeep c (rstrip s)

unfoldable pub strip : String → String
unfolding lstrip rstrip is_space
strip s = rstrip (lstrip s)

-- `any(character.isspace() for character in s)`
unfoldable pub has_space : String → Bool
unfolding is_space
has_space [] = false
has_space (c ∷ s) = is_space (code c) || has_space s

-- `bool(s.strip())`
abbrev pub nonblank : String → Bool
nonblank s = not (is_empty (strip s))

abbrev push : Char → List String → List String
push c List.[] = List.◌∷◌ (c ∷ []) List.[]
push c (List.◌∷◌ w ws) = List.◌∷◌ (c ∷ w) ws

-- The code points of a text.
abbrev pub codes : String → List ℕ
codes [] = List.[]
codes (c ∷ s) = List.◌∷◌ (code c) (codes s)

-- `str.lower` of one character, in ASCII. No other character lowers to an ASCII letter but the
-- Kelvin sign, to k.
abbrev pub lower : ℕ → ℕ
lower c = if leb b'A' c && leb c b'Z' then c + 32 else c

-- `s.lower() == t`, for a `t` of ASCII letters with no k in it
unfoldable pub lower_eq : String → String → Bool
lower_eq [] [] = true
lower_eq (c ∷ s) (d ∷ t) = (lower (code c) == code d) && lower_eq s t
lower_eq s t = false

-- `s.split(sep)` for a separator of one character, given by its code point
unfoldable pub split_on : ℕ → String → List String
split_on sep [] = List.◌∷◌ [] List.[]
split_on sep (c ∷ s) =
    let rest = split_on sep s in if code c == sep then List.◌∷◌ [] rest else push c rest

-- the parts of a text between white space, empty parts among them
blank_parts : String → List String
blank_parts [] = List.◌∷◌ [] List.[]
blank_parts (c ∷ s) =
    let rest = blank_parts s in if is_space (code c) then List.◌∷◌ [] rest else push c rest

drop_empty : List String → List String
drop_empty List.[] = List.[]
drop_empty (List.◌∷◌ w ws) =
    let rest = drop_empty ws in if is_empty w then rest else List.◌∷◌ w rest

-- `s.split()`
unfoldable pub words : String → List String
unfolding blank_parts drop_empty is_space
words s = drop_empty (blank_parts s)

-- `" ".join(parts)`
unfoldable pub join : List String → String
join List.[] = []
join (List.◌∷◌ w List.[]) = w
join (List.◌∷◌ w (List.◌∷◌ v ws)) = w ++ " " ++ join (List.◌∷◌ v ws)

-- `s.partition(sep)`: the part before, whether the separator was found, the part after
unfoldable pub partition : ℕ → String → String × Bool × String
partition sep [] = ([], false, [])
partition sep (c ∷ s) =
    let rest = partition sep s in
    if code c == sep then ([], true, s) else (c ∷ rest.0, rest.1, rest.2)

unfoldable pub starts_with : String → String → Bool
starts_with s [] = true
starts_with [] (d ∷ t) = false
starts_with (c ∷ s) (d ∷ t) = (code c == code d) && starts_with s t

-- `needle in s`
unfoldable pub contains : String → String → Bool
unfolding starts_with
contains needle [] = is_empty needle
contains needle (c ∷ s) = starts_with (c ∷ s) needle || contains needle s

rev_onto : String → String → String
rev_onto acc [] = acc
rev_onto acc (c ∷ s) = rev_onto (c ∷ acc) s

-- `s.endswith(t)`
unfoldable pub ends_with : String → String → Bool
unfolding starts_with rev_onto
ends_with s t = starts_with (rev_onto [] s) (rev_onto [] t)

strip_test : strip "  a b \n" ≡ "a b"
unfolding strip
strip_test = refl

words_test : words " a  bc " ≡ List.◌∷◌ "a" (List.◌∷◌ "bc" List.[])
unfolding words
words_test = refl

ends_with_test : ends_with "db.svc" ".svc" ≡ true
unfolding ends_with
ends_with_test = refl
