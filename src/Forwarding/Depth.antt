-- ===== src/Forwarding/Depth.antt =====
-- `_exceeds_max_json_depth`: one pass over the bytes of a body that counts the brackets outside
-- strings, and what it decides.
pub mod Nesting
use gatebroker.Prelude.{
  ℕ, zero, suc, ◌+◌, ◌<◌, ◌≤◌, ◌≡◌, refl, sym, ap, ◌∙◌, ◌↔◌, inl, inr, Bool, true, false, not, ◌&&◌,
  ◌||◌, List, [], ◌∷◌, ◌++◌, arith, Bool-cases, ◌==◌, if◌then◌else◌,
}
use gatebroker.Prelude.Int.{
  ℤ, pos, negsuc, ◌+ℤ◌, ◌-ℤ◌, ltb_ℤ, pos_part, neg_part, +ℤ_parts, -ℤ_parts,
}

abbrev pub max_json_depth : ℕ
max_json_depth = 64

abbrev quote : ℕ
quote = 0x22

abbrev backslash : ℕ
backslash = 0x5C

-- `byte in _OPENING_BRACKETS`
abbrev pub is_opening : ℕ → Bool
is_opening b = (b == 0x7B) || (b == 0x5B)

abbrev pub is_closing : ℕ → Bool
is_closing b = (b == 0x7D) || (b == 0x5D)

-- The variables of the loop.
record Scan : Type 0 where
  depth : ℤ
  in_string : Bool
  escaped : Bool

-- One round of the loop.
scan_step : Scan → ℕ → Scan
scan_step s byte =
    if s.in_string
    then (if s.escaped
        then record s { escaped = false }
        else if byte == backslash
        then record s { escaped = true }
        else if byte == quote
        then record s { in_string = false }
        else s)
    else if byte == quote
    then record s { in_string = true }
    else if is_opening byte
    then record s { depth = s.depth +ℤ pos 1 }
    else if is_closing byte
    then record s { depth = s.depth -ℤ pos 1 }
    else s

-- The test after `depth += 1`, on the state before it.
is_too_deep : Scan → ℕ → Bool
is_too_deep s byte =
    not s.in_string
    && not (byte == quote)
    && is_opening byte
    && ltb_ℤ (pos max_json_depth) (s.depth +ℤ pos 1)

scan : Scan → List ℕ → Bool
unfolding scan_step is_too_deep
scan s [] = false
scan s (byte ∷ rest) =
    let later = scan (scan_step s byte) rest in if is_too_deep s byte then true else later

unfoldable pub exceeds_max_json_depth : List ℕ → Bool
unfolding scan ◌+ℤ◌ ◌-ℤ◌
exceeds_max_json_depth raw_body =
    scan (record { depth = pos 0; in_string = false; escaped = false }) raw_body
