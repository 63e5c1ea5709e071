-- ===== src/Forwarding/Tools/Untouched.antt =====
-- The keys of a request that the sanitizing of `/v1/responses` leaves alone.
use gatebroker.Prelude.{
  String, ◌≡◌, refl, ◌∙◌, inl, inr, true, false, Option, none, some, Bool-cases, str_eq,
}
use gatebroker.Result.{Ensures, Ensures-ok, Ensures-bind}
use gatebroker.Json.{Value, null, bool, num, str, arr, obj, Items, Fields, get, put, has, mem_str}
use gatebroker.Json.Laws.{get-put_ne, get-put_self, mem_str-append_item}
use gatebroker.Forwarding.Tools.{
  encrypted_reasoning_include, sanitize_tools, sanitize_input,
  sanitize_responses_empty_tool_descriptions, include_reasoning, ensure_encrypted_reasoning_include,
}

module _ (k : String) where
  abbrev Keeps : Fields → Fields → Type 0
  Keeps before after = get k after ≡ get k before

  sanitize_tools-Keeps :
      (o : Option Value) (fs : Fields)
      → str_eq "tools" k ≡ false
      → Ensures (Keeps fs) (sanitize_tools o fs)
  sanitize_tools-Keeps none fs h = Ensures-ok fs refl
  sanitize_tools-Keeps (some v) fs h =
      Ensures-bind _ _ λ ts _. Ensures-ok _ (get-put_ne "tools" k ts fs h)

  sanitize_input-Keeps :
      (o : Option Value) (fs : Fields)
      → str_eq "input" k ≡ false
      → Ensures (Keeps fs) (sanitize_input o fs)
  sanitize_input-Keeps (some (arr items)) fs h =
      Ensures-bind _ _ λ vs _. Ensures-ok _ (get-put_ne "input" k (arr vs) fs h)
  sanitize_input-Keeps o fs h = Ensures-ok fs refl

  pub sanitized-Keeps :
      (fs : Fields)
      → str_eq "tools" k ≡ false
      → str_eq "input" k ≡ false
      → Ensures (Keeps fs) (sanitize_responses_empty_tool_descriptions fs)
  unfolding sanitize_responses_empty_tool_descriptions
  sanitized-Keeps fs t i = Ensures-bind _ _ λ mid at. record {
    at = λ after h.
        (sanitize_input-Keeps (get "input" mid) mid i).at after h
        ∙ (sanitize_tools-Keeps (get "tools" fs) fs t).at mid at;
  }

  include_reasoning-Keeps :
      (o : Option Value) (fs : Fields)
      → str_eq "include" k ≡ false
      → get k (include_reasoning o fs) ≡ get k fs
  include_reasoning-Keeps (some (arr items)) fs h =
      elim (Bool-cases (mem_str encrypted_reasoning_include items)) [
        | inl e ↦ rw e
        | inr e ↦ rw e (get-put_ne "include" k _ fs h)
      ]
  include_reasoning-Keeps none fs h = get-put_ne "include" k _ fs h
  include_reasoning-Keeps (some null) fs h = get-put_ne "include" k _ fs h
  include_reasoning-Keeps o fs h = refl

  pub ensure_include-Keeps :
      (fs : Fields)
      → str_eq "include" k ≡ false
      → get k (ensure_encrypted_reasoning_include fs) ≡ get k fs
  unfolding ensure_encrypted_reasoning_include
  ensure_include-Keeps fs h = elim (Bool-cases (has "reasoning" fs)) [
    | inl e ↦ rw e (include_reasoning-Keeps (get "include" fs) fs h)
    | inr e ↦ rw e
  ]

-- `include` is a list that asks for encrypted reasoning.
abbrev pub AsksReasoning : Option Value → Type 0
AsksReasoning o =
    (items : Items) × (o ≡ some (arr items)) × (mem_str encrypted_reasoning_include items ≡ true)

-- A list, or nothing, or null: what the code extends.
abbrev pub IsExtensible : Option Value → Type 0
IsExtensible none = Unit
IsExtensible (some null) = Unit
IsExtensible (some (arr items)) = Unit
IsExtensible (some v) = ⊥

asked :
    (vs : Items) (fs : Fields)
    → mem_str encrypted_reasoning_include vs ≡ true
    → AsksReasoning (get "include" (put "include" (arr vs) fs))
asked vs fs h = (vs, get-put_self "include" (arr vs) fs, h)

include_reasoning_asks :
    (fs : Fields) (o : Option Value)
    → get "include" fs ≡ o
    → IsExtensible o
    → AsksReasoning (get "include" (include_reasoning o fs))
include_reasoning_asks fs none at h = asked _ fs (unfold mem_str in refl)
include_reasoning_asks fs (some null) at h = asked _ fs (unfold mem_str in refl)
include_reasoning_asks fs (some (arr items)) at h =
    elim (Bool-cases (mem_str encrypted_reasoning_include items)) [
      | inl e ↦ rw e (items, at, e)
      | inr e ↦ rw e (asked _ fs (mem_str-append_item encrypted_reasoning_include items))
    ]
include_reasoning_asks fs (some (bool b)) at h = absurd h
include_reasoning_asks fs (some (num n)) at h = absurd h
include_reasoning_asks fs (some (str s)) at h = absurd h
include_reasoning_asks fs (some (obj gs)) at h = absurd h

-- A request that uses reasoning asks for the encrypted items, if its `include` is a list, null or
-- absent.
pub ensure_include_asks :
    (fs : Fields)
    → has "reasoning" fs ≡ true
    → IsExtensible (get "include" fs)
    → AsksReasoning (get "include" (ensure_encrypted_reasoning_include fs))
unfolding ensure_encrypted_reasoning_include
ensure_include_asks fs r h = rw r (include_reasoning_asks fs (get "include" fs) refl h)
