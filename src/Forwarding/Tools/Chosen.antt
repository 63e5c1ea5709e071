-- ===== src/Forwarding/Tools/Chosen.antt =====
-- The action that is chosen for a tool, and the description that it leaves.
use gatebroker.Prelude.{
  String, ◌≡◌, refl, sym, ◌∙◌, ap, inl, inr, Bool, true, false, not, ◌||◌, Option, none, some,
  arith, Bool-cases, str_eq, if◌then◌else◌,
}
use gatebroker.Result.{Result, ok, err, ◌>>=◌}
use gatebroker.Text.{is_empty, strip, nonblank}
use gatebroker.Text.Strip.{strip-strip}
use gatebroker.Json.{Value, null, bool, num, str, arr, obj, Fields, get, has, is_some}
use gatebroker.Json.Laws.{get-put_ne, get-delete, get-put_self}
use gatebroker.Forwarding.Tools.Blank.{
  IsBlank, IsHosted, missing_of_IsBlank, is_missing_or_blank-IsBlank, builtin_of_IsHosted,
  is_builtin_responses_tool-IsHosted,
}
use gatebroker.Forwarding.Tools.Wanted.{Wants, described_of_Wants, Wants_of_described}
use gatebroker.Forwarding.Tools.{
  is_missing_or_blank, Raised, Action, fill, omit, leave, apply_action, tool_description_action,
  tool_description_fallback, description_missing_or_blank, is_builtin_responses_tool,
  is_client_defined_tool, name_in, function_name, object_in, or_else,
  empty_tool_description_fallback,
}

pub apply_action-rest :
    (a : Action) (tool : Fields) (k : String)
    → str_eq "description" k ≡ false
    → get k (apply_action a tool) ≡ get k tool
apply_action-rest fill tool k h = get-put_ne "description" k _ tool h
apply_action-rest omit tool k h = get-delete "description" k tool ∙ rw h
apply_action-rest leave tool k h = refl

some_eq : (a b : String) → some a ≡ some b → a ≡ b
some_eq a b h = cc

stripped_nonblank : (t s : String) → some (strip t) ≡ some s → nonblank t ≡ true → nonblank s ≡ true
stripped_nonblank t s q h =
    ap nonblank (sym (some_eq _ _ q)) ∙ ap (λ u. not (is_empty u)) (strip-strip t) ∙ h

name_in-nonblank : (o : Option Value) (s : String) → name_in o ≡ some s → nonblank s ≡ true
name_in-nonblank (some (str t)) s h = elim (Bool-cases (nonblank t)) [
  | inl e ↦ stripped_nonblank t s (rw e at h) e
  | inr e ↦ absurd (cc (rw e at h))
]
name_in-nonblank none s h = cc
name_in-nonblank (some null) s h = cc
name_in-nonblank (some (bool b)) s h = cc
name_in-nonblank (some (num n)) s h = cc
name_in-nonblank (some (arr n)) s h = cc
name_in-nonblank (some (obj n)) s h = cc

function_name-nonblank :
    (o : Option Fields) (s : String) → function_name o ≡ some s → nonblank s ≡ true
function_name-nonblank none s h = cc
function_name-nonblank (some f) s h = name_in-nonblank (get "name" f) s h

or_else-nonblank :
    (o : Option String) (t : String)
    → ((s : String) → o ≡ some s → nonblank s ≡ true)
    → nonblank t ≡ true
    → nonblank (or_else o t) ≡ true
or_else-nonblank none t f h = h
or_else-nonblank (some s) t f h = f s refl

fallback_text_nonblank : nonblank empty_tool_description_fallback ≡ true
unfolding strip
fallback_text_nonblank = refl

-- The description that is filled in is never blank.
fallback_nonblank : (tool : Fields) → nonblank (tool_description_fallback tool) ≡ true
unfolding tool_description_fallback
fallback_nonblank tool = or_else-nonblank (name_in (get "name" tool)) _ (name_in-nonblank _) (
    or_else-nonblank (function_name (object_in (get "function" tool))) _ (function_name-nonblank _)
      fallback_text_nonblank)

fallback_of_name :
    (tool : Fields) (t : String)
    → get "name" tool ≡ some (str t)
    → nonblank t ≡ true
    → tool_description_fallback tool ≡ strip t
unfolding tool_description_fallback
fallback_of_name tool t e h = rw e (rw h refl)

-- The code's choice of an action, from its tests.
abbrev choice : Bool → Bool → Bool → Result Raised Bool → Result Raised Action
choice blank hosted sent client =
    if not blank
    then ok leave
    else if hosted
    then ok (if sent then omit else leave)
    else (do c ← client; ok (if c || sent then fill else leave))

abbrev leaves : Action → Result Raised Action
leaves a = ok a

unsent : (c s : Bool) → c || s ≡ false → s ≡ false
unsent c s h = ground arith

ok_injective : (a b : Action) → leaves a ≡ ok b → a ≡ b
ok_injective a b h = cc

by_client :
    (client : Result Raised Bool) (sent : Bool) (a : Action)
    → (do c ← client; ok (if c || sent then fill else leave)) ≡ ok a
    → (c : Bool) × (client ≡ ok c) × ((if c || sent then fill else leave) ≡ a)
unfolding ◌>>=◌
by_client (ok c) sent a h = (c, refl, ok_injective _ a h)
by_client (err e) sent a h = absurd (cc)

none_of : (o : Option Value) → is_some o ≡ false → o ≡ none
none_of none h = refl
none_of (some v) h = cc

module _ (tool : Fields) (a : Action) (e : tool_description_action tool ≡ ok a) where
  chosen :
      choice
        (is_missing_or_blank (get "description" tool))
        (is_builtin_responses_tool tool)
        (has "description" tool)
        (is_client_defined_tool tool)
      ≡ ok a
  unfolding tool_description_action description_missing_or_blank
  chosen = e

  abbrev description : Action → Option Value
  description b = get "description" (apply_action b tool)

  pub sent_kept : ¬ (IsBlank (get "description" tool)) → description a ≡ get "description" tool
  sent_kept n = elim (Bool-cases (is_missing_or_blank (get "description" tool))) [
    | inl m ↦ absurd (n (is_missing_or_blank-IsBlank _ m))
    | inr m ↦ ap description (sym (ok_injective leave a (rw m at chosen)))
  ]

  pub hosted_omitted : IsBlank (get "description" tool) → IsHosted tool → description a ≡ none
  hosted_omitted b i =
      let h = rw (builtin_of_IsHosted tool i) at (rw (missing_of_IsBlank _ b) at chosen) in
      elim (Bool-cases (has "description" tool)) [
        | inl s ↦
            ap description (sym (ok_injective omit a (rw s at h)))
            ∙ get-delete "description" "description" tool
        | inr s ↦ ap description (sym (ok_injective leave a (rw s at h))) ∙ none_of _ s
      ]

  not_builtin : ¬ (IsHosted tool) → is_builtin_responses_tool tool ≡ false
  not_builtin n = elim (Bool-cases (is_builtin_responses_tool tool)) [
    | inl h ↦ absurd (n (is_builtin_responses_tool-IsHosted tool h))
    | inr h ↦ h
  ]

  otherwise :
      IsBlank (get "description" tool)
      → ¬ (IsHosted tool)
      → (c : Bool) × (is_client_defined_tool tool ≡ ok c)
        × ((if c || has "description" tool then fill else leave) ≡ a)
  otherwise b n =
      by_client (is_client_defined_tool tool) (has "description" tool) a
        (rw (not_builtin n) at (rw (missing_of_IsBlank _ b) at chosen))

  pub wanted_filled : IsBlank (get "description" tool) → ¬ (IsHosted tool) → Wants tool → fill ≡ a
  wanted_filled b n w =
      let (c, client, same) = otherwise b n in
      rw (described_of_Wants tool c (not_builtin n) client w) at same

  pub unwanted_missing :
      IsBlank (get "description" tool) → ¬ (IsHosted tool) → ¬ (Wants tool) → description a ≡ none
  unwanted_missing b n w =
      let (c, client, same) = otherwise b n in
      elim (Bool-cases (c || has "description" tool)) [
        | inl y ↦ absurd (w (Wants_of_described tool c client y))
        | inr y ↦
            ap description (sym (rw y at same)) ∙ none_of _ (unsent c (has "description" tool) y)
      ]

  pub filled_text :
      fill ≡ a
      → (s : String) × (description a ≡ some (str s))
        × (nonblank s ≡ true)
        × ((t : String) → get "name" tool ≡ some (str t) → nonblank t ≡ true → s ≡ strip t)
  filled_text f = (
    tool_description_fallback tool,
    ap description (sym f) ∙ get-put_self "description" _ tool,
    fallback_nonblank tool,
    fallback_of_name tool,
  )
