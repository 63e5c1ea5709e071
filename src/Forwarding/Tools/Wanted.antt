-- ===== src/Forwarding/Tools/Wanted.antt =====
-- Which tools of `/v1/responses` need a description, said without the code's tests.
use gatebroker.Prelude.{
  String, ◌≡◌, refl, ◌∙◌, ap, ◌⊎◌, inl, inr, Bool, true, false, not, ◌||◌, ◌&&◌, Option, none, some,
  arith, Bool-cases, str_eq, eq_iff,
}
use mathlib.Core.Bool.{and-eq-true_iff}
use gatebroker.Result.{Result, ok, err, ◌>>=◌}
use gatebroker.Text.{nonblank}
use gatebroker.Json.{Value, null, bool, num, str, arr, obj, Fields, get, has, is_some}
use gatebroker.Forwarding.Tools.{
  Raised, is_builtin_responses_tool, is_client_defined_tool, is_client_type, is_some_object,
  is_nonblank,
}

-- Why a tool that is not hosted needs a description.
pub data Wants (tool : Fields) : Type 0 where
  function_type : get "type" tool ≡ some (str "function") → Wants tool
  custom_type : get "type" tool ≡ some (str "custom") → Wants tool
  with_function : (fs : Fields) → get "function" tool ≡ some (obj fs) → Wants tool
  declared : (n p : Value) → get "name" tool ≡ some n → get "parameters" tool ≡ some p → Wants tool
  named : (s : String) → get "name" tool ≡ some (str s) → nonblank s ≡ true → Wants tool
  sent : (v : Value) → get "description" tool ≡ some v → Wants tool

abbrev by : Result Raised Bool → Bool → Bool → Bool → Result Raised Bool
by r x y z = do b ← r; ok (b || x || y || z)

by_shape :
    (r : Result Raised Bool) (x y z c : Bool) → by r x y z ≡ ok c → x || y || z ≡ true → c ≡ true
unfolding ◌>>=◌
by_shape (ok true) x y z c h e = cc
by_shape (ok false) x y z c h e = cc
by_shape (err f) x y z c h e = cc

by_type : (r : Result Raised Bool) (x y z c : Bool) → by r x y z ≡ ok c → r ≡ ok true → c ≡ true
unfolding ◌>>=◌
by_type (ok true) x y z c h e = cc
by_type (ok false) x y z c h e = cc
by_type (err f) x y z c h e = cc

-- The tests on a tool besides that on its type.
abbrev called : Fields → Bool
called tool = is_some_object (get "function" tool)

abbrev has_parameters : Fields → Bool
has_parameters tool = has "name" tool && has "parameters" tool

abbrev has_name : Fields → Bool
has_name tool = is_nonblank (get "name" tool) && not (is_builtin_responses_tool tool)

as_by :
    (tool : Fields) (c : Bool)
    → is_client_defined_tool tool ≡ ok c
    → by (is_client_type (get "type" tool)) (called tool) (has_parameters tool) (has_name tool)
      ≡ ok c
unfolding is_client_defined_tool
as_by tool c h = h

or_right : (x y : Bool) → y ≡ true → x || y ≡ true
or_right x y h = ground arith

or_left : (x y : Bool) → x ≡ true → x || y ≡ true
or_left x y h = ground arith

in_last : (x y z : Bool) → z ≡ true → x || y || z ≡ true
in_last x y z h = ground arith

in_middle : (x y z : Bool) → y ≡ true → x || y || z ≡ true
in_middle x y z h = ground arith

in_first : (x y z : Bool) → x ≡ true → x || y || z ≡ true
in_first x y z h = ground arith

abbrev ok_bool : Bool → Result Raised Bool
ok_bool b = ok b

ok_injective : (x y : Bool) → ok_bool x ≡ ok y → x ≡ y
ok_injective x y h = cc

reasons :
    (r : Result Raised Bool) (x y z c : Bool)
    → by r x y z ≡ ok c
    → c ≡ true
    → (r ≡ ok true) ⊎ (x || y || z ≡ true)
unfolding ◌>>=◌
reasons (ok true) x y z c h e = inl refl
reasons (ok false) x y z c h e = inr (ok_injective _ _ (h ∙ ap ok e))
reasons (err f) x y z c h e = absurd (cc)

custom : {b : Bool} → ok_bool (false || b) ≡ ok true → b ≡ true
custom h = ok_injective _ _ h

last : {x y z : Bool} → x ≡ false → y ≡ false → x || y || z ≡ true → z ≡ true
last e f h = ground arith

module _ (tool : Fields) (c : Bool) where
  shaped :
      is_client_defined_tool tool ≡ ok c
      → called tool || has_parameters tool || has_name tool ≡ true
      → c ≡ true
  shaped h e =
      by_shape (is_client_type (get "type" tool)) (called tool) (has_parameters tool)
        (has_name tool) c (as_by tool c h) e

  typed : is_client_defined_tool tool ≡ ok c → is_client_type (get "type" tool) ≡ ok true → c ≡ true
  typed h e =
      by_type (is_client_type (get "type" tool)) (called tool) (has_parameters tool) (has_name tool)
        c (as_by tool c h) e

  pub described_of_Wants :
      is_builtin_responses_tool tool ≡ false
      → is_client_defined_tool tool ≡ ok c
      → Wants tool
      → c || has "description" tool ≡ true
  described_of_Wants b h (function_type e) = or_left c _ (typed h (rw e refl))
  described_of_Wants b h (custom_type e) = or_left c _ (typed h (rw e refl))
  described_of_Wants b h (with_function fs e) =
      or_left c _
        (shaped h (in_first (called tool) (has_parameters tool) (has_name tool) (rw e refl)))
  described_of_Wants b h (declared n p e f) =
      or_left c _ (
        shaped h (in_middle (called tool) (has_parameters tool) (has_name tool) (rw e (rw f refl))))
  described_of_Wants b h (named s e n) = or_left c _ (
      shaped h
        (in_last (called tool) (has_parameters tool) (has_name tool) (rw e (rw n (rw b refl)))))
  described_of_Wants b h (sent v e) = or_right c (has "description" tool) (rw e refl)

  some_of : (o : Option Value) → is_some o ≡ true → (v : Value) × (o ≡ some v)
  some_of none h = absurd (cc)
  some_of (some v) h = (v, refl)

  object_of : (o : Option Value) → is_some_object o ≡ true → (fs : Fields) × (o ≡ some (obj fs))
  object_of (some (obj fs)) h = (fs, refl)
  object_of none h = cc
  object_of (some null) h = cc
  object_of (some (str s)) h = cc
  object_of (some (bool b)) h = cc
  object_of (some (num n)) h = cc
  object_of (some (arr n)) h = cc

  text_of :
      (o : Option Value)
      → is_nonblank o ≡ true
      → (s : String) × (o ≡ some (str s)) × (nonblank s ≡ true)
  text_of (some (str s)) h = (s, refl, h)
  text_of none h = cc
  text_of (some null) h = cc
  text_of (some (obj s)) h = cc
  text_of (some (bool b)) h = cc
  text_of (some (num n)) h = cc
  text_of (some (arr n)) h = cc

  type_of : (o : Option Value) → get "type" tool ≡ o → is_client_type o ≡ ok true → Wants tool
  type_of (some (str s)) e h = elim (Bool-cases (str_eq s "function")) [
    | inl f ↦ function_type (e ∙ ap (λ t. some (str t)) ((eq_iff s "function").0 f))
    | inr f ↦ custom_type (e ∙ ap (λ t. some (str t)) ((eq_iff s "custom").0 (custom (rw f at h))))
  ]
  type_of none e h = cc
  type_of (some null) e h = cc
  type_of (some (bool b)) e h = cc
  type_of (some (num n)) e h = cc
  type_of (some (arr n)) e h = cc
  type_of (some (obj n)) e h = cc

  shape_of : called tool || has_parameters tool || has_name tool ≡ true → Wants tool
  shape_of h = elim (Bool-cases (called tool)) [
    | inl e ↦ let (fs, f) = object_of (get "function" tool) e in with_function fs f
    | inr e ↦ elim (Bool-cases (has_parameters tool)) [
      | inl g ↦
          let (n, p) = (and-eq-true_iff _ _).0 g in
          let (v, at) = some_of (get "name" tool) n in
          let (w, at') = some_of (get "parameters" tool) p in declared v w at at'
      | inr g ↦
          let (s, at, n) = text_of (get "name" tool) ((and-eq-true_iff _ _).0 (last e g h)).0 in
          named s at n
    ]
  ]

  pub Wants_of_described :
      is_client_defined_tool tool ≡ ok c → c || has "description" tool ≡ true → Wants tool
  Wants_of_described h e = elim (Bool-cases (has "description" tool)) [
    | inl sent' ↦ let (v, at) = some_of (get "description" tool) sent' in sent v at
    | inr f ↦
        elim (reasons (is_client_type (get "type" tool)) _ _ _ c (as_by tool c h) (ground arith)) [
          | inl t ↦ type_of (get "type" tool) refl t
          | inr g ↦ shape_of g
        ]
  ]
