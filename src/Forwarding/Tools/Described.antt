-- ===== src/Forwarding/Tools/Described.antt =====
-- What becomes of a tool's description: one pass settles it, and a type without a hash raises.
use gatebroker.Prelude.{
  String, ◌≡◌, ◌↔◌, Bool, true, false, not, ◌||◌, Option, none, some, arith, str_eq, if◌then◌else◌,
}
use gatebroker.Result.{Result, ok, err, ◌>>=◌, Ensures-ok, Ensures-bind}
use gatebroker.Text.{strip, nonblank}
use gatebroker.Json.{Value, null, bool, num, str, arr, obj, Fields, get, has}
use gatebroker.Forwarding.Tools.Blank.{IsBlank, IsHosted}
use gatebroker.Forwarding.Tools.Chosen.{
  apply_action-rest, sent_kept, hosted_omitted, wanted_filled, unwanted_missing, filled_text,
}
use gatebroker.Forwarding.Tools.Wanted.{Wants}
use gatebroker.Forwarding.Tools.{
  Raised, unhashable, fill, omit, leave, apply_action, tool_description_action,
  apply_tool_description_action, description_missing_or_blank, is_builtin_responses_tool,
  is_client_defined_tool, is_client_type, is_builtin_type,
}

-- A tool and how it is sent: only the description changes. One that says something stays as it is; one
-- that is missing or blank is gone from a hosted tool, is a text that is not blank in any other tool
-- that needs one, the stripped name where there is one, and stays missing in all others.
pub record IsDescribed (tool described : Fields) : Type 0 where
  pub rest : (k : String) → str_eq "description" k ≡ false → get k described ≡ get k tool
  pub kept :
      ¬ (IsBlank (get "description" tool)) → get "description" described ≡ get "description" tool
  pub omitted :
      IsBlank (get "description" tool) → IsHosted tool → get "description" described ≡ none
  pub filled :
      IsBlank (get "description" tool)
      → ¬ (IsHosted tool)
      → Wants tool
      → (s : String) × (get "description" described ≡ some (str s))
        × (nonblank s ≡ true)
        × ((t : String) → get "name" tool ≡ some (str t) → nonblank t ≡ true → s ≡ strip t)
  pub missing :
      IsBlank (get "description" tool)
      → ¬ (IsHosted tool)
      → ¬ (Wants tool)
      → get "description" described ≡ none

-- A tool that was treated keeps every key but its description. A description that says something stays;
-- one that is missing, null or blank is gone from a tool of a hosted type, is filled in, not blank and
-- with the tool's stripped name where it has one, in every other tool that is a function or custom
-- tool, has a function, a name and parameters or a name that is not blank, or had a null or blank one; and is missing in
-- all other tools.
pub apply_tool_description_action-IsDescribed :
    (tool described : Fields)
    → apply_tool_description_action tool ≡ ok described
    → IsDescribed tool described
unfolding apply_tool_description_action
apply_tool_description_action-IsDescribed tool described h =
    (Ensures-bind {P = IsDescribed tool} (tool_description_action tool) _ λ a e.
        Ensures-ok _ (record {
          rest = apply_action-rest a tool;
          kept = sent_kept tool a e;
          omitted = hosted_omitted tool a e;
          filled = λ b n w. filled_text tool a e (wanted_filled tool a e b n w);
          missing = unwanted_missing tool a e;
        })).at
      described h

-- A list or an object, which Python cannot hash.
abbrev pub is_unhashable : Option Value → Bool
is_unhashable (some (arr items)) = true
is_unhashable (some (obj fs)) = true
is_unhashable v = false

-- `apply_tool_description_action` with the tests on the tool as arguments
abbrev acted : Fields → Bool → Option Value → Bool → Bool → Bool → Bool → Result Raised Fields
acted tool missing type called declared named described = do
  action ←
      if not missing
      then ok leave
      else if is_builtin_type type
      then ok (if described then omit else leave)
      else (do
        client ← (do by_type ← is_client_type type; ok (by_type || called || declared || named))
        ok (if client || described then fill else leave))
  ok (apply_action action tool)

raises_iff :
    (tool : Fields) (missing : Bool) (type : Option Value) (called declared named described : Bool)
    → (acted tool missing type called declared named described ≡ err unhashable)
      ↔ ((missing ≡ true) × (is_unhashable type ≡ true))
unfolding ◌>>=◌
raises_iff tool missing none x y z w = ground arith
raises_iff tool missing (some null) x y z w = ground arith
raises_iff tool missing (some (bool b)) x y z w = ground arith
raises_iff tool missing (some (num b)) x y z w = ground arith
raises_iff tool missing (some (str b)) x y z w = ground arith
raises_iff tool missing (some (arr b)) x y z w = ground arith
raises_iff tool missing (some (obj b)) x y z w = ground arith

-- The treatment raises `TypeError` exactly for a tool whose description is missing or blank and
-- whose `type` is a list or an object.
pub apply_tool_description_action-eq-err_iff :
    (tool : Fields)
    → (apply_tool_description_action tool ≡ err unhashable)
      ↔ ((description_missing_or_blank tool ≡ true) × (is_unhashable (get "type" tool) ≡ true))
unfolding apply_tool_description_action tool_description_action is_builtin_responses_tool
    is_client_defined_tool
apply_tool_description_action-eq-err_iff tool =
    raises_iff tool (description_missing_or_blank tool) (get "type" tool) _ _ _
      (has "description" tool)
