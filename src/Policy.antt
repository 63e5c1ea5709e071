-- ===== src/Policy.antt =====
-- src/gatebroker/policy.py: the policy record, loading a policy document and resolving the one
-- policy of a caller. A frozenset is the list of its elements, read only through membership.
pub mod Matching
pub mod Resolve
pub mod Load
use Prim.Native.Char.{code}
use Prim.Native.String
use gatebroker.Prelude.{
  ℕ, String, Bool, true, false, not, ◌&&◌, ◌||◌, Option, none, some, List, [], ◌∷◌, map, any,
  filter, length, leb, ◌==◌, if◌then◌else◌, str_eq,
}
use gatebroker.Prelude.Int
use gatebroker.Prelude.Int.{ℤ, ◌==ℤ◌}
use gatebroker.Result.{Result, ok, err, ◌>>=◌, ◌>>◌, guard, or_raise}
use gatebroker.Text.{is_empty, strip, nonblank}
use gatebroker.Json.{
  Value, str, num, arr, obj, Number, Items, nil, cons, Fields, get, is_nil, all_items,
}

-- PolicyConfigurationError, by its message
pub data ConfigurationError : Type 0 where
  invalid_document invalid_record invalid_id invalid_entitlements : ConfigurationError
  invalid_models invalid_key_reference invalid_priority duplicate_id : ConfigurationError

-- EntitlementResolutionError, by its message
pub data ResolutionError : Type 0 where
  no_match tie : ResolutionError

pub record Policy : Type 0 where
  pub id : String
  pub group_ids : List String
  pub allowed_models : List String
  pub key_ref : String
  pub priority : ℤ
  pub app_roles : List String

-- `text in set`
unfoldable pub mem : String → List String → Bool
mem s [] = false
mem s (x ∷ xs) = str_eq x s || mem s xs

is_nonblank_str : Value → Bool
is_nonblank_str (str s) = nonblank s
is_nonblank_str v = false

unfoldable pub strings : Value → Bool
unfolding is_nonblank_str
strings (arr items) = all_items is_nonblank_str items
strings v = false

-- the truth value of what `strings` accepts
abbrev is_nonempty : Value → Bool
is_nonempty (arr items) = not (is_nil items)
is_nonempty v = false

unfoldable pub nonempty_strings : Value → Bool
unfolding is_nonblank_str
nonempty_strings (arr items) = not (is_nil items) && all_items is_nonblank_str items
nonempty_strings v = false

-- `frozenset(item.strip() for item in items)`; every item is a text where this is called
strip_items : Items → List String
strip_items nil = []
strip_items (cons (str s) vs) = strip s ∷ strip_items vs
strip_items (cons v vs) = strip_items vs

unfoldable pub stripped : Value → List String
unfolding strip_items
stripped (arr items) = strip_items items
stripped v = []

-- `re.fullmatch(r"[A-Z_][A-Z0-9_]*", key_ref)`
abbrev is_upper : ℕ → Bool
is_upper c = (leb b'A' c && leb c b'Z') || (c == b'_')

key_tail : String → Bool
key_tail String.[] = true
key_tail (String.◌∷◌ c s) =
    (is_upper (code c) || (leb b'0' (code c) && leb (code c) b'9')) && key_tail s

unfoldable pub is_key_ref : String → Bool
unfolding key_tail
is_key_ref String.[] = false
is_key_ref (String.◌∷◌ c s) = is_upper (code c) && key_tail s

-- the four fields that are tested by their type, with the error of each test
policy_id : Value → Result ConfigurationError String
policy_id (str s) = if nonblank s then ok s else err invalid_id
policy_id v = err invalid_id

key_reference : Value → Result ConfigurationError String
key_reference (str s) = if is_key_ref s then ok s else err invalid_key_reference
key_reference v = err invalid_key_reference

integer : Value → Result ConfigurationError ℤ
integer (num (Number.int n)) = ok n
integer v = err invalid_priority

-- `record.get(key, [])`
abbrev get_list : String → Fields → Value
get_list k r = elim (get k r) [ none ↦ arr nil | some v ↦ v ]

unfoldable pub policy_from_record : Value → Result ConfigurationError Policy
unfolding policy_id key_reference integer
policy_from_record (obj r) = do
  id ← or_raise (get "id" r) invalid_record
  let groups = get_list "group_ids" r
  let app_roles = get_list "app_roles" r
  models ← or_raise (get "allowed_models" r) invalid_record
  key_ref ← or_raise (get "key_ref" r) invalid_record
  priority ← or_raise (get "priority" r) invalid_record
  id ← policy_id id
  guard (strings groups && strings app_roles && (is_nonempty groups || is_nonempty app_roles))
      invalid_entitlements
  guard (nonempty_strings models) invalid_models
  key_ref ← key_reference key_ref
  priority ← integer priority
  ok (record {
    id = strip id;
    group_ids = stripped groups;
    allowed_models = stripped models;
    key_ref = key_ref;
    priority = priority;
    app_roles = stripped app_roles;
  })
policy_from_record v = err invalid_record

-- `tuple(_policy_from_record(record) for record in records)`
pub policies_from : Items → Result ConfigurationError (List Policy)
policies_from nil = ok []
policies_from (cons v vs) = do p ← policy_from_record v; ps ← policies_from vs; ok (p ∷ ps)

-- the elements of `{item for item in items}`
unfoldable pub unique : List String → List String
unique [] = []
unique (x ∷ xs) = let rest = unique xs in if mem x xs then rest else x ∷ rest

-- `json_loads` is `json.loads`, with `none` where it raises.
module _ (json_loads : String → Option Value) where
  records : String → Result ConfigurationError Items
  records document = elim (json_loads document) [
    | some (obj fs) ↦ elim (get "policies" fs) [
      | some (arr items) ↦ ok items
      | _ ↦ err invalid_document
    ]
    | _ ↦ err invalid_document
  ]

  unfoldable pub load_policies : String → Result ConfigurationError (List Policy)
  unfolding records policies_from unique
  load_policies document = do
    items ← records document
    policies ← policies_from items
    guard (length (unique (map (λ (p : Policy). p.id) policies)) == length policies) duplicate_id
    ok policies

-- `bool(xs.intersection(ys))`
pub overlaps : List String → List String → Bool
overlaps xs ys = any (λ s. mem s ys) xs

module _ (token_group_ids token_app_roles : List String) where
  pub is_match : Policy → Bool
  unfolding overlaps
  is_match p = overlaps p.group_ids token_group_ids || overlaps p.app_roles token_app_roles

-- `max(policy.priority for policy in p :: ps)`
pub highest_priority : Policy → List Policy → ℤ
highest_priority p [] = p.priority
highest_priority p (q ∷ qs) = Int.max p.priority (highest_priority q qs)

abbrev pub only : List Policy → Result ResolutionError Policy
only (p ∷ []) = ok p
only ps = err tie

abbrev pub at_priority : ℤ → Policy → Bool
at_priority n p = p.priority ==ℤ n

pub winner : List Policy → Result ResolutionError Policy
winner [] = err no_match
winner (p ∷ ps) = only (filter (at_priority (highest_priority p ps)) (p ∷ ps))

unfoldable pub resolve_entitlement :
    List Policy → List String → List String → Result ResolutionError Policy
unfolding is_match highest_priority winner
resolve_entitlement policies token_group_ids token_app_roles =
    winner (filter (is_match token_group_ids token_app_roles) policies)
