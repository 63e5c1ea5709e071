-- ===== src/Json.antt =====
-- The values of a JSON document as Python holds them: `json.loads` and the claims of a token give
-- these. A number is an integer or a float, and a float is finite, infinite or no number.
-- An object is a Python `dict` with string keys, in insertion order.
pub mod Laws
use gatebroker.Prelude.{
  ℕ, ◌*◌, ◌^◌, String, Bool, true, false, ◌&&◌, ◌||◌, Option, none, some, if◌then◌else◌, str_eq,
}
use gatebroker.Result.{Result, ok, ◌>>=◌}
use gatebroker.Prelude.Int.{ℤ, pos, ◌*ℤ◌, ltb_ℤ}

-- `finite m k` is m / 2 ^ k: every finite double is one of these.
pub data Number : Type 0 where
  int : ℤ → Number
  finite : ℤ → ℕ → Number
  inf neg_inf nan : Number

mutual
  pub data Value : Type 0 where
    null : Value
    bool : Bool → Value
    num : Number → Value
    str : String → Value
    obj : Fields → Value
    arr : Items → Value

  pub data Fields : Type 0 where
    end : Fields
    field : String → Value → Fields → Fields

  pub data Items : Type 0 where
    nil : Items
    cons : Value → Items → Items

-- `a < b` of two numbers, which Python decides exactly for an integer and a float too
abbrev pub scaled : ℤ → ℕ → ℤ
scaled a k = a *ℤ pos (2 ^ k)

unfoldable pub num_lt : Number → Number → Bool
unfolding ◌*ℤ◌
num_lt (int a) (int b) = ltb_ℤ a b
num_lt (int a) (finite b k) = ltb_ℤ (scaled a k) b
num_lt (finite a k) (int b) = ltb_ℤ a (scaled b k)
num_lt (finite a j) (finite b k) = ltb_ℤ (scaled a k) (scaled b j)
num_lt nan b = false
num_lt a nan = false
num_lt inf b = false
num_lt (int a) inf = true
num_lt (finite a k) inf = true
num_lt neg_inf inf = true
num_lt neg_inf neg_inf = false
num_lt neg_inf (int b) = true
num_lt neg_inf (finite b k) = true
num_lt (int a) neg_inf = false
num_lt (finite a k) neg_inf = false

-- `value == text`
abbrev pub is_str : String → Value → Bool
is_str s (str t) = str_eq t s
is_str s v = false

-- `d.get(key)`
unfoldable pub get : String → Fields → Option Value
get k end = none
get k (field j v fs) = if str_eq j k then some v else get k fs

abbrev pub is_some {ℓ} : {A : Type ℓ} → Option A → Bool
is_some none = false
is_some (some a) = true

-- `key in d`
abbrev pub has : String → Fields → Bool
has k fs = is_some (get k fs)

-- `d[key] = value`: a key keeps its place, a new one goes to the end
unfoldable pub put : String → Value → Fields → Fields
put k v end = field k v end
put k v (field j w fs) = if str_eq j k then field j v fs else field j w (put k v fs)

-- `del d[key]`
unfoldable pub delete : String → Fields → Fields
delete k end = end
delete k (field j w fs) = let rest = delete k fs in if str_eq j k then rest else field j w rest

-- `text in items`
unfoldable pub mem_str : String → Items → Bool
mem_str s nil = false
mem_str s (cons v vs) = is_str s v || mem_str s vs

-- `[f(item) for item in items]`, where `f` may raise
unfoldable pub traverse_items {ι} : {E : Type ι} → (Value → Result E Value) → Items → Result E Items
traverse_items f nil = ok nil
traverse_items f (cons v vs) = do w ← f v; ws ← traverse_items f vs; ok (cons w ws)

unfoldable pub all_items : (Value → Bool) → Items → Bool
all_items p nil = true
all_items p (cons v vs) = p v && all_items p vs

abbrev pub is_nil : Items → Bool
is_nil nil = true
is_nil (cons v vs) = false

-- `[*items, value]`
unfoldable pub append_item : Items → Value → Items
append_item nil v = cons v nil
append_item (cons w vs) v = cons w (append_item vs v)
