-- ===== src/Forwarding/Reading.antt =====
-- `_bearer_token` and `_request_object`: what the handlers take from a request.
pub mod Bounds
pub mod Bearer
use gatebroker.Prelude.{
  ℕ, ◌+◌, String, Bool, true, false, not, ◌&&◌, ◌||◌, Option, none, some, List, [], ◌∷◌, ◌++◌, leb,
  ltb, length, if◌then◌else◌, str_eq,
}
use gatebroker.Prelude.Int.{ℤ, pos, ltb_ℤ}
use gatebroker.Text.{is_empty, strip, has_space, lower_eq, partition}
use gatebroker.Text.Number.{parse_int}
use gatebroker.Json.{Value, obj, Fields}
use gatebroker.Forwarding.{Bytes, Request}
use gatebroker.Forwarding.Depth.{exceeds_max_json_depth}

unfoldable pub bearer_token : Option String → Option String
bearer_token none = none
bearer_token (some value) =
    let (scheme, separator, token) = partition b' ' value in
    if not (lower_eq scheme "bearer")
      || not separator
      || is_empty token
      || not (str_eq (strip token) token)
      || has_space token
    then none
    else some token

-- `int(content_length) > max_request_bytes`, or no number at all
pub declares_too_much : Option String → ℕ → Bool
declares_too_much none max_request_bytes = false
declares_too_much (some value) max_request_bytes = elim (parse_int value) [
  | none ↦ true
  | some n ↦ ltb_ℤ (pos max_request_bytes) n
]

-- The loop over `request.stream()`, from `received` bytes and the chunks read so far, joined.
pub read_chunks : ℕ → ℕ → Bytes → List Bytes → Option Bytes
read_chunks max_request_bytes received body [] = some body
read_chunks max_request_bytes received body (chunk ∷ chunks) =
    let rest = read_chunks max_request_bytes (received + length chunk) (body ++ chunk) chunks in
    if ltb max_request_bytes (received + length chunk) then none else rest

-- What `json.loads` of bytes does: a value, an exception that is caught here, or one that is not, as
-- the `ValueError` of an integer with too many digits.
pub data Loaded : Type 0 where
  parsed : Value → Loaded
  rejected escaped : Loaded

-- What is read: a dict, `None`, or an exception that leaves the handler.
pub data Body : Type 0 where
  dict : Fields → Body
  nothing raised : Body

abbrev pub dict_of : Loaded → Body
dict_of (parsed (obj fs)) = dict fs
dict_of (parsed v) = nothing
dict_of rejected = nothing
dict_of escaped = raised

module _ (json_loads : Bytes → Loaded) where
  pub parse_body : Bytes → Body
  parse_body raw_body =
      if exceeds_max_json_depth raw_body then nothing else dict_of (json_loads raw_body)

  unfoldable pub request_object : Request → ℕ → Body
  unfolding declares_too_much read_chunks parse_body
  request_object request max_request_bytes =
      if declares_too_much (request.header "content-length") max_request_bytes
      then nothing
      else elim (read_chunks max_request_bytes 0 [] request.chunks) [
        | none ↦ nothing
        | some raw_body ↦ parse_body raw_body
      ]
