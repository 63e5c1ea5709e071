-- ===== src/Profile.antt =====
-- src/gatebroker/profile.py: the distribution's profile, the development profile that an unconfigured
-- build may read, and `_settings` of cli.py, which asks for one of them.
pub mod Development
use gatebroker.Prelude.{
  ℕ, String, Bool, true, false, not, ◌&&◌, ◌||◌, ◌==◌, Option, none, some, List, [], ◌∷◌, str_eq,
  if◌then◌else◌,
}
use gatebroker.Prelude.Int.{pos, negsuc}
use gatebroker.Result.{Result, ok, err, ◌>>=◌, ◌>>◌, guard, or_raise}
use gatebroker.Text.{is_empty, strip}
use gatebroker.Json.{
  Value, null, bool, num, str, obj, arr, Number, Items, nil, cons, Fields, end, field, get, has,
}

-- The module's variables.
pub record Profile : Type 0 where
  pub tenant_id : String
  pub oidc_authority : String
  pub client_id : String
  pub scope : String
  pub base_url : String
  pub gateway_name : String
  pub ca_bundle : String
  pub models : List (String × String)
  pub configured : Bool
  pub development : Bool

-- `RuntimeError` and `ClickException`, by what the message says
pub data ProfileError : Type 0 where
  unreadable no_object missing_keys not_exactly_one no_models no_pairs : ProfileError
  unreadable_bundle not_configured ambiguous_authority : ProfileError

-- `bool(value)`
abbrev pub is_truthy_number : Number → Bool
is_truthy_number (Number.int (pos n)) = not (n == 0)
is_truthy_number (Number.finite (pos n) k) = not (n == 0)
is_truthy_number n = true

abbrev pub is_truthy : Option Value → Bool
is_truthy none = false
is_truthy (some null) = false
is_truthy (some (bool b)) = b
is_truthy (some (num n)) = is_truthy_number n
is_truthy (some (str s)) = not (is_empty s)
is_truthy (some (obj end)) = false
is_truthy (some (arr nil)) = false
is_truthy (some v) = true

-- `bool(a) == bool(b)`
abbrev pub same : Bool → Bool → Bool
same true b = b
same false b = not b

-- What `slug, label = item` unpacks: a list of two, the letters of a text of two, or the keys of an
-- object of two.
abbrev pub pair_of : Value → Option (Value × Value)
pair_of (arr (cons a (cons b nil))) = some (a, b)
pair_of (obj (field a v (field b w end))) = some (str a, str b)
pair_of (str (Prim.Native.String.◌∷◌ c (Prim.Native.String.◌∷◌ d Prim.Native.String.[]))) = some (
  str (Prim.Native.String.◌∷◌ c Prim.Native.String.[]),
  str (Prim.Native.String.◌∷◌ d Prim.Native.String.[]),
)
pair_of v = none

-- Where the profile comes from: the file's document, with `none` where it is unreadable, `str`, and the
-- functions of `Path`; `beside` is a path in the directory of another.
pub record System : Type 0 where
  pub read_document : String → Option Value
  pub to_text : Value → String
  pub is_absolute : String → Bool
  pub beside : String → String → String
  pub normal : String → String
  pub is_file : String → Bool

-- `str(value or default)`
abbrev pub text_or : System → Option Value → String → String
text_or s none default = default
text_or s (some v) default = if is_truthy (some v) then s.to_text v else default

-- `str(document[key])`
abbrev pub text_of : System → Option Value → String
text_of s none = ""
text_of s (some v) = s.to_text v

abbrev pub join_pair :
    System
    → Option (Value × Value)
    → Option (List (String × String))
    → Option (List (String × String))
join_pair s (some (a, b)) (some pairs) = some ((s.to_text a, s.to_text b) ∷ pairs)
join_pair s p pairs = none

unfoldable pub pairs_of : System → Items → Option (List (String × String))
pairs_of s nil = some []
pairs_of s (cons v vs) = join_pair s (pair_of v) (pairs_of s vs)

-- The list of `models`: it must be there, and not be empty.
unfoldable pub listed_models : System → Option Value → Result ProfileError (List (String × String))
unfolding pairs_of
listed_models s (some (arr (cons v vs))) = or_raise (pairs_of s (cons v vs)) no_pairs
listed_models s v = err no_models

-- The bundle, against the profile's own directory.
abbrev pub resolved : System → String → String → String
resolved s location bundle =
    if s.is_absolute bundle then s.normal bundle else s.beside location bundle

abbrev pub checked_bundle : System → String → String → Result ProfileError String
checked_bundle s location bundle =
    if is_empty bundle
    then ok ""
    else if s.is_file (resolved s location bundle)
    then ok (resolved s location bundle)
    else err unreadable_bundle

abbrev pub object_of : Value → Option Fields
object_of (obj fs) = some fs
object_of v = none

-- Once all is checked, every variable is set.
abbrev pub adopted : System → Fields → List (String × String) → String → Profile
adopted s document models bundle = record {
  tenant_id = text_or s (get "tenant_id" document) "";
  oidc_authority = text_or s (get "oidc_authority" document) "";
  client_id = text_of s (get "client_id" document);
  scope = text_of s (get "scope" document);
  base_url = text_of s (get "base_url" document);
  gateway_name = text_or s (get "gateway_name" document) "GateBroker";
  ca_bundle = bundle;
  models = models;
  configured = true;
  development = true;
}

unfoldable pub read_profile : System → String → Fields → Result ProfileError Profile
read_profile s location document = do
  guard (has "client_id" document && has "scope" document && has "base_url" document) missing_keys
  guard
      (not
        (same (is_truthy (get "tenant_id" document)) (is_truthy (get "oidc_authority" document))))
      not_exactly_one
  models ← listed_models s (get "models" document)
  bundle ← checked_bundle s location (text_or s (get "ca_bundle" document) "")
  ok (adopted s document models bundle)

-- `variable` is the value of `GABRO_DEV_PROFILE`, the empty text where it is not set.
unfoldable pub apply_development_profile : System → String → Profile → Result ProfileError Profile
unfolding read_profile strip
apply_development_profile s variable p =
    if p.configured || is_empty (strip variable) then ok p else (do
      value ← or_raise (s.read_document (strip variable)) unreadable
      document ← or_raise (object_of value) no_object
      read_profile s (strip variable) document)

-- `_settings`: tenant, client, scope and base URL
unfoldable pub settings : Profile → Result ProfileError (String × String × String × String)
settings p = do
  guard p.configured not_configured
  guard (not (same (not (is_empty p.tenant_id)) (not (is_empty p.oidc_authority))))
      ambiguous_authority
  ok (p.tenant_id, p.client_id, p.scope, p.base_url)
