-- ===== src/Forwarding/BaseUrl.antt =====
-- `_validated_base_url` and `_cluster_local_host`: where the broker may send requests.
pub mod Trusted
use Prim.Native.String.{[], ◌∷◌, ◌++◌}
use gatebroker.Prelude.{
  ℕ, String, Bool, true, false, not, ◌&&◌, ◌||◌, Option, none, some, List, str_eq, if◌then◌else◌,
}
use gatebroker.Text.{is_empty, ends_with}
use gatebroker.Policy.{mem}

-- The parts of an `httpx.URL`; `port` is `none` where the text names none, or the default one.
pub record Url : Type 0 where
  pub scheme : String
  pub userinfo : String
  pub host : String
  pub port : Option ℕ
  pub path : String
  pub query : String
  pub fragment : String

pub cluster_local_host : String → Bool
cluster_local_host host = ends_with host ".svc.cluster.local" || ends_with host ".svc"

-- `path.rstrip("/")`
unfoldable pub rstrip_slash : String → String
rstrip_slash [] = []
rstrip_slash (c ∷ s) =
    let rest = rstrip_slash s in if is_empty rest && str_eq (c ∷ []) "/" then [] else c ∷ rest

pub scheme_is_allowed : Bool → Url → Bool
scheme_is_allowed allow_cluster_local_plaintext url =
    if str_eq url.scheme "https"
    then true
    else if str_eq url.scheme "http"
    then allow_cluster_local_plaintext && cluster_local_host url.host
    else false

-- The first condition of the code, negated.
pub is_trusted : List String → Url → Bool
is_trusted trusted_hosts url =
    not (is_empty url.host)
    && mem url.host trusted_hosts
    && is_empty url.query
    && is_empty url.fragment
    && is_empty url.userinfo

-- `parse` is `httpx.URL`, which may raise; `none` is an exception.
module _ (parse : String → Option Url) where
  abbrev pub checked : List String → Bool → Option Url → Option Url
  checked trusted_hosts allow none = none
  checked trusted_hosts allow (some url) =
      if is_trusted trusted_hosts url && scheme_is_allowed allow url
      then some (record url { path = rstrip_slash url.path ++ "/" })
      else none

  unfoldable pub validated_base_url : String → List String → Bool → Option Url
  unfolding is_trusted scheme_is_allowed rstrip_slash
  validated_base_url value trusted_hosts allow_cluster_local_plaintext =
      checked trusted_hosts allow_cluster_local_plaintext (parse value)
