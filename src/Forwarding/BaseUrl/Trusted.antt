-- ===== src/Forwarding/BaseUrl/Trusted.antt =====
-- The base URLs that are accepted.
use Prim.Native.String.{◌++◌}
use mathlib.Core.Bool.{and-eq-true_iff}
use gatebroker.Prelude.{
  String, ◌≡◌, ◌↔◌, ◌⊎◌, inl, inr, refl, ap, Bool, true, false, ◌&&◌, Option, none, some, List,
  arith, Bool-cases, In, str_eq, eq_iff,
}
use gatebroker.Text.{is_empty}
use gatebroker.Policy.Matching.{mem_iff}
use gatebroker.Forwarding.BaseUrl.{
  Url, cluster_local_host, rstrip_slash, scheme_is_allowed, is_trusted, checked, validated_base_url,
}

-- TLS, or plain text that the deployment allows, to a name inside the cluster.
abbrev pub IsAllowedScheme : Bool → Url → Type 0
IsAllowedScheme allow url =
    (url.scheme ≡ "https")
    ⊎ ((url.scheme ≡ "http") × (allow ≡ true) × (cluster_local_host url.host ≡ true))

pub record IsTrusted (trusted_hosts : List String) (allow : Bool) (url : Url) : Type 0 where
  pub named : is_empty url.host ≡ false
  pub host : In url.host trusted_hosts
  pub no_query : is_empty url.query ≡ true
  pub no_fragment : is_empty url.fragment ≡ true
  pub no_userinfo : is_empty url.userinfo ≡ true
  pub scheme : IsAllowedScheme allow url

scheme_sound :
    (allow : Bool) (url : Url) → scheme_is_allowed allow url ≡ true → IsAllowedScheme allow url
unfolding scheme_is_allowed
scheme_sound allow url h = elim (Bool-cases (str_eq url.scheme "https")) [
  | inl e ↦ inl ((eq_iff _ _).0 e)
  | inr e ↦ elim (Bool-cases (str_eq url.scheme "http")) [
    | inl f ↦
        let (a, c) = (and-eq-true_iff _ _).0 (rw f at (rw e at h)) in inr ((eq_iff _ _).0 f, a, c)
    | inr f ↦ absurd (cc (rw f at (rw e at h)))
  ]
]

scheme_complete :
    (allow : Bool) (url : Url) → IsAllowedScheme allow url → scheme_is_allowed allow url ≡ true
unfolding scheme_is_allowed
scheme_complete allow url (inl e) = rw e refl
scheme_complete allow url (inr (e, a, c)) = rw e (rw a (rw c refl))

IsTrusted-sound :
    (hosts : List String) (allow : Bool) (url : Url)
    → is_trusted hosts url && scheme_is_allowed allow url ≡ true
    → IsTrusted hosts allow url
unfolding is_trusted
IsTrusted-sound hosts allow url h = record {
  named = ground arith;
  host = (mem_iff url.host hosts).0 (ground arith);
  no_query = ground arith;
  no_fragment = ground arith;
  no_userinfo = ground arith;
  scheme = scheme_sound allow url (ground arith);
}

trusted_complete :
    (hosts : List String) (allow : Bool) (url : Url)
    → IsTrusted hosts allow url
    → is_trusted hosts url && scheme_is_allowed allow url ≡ true
unfolding is_trusted
trusted_complete hosts allow url h = rw h.named (
    rw ((mem_iff url.host hosts).1 h.host)
      (rw h.no_query (rw h.no_fragment (rw h.no_userinfo (scheme_complete allow url h.scheme)))))

-- What is accepted of a value: a trusted URL, with one slash at the end of its path.
abbrev pub IsBaseUrl : (String → Option Url) → String → List String → Bool → Url → Type 0
IsBaseUrl parse value hosts allow base =
    (url : Url) × (parse value ≡ some url)
    × IsTrusted hosts allow url
    × (record url { path = rstrip_slash url.path ++ "/" } ≡ base)

checked_sound :
    (parse : String → Option Url) (hosts : List String) (allow : Bool) (o : Option Url) (base : Url)
    → checked parse hosts allow o ≡ some base
    → (url : Url) × (o ≡ some url)
      × IsTrusted hosts allow url
      × (record url { path = rstrip_slash url.path ++ "/" } ≡ base)
checked_sound parse hosts allow none base h = cc
checked_sound parse hosts allow (some url) base h =
    elim (Bool-cases (is_trusted hosts url && scheme_is_allowed allow url)) [
      | inl e ↦ (url, refl, IsTrusted-sound hosts allow url e, cc (rw e at h))
      | inr e ↦ absurd (cc (rw e at h))
    ]

-- A base URL is accepted exactly when it parses to a URL with a host of the trusted ones, no query,
-- fragment or user, and the scheme https, or http where plain text is allowed and the host is a
-- name inside the cluster, whatever its port is; it is returned with its port and all else as it
-- was, but with exactly one slash at the end of its path.
pub validated_base_url-eq-some_iff :
    (parse : String → Option Url) (value : String) (hosts : List String) (allow : Bool) (base : Url)
    → (validated_base_url parse value hosts allow ≡ some base)
      ↔ IsBaseUrl parse value hosts allow base
unfolding validated_base_url
validated_base_url-eq-some_iff parse value hosts allow base = (
  (λ h. checked_sound parse hosts allow (parse value) base h),
  (λ (url, parsed, t, e). rw parsed (rw (trusted_complete hosts allow url t) (ap some e))),
)
