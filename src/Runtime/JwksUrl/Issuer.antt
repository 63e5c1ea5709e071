-- ===== src/Runtime/JwksUrl/Issuer.antt =====
-- The key endpoints that an issuer is accepted with.
use Prim.Native.String.{◌++◌}
use gatebroker.Prelude.{
  String, ◌≡◌, ◌↔◌, ◌⊎◌, inl, inr, refl, ◌∙◌, true, false, Option, some, arith, str_eq, eq_iff,
  eq_refl,
}
use gatebroker.Result.{
  ok, Ensures-if, Ensures, Ensures-bind, Ensures-guard, guard-true, bind_ok, or_raise-some,
  or_raise-eq-ok, guard-eq-ok,
}
use gatebroker.Text.{is_empty, split_on, starts_with}
use gatebroker.Forwarding.BaseUrl.{rstrip_slash}
use gatebroker.Runtime.JwksUrl.{
  SplitResult, entra_host, is_plain_https, is_below, check_same_origin, tenant_of, entra_endpoint,
  validate_entra_jwks_url, validate_other_jwks_url, validate_jwks_url,
}

pub record IsPlainHttps (u : SplitResult) : Type 0 where
  pub scheme : u.scheme ≡ "https"
  pub no_query : is_empty u.query ≡ true
  pub no_fragment : is_empty u.fragment ≡ true

-- The path of the key endpoint lies below the issuer's, if that has one.
abbrev pub IsBelow : SplitResult → SplitResult → Type 0
IsBelow issuer jwks =
    (is_empty (rstrip_slash issuer.path) ≡ true)
    ⊎ (starts_with jwks.path (rstrip_slash issuer.path ++ "/") ≡ true)

pub record IsSameOrigin (issuer jwks : SplitResult) : Type 0 where
  pub plain : IsPlainHttps jwks
  pub origin : jwks.netloc ≡ issuer.netloc
  pub below : IsBelow issuer jwks

-- The endpoint is the one of the tenant that the issuer's path names.
abbrev pub IsEntra : SplitResult → String → Type 0
IsEntra issuer jwks_url =
    (tenant : String) × (tenant_of (split_on b'/' issuer.path) ≡ some tenant)
    × (jwks_url ≡ entra_endpoint tenant)

plain_iff : (u : SplitResult) → (is_plain_https u ≡ true) ↔ IsPlainHttps u
plain_iff u = (
  (λ h. record {
    scheme = (eq_iff u.scheme "https").0 (ground arith);
    no_query = ground arith;
    no_fragment = ground arith;
  }),
  (λ p. rw p.scheme (rw p.no_query (rw p.no_fragment refl))),
)

IsBelow-iff : (i j : SplitResult) → (is_below i j ≡ true) ↔ IsBelow i j
IsBelow-iff i j = ground arith

IsEntra-sound :
    (i : SplitResult) (jwks_url : String)
    → Ensures (λ _. IsEntra i jwks_url) (validate_entra_jwks_url i jwks_url)
unfolding validate_entra_jwks_url
IsEntra-sound i jwks_url = Ensures-bind _ _ λ tenant t. record {
  at = λ u h. (tenant, or_raise-eq-ok _ _ _ t, (eq_iff _ _).0 (guard-eq-ok _ _ h));
}

IsSameOrigin-sound : (i j : SplitResult) → Ensures (λ _. IsSameOrigin i j) (check_same_origin i j)
unfolding check_same_origin
IsSameOrigin-sound i j = Ensures-guard _ _ _ λ plain. Ensures-guard _ _ _ λ origin. record {
  at = λ u h. record {
    plain = (plain_iff j).0 plain;
    origin = (eq_iff _ _).0 origin;
    below = (IsBelow-iff i j).0 (guard-eq-ok _ _ h);
  };
}

-- An issuer other than Entra: the endpoint is plain https at the issuer's own origin.
abbrev pub IsOther : (String → Option SplitResult) → SplitResult → String → Type 0
IsOther urlsplit issuer jwks_url =
    (jwks : SplitResult) × (urlsplit jwks_url ≡ some jwks) × IsSameOrigin issuer jwks

module _ (urlsplit : String → Option SplitResult) where
  IsOther-sound :
      (i : SplitResult) (jwks_url : String)
      → Ensures (λ _. IsOther urlsplit i jwks_url) (validate_other_jwks_url urlsplit i jwks_url)
  unfolding validate_other_jwks_url
  IsOther-sound i jwks_url =
      Ensures-bind _ _
        λ j s. record { at = λ u h. (j, or_raise-eq-ok _ _ _ s, (IsSameOrigin-sound i j).at u h) }

  -- Either rule, by the issuer's host.
  abbrev IsFrom : SplitResult → String → Type 0
  IsFrom i jwks_url =
      ((i.netloc ≡ entra_host) × IsEntra i jwks_url)
      ⊎ ((str_eq i.netloc entra_host ≡ false) × IsOther urlsplit i jwks_url)

  -- The issuer and the key endpoint belong together.
  abbrev pub IsBound : String → String → Type 0
  IsBound issuer jwks_url =
      (i : SplitResult) × (urlsplit issuer ≡ some i)
      × IsPlainHttps i
      × (is_empty i.netloc ≡ false)
      × (((i.netloc ≡ entra_host) × IsEntra i jwks_url)
          ⊎ ((str_eq i.netloc entra_host ≡ false) × IsOther urlsplit i jwks_url))

  validate_sound :
      (issuer jwks_url : String)
      → Ensures (λ _. IsBound issuer jwks_url) (validate_jwks_url urlsplit issuer jwks_url)
  unfolding validate_jwks_url
  validate_sound issuer jwks_url = Ensures-bind _ _ λ i s. Ensures-guard _ _ _ λ ok_issuer. record {
    at = λ u h. (
      i,
      or_raise-eq-ok _ _ _ s,
      (plain_iff i).0 (ground arith),
      ground arith,
      (Ensures-if {P = λ _. IsFrom i jwks_url} _ _ _
            (λ e. record { at = λ v g. inl ((eq_iff _ _).0 e, (IsEntra-sound i jwks_url).at v g) })
            (λ e. record { at = λ v g. inr (e, (IsOther-sound i jwks_url).at v g) })).at
          u h,
    );
  }

  entra_complete :
      (i : SplitResult) (jwks_url : String)
      → IsEntra i jwks_url
      → validate_entra_jwks_url i jwks_url ≡ ok tt
  unfolding validate_entra_jwks_url
  entra_complete i jwks_url (tenant, t, e) =
      bind_ok _ _ tenant (or_raise-some _ _ _ t) ∙ rw e (rw eq_refl refl)

  other_complete :
      (i : SplitResult) (jwks_url : String)
      → IsOther urlsplit i jwks_url
      → validate_other_jwks_url urlsplit i jwks_url ≡ ok tt
  unfolding validate_other_jwks_url check_same_origin
  other_complete i jwks_url (j, s, o) =
      bind_ok _ _ j (or_raise-some _ _ _ s)
      ∙ guard-true _ _ _ ((plain_iff j).1 o.plain)
      ∙ guard-true _ _ _ (rw o.origin (eq_refl i.netloc))
      ∙ rw ((IsBelow-iff i j).1 o.below) refl

  validate_complete :
      (issuer jwks_url : String)
      → IsBound issuer jwks_url
      → validate_jwks_url urlsplit issuer jwks_url ≡ ok tt
  unfolding validate_jwks_url
  validate_complete issuer jwks_url (i, s, plain, named, rule) =
      bind_ok _ _ i (or_raise-some _ _ _ s)
      ∙ guard-true _ _ _ (rw ((plain_iff i).1 plain) (rw named refl))
      ∙ elim rule [
        | inl (host, e) ↦ rw host (entra_complete i jwks_url e)
        | inr (host, o) ↦ rw host (other_complete i jwks_url o)
      ]

  -- A key endpoint is accepted with an issuer exactly when the issuer is an https URL with a host and
  -- without query or fragment, and the endpoint is, for Entra, the discovery URL of the tenant that
  -- the issuer names, and for any other issuer an https URL without query or fragment at the
  -- issuer's own host and port, below its path.
  pub validate_jwks_url-eq-ok_iff :
      (issuer jwks_url : String)
      → (validate_jwks_url urlsplit issuer jwks_url ≡ ok tt) ↔ IsBound issuer jwks_url
  validate_jwks_url-eq-ok_iff issuer jwks_url =
      ((validate_sound issuer jwks_url).at tt, validate_complete issuer jwks_url)
