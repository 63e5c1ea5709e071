-- ===== src/Runtime/Settings/Load/Sound.antt =====
-- What settings that load have.
use gatebroker.Prelude.{ℕ, ◌≤◌, ◌≡◌, refl, arith, String, Bool, true, Option, none, some}
use gatebroker.Prelude.Int.{ℤ, pos, negsuc}
use gatebroker.Result.{
  Result, ok, err, ◌>>=◌, or_raise, Ensures, Ensures-ok, Ensures-bind, Ensures-guard,
}
use gatebroker.Runtime.JwksUrl.{SplitResult, JwksUrlError, validate_jwks_url}
use gatebroker.Runtime.Settings.{
  RuntimeError, must_be_positive, positive, max_configurable_bytes, positive_integer, byte_bound,
  claim_name, is_claim_name,
}
use gatebroker.Runtime.Settings.Bounds.{byte_bound-eq-ok_iff}
use gatebroker.Runtime.Settings.Load.{
  RuntimeSettings, of_variable, of_jwks, is_nonempty, load_runtime_settings,
}

abbrev pub IsInRange : ℕ → Type 0
IsInRange n = (1024 ≤ n) × (n ≤ max_configurable_bytes)

-- The key endpoint belongs to the issuer, some host is trusted, the limits are positive, the byte
-- bounds are within the range, and the claim names are plain.
pub record IsSound (urlsplit : String → Option SplitResult) (s : RuntimeSettings) : Type 0 where
  pub endpoint : validate_jwks_url urlsplit s.oidc.issuer s.jwks_url ≡ ok tt
  pub hosts : is_nonempty s.trusted_upstream_hosts ≡ true
  pub requests : 1 ≤ s.rate_limit_requests
  pub window : 1 ≤ s.rate_limit_window_seconds
  pub keys : 1 ≤ s.rate_limit_max_keys
  pub request_bytes : IsInRange s.max_request_bytes
  pub response_bytes : IsInRange s.max_response_bytes
  pub subject : is_claim_name s.oidc.subject_claim ≡ true
  pub scope : is_claim_name s.oidc.scope_claim ≡ true

of_variable-eq-ok :
    {A : Type 0} (r : Result RuntimeError A) (a : A) → of_variable r ≡ ok a → r ≡ ok a
of_variable-eq-ok (ok b) a e = cc
of_variable-eq-ok (err f) a e = cc

of_jwks-eq-ok : (r : Result JwksUrlError (Unit {0})) → of_jwks r ≡ ok tt → r ≡ ok tt
of_jwks-eq-ok (ok u) e = refl
of_jwks-eq-ok (err f) e = cc

positive-eq-ok :
    (o : Option ℤ) (n : ℕ)
    → (or_raise o must_be_positive >>= λ parsed. positive parsed) ≡ ok n
    → 1 ≤ n
unfolding ◌>>=◌
positive-eq-ok none n h = cc
positive-eq-ok (some (pos m)) n h = ground arith
positive-eq-ok (some (negsuc m)) n h = cc

of_positive :
    (int : String → Option ℤ) (value : String) (n : ℕ)
    → of_variable (positive_integer int value) ≡ ok n
    → 1 ≤ n
unfolding positive_integer
of_positive int value n h = positive-eq-ok (int value) n (of_variable-eq-ok _ n h)

of_bound :
    (int : String → Option ℤ) (value : String) (n : ℕ)
    → of_variable (byte_bound int value) ≡ ok n
    → IsInRange n
of_bound int value n h =
    let (same, low, high) = (byte_bound-eq-ok_iff int value n).0 (of_variable-eq-ok _ n h) in
    (low, high)

claim_name-eq-ok : (value name : String) → claim_name value ≡ ok name → is_claim_name name ≡ true
unfolding claim_name
claim_name-eq-ok value name h = ground arith

of_claim :
    (value name : String) → of_variable (claim_name value) ≡ ok name → is_claim_name name ≡ true
of_claim value name h = claim_name-eq-ok value name (of_variable-eq-ok _ name h)

module _ (read_text : String → Option String) (is_readable : String → Bool)
    (urlsplit : String → Option SplitResult) (int : String → Option ℤ) where
  loads-IsSound :
      (values : String → Option String)
      → Ensures (IsSound urlsplit) (load_runtime_settings read_text is_readable urlsplit int values)
  unfolding load_runtime_settings
  loads-IsSound values = Ensures-bind _ _ (λ issuer _. Ensures-bind _ _ (λ audience _.
      Ensures-bind _ _ (λ required_scope _. Ensures-bind _ _ (λ jwks_url _.
        Ensures-bind _ _ (λ u endpoint. Ensures-bind _ _ (λ policy_path _.
          Ensures-bind _ _ (λ upstream _. Ensures-bind _ _ (λ trusted _.
            Ensures-guard _ _ _ (λ hosts. Ensures-bind _ _ (λ policies _.
              Ensures-bind _ _ (λ subject s. Ensures-bind _ _ (λ scope c.
                Ensures-bind _ _ (λ requests r. Ensures-bind _ _ (λ window w.
                  Ensures-bind _ _ (λ keys k. Ensures-bind _ _ (λ plaintext _.
                    Ensures-bind _ _ (λ request_bytes q. Ensures-bind _ _ (λ response_bytes p.
                      Ensures-bind _ _ (λ bundle _. Ensures-ok _ (record {
                        endpoint = of_jwks-eq-ok _ endpoint;
                        hosts = hosts;
                        requests = of_positive int _ requests r;
                        window = of_positive int _ window w;
                        keys = of_positive int _ keys k;
                        request_bytes = of_bound int _ request_bytes q;
                        response_bytes = of_bound int _ response_bytes p;
                        subject = of_claim _ subject s;
                        scope = of_claim _ scope c;
                      }))))))))))))))))))))

  -- Settings that load have a key endpoint that belongs to their issuer, a trusted host, positive
  -- limits, byte bounds from 1024 to the largest that can be configured, and plain claim names.
  pub load_runtime_settings-IsSound :
      (values : String → Option String) (s : RuntimeSettings)
      → load_runtime_settings read_text is_readable urlsplit int values ≡ ok s
      → IsSound urlsplit s
  load_runtime_settings-IsSound values s h = (loads-IsSound values).at s h
