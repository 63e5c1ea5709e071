-- ===== src/Forwarding/Handler/Headers.antt =====
-- What stands in the headers of a request sent upstream, whatever the client's headers are.
use Prim.Native.String.{◌++◌}
use gatebroker.Prelude.{
  String, ◌≡◌, refl, ◌∙◌, ap, inl, inr, false, List, [], ◌∷◌, In, Bool-cases, str_eq, eq_iff,
}
use gatebroker.Policy.{Policy}
use gatebroker.Forwarding.{Endpoint, Request}
use gatebroker.Forwarding.Checks.{safe_upstream_headers}
use gatebroker.Forwarding.Handler.{set_header, upstream_headers}

set_header-In :
    (name value : String) (hs : List (String × String))
    → In (name, value) (set_header name value hs)
unfolding set_header
set_header-In name value [] = inl refl
set_header-In name value ((k, v) ∷ hs) = elim (Bool-cases (str_eq k name)) [
  | inl e ↦ rw e (inl (ap (λ n. (n, value)) ((eq_iff k name).0 e)))
  | inr e ↦ rw e (inr (set_header-In name value hs))
]

set_header-keeps :
    (name value other x : String) (hs : List (String × String))
    → str_eq other name ≡ false
    → In (other, x) hs
    → In (other, x) (set_header name value hs)
unfolding set_header
set_header-keeps name value other x ((k, v) ∷ hs) n (inl e) =
    let differs : str_eq k name ≡ false = ap (λ (h : String × String). str_eq h.0 name) e ∙ n in
    rw differs (inl e)
set_header-keeps name value other x ((k, v) ∷ hs) n (inr i) = elim (Bool-cases (str_eq k name)) [
  | inl e ↦ rw e (inr i)
  | inr e ↦ rw e (inr (set_header-keeps name value other x hs n i))
]
set_header-keeps name value other x [] n i = absurd i

module _ (e : Endpoint) (request : Request) (key : String) (policy : Policy) where
  -- The policy's key and its id are named, in place of anything that the client wrote there.
  pub upstream_headers-authorized :
      In ("authorization", "Bearer " ++ key) (upstream_headers e request key policy)
  unfolding upstream_headers
  upstream_headers-authorized =
      set_header-keeps "x-gabro-policy-id" policy.id "authorization" ("Bearer " ++ key)
        (set_header "authorization" ("Bearer " ++ key) (safe_upstream_headers e request)) refl
        (set_header-In "authorization" ("Bearer " ++ key) (safe_upstream_headers e request))

  pub upstream_headers-attributed :
      In ("x-gabro-policy-id", policy.id) (upstream_headers e request key policy)
  unfolding upstream_headers
  upstream_headers-attributed =
      set_header-In "x-gabro-policy-id" policy.id
        (set_header "authorization" ("Bearer " ++ key) (safe_upstream_headers e request))
