-- ===== src/Profile/Development.antt =====
-- What a development profile can do: nothing to a configured build, and to another only as a whole.
use gatebroker.Prelude.{
  String, ◌≡◌, refl, arith, ◌⊎◌, inl, inr, Bool, true, false, not, ◌||◌, Option, none, some, List,
  [], ◌∷◌, Bool-cases,
}
use gatebroker.Result.{
  ok, ◌>>=◌, Ensures, Ensures-ok, Ensures-err, Ensures-bind, Ensures-guard, Ensures-if,
  or_raise-eq-ok,
}
use gatebroker.Text.{is_empty, strip}
use gatebroker.Json.{Value, cons, Fields, arr, get}
use gatebroker.Profile.{
  Profile, System, is_truthy, same, pair_of, join_pair, pairs_of, listed_models, text_or, adopted,
  read_profile, apply_development_profile, settings, no_pairs, no_models,
}

abbrev pub is_listed : List (String × String) → Bool
is_listed [] = false
is_listed (m ∷ ms) = true

-- A profile that the command line accepts, and that lists a model.
pub record IsUsable (q : Profile) : Type 0 where
  pub accepted : settings q ≡ ok (q.tenant_id, q.client_id, q.scope, q.base_url)
  pub lists : is_listed q.models ≡ true

-- A profile that was applied is the one before, or that was not configured and this one is usable.
abbrev pub IsApplied : Profile → Profile → Type 0
IsApplied p q = (q ≡ p) ⊎ ((p.configured ≡ false) × (q.development ≡ true) × IsUsable q)

-- The text of a value that counts as true is not empty.
abbrev pub PrintsTruth : System → Type 0
PrintsTruth s = (v : Value) → is_truthy (some v) ≡ true → is_empty (s.to_text v) ≡ false

is_empty-text_or :
    (s : System) (o : Option Value) → PrintsTruth s → not (is_empty (text_or s o "")) ≡ is_truthy o
is_empty-text_or s none h = refl
is_empty-text_or s (some v) h = elim (Bool-cases (is_truthy (some v))) [
  | inl e ↦ rw e (rw (h v e) refl)
  | inr e ↦ rw e refl
]

join_pair-is_listed :
    (s : System) (p : Option (Value × Value)) (o : Option (List (String × String)))
    (l : List (String × String))
    → join_pair s p o ≡ some l
    → is_listed l ≡ true
join_pair-is_listed s (some (a, b)) (some m) [] e = ground arith
join_pair-is_listed s p o (m ∷ ms) e = refl
join_pair-is_listed s none o [] e = ground arith
join_pair-is_listed s (some (a, b)) none [] e = ground arith

listed_models-is_listed :
    (s : System) (o : Option Value) → Ensures (λ l. is_listed l ≡ true) (listed_models s o)
unfolding pairs_of listed_models
listed_models-is_listed s (some (arr (cons v vs))) = record {
  at = λ l e.
      join_pair-is_listed s (pair_of v) (pairs_of s vs) l
        (or_raise-eq-ok (pairs_of s (cons v vs)) no_pairs l e);
}
listed_models-is_listed s o = Ensures-err no_models

adopted-IsUsable :
    (s : System) (document : Fields) (models : List (String × String)) (bundle : String)
    → PrintsTruth s
    → not (same (is_truthy (get "tenant_id" document)) (is_truthy (get "oidc_authority" document)))
      ≡ true
    → is_listed models ≡ true
    → IsUsable (adopted s document models bundle)
unfolding settings ◌>>=◌
adopted-IsUsable s document models bundle h e l = record {
  accepted =
      rw (is_empty-text_or s (get "tenant_id" document) h)
        (rw (is_empty-text_or s (get "oidc_authority" document) h) (rw e refl));
  lists = l;
}

read_profile-IsApplied :
    (s : System) (location : String) (document : Fields) (p : Profile)
    → PrintsTruth s
    → p.configured ≡ false
    → Ensures (IsApplied p) (read_profile s location document)
unfolding read_profile
read_profile-IsApplied s location document p h c = Ensures-guard _ _ _ (λ k.
    Ensures-guard _ _ _ (λ e. Ensures-bind _ _ (λ models m. Ensures-bind _ _ (λ bundle b.
      Ensures-ok _ (
        inr (
          c,
          refl,
          adopted-IsUsable s document models bundle h e
              ((listed_models-is_listed s (get "models" document)).at models m),
        ))))))

or-false : (a b : Bool) → (a || b) ≡ false → a ≡ false
or-false a b h = ground arith

-- Where a development profile is applied without an error, the build's values are what they were, or
-- the build was not configured and now has a profile that `_settings` accepts and that lists a model.
-- The text of a value that counts as true must not be empty.
pub apply_development_profile-IsApplied :
    (s : System) (variable : String) (p q : Profile)
    → PrintsTruth s
    → apply_development_profile s variable p ≡ ok q
    → IsApplied p q
unfolding apply_development_profile
apply_development_profile-IsApplied s variable p q h e =
    (Ensures-if {P = IsApplied p} (p.configured || is_empty (strip variable)) (ok p) _
        (λ c. Ensures-ok p (inl refl))
        (λ c. Ensures-bind _ _ (λ value i. Ensures-bind _ _ (λ document j.
          read_profile-IsApplied s (strip variable) document p h (or-false p.configured _ c))))).at
      q e
