-- ===== src/Runtime/Readiness/Keys.antt =====
-- When the broker says that it is ready.
use mathlib.Core.Bool.{false≢true}
use gatebroker.Prelude.{
  ℕ, String, ◌≡◌, ◌↔◌, refl, inl, inr, Bool, true, ◌&&◌, List, [], ◌∷◌, map, arith, Bool-cases, All,
  All-In, if◌then◌else◌,
}
use gatebroker.Policy.{Policy, mem, unique}
use gatebroker.Policy.Matching.{mem_iff}
use gatebroker.Forwarding.Handler.{Resolved}
use gatebroker.Runtime.Readiness.{is_usable, keys_are_resolvable, required_keys, readiness}

unique-All : (P : String → Type 0) (xs : List String) → All P (unique xs) ↔ All P xs
unfolding unique
unique-All P [] = ((λ h. h), (λ h. h))
unique-All P (x ∷ xs) = elim (Bool-cases (mem x xs)) [
  | inl e ↦ rw e (
    (λ h. let all = (unique-All P xs).0 h in (All-In P x xs ((mem_iff x xs).0 e) all, all)),
    (λ (p, h). (unique-All P xs).1 h),
  )
  | inr e ↦ rw e ((λ (p, h). (p, (unique-All P xs).0 h)), (λ (p, h). (p, (unique-All P xs).1 h)))
]

module _ (resolve_key : String → Resolved) where
  abbrev IsUsable : String → Type 0
  IsUsable name = is_usable (resolve_key name) ≡ true

  resolvable_iff :
      (names : List String) → (keys_are_resolvable resolve_key names ≡ true) ↔ All IsUsable names
  unfolding keys_are_resolvable
  resolvable_iff [] = ((λ h. tt), (λ h. refl))
  resolvable_iff (name ∷ names) = elim (Bool-cases (is_usable (resolve_key name))) [
    | inl e ↦
        rw e ((λ h. (refl, (resolvable_iff names).0 h)), (λ (u, h). (resolvable_iff names).1 h))
    | inr e ↦ rw e ((λ h. absurd (false≢true h)), (λ (u, h). absurd (false≢true u)))
  ]

  abbrev status : Bool → Bool → ℕ
  status v k = if v && k then 200 else 503

  ready_if : (v k : Bool) → (status v k ≡ 200) ↔ ((v ≡ true) × (k ≡ true))
  ready_if v k = ground arith

  ref_All :
      (policies : List Policy)
      → All IsUsable (map (λ (p : Policy). p.key_ref) policies)
        ↔ All (λ (p : Policy). is_usable (resolve_key p.key_ref) ≡ true) policies
  ref_All [] = ((λ h. h), (λ h. h))
  ref_All (p ∷ ps) = ((λ (u, h). (u, (ref_All ps).0 h)), (λ (u, h). (u, (ref_All ps).1 h)))

  -- The broker says that it is ready exactly when its verifier is and the key of every policy
  -- resolves to a text that is not empty.
  pub readiness-eq_iff :
      (verifier_ready : Bool) (policies : List Policy)
      → (readiness resolve_key verifier_ready policies ≡ 200) ↔ (
          (verifier_ready ≡ true)
          × All (λ (p : Policy). is_usable (resolve_key p.key_ref) ≡ true) policies)
  unfolding readiness required_keys
  readiness-eq_iff verifier_ready policies = (
    (λ h.
        let (v, k) = (ready_if verifier_ready _).0 h in
        (v, (ref_All policies).0 ((unique-All IsUsable _).0 ((resolvable_iff _).0 k)))),
    (λ (v, u).
        (ready_if verifier_ready _).1
          (v, (resolvable_iff _).1 ((unique-All IsUsable _).1 ((ref_All policies).1 u)))),
  )
