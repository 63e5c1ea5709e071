-- ===== src/Policy/Matching.antt =====
-- Membership and common elements of the sets that policies and tokens carry.
use mathlib.Core.Path.{subst}
use gatebroker.Prelude.{
  String, ◌≡◌, refl, sym, ◌↔◌, inl, inr, true, List, [], ◌∷◌, arith, eq_iff, Bool-cases, In,
}
use gatebroker.Policy.{mem, overlaps}

pub mem_iff : (s : String) (xs : List String) → (mem s xs ≡ true) ↔ In s xs
unfolding mem
mem_iff s [] = ground arith
mem_iff s (x ∷ xs) = ground (arith, eq_iff x s, mem_iff s xs)

-- The two sets have an element in common.
abbrev pub Shares : List String → List String → Type 0
Shares xs ys = (s : String) × In s xs × In s ys

pub overlaps_sound : (xs ys : List String) → overlaps xs ys ≡ true → Shares xs ys
unfolding overlaps
overlaps_sound [] ys h = absurd (cc)
overlaps_sound (x ∷ xs) ys h = elim (Bool-cases (mem x ys)) [
  | inl e ↦ (x, inl refl, (mem_iff x ys).0 e)
  | inr e ↦ let (s, i, j) = overlaps_sound xs ys (rw e at h) in (s, inr i, j)
]

pub overlaps_complete :
    (xs ys : List String) (s : String) → In s xs → In s ys → overlaps xs ys ≡ true
unfolding overlaps
overlaps_complete [] ys s i j = absurd i
overlaps_complete (x ∷ xs) ys s (inl e) j = rw ((mem_iff x ys).1 (subst (λ t. In t ys) (sym e) j))
overlaps_complete (x ∷ xs) ys s (inr i) j = elim (Bool-cases (mem x ys)) [
  | inl e ↦ rw e
  | inr e ↦ rw e (overlaps_complete xs ys s i j)
]
