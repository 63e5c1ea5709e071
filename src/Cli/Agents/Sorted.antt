-- ===== src/Cli/Agents/Sorted.antt =====
-- `sort_keys=True` of launcher profiles: the order of names, and what sorting leaves as it is.
use Prim.Native.Char.{code}
use mathlib.Core.List.{Perm}
use mathlib.Core.List.Perm
use gatebroker.Prelude.{
  String, ◌≡◌, refl, inl, inr, arith, Bool, true, false, ◌||◌, ◌&&◌, ◌==◌, ltb, List, [], ◌∷◌,
  Bool-cases, All, if◌then◌else◌,
}

-- The order of Python's `str`, by code points.
pub at_most : String → String → Bool
at_most String.[] t = true
at_most (String.◌∷◌ c s) String.[] = false
at_most (String.◌∷◌ c s) (String.◌∷◌ d t) =
    let rest = at_most s t in ltb (code c) (code d) || (code c == code d && rest)

at_most_total : (s t : String) → at_most s t ≡ false → at_most t s ≡ true
unfolding at_most
at_most_total String.[] t h = cc
at_most_total (String.◌∷◌ c s) String.[] h = refl
at_most_total (String.◌∷◌ c s) (String.◌∷◌ d t) h = ground (arith, at_most_total s t)

module _ {A : Type 0} where
  insert_key : String × A → List (String × A) → List (String × A)
  unfolding at_most
  insert_key a [] = a ∷ []
  insert_key a (b ∷ bs) = if at_most a.0 b.0 then a ∷ b ∷ bs else b ∷ insert_key a bs

  unfoldable pub sorted_keys : List (String × A) → List (String × A)
  unfolding insert_key
  sorted_keys [] = []
  sorted_keys (a ∷ xs) = insert_key a (sorted_keys xs)

  -- Every name is at most the next.
  abbrev pub IsSorted : List (String × A) → Type 0
  IsSorted [] = Unit
  IsSorted (a ∷ []) = Unit
  IsSorted (a ∷ b ∷ bs) = (at_most a.0 b.0 ≡ true) × IsSorted (b ∷ bs)

  insert_key-IsSorted :
      (a : String × A) (xs : List (String × A)) → IsSorted xs → IsSorted (insert_key a xs)
  unfolding insert_key
  insert_key-IsSorted a [] h = tt
  insert_key-IsSorted a (b ∷ []) h = elim (Bool-cases (at_most a.0 b.0)) [
    | inl e ↦ rw e (e, tt)
    | inr e ↦ rw e (at_most_total a.0 b.0 e, tt)
  ]
  insert_key-IsSorted a (b ∷ c ∷ cs) (h, k) = elim (Bool-cases (at_most a.0 b.0)) [
    | inl e ↦ rw e (e, (h, k))
    | inr e ↦
        let later = insert_key-IsSorted a (c ∷ cs) k in
        rw e (elim (Bool-cases (at_most a.0 c.0)) [
          | inl f ↦ rw f (at_most_total a.0 b.0 e, (rw f at later))
          | inr f ↦ rw f (h, (rw f at later))
        ])
  ]

  pub sorted_keys-IsSorted : (xs : List (String × A)) → IsSorted (sorted_keys xs)
  unfolding sorted_keys
  sorted_keys-IsSorted [] = tt
  sorted_keys-IsSorted (a ∷ xs) = insert_key-IsSorted a (sorted_keys xs) (sorted_keys-IsSorted xs)

  pub sorted_keys_of_IsSorted : (xs : List (String × A)) → IsSorted xs → sorted_keys xs ≡ xs
  unfolding sorted_keys insert_key
  sorted_keys_of_IsSorted [] h = refl
  sorted_keys_of_IsSorted (a ∷ []) h = refl
  sorted_keys_of_IsSorted (a ∷ b ∷ bs) (h, k) = rw (sorted_keys_of_IsSorted (b ∷ bs) k) (rw h refl)

  insert_key-Perm : (a : String × A) (xs : List (String × A)) → Perm (insert_key a xs) (a ∷ xs)
  unfolding insert_key
  insert_key-Perm a [] = Perm.refl _
  insert_key-Perm a (b ∷ bs) = elim (Bool-cases (at_most a.0 b.0)) [
    | inl e ↦ rw e (Perm.refl _)
    | inr e ↦ rw e (Perm.trans (Perm.cons b (insert_key-Perm a bs)) (Perm.swap a b bs))
  ]

  pub sorted_keys-Perm : (xs : List (String × A)) → Perm (sorted_keys xs) xs
  unfolding sorted_keys
  sorted_keys-Perm [] = Perm.refl _
  sorted_keys-Perm (a ∷ xs) =
      Perm.trans (insert_key-Perm a (sorted_keys xs)) (Perm.cons a (sorted_keys-Perm xs))

  insert_key-All :
      (P : String × A → Type 0) (a : String × A) (xs : List (String × A))
      → P a
      → All P xs
      → All P (insert_key a xs)
  unfolding insert_key
  insert_key-All P a [] p h = (p, tt)
  insert_key-All P a (b ∷ bs) p (q, h) = elim (Bool-cases (at_most a.0 b.0)) [
    | inl e ↦ rw e (p, (q, h))
    | inr e ↦ rw e (q, insert_key-All P a bs p h)
  ]

  pub sorted_keys-All :
      (P : String × A → Type 0) (xs : List (String × A)) → All P xs → All P (sorted_keys xs)
  unfolding sorted_keys
  sorted_keys-All P [] h = tt
  sorted_keys-All P (a ∷ xs) (p, h) = insert_key-All P a (sorted_keys xs) p (sorted_keys-All P xs h)
