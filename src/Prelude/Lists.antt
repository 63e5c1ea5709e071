-- ===== src/Prelude/Lists.antt =====
-- Lists measured by native numbers, under the library's names, and predicates on lists.
use Prim.Native.Nat.{ℕ, suc, ◌+◌}
use mathlib.Core.Path.{◌≡◌, refl, sym, ap, subst, ◌∙◌}
use mathlib.Core.Logic.{◌⊎◌, inl, inr}
use mathlib.Core.Bool.{Bool, true, false, ◌&&◌, ◌||◌, false≢true}
use mathlib.Core.List.{List, [], ◌∷◌, ◌++◌, cons-eq-cons}
use native.Mathlib.Omega.{arith}
use gatebroker.Prelude.Tests.{if◌then◌else◌, Bool-cases}

module _ {ℓ} {A : Type ℓ} where
  abbrev pub length : List A → ℕ
  length [] = 0
  length (x ∷ xs) = suc (length xs)

  abbrev pub all : (A → Bool) → List A → Bool
  all p [] = true
  all p (x ∷ xs) = p x && all p xs

  abbrev pub any : (A → Bool) → List A → Bool
  any p [] = false
  any p (x ∷ xs) = p x || any p xs

  -- the library's `filter`, over a Boolean test
  abbrev pub filter : (A → Bool) → List A → List A
  filter p [] = []
  filter p (x ∷ xs) = let rest = filter p xs in if p x then x ∷ rest else rest

  pub length-append : (xs ys : List A) → length (xs ++ ys) ≡ length xs + length ys
  length-append [] ys = omega arith
  length-append (x ∷ xs) ys = omega (arith, length-append xs ys)

  pub filter-filter :
      (f g : A → Bool) (xs : List A) → filter g (filter f xs) ≡ filter (λ x. f x && g x) xs
  filter-filter f g [] = refl
  filter-filter f g (x ∷ xs) = ground (arith, filter-filter f g xs)

  pub filter-append :
      (f : A → Bool) (xs ys : List A) → filter f (xs ++ ys) ≡ filter f xs ++ filter f ys
  filter-append f [] ys = refl
  filter-append f (x ∷ xs) ys = elim (Bool-cases (f x)) [
    | inl e ↦ rw e (ap (λ l. x ∷ l) (filter-append f xs ys))
    | inr e ↦ rw e (filter-append f xs ys)
  ]

module _ {A : Type 0} where
  -- `x` is an element of the list.
  abbrev pub In : A → List A → Type 0
  In x [] = ⊥
  In x (y ∷ ys) = (y ≡ x) ⊎ In x ys

module _ {ℓ κ} {A : Type ℓ} (P : A → Type κ) where
  abbrev pub All : List A → Type κ
  All [] = Unit
  All (x ∷ xs) = P x × All xs

  pub All-append : (xs ys : List A) → All xs → All ys → All (xs ++ ys)
  All-append [] ys h k = k
  All-append (x ∷ xs) ys (p, h) k = (p, All-append xs ys h k)

  pub All-append_left : (xs ys : List A) → All (xs ++ ys) → All xs
  All-append_left [] ys h = tt
  All-append_left (x ∷ xs) ys (p, h) = (p, All-append_left xs ys h)

  pub All-append_right : (xs ys : List A) → All (xs ++ ys) → All ys
  All-append_right [] ys h = h
  All-append_right (x ∷ xs) ys (p, h) = All-append_right xs ys h

module _ {ℓ κ ι} {A : Type ℓ} {P : A → Type κ} {Q : A → Type ι} where
  pub All-imp : ((x : A) → P x → Q x) → (xs : List A) → All P xs → All Q xs
  All-imp f [] h = tt
  All-imp f (x ∷ xs) (p, h) = (f x p, All-imp f xs h)

pub All-In {κ} : {A : Type 0} (P : A → Type κ) (x : A) (xs : List A) → In x xs → All P xs → P x
All-In P x [] i h = absurd i
All-In P x (y ∷ ys) (inl e) (p, h) = subst P e p
All-In P x (y ∷ ys) (inr i) (p, h) = All-In P x ys i h

module _ {ℓ} {A : Type ℓ} (f : A → Bool) where
  abbrev pub Rejected : List A → Type 0
  Rejected xs = All (λ x. f x ≡ false) xs

  pub filter-eq-nil : (xs : List A) → filter f xs ≡ [] → Rejected xs
  filter-eq-nil [] h = tt
  filter-eq-nil (x ∷ xs) h = elim (Bool-cases (f x)) [
    | inl e ↦ absurd (cc (rw e at h))
    | inr e ↦ (e, filter-eq-nil xs (rw e at h))
  ]

  pub filter_of_Rejected : (xs : List A) → Rejected xs → filter f xs ≡ []
  filter_of_Rejected [] h = refl
  filter_of_Rejected (x ∷ xs) (e, h) = rw e (filter_of_Rejected xs h)

  pub All-filter {κ} :
      (P : A → Type κ) (xs : List A) → All P (filter f xs) → All (λ x. f x ≡ true → P x) xs
  All-filter P [] h = tt
  All-filter P (x ∷ xs) h = elim (Bool-cases (f x)) [
    | inl e ↦ let both = (rw e at h) in ((λ _. both.0), All-filter P xs both.1)
    | inr e ↦ ((λ t. absurd (false≢true (sym e ∙ t))), All-filter P xs (rw e at h))
  ]

  pub filter-All {κ} :
      (P : A → Type κ) (xs : List A) → All (λ x. f x ≡ true → P x) xs → All P (filter f xs)
  filter-All P [] h = tt
  filter-All P (x ∷ xs) (p, h) = elim (Bool-cases (f x)) [
    | inl e ↦ rw e (p e, filter-All P xs h)
    | inr e ↦ rw e (filter-All P xs h)
  ]

  -- Where exactly `x` passes the test, it stands between two parts that fail it.
  pub record IsOnly (x : A) (xs : List A) : Type ℓ where
    pub before : List A
    pub after : List A
    pub at : xs ≡ before ++ x ∷ after
    pub passes : f x ≡ true
    pub fails_before : Rejected before
    pub fails_after : Rejected after

  pub filter-eq-single : (x : A) (xs : List A) → filter f xs ≡ x ∷ [] → IsOnly x xs
  filter-eq-single x [] h = absurd (cc)
  filter-eq-single x (y ∷ ys) h = elim (Bool-cases (f y)) [
    | inl e ↦
        let (same, none_left) = cons-eq-cons.0 (rw e at h) in
        record {
          before = [];
          after = ys;
          at = ap (λ z. z ∷ ys) same;
          passes = subst (λ z. f z ≡ true) same e;
          fails_before = tt;
          fails_after = filter-eq-nil ys none_left;
        }
    | inr e ↦
        let rest = filter-eq-single x ys (rw e at h) in
        record {
          before = y ∷ rest.before;
          after = rest.after;
          at = ap (λ l. y ∷ l) rest.at;
          passes = rest.passes;
          fails_before = (e, rest.fails_before);
          fails_after = rest.fails_after;
        }
  ]

  pub filter_of_IsOnly : (x : A) (xs : List A) → IsOnly x xs → filter f xs ≡ x ∷ []
  filter_of_IsOnly x xs o =
      ap (filter f) o.at
      ∙ filter-append f o.before (x ∷ o.after)
      ∙ ap (λ l. l ++ filter f (x ∷ o.after)) (filter_of_Rejected o.before o.fails_before)
      ∙ rw o.passes (ap (λ l. x ∷ l) (filter_of_Rejected o.after o.fails_after))

module _ {A : Type 0} where
  pub In-filter : (f : A → Bool) (x : A) (xs : List A) → f x ≡ true → In x xs → In x (filter f xs)
  In-filter f x [] e i = absurd i
  In-filter f x (y ∷ ys) e (inl same) =
      let passes : f y ≡ true = subst (λ z. f z ≡ true) (sym same) e in rw passes (inl same)
  In-filter f x (y ∷ ys) e (inr i) = elim (Bool-cases (f y)) [
    | inl t ↦ rw t (inr (In-filter f x ys e i))
    | inr t ↦ rw t (In-filter f x ys e i)
  ]

  pub In-middle : (xs : List A) (x : A) (ys : List A) → In x (xs ++ x ∷ ys)
  In-middle [] x ys = inl refl
  In-middle (y ∷ xs) x ys = inr (In-middle xs x ys)
