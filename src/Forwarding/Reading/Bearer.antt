-- ===== src/Forwarding/Reading/Bearer.antt =====
-- Which `Authorization` headers carry a token, and which token.
use Prim.Native.Char.{Char, code}
use Prim.Native.String.{[], ◌∷◌, ◌++◌}
use mathlib.Core.Path.{subst}
use text.Mathlib.TextEquality.{Char-path}
use text.Mathlib.TextLemmas.{nil-append, cons-append}
use gatebroker.Prelude.{
  String, ◌≡◌, refl, sym, ◌∙◌, ap, inl, inr, ◌↔◌, Bool, true, false, not, ◌||◌, none, some, arith,
  Bool-cases, ==_iff, str_eq, eq_refl, if◌then◌else◌, ◌==◌,
}
use gatebroker.Text.{is_empty, has_space, strip, lower_eq, partition}
use gatebroker.Text.Strip.{strip_of_no_space}
use gatebroker.Forwarding.Reading.{bearer_token}

abbrev space : Char
space = " "

partition_found :
    (c : Char) (s : String) → (code c == b' ') ≡ true → partition b' ' (c ∷ s) ≡ ("", true, s)
unfolding partition
partition_found c s e = rw e

partition_next :
    (c : Char) (s : String)
    → (code c == b' ') ≡ false
    → partition b' ' (c ∷ s)
      ≡ (c ∷ (partition b' ' s).0, (partition b' ' s).1, (partition b' ' s).2)
unfolding partition
partition_next c s e = rw e

append_space : (s : String) → " " ++ s ≡ space ∷ s
append_space s = cons-append space "" s ∙ ap (λ t. space ∷ t) (nil-append s)

-- The text is what stands before the first space, the space, and what stands behind it.
partition_sound :
    (s : String)
    → (partition b' ' s).1 ≡ true
    → s ≡ (partition b' ' s).0 ++ (" " ++ (partition b' ' s).2)
partition_sound [] h = unfold partition in cc
partition_sound (c ∷ s) h = elim (Bool-cases (code c == b' ')) [
  | inl e ↦
      let same : c ≡ space = Char-path c space ((==_iff _ _).0 e) in
      rw (partition_found c s e)
        (ap (λ d. d ∷ s) same ∙ sym (append_space s) ∙ sym (nil-append (" " ++ s)))
  | inr e ↦ rw (partition_next c s e) (
      ap (λ t. c ∷ t) (partition_sound s (rw (partition_next c s e) at h))
      ∙ sym (cons-append c _ _))
]

-- No letter of "bearer" is a lowered space.
lower_eq_space :
    (c d : Char) (s t : String)
    → lower_eq (c ∷ s) (d ∷ t) ≡ true
    → (code d == b' ') ≡ false
    → (code c == b' ') ≡ false
unfolding lower_eq
lower_eq_space c d s t h n = ground arith

lower_eq_tail : (c d : Char) (s t : String) → lower_eq (c ∷ s) (d ∷ t) ≡ true → lower_eq s t ≡ true
unfolding lower_eq
lower_eq_tail c d s t h = ground arith

abbrev HasNoSpace : String → Type 0
HasNoSpace [] = Unit
HasNoSpace (c ∷ s) = ((code c == b' ') ≡ false) × HasNoSpace s

lower_eq-HasNoSpace : (s t : String) → lower_eq s t ≡ true → HasNoSpace t → HasNoSpace s
lower_eq-HasNoSpace [] t h n = tt
lower_eq-HasNoSpace (c ∷ s) [] h n = unfold lower_eq in absurd (cc)
lower_eq-HasNoSpace (c ∷ s) (d ∷ t) h (m, n) =
    (lower_eq_space c d s t h m, lower_eq-HasNoSpace s t (lower_eq_tail c d s t h) n)

partition_complete : (s t : String) → HasNoSpace s → partition b' ' (s ++ (" " ++ t)) ≡ (s, true, t)
partition_complete [] t n =
    ap (partition b' ') (nil-append _ ∙ append_space t) ∙ partition_found space t refl
partition_complete (c ∷ s) t (e, n) =
    ap (partition b' ') (cons-append c s _)
    ∙ partition_next c _ e
    ∙ ap (λ (p : String × Bool × String). (c ∷ p.0, p.1, p.2)) (partition_complete s t n)

-- A scheme that spells "bearer" in any case, one space, and a token without white space.
abbrev pub IsBearer : String → String → Type 0
IsBearer value token =
    (scheme : String) × (value ≡ scheme ++ (" " ++ token))
    × (lower_eq scheme "bearer" ≡ true)
    × (is_empty token ≡ false)
    × (has_space token ≡ false)

accepted_parts :
    (scheme : String) (separator : Bool) (token result : String)
    → (if not (lower_eq scheme "bearer")
          || not separator
          || is_empty token
          || not (str_eq (strip token) token)
          || has_space token
        then none
        else some token)
      ≡ some result
    → (lower_eq scheme "bearer" ≡ true)
      × (separator ≡ true)
      × (is_empty token ≡ false)
      × (has_space token ≡ false)
      × (token ≡ result)
accepted_parts scheme separator token result h = ground arith

IsBearer-sound :
    (value token : String) → bearer_token (some value) ≡ some token → IsBearer value token
unfolding bearer_token
IsBearer-sound value token h =
    let p = partition b' ' value in
    let (l, sep, n, w, same) = accepted_parts p.0 p.1 p.2 token h in
    (
      p.0,
      partition_sound value sep ∙ ap (λ t. p.0 ++ (" " ++ t)) same,
      l,
      subst (λ t. is_empty t ≡ false) same n,
      subst (λ t. has_space t ≡ false) same w,
    )

bearer_complete :
    (value token : String) → IsBearer value token → bearer_token (some value) ≡ some token
unfolding bearer_token
bearer_complete value token (scheme, at, l, n, w) =
    let e : partition b' ' value ≡ (scheme, true, token) =
      ap (partition b' ') at
      ∙ partition_complete scheme token (
          lower_eq-HasNoSpace scheme "bearer" l
            (refl, (refl, (refl, (refl, (refl, (refl, tt))))))) in
    rw (e, l, n, strip_of_no_space token w, eq_refl, w)

-- A header gives a token exactly when it is a scheme that spells "bearer" in any case, one space
-- and that token, which is not empty and holds no white space.
pub bearer_token-eq-some_iff :
    (value token : String) → (bearer_token (some value) ≡ some token) ↔ IsBearer value token
bearer_token-eq-some_iff value token = (IsBearer-sound value token, bearer_complete value token)
