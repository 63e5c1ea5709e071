-- ===== src/Text/Strip.antt =====
-- What `strip` leaves is not changed by stripping it again.
use Prim.Native.Char.{Char, code}
use Prim.Native.String.{[], ◌∷◌}
use gatebroker.Prelude.{String, ◌≡◌, refl, ◌∙◌, ap, inl, inr, false, true, Bool-cases}
use gatebroker.Text.{is_space, has_space, lstrip, rkeep, rstrip, strip}

rstrip-rkeep : (c : Char) (s : String) → rstrip s ≡ s → rstrip (rkeep c s) ≡ rkeep c s
unfolding rstrip
rstrip-rkeep c [] h = elim (Bool-cases (is_space (code c))) [
  | inl e ↦ rw (e, rkeep)
  | inr e ↦ rw (e, rkeep) (rw (e, rkeep))
]
rstrip-rkeep c (d ∷ s) h = ap (rkeep c) h

rstrip-rstrip : (s : String) → rstrip (rstrip s) ≡ rstrip s
unfolding rstrip
rstrip-rstrip [] = refl
rstrip-rstrip (c ∷ s) = rstrip-rkeep c (rstrip s) (rstrip-rstrip s)

lstrip_of_nonspace : (c : Char) (s : String) → is_space (code c) ≡ false → lstrip (c ∷ s) ≡ c ∷ s
unfolding lstrip
lstrip_of_nonspace c s e = rw e

lstrip_of_space : (c : Char) (s : String) → is_space (code c) ≡ true → lstrip (c ∷ s) ≡ lstrip s
unfolding lstrip
lstrip_of_space c s e = rw e

rkeep_of_nonspace : (c : Char) (s : String) → is_space (code c) ≡ false → rkeep c s ≡ c ∷ s
rkeep_of_nonspace c [] e = rw e
rkeep_of_nonspace c (d ∷ s) e = refl

rstrip_of_nonspace :
    (c : Char) (s : String) → is_space (code c) ≡ false → rstrip (c ∷ s) ≡ c ∷ rstrip s
unfolding rstrip
rstrip_of_nonspace c s e = rkeep_of_nonspace c (rstrip s) e

lstrip-rstrip-lstrip : (s : String) → lstrip (rstrip (lstrip s)) ≡ rstrip (lstrip s)
lstrip-rstrip-lstrip [] = unfold lstrip rstrip in refl
lstrip-rstrip-lstrip (c ∷ s) = elim (Bool-cases (is_space (code c))) [
  | inl e ↦ rw (lstrip_of_space c s e) (lstrip-rstrip-lstrip s)
  | inr e ↦
      rw (lstrip_of_nonspace c s e)
        (rw (rstrip_of_nonspace c s e) (lstrip_of_nonspace c (rstrip s) e))
]

pub strip-strip : (s : String) → strip (strip s) ≡ strip s
unfolding strip
strip-strip s = ap rstrip (lstrip-rstrip-lstrip s) ∙ rstrip-rstrip (lstrip s)

rstrip_of_no_space : (s : String) → has_space s ≡ false → rstrip s ≡ s
unfolding rstrip has_space
rstrip_of_no_space [] h = refl
rstrip_of_no_space (c ∷ s) h = elim (Bool-cases (is_space (code c))) [
  | inl e ↦ absurd (cc (rw e at h))
  | inr e ↦ rkeep_of_nonspace c (rstrip s) e ∙ ap (λ t. c ∷ t) (rstrip_of_no_space s (rw e at h))
]

-- A text without white space is not changed.
pub strip_of_no_space : (s : String) → has_space s ≡ false → strip s ≡ s
unfolding strip has_space
strip_of_no_space [] h = refl
strip_of_no_space (c ∷ s) h = elim (Bool-cases (is_space (code c))) [
  | inl e ↦ absurd (cc (rw e at h))
  | inr e ↦ ap rstrip (lstrip_of_nonspace c s e) ∙ rstrip_of_no_space (c ∷ s) h
]
