-- ===== src/Runtime/RateLimiter/Counts.antt =====
-- The laws of the counts, a dict from keys to numbers.
use mathlib.Core.Bool.{false≢true}
use gatebroker.Prelude.{
  ℕ, suc, ◌≤◌, ◌<◌, ◌≡◌, ◌↔◌, refl, sym, ◌∙◌, ap, inl, inr, Bool, true, false, [], ◌∷◌, eq_iff,
  eq_refl, length, arith, Bool-cases, if◌then◌else◌,
}
use gatebroker.Forwarding.Effects.{RateLimitKey}
use gatebroker.Runtime.RateLimiter.{KeyCounts, same_key, count_of, set_count}

key_eq :
    (a b : RateLimitKey)
    → a.subject ≡ b.subject
    → a.policy_id ≡ b.policy_id
    → a.client_ip ≡ b.client_ip
    → a ≡ b
key_eq a b h i j = cc

pub same_key_iff : (a b : RateLimitKey) → (same_key a b ≡ true) ↔ (a ≡ b)
unfolding same_key
same_key_iff a b = (
  (λ h.
      key_eq a b ((eq_iff a.subject b.subject).0 (ground arith))
        ((eq_iff a.policy_id b.policy_id).0 (ground arith))
        ((eq_iff a.client_ip b.client_ip).0 (ground arith))),
  (λ h. rw h (rw eq_refl (rw eq_refl (rw eq_refl refl)))),
)

replaced :
    (x y : Bool) (n m c : ℕ) → x ≡ y → (if x then n else c) ≡ (if y then n else if x then m else c)
replaced x y n m c h = ground arith

kept :
    (x y : Bool) (n m c : ℕ)
    → (x ≡ true → y ≡ true → ⊥)
    → (if x then m else if y then n else c) ≡ (if y then n else if x then m else c)
kept true true n m c h = absurd (h refl refl)
kept true false n m c h = refl
kept false y n m c h = refl

pub count_of-set_count :
    (j k : RateLimitKey) (n : ℕ) (counts : KeyCounts)
    → count_of k (set_count j n counts) ≡ (if same_key j k then n else count_of k counts)
unfolding count_of set_count
count_of-set_count j k n [] = refl
count_of-set_count j k n ((i, m) ∷ counts) = elim (Bool-cases (same_key i j)) [
  | inl e ↦ rw e (
      replaced (same_key i k) (same_key j k) n m _
        (ap (λ x. same_key x k) ((same_key_iff i j).0 e)))
  | inr e ↦ rw e (
      rw (count_of-set_count j k n counts) (
        kept (same_key i k) (same_key j k) n m _ (λ x y.
          false≢true (
            sym e ∙ (same_key_iff i j).1 ((same_key_iff i k).0 x ∙ sym ((same_key_iff j k).0 y))))))
]

pub length-set_count :
    (k : RateLimitKey) (n : ℕ) (counts : KeyCounts)
    → length (set_count k n counts) ≤ suc (length counts)
unfolding set_count
length-set_count k n [] = omega arith
length-set_count k n ((i, m) ∷ counts) = ground (arith, length-set_count k n counts)

pub length-set_count_known :
    (k : RateLimitKey) (n : ℕ) (counts : KeyCounts)
    → 0 < count_of k counts
    → length (set_count k n counts) ≡ length counts
unfolding set_count count_of
length-set_count_known k n [] h = ground arith
length-set_count_known k n ((i, m) ∷ counts) h = elim (Bool-cases (same_key i k)) [
  | inl e ↦ rw e
  | inr e ↦ rw e (ap suc (length-set_count_known k n counts (rw e at h)))
]
