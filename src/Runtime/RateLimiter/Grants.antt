-- ===== src/Runtime/RateLimiter/Grants.antt =====
-- How many of a key's requests the limiter grants in one window.
use gatebroker.Prelude.{
  ℕ, ◌+◌, ◌/◌, ◌≤◌, ◌≡◌, refl, ◌∙◌, ap, inl, inr, Bool, true, false, ◌&&◌, Option, none, some, List,
  [], ◌∷◌, leb, length, All, arith, Bool-cases, if◌then◌else◌,
}
use gatebroker.Forwarding.Effects.{RateLimitKey}
use gatebroker.Runtime.RateLimiter.{
  Limits, Limiter, fresh, same_key, count_of, is_window, roll, admit, call,
}
use gatebroker.Runtime.RateLimiter.Counts.{same_key_iff, count_of-set_count, length-set_count}
use gatebroker.Runtime.RateLimiter.Window.{
  IsBounded, Reaches, reached-IsBounded, empty-IsBounded, admit-cases, granted_state,
  granted_state-IsBounded, roll-IsBounded,
}

-- A call: its time in seconds, and its key.
abbrev pub Call : Type 0
Call = ℕ × RateLimitKey

abbrev pub counted : Bool → ℕ
counted true = 1
counted false = 0

-- How often the key calls.
abbrev pub calls_of : RateLimitKey → List Call → ℕ
calls_of key [] = 0
calls_of key ((now, k) ∷ calls) = counted (same_key k key) + calls_of key calls

-- How many of a key's calls are granted, where the limiter takes the calls in their order.
pub grants : Limits → RateLimitKey → Limiter → List Call → ℕ
grants c key s [] = 0
grants c key s ((now, k) ∷ calls) =
    let (answer, after) = call c now k s in
    counted (answer && same_key k key) + grants c key after calls

abbrev pub least : ℕ → ℕ → ℕ
least a b = if leb a b then a else b

same_count :
    (key k : RateLimitKey) (s : Limiter)
    → same_key k key ≡ true
    → count_of k s.counts ≡ count_of key s.counts
same_count key k s h = ap (λ j. count_of j s.counts) ((same_key_iff k key).0 h)

moved :
    (x : Bool) (g a b r : ℕ)
    → (x ≡ true → a ≡ b)
    → g + (if x then a + 1 else b) ≤ r
    → counted (true && x) + g + b ≤ r
moved true g a b r e h = omega (arith, e refl)
moved false g a b r e h = omega arith

moves :
    (x : Bool) (g a b r n : ℕ)
    → (x ≡ true → a ≡ b)
    → g + (if x then a + 1 else b) ≡ least r (n + (if x then a + 1 else b))
    → counted (true && x) + g + b ≡ least r (counted x + n + b)
moves true g a b r n e h = ground (arith, e refl)
moves false g a b r n e h = ground arith

stays :
    (x : Bool) (g a b r n : ℕ)
    → (x ≡ true → a ≡ b)
    → r ≤ a
    → g + b ≡ least r (n + b)
    → counted (false && x) + g + b ≡ least r (counted x + n + b)
stays true g a b r n e spent h = ground (arith, e refl)
stays false g a b r n e spent h = ground arith

from_none : (g r n : ℕ) → g + 0 ≡ least r (n + 0) → g ≡ least r n
from_none g r n h = ground arith

module _ (c : Limits) (w : ℕ) where
  -- Every call is made in the window `w`.
  abbrev pub InWindow : List Call → Type 0
  InWindow = All (λ (i : Call). i.0 / c.window_seconds ≡ w)

  abbrev IsAt : Limiter → Type 0
  IsAt s = s.window ≡ some w

  is_window_of_IsAt : (o : Option ℕ) → o ≡ some w → is_window w o ≡ true
  is_window_of_IsAt o at = rw at (ground arith)

  roll_of_IsAt : (s : Limiter) → IsAt s → roll w s ≡ s
  unfolding roll
  roll_of_IsAt s at = rw (is_window_of_IsAt s.window at) refl

  call_of_IsAt :
      (now : ℕ) (k : RateLimitKey) (s : Limiter)
      → now / c.window_seconds ≡ w
      → IsAt s
      → call c now k s ≡ admit c k s
  unfolding call
  call_of_IsAt now k s e at = rw e (rw (roll_of_IsAt s at) refl)

  -- One call moves one grant from the calls to come to the count.
  grants_at :
      (key : RateLimitKey) (s : Limiter) (calls : List Call)
      → IsAt s
      → IsBounded c s
      → InWindow calls
      → grants c key s calls + count_of key s.counts ≤ c.requests
  unfolding grants
  grants_at key s [] at h i = omega (arith, h.count key)
  grants_at key s ((now, k) ∷ calls) at h (i, is) =
      rw (call_of_IsAt now k s i at) (elim (admit-cases c k s) [
        | inl (e, _) ↦ rw e (omega (arith, grants_at key s calls at h is))
        | inr g ↦ rw (g.0) (
            moved _ _ _ _ _ (same_count key k s) (
              rw count_of-set_count at (
                grants_at key (granted_state k s) calls at (granted_state-IsBounded c k s h g) is)))
      ])

  -- With room for all the calls' keys, a key is refused only what is past the granted requests.
  grants_exact :
      (key : RateLimitKey) (s : Limiter) (calls : List Call)
      → IsAt s
      → IsBounded c s
      → InWindow calls
      → length s.counts + length calls ≤ c.max_keys
      → grants c key s calls + count_of key s.counts
        ≡ least c.requests (calls_of key calls + count_of key s.counts)
  unfolding grants
  grants_exact key s [] at h i room = ground (arith, h.count key)
  grants_exact key s ((now, k) ∷ calls) at h (i, is) room =
      rw (call_of_IsAt now k s i at) (elim (admit-cases c k s) [
        | inl (e, inr (_, full)) ↦ absurd (omega arith)
        | inl (e, inl spent) ↦ rw e (
            stays _ _ _ _ _ _ (same_count key k s) spent
              (grants_exact key s calls at h is (omega arith)))
        | inr g ↦ rw (g.0) (
            moves _ _ _ _ _ _ (same_count key k s) (
              rw count_of-set_count at (
                grants_exact key (granted_state k s) calls at (granted_state-IsBounded c k s h g) is
                  (omega (arith, length-set_count k (count_of k s.counts + 1) s.counts)))))
      ])

  IsAt_of_is_window : (o : Option ℕ) → is_window w o ≡ true → o ≡ some w
  IsAt_of_is_window none h = cc
  IsAt_of_is_window (some v) h = ap some (ground arith)

  rolled-IsAt : (s : Limiter) → (roll w s).window ≡ some w
  unfolding roll
  rolled-IsAt s = elim (Bool-cases (is_window w s.window)) [
    | inl e ↦ rw e (IsAt_of_is_window s.window e)
    | inr e ↦ rw e refl
  ]

  roll-roll : (s : Limiter) → roll w (roll w s) ≡ roll w s
  roll-roll s = roll_of_IsAt (roll w s) (rolled-IsAt s)

  -- The first call of a window finds it begun.
  grants-roll :
      (key : RateLimitKey) (s : Limiter) (calls : List Call)
      → InWindow calls
      → grants c key s calls ≡ grants c key (roll w s) calls
  unfolding grants call
  grants-roll key s [] i = refl
  grants-roll key s ((now, k) ∷ calls) (i, is) = rw i (rw (roll-roll s) refl)

-- In one window, whatever was called before, a key is granted at most the configured requests.
pub grants_bounded :
    (c : Limits) (key : RateLimitKey) (s : Limiter) (w : ℕ) (calls : List Call)
    → Reaches c s
    → InWindow c w calls
    → grants c key s calls ≤ c.requests
grants_bounded c key s w calls r i =
    let h = roll-IsBounded c w s (reached-IsBounded c s r) in
    omega (
      arith,
      grants-roll c w key s calls i,
      grants_at c w key (roll w s) calls (rolled-IsAt c w s) h i,
    )

-- A new limiter that has room for a key per call grants a key each of its calls in a window, up to
-- the configured requests and no further.
pub grants_of_fresh :
    (c : Limits) (key : RateLimitKey) (w : ℕ) (calls : List Call)
    → InWindow c w calls
    → length calls ≤ c.max_keys
    → grants c key fresh calls ≡ least c.requests (calls_of key calls)
unfolding roll count_of
grants_of_fresh c key w calls i room =
    let begun : Limiter = record { window = some w; counts = [] } in
    grants-roll c w key fresh calls i
    ∙ from_none _ c.requests (calls_of key calls)
        (grants_exact c w key begun calls refl (empty-IsBounded c (some w)) i (omega arith))
