-- ===== src/Runtime/RateLimiter/Window.antt =====
-- What the limiter grants in one window, and the memory that it takes.
use gatebroker.Prelude.{
  ℕ, ◌+◌, ◌≤◌, ◌<◌, ◌≡◌, refl, ◌⊎◌, inl, inr, true, false, ◌&&◌, Option, none, some, [], leb, ◌==◌,
  length, arith, Bool-cases,
}
use gatebroker.Forwarding.Effects.{RateLimitKey}
use gatebroker.Runtime.RateLimiter.{
  Limits, Limiter, fresh, count_of, set_count, is_window, roll, admit, call,
}
use gatebroker.Runtime.RateLimiter.Counts.{
  count_of-set_count, length-set_count, length-set_count_known,
}

-- No key has more than the granted requests, and no more keys than the maximum are remembered.
pub record IsBounded (c : Limits) (s : Limiter) : Type 0 where
  pub count : (k : RateLimitKey) → count_of k s.counts ≤ c.requests
  pub keys : length s.counts ≤ c.max_keys

-- The states that calls at any times bring a new limiter to.
pub data Reaches (c : Limits) : Limiter → Type 0 where
  start : Reaches c fresh
  next : {s : Limiter} (now : ℕ) (key : RateLimitKey) → Reaches c s → Reaches c (call c now key s).1

abbrev pub granted_state : RateLimitKey → Limiter → Limiter
granted_state key s = record s { counts = set_count key (count_of key s.counts + 1) s.counts }

-- A call is refused and changes nothing, or is granted and counted.
abbrev pub Refused : Limits → RateLimitKey → Limiter → Type 0
Refused c key s =
    (admit c key s ≡ (false, s))
    × ((c.requests ≤ count_of key s.counts)
        ⊎ ((count_of key s.counts ≡ 0) × (c.max_keys ≤ length s.counts)))

abbrev pub Granted : Limits → RateLimitKey → Limiter → Type 0
Granted c key s =
    (admit c key s ≡ (true, granted_state key s))
    × (count_of key s.counts < c.requests)
    × ((0 < count_of key s.counts) ⊎ (length s.counts < c.max_keys))

pub admit-cases :
    (c : Limits) (key : RateLimitKey) (s : Limiter) → Refused c key s ⊎ Granted c key s
unfolding admit
admit-cases c key s = elim (Bool-cases (leb c.requests (count_of key s.counts))) [
  | inl e ↦ inl (rw e refl, inl (ground arith))
  | inr e ↦ elim (Bool-cases ((count_of key s.counts == 0) && leb c.max_keys (length s.counts))) [
    | inl f ↦ inl (rw e (rw f refl), inr (ground arith))
    | inr f ↦ inr (rw e (rw f refl), ground arith, ground arith)
  ]
]

pub granted_state-IsBounded :
    (c : Limits) (key : RateLimitKey) (s : Limiter)
    → IsBounded c s
    → Granted c key s
    → IsBounded c (granted_state key s)
granted_state-IsBounded c key s h (e, low, room) = record {
  count = λ k. rw count_of-set_count (ground (arith, h.count k));
  keys = elim room [
    | inl known ↦ rw (length-set_count_known key _ s.counts known) h.keys
    | inr few ↦ omega (arith, length-set_count key (count_of key s.counts + 1) s.counts)
  ];
}

admit-IsBounded :
    (c : Limits) (key : RateLimitKey) (s : Limiter) → IsBounded c s → IsBounded c (admit c key s).1
admit-IsBounded c key s h = elim (admit-cases c key s) [
  | inl (e, _) ↦ rw e h
  | inr g ↦ rw (g.0) (granted_state-IsBounded c key s h g)
]

pub empty-IsBounded : (c : Limits) (w : Option ℕ) → IsBounded c (record { window = w; counts = [] })
unfolding count_of
empty-IsBounded c w = record { count = λ k. omega arith; keys = omega arith }

pub roll-IsBounded : (c : Limits) (w : ℕ) (s : Limiter) → IsBounded c s → IsBounded c (roll w s)
unfolding roll
roll-IsBounded c w s h = elim (Bool-cases (is_window w s.window)) [
  | inl e ↦ rw e h
  | inr e ↦ rw e (empty-IsBounded c (some w))
]

-- At all times no key is counted past the granted requests, and the limiter remembers no more keys
-- than its maximum.
pub reached-IsBounded : (c : Limits) (s : Limiter) → Reaches c s → IsBounded c s
unfolding call
reached-IsBounded c s start = empty-IsBounded c none
reached-IsBounded c s (next {s = before} now key r) =
    admit-IsBounded c key _ (roll-IsBounded c _ before (reached-IsBounded c before r))
