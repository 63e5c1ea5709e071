-- ===== src/Runtime/RateLimiter.antt =====
-- `FixedWindowRateLimiter`: its counts in the current window, and one call.
pub mod Counts
pub mod Window
pub mod Grants
use gatebroker.Prelude.{
  ℕ, suc, ◌+◌, ◌/◌, Bool, true, false, ◌&&◌, Option, none, some, List, [], ◌∷◌, leb, ◌==◌, str_eq,
  length, if◌then◌else◌,
}
use gatebroker.Forwarding.Effects.{RateLimitKey}

-- The arguments of the constructor.
pub record Limits : Type 0 where
  pub requests : ℕ
  pub window_seconds : ℕ
  pub max_keys : ℕ

abbrev pub KeyCounts : Type 0
KeyCounts = List (RateLimitKey × ℕ)

pub record Limiter : Type 0 where
  pub window : Option ℕ
  pub counts : KeyCounts

-- `FixedWindowRateLimiter(...)`
abbrev pub fresh : Limiter
fresh = record { window = none; counts = [] }

-- Two keys of the dict are equal when their three fields are.
pub same_key : RateLimitKey → RateLimitKey → Bool
same_key a b =
    str_eq a.subject b.subject && str_eq a.policy_id b.policy_id && str_eq a.client_ip b.client_ip

-- `counts.get(key, 0)`
pub count_of : RateLimitKey → KeyCounts → ℕ
unfolding same_key
count_of key [] = 0
count_of key ((k, n) ∷ counts) = if same_key k key then n else count_of key counts

-- `counts[key] = count`
pub set_count : RateLimitKey → ℕ → KeyCounts → KeyCounts
unfolding same_key
set_count key n [] = (key, n) ∷ []
set_count key n ((k, m) ∷ counts) =
    let rest = set_count key n counts in if same_key k key then (k, n) ∷ counts else (k, m) ∷ rest

-- `self._window != window`, negated
abbrev pub is_window : ℕ → Option ℕ → Bool
is_window w none = false
is_window w (some v) = v == w

-- The counts are cleared when another window has begun.
pub roll : ℕ → Limiter → Limiter
roll w s = if is_window w s.window then s else record { window = some w; counts = [] }

-- The code from the lookup of the count on.
pub admit : Limits → RateLimitKey → Limiter → Bool × Limiter
unfolding count_of set_count
admit c key s =
    let count = count_of key s.counts in
    if leb c.requests count
    then (false, s)
    else if (count == 0) && leb c.max_keys (length s.counts)
    then (false, s)
    else (true, record s { counts = set_count key (count + 1) s.counts })

-- `now` is the time in whole seconds: the quotient by a whole number of seconds, rounded down, does
-- not depend on the fraction.
unfoldable pub call : Limits → ℕ → RateLimitKey → Limiter → Bool × Limiter
unfolding roll admit
call c now key s = admit c key (roll (now / c.window_seconds) s)
