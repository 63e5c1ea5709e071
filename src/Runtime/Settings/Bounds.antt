-- ===== src/Runtime/Settings/Bounds.antt =====
-- The byte bounds that a deployment can configure.
use gatebroker.Prelude.{
  String, ℕ, ◌≤◌, ◌≡◌, ◌↔◌, ap, Option, none, some, arith, ◌==◌, if◌then◌else◌,
}
use gatebroker.Prelude.Int.{ℤ, pos, negsuc}
use gatebroker.Result.{Result, ok, err, ◌>>=◌, or_raise}
use gatebroker.Runtime.Settings.{
  RuntimeError, positive, validated_byte_bound, max_configurable_bytes, positive_integer,
  byte_bound, must_be_positive,
}

abbrev bound_of : Option ℤ → Result RuntimeError ℕ
bound_of o = do
  n ← (do parsed ← or_raise o must_be_positive; positive parsed)
  validated_byte_bound n

-- The value is the integer `n`, within the supported range.
abbrev pub IsByteBound : Option ℤ → ℕ → Type 0
IsByteBound o n = (o ≡ some (pos n)) × (1024 ≤ n) × (n ≤ max_configurable_bytes)

in_range :
    (m n : ℕ)
    → (if m == 0 then err must_be_positive else validated_byte_bound m) ≡ ok n
    → (m ≡ n) × (1024 ≤ m) × (m ≤ max_configurable_bytes)
in_range m n h = (ground arith, ground arith, ground arith)

bound_sound : (o : Option ℤ) (n : ℕ) → bound_of o ≡ ok n → IsByteBound o n
unfolding ◌>>=◌
bound_sound none n h = cc
bound_sound (some (pos m)) n h =
    let (same, low, high) = in_range m n (ground arith) in
    (ap (λ k. some (pos k)) same, omega arith, omega arith)
bound_sound (some (negsuc m)) n h = cc

bound_complete : (o : Option ℤ) (n : ℕ) → IsByteBound o n → bound_of o ≡ ok n
unfolding ◌>>=◌
bound_complete o n (e, low, high) = rw e (ground arith)

-- A byte bound is accepted exactly when `int` reads its text as an integer from 1024 to the largest
-- bound that can be configured, and it is then that integer.
pub byte_bound-eq-ok_iff :
    (int : String → Option ℤ) (value : String) (n : ℕ)
    → (byte_bound int value ≡ ok n) ↔ IsByteBound (int value) n
unfolding byte_bound positive_integer
byte_bound-eq-ok_iff int value n = (bound_sound (int value) n, bound_complete (int value) n)
