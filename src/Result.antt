-- ===== src/Result.antt =====
-- Code that may raise: a value, or the error that it raises.
use mathlib.Core.Path.{subst}
use gatebroker.Prelude.{
  Bool, true, false, ◌⊎◌, inl, inr, ◌≡◌, refl, Option, none, some, if◌then◌else◌,
}

pub data Result {ℓ κ} (E : Type κ) (A : Type ℓ) : Type (ℓ ⊔ κ) where
  ok : A → Result E A
  err : E → Result E A

infixl 5 ◌>>=◌ ◌>>◌
unfoldable pub ◌>>=◌ {ℓ κ ι} :
    {A : Type ℓ} {B : Type κ} {E : Type ι} → Result E A → (A → Result E B) → Result E B
ok a >>= f = f a
err e >>= f = err e

abbrev pub ◌>>◌ {ℓ ι} : {B : Type ℓ} {E : Type ι} → Result E (Unit {0}) → Result E B → Result E B
m >> k = m >>= λ _. k

-- `if not test: raise e`
abbrev pub guard {ι} : {E : Type ι} → Bool → E → Result E (Unit {0})
guard true e = ok tt
guard false e = err e

abbrev pub or_raise {ℓ ι} : {A : Type ℓ} {E : Type ι} → Option A → E → Result E A
or_raise none e = err e
or_raise (some a) e = ok a

pub guard-eq-ok {ι} : {E : Type ι} (b : Bool) (e : E) {u : Unit {0}} → guard b e ≡ ok u → b ≡ true
guard-eq-ok true e h = refl
guard-eq-ok false e h = cc

ok-injective {ℓ ι} :
    {A : Type ℓ} {E : Type ι} (a b : A) → ◌≡◌ {A = Result E A} (ok a) (ok b) → a ≡ b
ok-injective a b e = cc

err-ne-ok {ℓ ι} :
    {A : Type ℓ} {E : Type ι} (e : E) (a : A) → ◌≡◌ {A = Result E A} (err e) (ok a) → ⊥
err-ne-ok e a h = cc

pub or_raise-eq-ok {ℓ ι} :
    {A : Type ℓ} {E : Type ι} (o : Option A) (e : E) (a : A) → or_raise o e ≡ ok a → o ≡ some a
or_raise-eq-ok none e a h = cc
or_raise-eq-ok (some b) e a h = cc

-- Whatever the code returns has `P`; it may raise instead.
pub record Ensures {ℓ κ ι} {A : Type ℓ} {E : Type ι} (P : A → Type κ) (r : Result E A)
    : Type (ℓ ⊔ κ ⊔ ι) where
  pub at : (a : A) → r ≡ ok a → P a

module _ {ℓ κ ι} {A : Type ℓ} {E : Type ι} {P : A → Type κ} where
  pub Ensures-ok : (a : A) → P a → Ensures {E = E} P (ok a)
  Ensures-ok a p = record { at = λ b e. subst P (ok-injective a b e) p }

  pub Ensures-err : (e : E) → Ensures P (err e)
  Ensures-err e = record { at = λ b h. absurd (err-ne-ok e b h) }

  pub Ensures-bind {o} :
      {B : Type o} (m : Result E B) (f : B → Result E A)
      → ((b : B) → m ≡ ok b → Ensures P (f b))
      → Ensures P (m >>= f)
  unfolding ◌>>=◌
  Ensures-bind (ok b) f k = k b refl
  Ensures-bind (err e) f k = Ensures-err e

  pub Ensures-guard :
      (b : Bool) (e : E) (k : Result E A) → (b ≡ true → Ensures P k) → Ensures P (guard b e >> k)
  Ensures-guard b e k h = Ensures-bind (guard b e) (λ _. k) (λ u g. h (guard-eq-ok b e g))

  pub Ensures-if :
      (b : Bool) (m n : Result E A)
      → (b ≡ true → Ensures P m)
      → (b ≡ false → Ensures P n)
      → Ensures P (if b then m else n)
  Ensures-if true m n hm hn = hm refl
  Ensures-if false m n hm hn = hn refl

module _ {ℓ κ ι} {A : Type ℓ} {B : Type κ} {E : Type ι} where
  pub bind_ok : (m : Result E A) (f : A → Result E B) (a : A) → m ≡ ok a → (m >>= f) ≡ f a
  unfolding ◌>>=◌
  bind_ok m f a h = rw h

module _ {ℓ ι} {B : Type ℓ} {E : Type ι} where
  pub guard-true : (b : Bool) (e : E) (k : Result E B) → b ≡ true → (guard b e >> k) ≡ k
  unfolding ◌>>=◌
  guard-true b e k h = rw h

pub or_raise-some {ℓ ι} :
    {A : Type ℓ} {E : Type ι} (o : Option A) (e : E) (a : A) → o ≡ some a → or_raise o e ≡ ok a
or_raise-some o e a h = rw h

pub Result-cases {ℓ ι} :
    {A : Type ℓ} {E : Type ι} (r : Result E A) → ((a : A) × (r ≡ ok a)) ⊎ ((e : E) × (r ≡ err e))
Result-cases (ok a) = inl (a, refl)
Result-cases (err e) = inr (e, refl)
