-- ===== src/Cli/Cache/Rules.antt =====
-- Rules: what an action leaves of a store, whether it returns or raises.
use gatebroker.Prelude.{inl, inr, String, Bool, true, false, Option, none, some, List, Bool-cases}
use gatebroker.Result.{Result, ok, err}
use gatebroker.Cli.Vault.{
  Account, Store, Vault, Outcome, success, refused, broken_off, Failure, keyring_error,
  invalid_state, cannot_save, unavailable, insecure, invalid_agents, cannot_save_agents, Action,
  pure, raise_if, then_do, ◌>>=◌, update, perform, outcome, reading, present, get_password,
  set_password, delete_password,
}
use gatebroker.Cli.Journal.{lift, caught, attempt, when, or_raise}

-- Where `P` holds of the store before, it holds of the store after.
pub record Keeps {A : Type 0} (P : Store → Type 0) (m : Action A) : Type 0 where
  pub at : (v : Vault) → P v.store → P (m v).1.store

after_caught :
    (P : Store → Type 0)
    → (r : Result Failure (Unit {0}) × Vault) → P r.1.store
    → P (caught r).1.store
after_caught P (ok u, v) h = h
after_caught P (err keyring_error, v) h = h
after_caught P (err invalid_state, v) h = h
after_caught P (err cannot_save, v) h = h
after_caught P (err unavailable, v) h = h
after_caught P (err insecure, v) h = h
after_caught P (err invalid_agents, v) h = h
after_caught P (err cannot_save_agents, v) h = h

after_reading :
    (P : Store → Type 0)
    → (o : Outcome) (x : Option String) (v : Vault) → P v.store
    → P (reading o x v).1.store
after_reading P success x v h = h
after_reading P refused x v h = h
after_reading P broken_off x v h = h

after_perform :
    (P : Store → Type 0)
    → (o : Outcome) (before after : Store) (os : List Outcome) → P before
    → P after
    → P (perform o before after os).1.store
after_perform P success before after os h k = k
after_perform P refused before after os h k = h
after_perform P broken_off before after os h k = k

module _ {P : Store → Type 0} where
  pub Keeps-pure : {A : Type 0} (a : A) → Keeps P (pure a)
  Keeps-pure a = record { at = λ v h. h }

  pub Keeps-lift : {A : Type 0} (r : Result Failure A) → Keeps P (lift r)
  Keeps-lift r = record { at = λ v h. h }

  pub Keeps-raise_if : (b : Bool) (e : Failure) → Keeps P (raise_if b e)
  Keeps-raise_if true e = record { at = λ v h. h }
  Keeps-raise_if false e = record { at = λ v h. h }

  pub Keeps-or_raise : {A : Type 0} (o : Option A) (e : Failure) → Keeps P (or_raise o e)
  Keeps-or_raise none e = record { at = λ v h. h }
  Keeps-or_raise (some a) e = record { at = λ v h. h }

  pub Keeps-when : (b : Bool) (m : Action (Unit {0})) → Keeps P m → Keeps P (when b m)
  Keeps-when true m k = k
  Keeps-when false m k = Keeps-pure tt

  after_then :
      {A B : Type 0} (r : Result Failure A × Vault) (f : A → Action B)
      → P r.1.store
      → ((a : A) → Keeps P (f a))
      → P (then_do r f).1.store
  after_then (ok a, v) f h k = (k a).at v h
  after_then (err e, v) f h k = h

  pub Keeps-bind :
      {A B : Type 0} (m : Action A) (f : A → Action B)
      → Keeps P m
      → ((a : A) → Keeps P (f a))
      → Keeps P (m >>= f)
  Keeps-bind m f k l = record { at = λ v h. after_then (m v) f (k.at v h) l }

  pub Keeps-attempt : (m : Action (Unit {0})) → Keeps P m → Keeps P (attempt m)
  Keeps-attempt m k = record { at = λ v h. after_caught P (m v) (k.at v h) }

  pub Keeps-get_password : (a : Account) → Keeps P (get_password a)
  unfolding get_password
  Keeps-get_password a = record { at = λ v h. after_reading P (outcome v.outcomes) _ _ h }

  pub Keeps-set_password :
      (a : Account) (x : String)
      → ((s : Store) → P s → P (update s a (some x)))
      → Keeps P (set_password a x)
  unfolding set_password
  Keeps-set_password a x k = record {
    at = λ v h. after_perform P (outcome v.outcomes) _ _ _ h (k v.store h);
  }

  pub Keeps-delete_password :
      (a : Account) → ((s : Store) → P s → P (update s a none)) → Keeps P (delete_password a)
  unfolding delete_password
  Keeps-delete_password a k = record {
    at = λ v h. elim (Bool-cases (present (v.store a))) [
      | inl e ↦ rw e (after_perform P (outcome v.outcomes) _ _ _ h (k v.store h))
      | inr e ↦ rw e h
    ];
  }
