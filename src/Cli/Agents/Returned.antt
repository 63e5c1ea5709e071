-- ===== src/Cli/Agents/Returned.antt =====
-- Rules for what an action has where it returns a value, and the key of the integrity.
use mathlib.Core.Path.{subst}
use gatebroker.Prelude.{
  String, ◌≡◌, refl, sym, Bool, true, false, not, Option, none, some, List, [],
}
use gatebroker.Result.{Result, ok, err}
use gatebroker.Cli.Vault.{
  Store, Vault, Outcome, success, refused, broken_off, integrity, Failure, keyring_error, insecure,
  invalid_agents, cannot_save_agents, Action, pure, raise, raise_if, then_do, ◌>>=◌, ◌>>◌, perform,
  reading, update, outcome, later, get_password, set_password,
}
use gatebroker.Cli.Journal.{lift, or_raise}
use gatebroker.Cli.Cache.Visible.{quiet}
use gatebroker.Cli.Agents.{
  Bytes, Libraries, checked_key, stored_or_new, profile_integrity_key, relabelled,
}

-- The key of the integrity that stands in a store.
abbrev pub HasKey : Libraries → Bytes → Store → Type 0
HasKey l key s =
    (encoded : String) × (s integrity ≡ some encoded) × (checked_key l encoded ≡ ok key)

-- What a result has, where a value was returned.
unfoldable pub Returned : {A : Type 0} → (A → Store → Type 0) → Result Failure A × Vault → Type 0
Returned Q (ok a, v) = Q a v.store
Returned Q (err e, v) = Unit

pub Returned-ok :
    {A : Type 0} (Q : A → Store → Type 0) (r : Result Failure A × Vault) (a : A) (v : Vault)
    → Returned Q r
    → r ≡ (ok a, v)
    → Q a v.store
unfolding Returned
Returned-ok Q r a v h e = subst (Returned Q) e h

pub Returned-then :
    {A B : Type 0} (P : A → Store → Type 0) (Q : B → Store → Type 0) (r : Result Failure A × Vault)
    (f : A → Action B)
    → Returned P r
    → ((a : A) (v : Vault) → P a v.store → Returned Q (f a v))
    → Returned Q (then_do r f)
unfolding Returned
Returned-then P Q (ok a, v) f h k = k a v h
Returned-then P Q (err e, v) f h k = tt

pub Returned-mono :
    {A : Type 0} (P Q : A → Store → Type 0) (r : Result Failure A × Vault)
    → Returned P r
    → ((a : A) (s : Store) → P a s → Q a s)
    → Returned Q r
unfolding Returned
Returned-mono P Q (ok a, v) h k = k a v.store h
Returned-mono P Q (err e, v) h k = tt

pub Returned-lift :
    {A : Type 0} (Q : A → Store → Type 0) (r : Result Failure A) (v : Vault)
    → ((a : A) → r ≡ ok a → Q a v.store)
    → Returned Q (lift r v)
unfolding Returned
Returned-lift Q (ok a) v h = h a refl
Returned-lift Q (err e) v h = tt

pub Returned-or_raise :
    {A : Type 0} (Q : A → Store → Type 0) (o : Option A) (e : Failure) (v : Vault)
    → ((a : A) → o ≡ some a → Q a v.store)
    → Returned Q (or_raise o e v)
unfolding Returned
Returned-or_raise Q (some a) e v h = h a refl
Returned-or_raise Q none e v h = tt

pub Returned-raise_if :
    (b : Bool) (e : Failure) (v : Vault) → Returned (λ u s. b ≡ false) (raise_if b e v)
unfolding Returned
Returned-raise_if true e v = tt
Returned-raise_if false e v = refl

pub Returned-relabelled :
    {A : Type 0} (Q : A → Store → Type 0) (f : Failure) (r : Result Failure A × Vault)
    → Returned Q r
    → Returned Q (relabelled f r)
unfolding Returned
Returned-relabelled Q f (ok a, v) h = h
Returned-relabelled Q f (err e, v) h = tt

Returned-reading :
    (o : Outcome) (v : Vault) → Returned (λ x s. x ≡ s integrity) (reading o (v.store integrity) v)
unfolding Returned
Returned-reading success v = refl
Returned-reading refused v = tt
Returned-reading broken_off v = tt

Returned-get_password : (v : Vault) → Returned (λ x s. x ≡ s integrity) (get_password integrity v)
unfolding get_password
Returned-get_password v =
    Returned-reading (outcome v.outcomes) (record v { outcomes = later v.outcomes })

Returned-perform :
    (o : Outcome) (before after : Store) (os : List Outcome)
    → Returned (λ u s. s integrity ≡ after integrity) (perform o before after os)
unfolding Returned
Returned-perform success before after os = refl
Returned-perform refused before after os = tt
Returned-perform broken_off before after os = tt

Returned-set_password :
    (x : String) (v : Vault) → Returned (λ u s. s integrity ≡ some x) (set_password integrity x v)
unfolding set_password gatebroker.Cli.Vault.same_account
Returned-set_password x v =
    Returned-perform (outcome v.outcomes) v.store (update v.store integrity (some x))
      (later v.outcomes)

module _ (l : Libraries) where
  Returned-stored_or_new :
      (create : Bool) (random : Bytes) (x : Option String) (v : Vault)
      → x ≡ v.store integrity
      → Returned (λ encoded s. s integrity ≡ some encoded) (stored_or_new l create random x v)
  unfolding Returned
  Returned-stored_or_new create random (some encoded) v h = sym h
  Returned-stored_or_new false random none v h = tt
  Returned-stored_or_new true random none v h =
      Returned-then {A = Unit {0}} {B = String} (λ u s. s integrity ≡ some (l.encode random))
        (λ encoded s. s integrity ≡ some encoded) (set_password integrity (l.encode random) v)
        (λ u. pure (l.encode random)) (Returned-set_password (l.encode random) v) (λ u w k. k)

  -- The key that is returned is the one that stands in the store.
  pub Returned-profile_integrity_key :
      (secure create : Bool) (random : Bytes) (v : Vault)
      → Returned (HasKey l) (profile_integrity_key l secure create random v)
  unfolding profile_integrity_key
  Returned-profile_integrity_key secure create random v =
      Returned-then (λ u s. not secure ≡ false) (HasKey l) (raise_if (not secure) insecure v) _
        (Returned-raise_if (not secure) insecure v)
        (λ u w h.
          Returned-then (λ x s. x ≡ s integrity) (HasKey l) (get_password integrity w) _
            (Returned-get_password w)
            (λ x y i.
              Returned-then (λ encoded s. s integrity ≡ some encoded) (HasKey l)
                (stored_or_new l create random x y) _ (Returned-stored_or_new create random x y i)
                (λ encoded z j.
                  Returned-lift (HasKey l) (checked_key l encoded) z (λ key k. (encoded, j, k)))))

  pub profile_integrity_key-stored :
      (key : Bytes) (s : Store)
      → HasKey l key s
      → profile_integrity_key l true false [] (quiet s) ≡ (ok key, quiet s)
  unfolding profile_integrity_key get_password
  profile_integrity_key-stored key s (encoded, e, k) = rw e (rw k refl)
