-- ===== src/Cli/Cache/Commit.antt =====
-- The commit point: a store operation leaves what is visible alone until it writes the primary
-- credential.
use gatebroker.Prelude.{
  ℕ, ◌+◌, ◌<◌, ◌≡◌, refl, ◌∙◌, ap, arith, ◌⊎◌, inl, inr, String, Bool, true, false, Option, some,
  List, [], ◌∷◌, eq_refl, length, map,
}
use gatebroker.Result.{Result, ok, err}
use gatebroker.Json.{Value}
use gatebroker.Cli.Vault.{
  Store, Vault, Outcome, success, refused, broken_off, primary, chunk, Failure, Action, pure,
  raise_if, then_do, ◌>>=◌, ◌>>◌, update, perform, reading, outcome, later, get_password,
  set_password,
}
use gatebroker.Cli.Manifest.{Manifest}
use gatebroker.Cli.Journal.{lift}
use gatebroker.Cli.Cache.{write_chunks}
use gatebroker.Cli.Cache.Rules.{Keeps}
use gatebroker.Cli.Cache.Visible.{Same, chunks_at, visible}
use gatebroker.Cli.Cache.Untouched.{IsSpare, Same-update_chunk}

-- The chunks of a generation, from an index on, are these texts.
pub Written : String → ℕ → List String → Store → Type 0
Written g i [] s = Unit
Written g i (c ∷ cs) s = (s (chunk g i) ≡ some c) × Written g (i + 1) cs s

pub chunks_at-Written :
    (g : String) (i : ℕ) (cs : List String) (s : Store)
    → Written g i cs s
    → chunks_at s g i (length cs) ≡ map some cs
unfolding Written
chunks_at-Written g i [] s h = refl
chunks_at-Written g i (c ∷ cs) s (h, k) =
    rw h (ap (λ l. some c ∷ l) (chunks_at-Written g (i + 1) cs s k))

update_chunk_same :
    (s : Store) (g : String) (i : ℕ) (x : Option String) → update s (chunk g i) x (chunk g i) ≡ x
unfolding gatebroker.Cli.Vault.same_account
update_chunk_same s g i x = ground (arith, eq_refl g)

update_chunk_other :
    (s : Store) (g : String) (i j : ℕ) (x : Option String)
    → j < i
    → update s (chunk g i) x (chunk g j) ≡ s (chunk g j)
unfolding gatebroker.Cli.Vault.same_account
update_chunk_other s g i j x h = ground (arith, eq_refl g)

then_do_assoc :
    {A B C : Type 0} (r : Result Failure A × Vault) (f : A → Action B) (k : B → Action C)
    → then_do (then_do r f) k ≡ then_do r (λ a w. then_do (f a w) k)
then_do_assoc (ok a, v) f k = refl
then_do_assoc (err e, v) f k = refl

module _ (strict_loads : String → Option Value) (dumps : Value → String) (m : Option Manifest)
    (s₀ : Store) (new : Option String) where
  abbrev pub Shows : Store → Type 0
  Shows s = visible strict_loads dumps s ≡ ok new

  -- It returns where the new text is visible; where it raises, nothing has changed or the new text is
  -- visible.
  unfoldable pub Settled : Result Failure (Unit {0}) × Vault → Type 0
  Settled (ok u, v) = Shows v.store
  Settled (err e, v) = Same m s₀ v.store ⊎ Shows v.store

  pub record Settles (f : Action (Unit {0})) : Type 0 where
    pub at : (v : Vault) → Same m s₀ v.store → Settled (f v)

module _ {strict_loads : String → Option Value} {dumps : Value → String} {m : Option Manifest}
    {s₀ : Store} {new : Option String} where
  Settled-then :
      {A : Type 0} (r : Result Failure A × Vault) (f : A → Action (Unit {0}))
      → Same m s₀ r.1.store
      → ((a : A) → Settles strict_loads dumps m s₀ new (f a))
      → Settled strict_loads dumps m s₀ new (then_do r f)
  unfolding Settled
  Settled-then (ok a, v) f h k = (k a).at v h
  Settled-then (err e, v) f h k = inl h

  pub Settles-bind :
      {A : Type 0} (g : Action A) (f : A → Action (Unit {0}))
      → Keeps (Same m s₀) g
      → ((a : A) → Settles strict_loads dumps m s₀ new (f a))
      → Settles strict_loads dumps m s₀ new (g >>= f)
  Settles-bind g f h k = record { at = λ v s. Settled-then (g v) f (h.at v s) k }

  pub Settles-lift :
      {A : Type 0} (r : Result Failure A) (f : A → Action (Unit {0}))
      → ((a : A) → r ≡ ok a → Settles strict_loads dumps m s₀ new (f a))
      → Settles strict_loads dumps m s₀ new (lift r >>= f)
  unfolding Settled
  Settles-lift (ok a) f k = record { at = λ v s. (k a refl).at v s }
  Settles-lift (err e) f k = record { at = λ v s. inl s }

  pub Settles-raise_if :
      (b : Bool) (e : Failure) (f : Action (Unit {0}))
      → (b ≡ false → Settles strict_loads dumps m s₀ new f)
      → Settles strict_loads dumps m s₀ new (raise_if b e >> f)
  unfolding Settled
  Settles-raise_if true e f k = record { at = λ v s. inl s }
  Settles-raise_if false e f k = record { at = λ v s. (k refl).at v s }

  Settled-reading :
      (o : Outcome) (x : Option String) (v : Vault) (f : Option String → Action (Unit {0}))
      → x ≡ s₀ primary
      → Same m s₀ v.store
      → Settles strict_loads dumps m s₀ new (f (s₀ primary))
      → Settled strict_loads dumps m s₀ new (then_do (reading o x v) f)
  unfolding Settled
  Settled-reading success x v f e h k = rw e (k.at v h)
  Settled-reading refused x v f e h k = inl h
  Settled-reading broken_off x v f e h k = inl h

  pub Settles-get_primary :
      (f : Option String → Action (Unit {0}))
      → Settles strict_loads dumps m s₀ new (f (s₀ primary))
      → Settles strict_loads dumps m s₀ new (get_password primary >>= f)
  unfolding get_password
  Settles-get_primary f k = record {
    at = λ v h. Settled-reading (outcome v.outcomes) _ _ f h.primary_kept h k;
  }

module _ (strict_loads : String → Option Value) (dumps : Value → String) (m : Option Manifest)
    (s₀ : Store) (new : Option String) where
  Settled-perform :
      (o : Outcome) (before after : Store) (os : List Outcome)
      → Same m s₀ before
      → Shows strict_loads dumps m s₀ new after
      → Settled strict_loads dumps m s₀ new (perform o before after os)
  unfolding Settled
  Settled-perform success before after os h k = k
  Settled-perform refused before after os h k = inl h
  Settled-perform broken_off before after os h k = inr k

  -- The commit: one write of the primary credential, of a text that shows the new state.
  pub Settled-commit :
      (text : String) (v : Vault)
      → Same m s₀ v.store
      → Shows strict_loads dumps m s₀ new (update v.store primary (some text))
      → Settled strict_loads dumps m s₀ new (set_password primary text v)
  unfolding set_password
  Settled-commit text v h k = Settled-perform (outcome v.outcomes) _ _ _ h k

  Settled-write :
      (o : Outcome) (before after : Store) (os : List Outcome) (f : Action (Unit {0}))
      → Same m s₀ before
      → Same m s₀ after
      → ((w : Vault)
          → Same m s₀ w.store
          → w.store ≡ after
          → Settled strict_loads dumps m s₀ new (f w))
      → Settled strict_loads dumps m s₀ new (then_do (perform o before after os) (λ _. f))
  unfolding Settled
  Settled-write success before after os f h k l = l _ k refl
  Settled-write refused before after os f h k l = inl h
  Settled-write broken_off before after os f h k l = inl k

  -- Writing the chunks of a spare generation, and what follows once they stand in the store.
  pub Settled-chunks :
      (g : String) (i : ℕ) (cs : List String) (f : Action (Unit {0})) (v : Vault)
      → IsSpare m g
      → Same m s₀ v.store
      → ((w : Vault)
          → Same m s₀ w.store
          → Written g i cs w.store
          → ((j : ℕ) → j < i → w.store (chunk g j) ≡ v.store (chunk g j))
          → Settled strict_loads dumps m s₀ new (f w))
      → Settled strict_loads dumps m s₀ new ((write_chunks g i cs >> f) v)
  unfolding write_chunks Written set_password
  Settled-chunks g i [] f v h s k = k v s tt (λ j l. refl)
  Settled-chunks g i (c ∷ cs) f v h s k =
      rw (then_do_assoc (set_password (chunk g i) c v) (λ _. write_chunks g (i + 1) cs) (λ _. f)) (
        Settled-write (outcome v.outcomes) _ _ _ (write_chunks g (i + 1) cs >> f) s
          (Same-update_chunk m s₀ v.store g i (some c) h s)
          (λ w t e. Settled-chunks g (i + 1) cs f w h t (λ u t l frame.
            k u t
              (
                frame i (omega arith)
                    ∙ ap (λ r. r (chunk g i)) e
                    ∙ update_chunk_same v.store g i (some c),
                l,
              )
              (λ j n.
                frame j (omega arith)
                ∙ ap (λ r. r (chunk g j)) e
                ∙ update_chunk_other v.store g i j (some c) n))))
