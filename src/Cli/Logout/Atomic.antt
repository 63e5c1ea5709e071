-- ===== src/Cli/Logout/Atomic.antt =====
-- Signing out is atomic, whatever calls of the credential store fail.
use gatebroker.Prelude.{
  ◌≡◌, refl, ◌∙◌, inl, inr, String, Bool, true, not, Option, none, some, List, [], ◌∷◌,
  if◌then◌else◌,
}
use gatebroker.Result.{Result, ok, err}
use gatebroker.Json.{Value}
use gatebroker.Cli.Vault.{
  Store, Vault, Outcome, success, refused, broken_off, primary, cleanup, Failure, Action, pure,
  raise_if, then_do, ◌>>=◌, ◌>>◌, update, perform, outcome, later, present, delete_password,
  invalid_state, insecure, unavailable,
}
use gatebroker.Cli.Manifest.{Entry, Manifest, windows_cache_manifest}
use gatebroker.Cli.Journal.{is_nonempty, merge_windows_cache_entries}
use gatebroker.Cli.Cache.{invalid_windows_manifest, read_cache}
use gatebroker.Cli.Cache.Rules.{
  Keeps, Keeps-pure, Keeps-lift, Keeps-raise_if, Keeps-when, Keeps-bind, Keeps-delete_password,
}
use gatebroker.Cli.Cache.Visible.{Same, Same-refl, visible}
use gatebroker.Cli.Cache.Untouched.{
  Keeps-delete_entries, Keeps-pending, Keeps-write, Same-update_cleanup, All-IsSpare,
}
use gatebroker.Cli.Cache.Commit.{
  Settled, Settles, Settles-bind, Settles-lift, Settles-raise_if, Settles-get_primary,
}
use gatebroker.Cli.Cache.Observed.{IsAtomic, translated-IsAtomic}
use gatebroker.Cli.Logout.{
  entries_of, remove_entries, remove_all, remove_listed, remove_state, is_nothing, logout_windows,
  logout,
}

-- No primary credential, and so nothing that a reader is given.
abbrev Gone : Store → Type 0
Gone s = Same none (λ a. none) s

module _ (strict_loads : String → Option Value) (dumps : Value → String) where
  visible-Gone : (s : Store) → Gone s → visible strict_loads dumps s ≡ ok none
  unfolding visible read_cache gatebroker.Cli.Vault.get_password
  visible-Gone s h = rw (h.primary_kept) refl

  Keeps-remove_entries : (es : List Entry) → Keeps Gone (remove_entries strict_loads dumps es)
  unfolding remove_entries
  Keeps-remove_entries es =
      Keeps-bind _ _ (Keeps-delete_entries none _ es (All-IsSpare es)) (λ failed.
        Keeps-bind _ _
          (Keeps-when (is_nonempty failed) _ (Keeps-write strict_loads dumps none _ failed))
          (λ u. Keeps-bind _ _ (Keeps-raise_if (is_nonempty failed) unavailable) (λ t.
            Keeps-when (is_nonempty es) _
              (Keeps-delete_password cleanup (λ s h. Same-update_cleanup none _ s none h)))))

  module _ (m : Option Manifest) (s₀ : Store) where
    Settled-Gone :
        (r : Result Failure (Unit {0}) × Vault)
        → Gone r.1.store
        → Settled strict_loads dumps m s₀ none r
    unfolding Settled
    Settled-Gone (ok u, v) h = visible-Gone v.store h
    Settled-Gone (err e, v) h = inr (visible-Gone v.store h)

    Settled-delete :
        (o : Outcome) (before after : Store) (os : List Outcome) (f : Action (Unit {0}))
        → Same m s₀ before
        → Gone after
        → Keeps Gone f
        → Settled strict_loads dumps m s₀ none (then_do (perform o before after os) (λ _. f))
    unfolding Settled
    Settled-delete success before after os f h k l = Settled-Gone (f _) (l.at _ k)
    Settled-delete refused before after os f h k l = inl h
    Settled-delete broken_off before after os f h k l = inr (visible-Gone after k)

    -- The commit: the primary credential is deleted, before any chunk is.
    Settles-remove_all :
        (text : String) (es : List Entry)
        → s₀ primary ≡ some text
        → Settles strict_loads dumps m s₀ none (remove_all strict_loads dumps (some text) es)
    unfolding remove_all delete_password gatebroker.Cli.Vault.same_account
    Settles-remove_all text es e =
        Settles-bind _ _ (Keeps-when (is_nonempty es) _ (Keeps-write strict_loads dumps m s₀ es))
          (λ u. record {
            at = λ v h. rw (h.primary_kept ∙ e) (
                Settled-delete (outcome v.outcomes) v.store (update v.store primary none)
                  (later v.outcomes) (remove_entries strict_loads dumps es) h
                  (record { primary_kept = refl; chunks_kept = tt }) (Keeps-remove_entries es));
          })

    -- Where there is no primary credential, none comes.
    Settles-absent :
        (f : Action (Unit {0}))
        → s₀ primary ≡ none
        → Keeps Gone f
        → Settles strict_loads dumps m s₀ none f
    Settles-absent f e k = record {
      at = λ v h.
          Settled-Gone (f v)
            (k.at v (record { primary_kept = h.primary_kept ∙ e; chunks_kept = tt }));
    }

    Keeps-nothing :
        (es : List Entry)
        → Keeps Gone (
            if is_nothing strict_loads dumps none es
            then pure tt
            else remove_all strict_loads dumps none es)
    unfolding remove_all
    Keeps-nothing [] = Keeps-pure tt
    Keeps-nothing (e ∷ es) =
        Keeps-bind _ _ (Keeps-when true _ (Keeps-write strict_loads dumps none _ (e ∷ es)))
          (λ u. Keeps-bind _ _ (Keeps-pure tt) (λ t. Keeps-remove_entries (e ∷ es)))

    Keeps-remove_listed :
        (pending : List Entry) → Keeps Gone (remove_listed strict_loads dumps none pending)
    unfolding remove_listed
    Keeps-remove_listed pending = Keeps-bind _ _ (Keeps-lift _) (λ es. Keeps-nothing es)

    Settles-remove_listed :
        (text : String) (pending : List Entry)
        → s₀ primary ≡ some text
        → Settles strict_loads dumps m s₀ none
            (remove_listed strict_loads dumps (some text) pending)
    unfolding remove_listed
    Settles-remove_listed text pending e =
        Settles-lift
          (merge_windows_cache_entries
            (pending ∷ entries_of (windows_cache_manifest strict_loads dumps (some text)) ∷ []))
          (remove_all strict_loads dumps (some text)) (λ es j. Settles-remove_all text es e)

    Settles-remove_state :
        (x : Option String)
        → s₀ primary ≡ x
        → Settles strict_loads dumps m s₀ none (remove_state strict_loads dumps x)
    unfolding remove_state
    Settles-remove_state none e = Settles-absent _ e (
        Keeps-bind _ _
          (Keeps-raise_if (invalid_windows_manifest strict_loads dumps none) invalid_state)
          (λ u.
            Keeps-bind _ (remove_listed strict_loads dumps none)
              (Keeps-pending strict_loads dumps none _) (λ pending. Keeps-remove_listed pending)))
    Settles-remove_state (some text) e =
        Settles-raise_if (invalid_windows_manifest strict_loads dumps (some text)) invalid_state _
          (λ i.
            Settles-bind _ (remove_listed strict_loads dumps (some text))
              (Keeps-pending strict_loads dumps m s₀)
              (λ pending. Settles-remove_listed text pending e))

  Settles-logout :
      (secure : Bool) (s₀ : Store)
      → Settles strict_loads dumps
          (windows_cache_manifest strict_loads dumps (s₀ primary))
          s₀
          none
          (raise_if (not secure) insecure >> logout_windows strict_loads dumps)
  unfolding logout_windows
  Settles-logout secure s₀ = Settles-raise_if (not secure) insecure _ (λ s.
      Settles-get_primary (remove_state strict_loads dumps)
        (Settles-remove_state _ s₀ (s₀ primary) refl))

  -- Signing out on Windows is atomic: whichever calls of the credential store raise, before or after
  -- they took effect, and wherever the process ends, a reader is given what it was given before or
  -- nothing, and nothing where `logout` returned.
  pub logout-IsAtomic :
      (secure : Bool) (v : Vault)
      → IsAtomic strict_loads dumps v.store none (logout strict_loads dumps secure true v)
  unfolding logout
  logout-IsAtomic secure v =
      translated-IsAtomic strict_loads dumps v.store none _
        ((Settles-logout secure v.store).at v (Same-refl _ v.store))
