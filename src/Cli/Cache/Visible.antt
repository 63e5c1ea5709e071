-- ===== src/Cli/Cache/Visible.antt =====
-- The abstract view: what a reader of the store is given when no call of it fails.
use gatebroker.Prelude.{
  ℕ, zero, suc, ◌+◌, ◌≡◌, refl, sym, ◌∙◌, ap, String, Bool, true, false, Bool-cases, inl, inr,
  Option, none, some, List, [], ◌∷◌,
}
use gatebroker.Result.{Result, ok, err}
use gatebroker.Text.{is_empty}
use gatebroker.Json.{Value}
use gatebroker.Cli.Vault.{
  Store, Vault, primary, chunk, Failure, invalid_state, then_do, ◌>>=◌, pure, raise_if,
  get_password,
}
use gatebroker.Cli.Manifest.{Manifest, windows_cache_manifest}
use gatebroker.Cli.Chunks.{concat}
use gatebroker.Cli.Journal.{or_raise}
use gatebroker.Cli.Cache.{
  all_present, read_chunks, load_manifest, read_text, read_cache,
  load_windows_chunked_cache_unlocked,
}

-- A store whose calls all succeed.
abbrev pub quiet : Store → Vault
quiet s = record { store = s; outcomes = [] }

abbrev pub chunks_at : Store → String → ℕ → ℕ → List (Option String)
chunks_at s g i zero = []
chunks_at s g i (suc n) = s (chunk g i) ∷ chunks_at s g (i + 1) n

-- What a manifest names is the same in both stores.
abbrev pub Kept : Option Manifest → Store → Store → Type 0
Kept none s t = Unit
Kept (some (g, n, es)) s t = (i : ℕ) → t (chunk g i) ≡ s (chunk g i)

pub record Same (m : Option Manifest) (s t : Store) : Type 0 where
  pub primary_kept : t primary ≡ s primary
  pub chunks_kept : Kept m s t

pub Same-refl : (m : Option Manifest) (s : Store) → Same m s s
Same-refl none s = record { primary_kept = refl; chunks_kept = tt }
Same-refl (some m) s = record { primary_kept = refl; chunks_kept = λ i. refl }

pub read_chunks-quiet :
    (s : Store) (g : String) (i n : ℕ)
    → read_chunks g i n (quiet s) ≡ (ok (chunks_at s g i n), quiet s)
unfolding read_chunks get_password
read_chunks-quiet s g i zero = refl
read_chunks-quiet s g i (suc n) = rw (read_chunks-quiet s g (i + 1) n) refl

pub chunks_at-same :
    (s t : Store) (g : String) (i n : ℕ)
    → ((j : ℕ) → t (chunk g j) ≡ s (chunk g j))
    → chunks_at t g i n ≡ chunks_at s g i n
chunks_at-same s t g i zero h = refl
chunks_at-same s t g i (suc n) h =
    rw (h i) (ap (λ l. s (chunk g i) ∷ l) (chunks_at-same s t g (i + 1) n h))

-- Actions that do not look at the store answer the same in any.
join_chunks :
    (o : Option (List String)) (v w : Vault)
    → ((or_raise o invalid_state >>= λ texts. pure (concat texts)) v).0
      ≡ ((or_raise o invalid_state >>= λ texts. pure (concat texts)) w).0
join_chunks none v w = refl
join_chunks (some texts) v w = refl

abbrev as_some : Result Failure String → Result Failure (Option String)
as_some (ok text) = ok (some text)
as_some (err e) = err e

then_some :
    (r : Result Failure String × Vault) → (then_do r (λ text. pure (some text))).0 ≡ as_some r.0
then_some (ok text, v) = refl
then_some (err e, v) = refl

module _ (strict_loads : String → Option Value) (dumps : Value → String) where
  unfoldable pub visible : Store → Result Failure (Option String)
  visible s = (read_cache strict_loads dumps true (quiet s)).0

  raise_if_same :
      (b : Bool) (text : String) (v w : Vault)
      → ((raise_if b invalid_state >>= λ u. pure text) v).0
        ≡ ((raise_if b invalid_state >>= λ u. pure text) w).0
  raise_if_same true text v w = refl
  raise_if_same false text v w = refl

  pub load_manifest-same :
      (text : String) (m : Option Manifest) (s t : Store)
      → Kept m s t
      → (load_manifest strict_loads dumps text m (quiet t)).0
        ≡ (load_manifest strict_loads dumps text m (quiet s)).0
  load_manifest-same text none s t h = raise_if_same _ text (quiet t) (quiet s)
  load_manifest-same text (some (g, n, es)) s t h = rw (read_chunks-quiet t g 0 n) (
      rw (read_chunks-quiet s g 0 n) (
        rw (chunks_at-same s t g 0 n h)
          (join_chunks (all_present (chunks_at s g 0 n)) (quiet t) (quiet s))))

  read_text-same :
      (x : Option String) (s t : Store)
      → Kept (windows_cache_manifest strict_loads dumps x) s t
      → (read_text strict_loads dumps true x (quiet t)).0
        ≡ (read_text strict_loads dumps true x (quiet s)).0
  unfolding load_windows_chunked_cache_unlocked
  read_text-same none s t h = refl
  read_text-same (some text) s t h = elim (Bool-cases (is_empty text)) [
    | inl e ↦ rw e refl
    | inr e ↦ rw e (
        then_some (
          load_manifest strict_loads dumps text
            (windows_cache_manifest strict_loads dumps (some text)) (quiet t))
        ∙ ap as_some (load_manifest-same text _ s t h)
        ∙ sym (
            then_some (
              load_manifest strict_loads dumps text
                (windows_cache_manifest strict_loads dumps (some text)) (quiet s))))
  ]

  -- Where the primary credential and all it names are the same, so is what is read.
  pub visible-Same :
      (s t : Store)
      → Same (windows_cache_manifest strict_loads dumps (s primary)) s t
      → visible t ≡ visible s
  unfolding visible read_cache get_password
  visible-Same s t h = rw (h.primary_kept) (read_text-same (s primary) s t h.chunks_kept)
