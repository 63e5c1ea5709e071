-- ===== src/Cli/Cache/Untouched.antt =====
-- The parts of a store operation before it commits: they leave the primary credential and the chunks
-- of the active generation alone.
use gatebroker.Prelude.{
  ℕ, zero, suc, ◌+◌, ◌≡◌, refl, arith, String, Bool, true, false, Bool-cases, inl, inr, Option,
  none, some, List, [], ◌∷◌, ◌++◌, All, filter, map, if◌then◌else◌, str_eq, eq_iff,
}
use gatebroker.Result.{Result, ok}
use gatebroker.Json.{Value}
use gatebroker.Policy.{mem}
use gatebroker.Cli.Vault.{Store, Action, Failure, cleanup, chunk, pure, update}
use gatebroker.Cli.Manifest.{Entry, Manifest}
use gatebroker.Cli.Journal.{
  active_of, is_stale, list_of, delete_chunk, delete_chunks, delete_windows_cache_manifest_entries,
  journal_of, pending_windows_cache_cleanup, write_windows_cache_cleanup,
  record_windows_cache_cleanup, keep_remaining, retry_windows_cache_cleanup, record_active,
}
use gatebroker.Cli.Cache.{new_windows_cache_generation}
use gatebroker.Cli.Cache.Rules.{
  Keeps, Keeps-pure, Keeps-lift, Keeps-raise_if, Keeps-or_raise, Keeps-when, Keeps-bind,
  Keeps-attempt, Keeps-get_password, Keeps-set_password, Keeps-delete_password,
}
use gatebroker.Cli.Cache.Visible.{Same, Kept}

-- A generation that is not the active one.
abbrev pub IsSpare : Option Manifest → String → Type 0
IsSpare m g = is_stale (active_of m) (g, 0) ≡ true

Kept-cleanup :
    (m : Option Manifest) (s t : Store) (x : Option String)
    → Kept m s t
    → Kept m s (update t cleanup x)
unfolding gatebroker.Cli.Vault.same_account
Kept-cleanup none s t x h = tt
Kept-cleanup (some m) s t x h = h

pub Same-update_cleanup :
    (m : Option Manifest) (s t : Store) (x : Option String)
    → Same m s t
    → Same m s (update t cleanup x)
unfolding gatebroker.Cli.Vault.same_account
Same-update_cleanup m s t x h = record {
  primary_kept = h.primary_kept;
  chunks_kept = Kept-cleanup m s t x h.chunks_kept;
}

Kept-chunk :
    (m : Option Manifest) (s t : Store) (g : String) (i : ℕ) (x : Option String)
    → IsSpare m g
    → Kept m s t
    → Kept m s (update t (chunk g i) x)
unfolding gatebroker.Cli.Vault.same_account
Kept-chunk none s t g i x h k = tt
Kept-chunk (some (a, n, es)) s t g i x h k =
    λ j. elim (Bool-cases (str_eq g a)) [ inl e ↦ ground arith | inr e ↦ rw e (k j) ]

pub Same-update_chunk :
    (m : Option Manifest) (s t : Store) (g : String) (i : ℕ) (x : Option String)
    → IsSpare m g
    → Same m s t
    → Same m s (update t (chunk g i) x)
unfolding gatebroker.Cli.Vault.same_account
Same-update_chunk m s t g i x h k = record {
  primary_kept = k.primary_kept;
  chunks_kept = Kept-chunk m s t g i x h k.chunks_kept;
}

module _ (m : Option Manifest) (s₀ : Store) where
  pub Keeps-delete_chunk : (g : String) (i : ℕ) → IsSpare m g → Keeps (Same m s₀) (delete_chunk g i)
  unfolding delete_chunk
  Keeps-delete_chunk g i h = Keeps-bind _ _ (Keeps-get_password (chunk g i)) (λ found.
      Keeps-when _ _
        (Keeps-delete_password (chunk g i) (λ s k. Same-update_chunk m s₀ s g i none h k)))

  Keeps-delete_chunks :
      (g : String) (i n : ℕ) → IsSpare m g → Keeps (Same m s₀) (delete_chunks g i n)
  unfolding delete_chunks
  Keeps-delete_chunks g i zero h = Keeps-pure true
  Keeps-delete_chunks g i (suc n) h =
      Keeps-bind _ _ (Keeps-attempt _ (Keeps-delete_chunk g i h)) (λ deleted.
        elim deleted
          as (λ b.
            Keeps {A = Bool} (Same m s₀)
              (elim b [ true ↦ delete_chunks g (i + 1) n | false ↦ pure false ])) [
                | true ↦ Keeps-delete_chunks g (i + 1) n h
                | false ↦ Keeps-pure false
              ])

  pub Keeps-delete_entries :
      (es : List Entry)
      → All (λ e. IsSpare m e.0) es
      → Keeps (Same m s₀) (delete_windows_cache_manifest_entries es)
  unfolding delete_windows_cache_manifest_entries
  Keeps-delete_entries [] h = Keeps-pure []
  Keeps-delete_entries ((g, n) ∷ es) (h, hs) =
      Keeps-bind _ _ (Keeps-delete_chunks g 0 n h)
        (λ deleted. Keeps-bind _ _ (Keeps-delete_entries es hs) (λ failed. Keeps-pure _))

stale-IsSpare : (m : Option Manifest) (e : Entry) → is_stale (active_of m) e ≡ true → IsSpare m e.0
stale-IsSpare none e h = refl
stale-IsSpare (some (g, n, es)) e h = h

filter-IsSpare :
    (m : Option Manifest) (es : List Entry)
    → All (λ e. IsSpare m e.0) (filter (is_stale (active_of m)) es)
filter-IsSpare m [] = tt
filter-IsSpare m (e ∷ es) = elim (Bool-cases (is_stale (active_of m) e)) [
  | inl h ↦ rw h ((stale-IsSpare m e h, filter-IsSpare m es))
  | inr h ↦ rw h (filter-IsSpare m es)
]

-- Without an active generation every one is spare.
pub All-IsSpare : (es : List Entry) → All (λ e. IsSpare none e.0) es
All-IsSpare [] = tt
All-IsSpare (e ∷ es) = (refl, All-IsSpare es)

module _ (strict_loads : String → Option Value) (dumps : Value → String) (m : Option Manifest)
    (s₀ : Store) where
  pub Keeps-pending : Keeps (Same m s₀) (pending_windows_cache_cleanup strict_loads dumps)
  unfolding pending_windows_cache_cleanup
  Keeps-pending = Keeps-bind _ _ (Keeps-get_password cleanup) (λ x. read_journal x)
    where
      read_journal : (x : Option String) → Keeps (Same m s₀) (journal_of strict_loads dumps x)
      read_journal none = Keeps-pure []
      read_journal (some text) = Keeps-or_raise _ _

  pub Keeps-write :
      (es : List Entry) → Keeps (Same m s₀) (write_windows_cache_cleanup strict_loads dumps es)
  unfolding write_windows_cache_cleanup
  Keeps-write es = Keeps-set_password cleanup _ (λ s h. Same-update_cleanup m s₀ s _ h)

  pub Keeps-record :
      (es : List Entry) → Keeps (Same m s₀) (record_windows_cache_cleanup strict_loads dumps es)
  unfolding record_windows_cache_cleanup
  Keeps-record es =
      Keeps-bind _ _ Keeps-pending
        (λ pending. Keeps-bind _ _ (Keeps-lift _) (λ merged. Keeps-write merged))

  Keeps-keep_remaining :
      (remaining es : List Entry)
      → Keeps (Same m s₀) (keep_remaining strict_loads dumps remaining es)
  unfolding keep_remaining
  Keeps-keep_remaining [] es =
      Keeps-when _ _ (Keeps-delete_password cleanup (λ s h. Same-update_cleanup m s₀ s none h))
  Keeps-keep_remaining (r ∷ rs) es = Keeps-write (r ∷ rs)

  pub Keeps-retry : Keeps (Same m s₀) (retry_windows_cache_cleanup strict_loads dumps (active_of m))
  unfolding retry_windows_cache_cleanup
  Keeps-retry = Keeps-bind _ _ Keeps-pending (λ es. Keeps-bind _ _ (Keeps-raise_if _ _) (λ u.
      Keeps-bind _ _ (Keeps-delete_entries m s₀ _ (filter-IsSpare m es))
        (λ failed. Keeps-bind _ _ (Keeps-lift _) (λ remaining. Keeps-keep_remaining remaining es))))

  pub Keeps-record_active :
      (active : Option Entry) → Keeps (Same m s₀) (record_active strict_loads dumps active)
  Keeps-record_active none = Keeps-pure tt
  Keeps-record_active (some e) = Keeps-record (e ∷ [])

-- The generation that is chosen is not the active one.
str_eq_sym : (a b : String) → str_eq a b ≡ false → str_eq b a ≡ false
str_eq_sym a b h = elim (Bool-cases (str_eq b a)) [
  | inl e ↦ ground (arith, eq_iff b a, eq_iff a b)
  | inr e ↦ e
]

fresh_IsSpare :
    (m : Option Manifest) (es : List Entry) (g : String)
    → mem g (map (λ (e : Entry). e.0) (list_of (active_of m) ++ es)) ≡ false
    → IsSpare m g
unfolding mem
fresh_IsSpare none es g h = refl
fresh_IsSpare (some (a, n, cs)) es g h = rw (str_eq_sym a g (ground arith)) refl

pick_IsSpare :
    (m : Option Manifest) (es : List Entry) (c g : String) (b : Bool) (rest : Result Failure String)
    → mem c (map (λ (e : Entry). e.0) (list_of (active_of m) ++ es)) ≡ b
    → (rest ≡ ok g → IsSpare m g)
    → (if b then rest else ok c) ≡ ok g
    → IsSpare m g
pick_IsSpare m es c g true rest h k e = k e
pick_IsSpare m es c g false rest h k e = fresh_IsSpare m es g (ground arith)

pub new_generation-IsSpare :
    (m : Option Manifest) (es : List Entry) (cs : List String) (g : String)
    → new_windows_cache_generation (list_of (active_of m) ++ es) cs ≡ ok g
    → IsSpare m g
unfolding new_windows_cache_generation
new_generation-IsSpare m es [] g h = ground arith
new_generation-IsSpare m es (c ∷ cs) g h =
    pick_IsSpare m es c g _ _ refl (new_generation-IsSpare m es cs g) h
