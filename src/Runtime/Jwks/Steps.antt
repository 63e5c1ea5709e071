-- ===== src/Runtime/Jwks/Steps.antt =====
-- The threads' blocks in any interleaving: one fetch at a time, key misses spaced by the cool-down.
use gatebroker.Prelude.{
  ℕ, suc, ◌+◌, ◌≤◌, ◌≡◌, ◌≢◌, refl, sym, ◌∙◌, ap, inl, inr, String, Bool, true, false, Option, none,
  some, List, [], ◌∷◌, arith, Bool-cases, Option-cases,
}
use gatebroker.Runtime.Jwks.{
  Jwks, Snapshot, new, find, named, nonempty, fetch_keys, complete_refresh, Decision, fetch,
  is_cooling, missing, signing_key, begin_refresh, jwks_key_miss_refresh_cooldown,
}

module _ (Key : Type 0) where
  -- The shared state, how many threads are between the two blocks of a refresh, and when the fetches
  -- for a missing key began, the last one first.
  pub record System : Type 0 where
    pub shared : Jwks Key
    pub fetching : ℕ
    pub key_misses : List ℕ

  abbrev pub initial : System
  initial = record { shared = new Key; fetching = 0; key_misses = [] }

  abbrev pub decided : ℕ → Decision Key × Jwks Key → System → System
  decided now (fetch, s) y = record {
    shared = s;
    fetching = suc y.fetching;
    key_misses = now ∷ y.key_misses;
  }
  decided now (d, s) y = record y { shared = s }

  abbrev pub begun : Bool × Jwks Key → System → System
  begun (true, s) y = record y { shared = s; fetching = suc y.fetching }
  begun (false, s) y = record y { shared = s }

  -- One block of one thread; a thread completes a refresh only after it began one.
  pub data Step : System → System → Type 0 where
    look_up :
        (y : System) (now : ℕ) (kid : String)
        → Step y (decided now (signing_key Key now kid y.shared) y)
    refresh : (y : System) → Step y (begun (begin_refresh Key y.shared) y)
    complete :
        (y : System) (now n : ℕ) (fetched : Option (List (Option String × Key)))
        → y.fetching ≡ suc n
        → Step y (record y {
          shared = complete_refresh Key now (fetch_keys Key fetched) y.shared;
          fetching = n;
        })

  pub data Reaches : System → Type 0 where
    start : Reaches initial
    next : {y z : System} → Reaches y → Step y z → Reaches z

  abbrev pub expected : Bool → ℕ
  expected true = 1
  expected false = 0

  abbrev pub first : List ℕ → Option ℕ
  first [] = none
  first (t ∷ ts) = some t

  -- Each time is at least the cool-down after the one before it.
  abbrev pub IsSpaced : List ℕ → Type 0
  IsSpaced [] = Unit
  IsSpaced (t ∷ []) = Unit
  IsSpaced (t ∷ u ∷ ts) = (u + jwks_key_miss_refresh_cooldown ≤ t) × IsSpaced (u ∷ ts)

  pub record IsOrderly (y : System) : Type 0 where
    pub single : y.fetching ≡ expected y.shared.refresh_in_progress
    pub last : y.shared.last_key_miss_refresh ≡ first y.key_misses
    pub spaced : IsSpaced y.key_misses

  IsSpaced-next :
      (now : ℕ) (ts : List ℕ)
      → is_cooling Key now (first ts) ≡ false
      → IsSpaced ts
      → IsSpaced (now ∷ ts)
  IsSpaced-next now [] c h = tt
  IsSpaced-next now (t ∷ ts) c h = (ground arith, h)

  missing-IsOrderly :
      (now : ℕ) (y : System) → IsOrderly y → IsOrderly (decided now (missing Key now y.shared) y)
  unfolding missing
  missing-IsOrderly now y h = elim (Bool-cases y.shared.refresh_in_progress) [
    | inl p ↦ rw p (record {
      single = omega (arith, h.single, ap expected p);
      last = h.last;
      spaced = h.spaced;
    })
    | inr p ↦ rw p (elim (Bool-cases (is_cooling Key now y.shared.last_key_miss_refresh)) [
      | inl c ↦ rw c (record {
        single = omega (arith, h.single, ap expected p);
        last = h.last;
        spaced = h.spaced;
      })
      | inr c ↦ rw c (record {
        single = omega (arith, h.single, ap expected p);
        last = refl;
        spaced = IsSpaced-next now y.key_misses (rw h.last at c) h.spaced;
      })
    ])
  ]

  look_up-IsOrderly :
      (now : ℕ) (kid : String) (y : System)
      → IsOrderly y
      → IsOrderly (decided now (signing_key Key now kid y.shared) y)
  unfolding signing_key
  look_up-IsOrderly now kid y h = elim (Option-cases (find Key kid y.shared.keys)) [
    | inl n ↦ rw n (missing-IsOrderly now y h)
    | inr (key, e) ↦ rw e h
  ]

  refresh-IsOrderly : (y : System) → IsOrderly y → IsOrderly (begun (begin_refresh Key y.shared) y)
  unfolding begin_refresh
  refresh-IsOrderly y h = elim (Bool-cases y.shared.refresh_in_progress) [
    | inl p ↦ rw p (record {
      single = omega (arith, h.single, ap expected p);
      last = h.last;
      spaced = h.spaced;
    })
    | inr p ↦ rw p (record {
      single = omega (arith, h.single, ap expected p);
      last = h.last;
      spaced = h.spaced;
    })
  ]

  at_most_one : (b : Bool) (n : ℕ) → expected b ≡ suc n → n ≡ 0
  at_most_one true n h = omega arith
  at_most_one false n h = absurd (omega arith)

  complete-IsOrderly :
      (y : System) (now n : ℕ) (keys : Option (Snapshot Key))
      → y.fetching ≡ suc n
      → IsOrderly y
      → IsOrderly (record y { shared = complete_refresh Key now keys y.shared; fetching = n })
  complete-IsOrderly y now n none e h = record {
    single = at_most_one y.shared.refresh_in_progress n (sym h.single ∙ e);
    last = h.last;
    spaced = h.spaced;
  }
  complete-IsOrderly y now n (some keys) e h = record {
    single = at_most_one y.shared.refresh_in_progress n (sym h.single ∙ e);
    last = h.last;
    spaced = h.spaced;
  }

  -- In whatever order the threads take their blocks, at most one of them fetches, exactly while the
  -- refresh is marked as in progress, and two fetches for a missing key begin at least the
  -- cool-down apart.
  pub reached-IsOrderly : (y : System) → Reaches y → IsOrderly y
  reached-IsOrderly y start = record { single = refl; last = refl; spaced = tt }
  reached-IsOrderly y (next {y = x} r (look_up _ now kid)) =
      look_up-IsOrderly now kid x (reached-IsOrderly x r)
  reached-IsOrderly y (next {y = x} r (refresh _)) = refresh-IsOrderly x (reached-IsOrderly x r)
  reached-IsOrderly y (next {y = x} r (complete _ now n fetched e)) =
      complete-IsOrderly x now n (fetch_keys Key fetched) e (reached-IsOrderly x r)

  nonempty-keeps :
      (now : ℕ) (s : Jwks Key) (ks : Snapshot Key)
      → s.keys ≢ []
      → (complete_refresh Key now (nonempty Key ks) s).keys ≢ []
  nonempty-keeps now s [] h = h
  nonempty-keeps now s (k ∷ ks) h = λ e. cc

  fetch_keys-keeps :
      (now : ℕ) (fetched : Option (List (Option String × Key))) (s : Jwks Key)
      → s.keys ≢ []
      → (complete_refresh Key now (fetch_keys Key fetched) s).keys ≢ []
  fetch_keys-keeps now none s h = h
  fetch_keys-keeps now (some raw) s h = nonempty-keeps now s (named Key raw) h

  look_up-keeps :
      (now : ℕ) (kid : String) (y : System)
      → (decided now (signing_key Key now kid y.shared) y).shared.keys ≡ y.shared.keys
  unfolding signing_key missing
  look_up-keeps now kid y = elim (Option-cases (find Key kid y.shared.keys)) [
    | inr (key, e) ↦ rw e refl
    | inl n ↦ rw n (elim (Bool-cases y.shared.refresh_in_progress) [
      | inl p ↦ rw p refl
      | inr p ↦ rw p (elim (Bool-cases (is_cooling Key now y.shared.last_key_miss_refresh)) [
        | inl c ↦ rw c refl
        | inr c ↦ rw c refl
      ])
    ])
  ]

  refresh-keeps : (y : System) → (begun (begin_refresh Key y.shared) y).shared.keys ≡ y.shared.keys
  unfolding begin_refresh
  refresh-keeps y = elim (Bool-cases y.shared.refresh_in_progress) [
    | inl p ↦ rw p refl
    | inr p ↦ rw p refl
  ]

  -- No block of any thread empties a snapshot that has keys: a fetch that fails, or that finds no
  -- key with a name, leaves the one that is there.
  pub Step-keeps_keys : (y z : System) → Step y z → y.shared.keys ≢ [] → z.shared.keys ≢ []
  Step-keeps_keys y z (look_up _ now kid) h e = h (sym (look_up-keeps now kid y) ∙ e)
  Step-keeps_keys y z (refresh _) h e = h (sym (refresh-keeps y) ∙ e)
  Step-keeps_keys y z (complete _ now n fetched _) h e = fetch_keys-keeps now fetched y.shared h e
