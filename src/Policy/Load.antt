-- ===== src/Policy/Load.antt =====
-- What a policy document that loads has: well-formed policies with distinct ids.
use mathlib.Core.Bool.{and-eq-true_iff, false≢true}
use gatebroker.Prelude.{
  String, ◌≡◌, refl, sym, ◌∙◌, ap, ◌≢◌, ◌⊎◌, inl, inr, true, false, ◌&&◌, ◌||◌, Option, List, [],
  ◌∷◌, map, length, arith, Bool-cases, ==_iff, All, In, ◌≤◌, suc,
}
use gatebroker.Result.{ok, Ensures, Ensures-ok, Ensures-err, Ensures-bind, Ensures-guard}
use gatebroker.Text.{is_empty, strip, nonblank}
use gatebroker.Text.Strip.{strip-strip}
use gatebroker.Json.{Value, null, bool, num, str, arr, obj, Items, nil, cons, all_items}
use gatebroker.Policy.{
  Policy, mem, strings, is_nonblank_str, nonempty_strings, strip_items, stripped, is_key_ref,
  is_nonempty, policy_id, key_reference, policy_from_record, policies_from, unique, load_policies,
}
use gatebroker.Policy.Matching.{mem_iff}

-- Trimmed, and not empty.
abbrev pub IsClean : String → Type 0
IsClean s = (strip s ≡ s) × (is_empty s ≡ false)

strip-IsClean : (s : String) → nonblank s ≡ true → IsClean (strip s)
strip-IsClean s h = (strip-strip s, ground arith)

strip_items-IsClean :
    (vs : Items) → all_items is_nonblank_str vs ≡ true → All IsClean (strip_items vs)
unfolding all_items strip_items is_nonblank_str
strip_items-IsClean nil h = tt
strip_items-IsClean (cons (str s) vs) h =
    (strip-IsClean s (ground arith), strip_items-IsClean vs (ground arith))
strip_items-IsClean (cons v vs) h = cc

stripped-IsClean : (v : Value) → strings v ≡ true → All IsClean (stripped v)
unfolding strings stripped
stripped-IsClean (arr vs) h = strip_items-IsClean vs h
stripped-IsClean v h = cc

nonempty-IsClean :
    (v : Value) → nonempty_strings v ≡ true → All IsClean (stripped v) × (stripped v ≢ [])
unfolding nonempty_strings stripped strip_items all_items is_nonblank_str
nonempty-IsClean (arr nil) h = cc
nonempty-IsClean (arr (cons (str s) vs)) h =
    ((strip-IsClean s (ground arith), strip_items-IsClean vs (ground arith)), (λ e. cc e))
nonempty-IsClean (arr (cons null vs)) h = cc
nonempty-IsClean (arr (cons (bool b) vs)) h = cc
nonempty-IsClean (arr (cons (num n) vs)) h = cc
nonempty-IsClean (arr (cons (arr ws) vs)) h = cc
nonempty-IsClean (arr (cons (obj fs) vs)) h = cc
nonempty-IsClean v h = cc

pub record IsWellFormed (p : Policy) : Type 0 where
  pub id : IsClean p.id
  pub groups : All IsClean p.group_ids
  pub roles : All IsClean p.app_roles
  pub entitles : (p.group_ids ≢ []) ⊎ (p.app_roles ≢ [])
  pub models : All IsClean p.allowed_models
  pub some_model : p.allowed_models ≢ []
  pub key : is_key_ref p.key_ref ≡ true

policy_id-nonblank : (v : Value) (s : String) → policy_id v ≡ ok s → nonblank s ≡ true
unfolding policy_id
policy_id-nonblank (str t) s h = ground arith
policy_id-nonblank v s h = cc

key_reference-is_key_ref : (v : Value) (s : String) → key_reference v ≡ ok s → is_key_ref s ≡ true
unfolding key_reference
key_reference-is_key_ref (str t) s h = ground arith
key_reference-is_key_ref v s h = cc

strings-nonempty : (v : Value) → strings v ≡ true → is_nonempty v ≡ true → stripped v ≢ []
strings-nonempty (arr vs) h n =
    (nonempty-IsClean (arr vs) (unfold strings nonempty_strings in rw n (rw h))).1
strings-nonempty v h n = cc

-- The entitlement test leaves a group or a role.
entitled_lem :
    (gs rs : Value)
    → (strings gs && strings rs && (is_nonempty gs || is_nonempty rs)) ≡ true
    → (stripped gs ≢ []) ⊎ (stripped rs ≢ [])
entitled_lem gs rs h =
    let (both, either) = (and-eq-true_iff _ _).0 h in
    let (g, r) = (and-eq-true_iff _ _).0 both in
    elim (Bool-cases (is_nonempty gs)) [
      | inl e ↦ inl (strings-nonempty gs g e)
      | inr e ↦ inr (strings-nonempty rs r (rw e at either))
    ]

policy_from_record-Ensures : (v : Value) → Ensures IsWellFormed (policy_from_record v)
unfolding policy_from_record
policy_from_record-Ensures (obj r) = Ensures-bind _ _ λ v _. Ensures-bind _ _ λ ms _.
    Ensures-bind _ _ λ k _. Ensures-bind _ _ λ n _. Ensures-bind _ _ λ id id_ok.
      Ensures-guard _ _ _ λ entitled. Ensures-guard _ _ _ λ listed. Ensures-bind _ _ λ key key_ok.
        Ensures-bind _ _ λ prio _. Ensures-ok _ (
          let both = (and-eq-true_iff _ _).0 ((and-eq-true_iff _ _).0 entitled).0 in
          record {
            id = strip-IsClean id (policy_id-nonblank v id id_ok);
            groups = stripped-IsClean _ both.0;
            roles = stripped-IsClean _ both.1;
            entitles = entitled_lem _ _ entitled;
            models = (nonempty-IsClean ms listed).0;
            some_model = (nonempty-IsClean ms listed).1;
            key = key_reference-is_key_ref k key key_ok;
          })
policy_from_record-Ensures v = Ensures-err _

policies_from-Ensures : (vs : Items) → Ensures (All IsWellFormed) (policies_from vs)
unfolding policies_from
policies_from-Ensures nil = Ensures-ok _ tt
policies_from-Ensures (cons v vs) = Ensures-bind _ _ λ p e.
    Ensures-bind _ _ λ ps f.
      Ensures-ok _ ((policy_from_record-Ensures v).at p e, (policies_from-Ensures vs).at ps f)

-- No text stands twice in the list.
abbrev pub IsDistinct : List String → Type 0
IsDistinct [] = Unit
IsDistinct (x ∷ xs) = (¬ (In x xs)) × IsDistinct xs

length-unique-le : (xs : List String) → length (unique xs) ≤ length xs
unfolding unique
length-unique-le [] = omega arith
length-unique-le (x ∷ xs) = ground (arith, length-unique-le xs)

length-unique-IsDistinct : (xs : List String) → length (unique xs) ≡ length xs → IsDistinct xs
unfolding unique
length-unique-IsDistinct [] h = tt
length-unique-IsDistinct (x ∷ xs) h = elim (Bool-cases (mem x xs)) [
  | inl e ↦ absurd (omega (arith, length-unique-le xs, rw e at h))
  | inr e ↦ (
    (λ i. false≢true (sym e ∙ (mem_iff x xs).1 i)),
    length-unique-IsDistinct xs (let h' = (rw e at h) in omega arith),
  )
]

-- What a loaded document has.
pub record IsLoaded (policies : List Policy) : Type 0 where
  pub each : All IsWellFormed policies
  pub ids : IsDistinct (map (λ (p : Policy). p.id) policies)

length-ids : (ps : List Policy) → length (map (λ (p : Policy). p.id) ps) ≡ length ps
length-ids [] = refl
length-ids (p ∷ ps) = ap suc (length-ids ps)

module _ (json_loads : String → Option Value) where
  load_policies-Ensures : (document : String) → Ensures IsLoaded (load_policies json_loads document)
  unfolding load_policies
  load_policies-Ensures document = Ensures-bind _ _ λ vs _. Ensures-bind _ _ λ ps e.
      Ensures-guard _ _ _ λ same. Ensures-ok _ (record {
        each = (policies_from-Ensures vs).at ps e;
        ids = length-unique-IsDistinct _ ((==_iff _ _).0 same ∙ sym (length-ids ps));
      })

  -- Every policy of a document that loads has a trimmed id, trimmed groups, roles and models, an
  -- entitlement, a model and a key reference of the required form, and no two have one id.
  pub load_policies-IsLoaded :
      (document : String) (policies : List Policy)
      → load_policies json_loads document ≡ ok policies
      → IsLoaded policies
  load_policies-IsLoaded document policies h = (load_policies-Ensures document).at policies h
