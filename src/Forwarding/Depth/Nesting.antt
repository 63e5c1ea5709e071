-- ===== src/Forwarding/Depth/Nesting.antt =====
-- The depth check against a description without flags: strip the string literals from a prefix of
-- the body, and count the brackets that are left.
use mathlib.Core.Bool.{false≢true}
use gatebroker.Prelude.{
  ℕ, ◌+◌, ◌<◌, ◌≤◌, ◌≡◌, refl, sym, ap, ◌∙◌, ◌↔◌, inl, inr, Bool, true, false, ◌&&◌, List, [], ◌∷◌,
  ◌++◌, arith, Bool-cases, ◌==◌, if◌then◌else◌,
}
use gatebroker.Prelude.Int.{ℤ, pos, ◌+ℤ◌, ◌-ℤ◌, ltb_ℤ, pos_part, neg_part, +ℤ_parts, -ℤ_parts}
use gatebroker.Forwarding.Depth.{
  Scan, scan, is_opening, is_closing, quote, backslash, max_json_depth, exceeds_max_json_depth,
}

-- The bytes outside string literals, from outside one, from inside one, and behind a backslash.
mutual
  pub outside : List ℕ → List ℕ
  outside [] = []
  outside (b ∷ bs) =
      let literal = inside bs in let rest = outside bs in if b == quote then literal else b ∷ rest

  pub inside : List ℕ → List ℕ
  inside [] = []
  inside (b ∷ bs) =
      let skipped = behind bs in
      let ended = outside bs in
      let rest = inside bs in if b == backslash then skipped else if b == quote then ended else rest

  pub behind : List ℕ → List ℕ
  behind [] = []
  behind (b ∷ bs) = inside bs

pub opened : List ℕ → ℕ
opened [] = 0
opened (b ∷ bs) = let n = opened bs in if is_opening b then n + 1 else n

pub closed : List ℕ → ℕ
closed [] = 0
closed (b ∷ bs) = let n = closed bs in if is_closing b then n + 1 else n

-- From the depth `d`, the brackets `bs` lead past the limit.
abbrev IsPast : ℤ → List ℕ → Type 0
IsPast d bs = max_json_depth + neg_part d + closed bs < pos_part d + opened bs

-- Some prefix of the body, read by `view`, leads past the limit.
abbrev Deep : (List ℕ → List ℕ) → ℤ → List ℕ → Type 0
Deep view d raw =
    (before : List ℕ) × (after : List ℕ) × (raw ≡ before ++ after) × IsPast d (view before)

abbrev at_depth : ℤ → Bool → Bool → Scan
at_depth d in_string escaped = record { depth = d; in_string = in_string; escaped = escaped }

abbrev IsLow : ℤ → Type 0
IsLow d = pos_part d ≤ max_json_depth + neg_part d

scan-quote :
    (b : ℕ) (bs : List ℕ) (d : ℤ)
    → (b == quote) ≡ true
    → scan (at_depth d false false) (b ∷ bs) ≡ scan (at_depth d true false) bs
unfolding scan
scan-quote b bs d q = rw q

outside-quote : (b : ℕ) (bs : List ℕ) → (b == quote) ≡ true → outside (b ∷ bs) ≡ inside bs
unfolding outside
outside-quote b bs q = rw q

outside_code : (b : ℕ) (bs : List ℕ) → (b == quote) ≡ false → outside (b ∷ bs) ≡ b ∷ outside bs
unfolding outside
outside_code b bs q = rw q

-- The depth after a byte outside strings, and whether the loop returns at it.
moved : ℤ → ℕ → ℤ
moved d b = if is_opening b then d +ℤ pos 1 else if is_closing b then d -ℤ pos 1 else d

returns : ℤ → ℕ → Bool
returns d b = is_opening b && ltb_ℤ (pos max_json_depth) (d +ℤ pos 1)

scan_code :
    (b : ℕ) (bs : List ℕ) (d : ℤ)
    → (b == quote) ≡ false
    → scan (at_depth d false false) (b ∷ bs)
      ≡ (if returns d b then true else scan (at_depth (moved d b) false false) bs)
unfolding scan moved returns
scan_code b bs d q = rw q (elim (Bool-cases (is_opening b)) [
  | inl o ↦ rw o
  | inr o ↦ rw o (elim (Bool-cases (is_closing b)) [ inl c ↦ rw c | inr c ↦ rw c ])
])

opening-not-closing : (b : ℕ) → is_opening b ≡ true → is_closing b ≡ false
opening-not-closing b h = ground arith

returns-IsPast : (d : ℤ) (b : ℕ) → returns d b ≡ true → IsPast d (b ∷ [])
unfolding returns opened closed
returns-IsPast d b h = ground (arith, +ℤ_parts d (pos 1), opening-not-closing b)

IsPast-moved : (d : ℤ) (b : ℕ) (bs : List ℕ) → IsPast (moved d b) bs ↔ IsPast d (b ∷ bs)
unfolding moved opened closed
IsPast-moved d b bs = elim (Bool-cases (is_opening b)) [
  | inl o ↦
      rw (o, opening-not-closing b o)
        ((λ h. omega (arith, +ℤ_parts d (pos 1))), (λ h. omega (arith, +ℤ_parts d (pos 1))))
  | inr o ↦ rw o (elim (Bool-cases (is_closing b)) [
    | inl c ↦
        rw c ((λ h. omega (arith, -ℤ_parts d (pos 1))), (λ h. omega (arith, -ℤ_parts d (pos 1))))
    | inr c ↦ rw c ((λ h. h), (λ h. h))
  ])
]

IsLow-moved : (d : ℤ) (b : ℕ) → IsLow d → returns d b ≡ false → IsLow (moved d b)
unfolding moved returns
IsLow-moved d b low h = ground (arith, +ℤ_parts d (pos 1), -ℤ_parts d (pos 1))

inside_skip : (b : ℕ) (bs : List ℕ) → (b == backslash) ≡ true → inside (b ∷ bs) ≡ behind bs
unfolding outside
inside_skip b bs e = rw e

inside_end :
    (b : ℕ) (bs : List ℕ)
    → (b == backslash) ≡ false
    → (b == quote) ≡ true
    → inside (b ∷ bs) ≡ outside bs
unfolding outside
inside_end b bs e q = rw e (rw q)

inside_on :
    (b : ℕ) (bs : List ℕ)
    → (b == backslash) ≡ false
    → (b == quote) ≡ false
    → inside (b ∷ bs) ≡ inside bs
unfolding outside
inside_on b bs e q = rw e (rw q)

module _ (b : ℕ) (bs : List ℕ) (d : ℤ) where
  scan_skip :
      (b == backslash) ≡ true
      → scan (at_depth d true false) (b ∷ bs) ≡ scan (at_depth d true true) bs
  unfolding scan
  scan_skip e = rw e

  scan_end :
      (b == backslash) ≡ false
      → (b == quote) ≡ true
      → scan (at_depth d true false) (b ∷ bs) ≡ scan (at_depth d false false) bs
  unfolding scan
  scan_end e q = rw e (rw q)

  scan_on :
      (b == backslash) ≡ false
      → (b == quote) ≡ false
      → scan (at_depth d true false) (b ∷ bs) ≡ scan (at_depth d true false) bs
  unfolding scan
  scan_on e q = rw e (rw q)

  scan_behind : scan (at_depth d true true) (b ∷ bs) ≡ scan (at_depth d true false) bs
  unfolding scan
  scan_behind = refl

extend :
    (view next : List ℕ → List ℕ) (b : ℕ) (bs : List ℕ) (d d' : ℤ)
    → ((pre : List ℕ) → IsPast d' (next pre) → IsPast d (view (b ∷ pre)))
    → Deep next d' bs
    → Deep view d (b ∷ bs)
extend view next b bs d d' f (pre, post, at, past) = (b ∷ pre, post, ap (λ l. b ∷ l) at, f pre past)

scan_nil : (s : Scan) → scan s [] ≡ false
unfolding scan
scan_nil s = refl

outside_nil : outside [] ≡ []
unfolding outside
outside_nil = refl

inside_nil : inside [] ≡ []
unfolding outside
inside_nil = refl

behind_nil : behind [] ≡ []
unfolding outside
behind_nil = refl

behind_on : (b : ℕ) (bs : List ℕ) → behind (b ∷ bs) ≡ inside bs
unfolding outside
behind_on b bs = refl

low_not-IsPast : (d : ℤ) → IsLow d → ¬ (IsPast d [])
unfolding opened closed
low_not-IsPast d low past = omega arith

mutual
  outside_sound :
      (raw : List ℕ) (d : ℤ) → scan (at_depth d false false) raw ≡ true → Deep outside d raw
  outside_sound [] d h = absurd (false≢true (sym (scan_nil _) ∙ h))
  outside_sound (b ∷ bs) d h = elim (Bool-cases (b == quote)) [
    | inl q ↦
        extend outside inside b bs d d (λ pre past. rw (outside-quote b pre q) past)
          (inside_sound bs d (sym (scan-quote b bs d q) ∙ h))
    | inr q ↦ elim (Bool-cases (returns d b)) [
      | inl r ↦ (b ∷ [], bs, refl, rw (outside_code b [] q) (rw outside_nil (returns-IsPast d b r)))
      | inr r ↦
          extend outside outside b bs d (moved d b)
            (λ pre past. rw (outside_code b pre q) ((IsPast-moved d b (outside pre)).0 past))
            (outside_sound bs (moved d b) (rw r at (sym (scan_code b bs d q) ∙ h)))
    ]
  ]

  inside_sound :
      (raw : List ℕ) (d : ℤ) → scan (at_depth d true false) raw ≡ true → Deep inside d raw
  inside_sound [] d h = absurd (false≢true (sym (scan_nil _) ∙ h))
  inside_sound (b ∷ bs) d h = elim (Bool-cases (b == backslash)) [
    | inl e ↦
        extend inside behind b bs d d (λ pre past. rw (inside_skip b pre e) past)
          (behind_sound bs d (sym (scan_skip b bs d e) ∙ h))
    | inr e ↦ elim (Bool-cases (b == quote)) [
      | inl q ↦
          extend inside outside b bs d d (λ pre past. rw (inside_end b pre e q) past)
            (outside_sound bs d (sym (scan_end b bs d e q) ∙ h))
      | inr q ↦
          extend inside inside b bs d d (λ pre past. rw (inside_on b pre e q) past)
            (inside_sound bs d (sym (scan_on b bs d e q) ∙ h))
    ]
  ]

  behind_sound : (raw : List ℕ) (d : ℤ) → scan (at_depth d true true) raw ≡ true → Deep behind d raw
  behind_sound [] d h = absurd (false≢true (sym (scan_nil _) ∙ h))
  behind_sound (b ∷ bs) d h =
      extend behind inside b bs d d (λ pre past. rw (behind_on b pre) past)
        (inside_sound bs d (sym (scan_behind b bs d) ∙ h))

mutual
  outside_complete :
      (pre post : List ℕ) (d : ℤ)
      → IsLow d
      → IsPast d (outside pre)
      → scan (at_depth d false false) (pre ++ post) ≡ true
  outside_complete [] post d low past = absurd (low_not-IsPast d low (rw outside_nil at past))
  outside_complete (b ∷ pre) post d low past = elim (Bool-cases (b == quote)) [
    | inl q ↦
        scan-quote b (pre ++ post) d q
        ∙ inside_complete pre post d low (rw (outside-quote b pre q) at past)
    | inr q ↦ scan_code b (pre ++ post) d q ∙ elim (Bool-cases (returns d b)) [
      | inl r ↦ rw r
      | inr r ↦ rw r (
          outside_complete pre post (moved d b) (IsLow-moved d b low r)
            ((IsPast-moved d b (outside pre)).1 (rw (outside_code b pre q) at past)))
    ]
  ]

  inside_complete :
      (pre post : List ℕ) (d : ℤ)
      → IsLow d
      → IsPast d (inside pre)
      → scan (at_depth d true false) (pre ++ post) ≡ true
  inside_complete [] post d low past = absurd (low_not-IsPast d low (rw inside_nil at past))
  inside_complete (b ∷ pre) post d low past = elim (Bool-cases (b == backslash)) [
    | inl e ↦
        scan_skip b (pre ++ post) d e
        ∙ behind_complete pre post d low (rw (inside_skip b pre e) at past)
    | inr e ↦ elim (Bool-cases (b == quote)) [
      | inl q ↦
          scan_end b (pre ++ post) d e q
          ∙ outside_complete pre post d low (rw (inside_end b pre e q) at past)
      | inr q ↦
          scan_on b (pre ++ post) d e q
          ∙ inside_complete pre post d low (rw (inside_on b pre e q) at past)
    ]
  ]

  behind_complete :
      (pre post : List ℕ) (d : ℤ)
      → IsLow d
      → IsPast d (behind pre)
      → scan (at_depth d true true) (pre ++ post) ≡ true
  behind_complete [] post d low past = absurd (low_not-IsPast d low (rw behind_nil at past))
  behind_complete (b ∷ pre) post d low past =
      scan_behind b (pre ++ post) d ∙ inside_complete pre post d low (rw (behind_on b pre) at past)

-- A body is refused as too deep exactly when it has a prefix in which, outside string literals, the
-- opening brackets outnumber the closing ones by more than 64.
pub exceeds_max_json_depth_iff :
    (raw_body : List ℕ)
    → (exceeds_max_json_depth raw_body ≡ true) ↔ (
        (before : List ℕ) × (after : List ℕ) × (raw_body ≡ before ++ after)
        × (max_json_depth + closed (outside before) < opened (outside before)))
unfolding exceeds_max_json_depth
exceeds_max_json_depth_iff raw_body = (
  (λ h.
      let (pre, post, at, past) = outside_sound raw_body (pos 0) h in (pre, post, at, omega arith)),
  (λ (pre, post, at, past).
      ap (scan (at_depth (pos 0) false false)) at
      ∙ outside_complete pre post (pos 0) (omega arith) (omega arith)),
)
