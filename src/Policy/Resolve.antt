-- ===== src/Policy/Resolve.antt =====
-- `resolve_entitlement` against its contract: the policy that matches the caller and has a
-- priority above that of every other match, wherever it stands in the document.
use mathlib.Core.Path.{subst}
use mathlib.Core.Bool.{and-eq-true_iff, false≢true}
use gatebroker.Prelude.{
  String, ◌≡◌, refl, sym, ◌∙◌, ap, ◌⊎◌, ◌↔◌, inl, inr, Bool, true, false, ◌&&◌, List, [], ◌∷◌, ◌++◌,
  arith, Bool-cases, All, All-imp, All-In, In-filter, In-middle, filter_of_IsOnly, All-append,
  All-append_left, All-append_right, All-filter, filter-All, In, IsOnly, Rejected, filter,
  filter-filter, filter-eq-nil, filter-eq-single, filter_of_Rejected,
}
use gatebroker.Prelude.Int.{ℤ, ◌≤ℤ◌, ◌<ℤ◌, ◌==ℤ◌, eq_of_parts, ==ℤ_iff}
use gatebroker.Result.{Result, ok, err}
use gatebroker.Policy.{
  Policy, overlaps, is_match, highest_priority, at_priority, only, winner, resolve_entitlement,
  ResolutionError, no_match, tie,
}
use gatebroker.Policy.Matching.{Shares, overlaps_sound, overlaps_complete}

highest_bound :
    (p : Policy) (ps : List Policy)
    → All (λ (q : Policy). q.priority ≤ℤ highest_priority p ps) (p ∷ ps)
unfolding highest_priority
highest_bound p [] = (omega arith, tt)
highest_bound p (q ∷ qs) =
    (ground arith, All-imp (λ (x : Policy) h. ground arith) (q ∷ qs) (highest_bound q qs))

highest_least :
    (p : Policy) (ps : List Policy) (n : ℤ)
    → All (λ (q : Policy). q.priority ≤ℤ n) (p ∷ ps)
    → highest_priority p ps ≤ℤ n
unfolding highest_priority
highest_least p [] n h = h.0
highest_least p (q ∷ qs) n h = ground (arith, highest_least q qs n h.1)

only-eq-ok : (ps : List Policy) (p : Policy) → only ps ≡ ok p → ps ≡ p ∷ []
only-eq-ok [] p h = cc
only-eq-ok (q ∷ []) p h = cc
only-eq-ok (q ∷ r ∷ qs) p h = cc

antisym : (a b : ℤ) → a ≤ℤ b → b ≤ℤ a → a ≡ b
antisym a b h k = eq_of_parts a b (omega arith)

lt_of_le-ne : (a b : ℤ) → a ≤ℤ b → (a ==ℤ b) ≡ false → a <ℤ b
lt_of_le-ne a b h e = ground arith

==ℤ-false : (a b : ℤ) → a <ℤ b → (a ==ℤ b) ≡ false
==ℤ-false a b h = ground arith

==ℤ_refl : (a : ℤ) → (a ==ℤ a) ≡ true
==ℤ_refl a = (==ℤ_iff a a).1 refl

abbrev AtMost : ℤ → List Policy → Type 0
AtMost n ps = All (λ (q : Policy). q.priority ≤ℤ n) ps

-- What a winner among the matches has: the highest priority, alone.
winner-eq-ok :
    (ps : List Policy) (p : Policy)
    → winner ps ≡ ok p
    → (n : ℤ) × (filter (at_priority n) ps ≡ p ∷ []) × AtMost n ps
unfolding winner
winner-eq-ok [] p h = absurd (cc)
winner-eq-ok (q ∷ qs) p h = (highest_priority q qs, only-eq-ok _ p h, highest_bound q qs)

-- The one policy at the highest priority wins.
winner_of :
    (ps : List Policy) (p : Policy)
    → In p ps
    → AtMost p.priority ps
    → filter (at_priority p.priority) ps ≡ p ∷ []
    → winner ps ≡ ok p
unfolding winner
winner_of [] p i h e = absurd i
winner_of (q ∷ qs) p i h e =
    let highest : highest_priority q qs ≡ p.priority =
      antisym _ _ (highest_least q qs p.priority h) (
        All-In (λ (x : Policy). x.priority ≤ℤ highest_priority q qs) p (q ∷ qs) i
          (highest_bound q qs)) in
    ap (λ n. only (filter (at_priority n) (q ∷ qs))) highest ∙ ap only e

only-ne-no_match : (ps : List Policy) → only ps ≡ err no_match → ⊥
only-ne-no_match [] h = cc
only-ne-no_match (q ∷ []) h = cc
only-ne-no_match (q ∷ r ∷ qs) h = cc

abbrev resolution_error : ResolutionError → Result ResolutionError Policy
resolution_error e = err e

err_apart : resolution_error no_match ≡ err tie → ⊥
err_apart h = cc

ok_apart : (p : Policy) → ok p ≡ resolution_error tie → ⊥
ok_apart p h = cc

module _ (token_group_ids token_app_roles : List String) where
  -- The policy names a group or an app role of the caller.
  abbrev pub Matches : Policy → Type 0
  Matches p = Shares p.group_ids token_group_ids ⊎ Shares p.app_roles token_app_roles

  pub is_match_sound : (p : Policy) → is_match token_group_ids token_app_roles p ≡ true → Matches p
  unfolding is_match
  is_match_sound p h = elim (Bool-cases (overlaps p.group_ids token_group_ids)) [
    | inl e ↦ inl (overlaps_sound _ _ e)
    | inr e ↦ inr (overlaps_sound _ _ (rw e at h))
  ]

  pub is_match_complete :
      (p : Policy) → Matches p → is_match token_group_ids token_app_roles p ≡ true
  unfolding is_match
  is_match_complete p (inl (s, i, j)) = rw (overlaps_complete _ _ s i j)
  is_match_complete p (inr (s, i, j)) =
      ground (arith, overlaps_complete p.app_roles token_app_roles s i j)

  abbrev Beats : Policy → Policy → Type 0
  Beats p q = Matches q → q.priority <ℤ p.priority

  -- `p` stands in the document, matches, and is above every other match.
  pub record IsWinner (policies : List Policy) (p : Policy) : Type 0 where
    pub before : List Policy
    pub after : List Policy
    pub at : policies ≡ before ++ p ∷ after
    pub matches : Matches p
    pub beats : All (λ (q : Policy). Matches q → q.priority <ℤ p.priority) (before ++ after)

  abbrev wins_at : ℤ → Policy → Bool
  wins_at n q = is_match token_group_ids token_app_roles q && at_priority n q

  abbrev Bounded : ℤ → List Policy → Type 0
  Bounded n =
      All (λ (q : Policy). is_match token_group_ids token_app_roles q ≡ true → q.priority ≤ℤ n)

  loses :
      (n : ℤ) (p q : Policy)
      → p.priority ≡ n
      → (is_match token_group_ids token_app_roles q ≡ true → q.priority ≤ℤ n)
      → wins_at n q ≡ false
      → Beats p q
  loses n p q e le f m =
      let yes_match = is_match_complete q m in
      rw e (lt_of_le-ne q.priority n (le yes_match) (rw yes_match at f))

  All-lose :
      (n : ℤ) (p : Policy) (qs : List Policy)
      → p.priority ≡ n
      → Bounded n qs
      → Rejected (wins_at n) qs
      → All (Beats p) qs
  All-lose n p [] e h r = tt
  All-lose n p (q ∷ qs) e (le, h) (f, r) = (loses n p q e le f, All-lose n p qs e h r)

  IsOnly-IsWinner :
      (n : ℤ) (ps : List Policy) (p : Policy)
      → IsOnly (wins_at n) p ps
      → Bounded n ps
      → IsWinner ps p
  IsOnly-IsWinner n ps p o h =
      let (matched, top) = (and-eq-true_iff _ _).0 o.passes in
      let top : p.priority ≡ n = (==ℤ_iff _ _).0 top in
      let bound : Bounded n (o.before ++ p ∷ o.after) = subst (Bounded n) o.at h in
      let later = All-append_right _ o.before (p ∷ o.after) bound in
      record {
        before = o.before;
        after = o.after;
        at = o.at;
        matches = is_match_sound p matched;
        beats =
            All-append (Beats p) o.before o.after
              (All-lose n p o.before top (All-append_left _ o.before _ bound) o.fails_before)
              (All-lose n p o.after top later.1 o.fails_after);
      }

  resolve_sound :
      (policies : List Policy) (p : Policy)
      → resolve_entitlement policies token_group_ids token_app_roles ≡ ok p
      → IsWinner policies p
  unfolding resolve_entitlement
  resolve_sound policies p h =
      let f = is_match token_group_ids token_app_roles in
      let (n, single, bound) = winner-eq-ok (filter f policies) p h in
      let single' : filter (wins_at n) policies ≡ p ∷ [] =
        sym (filter-filter f (at_priority n) policies) ∙ single in
      IsOnly-IsWinner n policies p (filter-eq-single (wins_at n) p policies single')
        (All-filter f (λ (q : Policy). q.priority ≤ℤ n) policies bound)

  beaten_fails : (p q : Policy) → Beats p q → wins_at p.priority q ≡ false
  beaten_fails p q b = elim (Bool-cases (is_match token_group_ids token_app_roles q)) [
    | inl e ↦ rw e (==ℤ-false q.priority p.priority (b (is_match_sound q e)))
    | inr e ↦ rw e
  ]

  abbrev Below : ℤ → Policy → Type 0
  Below n q = is_match token_group_ids token_app_roles q ≡ true → q.priority ≤ℤ n

  beaten-Below : (p q : Policy) → Beats p q → Below p.priority q
  beaten-Below p q b e = let lt = b (is_match_sound q e) in omega arith

  resolve_complete :
      (policies : List Policy) (p : Policy)
      → IsWinner policies p
      → resolve_entitlement policies token_group_ids token_app_roles ≡ ok p
  unfolding resolve_entitlement
  resolve_complete policies p w =
      let f = is_match token_group_ids token_app_roles in
      let n = p.priority in
      let matched : f p ≡ true = is_match_complete p w.matches in
      let bs : All (Beats p) w.before = All-append_left (Beats p) w.before w.after w.beats in
      let cs : All (Beats p) w.after = All-append_right (Beats p) w.before w.after w.beats in
      let only_p : IsOnly (wins_at n) p policies = record {
        before = w.before;
        after = w.after;
        at = w.at;
        passes = rw matched (==ℤ_refl n);
        fails_before = All-imp (beaten_fails p) w.before bs;
        fails_after = All-imp (beaten_fails p) w.after cs;
      } in
      let here : All (Below n) (w.before ++ p ∷ w.after) =
        All-append (Below n) w.before (p ∷ w.after) (All-imp (beaten-Below p) w.before bs)
          ((λ _. omega arith), All-imp (beaten-Below p) w.after cs) in
      winner_of (filter f policies) p
        (In-filter f p policies matched (subst (In p) (sym w.at) (In-middle w.before p w.after)))
        (filter-All f (λ (q : Policy). q.priority ≤ℤ n) policies
          (subst (All (Below n)) (sym w.at) here))
        (filter-filter f (at_priority n) policies ∙ filter_of_IsOnly (wins_at n) p policies only_p)

  -- The resolver returns a policy exactly when that policy stands in the document, shares a group
  -- or an app role with the caller, and every other policy that does has a lower priority.
  pub resolve_entitlement-eq-ok_iff :
      (policies : List Policy) (p : Policy)
      → (resolve_entitlement policies token_group_ids token_app_roles ≡ ok p) ↔ IsWinner policies p
  resolve_entitlement-eq-ok_iff policies p = (resolve_sound policies p, resolve_complete policies p)

  abbrev pub NoneMatches : List Policy → Type 0
  NoneMatches = All (λ q. ¬ (Matches q))

  unmatched_fails :
      (q : Policy) → ¬ (Matches q) → is_match token_group_ids token_app_roles q ≡ false
  unmatched_fails q n = elim (Bool-cases (is_match token_group_ids token_app_roles q)) [
    | inl e ↦ absurd (n (is_match_sound q e))
    | inr e ↦ e
  ]

  winner-eq-no_match : (ps : List Policy) → winner ps ≡ err no_match → ps ≡ []
  unfolding winner
  winner-eq-no_match [] h = refl
  winner-eq-no_match (q ∷ qs) h =
      absurd (only-ne-no_match (filter (at_priority (highest_priority q qs)) (q ∷ qs)) h)

  no_match_iff :
      (policies : List Policy)
      → (resolve_entitlement policies token_group_ids token_app_roles ≡ err no_match)
        ↔ NoneMatches policies
  unfolding resolve_entitlement winner
  no_match_iff policies =
      let f = is_match token_group_ids token_app_roles in
      (
        (λ h.
            All-imp (λ q e m. false≢true (sym e ∙ is_match_complete q m)) policies
              (filter-eq-nil f policies (winner-eq-no_match (filter f policies) h))),
        (λ h. ap winner (filter_of_Rejected f policies (All-imp unmatched_fails policies h))),
      )

  -- Some policy matches, and none is above all the others that do.
  abbrev pub IsTie : List Policy → Type 0
  IsTie policies = ¬ (NoneMatches policies) × ((p : Policy) → ¬ (IsWinner policies p))

  refused_as :
      (policies : List Policy) (r : Result ResolutionError Policy)
      → resolve_entitlement policies token_group_ids token_app_roles ≡ r
      → IsTie policies
      → r ≡ err tie
  refused_as policies (ok p) e (some_match, none_wins) =
      absurd (none_wins p (resolve_sound policies p e))
  refused_as policies (err no_match) e (some_match, none_wins) =
      absurd (some_match ((no_match_iff policies).0 e))
  refused_as policies (err tie) e h = refl

  tie_iff :
      (policies : List Policy)
      → (resolve_entitlement policies token_group_ids token_app_roles ≡ err tie) ↔ IsTie policies
  tie_iff policies = (
    (λ h. (
      (λ n. absurd (err_apart (sym ((no_match_iff policies).1 n) ∙ h))),
      (λ p w. absurd (ok_apart p (sym (resolve_complete policies p w) ∙ h))),
    )),
    (λ h. refused_as policies _ refl h),
  )

  -- The resolver reports "no match" exactly when no policy shares a group or an app role with the
  -- caller, and a tie exactly when some policy does, but none of those has a priority above that of
  -- every other.
  pub resolve_entitlement-eq-no_match_iff :
      (policies : List Policy)
      → ((resolve_entitlement policies token_group_ids token_app_roles ≡ err no_match)
          ↔ NoneMatches policies)
        × ((resolve_entitlement policies token_group_ids token_app_roles ≡ err tie)
            ↔ IsTie policies)
  resolve_entitlement-eq-no_match_iff policies = (no_match_iff policies, tie_iff policies)
