-- ===== src/ModelDiscovery/Choice.antt =====
-- The chosen model is one that the caller may use.
use gatebroker.Prelude.{
  String, ◌≡◌, ◌≢◌, refl, inl, inr, Option, none, some, List, [], ◌∷◌, Bool-cases, In,
}
use gatebroker.Text.{is_empty}
use gatebroker.Policy.{mem}
use gatebroker.Policy.Matching.{mem_iff}
use gatebroker.ModelDiscovery.{
  first_or, prefer, select, looks_like_router, select_router, or_else, select_claude_model,
}

prefer-In :
    (preferences available : List String) (fallback : String)
    → In (first_or available fallback) available
    → In (prefer preferences available fallback) available
unfolding prefer
prefer-In [] available fallback h = h
prefer-In (p ∷ ps) available fallback h = elim (Bool-cases (mem p available)) [
  | inl e ↦ rw e ((mem_iff p available).0 e)
  | inr e ↦ rw e (prefer-In ps available fallback h)
]

select-In :
    (preferences available : List String) (fallback : String)
    → available ≢ []
    → In (select preferences available fallback) available
unfolding select
select-In preferences [] fallback h = absurd (h refl)
select-In preferences (m ∷ ms) fallback h = prefer-In preferences (m ∷ ms) fallback (inl refl)

module _ (casefold : String → String) where
  select_router-In :
      (available : List String) (r : String)
      → select_router casefold available ≡ some r
      → In r available
  unfolding select_router
  select_router-In [] r h = cc
  select_router-In (m ∷ ms) r h = elim (Bool-cases (looks_like_router casefold m)) [
    | inl e ↦ inl (cc (rw e at h))
    | inr e ↦ inr (select_router-In ms r (rw e at h))
  ]

  or_else-In :
      (o : Option String) (chosen : String) (available : List String)
      → ((r : String) → o ≡ some r → In r available)
      → In chosen available
      → In (or_else casefold o chosen) available
  or_else-In none chosen available f h = h
  or_else-In (some r) chosen available f h = elim (Bool-cases (is_empty r)) [
    | inl e ↦ rw e h
    | inr e ↦ rw e (f r refl)
  ]

  -- Where the broker reports any model, the one that is chosen for every slot is one of those, never
  -- the fallback nor a preference that the caller's policy withholds.
  pub select_claude_model-In :
      (preferences available : List String) (fallback : String)
      → available ≢ []
      → In (select_claude_model casefold preferences available fallback) available
  unfolding select_claude_model
  select_claude_model-In preferences available fallback h =
      or_else-In (select_router casefold available) _ available (select_router-In available)
        (select-In preferences available fallback h)
