-- ===== src/Forwarding/Relay/Bounds.antt =====
-- What is read of a response, and what of it is relayed, within the bound.
use gatebroker.Prelude.{
  ℕ, ◌+◌, ◌≤◌, ◌<◌, String, ◌≡◌, refl, sym, ◌∙◌, ap, inl, inr, Bool, false, Option, List, [], ◌∷◌,
  ◌++◌, map, arith, Bool-cases, ltb, length, length-append, if◌then◌else◌,
}
use mathlib.Core.List.{append_assoc, append-nil}
use gatebroker.Forwarding.{Bytes, total, joined}
use gatebroker.Forwarding.Effects.{Effect, emit, Upstream}
use gatebroker.Forwarding.Relay.{
  Labels, too_large, ending, read_content, bounded_response_content, relay, relay_end, relay_stream,
}

read_content_fits :
    (max : ℕ) (failure : Option String) (received : ℕ) (content : Bytes) (chunks : List Bytes)
    → received + total chunks ≤ max
    → read_content max failure received content chunks ≡ ending failure (content ++ joined chunks)
unfolding read_content
read_content_fits max failure received content [] h = rw append-nil
read_content_fits max failure received content (c ∷ cs) h =
    let fits : ltb max (received + length c) ≡ false = ground arith in
    rw fits (
      read_content_fits max failure (received + length c) (content ++ c) cs (omega arith)
      ∙ ap (ending failure) (append_assoc content c (joined cs)))

read_content_exceeds :
    (max : ℕ) (failure : Option String) (received : ℕ) (content : Bytes) (chunks : List Bytes)
    → received ≤ max
    → max < received + total chunks
    → read_content max failure received content chunks ≡ too_large
unfolding read_content
read_content_exceeds max failure received content [] g h = absurd (omega arith)
read_content_exceeds max failure received content (c ∷ cs) g h =
    elim (Bool-cases (ltb max (received + length c))) [
      | inl e ↦ rw e
      | inr e ↦ rw e (
          read_content_exceeds max failure (received + length c) (content ++ c) cs (ground arith)
            (omega arith))
    ]

-- The content of a response is all of its chunks joined, or the class of the error that ended
-- them, when these have at most the bound in total; and too large exactly when they have more.
pub bounded_response_content_lem :
    (u : Upstream) (max : ℕ)
    → bounded_response_content u max
      ≡ (if ltb max (total u.chunks) then too_large else ending u.failure (joined u.chunks))
unfolding bounded_response_content
bounded_response_content_lem u max = elim (Bool-cases (ltb max (total u.chunks))) [
  | inl e ↦ rw e (read_content_exceeds max u.failure 0 [] u.chunks (omega arith) (ground arith))
  | inr e ↦ rw e (read_content_fits max u.failure 0 [] u.chunks (ground arith))
]

-- The bytes that reach the client.
abbrev pub emitted : List Effect → Bytes
emitted [] = []
emitted (emit bs ∷ es) = bs ++ emitted es
emitted (e ∷ es) = emitted es

module _ (l : Labels) (max status : ℕ) (failure : Option String) (closed : Bool) where
  relay_end-emitted : emitted (relay_end l status failure closed) ≡ []
  relay_end-emitted = ground arith

  relay_bounded :
      (received : ℕ) (chunks : List Bytes)
      → received ≤ max
      → received + length (emitted (relay l max status failure closed received chunks)) ≤ max
  unfolding relay
  relay_bounded received [] h = rw relay_end-emitted (omega arith)
  relay_bounded received (c ∷ cs) h = elim (Bool-cases (ltb max (received + length c))) [
    | inl e ↦ rw e (omega arith)
    | inr e ↦ rw e (
        omega (
          arith,
          relay_bounded (received + length c) cs (ground arith),
          length-append c (emitted (relay l max status failure closed (received + length c) cs)),
        ))
  ]

  relay_prefix :
      (received : ℕ) (chunks : List Bytes)
      → (rest : Bytes) × (joined chunks
          ≡ emitted (relay l max status failure closed received chunks) ++ rest)
  unfolding relay
  relay_prefix received [] = ([], rw relay_end-emitted)
  relay_prefix received (c ∷ cs) = elim (Bool-cases (ltb max (received + length c))) [
    | inl e ↦ (c ++ joined cs, rw e)
    | inr e ↦
        let (rest, at) = relay_prefix (received + length c) cs in
        (rest, rw e (ap (λ bs. c ++ bs) at ∙ sym (append_assoc c _ rest)))
  ]

  relay_whole :
      (received : ℕ) (chunks : List Bytes)
      → received + total chunks ≤ max
      → relay l max status failure closed received chunks
        ≡ map emit chunks ++ relay_end l status failure closed
  unfolding relay
  relay_whole received [] h = refl
  relay_whole received (c ∷ cs) h =
      let fits : ltb max (received + length c) ≡ false = ground arith in
      rw fits (ap (λ es. emit c ∷ es) (relay_whole (received + length c) cs (omega arith)))

module _ (u : Upstream) (l : Labels) (max : ℕ) (closed : Bool) where
  -- A relay hands the client a prefix of the upstream's bytes, never more than the bound.
  pub relay_stream_prefix :
      (length (emitted (relay_stream u l max closed)) ≤ max)
      × ((rest : Bytes) × (joined u.chunks ≡ emitted (relay_stream u l max closed) ++ rest))
  unfolding relay_stream
  relay_stream_prefix =
      let bound = relay_bounded l max u.status_code u.failure closed 0 u.chunks (omega arith) in
      (omega arith, relay_prefix l max u.status_code u.failure closed 0 u.chunks)

  -- A stream of at most the bound in total is relayed chunk by chunk, whole, before it ends.
  pub relay_stream_whole :
      total u.chunks ≤ max
      → relay_stream u l max closed
        ≡ map emit u.chunks ++ relay_end l u.status_code u.failure closed
  unfolding relay_stream
  relay_stream_whole h = relay_whole l max u.status_code u.failure closed 0 u.chunks (omega arith)
