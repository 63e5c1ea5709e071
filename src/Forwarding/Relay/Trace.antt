-- ===== src/Forwarding/Relay/Trace.antt =====
-- A relayed stream is audited once, if it is not abandoned, and closed once in any case.
use gatebroker.Prelude.{
  ℕ, ◌+◌, String, ◌≡◌, inl, inr, Bool, true, false, Option, List, [], ◌∷◌, arith, Bool-cases, ltb,
  length, if◌then◌else◌, ◌≤◌, ◌∙◌, ap, refl,
}
use gatebroker.Forwarding.{Bytes, total}
use gatebroker.Forwarding.Effects.{Upstream, audits, acloses}
use gatebroker.Forwarding.Relay.{Labels, relay, relay_end, relay_stream}

module _ (l : Labels) (max status : ℕ) (failure : Option String) where
  relay_end-audits : audits (relay_end l status failure false) ≡ 1
  relay_end-audits = ground arith

  relay-audits :
      (received : ℕ) (chunks : List Bytes)
      → audits (relay l max status failure false received chunks) ≡ 1
  unfolding relay
  relay-audits received [] = relay_end-audits
  relay-audits received (chunk ∷ chunks) = elim (Bool-cases (ltb max (received + length chunk))) [
    | inl e ↦ rw e
    | inr e ↦ rw e (relay-audits (received + length chunk) chunks)
  ]

  -- Only a stream that is too large is audited, once its client has gone away.
  relay_closed-audits :
      (received : ℕ) (chunks : List Bytes)
      → received ≤ max
      → audits (relay l max status failure true received chunks)
        ≡ (if ltb max (received + total chunks) then 1 else 0)
  unfolding relay
  relay_closed-audits received [] h = ground arith
  relay_closed-audits received (chunk ∷ chunks) h =
      elim (Bool-cases (ltb max (received + length chunk))) [
        | inl e ↦
            let over : ltb max (received + total (chunk ∷ chunks)) ≡ true = ground arith in
            rw e (rw over refl)
        | inr e ↦
            let same : received + length chunk + total chunks ≡ received + total (chunk ∷ chunks) =
              omega arith in
            rw e (
              relay_closed-audits (received + length chunk) chunks (ground arith)
              ∙ ap (λ n. if ltb max n then 1 else 0) same)
      ]

  relay_end-acloses : (closed : Bool) → acloses (relay_end l status failure closed) ≡ 1
  relay_end-acloses closed = ground arith

  relay-acloses :
      (closed : Bool) (received : ℕ) (chunks : List Bytes)
      → acloses (relay l max status failure closed received chunks) ≡ 1
  unfolding relay
  relay-acloses closed received [] = relay_end-acloses closed
  relay-acloses closed received (chunk ∷ chunks) =
      elim (Bool-cases (ltb max (received + length chunk))) [
        | inl e ↦ rw e
        | inr e ↦ rw e (relay-acloses closed (received + length chunk) chunks)
      ]

pub zero_add : {n : ℕ} → 0 + n ≡ n
zero_add = omega arith

module _ (u : Upstream) (l : Labels) (max : ℕ) where
  pub relay_stream-audits : audits (relay_stream u l max false) ≡ 1
  unfolding relay_stream
  relay_stream-audits = relay-audits l max u.status_code u.failure 0 u.chunks

  pub relay_stream_closed-audits :
      audits (relay_stream u l max true) ≡ (if ltb max (total u.chunks) then 1 else 0)
  unfolding relay_stream
  relay_stream_closed-audits =
      relay_closed-audits l max u.status_code u.failure 0 u.chunks (omega arith)
      ∙ ap (λ n. if ltb max n then 1 else 0) zero_add

  pub relay_stream-acloses : (closed : Bool) → acloses (relay_stream u l max closed) ≡ 1
  unfolding relay_stream
  relay_stream-acloses closed = relay-acloses l max u.status_code u.failure closed 0 u.chunks
