-- ===== src/Forwarding/Reading/Bounds.antt =====
-- When a body is read: the declared and the received length are within the bound, the nesting too,
-- and the bytes are a JSON object.
use mathlib.Core.List.{append_assoc, append-nil}
use gatebroker.Prelude.{
  ℕ, ◌+◌, ◌≤◌, ◌<◌, ◌≡◌, ◌∙◌, ap, inl, inr, ◌↔◌, false, none, some, List, [], ◌∷◌, ◌++◌, arith,
  Bool-cases, ltb, length, if◌then◌else◌,
}
use gatebroker.Json.{obj, Fields}
use gatebroker.Forwarding.{Bytes, total, joined, Request}
use gatebroker.Forwarding.Depth.{exceeds_max_json_depth}
use gatebroker.Forwarding.Reading.{
  Loaded, dict, parsed, declares_too_much, read_chunks, dict_of, parse_body, request_object,
}

read_chunks_fits :
    (max received : ℕ) (body : Bytes) (chunks : List Bytes)
    → received + total chunks ≤ max
    → read_chunks max received body chunks ≡ some (body ++ joined chunks)
unfolding read_chunks
read_chunks_fits max received body [] h = rw append-nil
read_chunks_fits max received body (c ∷ cs) h =
    let fits : ltb max (received + length c) ≡ false = ground arith in
    rw fits (
      read_chunks_fits max (received + length c) (body ++ c) cs (omega arith)
      ∙ ap some (append_assoc body c (joined cs)))

read_chunks_exceeds :
    (max received : ℕ) (body : Bytes) (chunks : List Bytes)
    → received ≤ max
    → max < received + total chunks
    → read_chunks max received body chunks ≡ none
unfolding read_chunks
read_chunks_exceeds max received body [] g h = absurd (omega arith)
read_chunks_exceeds max received body (c ∷ cs) g h =
    elim (Bool-cases (ltb max (received + length c))) [
      | inl e ↦ rw e
      | inr e ↦ rw e (
          read_chunks_exceeds max (received + length c) (body ++ c) cs (ground arith) (omega arith))
    ]

read_chunks_lem :
    (max : ℕ) (chunks : List Bytes)
    → read_chunks max 0 [] chunks ≡ (if ltb max (total chunks) then none else some (joined chunks))
read_chunks_lem max chunks = elim (Bool-cases (ltb max (total chunks))) [
  | inl e ↦ rw e (read_chunks_exceeds max 0 [] chunks (omega arith) (ground arith))
  | inr e ↦ rw e (read_chunks_fits max 0 [] chunks (ground arith))
]

dict_of_sound : (v : Loaded) (fs : Fields) → dict_of v ≡ dict fs → v ≡ parsed (obj fs)
dict_of_sound (parsed (obj gs)) fs h = cc
dict_of_sound v fs h = cc

module _ (json_loads : Bytes → Loaded) (request : Request) (max : ℕ) where
  -- The body's bytes are within the bound, declared and received, not too deep, and an object.
  abbrev pub IsBody : Fields → Type 0
  IsBody fs =
      (declares_too_much (request.header "content-length") max ≡ false)
      × (total request.chunks ≤ max)
      × (exceeds_max_json_depth (joined request.chunks) ≡ false)
      × (json_loads (joined request.chunks) ≡ parsed (obj fs))

  parse_body_sound :
      (raw : Bytes) (fs : Fields)
      → parse_body json_loads raw ≡ dict fs
      → (exceeds_max_json_depth raw ≡ false) × (json_loads raw ≡ parsed (obj fs))
  unfolding parse_body
  parse_body_sound raw fs h = elim (Bool-cases (exceeds_max_json_depth raw)) [
    | inl e ↦ absurd (cc (rw e at h))
    | inr e ↦ (e, dict_of_sound (json_loads raw) fs (rw e at h))
  ]

  request_object_sound : (fs : Fields) → request_object json_loads request max ≡ dict fs → IsBody fs
  unfolding request_object
  request_object_sound fs h =
      elim (Bool-cases (declares_too_much (request.header "content-length") max)) [
        | inl d ↦ absurd (cc (rw d at h))
        | inr d ↦ elim (Bool-cases (ltb max (total request.chunks))) [
          | inl e ↦ absurd (cc (rw e at (rw (read_chunks_lem max request.chunks) at (rw d at h))))
          | inr e ↦
              let (deep, loads) =
                parse_body_sound (joined request.chunks) fs
                  (rw e at (rw (read_chunks_lem max request.chunks) at (rw d at h))) in
              (d, ground arith, deep, loads)
        ]
      ]

  request_object_complete :
      (fs : Fields) → IsBody fs → request_object json_loads request max ≡ dict fs
  unfolding request_object parse_body
  request_object_complete fs (d, t, deep, loads) =
      let fits : ltb max (total request.chunks) ≡ false = ground arith in
      rw d (rw (read_chunks_lem max request.chunks) (rw fits (rw deep (rw loads))))

-- A body is read exactly when the declared length is absent or a number within the bound, the bytes
-- received are within it too, whatever was declared, their nesting is not too deep, and they
-- parse as the JSON object that is the result.
pub request_object-eq-dict_iff :
    (json_loads : Bytes → Loaded) (request : Request) (max : ℕ) (fs : Fields)
    → (request_object json_loads request max ≡ dict fs) ↔ IsBody json_loads request max fs
request_object-eq-dict_iff json_loads request max fs = (
  request_object_sound json_loads request max fs,
  request_object_complete json_loads request max fs,
)
