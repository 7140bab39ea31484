-- ===== src/Extra/Extraction.antt =====
-- `extract_payloads` on an extra field that is well formed, or begins so.
use xns.Common.{
  ℕ, suc, ◌+◌, ◌-◌, ◌^◌, ◌≤◌, ◌<◌, ◌≡◌, refl, sym, ap, ◌∙◌, List, [], ◌∷◌, ◌++◌, Bytes, Result, ok,
  err, panic, stuck, ◌>>=◌, length, drop, arith, All, length-append, lt→ltb, le→ltb_false,
}
use xns.Common.Int.{ℤ, pos}
use xns.Common.Suffix.{drop-skip, length-at}
use xns.Protocol.{Payload}
use xns.Extra.{field, extract_loop, extract_payloads}
use xns.Extra.Fields.{
  Field, encode_field, encode_fields, IsField, found, all_found, go_on, field-encode_field,
}
use mathlib.Core.List.{append-nil, append_assoc}

encode_field_positive : (f : Field) → 1 ≤ length (encode_field f)
unfolding encode_field
encode_field_positive Field.padding = omega arith
encode_field_positive (Field.pub_key key) = omega arith
encode_field_positive (Field.nonce bytes) = omega arith
encode_field_positive (Field.add_keys count keys) = omega arith

pub extract_loop_step :
    (fuel i : ℕ) (extra : Bytes) (out : List Payload)
    → i < length extra
    → extract_loop (suc fuel) extra (pos i) out
      ≡ (field extra i out >>= λ r. extract_loop fuel extra r.0 r.1)
unfolding extract_loop
extract_loop_step fuel i extra out lt = rw (lt→ltb i (length extra) lt, extract_loop)

bind_assoc :
    (found : Result (List Payload)) (out : List Payload) (j : ℕ)
    (next : ℤ × List Payload → Result (List Payload))
    → ((found >>= λ ps. go_on j (out ++ ps)) >>= next) ≡ (found >>= λ ps. next (pos j, out ++ ps))
bind_assoc (ok ps) out j next = refl
bind_assoc (err e) out j next = refl
bind_assoc panic out j next = refl
bind_assoc stuck out j next = refl

-- Two stretches of the input, the first found by `r` and the second by `all`.
assemble :
    (r all : Result (List Payload)) (f g : List Payload → Result (List Payload))
    → ((ps : List Payload) → f ps ≡ (all >>= λ qs. g (ps ++ qs)))
    → (r >>= f) ≡ ((r >>= λ ps. all >>= λ qs. ok (ps ++ qs)) >>= g)
assemble (ok ps) (ok qs) f g h = h ps
assemble (ok ps) (err e) f g h = h ps
assemble (ok ps) panic f g h = h ps
assemble (ok ps) stuck f g h = h ps
assemble (err e) all f g h = refl
assemble panic all f g h = refl
assemble stuck all f g h = refl

-- The loop passes well-formed fields, one in each round, and stops at the first error in them.
pub extract_loop-encode_fields :
    (fs : List Field) (fuel i : ℕ) (extra rest : Bytes) (out : List Payload)
    → length extra < 2 ^ 63
    → All IsField fs
    → i ≤ length extra
    → drop i extra ≡ encode_fields fs ++ rest
    → extract_loop (length fs + fuel) extra (pos i) out ≡ (
        all_found fs >>= λ qs.
        extract_loop fuel extra (pos (i + length (encode_fields fs))) (out ++ qs))
unfolding all_found encode_fields
extract_loop-encode_fields [] fuel i extra rest out small h le at =
    let no_rounds : 0 + fuel ≡ fuel = omega arith in
    let same_index : i + 0 ≡ i = omega arith in rw (no_rounds, same_index, append-nil)
extract_loop-encode_fields (f ∷ fs) fuel i extra rest out small (h, hs) le at =
    let here = at ∙ append_assoc (encode_field f) (encode_fields fs) rest in
    let n = length (encode_field f) in
    let total = length-at extra i _ here le in
    let parts = length-append (encode_field f) (encode_fields fs ++ rest) in
    let more : suc (length fs) + fuel ≡ suc (length fs + fuel) = omega arith in
    let step =
      extract_loop_step (length fs + fuel) i extra out
        (omega (arith, total, parts, encode_field_positive f)) in
    let passes = field-encode_field extra small f i out (encode_fields fs ++ rest) h le here in
    let later = λ (ps : List Payload).
      extract_loop-encode_fields fs fuel (i + n) extra rest (out ++ ps) small hs
        (omega (arith, total, parts))
        (drop-skip extra i (encode_field f) (encode_fields fs ++ rest) here) in
    let e : i + n + length (encode_fields fs) ≡ i + length (encode_field f ++ encode_fields fs) =
      omega (arith, length-append (encode_field f) (encode_fields fs)) in
    rw more (
      step
      ∙ ap (λ r. r >>= λ (t : ℤ × List Payload). extract_loop (length fs + fuel) extra t.0 t.1)
          passes
      ∙ bind_assoc (found f) out (i + n) (λ t. extract_loop (length fs + fuel) extra t.0 t.1)
      ∙ assemble (found f) (all_found fs) _ _ (λ ps. later ps ∙ (λ t.
        all_found fs >>= λ qs. extract_loop fuel extra (pos (e t)) (append_assoc out ps qs t))))

extract_loop_end :
    (fuel i : ℕ) (extra : Bytes) (out : List Payload)
    → length extra ≤ i
    → extract_loop (suc fuel) extra (pos i) out ≡ ok out
unfolding extract_loop
extract_loop_end fuel i extra out h = rw (le→ltb_false i (length extra) h, extract_loop)

bind_ok : (r : Result (List Payload)) → (r >>= λ qs. ok qs) ≡ r
bind_ok (ok qs) = refl
bind_ok (err e) = refl
bind_ok panic = refl
bind_ok stuck = refl

pub length-encode_fields : (fs : List Field) → length fs ≤ length (encode_fields fs)
unfolding encode_fields
length-encode_fields [] = omega arith
length-encode_fields (f ∷ fs) = omega (
  arith,
  length-append (encode_field f) (encode_fields fs),
  encode_field_positive f,
  length-encode_fields fs,
)

-- On a well-formed extra field the loop ends, and gives the payloads of its fields in their order,
-- or the error of the first nonce of 64 bytes that is no payload.
pub extract_payloads-encode_fields :
    (fs : List Field)
    → All IsField fs
    → length (encode_fields fs) < 2 ^ 63
    → extract_payloads (encode_fields fs) ≡ all_found fs
unfolding extract_payloads
extract_payloads-encode_fields fs h small =
    let extra = encode_fields fs in
    let spare = length extra - length fs in
    let fuel : length extra + 1 ≡ length fs + suc spare = omega (arith, length-encode_fields fs) in
    rw fuel (
      extract_loop-encode_fields fs (suc spare) 0 extra [] [] small h (omega arith)
        (sym (append-nil extra))
      ∙ (λ t.
          all_found fs >>= λ qs. extract_loop_end spare (0 + length extra) extra qs (omega arith) t)
      ∙ bind_ok (all_found fs))
