-- ===== src/Extra/Fields.antt =====
-- The extra field as a list of fields, and what the loop does on the bytes of one field.
use xns.Common.{
  ℕ, suc, ◌+◌, ◌*◌, ◌^◌, ◌≤◌, ◌<◌, ◌≡◌, refl, sym, ap, ◌∙◌, true, false, List, [], ◌∷◌, ◌++◌, Bytes,
  Bool, Result, ok, err, panic, stuck, ◌>>=◌, length, drop, ◌==◌, if◌then◌else◌, arith,
  length-append, le→ltb_false, lt→ltb, lt→leb_false, take-append_length, ◌%◌,
}
use xns.Common.Int.{ℤ, pos}
use xns.Common.Suffix.{index-at, drop-next, length-at}
use xns.Protocol.{Payload, payload_size, decode_payload}
use xns.Extra.{overrun, field, nonce_field, keys_field}
use xns.Extra.Varint.{varint, read_varint-varint}
use mathlib.Core.List.{append-nil, append_assoc}

pub data Field : Type 0 where
  padding : Field
  pub_key : Bytes → Field
  nonce : Bytes → Field
  add_keys : ℕ → Bytes → Field

-- The bytes of a field: its tag, then its length where that is not fixed, then its content.
unfoldable pub encode_field : Field → Bytes
encode_field padding = 0 ∷ []
encode_field (pub_key key) = 1 ∷ key
encode_field (nonce bytes) = 2 ∷ length bytes ∷ bytes
encode_field (add_keys count keys) = 4 ∷ (varint 8 count ++ keys)

abbrev pub IsField : Field → Type 0
IsField padding = Unit {0}
IsField (pub_key key) = length key ≡ 32
IsField (nonce bytes) = length bytes < 256
IsField (add_keys count keys) = length keys ≡ count * 32

-- The payload that a field holds: the content of a nonce of 64 bytes.
unfoldable pub found : Field → Result (List Payload)
found (nonce bytes) =
    if length bytes == payload_size then (do p ← decode_payload bytes; ok (p ∷ [])) else ok []
found padding = ok []
found (pub_key key) = ok []
found (add_keys count keys) = ok []

abbrev pub go_on : ℕ → List Payload → Result (ℤ × List Payload)
go_on i out = ok (pos i, out)

-- What one round gives on a field, at the index `i` and with `out` found before.
abbrev pub passed : Field → ℕ → List Payload → Result (ℤ × List Payload)
passed f i out = found f >>= λ ps. go_on (i + length (encode_field f)) (out ++ ps)

overrun_within :
    (extra : Bytes) (i j : ℕ) (out : List Payload)
    → i ≤ length extra
    → i ≡ j
    → overrun extra (pos i) out ≡ ok (pos j, out)
unfolding overrun
overrun_within extra i j out h e = rw (le→ltb_false (length extra) i h) (λ t. ok (pos (e t), out))

-- A payload is put behind those found before, on every outcome of reading it.
nonce_cases :
    (is_payload : Bool) (read : Result Payload) (i j : ℕ) (out : List Payload)
    → i ≡ j
    → ((if is_payload then (do p ← read; ok (out ++ p ∷ [])) else ok out) >>= go_on i)
      ≡ ((if is_payload then (do p ← read; ok (p ∷ [])) else ok []) >>= λ ps. go_on j (out ++ ps))
nonce_cases true (ok p) i j out e = λ t. ok (pos (e t), out ++ p ∷ [])
nonce_cases true (err x) i j out e = refl
nonce_cases true panic i j out e = refl
nonce_cases true stuck i j out e = refl
nonce_cases false read i j out e = λ t. ok (pos (e t), sym (append-nil out) t)

module _ (extra : Bytes) (i : ℕ) (out : List Payload) (rest : Bytes) (before : i ≤ length extra)
    (small : length extra < 2 ^ 63) where
  field-padding : drop i extra ≡ 0 ∷ rest → field extra i out ≡ passed padding i out
  unfolding field found encode_field
  field-padding at = rw (index-at extra i 0 rest at, append-nil)

  field-pub_key :
      (key : Bytes)
      → IsField (pub_key key)
      → drop i extra ≡ 1 ∷ (key ++ rest)
      → field extra i out ≡ passed (pub_key key) i out
  unfolding field found encode_field
  field-pub_key key size at =
      rw (index-at extra i 1 (key ++ rest) at, append-nil)
        (overrun_within extra (i + 1 + 32) (i + suc (length key)) out
          (omega (arith, length-at extra i (1 ∷ (key ++ rest)) at before, length-append key rest))
          (omega arith))

  field-nonce :
      (bytes : Bytes)
      → drop i extra ≡ 2 ∷ length bytes ∷ (bytes ++ rest)
      → field extra i out ≡ passed (nonce bytes) i out
  unfolding field found encode_field nonce_field
  field-nonce bytes at =
      let content = drop-next extra i 2 (length bytes ∷ (bytes ++ rest)) at in
      let within : i + 1 + 1 + length bytes ≤ length extra = omega (
        arith,
        length-at extra i (2 ∷ length bytes ∷ (bytes ++ rest)) at before,
        length-append bytes rest,
      ) in
      rw
        (
          index-at extra i 2 (length bytes ∷ (bytes ++ rest)) at,
          lt→leb_false (length extra) (i + 1) (omega arith),
          index-at extra (i + 1) (length bytes) (bytes ++ rest) content,
          le→ltb_false (length extra) (i + 1 + 1 + length bytes) within,
          drop-next extra (i + 1) (length bytes) (bytes ++ rest) content,
          take-append_length,
        )
        (nonce_cases (length bytes == payload_size) (decode_payload bytes) _ _ out (omega arith))

  field-add_keys :
      (count : ℕ) (keys : Bytes)
      → IsField (add_keys count keys)
      → drop i extra ≡ 4 ∷ (varint 8 count ++ (keys ++ rest))
      → field extra i out ≡ passed (add_keys count keys) i out
  unfolding field found encode_field keys_field
  field-add_keys count keys size at =
      let number = varint 8 count in
      let behind = drop-next extra i 4 (number ++ (keys ++ rest)) at in
      let total : length extra ≡ i + 1 + length number + count * 32 + length rest = omega (
        arith,
        length-at extra i (4 ∷ (number ++ (keys ++ rest))) at before,
        length-append number (keys ++ rest),
        length-append keys rest,
      ) in
      let kept : (i + 1 + length number + count * 32) % 2 ^ 64
          ≡ i + 1 + length number + count * 32 =
        omega arith in
      rw
        (
          index-at extra i 4 (number ++ (keys ++ rest)) at,
          read_varint-varint count (i + 1) extra (keys ++ rest) (omega arith) behind,
          kept,
          lt→ltb (i + 1 + length number + count * 32) (2 ^ 63) (omega arith),
          append-nil,
        )
        (overrun_within extra (i + 1 + length number + count * 32)
          (i + suc (length (number ++ keys))) out (omega arith)
          (omega (arith, length-append number keys)))

-- All the payloads of a list of fields, or the first error.
unfoldable pub all_found : List Field → Result (List Payload)
all_found [] = ok []
all_found (f ∷ fs) = do ps ← found f; qs ← all_found fs; ok (ps ++ qs)

unfoldable pub encode_fields : List Field → Bytes
encode_fields [] = []
encode_fields (f ∷ fs) = encode_field f ++ encode_fields fs

module _ (extra : Bytes) (small : length extra < 2 ^ 63) where
  -- A round at a field passes it.
  pub field-encode_field :
      (f : Field) (i : ℕ) (out : List Payload) (rest : Bytes)
      → IsField f
      → i ≤ length extra
      → drop i extra ≡ encode_field f ++ rest
      → field extra i out ≡ passed f i out
  unfolding encode_field
  field-encode_field padding i out rest h le at = field-padding extra i out rest le small at
  field-encode_field (pub_key key) i out rest h le at =
      field-pub_key extra i out rest le small key h at
  field-encode_field (nonce bytes) i out rest h le at =
      field-nonce extra i out rest le small bytes at
  field-encode_field (add_keys count keys) i out rest h le at =
      field-add_keys extra i out rest le small count keys h
        (at ∙ ap (λ t. 4 ∷ t) (append_assoc (varint 8 count) keys rest))
