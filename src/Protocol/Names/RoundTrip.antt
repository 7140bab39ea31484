-- ===== src/Protocol/Names/RoundTrip.antt =====
-- The 32 byte name field: what is written is read back, and what is read has one spelling.
use xns.Common.{
  ℕ, zero, suc, ◌-◌, ◌≤◌, ◌≡◌, refl, sym, ap, ◌∙◌, subst, true, [], ◌∷◌, ◌++◌, Bytes, ok, length,
  take, drop, replicate, copy_into, All, arith, length-append, length-take, length-replicate,
  take-append_length, drop-append_length, take-append-drop, length-drop,
}
use xns.Protocol.{
  is_name_char, valid_name, name_size, encode_name, decode_name, zero_index, all_zero,
}
use xns.Protocol.Names.{IsName, chars-IsName, valid_name_iff}

take_all : (n : ℕ) (xs : Bytes) → length xs ≤ n → take n xs ≡ xs
take_all zero [] h = refl
take_all zero (x ∷ xs) h = absurd (omega arith)
take_all (suc n) [] h = refl
take_all (suc n) (x ∷ xs) h = ap (λ r. x ∷ r) (take_all n xs (omega arith))

all_zero-replicate : (n : ℕ) → all_zero (replicate n 0) ≡ true
unfolding all_zero
all_zero-replicate zero = refl
all_zero-replicate (suc n) = ground (arith, all_zero-replicate n)

replicate_of_all_zero : (xs : Bytes) → all_zero xs ≡ true → xs ≡ replicate (length xs) 0
unfolding all_zero
replicate_of_all_zero [] h = refl
replicate_of_all_zero (x ∷ xs) h = ground (arith, replicate_of_all_zero xs)

-- No allowed character is zero, so the padding begins where the name ends.
zero_index-append :
    (name : Bytes) (n : ℕ)
    → All (λ c. is_name_char c ≡ true) name
    → zero_index (name ++ replicate n 0) ≡ length name
unfolding zero_index is_name_char
zero_index-append [] zero h = refl
zero_index-append [] (suc n) h = refl
zero_index-append (c ∷ cs) n h = ground (arith, zero_index-append cs n h.1)

zero_index-le-length : (xs : Bytes) → zero_index xs ≤ length xs
unfolding zero_index
zero_index-le-length [] = omega arith
zero_index-le-length (x ∷ xs) = ground (arith, zero_index-le-length xs)

padded :
    (name : Bytes)
    → length name ≤ name_size
    → copy_into name_size 0 name ≡ name ++ replicate (name_size - length name) 0
padded name h = rw (take_all name_size name h)

length-padded :
    (name : Bytes)
    → length name ≤ name_size
    → length (name ++ replicate (name_size - length name) 0) ≡ name_size
length-padded name h = rw (length-append, length-replicate) (omega arith)

encode_name_lem :
    (name raw : Bytes)
    → encode_name name ≡ ok raw
    → (valid_name name ≡ ok tt) × (copy_into name_size 0 name ≡ raw)
unfolding encode_name
encode_name_lem name raw h = ground arith

decode_name-padded :
    (name : Bytes)
    → IsName name
    → valid_name name ≡ ok tt
    → decode_name (name ++ replicate (name_size - length name) 0) ≡ ok name
unfolding decode_name
decode_name-padded name n v = rw (
  length-padded name n.fits,
  zero_index-append name (name_size - length name) (chars-IsName name n),
  drop-append_length,
  all_zero-replicate,
  take-append_length,
  v,
)

-- What `encode_name` writes, `decode_name` reads back.
pub decode_name-encode_name :
    (name raw : Bytes) → encode_name name ≡ ok raw → decode_name raw ≡ ok name
decode_name-encode_name name raw h =
    let (v, e) = encode_name_lem name raw h in
    let n = (valid_name_iff name).0 v in
    subst (λ r. decode_name r ≡ ok name) (sym (padded name n.fits) ∙ e)
      (decode_name-padded name n v)

decode_name_lem :
    (raw name : Bytes)
    → decode_name raw ≡ ok name
    → (length raw ≡ name_size)
      × (all_zero (drop (zero_index raw) raw) ≡ true)
      × (take (zero_index raw) raw ≡ name)
      × (valid_name name ≡ ok tt)
unfolding decode_name
decode_name_lem raw name h = ground arith

-- A field that `decode_name` reads is the one that `encode_name` writes for the name.
pub encode_name-decode_name :
    (raw name : Bytes) → decode_name raw ≡ ok name → encode_name name ≡ ok raw
unfolding encode_name
encode_name-decode_name raw name h =
    let (size, zeros, front, v) = decode_name_lem raw name h in
    let k = zero_index raw in
    let n = (valid_name_iff name).0 v in
    let back = replicate_of_all_zero (drop k raw) zeros in
    let lb = length-drop k raw in
    let lf = ap length (sym front) ∙ length-take k raw in
    let gap : length (drop k raw) ≡ name_size - length name =
      omega (arith, zero_index-le-length raw) in
    let whole : name ++ replicate (name_size - length name) 0 ≡ raw =
      rw (← gap, ← back, ← front) (take-append-drop k raw) in
    rw v (ap ok (padded name n.fits ∙ whole))

pub length-encode_name : (name raw : Bytes) → encode_name name ≡ ok raw → length raw ≡ name_size
length-encode_name name raw h =
    let (v, e) = encode_name_lem name raw h in
    let n = (valid_name_iff name).0 v in
    ap length (sym e ∙ padded name n.fits) ∙ length-padded name n.fits

pub IsName-decode_name : (raw name : Bytes) → decode_name raw ≡ ok name → IsName name
IsName-decode_name raw name h =
    let (size, zeros, front, v) = decode_name_lem raw name h in (valid_name_iff name).0 v
