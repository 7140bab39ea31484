-- ===== src/Hex/RoundTrip.antt =====
-- Decoding what was encoded, and encoding what was decoded.
use xns.Common.{
  ℕ, ◌+◌, ◌*◌, ◌/◌, ◌%◌, ◌<◌, ◌≡◌, refl, ap, ◌&&◌, [], ◌∷◌, map, Bytes, IsByte, ok, >>=-eq-ok,
  ok-injective, length, subst, All, leb, if◌then◌else◌, arith,
}
use xns.Hex.{digit_char, digit, encode, decode}

digit-digit_char : (n : ℕ) → n < 16 → digit (digit_char n) ≡ ok n
unfolding digit digit_char
digit-digit_char n h = ground arith

pub decode-encode : (bs : Bytes) → All IsByte bs → decode (encode bs) ≡ ok bs
unfolding decode encode
decode-encode [] h = refl
decode-encode (b ∷ bs) h =
    rw (digit-digit_char (b / 16) (omega arith), digit-digit_char (b % 16) (omega arith))
      (rw (decode-encode bs h.1) (ap (λ a. ok (a ∷ bs)) (omega arith)))

pub length-encode : (bs : Bytes) → length (encode bs) ≡ 2 * length bs
unfolding encode
length-encode [] = refl
length-encode (b ∷ bs) = omega (arith, length-encode bs)

-- An upper case letter to its lower case.
unfoldable pub to_lower : ℕ → ℕ
to_lower c = if leb b'A' c && leb c b'Z' then c + 32 else c

digit_lem : (c n : ℕ) → digit c ≡ ok n → (n < 16) × (digit_char n ≡ to_lower c)
unfolding digit digit_char to_lower
digit_lem c n h = ground arith

encode-decode_step :
    (p q a b : ℕ) (rest bs : Bytes)
    → digit p ≡ ok a
    → digit q ≡ ok b
    → (encode bs ≡ map to_lower rest) × All IsByte bs
    → (encode ((a * 16 + b) ∷ bs) ≡ map to_lower (p ∷ q ∷ rest)) × All IsByte ((a * 16 + b) ∷ bs)
encode-decode_step p q a b rest bs hp hq ih =
    let (a_lt, ea) = digit_lem p a hp in
    let (b_lt, eb) = digit_lem q b hq in
    let hi : (a * 16 + b) / 16 ≡ a = omega arith in
    let lo : (a * 16 + b) % 16 ≡ b = omega arith in
    (unfold encode in rw (hi, lo, ea, eb, ih.0), (omega arith, ih.1))

-- What was decoded is made of bytes, and its encoding is the input in lower case.
pub encode-decode : (s bs : Bytes) → decode s ≡ ok bs → (encode bs ≡ map to_lower s) × All IsByte bs
unfolding decode
encode-decode [] bs h =
    subst (λ r. (encode r ≡ []) × All IsByte r) (ok-injective h) (unfold encode in (refl, tt))
encode-decode (p ∷ []) bs h = ground arith
encode-decode (p ∷ q ∷ rest) bs h =
    let (a, ha, h') = >>=-eq-ok (digit p) _ h in
    let (b, hb, h'') = >>=-eq-ok (digit q) _ h' in
    let (bs', hr, e) = >>=-eq-ok (decode rest) _ h'' in
    subst (λ r. (encode r ≡ map to_lower (p ∷ q ∷ rest)) × All IsByte r) (ok-injective e)
      (encode-decode_step p q a b rest bs' ha hb (encode-decode rest bs' hr))
