-- ===== src/Hex.antt =====
-- encoding/hex of the standard library, as the program uses it: `EncodeToString` and `DecodeString`.
pub mod RoundTrip
pub mod Ending
use xns.Common.{
  ℕ, ◌+◌, ◌-◌, ◌*◌, ◌/◌, ◌%◌, ◌&&◌, List, [], ◌∷◌, Bytes, Result, ok, err, hex_invalid_byte,
  hex_odd_length, ◌>>=◌, ltb, leb, if◌then◌else◌,
}

-- The character of a digit below 16.
digit_char : ℕ → ℕ
digit_char n = if ltb n 10 then n + b'0' else n + 87

unfoldable pub encode : Bytes → Bytes
unfolding digit_char
encode [] = []
encode (b ∷ bs) = digit_char (b / 16) ∷ digit_char (b % 16) ∷ encode bs

-- Digits of either case are read.
digit : ℕ → Result ℕ
digit c =
    if leb b'0' c && leb c b'9'
    then ok (c - b'0')
    else if leb b'a' c && leb c b'f'
    then ok (c - 87)
    else if leb b'A' c && leb c b'F'
    then ok (c - 55)
    else err (hex_invalid_byte c)

unfoldable pub decode : Bytes → Result Bytes
unfolding digit
decode [] = ok []
decode (p ∷ []) = do _ ← digit p; err hex_odd_length
decode (p ∷ q ∷ rest) = do a ← digit p; b ← digit q; bs ← decode rest; ok ((a * 16 + b) ∷ bs)
