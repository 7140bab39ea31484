-- ===== src/Decimal.antt =====
-- Decimal text of the standard library: `%d` and `FormatUint` write it, `ParseUint` reads it.
pub mod RoundTrip
use xns.Common.{
  ℕ, zero, suc, ◌+◌, ◌-◌, ◌*◌, ◌/◌, ◌%◌, ◌^◌, true, false, not, ◌&&◌, [], ◌∷◌, Bytes, ltb, leb,
  Result, ok, err, number_syntax, number_range, if◌then◌else◌,
}

-- The digits of `n` before `acc`; `n` shrinks in each round, so `n` rounds are enough.
unfoldable pub print_loop : ℕ → ℕ → Bytes → Bytes
print_loop zero n acc = (n + b'0') ∷ acc
print_loop (suc fuel) n acc = elim (ltb n 10) [
  | true ↦ (n + b'0') ∷ acc
  | false ↦ print_loop fuel (n / 10) ((n % 10 + b'0') ∷ acc)
]

unfoldable pub print : ℕ → Bytes
unfolding print_loop
print n = print_loop n n []

-- The digits that are left, and the value of those before them, in a uint64.
unfoldable pub parse_loop : Bytes → Bytes → ℕ → Result ℕ
parse_loop text [] n = ok n
parse_loop text (c ∷ cs) n =
    let n' = n * 10 + (c - b'0') in
    let rest = parse_loop text cs n' in
    if not (leb b'0' c && leb c b'9')
    then err (number_syntax text)
    else if ltb n' (2 ^ 64)
    then rest
    else err (number_range text)

-- `ParseUint(text, 10, 64)`
unfoldable pub parse_uint : Bytes → Result ℕ
parse_uint [] = err (number_syntax [])
parse_uint (c ∷ cs) = parse_loop (c ∷ cs) (c ∷ cs) 0
