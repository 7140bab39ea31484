-- ===== src/Decimal/RoundTrip.antt =====
-- `ParseUint` reads what `FormatUint` writes.
use xns.Common.{
  ℕ, zero, suc, ◌+◌, ◌-◌, ◌*◌, ◌/◌, ◌%◌, ◌^◌, ◌≤◌, ◌<◌, ◌≡◌, refl, ap, ◌∙◌, true, ◌&&◌, [], ◌∷◌,
  Bytes, ltb, leb, ok, Bool-cases, inl, inr, arith,
}
use xns.Decimal.{print_loop, print, parse_loop, parse_uint}

-- One more digit.
parse_loop_digit :
    (text cs : Bytes) (n d : ℕ)
    → d < 10
    → n * 10 + d < 2 ^ 64
    → parse_loop text ((d + b'0') ∷ cs) n ≡ parse_loop text cs (n * 10 + d)
unfolding parse_loop
parse_loop_digit text cs n d small fits =
    let is_digit : (leb b'0' (d + b'0') && leb (d + b'0') b'9') ≡ true = ground arith in
    let value : n * 10 + (d + b'0' - b'0') ≡ n * 10 + d = omega arith in
    let inside : ltb (n * 10 + d) (2 ^ 64) ≡ true = ground arith in
    rw (is_digit, value, inside) refl

parse_loop-print_loop :
    (fuel n : ℕ) (text acc : Bytes)
    → n ≤ fuel
    → n < 2 ^ 64
    → parse_loop text (print_loop fuel n acc) 0 ≡ parse_loop text acc n
unfolding print_loop
parse_loop-print_loop zero n text acc le fits =
    let e : 0 * 10 + n ≡ n = omega arith in
    parse_loop_digit text acc 0 n (omega arith) (omega arith) ∙ ap (parse_loop text acc) e
parse_loop-print_loop (suc fuel) n text acc le fits = elim (Bool-cases (ltb n 10)) [
  | inl small ↦
      let e : 0 * 10 + n ≡ n = omega arith in
      rw (small, print_loop)
        (parse_loop_digit text acc 0 n (ground arith) (omega arith) ∙ ap (parse_loop text acc) e)
  | inr large ↦
      let e : n / 10 * 10 + n % 10 ≡ n = omega arith in
      rw (large, print_loop)
        (parse_loop-print_loop fuel (n / 10) text ((n % 10 + b'0') ∷ acc) (ground arith)
            (omega arith)
          ∙ parse_loop_digit text acc (n / 10) (n % 10) (omega arith) (omega arith)
          ∙ ap (parse_loop text acc) e)
]

print_loop-cons :
    (fuel n : ℕ) (acc : Bytes) → (c : ℕ) × (cs : Bytes) × (print_loop fuel n acc ≡ c ∷ cs)
unfolding print_loop
print_loop-cons zero n acc = (n + b'0', acc, refl)
print_loop-cons (suc fuel) n acc = elim (Bool-cases (ltb n 10)) [
  | inl small ↦ (n + b'0', acc, rw (small, print_loop) refl)
  | inr large ↦
      let (c, cs, e) = print_loop-cons fuel (n / 10) ((n % 10 + b'0') ∷ acc) in
      (c, cs, rw (large, print_loop) e)
]

-- A number of 64 bits is read back from its decimal text.
pub parse_uint-print : (n : ℕ) → n < 2 ^ 64 → parse_uint (print n) ≡ ok n
unfolding parse_uint print
parse_uint-print n fits =
    let (c, cs, e) = print_loop-cons n n [] in
    let whole = parse_loop-print_loop n n (c ∷ cs) [] (omega arith) fits in
    rw e (rw e at whole ∙ unfold parse_loop in refl)
