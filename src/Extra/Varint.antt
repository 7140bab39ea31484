-- ===== src/Extra/Varint.antt =====
-- The variable-length integers of the extra field: `read_varint` reads what Monero writes.
use xns.Common.{
  ℕ, zero, suc, ◌+◌, ◌*◌, ◌/◌, ◌%◌, ◌^◌, ◌≤◌, ◌<◌, ◌≡◌, refl, ap, ◌∙◌, [], ◌∷◌, ◌++◌, Bytes, Result,
  ok, length, drop, false, le→ltb_false, ltb, if◌then◌else◌, arith, Bool-cases, inl, inr,
}
use xns.Common.Bits.{bit_or_shifted, bit_and_low_seven}
use xns.Extra.{varint_loop, read_varint}
use native.Mathlib.Nat.{one-le-pow, pow-suc, pow-le-pow_right, mod-eq_of_lt}
use native.Mathlib.Numerals.{towards_suc}
use Prim.Native.Nat.{bit_and, bit_or}

-- `v` in groups of seven bits, the lowest first, with the top bit on all but the last; `k` is the
-- number of groups that may follow the first.
unfoldable pub varint : ℕ → ℕ → Bytes
varint zero v = v ∷ []
varint (suc k) v = if ltb v 128 then v ∷ [] else (v % 128 + 128) ∷ varint k (v / 128)

-- A shift that does not pass 56 leaves room for seven bits in a uint64.
two_pow_le : (s : ℕ) → s ≤ 56 → 2 ^ s ≤ 2 ^ 56
two_pow_le s h = pow-le-pow_right {n = 2} (omega arith) h

group :
    (b value s : ℕ)
    → b < 256
    → s ≤ 56
    → value < 2 ^ s
    → bit_or value (bit_and b 0x7f * 2 ^ s % 2 ^ 64) ≡ value + b % 128 * 2 ^ s
group b value s hb hs hv =
    let fits : b % 128 * 2 ^ s < 2 ^ 64 = grind (arith, two_pow_le s hs) in
    let kept : b % 128 * 2 ^ s % 2 ^ 64 ≡ b % 128 * 2 ^ s = mod-eq_of_lt fits in
    rw (bit_and_low_seven b hb, kept) (bit_or_shifted s value (b % 128) hv)

group_bound : (g value s : ℕ) → g < 128 → value < 2 ^ s → value + g * 2 ^ s < 2 ^ (s + 7)
group_bound g value s hg hv =
    let wide : 2 ^ (s + 7) ≡ 128 * 2 ^ s = simp towards_suc (omega arith) in grind (arith, wide)

varint_loop_last :
    (b i value s : ℕ) (rest : Bytes)
    → b < 128
    → s ≤ 56
    → value < 2 ^ s
    → varint_loop (b ∷ rest) i value s ≡ ok (value + b * 2 ^ s, i + 1)
unfolding varint_loop
varint_loop_last b i value s rest hb hs hv = ground (arith, group b value s)

varint_loop_next :
    (g i value s : ℕ) (rest : Bytes)
    → g < 128
    → s ≤ 56
    → value < 2 ^ s
    → varint_loop ((g + 128) ∷ rest) i value s
      ≡ varint_loop rest (i + 1) (value + g * 2 ^ s) (s + 7)
unfolding varint_loop
varint_loop_next g i value s rest hg hs hv = ground (arith, group (g + 128) value s)

split_group : (v s : ℕ) → v % 128 * 2 ^ s + v / 128 * 2 ^ (s + 7) ≡ v * 2 ^ s
split_group v s =
    let wide : 2 ^ (s + 7) ≡ 128 * 2 ^ s = simp towards_suc (omega arith) in
    let parts : v ≡ v % 128 + 128 * (v / 128) = omega arith in
    omega (arith, ap (λ (t : ℕ). v / 128 * t) wide, ap (λ (t : ℕ). t * 2 ^ s) parts)

shorter : (k v : ℕ) → v < 128 ^ suc (suc k) → v / 128 < 128 ^ suc k
shorter k v h = omega (arith, pow-suc 128 (suc k))

ok_pair : {a b c d : ℕ} → a ≡ c → b ≡ d → ◌≡◌ {A = Result (ℕ × ℕ)} (ok (a, b)) (ok (c, d))
ok_pair p q = λ i. ok (p i, q i)

-- At a shift of 7 * j there may follow 8 - j groups behind the next one.
varint_loop-varint :
    (k v i value s : ℕ) (rest : Bytes)
    → v < 128 ^ suc k
    → s + 7 * k ≤ 56
    → value < 2 ^ s
    → varint_loop (varint k v ++ rest) i value s ≡ ok (value + v * 2 ^ s, i + length (varint k v))
unfolding varint
varint_loop-varint zero v i value s rest hv hs hx =
    varint_loop_last v i value s rest (omega arith) (omega arith) hx
varint_loop-varint (suc k) v i value s rest hv hs hx = elim (Bool-cases (ltb v 128)) [
  | inl small ↦ rw small (varint_loop_last v i value s rest (ground arith) (omega arith) hx)
  | inr large ↦ rw large (
      varint_loop_next (v % 128) i value s (varint k (v / 128) ++ rest) (omega arith) (omega arith)
        hx
      ∙ varint_loop-varint k (v / 128) (i + 1) (value + v % 128 * 2 ^ s) (s + 7) rest
          (shorter k v hv) (omega arith) (group_bound (v % 128) value s (omega arith) hx)
      ∙ ok_pair (omega (arith, split_group v s)) (omega arith))
]

-- An integer below 2 ^ 63 in the variable-length form, in nine groups at most, is read back by
-- readVarint, whatever follows it.
pub read_varint-varint :
    (v i : ℕ) (raw rest : Bytes)
    → v < 2 ^ 63
    → drop i raw ≡ varint 8 v ++ rest
    → read_varint raw i ≡ ok (v, i + length (varint 8 v))
unfolding read_varint
read_varint-varint v i raw rest hv at = rw at (
    varint_loop-varint 8 v i 0 0 rest (omega arith) (omega arith) (omega arith)
    ∙ ok_pair (omega arith) refl)

-- A number with a digit in every group takes them all.
pub length-varint : (k v : ℕ) → 128 ^ k ≤ v → length (varint k v) ≡ k + 1
unfolding varint
length-varint zero v h = omega arith
length-varint (suc k) v h =
    let more : 128 ^ k ≤ v / 128 = omega (arith, pow-suc 128 k) in
    let large : ltb v 128 ≡ false =
      le→ltb_false v 128 (omega (arith, pow-suc 128 k, one-le-pow k 128 (omega arith))) in
    rw large (omega (arith, length-varint k (v / 128) more))
