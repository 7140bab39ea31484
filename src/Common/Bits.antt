-- ===== src/Common/Bits.antt =====
-- `|`, `&` and `^` one binary digit at a time, and what follows for disjoint fields and low masks.
use Prim.Native.Nat.{
  ℕ, zero, suc, ◌+◌, ◌*◌, ◌/◌, ◌%◌, ◌^◌, ◌≤◌, ◌<◌, max, bit_and, bit_or, bit_xor, digits, bitwise,
  differ, bit_or-bitwise, bit_xor-bitwise, differ,
}
use mathlib.Core.Path.{◌≡◌, refl, ap, ◌∙◌}
use mathlib.Core.Bool.{Bool, true, ◌&&◌}
use native.Mathlib.Omega.{arith}
use native.Mathlib.Nat.{pow-suc}
use xns.Common.Tests.{◌==◌}

-- Fuel beyond what the first number needs changes nothing.
module _ (z : ℕ → ℕ) (f : ℕ → ℕ → ℕ) where
  digits_enough : (k l a b : ℕ) → a ≤ k → a ≤ l → digits z f k a b ≡ digits z f l a b
  digits_enough zero zero a b hk hl = refl
  digits_enough (suc k) zero zero b hk hl = refl
  digits_enough zero (suc l) zero b hk hl = refl
  digits_enough (suc k) (suc l) zero b hk hl = refl
  digits_enough (suc k) (suc l) (suc a) b hk hl =
      let half = digits_enough k l (suc a / 2) (b / 2) (omega arith) (omega arith) in
      ap (λ (n : ℕ). n * 2 + f (suc a % 2) (b % 2)) half
  digits_enough zero l (suc a) b hk hl = absurd (omega arith)
  digits_enough (suc k) zero (suc a) b hk hl = absurd (omega arith)

  bitwise_digit :
      (a b : ℕ)
      → bitwise z f (suc a) b ≡ bitwise z f (suc a / 2) (b / 2) * 2 + f (suc a % 2) (b % 2)
  bitwise_digit a b =
      ap (λ (n : ℕ). n * 2 + f (suc a % 2) (b % 2))
        (digits_enough a (suc a / 2) (suc a / 2) (b / 2) (omega arith) (omega arith))

or_digit : (a b : ℕ) → bit_or a b ≡ bit_or (a / 2) (b / 2) * 2 + max (a % 2) (b % 2)
or_digit zero b = simp bit_or-bitwise (omega arith)
or_digit (suc a) b = simp bit_or-bitwise (bitwise_digit (λ n. n) max a b)

xor_digit : (a b : ℕ) → bit_xor a b ≡ bit_xor (a / 2) (b / 2) * 2 + differ (a % 2) (b % 2)
xor_digit zero b = simp bit_xor-bitwise (omega arith)
xor_digit (suc a) b = simp bit_xor-bitwise (bitwise_digit (λ n. n) differ a b)

or-zero : (n a : ℕ) → a ≤ n → bit_or a 0 ≡ a
or-zero n zero h = refl
or-zero zero (suc a) h = absurd (omega arith)
or-zero (suc n) (suc a) h = omega (arith, or_digit (suc a) 0, or-zero n (suc a / 2) (omega arith))

or_low_zero : (b : ℕ) → bit_or 0 b ≡ b
or_low_zero b = simp bit_or-bitwise

-- `a | x << s` is a sum where `a` has no more than `s` bits.
pub bit_or_shifted : (s a x : ℕ) → a < 2 ^ s → bit_or a (x * 2 ^ s) ≡ a + x * 2 ^ s
bit_or_shifted zero zero x h = or_low_zero _ ∙ omega arith
bit_or_shifted zero (suc a) x h = absurd (omega arith)
bit_or_shifted (suc s) a x h =
    let double : x * 2 ^ suc s ≡ 2 * (x * 2 ^ s) =
      omega (arith, ap (λ (t : ℕ). x * t) (pow-suc 2 s)) in
    let half : x * 2 ^ suc s / 2 ≡ x * 2 ^ s = omega arith in
    let even : x * 2 ^ suc s % 2 ≡ 0 = omega arith in
    let low : a / 2 < 2 ^ s = omega (arith, pow-suc 2 s) in
    or_digit a (x * 2 ^ suc s) ∙ rw (half, even, bit_or_shifted s (a / 2) x low) (omega arith)

differ_twice : (a b : ℕ) → a < 2 → b < 2 → (differ a b < 2) × (differ (differ a b) b ≡ a)
differ_twice zero zero h k = (omega arith, refl)
differ_twice zero (suc zero) h k = (omega arith, refl)
differ_twice (suc zero) zero h k = (omega arith, refl)
differ_twice (suc zero) (suc zero) h k = (omega arith, refl)
differ_twice (suc (suc a)) b h k = absurd (omega arith)
differ_twice a (suc (suc b)) h k = absurd (omega arith)

xor_twice_below : (n a b : ℕ) → a ≤ n → b ≤ n → bit_xor (bit_xor a b) b ≡ a
xor_twice_below zero zero zero h k = refl
xor_twice_below zero (suc a) b h k = absurd (omega arith)
xor_twice_below zero zero (suc b) h k = absurd (omega arith)
xor_twice_below (suc n) a b h k =
    let (small, back) = differ_twice (a % 2) (b % 2) (omega arith) (omega arith) in
    let half = xor_twice_below n (a / 2) (b / 2) (omega arith) (omega arith) in
    let x = bit_xor a b in
    let e = xor_digit a b in
    let top : x / 2 ≡ bit_xor (a / 2) (b / 2) = omega arith in
    let bottom : x % 2 ≡ differ (a % 2) (b % 2) = omega arith in
    xor_digit x b ∙ rw (top, bottom, half, back) (omega arith)

-- Exclusive or with the same number twice gives the number back.
pub bit_xor_twice : (a b : ℕ) → bit_xor (bit_xor a b) b ≡ a
bit_xor_twice a b = xor_twice_below (a + b) a b (omega arith) (omega arith)

xor_bound : (s a b : ℕ) → a < 2 ^ s → b < 2 ^ s → bit_xor a b < 2 ^ s
xor_bound zero zero zero h k = omega arith
xor_bound zero (suc a) b h k = absurd (omega arith)
xor_bound zero zero (suc b) h k = absurd (omega arith)
xor_bound (suc s) a b h k =
    let (small, _) = differ_twice (a % 2) (b % 2) (omega arith) (omega arith) in
    let half =
      xor_bound s (a / 2) (b / 2) (omega (arith, pow-suc 2 s)) (omega (arith, pow-suc 2 s)) in
    omega (arith, xor_digit a b, pow-suc 2 s)

pub bit_xor-IsByte : (a b : ℕ) → a < 256 → b < 256 → bit_xor a b < 256
bit_xor-IsByte a b h k = xor_bound 8 a b h k

-- The low seven bits of a byte.
low_seven : ℕ → Bool
low_seven zero = true
low_seven (suc n) = bit_and n 0x7f == n % 128 && low_seven n

low_seven_sound : (n b : ℕ) → low_seven n ≡ true → b < n → bit_and b 0x7f ≡ b % 128
unfolding low_seven
low_seven_sound zero b h lt = absurd (omega arith)
low_seven_sound (suc n) b h lt = ground (arith, low_seven_sound n b)

low_seven_table : low_seven 256 ≡ true
unfolding low_seven
low_seven_table = refl

pub bit_and_low_seven : (b : ℕ) → b < 256 → bit_and b 0x7f ≡ b % 128
bit_and_low_seven b h = low_seven_sound 256 b low_seven_table h
