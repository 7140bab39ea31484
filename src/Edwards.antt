-- ===== src/Edwards.antt =====
-- pkg/xns/edwards.go: points of the curve Ed25519 with coordinates modulo `p`, from math/big.
pub mod Modular
pub mod Curve
pub mod Decoding
pub mod Addition
pub mod Closure
pub mod Inverse
pub mod Multiples
pub mod Ending
use xns.Common.{
  ℕ, zero, suc, ◌+◌, ◌-◌, ◌*◌, ◌/◌, ◌%◌, ◌^◌, Bool, true, false, ◌&&◌, not, [], ◌∷◌, ◌++◌, Option,
  none, some, Bytes, Result, ok, panic, check, index, ◌>>=◌, ◌>>◌, point_size, point_y,
  point_off_curve, point_sign, point_identity, point_subgroup, length, take, ltb, ◌==◌,
  if◌then◌else◌,
}

-- The coordinates are below `ed_p`.
pub record Point : Type 0 where
  pub x : ℕ
  pub y : ℕ

abbrev pub ed_p : ℕ
ed_p = 0x7fffffffffffffffffffffffffffffffffffffffffffffffffffffffffffffed

abbrev pub ed_l : ℕ
ed_l = 0x1000000000000000000000000000000014def9dea2f79cd65812631a5cf5d3ed

-- `ModInverse(a, n)`: Euclid's algorithm on the remainders `r` and `r'`, with `r ≡ t * a` and
-- `r' ≡ t' * a` modulo `n`. Each round makes `r'` smaller, so `r' + 1` rounds are enough.
unfoldable pub inverse_loop : ℕ → ℕ → ℕ → ℕ → ℕ → ℕ → Option ℕ
inverse_loop zero n r r' t t' = none
inverse_loop (suc fuel) n r r' t t' = elim (r' == 0) [
  | true ↦ if r == 1 then some t else none
  | false ↦ inverse_loop fuel n r' (r % r') t' ((t + (n - r / r' * t' % n)) % n)
]

unfoldable pub mod_inverse : ℕ → ℕ → Option ℕ
unfolding inverse_loop
mod_inverse a n = inverse_loop (a + 1) n n a 0 1

-- `Exp(b, e, m)` by squaring; `e` halves in each round, so `e` rounds are enough.
pub power_loop : ℕ → ℕ → ℕ → ℕ → ℕ
power_loop zero b e m = 1 % m
power_loop (suc fuel) b e m = elim (e == 0) [
  | true ↦ 1 % m
  | false ↦
      let half = power_loop fuel (b * b % m) (e / 2) m in if e % 2 == 1 then b * half % m else half
]

pub mod_power : ℕ → ℕ → ℕ → ℕ
unfolding power_loop
mod_power b e m = power_loop e b e m

unfoldable pub add : ℕ → ℕ → ℕ
add a b = (a + b) % ed_p

-- The remainder of a difference is taken as `Mod` does, never below 0.
unfoldable pub sub : ℕ → ℕ → ℕ
sub a b = (a + (ed_p - b % ed_p)) % ed_p

unfoldable pub mul : ℕ → ℕ → ℕ
mul a b = a * b % ed_p

pub of_inverse : Option ℕ → Result ℕ
of_inverse none = panic
of_inverse (some v) = ok v

-- `ModInverse` gives nil where there is no inverse, and the next use of that panics.
unfoldable pub inv : ℕ → Result ℕ
unfolding mod_inverse of_inverse
inv a = of_inverse (mod_inverse (a % ed_p) ed_p)

-- -121665 / 121666
pub ed_d : ℕ
unfolding mod_inverse
ed_d = elim (mod_inverse 121666 ed_p) [ none ↦ 0 | some v ↦ sub 0 (121665 * v) ]

-- 2 ^ ((p - 1) / 4), a square root of -1
pub ed_i : ℕ
unfolding mod_power
ed_i = mod_power 2 ((ed_p - 1) / 4) ed_p

abbrev pub identity : Point
identity = record { x = 0; y = 1 }

-- `SetBytes` on the reversed array: the first byte counts least.
unfoldable pub from_le : Bytes → ℕ
from_le [] = 0
from_le (b ∷ bs) = b + 256 * from_le bs

-- The root of `xx` that the exponentiation gives, corrected by a root of -1 where it is one of -xx.
pub square_root : ℕ → ℕ
unfolding mod_power ed_i mul sub
square_root xx =
    let x = mod_power xx ((ed_p + 3) / 8) ed_p in if sub (mul x x) xx == 0 then x else mul x ed_i

pub decode_point : Bytes → Result Point
unfolding square_root add sub mul inv ed_d index from_le
decode_point raw = do
  check (length raw == 32) point_size
  top ← index raw 31
  let sign = top / 128
  let y = from_le (take 31 raw ++ (top % 128) ∷ [])
  check (ltb y ed_p) point_y
  let y2 = mul y y
  inverse ← inv (add (mul ed_d y2) 1)
  let xx = mul (sub y2 1) inverse
  let x = square_root xx
  check (sub (mul x x) xx == 0) point_off_curve
  check (not (x == 0 && sign == 1)) point_sign
  ok (record { x = if x % 2 == sign then x else sub ed_p x; y = y })

pub add_point : Point → Point → Result Point
unfolding add sub mul inv ed_d
add_point a b = do
  let x_num = add (mul a.x b.y) (mul b.x a.y)
  x_den ← inv (add 1 (mul ed_d (mul (mul a.x b.x) (mul a.y b.y))))
  let y_num = add (mul a.y b.y) (mul a.x b.x)
  y_den ← inv (sub 1 (mul ed_d (mul (mul a.x b.x) (mul a.y b.y))))
  ok (record { x = mul x_num x_den; y = mul y_num y_den })

-- `n.BitLen()`; `n` halves in each round, so `n` rounds are enough.
bit_len_loop : ℕ → ℕ → ℕ
bit_len_loop zero n = 0
bit_len_loop (suc fuel) n = elim (n == 0) [ true ↦ 0 | false ↦ bit_len_loop fuel (n / 2) + 1 ]

pub bit_len : ℕ → ℕ
unfolding bit_len_loop
bit_len n = bit_len_loop n n

-- The rounds left, and the bit `i` that the next one reads.
pub scalar_loop : ℕ → ℕ → ℕ → Point → Point → Result Point
unfolding add_point
scalar_loop zero i n result addend = ok result
scalar_loop (suc rounds) i n result addend = do
  result' ← if n / 2 ^ i % 2 == 1 then add_point result addend else ok result
  addend' ← add_point addend addend
  scalar_loop rounds (i + 1) n result' addend'

pub scalar_mult : Point → ℕ → Result Point
unfolding scalar_loop bit_len
scalar_mult p n = scalar_loop (bit_len n) 0 n identity p

pub eq : Point → Point → Bool
eq a b = a.x == b.x && a.y == b.y

unfoldable pub valid_owner_point : Bytes → Result (Unit {0})
unfolding decode_point scalar_mult eq
valid_owner_point raw = do
  p ← decode_point raw
  check (not (eq p identity)) point_identity
  multiple ← scalar_mult p ed_l
  check (eq multiple identity) point_subgroup
