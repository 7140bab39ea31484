-- ===== src/Edwards/Curve.antt =====
-- What decodePoint gives is a point of the curve.
use xns.Common.{
  ℕ, zero, suc, ◌+◌, ◌*◌, ◌/◌, ◌%◌, ◌<◌, ◌≡◌, ◌≢◌, inl, inr, refl, ◌∙◌, ap, Bool, true, false, not,
  ◌&&◌, some, ok, ok-injective, arith, ◌==◌, ==_iff, if◌then◌else◌, Bool-cases, Option-cases,
}
use native.Mathlib.Nat.{mod-lt, mod-eq_of_lt}
use xns.Edwards.{
  Point, ed_p, sub, mul, inv, of_inverse, mod_inverse, inverse_loop, ed_d, square_root, power_loop,
  mod_power, ed_i,
}
use xns.Edwards.Modular.{
  Agree, Agree-refl, Agree-sym, Agree-trans, Agree-add, Agree-mul, Agree-scale, Agree-cancel,
  Agree-mod, Agree-from, Agree-difference, mod_inverse-some,
}

pub positive : 0 < ed_p
positive = omega arith

pub inv-ok : (a v : ℕ) → inv a ≡ ok v → Agree ed_p (v * a) 1
unfolding inv of_inverse
inv-ok a v h = elim (Option-cases (mod_inverse (a % ed_p) ed_p)) [
  | inl e ↦ cc (rw e at h)
  | inr (u, e) ↦
      let found : ok u ≡ ok v = rw e at h in
      let same : u ≡ v = ok-injective found in
      Agree-trans (Agree-mul (Agree-refl v) (Agree-sym (Agree-mod a)))
        (mod_inverse-some (a % ed_p) positive v (e ∙ ap some same))
]

-- The constant of the curve.
pub curve_constant : Agree ed_p (121666 * ed_d + 121665) 0
unfolding ed_d mod_inverse inverse_loop sub
curve_constant = record { above = 0; below = (121666 * ed_d + 121665) / ed_p; equal = refl }

-- What the coordinates of a decoded point are: reduced, and on the curve
-- -x^2 + y^2 = 1 - 121665 / 121666 * x^2 * y^2.
pub record IsPoint (p : Point) : Type 0 where
  pub x_reduced : p.x < ed_p
  pub y_reduced : p.y < ed_p
  pub on_curve :
      (121666 * (p.y * p.y) + 121665 * (p.x * p.x * (p.y * p.y))) % ed_p
      ≡ 121666 * (1 + p.x * p.x) % ed_p

-- A difference, with what was taken off added again.
pub sub_restored : (a b : ℕ) → Agree ed_p (sub a b + b) a
unfolding sub
sub_restored a b = Agree-difference a b positive

pub sub-zero : (a b : ℕ) → (sub a b == 0) ≡ true → Agree ed_p a b
sub-zero a b h =
    let zero_left : sub a b ≡ 0 = (==_iff (sub a b) 0).0 h in
    Agree-sym (Agree-trans (Agree-from {a = b} (omega (arith, zero_left))) (sub_restored a b))

-- An `x` whose square is the quotient satisfies the equation.
module _ (d x2 y2 v s : ℕ) (constant : Agree ed_p (121666 * d + 121665) 0)
    (inverse : Agree ed_p (v * (d * y2 + 1)) 1) (one_less : Agree ed_p (s + 1) y2)
    (square : Agree ed_p x2 (s * v)) where
  quotient : Agree ed_p (x2 * (d * y2 + 1) + 1) y2
  quotient =
      Agree-trans
        (Agree-add
          (Agree-trans (Agree-mul square (Agree-refl (d * y2 + 1)))
            (Agree-trans (Agree-from (omega arith)) (Agree-scale s inverse)))
          (Agree-refl 1))
        (Agree-trans (Agree-from (omega arith)) one_less)

  pub equation : Agree ed_p (121666 * y2 + 121665 * (x2 * y2)) (121666 * (1 + x2))
  equation =
      Agree-trans
        (Agree-add (Agree-scale 121666 (Agree-sym quotient)) (Agree-refl (121665 * (x2 * y2))))
        (Agree-trans
          (Agree-from {b = x2 * y2 * (121666 * d + 121665) + 121666 * (1 + x2)} (omega arith))
          (Agree-trans (Agree-add (Agree-scale (x2 * y2) constant) (Agree-refl (121666 * (1 + x2))))
            (Agree-from (omega arith))))

-- The other root.
opposite-square : (u x : ℕ) → Agree ed_p (u + x) 0 → Agree ed_p (u * u) (x * x)
opposite-square u x h = Agree-cancel (u * x) (
    Agree-trans (Agree-from {b = u * (u + x)} (omega arith)) (
      Agree-trans (Agree-scale u h) (
        Agree-trans (Agree-from (omega arith))
          (Agree-trans (Agree-sym (Agree-scale x h)) (Agree-from (omega arith))))))

opposite : (x : ℕ) → Agree ed_p (sub ed_p x + x) 0
opposite x =
    Agree-trans (sub_restored ed_p x) (record { above = 0; below = 1; equal = omega arith })

sub-lt : (a b : ℕ) → sub a b < ed_p
unfolding sub
sub-lt a b = mod-lt _ positive

pub mul-lt : (a b : ℕ) → mul a b < ed_p
unfolding mul
mul-lt a b = mod-lt _ positive

power_loop-lt : (fuel b e : ℕ) → power_loop fuel b e ed_p < ed_p
unfolding power_loop
power_loop-lt zero b e = omega arith
power_loop-lt (suc fuel) b e = elim (Bool-cases (e == 0)) [
  | inl none_left ↦ rw (none_left, power_loop) (omega arith)
  | inr more ↦ elim (Bool-cases (e % 2 == 1)) [
    | inl odd ↦ rw (more, power_loop, odd) (mod-lt _ positive)
    | inr even ↦ rw (more, power_loop, even) (power_loop-lt fuel _ (e / 2))
  ]
]

both_reduced : (b : Bool) {x y : ℕ} → x < ed_p → y < ed_p → (if b then x else y) < ed_p
both_reduced true small other = small
both_reduced false small other = other

pub square_root-lt : (xx : ℕ) → square_root xx < ed_p
unfolding square_root mod_power
square_root-lt xx =
    let x = power_loop ((ed_p + 3) / 8) xx ((ed_p + 3) / 8) ed_p in
    both_reduced (sub (mul x x) xx == 0) (power_loop-lt ((ed_p + 3) / 8) xx ((ed_p + 3) / 8))
      (mul-lt x ed_i)

-- The root of the wanted parity.
unfoldable pub chosen : ℕ → ℕ → ℕ
chosen sign x = if x % 2 == sign then x else sub ed_p x

pub chosen-lt : (sign x : ℕ) → x < ed_p → chosen sign x < ed_p
unfolding chosen
chosen-lt sign x small = both_reduced (x % 2 == sign) small (sub-lt ed_p x)

pub chosen-square : (sign x : ℕ) → Agree ed_p (chosen sign x * chosen sign x) (x * x)
unfolding chosen
chosen-square sign x = elim (Bool-cases (x % 2 == sign)) [
  | inl e ↦ rw e (Agree-refl (x * x))
  | inr e ↦ rw e (opposite-square (sub ed_p x) x (opposite x))
]

-- It has the wanted parity, as `p` is odd.
pub chosen-parity :
    (sign x : ℕ) → x < ed_p → sign < 2 → not (x == 0 && sign == 1) ≡ true → chosen sign x % 2 ≡ sign
unfolding chosen sub
chosen-parity sign x small bit zero_plain = elim (Bool-cases (x % 2 == sign)) [
  | inl e ↦ rw e ((==_iff (x % 2) sign).0 e)
  | inr e ↦
      let reduced = mod-eq_of_lt small in
      let other : x % 2 ≢ sign = ground (arith, e) in
      let not_zero : x ≢ 0 = ground arith in rw e (rw reduced (omega arith))
]
