-- ===== src/Edwards/Closure.antt =====
-- addPoint stays on the curve.
use xns.Common.{
  ℕ, ◌+◌, ◌*◌, ◌/◌, ◌<◌, ◌≡◌, refl, ap, subst, ok, >>=-eq-ok, ok-injective, arith, if◌then◌else◌,
  sym,
}
use native.Mathlib.Nat.{mod-lt}
use xns.Edwards.{Point, ed_p, ed_d, add, sub, mul, inv, add_point}
use xns.Edwards.Modular.{
  Agree, Agree-refl, Agree-sym, Agree-add, Agree-mul, Agree-scale, Agree-mod, Agree-from, Agree→≡,
}
use xns.Edwards.Curve.{IsPoint, inv-ok, curve_constant, sub_restored, mul-lt, positive}
use xns.Edwards.Addition.{◌then◌, sum_equation}

-- The inverse of 121666.
abbrev k : ℕ
k = 0x52036cee2b6ffe738cc740797779e89800700a4d4141d8ab75eb4dca135978a4

k_inverse : Agree ed_p (k * 121666) 1
k_inverse = record { above = 0; below = k * 121666 / ed_p; equal = refl }

minus_d : Agree ed_p (ed_d + 121665 * k) 0
minus_d =
    Agree-from {b = ed_d * 1 + 121665 * k} (omega arith)
    then Agree-add (Agree-scale ed_d (Agree-sym k_inverse)) (Agree-refl (121665 * k))
    then Agree-from {b = k * (121666 * ed_d + 121665)} (omega arith)
    then Agree-scale k curve_constant
    then Agree-from (omega arith)

-- The equation with the constant of the code, from that of the curve and back.
short_form :
    (a b : ℕ)
    → Agree ed_p (121666 * b + 121665 * (a * b)) (121666 * (1 + a))
    → Agree ed_p b (a + (1 + ed_d * (a * b)))
short_form a b h =
    Agree-from {b = b * 1 + a * b * 0} (omega arith)
    then Agree-add (Agree-scale b (Agree-sym k_inverse)) (Agree-scale (a * b) (Agree-sym minus_d))
    then Agree-from {b = k * (121666 * b + 121665 * (a * b)) + a * b * ed_d} (omega arith)
    then Agree-add (Agree-scale k h) (Agree-refl (a * b * ed_d))
    then Agree-from {b = (1 + a) * (k * 121666) + a * b * ed_d} (omega arith)
    then Agree-add (Agree-scale (1 + a) k_inverse) (Agree-refl (a * b * ed_d))
    then Agree-from (omega arith)

long_form :
    (a b : ℕ)
    → Agree ed_p b (a + (1 + ed_d * (a * b)))
    → Agree ed_p (121666 * b + 121665 * (a * b)) (121666 * (1 + a))
long_form a b h =
    Agree-add (Agree-scale 121666 h) (Agree-refl (121665 * (a * b)))
    then Agree-from {b = 121666 * (1 + a) + a * b * (121666 * ed_d + 121665)} (omega arith)
    then Agree-add (Agree-refl (121666 * (1 + a))) (Agree-scale (a * b) curve_constant)
    then Agree-from (omega arith)

short_equation :
    (p : Point)
    → IsPoint p
    → Agree ed_p (p.y * p.y) (p.x * p.x + (1 + ed_d * (p.x * p.x * (p.y * p.y))))
short_equation p on =
    short_form (p.x * p.x) (p.y * p.y)
      (Agree-sym (Agree-mod _) then Agree-from on.on_curve then Agree-mod _)

-- The denominators are cancelled.
module _ (m2 n2 u v g h d x2 y2 : ℕ) (g_inverse : Agree ed_p (g * (u * u)) 1)
    (h_inverse : Agree ed_p (h * (v * v)) 1) (is_y : Agree ed_p (m2 * h) y2)
    (is_x : Agree ed_p (n2 * g) x2)
    (times : Agree ed_p (m2 * (u * u)) (n2 * (v * v) + u * v * (u * v) + d * (m2 * n2))) where
  cancelled : Agree ed_p y2 (x2 + (1 + d * (x2 * y2)))
  cancelled =
      Agree-from {b = y2 * 1} (omega arith)
      then Agree-mul (Agree-sym is_y) (Agree-sym g_inverse)
      then Agree-from {b = g * h * (m2 * (u * u))} (omega arith)
      then Agree-scale (g * h) times
      then Agree-from
          {b = n2 * g * (h * (v * v)) + (g * (u * u) * (h * (v * v)) + d * (n2 * g * (m2 * h)))}
          (omega arith)
      then Agree-add (Agree-mul is_x h_inverse)
          (Agree-add (Agree-mul g_inverse h_inverse) (Agree-scale d (Agree-mul is_x is_y)))
      then Agree-from (omega arith)

square_inverse : (i u : ℕ) → Agree ed_p (i * u) 1 → Agree ed_p (i * i * (u * u)) 1
square_inverse i u h = Agree-from (omega arith) then Agree-mul h h

mul_plain : (a b : ℕ) → Agree ed_p (mul a b) (a * b)
unfolding mul
mul_plain a b = Agree-mod (a * b)

add_plain : (a b : ℕ) → Agree ed_p (add a b) (a + b)
unfolding add
add_plain a b = Agree-mod (a + b)

mul_both : {a a' b b' : ℕ} → Agree ed_p a a' → Agree ed_p b b' → Agree ed_p (mul a b) (a' * b')
mul_both {a = a} {b = b} h k = mul_plain a b then Agree-mul h k

-- A quotient, squared.
fraction_square :
    (x num i n2 plain : ℕ)
    → Agree ed_p x (num * i)
    → Agree ed_p num plain
    → plain * plain ≡ n2
    → Agree ed_p (n2 * (i * i)) (x * x)
fraction_square x num i n2 plain is_x is_num square =
    Agree-from (ap (λ (s : ℕ). s * (i * i)) (sym square))
    then Agree-from {b = plain * i * (plain * i)} (omega arith)
    then Agree-sym (Agree-mul (Agree-mul is_num (Agree-refl i)) (Agree-mul is_num (Agree-refl i)))
    then Agree-sym (Agree-mul is_x is_x)

-- The denominator of `y` is 1 less the product.
IsPoint-from :
    (s : Point)
    → s.x < ed_p
    → s.y < ed_p
    → Agree ed_p (s.y * s.y) (s.x * s.x + (1 + ed_d * (s.x * s.x * (s.y * s.y))))
    → IsPoint s
IsPoint-from s small_x small_y h = record {
  x_reduced = small_x;
  y_reduced = small_y;
  on_curve =
      Agree→≡ (mod-lt _ positive) (mod-lt _ positive)
        (Agree-mod _ then long_form (s.x * s.x) (s.y * s.y) h then Agree-sym (Agree-mod _));
}

-- The sum of two points of the curve, if there are both inverses.
pub add_point-IsPoint : (p q s : Point) → IsPoint p → IsPoint q → add_point p q ≡ ok s → IsPoint s
unfolding add_point
add_point-IsPoint p q s on_p on_q h =
    let e = mul ed_d (mul (mul p.x q.x) (mul p.y q.y)) in
    let (i, inverse_u, h1) = >>=-eq-ok (inv (add 1 e)) _ h in
    let (j, inverse_v, h2) = >>=-eq-ok (inv (sub 1 e)) _ h1 in
    let x_num = add (mul p.x q.y) (mul q.x p.y) in
    let y_num = add (mul p.y q.y) (mul p.x q.x) in
    let t = p.x * q.x * (p.y * q.y) in
    let v = sub 1 e in
    let is_e : Agree ed_p e (ed_d * t) =
      mul_both (Agree-refl ed_d) (mul_both (mul_plain p.x q.x) (mul_plain p.y q.y)) in
    let is_u : Agree ed_p (add 1 e) (1 + ed_d * t) =
      add_plain 1 e then Agree-add (Agree-refl 1) is_e in
    let other : Agree ed_p (v + ed_d * t) 1 =
      Agree-add (Agree-refl v) (Agree-sym is_e) then sub_restored 1 e in
    let u_inverse = Agree-scale i (Agree-sym is_u) then inv-ok _ i inverse_u in
    let x_plain : Agree ed_p x_num (p.x * q.y + q.x * p.y) =
      add_plain _ _ then Agree-add (mul_plain p.x q.y) (mul_plain q.x p.y) in
    let y_plain : Agree ed_p y_num (p.y * q.y + p.x * q.x) =
      add_plain _ _ then Agree-add (mul_plain p.y q.y) (mul_plain p.x q.x) in
    let times =
      sum_equation (p.x * p.x) (p.y * p.y) (q.x * q.x) (q.y * q.y) ed_d (short_equation p on_p)
        (short_equation q on_q) t v (Agree-from (omega arith)) other in
    subst IsPoint (ok-injective h2) (
      IsPoint-from (record { x = mul x_num i; y = mul y_num j }) (mul-lt x_num i) (mul-lt y_num j)
        (cancelled _ _ (1 + ed_d * t) v (i * i) (j * j) ed_d _ _
          (square_inverse i (1 + ed_d * t) u_inverse) (square_inverse j v (inv-ok v j inverse_v))
          (fraction_square (mul y_num j) y_num j _ (p.y * q.y + p.x * q.x) (mul_plain y_num j)
            y_plain (omega arith))
          (fraction_square (mul x_num i) x_num i _ (p.x * q.y + q.x * p.y) (mul_plain x_num i)
            x_plain (omega arith))
          times))
