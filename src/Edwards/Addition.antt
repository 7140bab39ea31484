-- ===== src/Edwards/Addition.antt =====
-- addPoint: the sum of two points of the curve is a point of the curve.
use xns.Common.{ℕ, ◌+◌, ◌*◌, arith}
use xns.Edwards.{ed_p}
use xns.Edwards.Modular.{
  Agree, Agree-refl, Agree-sym, Agree-trans, Agree-add, Agree-mul, Agree-scale, Agree-from,
}

infixl 4 ◌then◌
pub ◌then◌ : {a b c : ℕ} → Agree ed_p a b → Agree ed_p b c → Agree ed_p a c
h then k = Agree-trans h k

squares_apart :
    (x y r : ℕ) → Agree ed_p y (x + r) → Agree ed_p (y * y + x * x) (r * r + 2 * (x * y))
squares_apart x y r h =
    Agree-add (Agree-mul h h) (Agree-refl (x * x))
    then Agree-from {b = r * r + 2 * (x * (x + r))} (omega arith)
    then Agree-add (Agree-refl (r * r)) (Agree-scale 2 (Agree-scale x (Agree-sym h)))

-- The squares of the coordinates: `a`, `b` of the first point, `c`, `f` of the second.
module _ (a b c f d : ℕ) (first : Agree ed_p b (a + (1 + d * (a * b))))
    (second : Agree ed_p f (c + (1 + d * (c * f)))) where
  abbrev l : ℕ
  l = 1 + d * (a * b)

  abbrev r : ℕ
  r = 1 + d * (c * f)

  -- d^2 abcf
  abbrev e2 : ℕ
  e2 = d * d * (a * b * (c * f))

  sums : Agree ed_p (b * f + a * c) (a * f + c * b + l * r)
  sums =
      Agree-add (Agree-mul first second) (Agree-refl (a * c))
      then Agree-from {b = a * (c + r) + c * (a + l) + l * r} (omega arith)
      then Agree-add
          (Agree-add (Agree-scale a (Agree-sym second)) (Agree-scale c (Agree-sym first)))
          (Agree-refl (l * r))

  products :
      Agree ed_p
        (d * ((b * f + a * c) * (a * f + c * b)))
        (d * (a * b + c * f) * (1 + e2) + 4 * e2 + 4 * (d * (a * b * (c * f))))
  products =
      Agree-scale d (
        Agree-from {b = a * b * (f * f + c * c) + c * f * (b * b + a * a)} (omega arith)
        then Agree-add (Agree-scale (a * b) (squares_apart c f r second))
            (Agree-scale (c * f) (squares_apart a b l first)))
      then Agree-from (omega arith)

  -- `t` is the product of the four coordinates, and `v` the second denominator.
  module _ (t v : ℕ) (product : Agree ed_p (t * t) (a * b * (c * f)))
      (other : Agree ed_p (v + d * t) 1) where
    abbrev e : ℕ
    e = d * t

    abbrev u : ℕ
    u = 1 + e

    squared : Agree ed_p (e * e) e2
    squared = Agree-from (omega arith) then Agree-scale (d * d) product

    unit_square : Agree ed_p ((v + e) * (v + e)) 1
    unit_square = Agree-mul other other

    first_square : Agree ed_p (u * u) (v * v + 4 * e)
    first_square =
        Agree-from {b = 1 * 1 + 2 * e * 1 + e * e} (omega arith)
        then Agree-add (Agree-add (Agree-sym unit_square) (Agree-scale (2 * e) (Agree-sym other)))
            (Agree-refl (e * e))
        then Agree-from {b = v * v + 4 * e * (v + e)} (omega arith)
        then Agree-add (Agree-refl (v * v)) (Agree-scale (4 * e) other)
        then Agree-from (omega arith)

    -- v^2 + 2e is 1 + e^2
    half_square : Agree ed_p (v * v + 2 * e) (1 + e2)
    half_square =
        Agree-from {b = v * v + 2 * e * 1} (omega arith)
        then Agree-add (Agree-refl (v * v)) (Agree-scale (2 * e) (Agree-sym other))
        then Agree-from {b = (v + e) * (v + e) + e * e} (omega arith)
        then Agree-add unit_square squared

    both : Agree ed_p (u * v + e2) 1
    both =
        Agree-add (Agree-refl (u * v)) (Agree-sym squared)
        then Agree-from {b = v + e * (v + e)} (omega arith)
        then Agree-add (Agree-refl v) (Agree-scale e other)
        then Agree-from {b = v + e} (omega arith)
        then other

    both_square : Agree ed_p (u * v * (u * v) + 4 * e2) ((1 + e2) * (1 + e2))
    both_square =
        let w = u * v in
        Agree-from {b = w * w + 4 * e2 * 1} (omega arith)
        then Agree-add (Agree-refl (w * w)) (Agree-scale (4 * e2) (Agree-sym both))
        then Agree-from {b = (w + e2 + e2) * (w + e2 + e2)} (omega arith)
        then Agree-mul (Agree-add both (Agree-refl e2)) (Agree-add both (Agree-refl e2))

    corrections :
        Agree ed_p
          (l * r * (v * v) + 2 * e * (l * r) + 4 * (e * t))
          (u * v * (u * v) + d * ((b * f + a * c) * (a * f + c * b)))
    corrections =
        let w = u * v in
        let mixed = d * (a * b + c * f) * (1 + e2) + 4 * (d * (a * b * (c * f))) in
        Agree-from {b = l * r * (v * v + 2 * e) + 4 * d * (t * t)} (omega arith)
        then Agree-add (Agree-scale (l * r) half_square) (Agree-scale (4 * d) product)
        then Agree-from {b = (1 + e2) * (1 + e2) + mixed} (omega arith)
        then Agree-add (Agree-sym both_square) (Agree-refl mixed)
        then Agree-from
            {b = w * w + (d * (a * b + c * f) * (1 + e2) + 4 * e2 + 4 * (d * (a * b * (c * f))))}
            (omega arith)
        then Agree-add (Agree-refl (w * w)) (Agree-sym products)

    -- The equation of the sum, times the squares of the denominators.
    pub sum_equation : Agree ed_p ((b * f + a * c + 2 * t) * (u * u)) (
        (a * f + c * b + 2 * t) * (v * v)
        + u * v * (u * v)
        + d * ((b * f + a * c + 2 * t) * (a * f + c * b + 2 * t)))
    sum_equation =
        let p = b * f + a * c in
        let q = a * f + c * b in
        let rest = 2 * e * p + 2 * t * (v * v) + 8 * (e * t) in
        let others = q * (v * v) + 2 * e * q + 2 * e * p + 2 * t * (v * v) + 4 * (e * t) in
        Agree-scale (p + 2 * t) first_square
        then Agree-from {b = p * (v * v + 2 * e) + rest} (omega arith)
        then Agree-add (Agree-mul sums (Agree-refl (v * v + 2 * e))) (Agree-refl rest)
        then Agree-from {b = l * r * (v * v) + 2 * e * (l * r) + 4 * (e * t) + others} (omega arith)
        then Agree-add corrections (Agree-refl others)
        then Agree-from (omega arith)
