-- ===== src/Edwards/Multiples.antt =====
-- What addPoint and scalarMult give for points of the curve.
use xns.Common.{
  ℕ, zero, suc, ◌+◌, ◌/◌, ◌%◌, ◌^◌, ◌≡◌, ◌⊎◌, inl, inr, refl, Bool, true, false, Result, ◌>>=◌, ok,
  panic, arith, ◌==◌, if◌then◌else◌,
}
use xns.Edwards.{Point, ed_p, ed_d, add, sub, mul, add_point, identity, scalar_loop, scalar_mult}
use xns.Edwards.Curve.{IsPoint}
use xns.Edwards.Inverse.{ShareDivisor, inv_lem}
use xns.Edwards.Closure.{add_point-IsPoint}

-- The product that both denominators of a sum are made of, 1 more and 1 less.
abbrev pub cross_product : Point → Point → ℕ
cross_product p q = mul ed_d (mul (mul p.x q.x) (mul p.y q.y))

-- The sum of two points of the curve is a point of the curve with reduced coordinates, or addPoint
-- panics: then one of its two denominators has a divisor other than 1 in common with p.
pub add_point_lem :
    (p q : Point)
    → IsPoint p
    → IsPoint q
    → ((s : Point) × (add_point p q ≡ ok s) × IsPoint s)
      ⊎ ((add_point p q ≡ panic)
          × (ShareDivisor ed_p (add 1 (cross_product p q) % ed_p)
              ⊎ ShareDivisor ed_p (sub 1 (cross_product p q) % ed_p)))
unfolding add_point
add_point_lem p q on_p on_q =
    let e = cross_product p q in
    elim (inv_lem (add 1 e)) [
      | inr (no_u, shared) ↦ inr (rw no_u, inl shared)
      | inl (i, is_i, _) ↦ elim (inv_lem (sub 1 e)) [
        | inr (no_v, shared) ↦ inr (rw (is_i, no_v), inr shared)
        | inl (j, is_j, _) ↦
            let s : Point = record {
              x = mul (add (mul p.x q.y) (mul q.x p.y)) i;
              y = mul (add (mul p.y q.y) (mul p.x q.x)) j;
            } in
            let computed : add_point p q ≡ ok s = rw (is_i, is_j) in
            inl (s, computed, add_point-IsPoint p q s on_p on_q computed)
      ]
    ]

pub identity-IsPoint : IsPoint identity
identity-IsPoint = record { x_reduced = omega arith; y_reduced = omega arith; on_curve = refl }

-- A point of the curve, or a panic.
abbrev PointOrPanic : Result Point → Type 0
PointOrPanic m = ((s : Point) × (m ≡ ok s) × IsPoint s) ⊎ (m ≡ panic)

add_point-PointOrPanic : (p q : Point) → IsPoint p → IsPoint q → PointOrPanic (add_point p q)
add_point-PointOrPanic p q on_p on_q = elim (add_point_lem p q on_p on_q) [
  | inl sum ↦ inl sum
  | inr (e, _) ↦ inr e
]

PointOrPanic-bind :
    (m : Result Point) (f : Point → Result Point)
    → PointOrPanic m
    → ((p : Point) → IsPoint p → PointOrPanic (f p))
    → PointOrPanic (m >>= f)
PointOrPanic-bind m f (inl (p, e, on)) h = rw e (h p on)
PointOrPanic-bind m f (inr e) h = rw e (inr refl)

-- The sum for a bit of the number that is 1.
PointOrPanic-chosen :
    (b : Bool) (p q : Point)
    → IsPoint p
    → IsPoint q
    → PointOrPanic (if b then add_point p q else ok p)
PointOrPanic-chosen true p q on_p on_q = add_point-PointOrPanic p q on_p on_q
PointOrPanic-chosen false p q on_p on_q = inl (p, refl, on_p)

scalar_loop-PointOrPanic :
    (rounds i n : ℕ) (result addend : Point)
    → IsPoint result
    → IsPoint addend
    → PointOrPanic (scalar_loop rounds i n result addend)
unfolding scalar_loop
scalar_loop-PointOrPanic zero i n result addend on_r on_a = inl (result, refl, on_r)
scalar_loop-PointOrPanic (suc rounds) i n result addend on_r on_a =
    PointOrPanic-bind _ _ (PointOrPanic-chosen (n / 2 ^ i % 2 == 1) result addend on_r on_a)
      (λ result' on_r'.
        PointOrPanic-bind _ _ (add_point-PointOrPanic addend addend on_a on_a)
          (λ addend' on_a'. scalar_loop-PointOrPanic rounds (i + 1) n result' addend' on_r' on_a'))

-- A multiple of a point of the curve is computed as a point of the curve with reduced coordinates,
-- or the computation panics.
pub scalar_mult_lem :
    (p : Point) (n : ℕ)
    → IsPoint p
    → ((s : Point) × (scalar_mult p n ≡ ok s) × IsPoint s) ⊎ (scalar_mult p n ≡ panic)
unfolding scalar_mult
scalar_mult_lem p n on = scalar_loop-PointOrPanic _ 0 n identity p identity-IsPoint on
