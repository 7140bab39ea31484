-- ===== src/Edwards/Ending.antt =====
-- The check of an owner key comes to an end.
use xns.Common.{
  ℕ, zero, suc, ◌+◌, ◌^◌, ◌/◌, ◌%◌, ◌==◌, if◌then◌else◌, Bool, true, false, Option, none, some,
  Bytes, ok, HasEnded, HasEnded-bind, HasEnded-ok, HasEnded-check, HasEnded-index,
}
use xns.Edwards.{
  ed_p, Point, of_inverse, mod_inverse, inv, decode_point, add_point, scalar_loop, scalar_mult,
  valid_owner_point,
}

HasEnded-of_inverse : (o : Option ℕ) → HasEnded (of_inverse o)
unfolding of_inverse HasEnded
HasEnded-of_inverse none = tt
HasEnded-of_inverse (some v) = tt

HasEnded-inv : (a : ℕ) → HasEnded (inv a)
unfolding inv
HasEnded-inv a = HasEnded-of_inverse (mod_inverse (a % ed_p) ed_p)

HasEnded-decode_point : (raw : Bytes) → HasEnded (decode_point raw)
unfolding decode_point
HasEnded-decode_point raw =
    search (HasEnded-bind, HasEnded-check, HasEnded-index, HasEnded-ok, HasEnded-inv) depth 16

HasEnded-add_point : (a b : Point) → HasEnded (add_point a b)
unfolding add_point
HasEnded-add_point a b = search (HasEnded-bind, HasEnded-ok, HasEnded-inv) depth 16

HasEnded-choice : (b : Bool) (p q : Point) → HasEnded (if b then add_point p q else ok p)
HasEnded-choice true p q = HasEnded-add_point p q
HasEnded-choice false p q = HasEnded-ok p

HasEnded-scalar_loop :
    (rounds i n : ℕ) (result addend : Point) → HasEnded (scalar_loop rounds i n result addend)
unfolding scalar_loop
HasEnded-scalar_loop zero i n result addend = HasEnded-ok result
HasEnded-scalar_loop (suc rounds) i n result addend =
    HasEnded-bind _ _ (HasEnded-choice (n / 2 ^ i % 2 == 1) result addend) (λ result' _.
      HasEnded-bind _ _ (HasEnded-add_point addend addend)
        (λ addend' _. HasEnded-scalar_loop rounds (i + 1) n result' addend'))

pub valid_owner_point-HasEnded : (raw : Bytes) → HasEnded (valid_owner_point raw)
unfolding valid_owner_point scalar_mult
valid_owner_point-HasEnded raw =
    search (HasEnded-bind, HasEnded-check, HasEnded-decode_point, HasEnded-scalar_loop) depth 16
