-- ===== src/Tests/Edwards.antt =====
-- Runs of pkg/xns/edwards.go.
use xns.Common.{◌%◌, ◌≡◌, ◌≢◌, ◌⊎◌, refl, ok, panic, arith}
use xns.Edwards.{Point, decode_point, identity, scalar_mult, ed_l, ed_p, add_point, add, sub}
use xns.Edwards.Inverse.{ShareDivisor}
use xns.Edwards.Multiples.{add_point_lem, identity-IsPoint, cross_product}
use xns.Edwards.Curve.{IsPoint}
use xns.Edwards.Decoding.{encode_point, valid_owner_point-IsPoint}
use xns.Tests.Data.{key, key_point}

valid_owner_point-IsPoint_example :
    (p : Point) × (decode_point key ≡ ok p)
    × IsPoint p
    × (p ≢ identity)
    × (scalar_mult p ed_l ≡ ok identity)
    × (encode_point p ≡ key)
valid_owner_point-IsPoint_example = valid_owner_point-IsPoint key (omega arith) key_point

-- The base point of Ed25519.
abbrev base : Point
base = record {
  x = 15112221349535400772501151409588531511454012693041857206046113283949847762202;
  y = 46316835694926478169428394003475163141307993866256225615783033603165251855960;
}

base-IsPoint : IsPoint base
base-IsPoint = record { x_reduced = omega arith; y_reduced = omega arith; on_curve = refl }

add_point_lem_example :
    ((s : Point) × (add_point base identity ≡ ok s) × IsPoint s)
    ⊎ ((add_point base identity ≡ panic)
        × (ShareDivisor ed_p (add 1 (cross_product base identity) % ed_p)
            ⊎ ShareDivisor ed_p (sub 1 (cross_product base identity) % ed_p)))
add_point_lem_example = add_point_lem base identity base-IsPoint identity-IsPoint
