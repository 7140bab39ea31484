-- ===== src/Edwards/Decoding.antt =====
-- decodePoint and its inverse: an accepted key is the one encoding of a point of the curve.
use xns.Common.{
  ℕ, zero, suc, ◌+◌, ◌*◌, ◌/◌, ◌%◌, ◌^◌, ◌<◌, ◌≡◌, ◌≢◌, ◌↔◌, refl, ◌∙◌, ap, subst, Bool, true,
  false, not, ◌&&◌, [], ◌∷◌, ◌++◌, Bytes, IsByte, All, ok, index, check, check→true, >>=-eq-ok,
  ok-injective, length, take, arith, ltb, ◌==◌, ==_iff, ==_self, ltb→lt, point_size, point_y,
  point_off_curve, point_sign, point_identity,
}
use native.Mathlib.Nat.{mod-lt, pow-suc}
use xns.Edwards.{
  Point, ed_p, ed_l, add, sub, mul, inv, ed_d, square_root, from_le, decode_point, identity, eq,
  scalar_mult, valid_owner_point,
}
use xns.TxSet.Signature.{to_le}
use xns.Edwards.Modular.{
  Agree, Agree-refl, Agree-sym, Agree-trans, Agree-add, Agree-scale, Agree-mod, Agree→≡,
}
use xns.Edwards.Curve.{
  IsPoint, inv-ok, curve_constant, sub-zero, equation, chosen, chosen-lt, chosen-square,
  chosen-parity, sub_restored, square_root-lt, positive,
}

y_of : Bytes → ℕ → ℕ
y_of raw top = from_le (take 31 raw ++ (top % 128) ∷ [])

x_of : ℕ → ℕ → ℕ
x_of y v = square_root (mul (sub (mul y y) 1) v)

-- What a successful run went through.
record Decoded (raw : Bytes) (p : Point) : Type 0 where
  top : ℕ
  v : ℕ
  size : (length raw == 32) ≡ true
  last : index raw 31 ≡ ok top
  y_small : y_of raw top < ed_p
  inverse : inv (add (mul ed_d (mul (y_of raw top) (y_of raw top))) 1) ≡ ok v
  root :
      (sub
          (mul (x_of (y_of raw top) v) (x_of (y_of raw top) v))
          (mul (sub (mul (y_of raw top) (y_of raw top)) 1) v)
        == 0)
      ≡ true
  plain_zero : not (x_of (y_of raw top) v == 0 && top / 128 == 1) ≡ true
  given : record { x = chosen (top / 128) (x_of (y_of raw top) v); y = y_of raw top } ≡ p

decode_point-Decoded : (raw : Bytes) (p : Point) → decode_point raw ≡ ok p → Decoded raw p
unfolding decode_point y_of x_of chosen
decode_point-Decoded raw p h =
    let (_, size, h1) = >>=-eq-ok (check (length raw == 32) point_size) _ h in
    let (top, last, h2) = >>=-eq-ok (index raw 31) _ h1 in
    let y = y_of raw top in
    let (_, y_small, h3) = >>=-eq-ok (check (ltb y ed_p) point_y) _ h2 in
    let (v, inverse, h4) = >>=-eq-ok (inv (add (mul ed_d (mul y y)) 1)) _ h3 in
    let xx = mul (sub (mul y y) 1) v in
    let x = x_of y v in
    let (_, root, h5) = >>=-eq-ok (check (sub (mul x x) xx == 0) point_off_curve) _ h4 in
    let (_, plain, h6) = >>=-eq-ok (check (not (x == 0 && top / 128 == 1)) point_sign) _ h5 in
    record {
      top = top;
      v = v;
      size = check→true _ _ size;
      last = last;
      y_small = ltb→lt y ed_p (check→true _ _ y_small);
      inverse = inverse;
      root = check→true _ _ root;
      plain_zero = check→true _ _ plain;
      given = ok-injective h6;
    }

Decoded-IsPoint : (raw : Bytes) (p : Point) → Decoded raw p → IsPoint p
unfolding add mul x_of
Decoded-IsPoint raw p d =
    let y = y_of raw d.top in
    let s = sub (mul y y) 1 in
    let x = x_of y d.v in
    let x' = chosen (d.top / 128) x in
    let y2 = Agree-mod {n = ed_p} (y * y) in
    let inverse : Agree ed_p (d.v * (ed_d * (y * y) + 1)) 1 =
      Agree-trans
        (Agree-scale d.v (
          Agree-sym (
            Agree-trans (Agree-mod _)
              (Agree-add (Agree-trans (Agree-mod _) (Agree-scale ed_d y2)) (Agree-refl 1)))))
        (inv-ok _ d.v d.inverse) in
    let one_less : Agree ed_p (s + 1) (y * y) = Agree-trans (sub_restored (mul y y) 1) y2 in
    let square : Agree ed_p (x' * x') (s * d.v) = Agree-trans (chosen-square (d.top / 128) x) (
      Agree-trans (Agree-sym (Agree-mod (x * x)))
        (Agree-trans (sub-zero (mul x x) (mul s d.v) d.root) (Agree-mod (s * d.v)))) in
    let curve = equation ed_d (x' * x') (y * y) d.v s curve_constant inverse one_less square in
    subst IsPoint d.given (record {
      x_reduced = chosen-lt (d.top / 128) x (square_root-lt (mul s d.v));
      y_reduced = d.y_small;
      on_curve =
          Agree→≡ (mod-lt _ positive) (mod-lt _ positive)
            (Agree-trans (Agree-mod _) (Agree-trans curve (Agree-sym (Agree-mod _))));
    })

-- The encoding of a point, as RFC 8032 has it: `y` with the least bit of `x` as bit 255, from the
-- least byte on.
abbrev pub encode_point : Point → Bytes
encode_point p = to_le 32 (p.y + p.x % 2 * 2 ^ 255)

to_le-from_le : (bs : Bytes) → All IsByte bs → to_le (length bs) (from_le bs) ≡ bs
unfolding from_le
to_le-from_le [] h = refl
to_le-from_le (b ∷ bs) (small, h) =
    let low : (b + 256 * from_le bs) % 256 ≡ b = omega (arith, small) in
    let high : (b + 256 * from_le bs) / 256 ≡ from_le bs = omega (arith, small) in
    rw (low, high) (ap (λ (t : Bytes). b ∷ t) (to_le-from_le bs h))

from_le-snoc : (bs : Bytes) (t : ℕ) → from_le (bs ++ t ∷ []) ≡ from_le bs + 256 ^ length bs * t
unfolding from_le
from_le-snoc [] t = omega arith
from_le-snoc (b ∷ bs) t =
    let longer = ap (λ (x : ℕ). x * t) (pow-suc 256 (length bs)) in
    omega (arith, from_le-snoc bs t, longer)

-- The last byte apart from the others.
last_apart :
    (n : ℕ) (bs : Bytes) (t : ℕ)
    → All IsByte bs
    → length bs ≡ suc n
    → index bs n ≡ ok t
    → (bs ≡ take n bs ++ t ∷ []) × (length (take n bs) ≡ n) × (t < 256)
unfolding index
last_apart n [] t small size at = cc
last_apart zero (b ∷ []) t (small, _) size at =
    let same : b ≡ t = ok-injective at in
    (ap (λ (x : ℕ). x ∷ []) same, refl, subst IsByte same small)
last_apart zero (b ∷ b' ∷ bs) t small size at = absurd (omega (arith, size))
last_apart (suc n) (b ∷ bs) t (_, small) size at =
    let (apart, short, byte) = last_apart n bs t small (omega (arith, size)) at in
    (ap (λ (l : Bytes). b ∷ l) apart, omega (arith, short), byte)

Decoded-encode_point :
    (raw : Bytes) (p : Point) → All IsByte raw → Decoded raw p → encode_point p ≡ raw
unfolding y_of x_of
Decoded-encode_point raw p bytes d =
    let size = (==_iff (length raw) 32).0 d.size in
    let (apart, short, byte) = last_apart 31 raw d.top bytes size d.last in
    let a = take 31 raw in
    let power : 256 ^ length a ≡ 256 ^ 31 = ap (λ (n : ℕ). 256 ^ n) short in
    let scaled : (t : ℕ) → 256 ^ length a * t ≡ 256 ^ 31 * t = λ t. ap (λ (n : ℕ). n * t) power in
    let whole : from_le raw ≡ from_le a + 256 ^ 31 * d.top =
      ap from_le apart ∙ from_le-snoc a d.top ∙ ap (λ (n : ℕ). from_le a + n) (scaled d.top) in
    let low : y_of raw d.top ≡ from_le a + 256 ^ 31 * (d.top % 128) =
      from_le-snoc a (d.top % 128) ∙ ap (λ (n : ℕ). from_le a + n) (scaled (d.top % 128)) in
    let x = x_of (y_of raw d.top) d.v in
    let parity : chosen (d.top / 128) x % 2 ≡ d.top / 128 =
      chosen-parity (d.top / 128) x (square_root-lt _) (omega (arith, byte)) d.plain_zero in
    let number : y_of raw d.top + chosen (d.top / 128) x % 2 * 2 ^ 255 ≡ from_le raw =
      omega (arith, whole, low, parity) in
    let read : to_le 32 (from_le raw) ≡ raw =
      subst (λ (n : ℕ). to_le n (from_le raw) ≡ raw) size (to_le-from_le raw bytes) in
    subst (λ (q : Point). encode_point q ≡ raw) d.given (ap (to_le 32) number ∙ read)

eq_iff : (a b : Point) → (eq a b ≡ true) ↔ (a ≡ b)
unfolding eq
eq_iff a b = (
  λ h.
      let same_x : a.x ≡ b.x = ground arith in
      let same_y : a.y ≡ b.y = ground arith in λ i. record { x = same_x i; y = same_y i },
  λ e. rw e (rw (==_self b.x, ==_self b.y)),
)

not_both : (b : Bool) → b ≡ true → not b ≡ true → ⊥
not_both true holds fails = cc
not_both false holds fails = cc

-- Where 32 bytes are accepted as an owner key, they decode to a point with reduced coordinates that
-- satisfies the curve's equation and is not the identity; its multiple by the group's order is
-- computed as the identity, and its standard encoding is those bytes again.
pub valid_owner_point-IsPoint :
    (raw : Bytes)
    → All IsByte raw
    → valid_owner_point raw ≡ ok tt
    → (p : Point) × (decode_point raw ≡ ok p)
      × IsPoint p
      × (p ≢ identity)
      × (scalar_mult p ed_l ≡ ok identity)
      × (encode_point p ≡ raw)
unfolding valid_owner_point
valid_owner_point-IsPoint raw bytes h =
    let (p, decoded, h1) = >>=-eq-ok (decode_point raw) _ h in
    let (_, other, h2) = >>=-eq-ok (check (not (eq p identity)) point_identity) _ h1 in
    let (multiple, computed, h3) = >>=-eq-ok (scalar_mult p ed_l) _ h2 in
    let back = (eq_iff multiple identity).0 (check→true _ _ h3) in
    let d = decode_point-Decoded raw p decoded in
    (
      p,
      decoded,
      Decoded-IsPoint raw p d,
      λ e. not_both (eq p identity) ((eq_iff p identity).1 e) (check→true _ _ other),
      computed ∙ ap ok back,
      Decoded-encode_point raw p bytes d,
    )
