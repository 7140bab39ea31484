-- ===== src/Edwards/Inverse.antt =====
-- ModInverse gives nil only for a number that has a divisor in common with the modulus.
use xns.Common.{
  ℕ, zero, suc, ◌+◌, ◌*◌, ◌/◌, ◌%◌, ◌<◌, ◌≡◌, ◌≢◌, ◌⊎◌, inl, inr, ap, none, ok, panic, arith, ◌==◌,
  ==_iff, Bool-cases, Option-cases,
}
use native.Mathlib.Nat.{mod-add-div', mod-lt}
use xns.Edwards.{ed_p, inverse_loop, mod_inverse, inv, of_inverse}
use xns.Edwards.Modular.{Agree}
use xns.Edwards.Curve.{inv-ok}

abbrev Divides : ℕ → ℕ → Type 0
Divides d n = (q : ℕ) × (n ≡ q * d)

-- A divisor of both that is not 1.
abbrev pub ShareDivisor : ℕ → ℕ → Type 0
ShareDivisor a b = (d : ℕ) × (d ≢ 1) × Divides d a × Divides d b

inverse_loop-none :
    (n fuel r r' t t' : ℕ) → r' < fuel → inverse_loop fuel n r r' t t' ≡ none → ShareDivisor r r'
unfolding inverse_loop
inverse_loop-none n zero r r' t t' enough h = absurd (omega arith)
inverse_loop-none n (suc fuel) r r' t t' enough h = elim (Bool-cases (r' == 0)) [
  | inl last ↦ elim (Bool-cases (r == 1)) [
    | inl one ↦ cc (rw (last, one, inverse_loop) at h)
    | inr other ↦
        (r, ground (arith, other), (1, omega arith), (0, omega (arith, (==_iff r' 0).0 last)))
  ]
  | inr left ↦
      let positive : 0 < r' = ground arith in
      let smaller = mod-lt r positive in
      let (d, not_one, (q, e), (q', e')) =
        inverse_loop-none n fuel r' (r % r') t' _ (omega (arith, smaller))
          (rw (left, inverse_loop) at h) in
      (
        d,
        not_one,
        (q' + r / r' * q, omega (arith, mod-add-div' r r', e', ap (λ (x : ℕ). r / r' * x) e)),
        (q, e),
      )
]

-- inv gives an inverse, or panics, and then the number has a divisor other than 1 in common with p.
pub inv_lem :
    (a : ℕ)
    → ((v : ℕ) × (inv a ≡ ok v) × Agree ed_p (v * a) 1)
      ⊎ ((inv a ≡ panic) × ShareDivisor ed_p (a % ed_p))
unfolding inv of_inverse
inv_lem a = elim (Option-cases (mod_inverse (a % ed_p) ed_p)) [
  | inl e ↦ inr (
    rw e,
    unfold mod_inverse in inverse_loop-none ed_p (a % ed_p + 1) ed_p (a % ed_p) 0 1 (omega arith) e,
  )
  | inr (v, e) ↦ inl (v, rw e, inv-ok a v (rw e))
]
