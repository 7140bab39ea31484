-- ===== src/Edwards/Modular.antt =====
-- Numbers that agree modulo `n`, and that big.Int's ModInverse is an inverse.
use xns.Common.{
  ℕ, zero, suc, ◌+◌, ◌-◌, ◌*◌, ◌/◌, ◌%◌, ◌<◌, ◌≡◌, ◌⊎◌, inl, inr, refl, sym, ◌∙◌, ap, some, arith,
  ltb, ◌==◌, Bool-cases,
}
use native.Mathlib.Nat.{mod-add-div', mod-lt}
use xns.Edwards.{inverse_loop, mod_inverse}

module _ (n : ℕ) where
  -- With multiples of `n` added, the two are one number.
  pub record Agree (a b : ℕ) : Type 0 where
    pub above : ℕ
    pub below : ℕ
    pub equal : a + above * n ≡ b + below * n

module _ {n : ℕ} where
  pub Agree-refl : (a : ℕ) → Agree n a a
  Agree-refl a = record { above = 0; below = 0; equal = refl }

  pub Agree-sym : {a b : ℕ} → Agree n a b → Agree n b a
  Agree-sym h = record { above = h.below; below = h.above; equal = sym h.equal }

  pub Agree-trans : {a b c : ℕ} → Agree n a b → Agree n b c → Agree n a c
  Agree-trans h k = record {
    above = h.above + k.above;
    below = h.below + k.below;
    equal = omega (arith, h.equal, k.equal);
  }

  pub Agree-add : {a b c d : ℕ} → Agree n a b → Agree n c d → Agree n (a + c) (b + d)
  Agree-add h k = record {
    above = h.above + k.above;
    below = h.below + k.below;
    equal = omega (arith, h.equal, k.equal);
  }

  pub Agree-scale : (c : ℕ) {a b : ℕ} → Agree n a b → Agree n (c * a) (c * b)
  Agree-scale c h = record {
    above = c * h.above;
    below = c * h.below;
    equal = omega (arith, ap (λ (t : ℕ). c * t) h.equal);
  }

  pub Agree-swap : (a b : ℕ) → Agree n (a * b) (b * a)
  Agree-swap a b = record { above = 0; below = 0; equal = omega arith }

  pub Agree-mul : {a b c d : ℕ} → Agree n a b → Agree n c d → Agree n (a * c) (b * d)
  Agree-mul {a = a} {b = b} {c = c} {d = d} h k =
      Agree-trans (Agree-scale a k)
        (Agree-trans (Agree-swap a d) (Agree-trans (Agree-scale d h) (Agree-swap d b)))

  -- A summand on both sides is dropped.
  pub Agree-cancel : {a b : ℕ} (c : ℕ) → Agree n (a + c) (b + c) → Agree n a b
  Agree-cancel c h = record { above = h.above; below = h.below; equal = omega (arith, h.equal) }

  pub Agree-mod : (a : ℕ) → Agree n (a % n) a
  Agree-mod a = record { above = a / n; below = 0; equal = omega (arith, mod-add-div' a n) }

  pub Agree-whole : (a : ℕ) → Agree n (a + n) a
  Agree-whole a = record { above = 0; below = 1; equal = omega arith }

  pub Agree-from : {a b : ℕ} → a ≡ b → Agree n a b
  Agree-from e = record { above = 0; below = 0; equal = omega (arith, e) }

  multiples_apart : (a b c k : ℕ) → a < n → a + c * n ≡ b + (c + suc k) * n → a ≡ b
  multiples_apart a b c k less e = absurd (omega (arith, e))

  pub Agree→≡ : {a b : ℕ} → a < n → b < n → Agree n a b → a ≡ b
  Agree→≡ {a = a} {b = b} la lb h =
      let split : (h.above ≡ h.below)
          ⊎ ((k : ℕ) × (h.below ≡ h.above + suc k))
          ⊎ ((k : ℕ) × (h.above ≡ h.below + suc k)) =
        elim (Bool-cases (ltb h.above h.below)) [
          | inl l ↦ inr (inl (h.below - suc h.above, ground arith))
          | inr l ↦ elim (Bool-cases (ltb h.below h.above)) [
            | inl l' ↦ inr (inr (h.above - suc h.below, ground arith))
            | inr l' ↦ inl (ground arith)
          ]
        ] in
      elim split [
        | inl e ↦ omega (arith, h.equal, ap (λ (t : ℕ). t * n) e)
        | inr (inl (k, e)) ↦
            multiples_apart a b h.above k la (h.equal ∙ ap (λ (t : ℕ). b + t * n) e)
        | inr (inr (k, e)) ↦
            sym (multiples_apart b a h.below k lb (sym h.equal ∙ ap (λ (t : ℕ). a + t * n) e))
      ]

  -- A difference as `Mod` leaves it, with the number taken off added again.
  pub Agree-difference : (a b : ℕ) → 0 < n → Agree n ((a + (n - b % n)) % n + b) a
  Agree-difference a b positive =
      let small = mod-lt b positive in
      let back : a + (n - b % n) + b % n ≡ a + n = omega (arith, small) in
      Agree-trans (Agree-add (Agree-mod _) (Agree-sym (Agree-mod b)))
        (Agree-trans (Agree-from back) (Agree-whole a))

  module _ (a : ℕ) (positive : 0 < n) where
    -- One round of Euclid's algorithm.
    euclid_round :
        (r r' t t' : ℕ)
        → Agree n (t * a) r
        → Agree n (t' * a) r'
        → Agree n ((t + (n - r / r' * t' % n)) % n * a) (r % r')
    euclid_round r r' t t' h h' =
        let q = r / r' in
        let next = (t + (n - q * t' % n)) % n in
        let spread : next * a + q * (t' * a) ≡ (next + q * t') * a = omega arith in
        let whole : r ≡ r % r' + q * r' = omega (arith, mod-add-div' r r') in
        Agree-cancel (q * r') (
          Agree-trans (Agree-add (Agree-refl (next * a)) (Agree-sym (Agree-scale q h'))) (
            Agree-trans (Agree-from spread) (
              Agree-trans (Agree-mul (Agree-difference t (q * t') positive) (Agree-refl a))
                (Agree-trans h (Agree-from whole)))))

    inverse_loop-some :
        (fuel r r' t t' v : ℕ)
        → Agree n (t * a) r
        → Agree n (t' * a) r'
        → inverse_loop fuel n r r' t t' ≡ some v
        → Agree n (v * a) 1
    unfolding inverse_loop
    inverse_loop-some zero r r' t t' v h h' e = cc
    inverse_loop-some (suc fuel) r r' t t' v h h' e = elim (Bool-cases (r' == 0)) [
      | inl last ↦ elim (Bool-cases (r == 1)) [
        | inl one ↦
            let found : some t ≡ some v = rw (last, one, inverse_loop) at e in
            let same : t ≡ v = cc in
            Agree-trans (Agree-from (ap (λ (x : ℕ). x * a) (sym same)))
              (Agree-trans h (Agree-from (ground arith)))
        | inr other ↦ cc (rw (last, other, inverse_loop) at e)
      ]
      | inr more ↦
          inverse_loop-some fuel r' (r % r') t' _ v h' (euclid_round r r' t t' h h')
            (rw (more, inverse_loop) at e)
    ]

    -- What ModInverse gives is an inverse.
    pub mod_inverse-some : (v : ℕ) → mod_inverse a n ≡ some v → Agree n (v * a) 1
    unfolding mod_inverse
    mod_inverse-some v e =
        inverse_loop-some (a + 1) n a 0 1 v (record { above = 1; below = 0; equal = omega arith })
          (Agree-from (omega arith)) e
