-- ===== src/Common/Counting.antt =====
-- A decidable set of numbers below a bound that shrinks step by step: it rests within as many steps.
use xns.Common.Tests.{if◌then◌else◌, Bool-cases}
use Prim.Native.Nat.{ℕ, zero, suc, ◌+◌, ◌≤◌, ◌<◌}
use mathlib.Core.Path.{◌≡◌, refl, sym, ◌∙◌}
use mathlib.Core.Logic.{◌⊎◌, inl, inr}
use mathlib.Core.Bool.{Bool, true, false}
use native.Mathlib.Omega.{arith}

-- How many numbers below a bound are in a set.
unfoldable count : (ℕ → Bool) → ℕ → ℕ
count p zero = 0
count p (suc n) = count p n + (if p n then 1 else 0)

abbrev MatchBelow : (ℕ → Bool) → (ℕ → Bool) → ℕ → Type 0
MatchBelow p q n = (i : ℕ) → i < n → p i ≡ q i

same_next : (p q : ℕ → Bool) (n : ℕ) → MatchBelow p q n → p n ≡ q n → MatchBelow p q (suc n)
same_next p q n below at i less =
    let split : (i < n) ⊎ (i ≡ n) = omega arith in
    elim split [ inl before ↦ below i before | inr e ↦ rw e at ]

-- A subset has less members, or the same.
fewer :
    (p q : ℕ → Bool) (n : ℕ)
    → ((i : ℕ) → q i ≡ true → p i ≡ true)
    → (count q n < count p n) ⊎ ((count q n ≡ count p n) × MatchBelow q p n)
unfolding count
fewer p q zero sub = inr (refl, λ i less. ground (arith, less))
fewer p q (suc n) sub = elim (Bool-cases (q n)) [
  | inl a ↦
      let b = sub n a in
      elim (fewer p q n sub) [
        | inl less ↦ inl (rw (a, b) (omega arith))
        | inr found ↦ inr (rw (a, b) (omega (arith, found.0)), same_next q p n found.1 (a ∙ sym b))
      ]
  | inr a ↦ elim (Bool-cases (p n)) [
    | inl b ↦ elim (fewer p q n sub) [
      | inl less ↦ inl (rw (a, b) (omega arith))
      | inr found ↦ inl (rw (a, b) (omega (arith, found.0)))
    ]
    | inr b ↦ elim (fewer p q n sub) [
      | inl less ↦ inl (rw (a, b) (omega arith))
      | inr found ↦ inr (rw (a, b) (omega (arith, found.0)), same_next q p n found.1 (a ∙ sym b))
    ]
  ]
]

count_bound : (p : ℕ → Bool) (n : ℕ) → count p n ≤ n
unfolding count
count_bound p zero = omega arith
count_bound p (suc n) = elim (Bool-cases (p n)) [
  | inl a ↦ let ih = count_bound p n in rw a (omega arith)
  | inr a ↦ let ih = count_bound p n in rw a (omega arith)
]

count_zero : (p : ℕ → Bool) (n : ℕ) → count p n ≡ 0 → MatchBelow p (λ _. false) n
unfolding count
count_zero p zero e = λ i less. ground (arith, less)
count_zero p (suc n) e = elim (Bool-cases (p n)) [
  | inl a ↦ let e' : count p n + 1 ≡ 0 = rw a at e in λ i less. ground (arith, e')
  | inr a ↦
      let rest : count p n + 0 ≡ 0 = rw a at e in
      same_next p (λ _. false) n (count_zero p n (omega arith)) a
]

module _ (p : ℕ → ℕ → Bool) (size : ℕ) (less : (n i : ℕ) → p (suc n) i ≡ true → p n i ≡ true)
    (rests : (n : ℕ)
      → MatchBelow (p (suc n)) (p n) size
      → MatchBelow (p (suc (suc n))) (p (suc n)) size) where
  count_down : (n : ℕ) → (count (p n) size + n ≤ size) ⊎ MatchBelow (p (suc n)) (p n) size
  count_down zero = inl (omega (arith, count_bound (p zero) size))
  count_down (suc n) = elim (count_down n) [
    | inr same ↦ inr (rests n same)
    | inl some_left ↦ elim (fewer (p n) (p (suc n)) size (less n)) [
      | inl c ↦ inl (omega arith)
      | inr (_, same) ↦ inr (rests n same)
    ]
  ]

  empty_stays : (n i : ℕ) → p n i ≡ false → p (suc n) i ≡ false
  empty_stays n i h = elim (Bool-cases (p (suc n) i)) [ inl a ↦ cc (less n i a) | inr a ↦ a ]

  at_rest : MatchBelow (p (suc size)) (p size) size
  at_rest = elim (count_down size) [
    | inr same ↦ same
    | inl none_left ↦ λ i below.
        let none_there = count_zero (p size) size (omega arith) i below in
        empty_stays size i none_there ∙ sym none_there
  ]

  rests_on : (more : ℕ) → MatchBelow (p (suc (more + size))) (p (more + size)) size
  rests_on zero = let e : 0 + size ≡ size = omega arith in rw e at_rest
  rests_on (suc more) =
      let e : suc more + size ≡ suc (more + size) = omega arith in
      rw e (rests (more + size) (rests_on more))

  -- After `size` steps the set stays what it is.
  pub stays_same : (more : ℕ) → MatchBelow (p (more + size)) (p size) size
  stays_same zero i below = let e : 0 + size ≡ size = omega arith in rw e
  stays_same (suc more) i below =
      let e : suc more + size ≡ suc (more + size) = omega arith in
      rw e (rests_on more i below ∙ stays_same more i below)
