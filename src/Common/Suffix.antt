-- ===== src/Common/Suffix.antt =====
-- What stands in a list from a position on: `drop i xs ≡ rest`.
use Prim.Native.Nat.{ℕ, zero, suc, ◌+◌, ◌≤◌, ◌<◌}
use mathlib.Core.Path.{◌≡◌, ap, ◌∙◌}
use mathlib.Core.List.{List, [], ◌∷◌, ◌++◌}
use native.Mathlib.Omega.{arith}
use xns.Common.Lists.{length, drop, length-drop, drop-append_length}
use xns.Common.Outcome.{ok, index}

module _ {ℓ} {A : Type ℓ} where
  pub index-at :
      (xs : List A) (i : ℕ) (x : A) (rest : List A) → drop i xs ≡ x ∷ rest → index xs i ≡ ok x
  unfolding index
  index-at [] zero x rest h = cc
  index-at [] (suc i) x rest h = cc
  index-at (y ∷ xs) zero x rest h = cc
  index-at (y ∷ xs) (suc i) x rest h = index-at xs i x rest h

  pub drop-drop : (i n : ℕ) (xs : List A) → drop (i + n) xs ≡ drop n (drop i xs)
  drop-drop zero n xs = let e : zero + n ≡ n = omega arith in rw e
  drop-drop (suc i) zero [] = let e : suc i + zero ≡ suc i = omega arith in rw e
  drop-drop (suc i) (suc n) [] = let e : suc i + suc n ≡ suc (i + suc n) = omega arith in rw e
  drop-drop (suc i) n (x ∷ xs) =
      let e : suc i + n ≡ suc (i + n) = omega arith in rw e (drop-drop i n xs)

  pub drop-next :
      (xs : List A) (i : ℕ) (x : A) (rest : List A) → drop i xs ≡ x ∷ rest → drop (i + 1) xs ≡ rest
  drop-next xs i x rest h = drop-drop i 1 xs ∙ ap (drop 1) h

  pub drop-skip :
      (xs : List A) (i : ℕ) (front rest : List A)
      → drop i xs ≡ front ++ rest
      → drop (i + length front) xs ≡ rest
  drop-skip xs i front rest h =
      drop-drop i (length front) xs ∙ ap (drop (length front)) h ∙ drop-append_length front rest

  pub length-at :
      (xs : List A) (i : ℕ) (rest : List A)
      → drop i xs ≡ rest
      → i ≤ length xs
      → length xs ≡ i + length rest
  length-at xs i rest h le = omega (arith, ap length h, length-drop i xs)

  pub lt-length_at :
      (xs : List A) (i : ℕ) (x : A) (rest : List A) → drop i xs ≡ x ∷ rest → i < length xs
  lt-length_at xs i x rest h =
      let e : length (drop i xs) ≡ suc (length rest) = ap length h in
      omega (arith, e, length-drop i xs)
