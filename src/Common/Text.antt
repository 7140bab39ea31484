-- ===== src/Common/Text.antt =====
-- Go's strings and byte slices: lists of numbers below 256.
use Prim.Native.Char.{code}
use Prim.Native.Nat.{ℕ, zero, suc, ◌<◌}
use Prim.Native.String.{String}
use mathlib.Core.Path.{◌≡◌, refl}
use mathlib.Core.Logic.{◌↔◌}
use mathlib.Core.Bool.{Bool, true, false, ◌&&◌, ◌||◌}
use mathlib.Core.List.{List, [], ◌∷◌, ◌++◌}
use native.Mathlib.Omega.{arith}
use xns.Common.Lists.{length, replicate}
use xns.Common.Tests.{◌==◌, ltb, if◌then◌else◌}

abbrev pub Bytes : Type 0
Bytes = List ℕ

abbrev pub IsByte : ℕ → Type 0
IsByte b = b < 256

-- The bytes of an ASCII text.
unfoldable pub codes : String → Bytes
codes String.[] = []
codes (String.◌∷◌ c s) = code c ∷ codes s

-- `a == b` on strings.
unfoldable pub same : Bytes → Bytes → Bool
same [] [] = true
same [] (b ∷ bs) = false
same (a ∷ as') [] = false
same (a ∷ as') (b ∷ bs) = a == b && same as' bs

pub same→eq : (a b : Bytes) → same a b ≡ true → a ≡ b
unfolding same
same→eq [] [] h = refl
same→eq [] (b ∷ bs) h = ground arith
same→eq (a ∷ as') [] h = ground arith
same→eq (a ∷ as') (b ∷ bs) h = ground (arith, same→eq as' bs)

pub same_self : (a : Bytes) → same a a ≡ true
unfolding same
same_self [] = refl
same_self (a ∷ as') = ground (arith, same_self as')

pub same_iff : (a b : Bytes) → (same a b ≡ true) ↔ (a ≡ b)
same_iff a b = (same→eq a b, λ e. ground (arith, same_self a))

-- `a < b` on strings, and `bytes.Compare(a, b) < 0`: the order of the first difference.
unfoldable pub less : Bytes → Bytes → Bool
less [] [] = false
less [] (b ∷ bs) = true
less (a ∷ as') [] = false
less (a ∷ as') (b ∷ bs) = ltb a b || (a == b && less as' bs)

pub less_irrefl : (a : Bytes) → less a a ≡ false
unfolding less
less_irrefl [] = refl
less_irrefl (a ∷ as') = ground (arith, less_irrefl as')

pub less_trans : (a b c : Bytes) → less a b ≡ true → less b c ≡ true → less a c ≡ true
unfolding less
less_trans [] [] c h k = ground arith
less_trans [] (b ∷ bs) [] h k = ground arith
less_trans [] (b ∷ bs) (c ∷ cs) h k = refl
less_trans (a ∷ as') [] c h k = ground arith
less_trans (a ∷ as') (b ∷ bs) [] h k = ground arith
less_trans (a ∷ as') (b ∷ bs) (c ∷ cs) h k = ground (arith, less_trans as' bs cs)

-- Of two strings, one is below the other or they are the same.
pub less-total : (a b : Bytes) → less a b ≡ false → less b a ≡ false → a ≡ b
unfolding less
less-total [] [] h k = refl
less-total [] (b ∷ bs) h k = ground arith
less-total (a ∷ as') [] h k = ground arith
less-total (a ∷ as') (b ∷ bs) h k = ground (arith, less-total as' bs)

-- `strings.TrimRight` of a character.
unfoldable pub trim_right : ℕ → Bytes → Bytes
trim_right c [] = []
trim_right c (b ∷ bs) =
    let rest = trim_right c bs in if b == c && length rest == 0 then [] else b ∷ rest

-- Any number of the character at the end makes no difference.
pub trim_right-replicate :
    (c : ℕ) (s : Bytes) (n : ℕ) → trim_right c (s ++ replicate n c) ≡ trim_right c s
unfolding trim_right
trim_right-replicate c [] zero = refl
trim_right-replicate c [] (suc n) = rw (trim_right-replicate c [] n) (ground arith)
trim_right-replicate c (b ∷ s) n = rw (trim_right-replicate c s n) refl
