-- ===== src/Common/Int.antt =====
-- Go's `int`: an integer of 64 bits.
use Prim.Native.Nat.{ℕ, ◌-◌, ◌%◌, ◌^◌}
use xns.Common.Tests.{ltb, if◌then◌else◌}

-- `negsuc n` is -(n + 1).
pub data ℤ : Type 0 where
  pos : ℕ → ℤ
  negsuc : ℕ → ℤ

-- The integer that a result stands for after it wraps around.
abbrev pub wrap : ℕ → ℤ
wrap n = let w = n % 2 ^ 64 in if ltb w (2 ^ 63) then pos w else negsuc (2 ^ 64 - 1 - w)
