-- ===== src/Prelude/Int.antt =====
-- Signed integers over the native numbers: the status that a receive returns, and temperatures.
use Prim.Native.Nat.{ℕ, ◌-◌, ◌^◌}
use aelebdwif01_dongle.Prelude.Tests.{ltb, if◌then◌else◌}

-- `negsuc n` is -(n + 1).
pub data ℤ : Type 0 where
  pos : ℕ → ℤ
  negsuc : ℕ → ℤ

-- The value of a 16-bit pattern as a C `short`.
unfoldable pub signed16 : ℕ → ℤ
signed16 w = if ltb w (2 ^ 15) then pos w else negsuc (2 ^ 16 - w - 1)
