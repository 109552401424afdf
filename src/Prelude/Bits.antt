-- ===== src/Prelude/Bits.antt =====
-- Single bits of a word, as arithmetic.
use Prim.Native.Nat.{ℕ, zero, suc, ◌+◌, ◌-◌, ◌*◌, ◌/◌, ◌%◌, ◌<◌}
use mathlib.Core.Path.{◌≡◌, refl}
use mathlib.Core.Logic.{◌≢◌}
use mathlib.Core.Bool.{Bool, true, false}
use native.Mathlib.Omega.{arith}
use aelebdwif01_dongle.Prelude.Tests.{◌==◌}

-- `(x & (1 << k)) != 0`
abbrev pub test_bit : ℕ → ℕ → Bool
test_bit zero x = x % 2 == 1
test_bit (suc k) x = test_bit k (x / 2)

-- `x & ~(1 << k)`
abbrev pub clear_bit : ℕ → ℕ → ℕ
clear_bit zero x = x - x % 2
clear_bit (suc k) x = clear_bit k (x / 2) * 2 + x % 2

-- `x | (1 << k)`
abbrev pub set_bit : ℕ → ℕ → ℕ
set_bit zero x = x - x % 2 + 1
set_bit (suc k) x = set_bit k (x / 2) * 2 + x % 2

half-double : (q r : ℕ) → r < 2 → (q * 2 + r) / 2 ≡ q
half-double q r h = omega arith

pub test_bit-clear_self : (k x : ℕ) → test_bit k (clear_bit k x) ≡ false
test_bit-clear_self zero x = ground arith
test_bit-clear_self (suc k) x =
    rw (half-double (clear_bit k (x / 2)) (x % 2) (omega arith)) (test_bit-clear_self k (x / 2))

pub test_bit-clear_ne : (k j x : ℕ) → k ≢ j → test_bit j (clear_bit k x) ≡ test_bit j x
test_bit-clear_ne zero zero x h = absurd (h refl)
test_bit-clear_ne zero (suc j) x h = let e : (x - x % 2) / 2 ≡ x / 2 = omega arith in rw e
test_bit-clear_ne (suc k) zero x h = ground arith
test_bit-clear_ne (suc k) (suc j) x h =
    rw (half-double (clear_bit k (x / 2)) (x % 2) (omega arith))
      (test_bit-clear_ne k j (x / 2) (omega arith))

pub test_bit-set_self : (k x : ℕ) → test_bit k (set_bit k x) ≡ true
test_bit-set_self zero x = ground arith
test_bit-set_self (suc k) x =
    rw (half-double (set_bit k (x / 2)) (x % 2) (omega arith)) (test_bit-set_self k (x / 2))

pub test_bit-set_ne : (k j x : ℕ) → k ≢ j → test_bit j (set_bit k x) ≡ test_bit j x
test_bit-set_ne zero zero x h = absurd (h refl)
test_bit-set_ne zero (suc j) x h = let e : (x - x % 2 + 1) / 2 ≡ x / 2 = omega arith in rw e
test_bit-set_ne (suc k) zero x h = ground arith
test_bit-set_ne (suc k) (suc j) x h =
    rw (half-double (set_bit k (x / 2)) (x % 2) (omega arith))
      (test_bit-set_ne k j (x / 2) (omega arith))
