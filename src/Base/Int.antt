-- ===== src/Base/Int.antt =====
-- Go's `int` and other signed values, as integers over the native numbers.
use go_syslog.Base.{◌∙◌, ap, arith, ◌≡◌}
use Prim.Native.Nat.{◌-◌, ◌≤◌, ◌^◌, ◌%◌, ℕ, suc, ◌+◌}
use mathlib.Core.Bool.{Bool}
use go_syslog.Base.Tests.{if◌then◌else◌, ltb}

-- `negsuc n` is -(n + 1).
pub data ℤ : Type 0 where
  pos : ℕ → ℤ
  negsuc : ℕ → ℤ

abbrev pub pos_part : ℤ → ℕ
pos_part (pos n) = n
pos_part (negsuc n) = 0

abbrev pub neg_part : ℤ → ℕ
neg_part (pos n) = 0
neg_part (negsuc n) = suc n

-- The test `a < b`.
abbrev pub ltb_ℤ : ℤ → ℤ → Bool
ltb_ℤ a b = ltb (pos_part a + neg_part b) (pos_part b + neg_part a)

-- The `int` with a given 64-bit pattern.
abbrev signed : ℕ → ℤ
signed n = if ltb n (2 ^ 63) then pos n else negsuc (2 ^ 64 - 1 - n)

-- What an `int` holds of a number: its low 64 bits.
abbrev pub to_int : ℕ → ℤ
to_int n = signed (n % 2 ^ 64)

-- The bits of an `int`.
abbrev pub bits : ℤ → ℕ
bits (pos n) = n
bits (negsuc n) = 2 ^ 64 - 1 - n

signed-pos : (n : ℕ) → n ≤ 2 ^ 63 - 1 → signed n ≡ pos n
signed-pos n h = ground arith

pub to_int-pos : (n : ℕ) → n ≤ 2 ^ 63 - 1 → to_int n ≡ pos n
to_int-pos n h = let e : n % 2 ^ 64 ≡ n = omega arith in ap signed e ∙ signed-pos n h

pub to_int-mod : (n : ℕ) → to_int (n % 2 ^ 64) ≡ to_int n
to_int-mod n = let e : n % 2 ^ 64 % 2 ^ 64 ≡ n % 2 ^ 64 = omega arith in ap signed e
