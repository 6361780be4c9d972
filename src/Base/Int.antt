-- ===== src/Base/Int.antt =====
-- Signed machine integers as integers over the native numbers, and counters of 64 bits.
use Prim.Native.Nat.{ℕ, suc, ◌+◌, ◌-◌, ◌%◌, ◌^◌}
use mathlib.Core.Bool.{Bool, true, false}
use multi_threaded_proxy_ser.Base.Tests.{leb, ltb, if◌then◌else◌}

-- `negsuc n` is -(n + 1).
pub data ℤ : Type 0 where
  pos : ℕ → ℤ
  negsuc : ℕ → ℤ

-- `v >= 0` and `v > 0`.
abbrev pub is_nonneg : ℤ → Bool
is_nonneg (pos n) = true
is_nonneg (negsuc n) = false

abbrev pub is_positive : ℤ → Bool
is_positive (pos n) = ltb 0 n
is_positive (negsuc n) = false

-- The conversion of a value that is not negative to `size_t`; a negative one wraps.
abbrev pub to_size : ℤ → ℕ
to_size (pos n) = n
to_size (negsuc n) = 2 ^ 64 - suc n

-- The integer that a 32-bit pattern stands for.
abbrev pub signed32 : ℕ → ℤ
signed32 w = if ltb w (2 ^ 31) then pos w else negsuc (2 ^ 32 - w - 1)

-- The conversion of a `long` to `int`, which keeps the low 32 bits.
abbrev pub to_int : ℤ → ℤ
to_int (pos n) = signed32 (n % 2 ^ 32)
to_int (negsuc n) = signed32 (2 ^ 32 - 1 - n % 2 ^ 32)

-- `lo <= v && v <= hi` for bounds that are not negative.
abbrev pub within : ℕ → ℕ → ℤ → Bool
within lo hi (pos n) = if leb lo n then leb n hi else false
within lo hi (negsuc n) = false

-- `counter++` on 64 bits.
abbrev pub bump : ℕ → ℕ
bump n = (n + 1) % 2 ^ 64
