-- ===== src/Base/Int.antt =====
-- C's `int`, where the library takes an index of that type.
use Prim.Native.Nat.{ℕ, zero, suc, ◌-◌, ◌%◌}
use mathlib.Core.Bool.{◌||◌}
use mathlib.Core.Option.{Option, none, some}
use libpgen.Base.Tests.{ltb, if◌then◌else◌}

-- `negsuc n` is -(n + 1).
pub data ℤ : Type 0 where
  pos : ℕ → ℤ
  negsuc : ℕ → ℤ

-- `if (index < 1 || n < index) throw ..`: the place `index - 1`, or nothing.
abbrev pub place : ℕ → ℤ → Option ℕ
place n (pos index) = if ltb index 1 || ltb n index then none else some (index - 1)
place n (negsuc _) = none

-- `-n`
abbrev pub negated : ℕ → ℤ
negated zero = pos 0
negated (suc n) = negsuc n

-- `uint16_t` of an `int`, which wraps.
abbrev pub int_u16 : ℤ → ℕ
int_u16 (pos n) = n % 65536
int_u16 (negsuc n) = 65535 - n % 65536
