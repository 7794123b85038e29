-- ===== src/Base/Codes.antt =====
-- The C `int`s that may be negative, and the error codes that the functions return.
use Prim.Native.Nat.{ℕ, zero, suc}
use mathlib.Core.Bool.{Bool, true, false}

-- `negsuc n` is -(n + 1).
pub data ℤ : Type 0 where
  pos : ℕ → ℤ
  negsuc : ℕ → ℤ

-- `x != 0`, as C reads an `int` for a condition.
abbrev pub nonzero : ℤ → Bool
nonzero (pos n) = elim n [ zero ↦ false | suc _ ↦ true ]
nonzero (negsuc n) = true

-- Zero and the `errno` values.
pub data Status : Type 0 where
  ok einval enomem etimedout eshutdown esrch enoent : Status

abbrev pub is_ok : Status → Bool
is_ok ok = true
is_ok _ = false

-- INT_MAX for a 32-bit `int`.
abbrev pub int_max : ℕ
int_max = 2_147_483_647
