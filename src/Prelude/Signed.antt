-- ===== src/Prelude/Signed.antt =====
-- Two's complement: a w-bit signed value is its bit pattern, a number below 2 ^ w.
use pcbu_natives_old.Prelude.Tests.{ltb, if◌then◌else◌}
use Prim.Native.Nat.{ℕ, suc, ◌-◌, ◌^◌}
use mathlib.Core.Bool.{Bool}

-- `negsuc n` is -(n + 1).
pub data ℤ : Type 0 where
  pos : ℕ → ℤ
  negsuc : ℕ → ℤ

abbrev pub word64 : ℕ
word64 = 2 ^ 64

-- The int64_t that a pattern stands for.
abbrev pub signed64 : ℕ → ℤ
signed64 w = if ltb w (2 ^ 63) then pos w else negsuc (2 ^ 64 - w - 1)

-- Tests between an integer and bounds ±n.
abbrev pub above : ℤ → ℕ → Bool
above (pos m) n = ltb n m
above (negsuc m) n = Bool.false

abbrev pub below_neg : ℤ → ℕ → Bool
below_neg (pos m) n = Bool.false
below_neg (negsuc m) n = ltb n (suc m)
