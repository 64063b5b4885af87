-- ===== src/Prelude/Int.antt =====
-- Signed numbers over the native ones, as far as durations need them.
use Prim.Native.Nat.{ℕ}
use mathlib.Core.Bool.{Bool, false}
use packer_plugin_sdk.Prelude.Tests.{ltb}

-- `negsuc n` is -(n + 1).
pub data ℤ : Type 0 where
  pos : ℕ → ℤ
  negsuc : ℕ → ℤ

abbrev pub is_positive : ℤ → Bool
is_positive (pos n) = ltb 0 n
is_positive (negsuc n) = false
