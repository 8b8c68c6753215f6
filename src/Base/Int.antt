-- ===== src/Base/Int.antt =====
-- Signed integers over the native numbers, for the fields that Python lets be negative.
use Prim.Native.Nat.{ℕ, ◌+◌}
use mathlib.Core.Bool.{Bool}
use ppt_video_workbench_v.Base.Tests.{leb}

-- `negsuc n` is -(n + 1).
pub data ℤ : Type 0 where
  pos : ℕ → ℤ
  negsuc : ℕ → ℤ

-- `-bound <= z <= bound`
abbrev pub within : ℕ → ℤ → Bool
within bound (pos n) = leb n bound
within bound (negsuc n) = leb (n + 1) bound
