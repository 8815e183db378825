-- ===== src/Base/Int.antt =====
-- Go's signed integers (`int`, `int64`) as integers; `negsuc n` is -(n + 1).
use Prim.Native.Nat.{ℕ, zero, suc, ◌+◌, ◌-◌, ◌^◌, ◌≤◌, ◌<◌}
use mathlib.Core.Path.{◌≡◌}
use mathlib.Core.Bool.{Bool}
use native.Mathlib.Omega.{arith}
use mizuflow.Base.Tests.{ltb, leb, ◌==◌, if◌then◌else◌}

pub data ℤ : Type 0 where
  pos : ℕ → ℤ
  negsuc : ℕ → ℤ

abbrev pub pos_part : ℤ → ℕ
pos_part (pos n) = n
pos_part (negsuc n) = 0

abbrev pub neg_part : ℤ → ℕ
neg_part (pos n) = 0
neg_part (negsuc n) = suc n

infix 50 ◌≤ℤ◌ ◌<ℤ◌
abbrev pub ◌≤ℤ◌ : ℤ → ℤ → Type 0
a ≤ℤ b = pos_part a + neg_part b ≤ pos_part b + neg_part a

abbrev pub ◌<ℤ◌ : ℤ → ℤ → Type 0
a <ℤ b = pos_part a + neg_part b < pos_part b + neg_part a

abbrev pub ltb_ℤ : ℤ → ℤ → Bool
ltb_ℤ a b = ltb (pos_part a + neg_part b) (pos_part b + neg_part a)

abbrev pub leb_ℤ : ℤ → ℤ → Bool
leb_ℤ a b = leb (pos_part a + neg_part b) (pos_part b + neg_part a)

-- `x++` on a 64-bit integer: the largest value wraps round to the smallest.
unfoldable pub inc_ℤ : ℤ → ℤ
inc_ℤ (pos n) = if n == 2 ^ 63 - 1 then negsuc (2 ^ 63 - 1) else pos (n + 1)
inc_ℤ (negsuc zero) = pos 0
inc_ℤ (negsuc (suc n)) = negsuc n

-- Below the largest value, `x++` is greater than `x`, and nothing lies between.
pub inc_ℤ_lem :
    (a : ℤ)
    → a <ℤ pos (2 ^ 63 - 1)
    → (pos_part (inc_ℤ a) + neg_part a ≡ pos_part a + neg_part (inc_ℤ a) + 1)
unfolding inc_ℤ
inc_ℤ_lem (pos n) h = ground arith
inc_ℤ_lem (negsuc zero) h = ground arith
inc_ℤ_lem (negsuc (suc n)) h = ground arith
