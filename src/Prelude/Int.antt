-- ===== src/Prelude/Int.antt =====
-- Signed integers over the native numbers, and the wrap-around of a 64-bit one.
use Prim.Native.Nat.{ℕ, suc, ◌+◌, ◌-◌, ◌*◌, ◌%◌, ◌^◌, ◌≤◌, ◌<◌}
use mathlib.Core.Path.{◌≡◌}
use mathlib.Core.Bool.{Bool, true}
use native.Mathlib.Omega.{arith}
use aceryx.Prelude.Tests.{ltb, leb, if◌then◌else◌}

-- `negsuc n` is -(n + 1).
pub data ℤ : Type 0 where
  pos : ℕ → ℤ
  negsuc : ℕ → ℤ

abbrev pub pos_part : ℤ → ℕ
pos_part (pos n) = n
pos_part (negsuc n) = 0

abbrev pub neg_part : ℤ → ℕ
neg_part (pos n) = 0
neg_part (negsuc n) = suc n

-- a - b, as an integer.
abbrev pub sub_ℕ : ℕ → ℕ → ℤ
sub_ℕ a b = if leb b a then pos (a - b) else negsuc (b - a - 1)

infix 50 ◌≤ℤ◌
abbrev pub ◌≤ℤ◌ : ℤ → ℤ → Type 0
a ≤ℤ b = pos_part a + neg_part b ≤ pos_part b + neg_part a

abbrev pub ltb_ℤ : ℤ → ℤ → Bool
ltb_ℤ a b = ltb (pos_part a + neg_part b) (pos_part b + neg_part a)

-- a <= 0
abbrev pub not_positive : ℤ → Bool
not_positive (pos n) = leb n 0
not_positive (negsuc n) = true

-- The int64 that a bit pattern below 2 ^ 64 stands for.
abbrev pub signed64 : ℕ → ℤ
signed64 w = if ltb w (2 ^ 63) then pos w else negsuc (2 ^ 64 - w - 1)

-- The int64 that is left of the product of an int64 and a number.
abbrev pub mul64 : ℤ → ℕ → ℤ
mul64 (pos a) k = signed64 (a * k % 2 ^ 64)
mul64 (negsuc a) k = signed64 ((2 ^ 64 - suc a * k % 2 ^ 64) % 2 ^ 64)

-- A product that fits does not wrap.
pub mul64_fits : (a k : ℕ) → a * k < 2 ^ 63 → mul64 (pos a) k ≡ pos (a * k)
mul64_fits a k h = ground arith
