-- ===== src/Prelude/Int.antt =====
-- Go's `int`: an integer. Where a sum can leave the 64 bits, `wrap` brings it back.
use Prim.Native.Nat.{ℕ, suc, ◌+◌, ◌-◌, ◌≤◌, ◌%◌, ◌^◌, ◌<◌}
use mathlib.Core.Bool.{Bool}
use simis.Prelude.Tests.{ltb, leb, if◌then◌else◌}

-- `negsuc n` is -(n + 1).
pub data ℤ : Type 0 where
  pos : ℕ → ℤ
  negsuc : ℕ → ℤ

abbrev pub pos_part : ℤ → ℕ
pos_part (pos n) = n
pos_part (negsuc n) = 0

abbrev pub neg_part : ℤ → ℕ
neg_part (pos n) = 0
neg_part (negsuc n) = suc n

-- a - b, as an integer.
abbrev pub sub_ℕ : ℕ → ℕ → ℤ
sub_ℕ a b = if leb b a then pos (a - b) else negsuc (b - a - 1)

infixl 65 ◌+ℤ◌
abbrev pub ◌+ℤ◌ : ℤ → ℤ → ℤ
a +ℤ b = sub_ℕ (pos_part a + pos_part b) (neg_part a + neg_part b)

infixl 65 ◌-ℤ◌
abbrev pub ◌-ℤ◌ : ℤ → ℤ → ℤ
a -ℤ b = sub_ℕ (pos_part a + neg_part b) (neg_part a + pos_part b)

abbrev pub ltb_ℤ : ℤ → ℤ → Bool
ltb_ℤ a b = ltb (pos_part a + neg_part b) (pos_part b + neg_part a)

abbrev pub leb_ℤ : ℤ → ℤ → Bool
leb_ℤ a b = leb (pos_part a + neg_part b) (pos_part b + neg_part a)

-- Go's `min` and `max`
abbrev pub min_ℤ : ℤ → ℤ → ℤ
min_ℤ a b = if ltb_ℤ b a then b else a

abbrev pub max_ℤ : ℤ → ℤ → ℤ
max_ℤ a b = if ltb_ℤ a b then b else a

-- The `int` with the bit pattern of `n`, a number below 2 ^ 64.
abbrev pub of_bits : ℕ → ℤ
of_bits n = if ltb n (2 ^ 63) then pos n else negsuc (2 ^ 64 - 1 - n)

-- What 64 bits leave of an integer: it modulo 2 ^ 64, in the range of `int`.
abbrev pub wrap : ℤ → ℤ
wrap (pos n) = of_bits (n % 2 ^ 64)
wrap (negsuc n) = of_bits (2 ^ 64 - 1 - n % 2 ^ 64)

abbrev pub IsInt : ℤ → Type 0
IsInt a = (pos_part a < 2 ^ 63) × (neg_part a ≤ 2 ^ 63)
