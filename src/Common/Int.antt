-- ===== src/Common/Int.antt =====
-- Go's `int64`: a signed value, and arithmetic that wraps around at 2^64.
use Prim.Native.Nat.{ℕ, zero, suc, ◌+◌, ◌-◌, ◌*◌, ◌/◌, ◌%◌, ◌^◌}
use mathlib.Core.Bool.{Bool, true, false}
use nasty_csi.Common.Tests.{ltb, eqb, if◌then◌else◌}

-- `negsuc n` is -(n + 1).
pub data ℤ : Type 0 where
  pos : ℕ → ℤ
  negsuc : ℕ → ℤ

abbrev pub is_negative : ℤ → Bool
is_negative (pos n) = false
is_negative (negsuc n) = true

-- a < b
abbrev pub ltz : ℤ → ℤ → Bool
ltz (pos a) (pos b) = ltb a b
ltz (pos a) (negsuc b) = false
ltz (negsuc a) (pos b) = true
ltz (negsuc a) (negsuc b) = ltb b a

abbrev pub eqz : ℤ → ℤ → Bool
eqz (pos a) (pos b) = eqb a b
eqz (pos a) (negsuc b) = false
eqz (negsuc a) (pos b) = false
eqz (negsuc a) (negsuc b) = eqb a b

abbrev pub is_positive : ℤ → Bool
is_positive a = ltz (pos 0) a

abbrev pub word : ℕ
word = 2 ^ 64

abbrev pub max_int64 : ℕ
max_int64 = 2 ^ 63 - 1

-- The bit pattern of a value, and the value of a bit pattern.
abbrev pub to_bits : ℤ → ℕ
to_bits (pos n) = n % word
to_bits (negsuc n) = word - 1 - n % word

abbrev pub of_bits : ℕ → ℤ
of_bits b = if ltb b (2 ^ 63) then pos b else negsuc (word - 1 - b)

unfoldable pub add64 : ℤ → ℤ → ℤ
add64 a b = of_bits ((to_bits a + to_bits b) % word)

unfoldable pub sub64 : ℤ → ℤ → ℤ
sub64 a b = of_bits ((to_bits a + word - to_bits b) % word)

unfoldable pub mul64 : ℤ → ℤ → ℤ
mul64 a b = of_bits (to_bits a * to_bits b % word)

abbrev pub neg : ℕ → ℤ
neg zero = pos 0
neg (suc n) = negsuc n

-- Division by a positive number, which truncates towards zero.
unfoldable pub quot64 : ℤ → ℕ → ℤ
quot64 (pos n) d = pos (n / d)
quot64 (negsuc n) d = neg (suc n / d)
