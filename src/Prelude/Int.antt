-- ===== src/Prelude/Int.antt =====
-- Signed integers that stay small, and the wrap-around of 64-bit words.
use Prim.Native.Nat.{ℕ, ◌+◌, ◌-◌, ◌%◌, ◌^◌}
use mathlib.Core.Path.{◌≡◌}
use remote_juggler.Prelude.Tests.{leb, if◌then◌else◌}
use native.Mathlib.Omega.{arith}

-- `negsuc n` is -(n + 1).
pub data ℤ : Type 0 where
  pos : ℕ → ℤ
  negsuc : ℕ → ℤ

-- The modulus of `int` and `int64`, whose values are kept as 64-bit patterns.
abbrev pub word : ℕ
word = 2 ^ 64

-- `a + b` on 64-bit patterns. Addition of signed and of unsigned words gives the same bits.
abbrev pub add64 : ℕ → ℕ → ℕ
add64 a b = (a + b) % word

pub add64_assoc : (a b c : ℕ) → add64 (add64 a b) c ≡ add64 a (add64 b c)
add64_assoc a b c = omega arith

pub add64_comm : (a b : ℕ) → add64 a b ≡ add64 b a
add64_comm a b = omega arith

-- The 64-bit pattern of an integer.
abbrev pub bits : ℤ → ℕ
bits (pos n) = n % word
bits (negsuc n) = word - 1 - n % word

-- a - b, as an integer.
abbrev pub sub_ℕ : ℕ → ℕ → ℤ
sub_ℕ a b = if leb b a then pos (a - b) else negsuc (b - a - 1)
