-- ===== src/Base/Words.antt =====
-- Machine words as native numbers. An `int` is its 32-bit pattern: a pattern of 2 ^ 31 or more
-- stands for a negative number.
use Prim.Native.Nat.{
  ℕ, zero, suc, ◌-◌, ◌/◌, ◌%◌, ◌^◌, ◌<◌, ◌≤◌, min, bit_and, digits, bit_and-bitwise,
}
use mathlib.Core.Path.{◌≡◌}
use mathlib.Core.Bool.{Bool, ◌&&◌}
use mathlib.Core.List.{List, [], ◌∷◌}
use native.Mathlib.Omega.{arith}
use usbip.Base.Tests.{ltb, leb}

abbrev pub u32 : ℕ → ℕ
u32 n = n % 2 ^ 32

-- The `int` -n.
abbrev pub neg : ℕ → ℕ
neg n = 2 ^ 32 - n

-- `i < 0` and `i > 0` at an `int`.
abbrev pub is_negative : ℕ → Bool
is_negative i = leb (2 ^ 31) i

abbrev pub is_positive : ℕ → Bool
is_positive i = ltb 0 i && ltb i (2 ^ 31)

-- The four bytes of a word in network order, and the word that four bytes stand for.
abbrev pub be_bytes : ℕ → List ℕ
be_bytes x = x / 2 ^ 24 % 256 ∷ x / 2 ^ 16 % 256 ∷ x / 2 ^ 8 % 256 ∷ x % 256 ∷ []

-- Error numbers of Linux (include/uapi/asm-generic/errno*.h).
abbrev pub enoent : ℕ
enoent = 2

abbrev pub eagain : ℕ
eagain = 11

abbrev pub enomem : ℕ
enomem = 12

abbrev pub enodev : ℕ
enodev = 19

abbrev pub einval : ℕ
einval = 22

abbrev pub epipe : ℕ
epipe = 32

abbrev pub eshutdown : ℕ
eshutdown = 108

abbrev pub etimedout : ℕ
etimedout = 110

abbrev pub econnreset : ℕ
econnreset = 104

abbrev pub einprogress : ℕ
einprogress = 115

pub u32-eq : (x : ℕ) → x < 2 ^ 32 → u32 x ≡ x
u32-eq x h = omega arith

-- Masking a word does not make it larger.
digits_le : (n a b : ℕ) → digits (λ b. zero) min n a b ≤ a
digits_le zero zero b = omega arith
digits_le zero (suc a) b = omega arith
digits_le (suc n) zero b = omega arith
digits_le (suc n) (suc a) b = omega (arith, digits_le n (suc a / 2) (b / 2))

pub bit_and_le : (a b : ℕ) → bit_and a b ≤ a
bit_and_le a b = omega (arith, bit_and-bitwise a b, digits_le a a b)
