-- ===== src/Common/Word.antt =====
-- The simulated machine's 32-bit words, as bit patterns below `2 ^ 32`, with the wrap-around of
-- the C operators on `int` and `unsigned int` of the host.
use Prim.Native.Nat.{ℕ, ◌+◌, ◌-◌, ◌*◌, ◌/◌, ◌%◌, ◌^◌, ◌<◌, bit_and, bit_xor}
use mathlib.Core.Path.{◌≡◌}
use mathlib.Core.Bool.{Bool, not}
use native.Mathlib.Omega.{arith}
use hcmus_csc10007_operating.Common.Tests.{ltb, leb, xor, ◌==◌, if◌then◌else◌}
use hcmus_csc10007_operating.Common.Bits.{and-pow, bit-xor, bit_low, bit_high}
use hcmus_csc10007_operating.Common.Int.{ℤ, pos, negsuc, ltb_ℤ}

abbrev pub word_mod : ℕ
word_mod = 2 ^ 32

abbrev pub sign_bit : ℕ
sign_bit = 0x80000000

-- The `int` that a pattern stands for.
abbrev pub signed : ℕ → ℤ
signed w = if ltb w sign_bit then pos w else negsuc (word_mod - w - 1)

abbrev pub add32 : ℕ → ℕ → ℕ
add32 a b = (a + b) % word_mod

-- `-` on ℕ is truncated, so the modulus is added first.
abbrev pub sub32 : ℕ → ℕ → ℕ
sub32 a b = (a + word_mod - b) % word_mod

abbrev pub not32 : ℕ → ℕ
not32 a = bit_xor a (word_mod - 1)

abbrev pub shl32 : ℕ → ℕ → ℕ
shl32 a s = a * 2 ^ s % word_mod

-- `>>` on an `int` copies the sign bit in.
abbrev pub sar32 : ℕ → ℕ → ℕ
sar32 a s = if ltb a sign_bit then a / 2 ^ s else word_mod - 1 - (word_mod - 1 - a) / 2 ^ s

-- `>>` on an `unsigned int`.
abbrev pub shr32 : ℕ → ℕ → ℕ
shr32 a s = a / 2 ^ s

-- A C value used as a condition.
abbrev pub truthy : ℕ → Bool
truthy x = not (x == 0)

abbrev pub lt_signed : ℕ → ℕ → Bool
lt_signed a b = ltb_ℤ (signed a) (signed b)

-- `x & SIGN_BIT` tells the patterns of the negative numbers.
pub sign_test : (x : ℕ) → x < word_mod → truthy (bit_and x sign_bit) ≡ leb sign_bit x
sign_test x h = ground (arith, and-pow x 31, bit_low 31 x, bit_high 31 x)

-- `(x ^ y) & SIGN_BIT` tells whether the signs differ.
pub sign_differs :
    (x y : ℕ)
    → x < word_mod
    → y < word_mod
    → truthy (bit_and (bit_xor x y) sign_bit) ≡ xor (leb sign_bit x) (leb sign_bit y)
sign_differs x y h k = ground (
  arith,
  and-pow (bit_xor x y) 31,
  bit-xor x y 31,
  bit_low 31 x,
  bit_high 31 x,
  bit_low 31 y,
  bit_high 31 y,
)
