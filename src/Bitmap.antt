-- ===== src/Bitmap.antt =====
-- NachOS-4.0/code/lib/bitmap.cc: class `Bitmap`, an array of bits kept in an array of 32-bit words.
--
-- `none` is a failed ASSERT. Bit numbers are native numbers: the callers' negative `int`s fail the
-- ASSERT that `which` is in range, as numbers past the end do.
pub mod Bits
pub mod Allocation
pub mod Construction
use hcmus_csc10007_operating.Common.{
  ℕ, zero, suc, ◌+◌, ◌-◌, ◌/◌, ◌%◌, Bool, true, false, not, Option, none, some, List, ltb,
  if◌then◌else◌, bit_and, bit_or, get_or, set, replicate,
}
use hcmus_csc10007_operating.Common.Word.{shl32, not32, truthy}

pub record Bitmap : Type 0 where
  pub num_bits : ℕ
  pub map : List ℕ

abbrev pub bits_in_word : ℕ
bits_in_word = 32

abbrev pub div_round_up : ℕ → ℕ → ℕ
div_round_up n s = if truthy (n % s) then n / s + 1 else n / s

-- `1 << (which % BitsInWord)`.
abbrev pub mask : ℕ → ℕ
mask which = shl32 1 (which % bits_in_word)

abbrev pub word_of : Bitmap → ℕ → ℕ
word_of b which = get_or b.map (which / bits_in_word) 0

-- The condition of `Test`.
abbrev pub is_set : Bitmap → ℕ → Bool
is_set b which = truthy (bit_and (word_of b which) (mask which))

unfoldable pub test : ℕ → Bitmap → Option Bool
test which b = if ltb which b.num_bits then some (is_set b which) else none

abbrev pub with_word : Bitmap → ℕ → ℕ → Bitmap
with_word b which w = record b { map = set b.map (which / bits_in_word) w }

-- The ASSERT that ends `Mark` and `Clear`: `Test(which)` is to be `expected`.
abbrev pub assert_test : ℕ → Bool → Bitmap → Option Bitmap
assert_test which true b = elim (test which b) [ some true ↦ some b | _ ↦ none ]
assert_test which false b = elim (test which b) [ some false ↦ some b | _ ↦ none ]

unfoldable pub mark : ℕ → Bitmap → Option Bitmap
mark which b =
    if ltb which b.num_bits
    then assert_test which true (with_word b which (bit_or (word_of b which) (mask which)))
    else none

unfoldable pub clear : ℕ → Bitmap → Option Bitmap
clear which b =
    if ltb which b.num_bits
    then assert_test which false
        (with_word b which (bit_and (word_of b which) (not32 (mask which))))
    else none

-- The second loop of the constructor, from bit `i`.
unfoldable pub clear_from : ℕ → ℕ → Bitmap → Option Bitmap
clear_from zero i b = some b
clear_from (suc k) i b = elim (clear i b) [ some b' ↦ clear_from k (suc i) b' | none ↦ none ]

unfoldable pub new_bitmap : ℕ → Option Bitmap
new_bitmap num_items =
    if ltb 0 num_items
    then clear_from num_items 0
        (record { num_bits = num_items; map = replicate (div_round_up num_items bits_in_word) 0 })
    else none

-- The loop of `FindAndSet` from bit `i`, with `k` bits left.
unfoldable pub find_from : ℕ → ℕ → Bitmap → Option (Option ℕ × Bitmap)
find_from zero i b = some (none, b)
find_from (suc k) i b = elim (test i b) [
  | some false ↦ elim (mark i b) [ some b' ↦ some (some i, b') | none ↦ none ]
  | some true ↦ find_from k (suc i) b
  | none ↦ none
]

-- Its number is `none` where the source returns -1.
unfoldable pub find_and_set : Bitmap → Option (Option ℕ × Bitmap)
find_and_set b = find_from b.num_bits 0 b

unfoldable pub count_from : ℕ → ℕ → ℕ → Bitmap → Option ℕ
count_from zero i count b = some count
count_from (suc k) i count b = elim (test i b) [
  | some false ↦ count_from k (suc i) (count + 1) b
  | some true ↦ count_from k (suc i) count b
  | none ↦ none
]

unfoldable pub num_clear : Bitmap → Option ℕ
num_clear b = count_from b.num_bits 0 0 b
