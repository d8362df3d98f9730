-- ===== src/Machine/Mult.antt =====
-- `Mult` of NachOS-4.0/code/machine/mipssim.cc: the R2000 multiplication, one bit of `a` at a time.
pub mod Product
pub mod Signed
use hcmus_csc10007_operating.Common.{
  ℕ, zero, suc, ◌+◌, ◌-◌, ◌%◌, Bool, true, false, not, ◌&&◌, ◌||◌, ◌==◌, ltb, if◌then◌else◌,
  bit_and, bit_or,
}
use hcmus_csc10007_operating.Common.Word.{word_mod, sign_bit, add32, shl32, sar32, not32, truthy}

-- The unsigned variables `hi` and `lo`.
pub record Pair : Type 0 where
  pub hi : ℕ
  pub lo : ℕ

-- `lo += bLo; if (lo < bLo) hi += 1; hi += bHi;`
unfoldable pub add_pair : Pair → Pair → Pair
add_pair acc b =
    let lo = add32 acc.lo b.lo in
    let hi = if ltb lo b.lo then add32 acc.hi 1 else acc.hi in
    record { hi = add32 hi b.hi; lo = lo }

-- `bHi <<= 1; if (bLo & 0x80000000) bHi |= 1; bLo <<= 1;`
unfoldable pub shift_pair : Pair → Pair
shift_pair b =
    let hi = shl32 b.hi 1 in
    record { hi = if truthy (bit_and b.lo 0x80000000) then bit_or hi 1 else hi; lo = shl32 b.lo 1 }

-- The `for` loop with the rounds that are left; `a >>= 1` shifts an `int`.
unfoldable pub mult_loop : ℕ → ℕ → Pair → Pair → Pair
mult_loop zero a b acc = acc
mult_loop (suc rounds) a b acc =
    let skipped = mult_loop rounds (sar32 a 1) (shift_pair b) acc in
    let sum = add_pair acc b in
    let added = mult_loop rounds (sar32 a 1) (shift_pair b) sum in
    if truthy (bit_and a 1) then if bit_and a 0xfffffffe == 0 then sum else added else skipped

-- `hi = ~hi; lo = ~lo; lo++; if (lo == 0) hi++;`
unfoldable pub negate_pair : Pair → Pair
negate_pair p =
    let lo = add32 (not32 p.lo) 1 in
    record { hi = if lo == 0 then add32 (not32 p.hi) 1 else not32 p.hi; lo = lo }

-- `-a` of an `int`, as the host computes it.
abbrev pub neg32 : ℕ → ℕ
neg32 a = (word_mod - a) % word_mod

abbrev pub is_negative : ℕ → Bool
is_negative a = not (ltb a sign_bit)

unfoldable pub mult : ℕ → ℕ → Bool → Pair
mult a b signed_arith =
    let flip_a = signed_arith && is_negative a in
    let flip_b = signed_arith && is_negative b in
    let a' = if flip_a then neg32 a else a in
    let b' = if flip_b then neg32 b else b in
    let negative = (if flip_b then not flip_a else flip_a) in
    let result = mult_loop 32 a' (record { hi = 0; lo = b' }) (record { hi = 0; lo = 0 }) in
    if a == 0 || b == 0
    then record { hi = 0; lo = 0 }
    else if negative
    then negate_pair result
    else result
