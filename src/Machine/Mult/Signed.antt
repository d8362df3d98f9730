-- ===== src/Machine/Mult/Signed.antt =====
-- `Mult` in signed mode (NachOS-4.0/code/machine/mipssim.cc).
use hcmus_csc10007_operating.Common.{
  ℕ, suc, ◌-◌, ◌*◌, ◌^◌, ◌≤◌, ◌<◌, ◌≡◌, ◌⊎◌, inl, inr, sym, ◌∙◌, true, false, arith, Bool-cases,
  ◌==◌, ltb, xor, ◌||◌, if◌then◌else◌,
}
use hcmus_csc10007_operating.Common.Word.{word_mod, sign_bit, signed}
use hcmus_csc10007_operating.Common.Int.{ℤ, pos, negsuc, ◌*ℤ◌}
use hcmus_csc10007_operating.Machine.Mult.{neg32, is_negative, Pair, mult_loop, negate_pair, mult}
use hcmus_csc10007_operating.Machine.Mult.Product.{double, double_mod, negate_pair_lem, rounds_lem}

abbrev pub signed64 : ℕ → ℤ
signed64 x = if ltb x (2 ^ 63) then pos x else negsuc (2 ^ 64 - x - 1)

-- The magnitude that the loop works on, and the integer that it stands for.
abbrev magnitude : ℕ → ℕ
magnitude a = if is_negative a then neg32 a else a

abbrev rounds : ℕ → ℕ → Pair
rounds a b = mult_loop 32 a (record { hi = 0; lo = b }) (record { hi = 0; lo = 0 })

mult-signed :
    (a b : ℕ)
    → (a == 0 || b == 0) ≡ false
    → mult a b true ≡ (
        if xor (is_negative a) (is_negative b)
        then negate_pair (rounds (magnitude a) (magnitude b))
        else rounds (magnitude a) (magnitude b))
unfolding mult
mult-signed a b h = ground arith

mul_neg_neg : (x y : ℕ) → negsuc x *ℤ negsuc y ≡ pos (suc x * suc y)
unfolding ◌*ℤ◌
mul_neg_neg x y = ground arith

mul_pos_pos : (x y : ℕ) → pos x *ℤ pos y ≡ pos (x * y)
unfolding ◌*ℤ◌
mul_pos_pos x y = ground arith

mul_neg_pos : (x y : ℕ) → negsuc x *ℤ pos (suc y) ≡ negsuc (suc x * suc y - 1)
unfolding ◌*ℤ◌
mul_neg_pos x y = ground arith

mul_pos_neg : (x y : ℕ) → pos (suc x) *ℤ negsuc y ≡ negsuc (suc x * suc y - 1)
unfolding ◌*ℤ◌
mul_pos_neg x y = ground arith

-- A word that is not zero, as a sign and a magnitude.
abbrev Splits : ℕ → ℕ → Type 0
Splits a x =
    ((is_negative a ≡ true) × (signed a ≡ negsuc x))
    ⊎ ((is_negative a ≡ false) × (signed a ≡ pos (suc x)))

signed_split :
    (a : ℕ)
    → a < word_mod
    → (a == 0) ≡ false
    → (x : ℕ) × (magnitude a ≡ suc x) × (suc x ≤ sign_bit) × Splits a x
signed_split a h nz = (magnitude a - 1, ground arith, ground arith, ground arith)

product_bound :
    (x y : ℕ) → suc x ≤ sign_bit → suc y ≤ sign_bit → (0 < suc x * suc y) × (suc x * suc y ≤ 2 ^ 62)
product_bound x y p q =
    let g : suc x * suc y ≤ sign_bit * suc y = grind arith in (omega arith, omega arith)

signed64_pos : (p : ℕ) → p ≤ 2 ^ 62 → signed64 p ≡ pos p
signed64_pos p h = ground arith

signed64_neg : (p : ℕ) → 0 < p → p ≤ 2 ^ 62 → signed64 (double_mod - p) ≡ negsuc (p - 1)
signed64_neg p k h = ground arith

module _ (a b x y : ℕ) (rx : suc x ≤ sign_bit) (ry : suc y ≤ sign_bit) where
  positive_case : signed64 (double (rounds (suc x) (suc y))) ≡ pos (suc x * suc y)
  positive_case =
      let (some_p, bound) = product_bound x y rx ry in
      let r = rounds_lem (suc x) (suc y) (omega arith) (omega arith) (omega arith) in
      rw r.0 (signed64_pos _ bound)

  negative_case :
      signed64 (double (negate_pair (rounds (suc x) (suc y)))) ≡ negsuc (suc x * suc y - 1)
  negative_case =
      let (some_p, bound) = product_bound x y rx ry in
      let (r, i) = rounds_lem (suc x) (suc y) (omega arith) (omega arith) (omega arith) in
      rw (negate_pair_lem (rounds (suc x) (suc y)) i (rw r some_p), r) (signed64_neg _ some_p bound)

  signed_cases :
      Splits a x
      → Splits b y
      → magnitude a ≡ suc x
      → magnitude b ≡ suc y
      → (a == 0 || b == 0) ≡ false
      → signed64 (double (mult a b true)) ≡ signed a *ℤ signed b
  signed_cases (inl (na, sa)) (inl (nb, sb)) ma mb nz =
      rw (mult-signed a b nz, ma, mb, na, nb, sa, sb) (positive_case ∙ sym (mul_neg_neg x y))
  signed_cases (inl (na, sa)) (inr (nb, sb)) ma mb nz =
      rw (mult-signed a b nz, ma, mb, na, nb, sa, sb) (negative_case ∙ sym (mul_neg_pos x y))
  signed_cases (inr (na, sa)) (inl (nb, sb)) ma mb nz =
      rw (mult-signed a b nz, ma, mb, na, nb, sa, sb) (negative_case ∙ sym (mul_pos_neg x y))
  signed_cases (inr (na, sa)) (inr (nb, sb)) ma mb nz =
      rw (mult-signed a b nz, ma, mb, na, nb, sa, sb)
        (positive_case ∙ sym (mul_pos_pos (suc x) (suc y)))

zero_mul : (z : ℤ) → pos 0 *ℤ z ≡ pos 0
unfolding ◌*ℤ◌
zero_mul (pos n) = ground arith
zero_mul (negsuc n) = ground arith

mul_zero : (z : ℤ) → z *ℤ pos 0 ≡ pos 0
unfolding ◌*ℤ◌
mul_zero (pos n) = ground arith
mul_zero (negsuc n) = ground arith

mult-zero :
    (a b : ℕ) → (a == 0 || b == 0) ≡ true → signed64 (double (mult a b true)) ≡ signed a *ℤ signed b
unfolding mult
mult-zero a b h = elim (Bool-cases (a == 0)) [
  | inl e ↦ let z : a ≡ 0 = ground arith in rw (h, z) (sym (zero_mul (signed b)))
  | inr n ↦ let z : b ≡ 0 = ground arith in rw (h, z) (sym (mul_zero (signed a)))
]

-- MULT: read as a signed 64-bit number, the double word is the product of the two signed words,
-- for every pair of words, the most negative ones included.
pub signed64-mult :
    (a b : ℕ)
    → a < word_mod
    → b < word_mod
    → signed64 (double (mult a b true)) ≡ signed a *ℤ signed b
signed64-mult a b ha hb = elim (Bool-cases (a == 0 || b == 0)) [
  | inl nothing ↦ mult-zero a b nothing
  | inr both ↦
      let (x, ma, rx, sa) = signed_split a ha (ground arith) in
      let (y, mb, ry, sb) = signed_split b hb (ground arith) in
      signed_cases a b x y rx ry sa sb ma mb both
]
