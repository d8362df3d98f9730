-- ===== src/Common/Bits/Step.antt =====
-- The native bit operations, one binary digit at a time. Their meaning `bitwise` counts its first
-- operand down; the law of the lowest digit is stated once, for every operation on digits.
use Prim.Native.Nat.{
  ℕ, zero, suc, ◌+◌, ◌-◌, ◌*◌, ◌/◌, ◌%◌, ◌<◌, ◌≤◌, min, max, differ, digits, bitwise, bit_and,
  bit_or, bit_xor, bit_and-bitwise, bit_or-bitwise, bit_xor-bitwise,
}
use mathlib.Core.Path.{◌≡◌, refl, ap, ◌∙◌}
use native.Mathlib.Omega.{arith}

module _ (rest : ℕ → ℕ) (op : ℕ → ℕ → ℕ) where
  -- One round more than needed is not used.
  spare_round : (n x y : ℕ) → x ≤ n → digits rest op (suc n) x y ≡ digits rest op n x y
  spare_round zero zero y h = refl
  spare_round zero (suc x) y h = elim h [ ]
  spare_round (suc n) zero y h = refl
  spare_round (suc n) (suc x) y h =
      ap (λ (t : ℕ). t * 2 + op (suc x % 2) (y % 2))
        (spare_round n (suc x / 2) (y / 2) (omega arith))

  -- Nor are `k` more.
  spare_rounds : (k x y : ℕ) → digits rest op (x + k) x y ≡ bitwise rest op x y
  spare_rounds zero x y = let e : x + 0 ≡ x = omega arith in ap (λ (t : ℕ). digits rest op t x y) e
  spare_rounds (suc k) x y =
      let e : x + suc k ≡ suc (x + k) = omega arith in
      ap (λ (t : ℕ). digits rest op t x y) e
      ∙ spare_round (x + k) x y (omega arith)
      ∙ spare_rounds k x y

  -- The law of the lowest digit, where it holds of what follows the last digit of `x`.
  digit_law :
      ((y : ℕ) → rest y ≡ rest (y / 2) * 2 + op 0 (y % 2))
      → (x y : ℕ) → bitwise rest op x y ≡ bitwise rest op (x / 2) (y / 2) * 2 + op (x % 2) (y % 2)
  digit_law base zero y = base y
  digit_law base (suc x) y =
      let half = suc x / 2 in
      let e : x ≡ half + (x - half) = omega arith in
      ap (λ (t : ℕ). t * 2 + op (suc x % 2) (y % 2))
        (ap (λ (t : ℕ). digits rest op t half (y / 2)) e ∙ spare_rounds (x - half) half (y / 2))

pub bit_or_step : (a b : ℕ) → bit_or a b ≡ bit_or (a / 2) (b / 2) * 2 + max (a % 2) (b % 2)
bit_or_step a b =
    let law = digit_law (λ y. y) max (λ y. omega arith) a b in
    omega (arith, law, bit_or-bitwise a b, bit_or-bitwise (a / 2) (b / 2))

pub bit_and_step : (a b : ℕ) → bit_and a b ≡ bit_and (a / 2) (b / 2) * 2 + min (a % 2) (b % 2)
bit_and_step a b =
    let law = digit_law (λ y. 0) min (λ y. omega arith) a b in
    omega (arith, law, bit_and-bitwise a b, bit_and-bitwise (a / 2) (b / 2))

-- `differ` of two digits is their sum without the carry.
differ_lem : (x y : ℕ) → x < 2 → y < 2 → differ x y ≡ (x + y) % 2
differ_lem zero y p q = omega arith
differ_lem (suc zero) zero p q = refl
differ_lem (suc zero) (suc zero) p q = refl
differ_lem (suc zero) (suc (suc y)) p q = absurd (omega arith)
differ_lem (suc (suc x)) y p q = absurd (omega arith)

pub bit_xor_step : (a b : ℕ) → bit_xor a b ≡ bit_xor (a / 2) (b / 2) * 2 + (a % 2 + b % 2) % 2
bit_xor_step a b =
    let law =
      digit_law (λ y. y) differ
        (λ y. omega (arith, differ_lem 0 (y % 2) (omega arith) (omega arith))) a b in
    omega (
      arith,
      law,
      bit_xor-bitwise a b,
      bit_xor-bitwise (a / 2) (b / 2),
      differ_lem (a % 2) (b % 2) (omega arith) (omega arith),
    )

-- Nothing is in common with zero, however many rounds there are.
no_common_digit : (n a : ℕ) → digits (λ y. 0) min n a 0 ≡ 0
no_common_digit zero a = refl
no_common_digit (suc n) zero = refl
no_common_digit (suc n) (suc a) = omega (arith, no_common_digit n (suc a / 2))

pub and_zero : (a : ℕ) → bit_and a 0 ≡ 0
and_zero a = bit_and-bitwise a 0 ∙ no_common_digit a a

-- A number and zero have the digits of the number.
own_digits : (n a : ℕ) → a ≤ n → digits (λ y. y) max n a 0 ≡ a
own_digits zero a h = omega arith
own_digits (suc n) zero h = refl
own_digits (suc n) (suc a) h = omega (arith, own_digits n (suc a / 2) (omega arith))

pub or_zero : (a : ℕ) → bit_or a 0 ≡ a
or_zero a = bit_or-bitwise a 0 ∙ own_digits a a (omega arith)
