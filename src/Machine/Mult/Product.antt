-- ===== src/Machine/Mult/Product.antt =====
-- The double word that `Mult` leaves is the product (NachOS-4.0/code/machine/mipssim.cc).
use hcmus_csc10007_operating.Common.{
  ℕ, zero, suc, ◌+◌, ◌-◌, ◌*◌, ◌/◌, ◌%◌, ◌^◌, ◌≤◌, ◌<◌, ◌≡◌, inl, inr, ap, ◌∙◌, true, false, arith,
  bit_and, Bool-cases, ◌==◌, ltb, ◌||◌,
}
use hcmus_csc10007_operating.Common.Bits.{
  bit_and_step, xor-ones, or-one, and-ones, pow_pos, pow_step,
}
use hcmus_csc10007_operating.Common.Word.{sign_test, word_mod, sign_bit, sar32, truthy}
use hcmus_csc10007_operating.Machine.Mult.{Pair, add_pair, shift_pair, mult_loop, negate_pair, mult}

abbrev pub double : Pair → ℕ
double p = p.hi * word_mod + p.lo

abbrev pub IsPair : Pair → Type 0
IsPair p = (p.hi < word_mod) × (p.lo < word_mod)

abbrev pub double_mod : ℕ
double_mod = 2 ^ 64

add_pair_lem :
    (acc b : Pair)
    → IsPair acc
    → IsPair b
    → double acc + double b < double_mod
    → (double (add_pair acc b) ≡ double acc + double b) × IsPair (add_pair acc b)
unfolding add_pair
add_pair_lem acc b p q h = ground arith

shift_pair_lem :
    (b : Pair)
    → IsPair b
    → 2 * double b < double_mod
    → (double (shift_pair b) ≡ 2 * double b) × IsPair (shift_pair b)
unfolding shift_pair
shift_pair_lem b p h = ground (arith, sign_test b.lo, or-one b.hi)

-- One round on a number whose lowest bit is `d`.
odd_test : (a : ℕ) → truthy (bit_and a 1) ≡ (a % 2 == 1)
odd_test a = ground (arith, and-ones 1 a)

-- `a & 0xfffffffe` drops the lowest bit.
even_part : (a : ℕ) → a < word_mod → bit_and a 0xfffffffe ≡ 2 * (a / 2)
even_part a h = omega (arith, bit_and_step a 0xfffffffe, and-ones 31 (a / 2))

sar_small : (a : ℕ) → a < sign_bit → sar32 a 1 ≡ a / 2
sar_small a h = ground arith

-- What a round does to the sizes: `q` rounds of doubling are left after it.
round_bounds :
    (x y q : ℕ)
    → 1 ≤ q
    → x < y
    → y * (2 * q) < double_mod
    → (2 * y < double_mod) × (x + y < double_mod)
round_bounds x y q h k m = let g : y * 1 ≤ y * q = grind arith in omega arith

regroup_even : (a x y z : ℕ) → a % 2 ≡ 0 → z ≡ 2 * y → x + a / 2 * z ≡ x + a * y
regroup_even a x y z h e =
    let ea : a ≡ 2 * (a / 2) = omega arith in
    omega (arith, ap (λ (t : ℕ). a / 2 * t) e, ap (λ (t : ℕ). t * y) ea)

regroup_odd : (a x y z : ℕ) → a % 2 ≡ 1 → z ≡ 2 * y → x + y + a / 2 * z ≡ x + a * y
regroup_odd a x y z h e =
    let ea : a ≡ 2 * (a / 2) + 1 = omega arith in
    omega (arith, ap (λ (t : ℕ). a / 2 * t) e, ap (λ (t : ℕ). t * y) ea)

abbrev Multiplies : ℕ → Pair → Pair → Pair → Type 0
Multiplies a b acc r = (double r ≡ double acc + a * double b) × IsPair r

-- From a number whose sign bit is clear.
loop_small :
    (n a : ℕ) (b acc : Pair)
    → a < 2 ^ n
    → a < sign_bit
    → IsPair b
    → IsPair acc
    → double acc < double b
    → double b * 2 ^ n < double_mod
    → Multiplies a b acc (mult_loop n a b acc)
unfolding mult_loop
loop_small zero a b acc h s ib ia k m = let e : a ≡ 0 = omega arith in (rw e (omega arith), ia)
loop_small (suc n) a b acc h s ib ia k m =
    let q : ℕ = 2 ^ n in
    let m' : double b * (2 * q) < double_mod =
      omega (arith, ap (λ (t : ℕ). double b * t) (pow_step n)) in
    let (wide, room) = round_bounds (double acc) (double b) q (pow_pos n) k m' in
    let (eb, ib') = shift_pair_lem b ib wide in
    let (es, is) = add_pair_lem acc b ia ib room in
    let small = sar_small a s in
    let m2 : double (shift_pair b) * q < double_mod = omega (arith, ap (λ (t : ℕ). t * q) eb) in
    let a2 : a / 2 < q = omega (arith, pow_step n) in
    let skip = loop_small n (a / 2) (shift_pair b) acc a2 (omega arith) ib' ia (omega arith) m2 in
    let added =
      loop_small n (a / 2) (shift_pair b) (add_pair acc b) a2 (omega arith) ib' is (omega arith)
        m2 in
    elim (Bool-cases (truthy (bit_and a 1))) [
      | inl odd ↦ elim (Bool-cases (bit_and a 0xfffffffe == 0)) [
        | inl last ↦
            let one : a ≡ 1 = ground (arith, even_part a, odd_test a) in
            rw (odd, last, one) (es ∙ omega arith, is)
        | inr more ↦
            rw (odd, more, small)
              (
                added.0
                    ∙ ap (λ (t : ℕ). t + a / 2 * double (shift_pair b)) es
                    ∙ regroup_odd a (double acc) (double b) _ (ground (arith, odd_test a)) eb,
                added.1,
              )
      ]
      | inr even ↦
          rw (even, small)
            (
              skip.0 ∙ regroup_even a (double acc) (double b) _ (ground (arith, odd_test a)) eb,
              skip.1,
            )
    ]

sar_large : (a : ℕ) → a < word_mod → sign_bit ≤ a → sar32 a 1 ≡ sign_bit + a / 2
sar_large a h k = ground arith

-- From a number whose sign bit is set: the shifts fill in ones, and `d` is what is left of the
-- number below them.
loop_large :
    (n a d : ℕ) (b acc : Pair)
    → a + 2 ^ n ≡ word_mod + d
    → d < 2 ^ n
    → a < word_mod
    → sign_bit ≤ a
    → IsPair b
    → IsPair acc
    → double acc < double b
    → double b * 2 ^ n < double_mod
    → Multiplies d b acc (mult_loop n a b acc)
unfolding mult_loop
loop_large zero a d b acc e h w s ib ia k m =
    let z : d ≡ 0 = omega arith in (rw z (omega arith), ia)
loop_large (suc n) a d b acc e h w s ib ia k m =
    let q : ℕ = 2 ^ n in
    let m' : double b * (2 * q) < double_mod =
      omega (arith, ap (λ (t : ℕ). double b * t) (pow_step n)) in
    let (wide, room) = round_bounds (double acc) (double b) q (pow_pos n) k m' in
    let (eb, ib') = shift_pair_lem b ib wide in
    let (es, is) = add_pair_lem acc b ia ib room in
    let large = sar_large a w s in
    let m2 : double (shift_pair b) * q < double_mod = omega (arith, ap (λ (t : ℕ). t * q) eb) in
    let e2 : sign_bit + a / 2 + q ≡ word_mod + d / 2 = omega (arith, pow_step n) in
    let d2 : d / 2 < q = omega (arith, pow_step n) in
    let skip =
      loop_large n (sign_bit + a / 2) (d / 2) (shift_pair b) acc e2 d2 (omega arith) (omega arith)
        ib' ia (omega arith) m2 in
    let added =
      loop_large n (sign_bit + a / 2) (d / 2) (shift_pair b) (add_pair acc b) e2 d2 (omega arith)
        (omega arith) ib' is (omega arith) m2 in
    let same : a % 2 ≡ d % 2 = omega (arith, pow_step n) in
    elim (Bool-cases (truthy (bit_and a 1))) [
      | inl odd ↦
          let more : (bit_and a 0xfffffffe == 0) ≡ false = ground (arith, even_part a) in
          rw (odd, more, large)
            (
              added.0
                  ∙ ap (λ (t : ℕ). t + d / 2 * double (shift_pair b)) es
                  ∙ regroup_odd d (double acc) (double b) _ (ground (arith, odd_test a)) eb,
              added.1,
            )
      | inr even ↦
          rw (even, large)
            (
              skip.0 ∙ regroup_even d (double acc) (double b) _ (ground (arith, odd_test a)) eb,
              skip.1,
            )
    ]

pub negate_pair_lem :
    (p : Pair) → IsPair p → 0 < double p → double (negate_pair p) ≡ double_mod - double p
unfolding negate_pair
negate_pair_lem p h k = ground (arith, xor-ones 32 p.lo, xor-ones 32 p.hi)

-- All 32 rounds, also of an `a` that the host takes for a negative `int`.
pub rounds_lem :
    (a b : ℕ)
    → a < word_mod
    → b < word_mod
    → 0 < b
    → (double (mult_loop 32 a (record { hi = 0; lo = b }) (record { hi = 0; lo = 0 })) ≡ a * b)
      × IsPair (mult_loop 32 a (record { hi = 0; lo = b }) (record { hi = 0; lo = 0 }))
rounds_lem a b ha hb pos_b = elim (Bool-cases (ltb a sign_bit)) [
  | inl small ↦
      let r =
        loop_small 32 a start none_yet ha (ground arith) (omega arith) (omega arith) (omega arith)
          (omega arith) in
      (r.0 ∙ omega arith, r.1)
  | inr large ↦
      let r =
        loop_large 32 a a start none_yet (omega arith) ha ha (ground arith) (omega arith)
          (omega arith) (omega arith) (omega arith) in
      (r.0 ∙ omega arith, r.1)
]
  where
    start : Pair
    start = record { hi = 0; lo = b }

    none_yet : Pair
    none_yet = record { hi = 0; lo = 0 }

zero_product : (a b : ℕ) → (a == 0 || b == 0) ≡ true → 0 ≡ a * b
zero_product a b h = elim (Bool-cases (a == 0)) [
  | inl e ↦ let z : a ≡ 0 = ground arith in rw z (omega arith)
  | inr n ↦ let z : b ≡ 0 = ground arith in rw z (omega arith)
]

-- MULTU: the double word is the product of the two patterns, for every pair of words.
pub double-mult_unsigned : (a b : ℕ) → a < word_mod → b < word_mod → double (mult a b false) ≡ a * b
unfolding mult
double-mult_unsigned a b ha hb = elim (Bool-cases (a == 0 || b == 0)) [
  | inl nothing ↦ rw nothing (zero_product a b nothing)
  | inr both ↦ rw both (rounds_lem a b ha hb (ground arith)).0
]
