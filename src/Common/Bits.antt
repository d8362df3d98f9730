-- ===== src/Common/Bits.antt =====
-- Single bits of the results of `|`, `&` and `^`, at every position, and the masks `1 << k` and
-- `2 ^ n - 1`. The native operations mean `bitwise`, a recursion on binary digits.
mod Step
pub use Step.{bit_or_step, bit_and_step, bit_xor_step}
use Step.{and_zero, or_zero}
use Prim.Native.Nat.{
  ℕ, zero, suc, ◌+◌, ◌-◌, ◌*◌, ◌/◌, ◌%◌, ◌^◌, ◌≤◌, ◌<◌, min, max, bit_and, bit_or, bit_xor,
  bit_and-bitwise,
}
use mathlib.Core.Path.{◌≡◌, refl, ap, sym, ◌∙◌}
use mathlib.Core.Logic.{◌≢◌}
use native.Mathlib.Nat.{
  pow-suc, one-le-pow, div-add-mod, mod-lt, mul-add-mod_self_left, mod-eq_of_lt,
}
use native.Mathlib.Omega.{arith}

-- The bit of weight `2 ^ k`, as a number.
abbrev pub bit : ℕ → ℕ → ℕ
bit x zero = x % 2
bit x (suc k) = bit (x / 2) k

pub bit-le : (x k : ℕ) → bit x k ≤ 1
bit-le x zero = omega arith
bit-le x (suc k) = bit-le (x / 2) k

pub bit-or : (a b k : ℕ) → bit (bit_or a b) k ≡ max (bit a k) (bit b k)
bit-or a b zero = omega (arith, bit_or_step a b)
bit-or a b (suc k) =
    let e : bit_or a b / 2 ≡ bit_or (a / 2) (b / 2) = omega (arith, bit_or_step a b) in
    rw e (bit-or (a / 2) (b / 2) k)

pub bit-and : (a b k : ℕ) → bit (bit_and a b) k ≡ min (bit a k) (bit b k)
bit-and a b zero = omega (arith, bit_and_step a b)
bit-and a b (suc k) =
    let e : bit_and a b / 2 ≡ bit_and (a / 2) (b / 2) = omega (arith, bit_and_step a b) in
    rw e (bit-and (a / 2) (b / 2) k)

pub bit-xor : (a b k : ℕ) → bit (bit_xor a b) k ≡ (bit a k + bit b k) % 2
bit-xor a b zero = omega (arith, bit_xor_step a b)
bit-xor a b (suc k) =
    let e : bit_xor a b / 2 ≡ bit_xor (a / 2) (b / 2) = omega (arith, bit_xor_step a b) in
    rw e (bit-xor (a / 2) (b / 2) k)

pub pow_step : (k : ℕ) → 2 ^ suc k ≡ 2 * 2 ^ k
pow_step k = omega (arith, pow-suc 2 k)

pub pow_pos : (k : ℕ) → 0 < 2 ^ k
pow_pos k = one-le-pow k 2 (omega arith)

-- `1 << k` has one bit.
pub bit-pow_self : (k : ℕ) → bit (2 ^ k) k ≡ 1
bit-pow_self zero = refl
bit-pow_self (suc k) =
    let e : 2 ^ suc k / 2 ≡ 2 ^ k = omega (arith, pow_step k) in rw e (bit-pow_self k)

pub bit-zero : (k : ℕ) → bit 0 k ≡ 0
bit-zero zero = refl
bit-zero (suc k) = bit-zero k

pub bit-pow_ne : (k j : ℕ) → k ≢ j → bit (2 ^ k) j ≡ 0
bit-pow_ne zero zero h = absurd (h refl)
bit-pow_ne zero (suc j) h = bit-zero j
bit-pow_ne (suc k) zero h = omega (arith, pow_step k)
bit-pow_ne (suc k) (suc j) h =
    let e : 2 ^ suc k / 2 ≡ 2 ^ k = omega (arith, pow_step k) in
    rw e (bit-pow_ne k j (λ p. h (ap suc p)))

-- `2 ^ n - 1` has the bits below `n`.
pub bit-ones : (n j : ℕ) → j < n → bit (2 ^ n - 1) j ≡ 1
bit-ones zero j h = elim h [ ]
bit-ones (suc n) zero h = omega (arith, pow_step n, pow_pos n)
bit-ones (suc n) (suc j) h =
    let e : (2 ^ suc n - 1) / 2 ≡ 2 ^ n - 1 = omega (arith, pow_step n, pow_pos n) in
    rw e (bit-ones n j (omega arith))

-- `x & (1 << k)` keeps one bit.
pub and-pow : (x k : ℕ) → bit_and x (2 ^ k) ≡ bit x k * 2 ^ k
and-pow x zero = omega (arith, bit_and_step x 1, and_zero (x / 2))
and-pow x (suc k) =
    let e : 2 ^ suc k / 2 ≡ 2 ^ k = omega (arith, pow_step k) in
    let ih : bit_and (x / 2) (2 ^ suc k / 2) ≡ bit (x / 2) k * 2 ^ k = rw e (and-pow (x / 2) k) in
    omega (
      arith,
      bit_and_step x (2 ^ suc k),
      pow_step k,
      ih,
      ap (λ (t : ℕ). bit (x / 2) k * t) (pow_step k),
    )

mod-twice : (x p : ℕ) → 0 < p → x % (2 * p) ≡ 2 * (x / 2 % p) + x % 2
mod-twice x p h =
    let q : ℕ = x / 2 / p in
    let r : ℕ = 2 * (x / 2 % p) + x % 2 in
    let e : 2 * p * q + r ≡ x = omega (arith, div-add-mod (x / 2) p) in
    let small : r < 2 * p = omega (arith, mod-lt (x / 2) h) in
    ap (λ (t : ℕ). t % (2 * p)) (sym e) ∙ mul-add-mod_self_left (2 * p) q r ∙ mod-eq_of_lt small

-- `x & (2 ^ n - 1)` is the remainder.
pub and-ones : (n x : ℕ) → bit_and x (2 ^ n - 1) ≡ x % 2 ^ n
and-ones zero x = omega (arith, and_zero x)
and-ones (suc n) x =
    let e : (2 ^ suc n - 1) / 2 ≡ 2 ^ n - 1 = omega (arith, pow_step n, pow_pos n) in
    let ih : bit_and (x / 2) ((2 ^ suc n - 1) / 2) ≡ x / 2 % 2 ^ n = rw e (and-ones n (x / 2)) in
    omega (
      arith,
      bit_and_step x (2 ^ suc n - 1),
      ih,
      mod-twice x (2 ^ n) (pow_pos n),
      pow_step n,
      pow_pos n,
      ap (λ (t : ℕ). x % t) (pow_step n),
    )

zero_and : (b : ℕ) → bit_and 0 b ≡ 0
zero_and b = bit_and-bitwise 0 b

-- `x | 1` of an even number.
pub or-one : (x : ℕ) → bit_or (2 * x) 1 ≡ 2 * x + 1
or-one x =
    let e : 2 * x / 2 ≡ x = omega arith in
    let ih : bit_or (2 * x / 2) 0 ≡ x = rw e (or_zero x) in omega (arith, bit_or_step (2 * x) 1, ih)

-- The results stay within the width of the operands.
pub or-lt : (n a b : ℕ) → a < 2 ^ n → b < 2 ^ n → bit_or a b < 2 ^ n
or-lt zero a b p q =
    let ea : a ≡ 0 = omega arith in let eb : b ≡ 0 = omega arith in rw (ea, eb) (omega arith)
or-lt (suc n) a b p q = omega (
  arith,
  bit_or_step a b,
  pow_step n,
  or-lt n (a / 2) (b / 2) (omega (arith, pow_step n)) (omega (arith, pow_step n)),
)

-- `~x` of a number of `n` bits.
pub xor-ones : (n x : ℕ) → x < 2 ^ n → bit_xor x (2 ^ n - 1) ≡ 2 ^ n - 1 - x
xor-ones zero x h = let e : x ≡ 0 = omega arith in rw e (omega arith)
xor-ones (suc n) x h =
    let e : (2 ^ suc n - 1) / 2 ≡ 2 ^ n - 1 = omega (arith, pow_step n, pow_pos n) in
    let ih : bit_xor (x / 2) ((2 ^ suc n - 1) / 2) ≡ 2 ^ n - 1 - x / 2 =
      rw e (xor-ones n (x / 2) (omega (arith, pow_step n))) in
    omega (arith, bit_xor_step x (2 ^ suc n - 1), ih, pow_step n, pow_pos n)

pub xor-lt : (n a b : ℕ) → a < 2 ^ n → b < 2 ^ n → bit_xor a b < 2 ^ n
xor-lt zero a b p q =
    let ea : a ≡ 0 = omega arith in let eb : b ≡ 0 = omega arith in rw (ea, eb) (omega arith)
xor-lt (suc n) a b p q = omega (
  arith,
  bit_xor_step a b,
  pow_step n,
  xor-lt n (a / 2) (b / 2) (omega (arith, pow_step n)) (omega (arith, pow_step n)),
)

pub and-le : (n a b : ℕ) → a ≤ n → bit_and a b ≤ a
and-le zero zero b p = omega (arith, zero_and b)
and-le zero (suc a) b p = absurd (omega arith)
and-le (suc n) zero b p = omega (arith, bit_and_step 0 b, zero_and (b / 2))
and-le (suc n) (suc a) b p =
    omega (arith, bit_and_step (suc a) b, and-le n (suc a / 2) (b / 2) (omega arith))

-- The top bit of a number of `n + 1` bits tells it from those of `n` bits.
pub bit_low : (n x : ℕ) → x < 2 ^ n → bit x n ≡ 0
bit_low zero x h = omega arith
bit_low (suc n) x h = bit_low n (x / 2) (omega (arith, pow_step n))

pub bit_high : (n x : ℕ) → 2 ^ n ≤ x → x < 2 ^ suc n → bit x n ≡ 1
bit_high zero x h p = omega arith
bit_high (suc n) x h p =
    bit_high n (x / 2) (omega (arith, pow_step n)) (omega (arith, pow_step n, pow_step (suc n)))
