-- ===== src/Bitmap/Bits.antt =====
-- The bits of a `Bitmap` after `Mark` and `Clear` (NachOS-4.0/code/lib/bitmap.cc).
use hcmus_csc10007_operating.Common.{
  ℕ, zero, suc, ◌-◌, ◌*◌, ◌/◌, ◌%◌, ◌^◌, ◌<◌, ◌≤◌, ◌≡◌, ◌≢◌, refl, ap, Bool, true, false, some,
  List, [], ◌∷◌, ltb, ◌==◌, if◌then◌else◌, bit_and, bit_or, get_or, set, length, length-set, arith,
  sym, ◌∙◌, ℕ_discrete,
}
use hcmus_csc10007_operating.Common.Bits.{
  bit, bit-le, bit-or, bit-and, bit-xor, bit-pow_self, bit-pow_ne, bit-ones, and-pow, pow_step,
  pow_pos,
}
use hcmus_csc10007_operating.Common.Word.{word_mod, not32}
use hcmus_csc10007_operating.Bitmap.{
  Bitmap, bits_in_word, mask, word_of, is_set, test, with_word, assert_test, mark, clear,
}

pow_lt : (k n : ℕ) → k < n → 2 ^ k < 2 ^ n
pow_lt k zero h = elim h [ ]
pow_lt zero (suc n) h = omega (arith, pow_step n, pow_pos n)
pow_lt (suc k) (suc n) h = omega (arith, pow_step n, pow_step k, pow_lt k n (omega arith))

mask_lem : (w : ℕ) → mask w ≡ 2 ^ (w % 32)
mask_lem w = let p = pow_lt (w % 32) 32 (omega arith) in omega arith

pub is_set_lem : (b : Bitmap) (w : ℕ) → is_set b w ≡ (bit (word_of b w) (w % 32) == 1)
is_set_lem b w =
    let e : bit_and (word_of b w) (mask w) ≡ bit (word_of b w) (w % 32) * 2 ^ (w % 32) =
      rw (mask_lem w) (and-pow (word_of b w) (w % 32)) in
    ground (arith, e, pow_pos (w % 32), bit-le (word_of b w) (w % 32))

get_or-set_self : (xs : List ℕ) (i v : ℕ) → i < length xs → get_or (set xs i v) i 0 ≡ v
get_or-set_self [] i v h = elim h [ ]
get_or-set_self (x ∷ xs) zero v h = refl
get_or-set_self (x ∷ xs) (suc i) v h = get_or-set_self xs i v (omega arith)

get_or-set_ne : (xs : List ℕ) (i j v : ℕ) → i ≢ j → get_or (set xs i v) j 0 ≡ get_or xs j 0
get_or-set_ne [] i j v h = refl
get_or-set_ne (x ∷ xs) zero zero v h = absurd (h refl)
get_or-set_ne (x ∷ xs) zero (suc j) v h = refl
get_or-set_ne (x ∷ xs) (suc i) zero v h = refl
get_or-set_ne (x ∷ xs) (suc i) (suc j) v h = get_or-set_ne xs i j v (λ e. h (ap suc e))

-- The words cover the bits.
unfoldable pub IsValid : Bitmap → Type 0
IsValid b = b.num_bits ≤ bits_in_word * length b.map

-- `b'` is `b` with the bit `w` set to `v`.
pub record Writes (b : Bitmap) (w : ℕ) (v : Bool) (b' : Bitmap) : Type 0 where
  pub same_size : b'.num_bits ≡ b.num_bits
  pub valid : IsValid b'
  pub bits : (i : ℕ) → is_set b' i ≡ (if i == w then v else is_set b i)

-- A write of a word that has the bit `w` as wanted and no other bit changed.
module _ (b : Bitmap) (w x : ℕ) (v : Bool) (valid : IsValid b) (in_range : w < b.num_bits)
    (here : (bit x (w % 32) == 1) ≡ v)
    (others : (k : ℕ) → k < 32 → k ≢ w % 32 → bit x k ≡ bit (word_of b w) k) where
  in_map : w / 32 < length b.map
  unfolding IsValid
  in_map = omega (arith, valid)

  word_self : (i : ℕ) → i / 32 ≡ w / 32 → word_of (with_word b w x) i ≡ x
  word_self i e = rw e (get_or-set_self b.map (w / 32) x in_map)

  word_ne : (i : ℕ) → i / 32 ≢ w / 32 → word_of (with_word b w x) i ≡ word_of b i
  word_ne i e = get_or-set_ne b.map (w / 32) (i / 32) x (λ p. e (sym p))

  if-else : (i : ℕ) → i ≢ w → (if i == w then v else is_set b i) ≡ is_set b i
  if-else i n = let f : (i == w) ≡ false = ground arith in rw f refl

  if_self : (if w == w then v else is_set b w) ≡ v
  if_self = let f : (w == w) ≡ true = ground arith in rw f refl

  same :
      (i : ℕ)
      → i / 32 ≡ w / 32
      → i % 32 ≢ w % 32
      → (bit x (i % 32) == 1) ≡ (bit (word_of b i) (i % 32) == 1)
  same i e f =
      ap (λ (t : ℕ). t == 1) (others (i % 32) (omega arith) f)
      ∙ ap (λ (t : ℕ). bit (get_or b.map t 0) (i % 32) == 1) (sym e)

  with_word-bits : (i : ℕ) → is_set (with_word b w x) i ≡ (if i == w then v else is_set b i)
  with_word-bits i = elim (ℕ_discrete (i / 32) (w / 32)) [
    | yes e ↦ elim (ℕ_discrete (i % 32) (w % 32)) [
      | yes f ↦
          let g : i ≡ w = omega arith in
          rw g (
            is_set_lem (with_word b w x) w
            ∙ ap (λ (t : ℕ). bit t (w % 32) == 1) (word_self w refl)
            ∙ here
            ∙ sym if_self)
      | no f ↦
          is_set_lem (with_word b w x) i
          ∙ ap (λ (t : ℕ). bit t (i % 32) == 1) (word_self i e)
          ∙ same i e f
          ∙ sym (is_set_lem b i)
          ∙ sym (if-else i (λ g. f (ap (λ (t : ℕ). t % 32) g)))
    ]
    | no e ↦
        is_set_lem (with_word b w x) i
        ∙ ap (λ (t : ℕ). bit t (i % 32) == 1) (word_ne i e)
        ∙ sym (is_set_lem b i)
        ∙ sym (if-else i (λ g. e (ap (λ (t : ℕ). t / 32) g)))
  ]

  with_word-IsValid : IsValid (with_word b w x)
  unfolding IsValid
  with_word-IsValid = rw (length-set b.map (w / 32) x) valid

  with_word-Writes : Writes b w v (with_word b w x)
  with_word-Writes = record { same_size = refl; valid = with_word-IsValid; bits = with_word-bits }

mark-here : (x w : ℕ) → (bit (bit_or x (mask w)) (w % 32) == 1) ≡ true
mark-here x w =
    let e = bit-or x (mask w) (w % 32) in
    let f : bit (mask w) (w % 32) ≡ 1 = rw (mask_lem w) (bit-pow_self (w % 32)) in
    ground (arith, bit-le x (w % 32))

mark-others : (x w k : ℕ) → k ≢ w % 32 → bit (bit_or x (mask w)) k ≡ bit x k
mark-others x w k h =
    let e = bit-or x (mask w) k in
    let f : bit (mask w) k ≡ 0 = rw (mask_lem w) (bit-pow_ne (w % 32) k (λ p. h (sym p))) in
    omega arith

clear-here : (x w : ℕ) → (bit (bit_and x (not32 (mask w))) (w % 32) == 1) ≡ false
clear-here x w =
    let e = bit-and x (not32 (mask w)) (w % 32) in
    let g = bit-xor (mask w) (word_mod - 1) (w % 32) in
    let f : bit (mask w) (w % 32) ≡ 1 = rw (mask_lem w) (bit-pow_self (w % 32)) in
    let o : bit (word_mod - 1) (w % 32) ≡ 1 = bit-ones 32 (w % 32) (omega arith) in ground arith

clear-others : (x w k : ℕ) → k < 32 → k ≢ w % 32 → bit (bit_and x (not32 (mask w))) k ≡ bit x k
clear-others x w k l h =
    let e = bit-and x (not32 (mask w)) k in
    let g = bit-xor (mask w) (word_mod - 1) k in
    let f : bit (mask w) k ≡ 0 = rw (mask_lem w) (bit-pow_ne (w % 32) k (λ p. h (sym p))) in
    let o : bit (word_mod - 1) k ≡ 1 = bit-ones 32 k l in omega (arith, bit-le x k)

pub Writes-here : (b b' : Bitmap) (w : ℕ) (v : Bool) → Writes b w v b' → is_set b' w ≡ v
Writes-here b b' w v u = let f : (w == w) ≡ true = ground arith in u.bits w ∙ (rw f refl)

assert_test_lem :
    (b : Bitmap) (w : ℕ) (v : Bool)
    → ltb w b.num_bits ≡ true
    → is_set b w ≡ v
    → assert_test w v b ≡ some b
unfolding test
assert_test_lem b w true h e = ground arith
assert_test_lem b w false h e = ground arith

module _ (b : Bitmap) (w : ℕ) (valid : IsValid b) (in_range : w < b.num_bits) where
  pub mark-Writes : (b' : Bitmap) × (mark w b ≡ some b') × Writes b w true b'
  unfolding mark test
  mark-Writes =
      let u =
        with_word-Writes b w (bit_or (word_of b w) (mask w)) true valid in_range
          (mark-here (word_of b w) w) (λ k _ h. mark-others (word_of b w) w k h) in
      (
        with_word b w (bit_or (word_of b w) (mask w)),
        let l : ltb w b.num_bits ≡ true = ground arith in
            rw l (assert_test_lem _ w true l (Writes-here _ _ w true u)),
        u,
      )

  pub clear-Writes : (b' : Bitmap) × (clear w b ≡ some b') × Writes b w false b'
  unfolding clear test
  clear-Writes =
      let u =
        with_word-Writes b w (bit_and (word_of b w) (not32 (mask w))) false valid in_range
          (clear-here (word_of b w) w) (λ k l h. clear-others (word_of b w) w k l h) in
      (
        with_word b w (bit_and (word_of b w) (not32 (mask w))),
        let l : ltb w b.num_bits ≡ true = ground arith in
            rw l (assert_test_lem _ w false l (Writes-here _ _ w false u)),
        u,
      )
