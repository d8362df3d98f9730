-- ===== src/Bitmap/Construction.antt =====
-- The constructor of `Bitmap` (NachOS-4.0/code/lib/bitmap.cc).
use hcmus_csc10007_operating.Common.{
  ℕ, zero, suc, ◌+◌, ◌*◌, ◌/◌, ◌%◌, ◌<◌, ◌≤◌, ◌≡◌, refl, ap, ◌∙◌, true, false, some, ltb, ◌==◌,
  replicate, get_or, length, length-replicate, arith, ℕ_discrete,
}
use hcmus_csc10007_operating.Common.Bits.{bit, bit-zero}
use hcmus_csc10007_operating.Bitmap.{Bitmap, div_round_up, is_set, clear_from, new_bitmap}
use hcmus_csc10007_operating.Bitmap.Bits.{IsValid, Writes-here, is_set_lem, clear-Writes}
use hcmus_csc10007_operating.Bitmap.Allocation.{Writes-other}

clear_from_lem :
    (k i : ℕ) (b : Bitmap)
    → IsValid b
    → i + k ≡ b.num_bits
    → ((j : ℕ) → is_set b j ≡ false)
    → (b' : Bitmap) × (clear_from k i b ≡ some b')
      × (b'.num_bits ≡ b.num_bits)
      × IsValid b'
      × ((j : ℕ) → is_set b' j ≡ false)
unfolding clear_from
clear_from_lem zero i b v e h = (b, refl, refl, v, h)
clear_from_lem (suc k) i b v e h =
    let (b1, c, u) = clear-Writes b i v (omega arith) in
    let (b', r, n, w, f) = clear_from_lem k (suc i) b1 u.valid (omega (arith, u.same_size)) (λ j.
      elim (ℕ_discrete j i) [
        | yes p ↦ rw p (Writes-here b b1 i false u)
        | no n ↦ Writes-other b b1 i j false u n ∙ h j
      ]) in
    let o : clear_from (suc k) i b ≡ clear_from k (suc i) b1 = ground arith in
    (b', o ∙ r, n ∙ u.same_size, w, f)

get_or-replicate : (n i : ℕ) → get_or {A = ℕ} (replicate n 0) i 0 ≡ 0
get_or-replicate zero i = refl
get_or-replicate (suc n) zero = refl
get_or-replicate (suc n) (suc i) = get_or-replicate n i

-- The constructor makes a valid bitmap of `num_items` bits, all clear; its ASSERTs do not fail
-- where `num_items` is positive.
pub new_bitmap_lem :
    (n : ℕ)
    → 0 < n
    → (b : Bitmap) × (new_bitmap n ≡ some b)
      × (b.num_bits ≡ n)
      × IsValid b
      × ((j : ℕ) → is_set b j ≡ false)
unfolding new_bitmap IsValid
new_bitmap_lem n h =
    let add0 : 0 + n ≡ n = omega arith in
    let start : Bitmap = record { num_bits = n; map = replicate (div_round_up n 32) 0 } in
    let l : ltb 0 n ≡ true = ground arith in
    let v : n ≤ 32 * length (replicate (div_round_up n 32) 0) =
      rw (length-replicate {A = ℕ} (div_round_up n 32) 0) (ground arith) in
    let z : (j : ℕ) → is_set start j ≡ false = λ j.
      is_set_lem start j
      ∙ ap (λ (t : ℕ). bit t (j % 32) == 1) (get_or-replicate (div_round_up n 32) (j / 32))
      ∙ ap (λ (t : ℕ). t == 1) (bit-zero (j % 32)) in
    let (b', r, k, w, f) = clear_from_lem n 0 start v add0 z in (b', rw l r, k, w, f)
