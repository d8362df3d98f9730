-- ===== src/Bitmap/Allocation.antt =====
-- `FindAndSet` and `NumClear` of `Bitmap` (NachOS-4.0/code/lib/bitmap.cc): the first clear
-- bit is taken, and the number of clear bits tells whether there is one.
use hcmus_csc10007_operating.Common.{
  ℕ, zero, suc, ◌+◌, ◌<◌, ◌≡◌, ◌≢◌, refl, ap, sym, ◌∙◌, Bool, true, false, Option, none, some, ltb,
  ◌==◌, if◌then◌else◌, arith, Bool-cases, ℕ_discrete, inl, inr,
}
use hcmus_csc10007_operating.Bitmap.{
  Bitmap, is_set, test, find_from, find_and_set, count_from, num_clear,
}
use hcmus_csc10007_operating.Bitmap.Bits.{IsValid, Writes, Writes-here, mark-Writes}

-- What `FindAndSet` is to return: the first clear bit, now set, or -1 where all bits are set.
pub data Finds (b : Bitmap) : Option (Option ℕ × Bitmap) → Type 0 where
  found :
      (i : ℕ) (b' : Bitmap)
      → i < b.num_bits
      → is_set b i ≡ false
      → ((j : ℕ) → j < i → is_set b j ≡ true)
      → Writes b i true b'
      → Finds b (some (some i, b'))
  full : ((j : ℕ) → j < b.num_bits → is_set b j ≡ true) → Finds b (some (none, b))

-- The number of clear bits below `n`.
abbrev pub clear_below : (ℕ → Bool) → ℕ → ℕ
clear_below f zero = 0
clear_below f (suc n) = (if f n then 0 else 1) + clear_below f n

pub test_lem : (b : Bitmap) (i : ℕ) → i < b.num_bits → test i b ≡ some (is_set b i)
unfolding test
test_lem b i h = let l : ltb i b.num_bits ≡ true = ground arith in rw l refl

below_suc :
    (f : ℕ → Bool) (i : ℕ)
    → ((j : ℕ) → j < i → f j ≡ true)
    → f i ≡ true
    → (j : ℕ) → j < suc i
    → f j ≡ true
below_suc f i h e j l = elim (ℕ_discrete j i) [ yes p ↦ rw p e | no n ↦ h j (omega arith) ]

find_from-Finds :
    (b : Bitmap) (k i : ℕ)
    → IsValid b
    → i + k ≡ b.num_bits
    → ((j : ℕ) → j < i → is_set b j ≡ true)
    → Finds b (find_from k i b)
unfolding find_from
find_from-Finds b zero i v e h = full (λ j l. h j (omega arith))
find_from-Finds b (suc k) i v e h =
    let t = test_lem b i (omega arith) in
    elim (Bool-cases (is_set b i)) [
      | inl s ↦
          let r : find_from (suc k) i b ≡ find_from k (suc i) b = ground arith in
          rw r (find_from-Finds b k (suc i) v (omega arith) (below_suc (is_set b) i h s))
      | inr s ↦
          let (b', m, u) = mark-Writes b i v (omega arith) in
          let r : find_from (suc k) i b ≡ some (some i, b') = ground arith in
          rw r (found i b' (omega arith) s h u)
    ]

-- On a valid bitmap `FindAndSet` returns the first clear bit and sets that bit and no other, or
-- returns -1 and changes nothing, in which case every bit is set; none of its ASSERTs fails.
pub find_and_set-Finds : (b : Bitmap) → IsValid b → Finds b (find_and_set b)
unfolding find_and_set
find_and_set-Finds b v = find_from-Finds b b.num_bits 0 v (omega arith) (λ j l. elim l [ ])

count_from_lem :
    (b : Bitmap) (k i count : ℕ)
    → i + k ≡ b.num_bits
    → count ≡ clear_below (is_set b) i
    → count_from k i count b ≡ some (clear_below (is_set b) b.num_bits)
unfolding count_from
count_from_lem b zero i count e c = let f : i ≡ b.num_bits = omega arith in rw (c, f) refl
count_from_lem b (suc k) i count e c =
    let t = test_lem b i (omega arith) in
    elim (Bool-cases (is_set b i)) [
      | inl s ↦
          let r : count_from (suc k) i count b ≡ count_from k (suc i) count b = ground arith in
          r ∙ count_from_lem b k (suc i) count (omega arith) (rw s (omega (arith, c)))
      | inr s ↦
          let r : count_from (suc k) i count b ≡ count_from k (suc i) (count + 1) b =
            ground arith in
          r ∙ count_from_lem b k (suc i) (count + 1) (omega arith) (rw s (omega (arith, c)))
    ]

-- `NumClear` returns the number of clear bits.
pub num_clear_lem : (b : Bitmap) → num_clear b ≡ some (clear_below (is_set b) b.num_bits)
unfolding num_clear
num_clear_lem b = count_from_lem b b.num_bits 0 0 (omega arith) refl

-- Setting a clear bit among the first `n` lowers the count by one.
clear_below-same :
    (f g : ℕ → Bool) (n : ℕ) → ((j : ℕ) → j < n → g j ≡ f j) → clear_below g n ≡ clear_below f n
clear_below-same f g zero h = refl
clear_below-same f g (suc n) h =
    rw (h n (omega arith), clear_below-same f g n (λ j l. h j (omega arith))) refl

clear_below-set :
    (f g : ℕ → Bool) (n i : ℕ)
    → i < n
    → f i ≡ false
    → g i ≡ true
    → ((j : ℕ) → j ≢ i → g j ≡ f j)
    → clear_below g n + 1 ≡ clear_below f n
clear_below-set f g zero i l p q h = elim l [ ]
clear_below-set f g (suc n) i l p q h = elim (ℕ_discrete i n) [
  | yes e ↦
      let same = clear_below-same f g n (λ j k. h j (λ r. omega arith)) in
      rw (sym e) (rw (p, q) (omega (arith, same, ap (clear_below f) e, ap (clear_below g) e)))
  | no e ↦
      let ih = clear_below-set f g n i (omega arith) p q h in
      rw (h n (λ r. e (sym r))) (omega (arith, ih))
]

pub Writes-other :
    (b b' : Bitmap) (w i : ℕ) (v : Bool) → Writes b w v b' → i ≢ w → is_set b' i ≡ is_set b i
Writes-other b b' w i v u n = let f : (i == w) ≡ false = ground arith in u.bits i ∙ (rw f refl)

pub Writes-count_set :
    (b b' : Bitmap) (w : ℕ)
    → w < b.num_bits
    → is_set b w ≡ false
    → Writes b w true b'
    → clear_below (is_set b') b'.num_bits + 1 ≡ clear_below (is_set b) b.num_bits
Writes-count_set b b' w l e u = rw u.same_size (
    clear_below-set (is_set b) (is_set b') b.num_bits w l e (Writes-here b b' w true u)
      (λ j n. Writes-other b b' w j true u n))

pub Writes-count_clear :
    (b b' : Bitmap) (w : ℕ)
    → w < b.num_bits
    → is_set b w ≡ true
    → Writes b w false b'
    → clear_below (is_set b) b.num_bits + 1 ≡ clear_below (is_set b') b'.num_bits
Writes-count_clear b b' w l e u = rw u.same_size (
    clear_below-set (is_set b') (is_set b) b.num_bits w l (Writes-here b b' w false u) e
      (λ j n. sym (Writes-other b b' w j false u n)))

pub clear_below-zero : (f : ℕ → Bool) (n : ℕ) → ((j : ℕ) → j < n → f j ≡ true) → clear_below f n ≡ 0
clear_below-zero f zero h = refl
clear_below-zero f (suc n) h =
    rw (h n (omega arith)) (omega (arith, clear_below-zero f n (λ j l. h j (omega arith))))

clear_below-pos : (f : ℕ → Bool) (n i : ℕ) → i < n → f i ≡ false → 0 < clear_below f n
clear_below-pos f zero i l e = elim l [ ]
clear_below-pos f (suc n) i l e = elim (ℕ_discrete i n) [
  | yes p ↦ let q : f n ≡ false = rw (sym p) e in rw q (omega arith)
  | no p ↦ omega (arith, clear_below-pos f n i (omega arith) e)
]

-- How many bits `FindAndSet` leaves clear.
abbrev pub Taken : ℕ → Option ℕ × Bitmap → Type 0
Taken free (some i, b') = clear_below (is_set b') b'.num_bits + 1 ≡ free
Taken free (none, b') = (free ≡ 0) × (clear_below (is_set b') b'.num_bits ≡ 0)

-- Whatever `NumClear` has returned on a valid bitmap, `FindAndSet` then returns a bit, leaving one
-- bit less clear, or it returns -1 and that number was zero; its ASSERTs do not fail.
pub num_clear-find_and_set :
    (b : Bitmap) (free : ℕ)
    → IsValid b
    → num_clear b ≡ some free
    → (r : Option ℕ × Bitmap) × (find_and_set b ≡ some r) × Taken free r
num_clear-find_and_set b free v h = go (find_and_set b) refl (find_and_set-Finds b v)
  where
    count : free ≡ clear_below (is_set b) b.num_bits
    count = ground (arith, num_clear_lem b)

    go :
        (o : Option (Option ℕ × Bitmap))
        → find_and_set b ≡ o
        → Finds b o
        → (r : Option ℕ × Bitmap) × (find_and_set b ≡ some r) × Taken free r
    go _ e (found i b' l c before u) = ((some i, b'), e, Writes-count_set b b' i l c u ∙ sym count)
    go _ e (full h) =
        let z = clear_below-zero (is_set b) b.num_bits h in ((none, b), e, (count ∙ z, z))
