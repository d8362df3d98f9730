-- ===== src/FileHeader/Sectors.antt =====
-- The sectors that `FileHeader::Allocate` takes and `FileHeader::Deallocate` gives back
-- (NachOS-4.0/code/filesys/filehdr.cc).
use hcmus_csc10007_operating.Common.{
  ℕ, zero, suc, ◌+◌, ◌*◌, ◌<◌, ◌≤◌, ◌≡◌, ◌≢◌, refl, ap, sym, ◌∙◌, true, false, Option, some, ltb,
  arith, Bool-cases, ℕ_discrete, inl, inr,
}
use hcmus_csc10007_operating.Machine.State.{update}
use hcmus_csc10007_operating.Bitmap.{Bitmap, div_round_up, is_set, find_and_set}
use hcmus_csc10007_operating.Bitmap.Bits.{IsValid, Writes, Writes-here}
use hcmus_csc10007_operating.Bitmap.Allocation.{
  Finds, found, full, find_and_set-Finds, clear_below, num_clear_lem, Writes-other,
  Writes-count_set, clear_below-zero,
}
use hcmus_csc10007_operating.FileHeader.{
  FileHeader, Result, ok, sector_size, num_direct, set_sector, allocate_from, allocate,
}

-- The map `b` is `before` with the sectors `d lo` to `d (hi - 1)` taken, all different and all
-- free before.
pub record Owns (d : ℕ → ℕ) (lo hi : ℕ) (before b : Bitmap) : Type 0 where
  pub same_size : b.num_bits ≡ before.num_bits
  pub valid : IsValid b
  pub in_range : (x : ℕ) → lo ≤ x → x < hi → d x < before.num_bits
  pub free_before : (x : ℕ) → lo ≤ x → x < hi → is_set before (d x) ≡ false
  pub taken : (x : ℕ) → lo ≤ x → x < hi → is_set b (d x) ≡ true
  pub distinct : (x y : ℕ) → lo ≤ x → x < y → y < hi → d x ≢ d y
  pub others : (j : ℕ) → ((x : ℕ) → lo ≤ x → x < hi → d x ≢ j) → is_set b j ≡ is_set before j

pub true≢false : true ≢ false
true≢false = λ e. ground arith

update_self : (d : ℕ → ℕ) (n s : ℕ) → update d n s n ≡ s
update_self d n s = ground arith

update-ne : (d : ℕ → ℕ) (n s x : ℕ) → x ≢ n → update d n s x ≡ d x
update-ne d n s x h = ground arith

-- A step of the loop of `Allocate`.
module _ (d : ℕ → ℕ) (n s : ℕ) (before b b' : Bitmap) (o : Owns d 0 n before b) (l : s < b.num_bits)
    (free : is_set b s ≡ false) (u : Writes b s true b') where
  not_owned : (x : ℕ) → x < n → d x ≢ s
  not_owned x h = λ e. true≢false (sym (o.taken x (omega arith) h) ∙ ap (is_set b) e ∙ free)

  distinct_step : (x y : ℕ) → 0 ≤ x → x < y → y < suc n → update d n s x ≢ update d n s y
  distinct_step x y p q r = λ e.
      let ex = update-ne d n s x (λ z. omega arith) in
      elim (ℕ_discrete y n) [
        | yes z ↦ not_owned x (omega arith) (sym ex ∙ e ∙ ap (update d n s) z ∙ update_self d n s)
        | no z ↦ o.distinct x y p q (omega arith) (sym ex ∙ e ∙ update-ne d n s y z)
      ]

  others_step :
      (j : ℕ) → ((x : ℕ) → 0 ≤ x → x < suc n → update d n s x ≢ j) → is_set b' j ≡ is_set before j
  others_step j h =
      Writes-other b b' s j true u
        (λ e. h n (omega arith) (omega arith) (update_self d n s ∙ sym e))
      ∙ o.others j (λ x p q e. h x p (omega arith) (update-ne d n s x (λ z. omega arith) ∙ e))

  pub Owns-step : Owns (update d n s) 0 (suc n) before b'
  Owns-step = record {
    same_size = u.same_size ∙ o.same_size;
    valid = u.valid;
    in_range = λ x p q. elim (ℕ_discrete x n) [
      | yes e ↦ rw (e, update_self d n s) (omega (arith, l, o.same_size))
      | no e ↦ rw (update-ne d n s x e) (o.in_range x p (omega arith))
    ];
    free_before = λ x p q. elim (ℕ_discrete x n) [
      | yes e ↦
          ap (is_set before) (ap (update d n s) e ∙ update_self d n s)
          ∙ sym (o.others s (λ y _ k. not_owned y k))
          ∙ free
      | no e ↦ ap (is_set before) (update-ne d n s x e) ∙ o.free_before x p (omega arith)
    ];
    taken = λ x p q. elim (ℕ_discrete x n) [
      | yes e ↦ ap (is_set b') (ap (update d n s) e ∙ update_self d n s) ∙ Writes-here b b' s true u
      | no e ↦
          ap (is_set b') (update-ne d n s x e)
          ∙ Writes-other b b' s (d x) true u (not_owned x (omega arith))
          ∙ o.taken x p (omega arith)
    ];
    distinct = distinct_step;
    others = others_step;
  }

-- `FindAndSet` on a map that is not full.
pub find_some :
    (b : Bitmap)
    → IsValid b
    → 0 < clear_below (is_set b) b.num_bits
    → (s : ℕ) × (b' : Bitmap) × (find_and_set b ≡ some (some s, b'))
      × (s < b.num_bits)
      × (is_set b s ≡ false)
      × Writes b s true b'
find_some b v c = go (find_and_set b) refl (find_and_set-Finds b v)
  where
    go :
        (r : Option (Option ℕ × Bitmap))
        → find_and_set b ≡ r
        → Finds b r
        → (s : ℕ) × (b' : Bitmap) × (find_and_set b ≡ some (some s, b'))
          × (s < b.num_bits)
          × (is_set b s ≡ false)
          × Writes b s true b'
    go _ e (found s b' p f first u) = (s, b', e, p, f, u)
    go _ e (full a) = absurd (omega (arith, clear_below-zero (is_set b) b.num_bits a))

-- The loop of `Allocate` succeeds where the array and the map have room.
allocate_from_lem :
    (k i : ℕ) (h : FileHeader) (before b : Bitmap)
    → Owns h.data_sectors 0 i before b
    → i + k ≤ num_direct
    → k ≤ clear_below (is_set b) b.num_bits
    → (h' : FileHeader) × (b' : Bitmap) × (allocate_from k i h b ≡ ok true h' b')
      × (h'.num_bytes ≡ h.num_bytes)
      × (h'.num_sectors ≡ h.num_sectors)
      × Owns h'.data_sectors 0 (i + k) before b'
unfolding allocate_from
allocate_from_lem zero i h before b o l c =
    let e : i + 0 ≡ i = omega arith in (h, b, refl, refl, refl, rw e o)
allocate_from_lem (suc k) i h before b o l c =
    let (s, b1, e, p, f, u) = find_some b o.valid (omega arith) in
    let t : ltb i num_direct ≡ true = ground arith in
    let q : allocate_from (suc k) i h b ≡ allocate_from k (suc i) (set_sector h i s) b1 =
      ground arith in
    let (h', b', r, n1, n2, o') =
      allocate_from_lem k (suc i) (set_sector h i s) before b1
        (Owns-step h.data_sectors i s before b b1 o p f u) (omega arith)
        (omega (arith, Writes-count_set b b1 s p f u)) in
    let g : suc i + k ≡ i + suc k = omega arith in (h', b', q ∙ r, n1, n2, rw (sym g) o')

pub Owns-none : (d : ℕ → ℕ) (b : Bitmap) → IsValid b → Owns d 0 0 b b
Owns-none d b v = record {
  same_size = refl;
  valid = v;
  in_range = λ x p q. elim q [ ];
  free_before = λ x p q. elim q [ ];
  taken = λ x p q. elim q [ ];
  distinct = λ x y p q r. elim r [ ];
  others = λ j h. refl;
}

-- What `Allocate` is to do for a file of `size` bytes: where there are too few free sectors it
-- returns FALSE and leaves the map, otherwise TRUE with a header that owns as many sectors as the
-- size needs.
pub data Allocates (size : ℕ) (before : Bitmap) : Result → Type 0 where
  allocated :
      (h : FileHeader) (b : Bitmap)
      → div_round_up size sector_size ≤ clear_below (is_set before) before.num_bits
      → h.num_bytes ≡ size
      → h.num_sectors ≡ div_round_up size sector_size
      → Owns h.data_sectors 0 h.num_sectors before b
      → Allocates size before (ok true h b)
  no_space :
      (h : FileHeader)
      → clear_below (is_set before) before.num_bits < div_round_up size sector_size
      → Allocates size before (ok false h before)

-- For a size of at most `MaxFileSize` and a valid map, `Allocate` either returns TRUE with a header
-- whose sectors are all different, were free before and are taken now, no other bit of the map
-- changed; or, exactly where fewer sectors are free than needed, FALSE with the map unchanged.
pub allocate-Allocates :
    (size : ℕ) (h : FileHeader) (b : Bitmap)
    → IsValid b
    → size ≤ num_direct * sector_size
    → Allocates size b (allocate size h b)
unfolding allocate
allocate-Allocates size h b v l =
    let sectors = div_round_up size sector_size in
    let h1 : FileHeader = record h { num_bytes = size; num_sectors = sectors } in
    let n = num_clear_lem b in
    elim (Bool-cases (ltb (clear_below (is_set b) b.num_bits) sectors)) [
      | inl t ↦
          let q : allocate size h b ≡ ok false h1 b = ground arith in
          rw q (no_space h1 (ground arith))
      | inr t ↦
          let q : allocate size h b ≡ allocate_from sectors 0 h1 b = ground arith in
          let enough : sectors ≤ clear_below (is_set b) b.num_bits = ground arith in
          let (h', b', r, n1, n2, o) =
            allocate_from_lem sectors 0 h1 b b (Owns-none _ b v) (ground arith) enough in
          let e : 0 + sectors ≡ h'.num_sectors = omega (arith, n2) in
          rw (q ∙ r) (allocated h' b' enough n1 n2 (rw (sym e) o))
    ]
