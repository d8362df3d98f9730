-- ===== src/FileHeader/Release.antt =====
-- `FileHeader::Deallocate` and `FileHeader::ByteToSector` on the sectors that `Allocate` took
-- (NachOS-4.0/code/filesys/filehdr.cc).
use hcmus_csc10007_operating.Common.{
  ℕ, zero, suc, ◌+◌, ◌*◌, ◌/◌, ◌<◌, ◌≤◌, ◌≡◌, ◌≢◌, refl, ap, sym, ◌∙◌, true, false, some, arith,
  ℕ_discrete, dec_lt, ◌↔◌,
}
use hcmus_csc10007_operating.Bitmap.{Bitmap, div_round_up, is_set}
use hcmus_csc10007_operating.Bitmap.Bits.{IsValid, Writes, Writes-here, clear-Writes}
use hcmus_csc10007_operating.Bitmap.Allocation.{test_lem, Writes-other}
use hcmus_csc10007_operating.FileHeader.Sectors.{Owns, Allocates, allocated, allocate-Allocates}
use hcmus_csc10007_operating.FileHeader.{
  FileHeader, ok, sector_size, num_direct, byte_to_sector, allocate, deallocate_from, deallocate,
}

-- A step of the loop of `Deallocate`.
module _ (d : ℕ → ℕ) (lo hi : ℕ) (before b b' : Bitmap) (o : Owns d lo hi before b) (l : lo < hi)
    (u : Writes b (d lo) false b') where
  keep_others : (j : ℕ) → ((x : ℕ) → suc lo ≤ x → x < hi → d x ≢ j) → is_set b' j ≡ is_set before j
  keep_others j h = elim (ℕ_discrete (d lo) j) [
    | yes e ↦
        ap (is_set b') (sym e)
        ∙ Writes-here b b' (d lo) false u
        ∙ sym (o.free_before lo (omega arith) l)
        ∙ ap (is_set before) e
    | no e ↦
        Writes-other b b' (d lo) j false u (λ q. e (sym q))
        ∙ o.others j (λ x p q. elim (ℕ_discrete x lo) [
          | yes z ↦ λ w. e (ap d (sym z) ∙ w)
          | no z ↦ h x (omega arith) q
        ])
  ]

  pub Owns-drop : Owns d (suc lo) hi before b'
  Owns-drop = record {
    same_size = u.same_size ∙ o.same_size;
    valid = u.valid;
    in_range = λ x p q. o.in_range x (omega arith) q;
    free_before = λ x p q. o.free_before x (omega arith) q;
    taken = λ x p q.
        Writes-other b b' (d lo) (d x) false u
          (λ e. o.distinct lo x (omega arith) (omega arith) q (sym e))
        ∙ o.taken x (omega arith) q;
    distinct = λ x y p q r. o.distinct x y (omega arith) q r;
    others = keep_others;
  }

deallocate_from_lem :
    (k i : ℕ) (h : FileHeader) (before b : Bitmap)
    → Owns h.data_sectors i (i + k) before b
    → (b' : Bitmap) × (deallocate_from k i h b ≡ some b')
      × (b'.num_bits ≡ before.num_bits)
      × IsValid b'
      × ((j : ℕ) → is_set b' j ≡ is_set before j)
unfolding deallocate_from
deallocate_from_lem zero i h before b o =
    (b, refl, o.same_size, o.valid, λ j. o.others j (λ x p q. absurd (omega arith)))
deallocate_from_lem (suc k) i h before b o =
    let r : h.data_sectors i < b.num_bits =
      omega (arith, o.same_size, o.in_range i (omega arith) (omega arith)) in
    let t = test_lem b (h.data_sectors i) r in
    let s = o.taken i (omega arith) (omega arith) in
    let (b1, c, u) = clear-Writes b (h.data_sectors i) o.valid r in
    let g : i + suc k ≡ suc i + k = omega arith in
    let (b', q, n, w, e) =
      deallocate_from_lem k (suc i) h before b1
        (rw (sym g) (Owns-drop h.data_sectors i (i + suc k) before b b1 o (omega arith) u)) in
    let f : deallocate_from (suc k) i h b ≡ deallocate_from k (suc i) h b1 = ground arith in
    (b', f ∙ q, n, w, e)

-- `Deallocate` of a header that owns its sectors gives them back: no ASSERT fails, and every bit
-- of the map is what it was before the sectors were taken.
pub deallocate-Owns :
    (h : FileHeader) (before b : Bitmap)
    → Owns h.data_sectors 0 h.num_sectors before b
    → (b' : Bitmap) × (deallocate h b ≡ some b')
      × (b'.num_bits ≡ before.num_bits)
      × IsValid b'
      × ((j : ℕ) → is_set b' j ≡ is_set before j)
unfolding deallocate
deallocate-Owns h before b o =
    let g : h.num_sectors ≡ 0 + h.num_sectors = omega arith in
    deallocate_from_lem h.num_sectors 0 h before b (rw (sym g) o)

pub Allocates-Owns :
    (size : ℕ) (h : FileHeader) (before b : Bitmap)
    → Allocates size before (ok true h b)
    → Owns h.data_sectors 0 h.num_sectors before b
Allocates-Owns size h before b (allocated _ _ c n1 n2 o) = o

-- The sectors that a successful `Allocate` took are given back by `Deallocate`: no ASSERT fails,
-- and the map is valid and has the same bits as before the allocation.
pub allocate-deallocate :
    (size : ℕ) (h h' : FileHeader) (b b' : Bitmap)
    → IsValid b
    → size ≤ num_direct * sector_size
    → allocate size h b ≡ ok true h' b'
    → (b2 : Bitmap) × (deallocate h' b' ≡ some b2)
      × (b2.num_bits ≡ b.num_bits)
      × IsValid b2
      × ((j : ℕ) → is_set b2 j ≡ is_set b j)
allocate-deallocate size h h' b b' v l e =
    deallocate-Owns h' b b'
      (Allocates-Owns size h' b b' (rw (sym e) (allocate-Allocates size h b v l)))

module _ (size : ℕ) (h : FileHeader) (before b : Bitmap) (i j : ℕ)
    (o : Owns h.data_sectors 0 (div_round_up size sector_size) before b) (p : i < size)
    (q : j < size) where
  block_i : i / 128 < div_round_up size sector_size
  block_i = ground arith

  block_j : j / 128 < div_round_up size sector_size
  block_j = ground arith

  same_block : byte_to_sector h i ≡ byte_to_sector h j → i / sector_size ≡ j / sector_size
  unfolding byte_to_sector
  same_block e = elim (dec_lt (i / 128) (j / 128)) [
    | yes l ↦ absurd (o.distinct (i / 128) (j / 128) (omega arith) l block_j e)
    | no l ↦ elim (dec_lt (j / 128) (i / 128)) [
      | yes g ↦ absurd (o.distinct (j / 128) (i / 128) (omega arith) g block_i (sym e))
      | no g ↦ omega arith
    ]
  ]

  sector_taken : is_set b (byte_to_sector h i) ≡ true
  unfolding byte_to_sector
  sector_taken = o.taken (i / 128) (omega arith) block_i

Allocates-sectors :
    (size : ℕ) (h : FileHeader) (before b : Bitmap)
    → Allocates size before (ok true h b)
    → h.num_sectors ≡ div_round_up size sector_size
Allocates-sectors size h before b (allocated _ _ c n1 n2 o) = n2

-- After a successful `Allocate`, `ByteToSector` gives every byte of the file a sector that is marked
-- in the map, and two bytes the same sector exactly when they lie in the same block of the file.
pub allocate-byte_to_sector :
    (size : ℕ) (h h' : FileHeader) (b b' : Bitmap) (i j : ℕ)
    → IsValid b
    → size ≤ num_direct * sector_size
    → allocate size h b ≡ ok true h' b'
    → i < size
    → j < size
    → (is_set b' (byte_to_sector h' i) ≡ true)
      × ((byte_to_sector h' i ≡ byte_to_sector h' j) ↔ (i / sector_size ≡ j / sector_size))
unfolding byte_to_sector
allocate-byte_to_sector size h h' b b' i j v l e p q =
    let a : Allocates size b (ok true h' b') = rw (sym e) (allocate-Allocates size h b v l) in
    let o : Owns h'.data_sectors 0 (div_round_up size sector_size) b b' =
      rw (sym (Allocates-sectors size h' b b' a)) (Allocates-Owns size h' b b' a) in
    (
      sector_taken size h' b b' i j o p q,
      (same_block size h' b b' i j o p q, λ s. ap h'.data_sectors s),
    )
