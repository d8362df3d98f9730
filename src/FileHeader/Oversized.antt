-- ===== src/FileHeader/Oversized.antt =====
-- `FileHeader::Allocate` beyond `MaxFileSize` (NachOS-4.0/code/filesys/filehdr.cc).
use hcmus_csc10007_operating.Common.{
  ℕ, zero, suc, ◌+◌, ◌*◌, ◌<◌, ◌≤◌, ◌≡◌, ◌∙◌, true, false, ltb, arith, ℕ_discrete,
}
use hcmus_csc10007_operating.Bitmap.{Bitmap, div_round_up, is_set}
use hcmus_csc10007_operating.Bitmap.Bits.{IsValid}
use hcmus_csc10007_operating.Bitmap.Allocation.{clear_below, num_clear_lem, Writes-count_set}
use hcmus_csc10007_operating.FileHeader.Sectors.{Owns, Owns-none, find_some, Owns-step}
use hcmus_csc10007_operating.FileHeader.{
  FileHeader, overrun, sector_size, num_direct, set_sector, allocate_from, allocate,
}

oversized_from :
    (k i : ℕ) (h : FileHeader) (before b : Bitmap)
    → Owns h.data_sectors 0 i before b
    → i ≤ num_direct
    → num_direct < i + k
    → k ≤ clear_below (is_set b) b.num_bits
    → allocate_from k i h b ≡ overrun
unfolding allocate_from
oversized_from zero i h before b o p q c = absurd (omega arith)
oversized_from (suc k) i h before b o p q c = elim (ℕ_discrete i num_direct) [
  | yes e ↦ let t : ltb i num_direct ≡ false = ground arith in ground arith
  | no n ↦
      let (s, b1, e, l, f, u) = find_some b o.valid (omega arith) in
      let t : ltb i num_direct ≡ true = ground arith in
      let g : allocate_from (suc k) i h b ≡ allocate_from k (suc i) (set_sector h i s) b1 =
        ground arith in
      g
      ∙ oversized_from k (suc i) (set_sector h i s) before b1
          (Owns-step h.data_sectors i s before b b1 o l f u) (omega arith) (omega arith)
          (omega (arith, Writes-count_set b b1 s l f u))
]

-- `Allocate` checks the free space but not the length of `dataSectors`: for every size above
-- `MaxFileSize` for which a valid map has enough free sectors, no ASSERT fails before it writes past
-- the end of the array.
pub allocate-oversized :
    (size : ℕ) (h : FileHeader) (b : Bitmap)
    → IsValid b
    → num_direct * sector_size < size
    → div_round_up size sector_size ≤ clear_below (is_set b) b.num_bits
    → allocate size h b ≡ overrun
unfolding allocate
allocate-oversized size h b v l c =
    let sectors = div_round_up size sector_size in
    let h1 : FileHeader = record h { num_bytes = size; num_sectors = sectors } in
    let n = num_clear_lem b in
    let t : ltb (clear_below (is_set b) b.num_bits) sectors ≡ false = ground arith in
    let q : allocate size h b ≡ allocate_from sectors 0 h1 b = ground arith in
    q ∙ oversized_from sectors 0 h1 b b (Owns-none _ b v) (omega arith) (ground arith) c
