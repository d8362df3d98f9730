-- ===== src/SectorFile/Writing.antt =====
-- NachOS-4.0/code/filesys/openfile.cc: `WriteAt` against the contents of a file.
use hcmus_csc10007_operating.Common.{
  ℕ, zero, suc, ◌+◌, ◌-◌, ◌*◌, ◌/◌, ◌%◌, ◌≤◌, ◌<◌, ◌==◌, ltb, leb, ◌≡◌, ◌≢◌, refl, sym, ap, ◌∙◌,
  ◌&&◌, ◌||◌, not, false, if◌then◌else◌, some, Bool-cases, ◌⊎◌, inl, inr, arith, ltb→lt,
}
use hcmus_csc10007_operating.Common.Word.{sign_bit}
use hcmus_csc10007_operating.FileHeader.{FileHeader, sector_size}
use hcmus_csc10007_operating.SectorFile.{Bytes, Disk, bcopy, transferred, write_count, write_at}
use hcmus_csc10007_operating.SectorFile.Reading.{
  contents, Mapped, block_of_start, transferred_cases, blocks_short,
}
use hcmus_csc10007_operating.SectorFile.Sectors.{
  Stored, block_apart, write_sectors_lem, read_if_lem,
}
use hcmus_csc10007_operating.SectorFile.Blocks.{block_in, buffered, buffer_lem}

-- A write leaves the file's bytes with those from the buffer in their place, and no other sector of the
-- disk changed.
pub record Wrote (h : FileHeader) (from : Bytes) (position n : ℕ) (before d : Disk) : Type 0 where
  pub written :
      (j : ℕ) → j < h.num_bytes → contents h d j ≡ bcopy from 0 (contents h before) position n j
  pub kept :
      (s : ℕ) → ((j : ℕ) → j < h.num_bytes → h.data_sectors (j / sector_size) ≢ s) → d s ≡ before s

module _ (h : FileHeader) (d d' : Disk) (made from : Bytes) (position m first last : ℕ)
    (mapped : Mapped h) (ef : first ≡ position / sector_size)
    (el : last ≡ (position + suc m - 1) / sector_size) (l : position + suc m ≤ h.num_bytes) where
  abbrev changed : Bytes
  changed =
      bcopy from 0
        (buffered h d made (not (position == first * sector_size))
          (not (position + suc m == (last + 1) * sector_size)
            && (not (first == last) || position == first * sector_size))
          first last)
        (position - first * sector_size) (suc m)

  bcopy_outside :
      (to : Bytes) (j : ℕ)
      → (j < position) ⊎ (position + suc m ≤ j)
      → bcopy from 0 to position (suc m) j ≡ to j
  bcopy_outside to j (inl a) = ground arith
  bcopy_outside to j (inr a) = ground arith

  in_file : (b : ℕ) → b < first + (1 + last - first) → b * sector_size < h.num_bytes
  in_file b q = omega (arith, ef, el)

  other_block :
      (b j : ℕ)
      → first ≤ b
      → b < first + (1 + last - first)
      → (leb first (j / sector_size) && leb (j / sector_size) last) ≡ false
      → b ≢ j / sector_size
  other_block b j p q e = λ z. ground (arith, ef, el)

  outside :
      (j : ℕ)
      → (leb first (j / sector_size) && leb (j / sector_size) last) ≡ false
      → (j < position) ⊎ (position + suc m ≤ j)
  outside j e = elim (Bool-cases (ltb j position)) [
    | inl a ↦ inl (ltb→lt j position a)
    | inr a ↦ inr (ground (arith, ef, el))
  ]

  Stored-Wrote :
      Stored h first first (first + (1 + last - first)) changed d d'
      → Wrote h from position (suc m) d d'
  Stored-Wrote v = record {
    written = λ j r. elim (Bool-cases (leb first (j / sector_size) && leb (j / sector_size) last)) [
      | inl e ↦
          v.inside (j / sector_size) (ground arith) (ground arith) (j % sector_size) (omega arith)
          ∙ ap changed (ground arith)
          ∙ buffer_lem h d made from position m j first last ef el (ground arith) (ground arith) r
              mapped.fits
      | inr e ↦
          ap (λ (f : Bytes). f (j % sector_size))
            (v.others (h.data_sectors (j / sector_size)) (λ b p q z.
              block_apart h b (j / sector_size) mapped (in_file b q) (omega arith)
                (other_block b j p q e) z))
          ∙ sym (bcopy_outside (contents h d) j (outside j e))
    ];
    kept = λ s k.
        v.others s
          (λ b p q z. k (b * sector_size) (in_file b q) (ap h.data_sectors (block_of_start b) ∙ z));
  }

write_count-Wrote :
    (h : FileHeader) (d : Disk) (made from : Bytes) (n position : ℕ)
    → Mapped h
    → position + n ≤ h.num_bytes ⊎ (n ≡ 0)
    → (d' : Disk) × (write_count h d made from n position ≡ some (n, d'))
      × Wrote h from position n d d'
unfolding write_count
write_count-Wrote h d made from zero position m l =
    (d, refl, record { written = λ j r. ground arith; kept = λ s k. refl })
write_count-Wrote h d made from (suc m) position mapped (inr e) = cc
write_count-Wrote h d made from (suc m) position mapped (inl l) =
    let first = position / sector_size in
    let last = (position + suc m - 1) / sector_size in
    let t1 = not (position == first * sector_size) in
    let t2 =
      not (position + suc m == (last + 1) * sector_size)
      && (not (first == last) || position == first * sector_size) in
    let f = mapped.fits in
    let no_wrap : leb sign_bit (position + suc m) ≡ false = ground arith in
    let c = changed h d d made from position m first last mapped refl refl l in
    let r =
      write_sectors_lem (1 + last - first) first first h c d mapped (omega arith)
        (λ t p. blocks_short h position (suc m) t (omega arith) l p) in
    (
      r.0,
      rw
          (
            no_wrap,
            read_if_lem t1 h d made made 0 (first * sector_size) mapped (omega arith),
            read_if_lem t2 h d made (if t1 then block_in h d made 0 first else made)
                ((last - first) * sector_size) (last * sector_size) mapped (omega arith),
            r.1,
          )
          refl,
      Stored-Wrote h d r.0 made from position m first last mapped refl refl l r.2,
    )

-- WriteAt of a file of at most MaxFileSize bytes whose blocks stand in different sectors of the disk,
-- with position + num below 2 ^ 31, passes the disk's ASSERTs and
-- returns how many of the bytes offered there is room for in the file from the position on; the
-- file's contents then are these bytes at the position and are otherwise as they were, and a sector
-- that is not the file's keeps its bytes.
pub write_at-Wrote :
    (h : FileHeader) (d : Disk) (made from : Bytes) (num position : ℕ)
    → Mapped h
    → position + num < sign_bit
    → (d' : Disk) × (write_at h d made from num position ≡ some (transferred h num position, d'))
      × Wrote h from position (transferred h num position) d d'
unfolding write_at
write_at-Wrote h d made from num position m short =
    write_count-Wrote h d made from (transferred h num position) position m
      (transferred_cases h num position short)
