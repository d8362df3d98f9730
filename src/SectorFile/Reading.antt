-- ===== src/SectorFile/Reading.antt =====
-- NachOS-4.0/code/filesys/openfile.cc: `ReadAt` against the contents of a file.
use hcmus_csc10007_operating.Common.{
  ℕ, zero, suc, ◌+◌, ◌-◌, ◌*◌, ◌/◌, ◌%◌, ◌≤◌, ◌<◌, ◌==◌, ltb, leb, ◌≡◌, refl, ap, ◌∙◌, ◌&&◌, ◌||◌,
  true, false, some, Bool-cases, ◌⊎◌, inl, inr, arith,
}
use mathlib.Core.Path.{fun_ext}
use hcmus_csc10007_operating.Common.Word.{sign_bit}
use hcmus_csc10007_operating.FileHeader.{
  FileHeader, sector_size, num_direct, byte_to_sector, file_length,
}
use hcmus_csc10007_operating.SectorFile.{
  num_sectors, Bytes, Disk, bcopy, read_sector, transferred, read_sectors, read_count, read_at,
}

-- The file's bytes, by the header's sectors.
abbrev pub contents : FileHeader → Disk → Bytes
contents h d i = d (h.data_sectors (i / sector_size)) (i % sector_size)

-- The file's length is one that the table of sectors has room for, the sectors of its bytes are
-- there, and two blocks have different ones.
pub record Mapped (h : FileHeader) : Type 0 where
  pub fits : h.num_bytes ≤ num_direct * sector_size
  pub on_disk : (i : ℕ) → i < h.num_bytes → h.data_sectors (i / sector_size) < num_sectors
  pub apart :
      (i j : ℕ)
      → i < h.num_bytes
      → j < h.num_bytes
      → h.data_sectors (i / sector_size) ≡ h.data_sectors (j / sector_size)
      → i / sector_size ≡ j / sector_size

pub block_of_start : (i : ℕ) → i * sector_size / sector_size ≡ i
block_of_start i = omega arith

pub sector_on_disk :
    (h : FileHeader) (i : ℕ)
    → Mapped h
    → i * sector_size < h.num_bytes
    → byte_to_sector h (i * sector_size) < num_sectors
unfolding byte_to_sector
sector_on_disk h i m l = m.on_disk (i * sector_size) l

-- Blocks `first` to `i + k` of the file, from the start of the buffer on.
pub record Loaded (h : FileHeader) (d : Disk) (first lo hi : ℕ) (before buf : Bytes) : Type 0 where
  pub inside :
      (j : ℕ)
      → (lo - first) * sector_size ≤ j
      → j < (hi - first) * sector_size
      → buf j ≡ contents h d (first * sector_size + j)
  pub outside : (j : ℕ) → j < (lo - first) * sector_size → buf j ≡ before j

pub bcopy_inside :
    (from : Bytes) (i : ℕ) (to : Bytes) (at n j : ℕ)
    → at ≤ j
    → j < at + n
    → bcopy from i to at n j ≡ from (i + (j - at))
bcopy_inside from i to at n j h k = ground arith

bcopy_before :
    (from : Bytes) (i : ℕ) (to : Bytes) (at n j : ℕ) → j < at → bcopy from i to at n j ≡ to j
bcopy_before from i to at n j h = ground arith

-- One block of the file as `bcopy` places it.
block_lem :
    (h : FileHeader) (d : Disk) (first i j : ℕ)
    → first ≤ i
    → (i - first) * sector_size ≤ j
    → j < (suc i - first) * sector_size
    → d (byte_to_sector h (i * sector_size)) (0 + (j - (i - first) * sector_size))
      ≡ contents h d (first * sector_size + j)
unfolding byte_to_sector
block_lem h d first i j l p q =
    let b : i * sector_size / sector_size ≡ (first * sector_size + j) / sector_size = omega arith in
    let o : 0 + (j - (i - first) * sector_size) ≡ (first * sector_size + j) % sector_size =
      omega arith in
    λ t. d (h.data_sectors (b t)) (o t)

pub read_sectors_lem :
    (k i first : ℕ) (h : FileHeader) (d : Disk) (buf : Bytes)
    → Mapped h
    → first ≤ i
    → ((r : ℕ) → r < i + k → r * sector_size < h.num_bytes)
    → (buf' : Bytes) × (read_sectors k i first h d buf ≡ some buf')
      × Loaded h d first i (i + k) buf buf'
unfolding read_sectors read_sector
read_sectors_lem zero i first h d buf m l short =
    (buf, refl, record { inside = λ j p q. absurd (omega arith); outside = λ j p. refl })
read_sectors_lem (suc k) i first h d buf m l short =
    let s = byte_to_sector h (i * sector_size) in
    let next : Bytes = bcopy (d s) 0 buf ((i - first) * sector_size) sector_size in
    let on = sector_on_disk h i m (short i (omega arith)) in
    let r =
      read_sectors_lem k (suc i) first h d next m (omega arith) (λ t p. short t (omega arith)) in
    let v = r.2 in
    let there : ltb s num_sectors ≡ true = ground arith in
    (
      r.0,
      rw there r.1,
      record {
        inside = λ j p q. elim (Bool-cases (ltb j ((suc i - first) * sector_size))) [
          | inl e ↦
              let c : j < (suc i - first) * sector_size = ground arith in
              v.outside j c
              ∙ bcopy_inside (d s) 0 buf ((i - first) * sector_size) sector_size j p (omega arith)
              ∙ block_lem h d first i j l p c
          | inr e ↦ v.inside j (ground arith) (omega arith)
        ];
        outside = λ j p.
            v.outside j (omega arith)
            ∙ bcopy_before (d s) 0 buf ((i - first) * sector_size) sector_size j p;
      },
    )

-- The blocks that hold the bytes from `position` on are blocks of the file.
pub blocks_short :
    (h : FileHeader) (position n r : ℕ)
    → 0 < n
    → position + n ≤ h.num_bytes
    → r < position / sector_size + (1 + (position + n - 1) / sector_size - position / sector_size)
    → r * sector_size < h.num_bytes
blocks_short h position n r p l q = omega arith

bcopy_ext :
    (from from' : Bytes) (i i' : ℕ) (to : Bytes) (at n : ℕ)
    → ((j : ℕ) → j < n → from (i + j) ≡ from' (i' + j))
    → bcopy from i to at n ≡ bcopy from' i' to at n
bcopy_ext from from' i i' to at n h = fun_ext λ j. elim (Bool-cases (leb at j && ltb j (at + n))) [
  | inl e ↦ rw e (h (j - at) (ground arith))
  | inr e ↦ rw e refl
]

read_count_lem :
    (h : FileHeader) (d : Disk) (made into : Bytes) (at n position : ℕ)
    → Mapped h
    → position + n ≤ h.num_bytes ⊎ (n ≡ 0)
    → read_count h d made into at n position ≡ some (n, bcopy (contents h d) position into at n)
unfolding read_count
read_count_lem h d made into at zero position m l =
    ap (λ (b : Bytes). some (0, b)) (fun_ext λ j. ground arith)
read_count_lem h d made into at (suc n) position m (inr e) = cc
read_count_lem h d made into at (suc n) position m (inl l) =
    let first = position / sector_size in
    let last = (position + suc n - 1) / sector_size in
    let no_wrap : leb sign_bit (position + suc n) ≡ false = ground (arith, l, m.fits) in
    let r =
      read_sectors_lem (1 + last - first) first first h d made m (omega arith)
        (λ t p. blocks_short h position (suc n) t (omega arith) l p) in
    let same : bcopy r.0 (position - first * sector_size) into at (suc n)
        ≡ bcopy (contents h d) position into at (suc n) =
      bcopy_ext r.0 (contents h d) (position - first * sector_size) position into at (suc n) (λ j p.
        r.2.inside (position - first * sector_size + j) (omega arith) (omega arith)
        ∙ ap (contents h d) (omega arith)) in
    rw (no_wrap, r.1) (ap (λ (b : Bytes). some (suc n, b)) same)

pub transferred_cases :
    (h : FileHeader) (num position : ℕ)
    → position + num < sign_bit
    → position + transferred h num position ≤ h.num_bytes ⊎ (transferred h num position ≡ 0)
unfolding transferred file_length
transferred_cases h num position short = elim (Bool-cases (num == 0 || leb h.num_bytes position)) [
  | inl e ↦ inr (rw e refl)
  | inr e ↦ inl (rw e (ground arith))
]

-- ReadAt of a file of at most MaxFileSize bytes whose blocks stand in different sectors of the disk,
-- with position + num below 2 ^ 31, passes the disk's ASSERTs: it returns
-- how many of the bytes asked for the file has from the position on, and the buffer has these
-- bytes of the file from the place on and is otherwise as it was.
pub read_at-contents :
    (h : FileHeader) (d : Disk) (made into : Bytes) (at num position : ℕ)
    → Mapped h
    → position + num < sign_bit
    → read_at h d made into at num position
      ≡ some (
        transferred h num position,
        bcopy (contents h d) position into at (transferred h num position),
      )
unfolding read_at
read_at-contents h d made into at num position m short =
    read_count_lem h d made into at (transferred h num position) position m
      (transferred_cases h num position short)
