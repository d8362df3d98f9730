-- ===== src/SectorFile.antt =====
-- NachOS-4.0/code/filesys/openfile.cc: class `OpenFile` of the file system on the simulated disk, over the
-- headers of NachOS-4.0/code/filesys/filehdr.cc and the sectors of NachOS-4.0/code/filesys/synchdisk.cc and
-- NachOS-4.0/code/machine/disk.cc.
--
-- A disk is the bytes of its sectors, a buffer the bytes from its start on; the contents of a buffer
-- that `new` returns are an argument. Positions and counts are those from 0 on, below 2 ^ 31; the
-- `int` sum of the two wraps around in the test of the length. `none` is a failed ASSERT of the
-- disk, or what follows where the sum has wrapped: the count is not cut off, and the size that `new`
-- is asked for is negative or goes past the table of sectors. The wait for the disk's interrupt is not here: a request's data is copied
-- when it is made, and the lock lets no other thread in before it is answered.
pub mod Reading
pub mod Sectors
pub mod Blocks
pub mod Writing
pub mod RoundTrip
use hcmus_csc10007_operating.Common.{
  ℕ, zero, suc, ◌+◌, ◌-◌, ◌*◌, ◌/◌, ◌%◌, ◌==◌, ltb, leb, ◌&&◌, ◌||◌, not, Bool, true, false,
  if◌then◌else◌, Option, none, some, ◌>>=◌,
}
use hcmus_csc10007_operating.Common.Word.{sign_bit, add32}
use hcmus_csc10007_operating.FileHeader.{FileHeader, sector_size, byte_to_sector, file_length}

abbrev pub num_sectors : ℕ
num_sectors = 1024

abbrev pub Bytes : Type 0
Bytes = ℕ → ℕ

abbrev pub Disk : Type 0
Disk = ℕ → Bytes

-- `bcopy` of n bytes from `from` at `i` to `to` at `at`.
abbrev pub bcopy : Bytes → ℕ → Bytes → ℕ → ℕ → Bytes
bcopy from i to at n j = if leb at j && ltb j (at + n) then from (i + (j - at)) else to j

unfoldable pub read_sector : ℕ → Disk → Bytes → ℕ → Option Bytes
read_sector sector d buf at =
    if ltb sector num_sectors then some (bcopy (d sector) 0 buf at sector_size) else none

unfoldable pub write_sector : ℕ → Disk → Bytes → ℕ → Option Disk
write_sector sector d buf at =
    if ltb sector num_sectors
    then some (λ s. if s == sector then bcopy buf at (d s) 0 sector_size else d s)
    else none

pub record OpenFile : Type 0 where
  pub hdr : FileHeader
  pub seek_position : ℕ

unfoldable pub seek : ℕ → OpenFile → OpenFile
seek position f = record f { seek_position = position }

-- The number of bytes that are read or written: none, or those up to the end of the file.
unfoldable pub transferred : FileHeader → ℕ → ℕ → ℕ
transferred h num position =
    if num == 0 || leb (file_length h) position
    then 0
    else if ltb (add32 position num) sign_bit && ltb (file_length h) (add32 position num)
    then file_length h - position
    else num

-- The loop over the sectors, with `k` left from `i` on.
pub read_sectors : ℕ → ℕ → ℕ → FileHeader → Disk → Bytes → Option Bytes
read_sectors zero i first h d buf = some buf
read_sectors (suc k) i first h d buf = do
  buf' ← read_sector (byte_to_sector h (i * sector_size)) d buf ((i - first) * sector_size)
  read_sectors k (suc i) first h d buf'

pub write_sectors : ℕ → ℕ → ℕ → FileHeader → Bytes → Disk → Option Disk
write_sectors zero i first h buf d = some d
write_sectors (suc k) i first h buf d = do
  d' ← write_sector (byte_to_sector h (i * sector_size)) d buf ((i - first) * sector_size)
  write_sectors k (suc i) first h buf d'

-- ReadAt of n bytes into the buffer `into` from the place `at` on; `made` is what `new` returns.
unfoldable pub read_count : FileHeader → Disk → Bytes → Bytes → ℕ → ℕ → ℕ → Option (ℕ × Bytes)
read_count h d made into at zero position = some (0, into)
read_count h d made into at (suc m) position =
    let first = position / sector_size in
    let last = (position + suc m - 1) / sector_size in
    let done = (do
      buf ← read_sectors (1 + last - first) first first h d made
      some (suc m, bcopy buf (position - first * sector_size) into at (suc m))) in
    if leb sign_bit (position + suc m) then none else done

unfoldable pub read_at : FileHeader → Disk → Bytes → Bytes → ℕ → ℕ → ℕ → Option (ℕ × Bytes)
read_at h d made into at num position =
    read_count h d made into at (transferred h num position) position

-- The first and the last sector are read where they are not written whole.
abbrev pub read_if : Bool → FileHeader → Disk → Bytes → Bytes → ℕ → ℕ → Option Bytes
read_if test h d made buf at position =
    if test then (do r ← read_at h d made buf at sector_size position; some r.1) else some buf

-- WriteAt of n bytes.
unfoldable pub write_count : FileHeader → Disk → Bytes → Bytes → ℕ → ℕ → Option (ℕ × Disk)
write_count h d made from zero position = some (0, d)
write_count h d made from (suc m) position =
    let n : ℕ = suc m in
    let first = position / sector_size in
    let last = (position + n - 1) / sector_size in
    let first_aligned = position == first * sector_size in
    let last_aligned = position + n == (last + 1) * sector_size in
    let done = (do
      buf ← read_if (not first_aligned) h d made made 0 (first * sector_size)
      buf' ←
          read_if (not last_aligned && (not (first == last) || first_aligned)) h d made buf
            ((last - first) * sector_size) (last * sector_size)
      let changed = bcopy from 0 buf' (position - first * sector_size) n
      d' ← write_sectors (1 + last - first) first first h changed d
      some (n, d')) in
    if leb sign_bit (position + n) then none else done

unfoldable pub write_at : FileHeader → Disk → Bytes → Bytes → ℕ → ℕ → Option (ℕ × Disk)
write_at h d made from num position =
    write_count h d made from (transferred h num position) position

unfoldable pub read : OpenFile → Disk → Bytes → Bytes → ℕ → Option (ℕ × Bytes × OpenFile)
read f d made into num = do
  r ← read_at f.hdr d made into 0 num f.seek_position
  some (r.0, r.1, record f { seek_position = f.seek_position + r.0 })

unfoldable pub write : OpenFile → Disk → Bytes → Bytes → ℕ → Option (ℕ × Disk × OpenFile)
write f d made from num = do
  r ← write_at f.hdr d made from num f.seek_position
  some (r.0, r.1, record f { seek_position = f.seek_position + r.0 })
