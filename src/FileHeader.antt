-- ===== src/FileHeader.antt =====
-- NachOS-4.0/code/filesys/filehdr.cc: class `FileHeader`, the table of a file's disk sectors, with the
-- allocation of sectors out of the map of free sectors (NachOS-4.0/code/lib/bitmap.cc).
--
-- `fault` is a failed ASSERT; `overrun` is a write past the end of `dataSectors`, which the source
-- does not guard against, and whose effect C++ leaves open. `FetchFrom` and `WriteBack` copy the whole
-- structure from and to the disk and are not modelled.
pub mod Sectors
pub mod Release
pub mod Oversized
use hcmus_csc10007_operating.Common.{
  ℕ, zero, suc, ◌+◌, ◌/◌, Bool, true, false, Option, none, some, ltb, if◌then◌else◌,
}
use hcmus_csc10007_operating.Machine.State.{update}
use hcmus_csc10007_operating.Bitmap.{Bitmap, div_round_up, test, clear, find_and_set, num_clear}

abbrev pub sector_size : ℕ
sector_size = 128

-- `NumDirect`, the length of `dataSectors`.
abbrev pub num_direct : ℕ
num_direct = 30

-- The fields of the source; `data_sectors` is an array of `num_direct` numbers.
pub record FileHeader : Type 0 where
  pub num_bytes : ℕ
  pub num_sectors : ℕ
  pub data_sectors : ℕ → ℕ

pub data Result : Type 0 where
  ok : Bool → FileHeader → Bitmap → Result
  fault overrun : Result

abbrev pub set_sector : FileHeader → ℕ → ℕ → FileHeader
set_sector h i sector = record h { data_sectors = update h.data_sectors i sector }

-- The loop of `Allocate` from sector `i`, with `k` sectors left.
unfoldable pub allocate_from : ℕ → ℕ → FileHeader → Bitmap → Result
allocate_from zero i h free_map = ok true h free_map
allocate_from (suc k) i h free_map = elim (ltb i num_direct) [
  | true ↦ elim (find_and_set free_map) [
    | some (some sector, map') ↦ allocate_from k (suc i) (set_sector h i sector) map'
    | _ ↦ fault
  ]
  | false ↦ overrun
]

unfoldable pub allocate : ℕ → FileHeader → Bitmap → Result
allocate file_size h free_map =
    let sectors = div_round_up file_size sector_size in
    let h' : FileHeader = record h { num_bytes = file_size; num_sectors = sectors } in
    elim (num_clear free_map) [
      | some free ↦
          (if ltb free sectors then ok false h' free_map else allocate_from sectors 0 h' free_map)
      | none ↦ fault
    ]

-- The loop of `Deallocate` from sector `i`, with `k` sectors left.
unfoldable pub deallocate_from : ℕ → ℕ → FileHeader → Bitmap → Option Bitmap
deallocate_from zero i h free_map = some free_map
deallocate_from (suc k) i h free_map = elim (test (h.data_sectors i) free_map) [
  | some true ↦ elim (clear (h.data_sectors i) free_map) [
    | some map' ↦ deallocate_from k (suc i) h map'
    | none ↦ none
  ]
  | _ ↦ none
]

-- `none` is a failed ASSERT.
unfoldable pub deallocate : FileHeader → Bitmap → Option Bitmap
deallocate h free_map = deallocate_from h.num_sectors 0 h free_map

unfoldable pub byte_to_sector : FileHeader → ℕ → ℕ
byte_to_sector h offset = h.data_sectors (offset / sector_size)

unfoldable pub file_length : FileHeader → ℕ
file_length h = h.num_bytes
