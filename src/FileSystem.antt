-- ===== src/FileSystem.antt =====
-- NachOS-4.0/code/filesys/filesys.cc: `Create` and `Remove` of class `FileSystem`, on the bitmap of sectors, the
-- directory and the headers as they stand on the disk.
--
-- Both operations read the bitmap and the directory whole from their files and write them back
-- whole, and a header from and to its own sector; so the disk is these three. The sectors with
-- the files' contents play no part. `fault` is a failed ASSERT or a write out of bounds.
pub mod Lifetime
pub mod Removal
use hcmus_csc10007_operating.Common.{ℕ, Bool, true, false, Option, none, some, ◌==◌, if◌then◌else◌}
use hcmus_csc10007_operating.Common.Strings.{Chars}
use hcmus_csc10007_operating.Bitmap.{Bitmap, clear, find_and_set}
use hcmus_csc10007_operating.FileHeader.{FileHeader, allocate, deallocate}
use hcmus_csc10007_operating.FileHeader
use hcmus_csc10007_operating.Directory.{Directory, find, add, remove}

pub record Disk : Type 0 where
  pub free_map : Bitmap
  pub directory : Directory
  pub headers : ℕ → FileHeader

pub data Result : Type 0 where
  ok : Bool → Disk → Result
  fault : Result

-- What is written back by a successful `Create`.
abbrev pub flush : Disk → ℕ → FileHeader → Directory → Bitmap → Disk
flush d sector hdr directory free_map = record {
  free_map = free_map;
  directory = directory;
  headers = λ s. if s == sector then hdr else d.headers s;
}

-- `hdr` is the uninitialised header that `new` returns.
unfoldable pub create_header : Chars → ℕ → FileHeader → ℕ → Directory → Bitmap → Disk → Result
create_header name initial_size hdr sector directory free_map d =
    elim (allocate initial_size hdr free_map) [
      | FileHeader.ok true hdr' map' ↦ ok true (flush d sector hdr' directory map')
      | FileHeader.ok false hdr' map' ↦ ok false d
      | FileHeader.fault ↦ fault
      | FileHeader.overrun ↦ fault
    ]

unfoldable pub create_entry : Chars → ℕ → FileHeader → ℕ → Bitmap → Disk → Result
create_entry name initial_size hdr sector free_map d =
    let (added, directory) = add name sector d.directory in
    if added then create_header name initial_size hdr sector directory free_map d else ok false d

unfoldable pub create : Chars → ℕ → FileHeader → Disk → Result
create name initial_size hdr d = elim (find name d.directory) [
  | some s ↦ ok false d
  | none ↦ elim (find_and_set d.free_map) [
    | some (some sector, free_map) ↦ create_entry name initial_size hdr sector free_map d
    | some (none, free_map) ↦ ok false d
    | none ↦ fault
  ]
]

unfoldable pub remove_file : Chars → Disk → Result
remove_file name d = elim (find name d.directory) [
  | none ↦ ok false d
  | some sector ↦ elim (deallocate (d.headers sector) d.free_map) [
    | some map1 ↦ elim (clear sector map1) [
      | some map2 ↦ ok true (record d { free_map = map2; directory = (remove name d.directory).1 })
      | none ↦ fault
    ]
    | none ↦ fault
  ]
]
