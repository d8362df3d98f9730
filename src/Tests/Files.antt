-- ===== src/Tests/Files.antt =====
-- The bitmap (NachOS-4.0/code/lib) and the file system's structures (NachOS-4.0/code/filesys) on concrete inputs.
use hcmus_csc10007_operating.Common.{
  ℕ, ◌/◌, ◌≤◌, ◌≡◌, ◌↔◌, refl, true, some, [], ◌∷◌, arith, ◌==◌, if◌then◌else◌,
}
use hcmus_csc10007_operating.Common.Strings.{Chars}
use hcmus_csc10007_operating.Machine.State.{update}
use hcmus_csc10007_operating.Bitmap.{
  Bitmap, is_set, mark, test, find_from, find_and_set, count_from, num_clear,
}
use hcmus_csc10007_operating.Bitmap.Bits.{IsValid}
use hcmus_csc10007_operating.Bitmap.Allocation.{Finds, find_and_set-Finds, clear_below}
use hcmus_csc10007_operating.FileHeader.{
  FileHeader, allocate_from, allocate, deallocate, byte_to_sector,
}
use hcmus_csc10007_operating.FileHeader
use hcmus_csc10007_operating.FileHeader.Sectors.{Allocates, allocate-Allocates}
use hcmus_csc10007_operating.FileHeader.Release.{allocate-deallocate, allocate-byte_to_sector}
use hcmus_csc10007_operating.FileHeader.Oversized.{allocate-oversized}
use hcmus_csc10007_operating.Directory.{Directory, find, find_index, add, remove}
use hcmus_csc10007_operating.Directory.Lookup
use hcmus_csc10007_operating.Directory.Insert.{Adds, add-Adds}
use hcmus_csc10007_operating.Directory.Delete.{Removes, remove-Removes}
use hcmus_csc10007_operating.FileSystem.{
  Disk, ok, flush, create, create_entry, create_header, remove_file,
}
use hcmus_csc10007_operating.FileSystem.Removal.{create-remove_file}

-- Forty bits, the first three set.
abbrev forty : Bitmap
forty = record { num_bits = 40; map = 7 ∷ 0 ∷ [] }

forty-IsValid : IsValid forty
unfolding IsValid
forty-IsValid = omega arith

find_and_set-Finds_example : Finds forty (find_and_set forty)
find_and_set-Finds_example = find_and_set-Finds forty forty-IsValid

abbrev blank_header : FileHeader
blank_header = record { num_bytes = 0; num_sectors = 0; data_sectors = λ i. 0 }

-- What a file of 200 bytes gets.
abbrev two_sectors : FileHeader
two_sectors = record {
  num_bytes = 200;
  num_sectors = 2;
  data_sectors = update (update (λ i. 0) 0 3) 1 4;
}

abbrev forty_after : Bitmap
forty_after = record { num_bits = 40; map = 31 ∷ 0 ∷ [] }

allocate_200 : allocate 200 blank_header forty ≡ FileHeader.ok true two_sectors forty_after
unfolding allocate allocate_from num_clear count_from find_and_set find_from test mark
allocate_200 = refl

allocate-Allocates_example : Allocates 200 forty (allocate 200 blank_header forty)
allocate-Allocates_example = allocate-Allocates 200 blank_header forty forty-IsValid (omega arith)

allocate-deallocate_example :
    (b2 : Bitmap) × (deallocate two_sectors forty_after ≡ some b2)
    × (b2.num_bits ≡ 40)
    × IsValid b2
    × ((j : ℕ) → is_set b2 j ≡ is_set forty j)
allocate-deallocate_example =
    allocate-deallocate 200 blank_header two_sectors forty forty_after forty-IsValid (omega arith)
      allocate_200

allocate-byte_to_sector_example :
    (is_set forty_after (byte_to_sector two_sectors 100) ≡ true)
    × ((byte_to_sector two_sectors 100 ≡ byte_to_sector two_sectors 150) ↔ (100 / 128 ≡ 150 / 128))
allocate-byte_to_sector_example =
    allocate-byte_to_sector 200 blank_header two_sectors forty forty_after 100 150 forty-IsValid
      (omega arith) allocate_200 (omega arith) (omega arith)

forty_room : 31 ≤ clear_below (is_set forty) 40
forty_room = let e : clear_below (is_set forty) 40 ≡ 37 = refl in omega arith

allocate-oversized_example : allocate 3841 blank_header forty ≡ FileHeader.overrun
allocate-oversized_example =
    allocate-oversized 3841 blank_header forty forty-IsValid (omega arith) forty_room

-- The name "a".
abbrev name_a : Chars
name_a i = if i == 0 then 97 else 0

-- Two entries, of which the first is in use.
abbrev two_entries : Directory
two_entries = record {
  table = λ i. record { in_use = i == 0; sector = 5; name = name_a };
  table_size = 2;
}

two_entries-IsValid : Lookup.IsValid two_entries
two_entries-IsValid = record { unique = λ i j p q a b e. ground arith }

add-Adds_example :
    Adds
      (λ i. if i == 0 then 98 else 0)
      7
      two_entries
      (add (λ i. if i == 0 then 98 else 0) 7 two_entries)
add-Adds_example = add-Adds two_entries (λ i. if i == 0 then 98 else 0) 7 two_entries-IsValid

remove-Removes_example : Removes name_a two_entries (remove name_a two_entries)
remove-Removes_example = remove-Removes two_entries name_a two_entries-IsValid

abbrev name_b : Chars
name_b i = if i == 0 then 98 else 0

abbrev small_disk : Disk
small_disk = record { free_map = forty; directory = two_entries; headers = λ s. blank_header }

-- The header goes to sector 3, the contents to sectors 4 and 5.
abbrev small_disk_after : Disk
small_disk_after =
    flush small_disk 3
      (record { num_bytes = 200; num_sectors = 2; data_sectors = update (update (λ i. 0) 0 4) 1 5 })
      (add name_b 3 two_entries).1 (record { num_bits = 40; map = 63 ∷ 0 ∷ [] })

create_b : create name_b 200 blank_header small_disk ≡ ok true small_disk_after
unfolding create create_entry create_header find find_index add allocate allocate_from num_clear
    count_from find_and_set find_from test mark
create_b = refl

create-remove_file_example :
    (d2 : Disk) × (remove_file name_b small_disk_after ≡ ok true d2)
    × ((j : ℕ) → is_set d2.free_map j ≡ is_set forty j)
    × ((other : Chars) → find other d2.directory ≡ find other two_entries)
create-remove_file_example =
    create-remove_file name_b 200 blank_header small_disk small_disk_after forty-IsValid
      two_entries-IsValid (omega arith) create_b
