-- ===== src/Tests/Storage.antt =====
-- The lists (NachOS-4.0/code/lib) and the files on the simulated disk (NachOS-4.0/code/filesys) on
-- concrete inputs.
use hcmus_csc10007_operating.Common.{
  ℕ, ◌+◌, ◌/◌, ◌<◌, ◌≡◌, ltb, refl, true, none, some, [], ◌∷◌, arith, assign_at, ◌⊎◌, inl, inr,
  replicate,
}
use hcmus_csc10007_operating.Machine.State.{update}
use hcmus_csc10007_operating.Bitmap.{
  Bitmap, find_and_set, find_from, test, mark, num_clear, count_from,
}
use hcmus_csc10007_operating.Bitmap.Bits
use hcmus_csc10007_operating.FileHeader.{FileHeader, allocate, allocate_from}
use hcmus_csc10007_operating.FileHeader
use hcmus_csc10007_operating.Lists.{Store}
use hcmus_csc10007_operating.Lists.Sorting.{IsOrder}
use hcmus_csc10007_operating.Lists.Refinement.{
  Holds, removing, inserting, appending, perform_list, Agree, perform_list-Agree, specified,
}
use hcmus_csc10007_operating.Lists.Order.{
  new_list, perform_sorted, specified_sorted, Implements, perform_sorted-Implements,
}
use hcmus_csc10007_operating.SectorFile.{
  Bytes, Disk, bcopy, OpenFile, seek, read, write, read_at, write_at, transferred,
}
use hcmus_csc10007_operating.SectorFile.Reading.{Mapped, contents, read_at-contents}
use hcmus_csc10007_operating.SectorFile.Writing.{Wrote, write_at-Wrote}
use hcmus_csc10007_operating.SectorFile.RoundTrip.{write-read}

-- A list object with the items 3, 5 and 7.
abbrev three : Store
three = record {
  cell =
      assign_at
        (assign_at (assign_at (λ a. none) 0 (some (record { item = 3; next = some 1 }))) 1
          (some (record { item = 5; next = some 2 })))
        2 (some (record { item = 7; next = none }));
  fresh = 3;
  first = some 0;
  last = some 2;
  num_in_list = 3;
}

three-Holds : Holds three (3 ∷ 5 ∷ 7 ∷ [])
three-Holds = (
  (0, 3) ∷ (1, 5) ∷ (2, 7) ∷ [],
  record {
    first_lem = refl;
    last_lem = refl;
    counted = refl;
    chain = (refl, (refl, (refl, tt)));
    apart = omega arith;
    below = omega arith;
  },
  refl,
)

perform_list-Agree_example : Agree (perform_list ltb (removing 5) three) (some (3 ∷ 7 ∷ [], none))
unfolding specified
perform_list-Agree_example = perform_list-Agree ltb (removing 5) three (3 ∷ 5 ∷ 7 ∷ []) three-Holds

ltb-IsOrder : IsOrder ltb
ltb-IsOrder = record { asym = λ x y h. ground arith; trans = λ x y z h k. ground arith }

perform_sorted-Implements_example :
    Implements ltb
      (perform_sorted ltb (inserting 5 ∷ inserting 2 ∷ appending 9 ∷ removing 5 ∷ []) new_list)
      (some (2 ∷ 9 ∷ []))
unfolding specified_sorted specified
perform_sorted-Implements_example =
    perform_sorted-Implements ltb-IsOrder
      (inserting 5 ∷ inserting 2 ∷ appending 9 ∷ removing 5 ∷ [])

-- A file of 200 bytes in the sectors 5 and 3.
abbrev two_blocks : FileHeader
two_blocks = record { num_bytes = 200; num_sectors = 2; data_sectors = update (λ i. 3) 0 5 }

two_blocks-Mapped : Mapped two_blocks
two_blocks-Mapped = record {
  fits = omega arith;
  on_disk = λ i h. ground arith;
  apart = λ i j h k e. block i j h k (ground (arith, e));
}
  where
    block :
        (i j : ℕ)
        → i < 200
        → j < 200
        → (((i / 128 ≡ 0) × (j / 128 ≡ 0)) ⊎ ((0 < i / 128) × (0 < j / 128)))
        → i / 128 ≡ j / 128
    block i j h k (inl e) = omega arith
    block i j h k (inr e) = omega arith

abbrev blank : Bytes
blank = λ i. 0

write_at-Wrote_example :
    (d' : Disk) × (write_at two_blocks (λ s o. s) blank (λ i. i + 7) 50 100 ≡ some (50, d'))
    × Wrote two_blocks (λ i. i + 7) 100 50 (λ s o. s) d'
unfolding transferred FileHeader.file_length
write_at-Wrote_example =
    write_at-Wrote two_blocks (λ s o. s) blank (λ i. i + 7) 50 100 two_blocks-Mapped (omega arith)

read_at-contents_example :
    read_at two_blocks (λ s o. s) blank blank 0 90 150
    ≡ some (50, bcopy (contents two_blocks (λ s o. s)) 150 blank 0 50)
unfolding transferred FileHeader.file_length
read_at-contents_example =
    read_at-contents two_blocks (λ s o. s) blank blank 0 90 150 two_blocks-Mapped (omega arith)

-- The map of the disk, its first three sectors taken.
abbrev disk_map : Bitmap
disk_map = record { num_bits = 1024; map = 7 ∷ replicate 31 0 }

disk_map-IsValid : Bits.IsValid disk_map
unfolding Bits.IsValid
disk_map-IsValid = omega arith

abbrev new_header : FileHeader
new_header = record { num_bytes = 0; num_sectors = 0; data_sectors = λ i. 0 }

abbrev new_file : OpenFile
new_file = record {
  hdr = record {
    num_bytes = 200;
    num_sectors = 2;
    data_sectors = update (update (λ i. 0) 0 3) 1 4;
  };
  seek_position = 100;
}

abbrev map_after : Bitmap
map_after = record { num_bits = 1024; map = 31 ∷ replicate 31 0 }

new_file_lem : allocate 200 new_header disk_map ≡ FileHeader.ok true new_file.hdr map_after
unfolding allocate allocate_from num_clear count_from find_and_set find_from test mark
new_file_lem = refl

write-read_example :
    (d' : Disk) × (f' : OpenFile) × (write new_file (λ s o. s) blank (λ i. i + 7) 60
      ≡ some (60, d', f'))
    × (read (seek 100 f') d' blank blank 60 ≡ some (60, bcopy (λ i. i + 7) 0 blank 0 60, f'))
unfolding transferred FileHeader.file_length
write-read_example =
    write-read 200 new_header disk_map map_after new_file (λ s o. s) blank (λ i. i + 7) blank blank
      60 disk_map-IsValid refl (omega arith) new_file_lem (omega arith)
