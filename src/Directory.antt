-- ===== src/Directory.antt =====
-- NachOS-4.0/code/filesys/directory.cc: class `Directory`, a table of file names and of the sectors of their
-- headers. An index or a sector is `none` where the source returns -1.
pub mod Lookup
pub mod Update
pub mod Insert
pub mod Delete
use hcmus_csc10007_operating.Common.{
  ℕ, Bool, true, false, not, ◌&&◌, Option, none, some, ◌==◌, if◌then◌else◌,
}
use hcmus_csc10007_operating.Common.Search.{first}
use hcmus_csc10007_operating.Common.Strings.{Chars, strncmp_eq, strncpy}

-- `FileNameMaxLen`.
abbrev pub file_name_max_len : ℕ
file_name_max_len = 9

pub record DirectoryEntry : Type 0 where
  pub in_use : Bool
  pub sector : ℕ
  pub name : Chars

pub record Directory : Type 0 where
  pub table : ℕ → DirectoryEntry
  pub table_size : ℕ

abbrev pub set_entry : Directory → ℕ → DirectoryEntry → Directory
set_entry d i e = record d { table = λ j. if j == i then e else d.table j }

-- The constructor leaves the other fields of the new array `table` as they are.
unfoldable pub new_directory : (ℕ → DirectoryEntry) → ℕ → Directory
new_directory table size = record {
  table = λ i. record (table i) { in_use = false };
  table_size = size;
}

-- The condition of `FindIndex` on an entry.
abbrev pub matches : Chars → DirectoryEntry → Bool
matches name e = e.in_use && strncmp_eq file_name_max_len 0 e.name name

unfoldable pub find_index : Chars → Directory → Option ℕ
find_index name d = first (λ i. matches name (d.table i)) d.table_size 0

unfoldable pub find : Chars → Directory → Option ℕ
find name d = elim (find_index name d) [ some i ↦ some (d.table i).sector | none ↦ none ]

-- The entry that `Add` writes: `strncpy` keeps what the array `name` has past `file_name_max_len`.
abbrev pub new_entry : Chars → ℕ → DirectoryEntry → DirectoryEntry
new_entry name sector e = record {
  in_use = true;
  sector = sector;
  name = strncpy file_name_max_len 0 e.name name;
}

unfoldable pub add : Chars → ℕ → Directory → Bool × Directory
add name new_sector d = elim (find_index name d) [
  | some i ↦ (false, d)
  | none ↦ elim (first (λ i. not (d.table i).in_use) d.table_size 0) [
    | some i ↦ (true, set_entry d i (new_entry name new_sector (d.table i)))
    | none ↦ (false, d)
  ]
]

unfoldable pub remove : Chars → Directory → Bool × Directory
remove name d = elim (find_index name d) [
  | some i ↦ (true, set_entry d i (record (d.table i) { in_use = false }))
  | none ↦ (false, d)
]
