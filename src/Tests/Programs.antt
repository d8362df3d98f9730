-- ===== src/Tests/Programs.antt =====
-- Open files (NachOS-4.0/code/threads/pcb.cc) and address spaces (NachOS-4.0/code/userprog) on concrete
-- inputs.
use hcmus_csc10007_operating.Common.{
  ℕ, ◌+◌, ◌*◌, ◌/◌, ◌<◌, ◌≤◌, ◌≡◌, ◌≢◌, refl, ap, Bool, true, Option, none, some, List, [], ◌∷◌,
  take, drop, length, arith,
}
use hcmus_csc10007_operating.Common.Int.{ℤ, pos, negsuc}
use hcmus_csc10007_operating.Machine.State.{TranslationEntry, Machine, page_size, num_phys_pages}
use hcmus_csc10007_operating.Machine.Memory.{
  found, translate, misaligned, translate_with, resolve, lookup_page, use_entry, mark_entry,
}
use hcmus_csc10007_operating.Bitmap.{
  Bitmap, div_round_up, is_set, find_and_set, find_from, test, mark, num_clear, count_from,
}
use hcmus_csc10007_operating.Bitmap.Bits
use hcmus_csc10007_operating.OpenFiles.{
  Whence, seek_set, seek_cur, seek_end, Host, OpenFile, open_for_read_write,
}
use hcmus_csc10007_operating.OpenFiles.Table.{FileTable, pcb_open, write_open, seek_open, read_open}
use hcmus_csc10007_operating.OpenFiles.Opening.{Opens, pcb_open-Opens, Distinct, pcb_open-Distinct}
use hcmus_csc10007_operating.OpenFiles.Transfer.{Regular, overwrite}
use hcmus_csc10007_operating.OpenFiles.RoundTrip.{write-seek-read}
use hcmus_csc10007_operating.AddrSpace.{
  NoffHeader, noff_magic_number, AddrSpace, Memory, fresh_entry, program_size, load,
  allocate_frames, destroy, restore_state, address, translate_address,
}
use hcmus_csc10007_operating.AddrSpace.Frames.{frame_of}
use hcmus_csc10007_operating.AddrSpace.Release.{load-destroy}
use hcmus_csc10007_operating.AddrSpace.Addresses.{translate-translate_address}
use hcmus_csc10007_operating.AddrSpace.Views.{ReadsFile, file_bytes, view}
use hcmus_csc10007_operating.AddrSpace.Program.{Laid, Fits, load-Laid}
use hcmus_csc10007_operating.AddrSpace.Isolation.{load-load}

-- A host with one file: its bytes and the offset in it.
abbrev OneFile : Type 0
OneFile = List ℕ × ℕ

abbrev seek_to : ℤ → Whence → OneFile → ℤ × OneFile
seek_to (pos n) seek_set (c, p) = (pos n, (c, n))
seek_to (pos n) seek_cur (c, p) = (pos (p + n), (c, p + n))
seek_to (pos n) seek_end (c, p) = (pos (length c + n), (c, length c + n))
seek_to (negsuc n) whence w = (negsuc 0, w)

abbrev read_some : ℤ → OneFile → ℤ × (List ℕ × OneFile)
read_some (pos n) (c, p) =
    (pos (length (take n (drop p c))), (take n (drop p c), (c, p + length (take n (drop p c)))))
read_some (negsuc n) w = (negsuc 0, ([], w))

abbrev one_file : Host OneFile
one_file = record {
  open_create = λ name w. (pos 3, ([], 0));
  open_existing = λ name w. (pos 3, (w.0, 0));
  lseek = λ fd offset whence w. seek_to offset whence w;
  read = λ fd n w. read_some n w;
  write = λ fd bytes w. (pos (length bytes), (overwrite w.0 w.1 bytes, w.1 + length bytes));
  close = λ fd w. (pos 0, w);
}

one_file-Regular : Regular one_file 3 (λ w. w.0) (λ w. w.1)
one_file-Regular = record {
  at_set = λ n w. ((w.0, n), refl, refl, refl);
  at_cur = λ w. let e : w.1 + 0 ≡ w.1 = omega arith in rw e refl;
  at_end = λ w.
      let e : length w.0 + 0 ≡ length w.0 = omega arith in
      ((w.0, length w.0 + 0), ap (λ (x : ℕ). (pos x, (w.0, length w.0 + 0))) e, refl, e);
  reads = λ n w. ((w.0, w.1 + length (take n (drop w.1 w.0))), refl, refl, refl);
  writes = λ bytes w l. ((overwrite w.0 w.1 bytes, w.1 + length bytes), refl, refl, refl);
}

abbrev a_file : OpenFile
a_file = record { file = 3; current_offset = pos 0; type = pos 0; filename = 97 ∷ [] }

abbrev at_two : OneFile
at_two = (1 ∷ 2 ∷ 3 ∷ 4 ∷ [], 2)

write-seek-read_example :
    (f1 : OpenFile) × (f2 : OpenFile) × (f3 : OpenFile) × (w1 : OneFile) × (w2 : OneFile)
    × (w3 : OneFile) × (write_open one_file a_file (7 ∷ 8 ∷ 9 ∷ []) 3 at_two
        ≡ some (pos 3, (f1, w1)))
    × (seek_open one_file f1 (pos 2) w1 ≡ some (some (pos 2), (f2, w2)))
    × (read_open one_file f2 3 w2 ≡ some (pos 3, (7 ∷ 8 ∷ 9 ∷ [], (f3, w3))))
write-seek-read_example =
    write-seek-read one_file a_file (λ w. w.0) (λ w. w.1) (7 ∷ 8 ∷ 9 ∷ []) at_two one_file-Regular
      (omega arith) (omega arith)

abbrev no_files : FileTable
no_files = λ i. none

pcb_open-Opens_example :
    Opens
      (97 ∷ [])
      (pos 1)
      []
      no_files
      (open_for_read_write one_file (97 ∷ []) at_two).0
      (pcb_open one_file (97 ∷ []) (pos 1) [] no_files at_two).0
      (pcb_open one_file (97 ∷ []) (pos 1) [] no_files at_two).1.0
pcb_open-Opens_example = pcb_open-Opens one_file (97 ∷ []) (pos 1) [] no_files at_two refl

no_files-Distinct : Distinct no_files
no_files-Distinct = record { unique = λ i j name p q a b. ground arith }

pcb_open-Distinct_example : Distinct (pcb_open one_file (97 ∷ []) (pos 1) [] no_files at_two).1.0
pcb_open-Distinct_example =
    pcb_open-Distinct one_file (97 ∷ []) (pos 1) no_files at_two refl no_files-Distinct

-- Thirty-two free frames, memory full of ones.
abbrev free_memory : Memory
free_memory = record { phys_pages = record { num_bits = 32; map = 0 ∷ [] }; bytes = λ p. 1 }

free_memory-IsValid : Bits.IsValid free_memory.phys_pages
unfolding Bits.IsValid
free_memory-IsValid = omega arith

-- An executable of 300 bytes of code, 100 of data and 50 of read-only data.
abbrev executable : ℕ → ℕ
executable p = p + 5

abbrev read_executable : ℕ → ℕ → List ℕ
read_executable n p = file_bytes executable p n

abbrev program : NoffHeader
program = record {
  noff_magic = noff_magic_number;
  code = record { virtual_addr = 0; in_file_addr = 40; size = 300 };
  init_data = record { virtual_addr = 300; in_file_addr = 340; size = 100 };
  readonly_data = record { virtual_addr = 400; in_file_addr = 440; size = 50 };
  uninit_data = record { virtual_addr = 450; in_file_addr = 0; size = 20 };
}

program-Fits : Fits program 490
program-Fits = record {
  magic = refl;
  code_first = refl;
  some_code = omega arith;
  code_in = omega arith;
  data_in = omega arith;
  readonly_in = omega arith;
  no_wrap = omega arith;
}

program_pages : div_round_up (program_size program) page_size ≤ num_phys_pages
unfolding program_size
program_pages = omega arith

read_executable-ReadsFile : ReadsFile read_executable executable 490
read_executable-ReadsFile n p l = refl

abbrev new_space : AddrSpace
new_space = record { num_pages = 0; page_table = λ i. fresh_entry 0 0 }

abbrev loaded_of : Option (Bool × (AddrSpace × Memory)) → AddrSpace × Memory
loaded_of none = (new_space, free_memory)
loaded_of (some (_, r)) = r

abbrev first_load : AddrSpace × Memory
first_load = loaded_of (load read_executable program new_space free_memory)

abbrev second_load : AddrSpace × Memory
second_load = loaded_of (load read_executable program new_space first_load.1)

first_loaded :
    load read_executable program new_space free_memory ≡ some (true, (first_load.0, first_load.1))
unfolding load program_size num_clear count_from allocate_frames find_and_set find_from test mark
first_loaded = refl

second_loaded :
    load read_executable program new_space first_load.1
    ≡ some (true, (second_load.0, second_load.1))
unfolding load program_size num_clear count_from allocate_frames find_and_set find_from test mark
second_loaded = refl

load-destroy_example :
    (b : Bitmap) × (destroy first_load.0 first_load.1.phys_pages ≡ some b)
    × Bits.IsValid b
    × ((j : ℕ) → is_set b j ≡ is_set free_memory.phys_pages j)
load-destroy_example =
    load-destroy read_executable program new_space first_load.0 free_memory first_load.1
      free_memory-IsValid refl program_pages first_loaded

load-Laid_example :
    Laid program executable
      (first_load.0.num_pages * page_size)
      (λ a. 0)
      (view first_load.0.page_table first_load.1.bytes)
load-Laid_example =
    load-Laid read_executable executable 490 program new_space first_load.0 free_memory first_load.1
      read_executable-ReadsFile program-Fits free_memory-IsValid program_pages first_loaded

load-load_example :
    ((x y : ℕ)
      → x < first_load.0.num_pages
      → y < second_load.0.num_pages
      → frame_of first_load.0.page_table x ≢ frame_of second_load.0.page_table y)
    × ((a : ℕ)
        → a < first_load.0.num_pages * page_size
        → view first_load.0.page_table second_load.1.bytes a
          ≡ view first_load.0.page_table first_load.1.bytes a)
load-load_example =
    load-load read_executable read_executable executable 490 program program new_space new_space
      first_load.0 second_load.0 free_memory first_load.1 second_load.1 free_memory-IsValid refl
      program_pages first_loaded read_executable-ReadsFile program-Fits program_pages second_loaded

-- A machine that is handed a table of two pages.
abbrev two_pages : AddrSpace
two_pages = record { num_pages = 2; page_table = λ i. fresh_entry i (i + 6) }

abbrev bare_machine : Machine
bare_machine = record {
  registers = λ r. 0;
  main_memory = λ p. 0;
  tlb = none;
  page_table = none;
  page_table_size = 0;
}

abbrev marked_machine : Machine
marked_machine = record bare_machine {
  page_table = some (fresh_entry 0 6 ∷ record (fresh_entry 1 7) { used = true; dirty = true } ∷ []);
  page_table_size = 2;
}

translated : translate 130 1 true (restore_state two_pages bare_machine) ≡ found 898 marked_machine
unfolding translate misaligned translate_with resolve lookup_page use_entry mark_entry restore_state
translated = refl

translate-translate_address_example :
    (table' : ℕ → TranslationEntry) × (translate_address two_pages 130 true ≡ address 898 table')
    × ((x : ℕ) → x ≢ 130 / page_size → table' x ≡ two_pages.page_table x)
    × (table' (130 / page_size) ≡ mark_entry true (two_pages.page_table (130 / page_size)))
translate-translate_address_example =
    translate-translate_address two_pages bare_machine marked_machine 130 898 true refl translated
