-- ===== src/AddrSpace.antt =====
-- NachOS-4.0/code/userprog/addrspace.cc: the address space of a user program, its frames of physical memory and
-- the loading of the program into them.
--
-- The build defines RDATA, and the host is little-endian, so that `SwapHeader` is not called on a
-- file of the right magic number. The sizes of the header are numbers, as they are in every file
-- that the converter writes. `exec n p` is the bytes that `ReadAt` on the executable returns for `n`
-- bytes from place `p`. `none` is a failed ASSERT or a `bzero` outside of the memory.
-- The copies of the segments have no check in the source: `bytes` is the host's memory from
-- mainMemory on, and past its end too, and an entry past the end of the table is what stands there.
pub mod Frames
pub mod Release
pub mod Addresses
pub mod Views
pub mod Loading
pub mod Program
pub mod Isolation
use hcmus_csc10007_operating.Common.{
  ℕ, zero, suc, ◌+◌, ◌-◌, ◌*◌, ◌/◌, ◌%◌, Bool, true, false, not, ◌&&◌, Option, none, some, List, [],
  ◌∷◌, ◌==◌, ltb, leb, if◌then◌else◌, assign_at, ◌>>=◌,
}
use hcmus_csc10007_operating.Common.Word.{word_mod}
use hcmus_csc10007_operating.Machine.State.{
  ExceptionType, no_exception, address_error_exception, read_only_exception, bus_error_exception,
  TranslationEntry, Machine, page_size, num_phys_pages, memory_size, num_total_regs, pc_reg,
  next_pc_reg, stack_reg, update,
}
use hcmus_csc10007_operating.Bitmap.{Bitmap, div_round_up, find_and_set, num_clear, clear}

pub record Segment : Type 0 where
  pub virtual_addr : ℕ
  pub in_file_addr : ℕ
  pub size : ℕ

pub record NoffHeader : Type 0 where
  pub noff_magic : ℕ
  pub code : Segment
  pub init_data : Segment
  pub readonly_data : Segment
  pub uninit_data : Segment

abbrev pub noff_magic_number : ℕ
noff_magic_number = 0xbadfad

abbrev pub user_stack_size : ℕ
user_stack_size = 1024

pub record AddrSpace : Type 0 where
  pub num_pages : ℕ
  pub page_table : ℕ → TranslationEntry

-- The frames in use, and the memory.
pub record Memory : Type 0 where
  pub phys_pages : Bitmap
  pub bytes : ℕ → ℕ

-- The `size` that `Load` computes, as an `unsigned int`.
unfoldable pub program_size : NoffHeader → ℕ
program_size h =
    (h.code.size + h.readonly_data.size + h.init_data.size + h.uninit_data.size + user_stack_size)
    % word_mod

-- `bzero` of a frame.
unfoldable pub zero_frame : ℕ → (ℕ → ℕ) → ℕ → ℕ
zero_frame frame bytes p = if p / page_size == frame then 0 else bytes p

abbrev pub fresh_entry : ℕ → ℕ → TranslationEntry
fresh_entry i frame = record {
  virtual_page = i;
  physical_page = frame;
  valid = true;
  read_only = false;
  used = false;
  dirty = false;
}

-- The loop of `Load` that takes the frames, from page `i`, with `k` pages left.
unfoldable pub allocate_frames :
    ℕ → ℕ → (ℕ → TranslationEntry) → Memory → Option ((ℕ → TranslationEntry) × Memory)
allocate_frames zero i table m = some (table, m)
allocate_frames (suc k) i table m = do
  (found, b) ← find_and_set m.phys_pages
  elim found [
    | none ↦ none
    | some frame ↦
        allocate_frames k (suc i) (assign_at table i (fresh_entry i frame))
          (record { phys_pages = b; bytes = zero_frame frame m.bytes })
  ]

-- A buffer that `ReadAt` fills.
unfoldable pub copy_in : List ℕ → ℕ → (ℕ → ℕ) → ℕ → ℕ
copy_in [] place bytes = bytes
copy_in (c ∷ cs) place bytes = copy_in cs (suc place) (assign_at bytes place c)

-- `(n - 1) % PageSize + 1` on integers, which is 0 for 0.
abbrev pub last_page_size : ℕ → ℕ
last_page_size zero = 0
last_page_size (suc n) = n % page_size + 1

abbrev pub lesser : ℕ → ℕ → ℕ
lesser a b = if leb a b then a else b

-- A `ReadAt` into page `i` of the program, `offset` bytes into it. The source adds the virtual
-- address of the code to each place.
unfoldable pub read_page :
    (ℕ → ℕ → List ℕ) → ℕ → (ℕ → TranslationEntry) → ℕ → ℕ → ℕ → ℕ → (ℕ → ℕ) → ℕ → ℕ
read_page exec code_addr table i offset n position bytes =
    copy_in (exec n position) (code_addr + (table i).physical_page * page_size + offset) bytes

-- A loop over the pages of a segment: `k` pages left of which the last has `last` bytes, from page
-- `i` and `position` in the file.
unfoldable pub read_pages :
    (ℕ → ℕ → List ℕ) → ℕ → (ℕ → TranslationEntry) → ℕ → ℕ → ℕ → ℕ → (ℕ → ℕ) → ℕ → ℕ
read_pages exec code_addr table zero last i position bytes = bytes
read_pages exec code_addr table (suc k) last i position bytes =
    read_pages exec code_addr table k last (suc i) (position + page_size)
      (read_page exec code_addr table i 0 (if k == 0 then last else page_size) position bytes)

-- A segment that follows `before` bytes of the program, with page `i` the next one: what fits on
-- the page before it, then the other pages. The next page then is the second result.
unfoldable pub read_segment :
    (ℕ → ℕ → List ℕ) → ℕ → (ℕ → TranslationEntry) → Segment → ℕ → ℕ → (ℕ → ℕ) → (ℕ → ℕ) × ℕ
read_segment exec code_addr table s before i bytes =
    let used = last_page_size before in
    let first = lesser (page_size - used) s.size in
    let pages = div_round_up (s.size - first) page_size in
    if s.size == 0
    then (bytes, i)
    else (let begun =
          if not (used == page_size) && ltb 0 i
          then read_page exec code_addr table (i - 1) used first s.in_file_addr bytes
          else bytes in
        (
          read_pages exec code_addr table pages (last_page_size (s.size - first)) i
              (s.in_file_addr + first) begun,
          i + pages,
        ))

-- The code, the data and the read-only data.
unfoldable pub read_program :
    (ℕ → ℕ → List ℕ) → (ℕ → TranslationEntry) → NoffHeader → (ℕ → ℕ) → ℕ → ℕ
read_program exec table h bytes =
    let code_pages = div_round_up h.code.size page_size in
    let with_code =
      read_pages exec h.code.virtual_addr table code_pages (last_page_size h.code.size) 0
        h.code.in_file_addr bytes in
    let (with_data, next) =
      read_segment exec h.code.virtual_addr table h.init_data h.code.size
        (if h.code.size == 0 then 0 else code_pages) with_code in
    let (whole, _) =
      read_segment exec h.code.virtual_addr table h.readonly_data (h.code.size + h.init_data.size)
        next with_data in
    whole

-- AddrSpace::Load from the header on: true with the program in memory, or false where there are too
-- few frames.
unfoldable pub load :
    (ℕ → ℕ → List ℕ) → NoffHeader → AddrSpace → Memory → Option (Bool × (AddrSpace × Memory))
load exec h space m =
    let num_pages = div_round_up (program_size h) page_size in
    if h.noff_magic == noff_magic_number && leb num_pages num_phys_pages
    then (do
      free ← num_clear m.phys_pages
      if ltb free num_pages then some (false, (record space { num_pages = 0 }, m)) else (do
        (table, m1) ← allocate_frames num_pages 0 space.page_table m
        some (
          true,
          (
            record { num_pages = num_pages; page_table = table },
            record m1 { bytes = read_program exec table h m1.bytes },
          ),
        )))
    else none

-- AddrSpace::~AddrSpace, from page `i` with `k` pages left
unfoldable pub free_frames : ℕ → ℕ → (ℕ → TranslationEntry) → Bitmap → Option Bitmap
free_frames zero i table b = some b
free_frames (suc k) i table b = do
  b1 ← clear (table i).physical_page b
  free_frames k (suc i) table b1

unfoldable pub destroy : AddrSpace → Bitmap → Option Bitmap
destroy space b = free_frames space.num_pages 0 space.page_table b

-- AddrSpace::InitRegisters
unfoldable pub init_registers : AddrSpace → (ℕ → ℕ) → ℕ → ℕ
init_registers space registers =
    let cleared = λ (r : ℕ). if ltb r num_total_regs then 0 else registers r in
    let at_start = update cleared pc_reg 0 in
    let with_next = update at_start next_pc_reg 4 in
    update with_next stack_reg ((space.num_pages * page_size + word_mod - 16) % word_mod)

-- The array of the page table.
abbrev pub entries : ℕ → ℕ → (ℕ → TranslationEntry) → List TranslationEntry
entries zero i table = []
entries (suc k) i table = table i ∷ entries k (suc i) table

-- AddrSpace::RestoreState
unfoldable pub restore_state : AddrSpace → Machine → Machine
restore_state space m = record m {
  page_table = some (entries space.num_pages 0 space.page_table);
  page_table_size = space.num_pages;
}

-- AddrSpace::Translate: the address and the table with the bits set, or an exception.
pub data Address : Type 0 where
  address : ℕ → (ℕ → TranslationEntry) → Address
  exception : ExceptionType → Address
  assertion : Address

unfoldable pub translate_address : AddrSpace → ℕ → Bool → Address
translate_address space vaddr is_read_write =
    let vpn = vaddr / page_size in
    let offset = vaddr % page_size in
    let e = space.page_table vpn in
    let paddr = e.physical_page * page_size + offset in
    if leb space.num_pages vpn
    then exception address_error_exception
    else if is_read_write && e.read_only
    then exception read_only_exception
    else if leb num_phys_pages e.physical_page
    then exception bus_error_exception
    else if ltb paddr memory_size
    then address paddr (
        assign_at space.page_table vpn
          (record e { used = true; dirty = if is_read_write then true else e.dirty }))
    else assertion
