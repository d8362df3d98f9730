-- ===== src/Machine/Memory.antt =====
-- NachOS-4.0/code/machine/translate.cc: address translation, `Machine::ReadMem` and `Machine::WriteMem`.
-- The host is little-endian, so `WordToHost` and its three companions are the identity.
pub mod Translation
pub mod RoundTrip
pub mod Registers
use hcmus_csc10007_operating.Common.{
  ℕ, zero, ◌+◌, ◌-◌, ◌*◌, ◌/◌, ◌%◌, Bool, true, false, not, ◌&&◌, ◌||◌, Option, none, some, List,
  [], ◌∷◌, ◌==◌, leb, if◌then◌else◌, get_elem?, set, bit_and,
}
use hcmus_csc10007_operating.Common.Word.{truthy, word_mod}
use hcmus_csc10007_operating.Machine.State.{
  ExceptionType, address_error_exception, page_fault_exception, read_only_exception,
  bus_error_exception, TranslationEntry, Machine, Outcome, done, abort, M, update, page_size,
  num_phys_pages, memory_size, raise_exception,
}

-- Where the table entry for a page stands, or why there is none. `out_of_array` is a page number
-- below `pageTableSize` and past the array's end.
pub data Lookup : Type 0 where
  entry_at : ℕ → TranslationEntry → Lookup
  missing : ExceptionType → Lookup
  out_of_array : Lookup

unfoldable pub lookup_page : List TranslationEntry → ℕ → ℕ → Lookup
lookup_page table page_table_size vpn =
    if leb page_table_size vpn
    then missing address_error_exception
    else elim (get_elem? table vpn) [
      | none ↦ out_of_array
      | some entry ↦ if not entry.valid then missing page_fault_exception else entry_at vpn entry
    ]

-- The TLB loop, at index `i`; the list is the array of `tlb_size` entries.
unfoldable pub lookup_tlb : List TranslationEntry → ℕ → ℕ → Lookup
lookup_tlb [] vpn i = missing page_fault_exception
lookup_tlb (e ∷ es) vpn i =
    if e.valid && e.virtual_page == vpn then entry_at i e else lookup_tlb es vpn (i + 1)

unfoldable pub misaligned : ℕ → ℕ → Bool
misaligned virt_addr size =
    (size == 4 && truthy (bit_and virt_addr 0x3)) || (size == 2 && truthy (bit_and virt_addr 0x1))

-- The result of `Translate`, `assertion` where one of its ASSERTs fails.
pub data Translated : Type 0 where
  found : ℕ → Machine → Translated
  refused : ExceptionType → Translated
  assertion : Translated

unfoldable pub mark_entry : Bool → TranslationEntry → TranslationEntry
mark_entry writing e = record e { used = true; dirty = if writing then true else e.dirty }

-- The checks on the entry, the use and dirty bits, and the last ASSERT.
unfoldable pub use_entry :
    ℕ → ℕ → Bool → (TranslationEntry → Machine) → TranslationEntry → Translated
use_entry offset size writing store e =
    let phys_addr = e.physical_page * page_size + offset in
    if e.read_only && writing
    then refused read_only_exception
    else if leb num_phys_pages e.physical_page
    then refused bus_error_exception
    else if leb (phys_addr + size) memory_size
    then found phys_addr (store (mark_entry writing e))
    else assertion

unfoldable pub resolve : ℕ → ℕ → Bool → (ℕ → TranslationEntry → Machine) → Lookup → Translated
resolve offset size writing store (entry_at i e) = use_entry offset size writing (store i) e
resolve offset size writing store (missing which) = refused which
resolve offset size writing store out_of_array = assertion

-- The source asserts that exactly one of the two tables is there.
unfoldable pub translate_with :
    Option (List TranslationEntry)
    → Option (List TranslationEntry)
    → ℕ
    → ℕ
    → Bool
    → Machine
    → Translated
translate_with none (some table) virt_addr size writing m =
    resolve (virt_addr % page_size) size writing
      (λ i e. record m { page_table = some (set table i e) })
      (lookup_page table m.page_table_size (virt_addr / page_size))
translate_with (some tlb) none virt_addr size writing m =
    resolve (virt_addr % page_size) size writing (λ i e. record m { tlb = some (set tlb i e) })
      (lookup_tlb tlb (virt_addr / page_size) 0)
translate_with none none virt_addr size writing m = assertion
translate_with (some tlb) (some table) virt_addr size writing m = assertion

unfoldable pub translate : ℕ → ℕ → Bool → Machine → Translated
translate virt_addr size writing m =
    if misaligned virt_addr size
    then refused address_error_exception
    else translate_with m.tlb m.page_table virt_addr size writing m

-- A `char` of the host is signed.
unfoldable pub char_value : ℕ → ℕ
char_value b = if leb 128 b then word_mod + b - 256 else b

unfoldable pub load_bytes : ℕ → ℕ → M ℕ
load_bytes size p m =
    let mem = m.main_memory in
    if size == 1
    then done (char_value (mem p)) m
    else if size == 2
    then done (mem p + 256 * mem (p + 1)) m
    else if size == 4
    then done (mem p + 256 * mem (p + 1) + 65536 * mem (p + 2) + 16777216 * mem (p + 3)) m
    else abort

-- `value % 256` is `value & 0xff`, the byte that the host stores first.
unfoldable pub store_bytes : ℕ → ℕ → ℕ → M (Unit {0})
store_bytes size p value m =
    let mem = m.main_memory in
    let b0 = update mem p (value % 256) in
    let b1 = update b0 (p + 1) (value / 256 % 256) in
    let b2 = update b1 (p + 2) (value / 65536 % 256) in
    let b3 = update b2 (p + 3) (value / 16777216 % 256) in
    if size == 1
    then done tt (record m { main_memory = b0 })
    else if size == 2
    then done tt (record m { main_memory = b1 })
    else if size == 4
    then done tt (record m { main_memory = b3 })
    else abort

-- `Machine::ReadMem`.
unfoldable pub read_mem : ℕ → ℕ → M ℕ
read_mem addr size m = elim (translate addr size false m) [
  | found p m' ↦ load_bytes size p m'
  | refused which ↦ raise_exception which addr m
  | assertion ↦ abort
]

-- `Machine::WriteMem`.
unfoldable pub write_mem : ℕ → ℕ → ℕ → M (Unit {0})
write_mem addr size value m = elim (translate addr size true m) [
  | found p m' ↦ store_bytes size p value m'
  | refused which ↦ raise_exception which addr m
  | assertion ↦ abort
]
