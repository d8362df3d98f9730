-- ===== src/AddrSpace/Addresses.antt =====
-- NachOS-4.0/code/userprog/addrspace.cc: `AddrSpace::Translate`, and the machine's translation once
-- `RestoreState` has handed it the table.
use hcmus_csc10007_operating.Common.{
  ℕ, zero, suc, ◌+◌, ◌*◌, ◌/◌, ◌%◌, ◌<◌, ◌≡◌, ◌≢◌, refl, sym, ap, ◌∙◌, Bool, true, false, ◌&&◌,
  none, some, ltb, leb, assign_at, get_elem?, arith,
}
use hcmus_csc10007_operating.Machine.State.{
  TranslationEntry, Machine, page_size, num_phys_pages, memory_size,
}
use hcmus_csc10007_operating.Machine.Memory.{found, translate, mark_entry}
use hcmus_csc10007_operating.Machine.Memory.Translation.{translate_found}
use hcmus_csc10007_operating.AddrSpace.{
  AddrSpace, entries, restore_state, address, translate_address,
}

entries_at :
    (k i x : ℕ) (table : ℕ → TranslationEntry) (e : TranslationEntry)
    → get_elem? (entries k i table) x ≡ some e
    → (x < k) × (e ≡ table (i + x))
entries_at zero i x table e h = ground arith
entries_at (suc k) i zero table e h = let z : i + 0 ≡ i = omega arith in (omega arith, ground arith)
entries_at (suc k) i (suc x) table e h =
    let (l, q) = entries_at k (suc i) x table e h in
    let z : suc i + x ≡ i + suc x = omega arith in (omega arith, q ∙ ap table z)

and_swap : (a b : Bool) → (a && b) ≡ false → (b && a) ≡ false
and_swap true true h = h
and_swap true false h = refl
and_swap false true h = refl
and_swap false false h = refl

-- Where the machine translates an access of one byte with the table that `RestoreState` has handed
-- it and no TLB, `AddrSpace::Translate` gives the same address.
pub translate-translate_address :
    (space : AddrSpace) (m m' : Machine) (vaddr p : ℕ) (writing : Bool)
    → m.tlb ≡ none
    → translate vaddr 1 writing (restore_state space m) ≡ found p m'
    → (table' : ℕ → TranslationEntry) × (translate_address space vaddr writing ≡ address p table')
      × ((x : ℕ) → x ≢ vaddr / page_size → table' x ≡ space.page_table x)
      × (table' (vaddr / page_size) ≡ mark_entry writing (space.page_table (vaddr / page_size)))
unfolding restore_state translate_address mark_entry
translate-translate_address space m m' vaddr p writing t h =
    let hit =
      (translate_found vaddr 1 writing (restore_state space m)
          (entries space.num_pages 0 space.page_table) p m' t refl).0
        h in
    let (l, e) =
      entries_at space.num_pages 0 (vaddr / page_size) space.page_table hit.entry hit.at_page in
    let w = hit.may_write in
    let f = hit.frame_exists in
    let a = hit.address in
    let z = hit.fits in
    let e' : hit.entry ≡ space.page_table (vaddr / page_size) =
      e ∙ ap space.page_table (omega arith) in
    let own = space.page_table (vaddr / page_size) in
    let below : leb space.num_pages (vaddr / page_size) ≡ false = ground arith in
    let may : (writing && own.read_only) ≡ false =
      and_swap own.read_only writing
        (ap (λ (x : TranslationEntry). x.read_only && writing) (sym e') ∙ w) in
    let pe : own.physical_page ≡ hit.entry.physical_page =
      ap (λ (x : TranslationEntry). x.physical_page) (sym e') in
    let frame : leb num_phys_pages own.physical_page ≡ false = ground arith in
    let pa : own.physical_page * page_size + vaddr % page_size ≡ p = omega arith in
    let fits : ltb (own.physical_page * page_size + vaddr % page_size) memory_size ≡ true =
      ground arith in
    (
      assign_at space.page_table (vaddr / page_size)
          (mark_entry writing (space.page_table (vaddr / page_size))),
      rw (below, may, frame, fits, pa) refl,
      λ x n. ground arith,
      ground arith,
    )
