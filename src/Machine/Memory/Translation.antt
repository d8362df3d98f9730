-- ===== src/Machine/Memory/Translation.antt =====
-- What `Machine::Translate` guarantees (NachOS-4.0/code/machine/translate.cc).
use hcmus_csc10007_operating.Common.{
  ℕ, zero, suc, ◌+◌, ◌*◌, ◌/◌, ◌%◌, ◌≤◌, ◌<◌, ◌≡◌, refl, ◌≢◌, ◌⊎◌, inl, inr, Bool, true, false,
  none, some, List, [], ◌∷◌, arith, length, get_elem?, ◌&&◌, Bool-cases, set, sym, ◌∙◌, ◌↔◌,
}
use hcmus_csc10007_operating.Common.Bits.{and-ones}
use hcmus_csc10007_operating.Machine.State.{
  ExceptionType, address_error_exception, Machine, TranslationEntry, page_size, memory_size,
  num_phys_pages,
}
use hcmus_csc10007_operating.Machine.Memory.{
  Lookup, entry_at, missing, out_of_array, Translated, found, refused, assertion, misaligned,
  lookup_page, use_entry, resolve, translate_with, translate, mark_entry,
}

-- The sizes that the machine's instructions ask for.
abbrev pub IsAccess : ℕ → Type 0
IsAccess size = (size ≡ 1) ⊎ (size ≡ 2) ⊎ (size ≡ 4)

aligned_offset :
    (addr size : ℕ)
    → IsAccess size
    → misaligned addr size ≡ false
    → addr % page_size + size ≤ page_size
unfolding misaligned
aligned_offset addr size s h = ground (arith, and-ones 2 addr, and-ones 1 addr)

get_elem?-ne-none {ℓ} : {A : Type ℓ} (xs : List A) (i : ℕ) → i < length xs → get_elem? xs i ≢ none
get_elem?-ne-none [] i h = absurd (omega arith)
get_elem?-ne-none (x ∷ xs) zero h = λ e. cc
get_elem?-ne-none (x ∷ xs) (suc i) h = get_elem?-ne-none xs i (omega arith)

lookup_page-ne-out_of_array :
    (table : List TranslationEntry) (n vpn : ℕ)
    → n ≤ length table
    → lookup_page table n vpn ≢ out_of_array
unfolding lookup_page
lookup_page-ne-out_of_array table n vpn h = ground (arith, get_elem?-ne-none table vpn)

use_entry-ne-assertion :
    (offset size : ℕ) (writing : Bool) (store : TranslationEntry → Machine) (e : TranslationEntry)
    → offset + size ≤ page_size
    → use_entry offset size writing store e ≢ assertion
unfolding use_entry
use_entry-ne-assertion offset size writing store e h = ground arith

resolve-ne-assertion :
    (offset size : ℕ) (writing : Bool) (store : ℕ → TranslationEntry → Machine) (l : Lookup)
    → offset + size ≤ page_size
    → l ≢ out_of_array
    → resolve offset size writing store l ≢ assertion
unfolding resolve
resolve-ne-assertion offset size writing store (entry_at i e) h n =
    use_entry-ne-assertion offset size writing (store i) e h
resolve-ne-assertion offset size writing store (missing which) h n = λ e. cc
resolve-ne-assertion offset size writing store out_of_array h n = absurd (n refl)

-- With a page table that is as long as the machine believes, an access of 1, 2 or 4 bytes passes
-- every ASSERT of `Translate`: it ends with an address or with an exception.
pub translate-ne-assertion :
    (addr size : ℕ) (writing : Bool) (m : Machine) (table : List TranslationEntry)
    → IsAccess size
    → m.tlb ≡ none
    → m.page_table ≡ some table
    → m.page_table_size ≤ length table
    → translate addr size writing m ≢ assertion
unfolding translate translate_with
translate-ne-assertion addr size writing m table s ht hp hs =
    elim (Bool-cases (misaligned addr size)) [
      | inl bad ↦ rw bad (λ e. cc)
      | inr good ↦
          rw (good, ht, hp, translate_with)
            (resolve-ne-assertion (addr % page_size) size writing _ _
              (aligned_offset addr size s good)
              (lookup_page-ne-out_of_array table m.page_table_size (addr / page_size) hs))
    ]

-- What a successful translation through the table means.
pub record Hit (table : List TranslationEntry) (addr size : ℕ) (writing : Bool) (m : Machine)
    (p : ℕ) (m' : Machine) : Type 0 where
  pub entry : TranslationEntry
  pub aligned : misaligned addr size ≡ false
  pub at_page : get_elem? table (addr / page_size) ≡ some entry
  pub in_table : addr / page_size < m.page_table_size
  pub is_valid : entry.valid ≡ true
  pub may_write : (entry.read_only && writing) ≡ false
  pub frame_exists : entry.physical_page < num_phys_pages
  pub address : p ≡ entry.physical_page * page_size + addr % page_size
  pub fits : p + size ≤ memory_size
  pub marked :
      m' ≡ record m { page_table = some (set table (addr / page_size) (mark_entry writing entry)) }

lookup_page_hit :
    (table : List TranslationEntry) (n vpn : ℕ) {i : ℕ} {e : TranslationEntry}
    → lookup_page table n vpn ≡ entry_at i e
    → (i ≡ vpn) × (get_elem? table vpn ≡ some e) × (vpn < n) × (e.valid ≡ true)
unfolding lookup_page
lookup_page_hit table n vpn h = ground arith

use_entry_found :
    (offset size : ℕ) (writing : Bool) (store : TranslationEntry → Machine) (e : TranslationEntry)
    {p : ℕ} {m' : Machine}
    → use_entry offset size writing store e ≡ found p m'
    → ((e.read_only && writing) ≡ false)
      × (e.physical_page < num_phys_pages)
      × (p ≡ e.physical_page * page_size + offset)
      × (p + size ≤ memory_size)
      × (m' ≡ store (mark_entry writing e))
unfolding use_entry
use_entry_found offset size writing store e h = ground arith

refused≢found : {e : ExceptionType} {p : ℕ} {m : Machine} → refused e ≢ found p m
refused≢found h = cc

resolve_found :
    (offset size : ℕ) (writing : Bool) (store : ℕ → TranslationEntry → Machine) (l : Lookup) {p : ℕ}
    {m' : Machine}
    → resolve offset size writing store l ≡ found p m'
    → (i : ℕ) × (e : TranslationEntry) × (l ≡ entry_at i e)
      × (use_entry offset size writing (store i) e ≡ found p m')
unfolding resolve
resolve_found offset size writing store (entry_at i e) h = (i, e, refl, h)
resolve_found offset size writing store (missing which) h = cc
resolve_found offset size writing store out_of_array h = cc

module _ (addr size : ℕ) (writing : Bool) (m : Machine) (table : List TranslationEntry) where
  abbrev through_table : Translated
  through_table =
      resolve (addr % page_size) size writing
        (λ i e. record m { page_table = some (set table i e) })
        (lookup_page table m.page_table_size (addr / page_size))

  translate-aligned :
      m.tlb ≡ none
      → m.page_table ≡ some table
      → misaligned addr size ≡ false
      → translate addr size writing m ≡ through_table
  unfolding translate translate_with resolve
  translate-aligned ht hp good = simp (good, ht, hp, translate_with)

  translate-misaligned :
      misaligned addr size ≡ true → translate addr size writing m ≡ refused address_error_exception
  unfolding translate
  translate-misaligned bad = rw bad

  found_Hit :
      (p : ℕ) (m' : Machine)
      → through_table ≡ found p m'
      → misaligned addr size ≡ false
      → Hit table addr size writing m p m'
  found_Hit p m' h good =
      let (i, e, l, u) = resolve_found _ _ _ _ _ h in
      let (same, at, below, ok) = lookup_page_hit table m.page_table_size (addr / page_size) l in
      let (w, fr, ad, fi, ma) = use_entry_found _ _ _ _ e u in
      record {
        entry = e;
        aligned = good;
        at_page = at;
        in_table = below;
        is_valid = ok;
        may_write = w;
        frame_exists = fr;
        address = ad;
        fits = fi;
        marked = rw same at ma;
      }

  Hit-found :
      (p : ℕ) (m' : Machine) → Hit table addr size writing m p m' → through_table ≡ found p m'
  unfolding resolve lookup_page use_entry
  Hit-found p m' h = ground arith

  -- Where there is a page table and no TLB, `Translate` finds the address `p` and leaves the machine
  -- `m'` exactly when the access is aligned, its page is in the table and below `pageTableSize`, the
  -- entry is valid, not both read-only and written to, and of an existing frame, the access fits
  -- memory, `p` is the offset in that frame, and `m'` is `m` with that entry marked as used, and as
  -- dirty by a write.
  pub translate_found :
      (p : ℕ) (m' : Machine)
      → m.tlb ≡ none
      → m.page_table ≡ some table
      → (translate addr size writing m ≡ found p m') ↔ Hit table addr size writing m p m'
  translate_found p m' ht hp = (
    λ h. elim (Bool-cases (misaligned addr size)) [
      | inl bad ↦ absurd (refused≢found (sym (translate-misaligned bad) ∙ h))
      | inr good ↦ found_Hit p m' (sym (translate-aligned ht hp good) ∙ h) good
    ],
    λ h. translate-aligned ht hp h.aligned ∙ Hit-found p m' h,
  )
