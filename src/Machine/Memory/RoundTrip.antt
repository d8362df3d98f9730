-- ===== src/Machine/Memory/RoundTrip.antt =====
-- `Machine::WriteMem` followed by `Machine::ReadMem` (NachOS-4.0/code/machine/translate.cc).
use hcmus_csc10007_operating.Common.{
  ℕ, zero, suc, ◌/◌, ◌%◌, ◌<◌, ◌≡◌, refl, ap, ◌∙◌, inl, inr, Bool, true, false, ◌&&◌, none, some,
  List, [], ◌∷◌, arith, get_elem?, set, ◌==◌, if◌then◌else◌,
}
use hcmus_csc10007_operating.Common.Word.{word_mod}
use hcmus_csc10007_operating.Machine.State.{
  Machine, TranslationEntry, done, page_size, raise_exception,
}
use hcmus_csc10007_operating.Machine.Memory.{
  Translated, found, refused, assertion, translate, char_value, load_bytes, store_bytes, read_mem,
  write_mem, mark_entry,
}
use hcmus_csc10007_operating.Machine.Memory.Translation.{IsAccess, Hit, translate_found}

-- What a load of `size` bytes gives for a stored pattern: the whole word, the half word, or the
-- byte as a signed `char`.
abbrev pub loaded : ℕ → ℕ → ℕ
loaded size value =
    if size == 1 then char_value (value % 256) else if size == 2 then value % 65536 else value

load-store :
    (size p value : ℕ) (m m1 : Machine)
    → IsAccess size
    → value < word_mod
    → store_bytes size p value m ≡ done tt m1
    → load_bytes size p m1 ≡ done (loaded size value) m1
unfolding load_bytes store_bytes
load-store size p value m m1 (inl one) v h = ground arith
load-store size p value m m1 (inr (inl two)) v h = ground arith
load-store size p value m m1 (inr (inr four)) v h = ground arith

-- A load reads nothing but the memory.
load-other :
    (size p x : ℕ) (m1 m2 : Machine)
    → m2.main_memory ≡ m1.main_memory
    → load_bytes size p m1 ≡ done x m1
    → load_bytes size p m2 ≡ done x m2
unfolding load_bytes
load-other size p x m1 m2 e h = ground arith

and-false : (b : Bool) → (b && false) ≡ false
and-false true = refl
and-false false = refl

-- Only the memory changes.
store_bytes-tables :
    (size p value : ℕ) (m m1 : Machine)
    → store_bytes size p value m ≡ done tt m1
    → (m1.tlb ≡ m.tlb) × (m1.page_table ≡ m.page_table) × (m1.page_table_size ≡ m.page_table_size)
unfolding store_bytes
store_bytes-tables size p value m m1 h = ground arith

read-found :
    (addr size p : ℕ) (m m' : Machine)
    → translate addr size false m ≡ found p m'
    → read_mem addr size m ≡ load_bytes size p m'
unfolding read_mem
read-found addr size p m m' h = rw (h, read_mem)

write_done :
    (addr size value : ℕ) (m m1 : Machine)
    → write_mem addr size value m ≡ done tt m1
    → (p : ℕ) × (m0 : Machine) × (translate addr size true m ≡ found p m0)
      × (store_bytes size p value m0 ≡ done tt m1)
unfolding write_mem raise_exception
write_done addr size value m m1 h = go (translate addr size true m) refl
  where
    go :
        (t : Translated)
        → translate addr size true m ≡ t
        → (p : ℕ) × (m0 : Machine) × (translate addr size true m ≡ found p m0)
          × (store_bytes size p value m0 ≡ done tt m1)
    go (found p m0) e = (p, m0, e, ground arith)
    go (refused which) e = ground arith
    go assertion e = ground arith

pub get_elem?-set :
    {A : Type 0} (xs : List A) (i : ℕ) (a v : A)
    → get_elem? xs i ≡ some a
    → get_elem? (set xs i v) i ≡ some v
get_elem?-set [] i a v h = cc
get_elem?-set (x ∷ xs) zero a v h = refl
get_elem?-set (x ∷ xs) (suc i) a v h = get_elem?-set xs i a v h

-- The entry that a write has marked serves a read as well.
Hit-again :
    (addr size p : ℕ) (m m0 m1 : Machine) (table : List TranslationEntry)
    (w : Hit table addr size true m p m0)
    → m1.page_table_size ≡ m0.page_table_size
    → Hit (set table (addr / page_size) (mark_entry true w.entry)) addr size false m1 p (record m1 {
      page_table = some (
          set
            (set table (addr / page_size) (mark_entry true w.entry))
            (addr / page_size)
            (mark_entry false (mark_entry true w.entry)));
    })
unfolding mark_entry
Hit-again addr size p m m0 m1 table w e = record {
  entry = mark_entry true w.entry;
  aligned = w.aligned;
  at_page = get_elem?-set table (addr / page_size) w.entry _ w.at_page;
  in_table = rw (e, w.marked) w.in_table;
  is_valid = w.is_valid;
  may_write = and-false w.entry.read_only;
  frame_exists = w.frame_exists;
  address = w.address;
  fits = w.fits;
  marked = refl;
}

-- A value that `WriteMem` stored through the page table is read back by `ReadMem` at the same
-- address and size: whole for 4 bytes, its low half for 2, its low byte as a signed `char` for 1.
pub read-write :
    (addr size value : ℕ) (m m1 : Machine) (table : List TranslationEntry)
    → IsAccess size
    → value < word_mod
    → m.tlb ≡ none
    → m.page_table ≡ some table
    → write_mem addr size value m ≡ done tt m1
    → (m2 : Machine) × (read_mem addr size m1 ≡ done (loaded size value) m2)
read-write addr size value m m1 table s v ht hp h =
    let (p, m0, t, st) = write_done addr size value m m1 h in
    let w : Hit table addr size true m p m0 =
      (translate_found addr size true m table p m0 ht hp).0 t in
    let (tlb1, table1, size1) = store_bytes-tables size p value m0 m1 st in
    let again = Hit-again addr size p m m0 m1 table w size1 in
    let m2 : Machine = record m1 {
      page_table = some (
          set (set table (addr / page_size) (mark_entry true w.entry)) (addr / page_size)
            (mark_entry false (mark_entry true w.entry)));
    } in
    (
      m2,
      read-found addr size p m1 m2 (
            (translate_found addr size false m1 _ p m2
                (tlb1 ∙ ap (λ (x : Machine). x.tlb) w.marked ∙ ht)
                (table1 ∙ ap (λ (x : Machine). x.page_table) w.marked)).1
              again)
          ∙ load-other size p (loaded size value) m1 m2 refl (load-store size p value m0 m1 s v st),
    )
