-- ===== src/SystemCalls/Space.antt =====
-- NachOS-4.0/code/machine/translate.cc: single bytes of a program's memory through its page table, as the
-- kernel reads and writes them for a system call.
use hcmus_csc10007_operating.Common.{
  ℕ, ◌+◌, ◌*◌, ◌/◌, ◌%◌, ◌<◌, ◌≡◌, ◌≢◌, refl, sym, ap, ◌∙◌, Bool, true, false, none, some, List,
  get_elem?, set, get_elem?-set_ne, arith, ℕ_discrete,
}
use mathlib.Core.Path.{subst}
use hcmus_csc10007_operating.Machine.State.{
  Machine, TranslationEntry, done, page_size, num_phys_pages, update,
}
use hcmus_csc10007_operating.Machine.Memory.{
  found, translate, misaligned, mark_entry, char_value, load_bytes, store_bytes, read_mem,
  write_mem,
}
use hcmus_csc10007_operating.Machine.Memory.Translation.{translate_found}
use hcmus_csc10007_operating.Machine.Memory.RoundTrip.{get_elem?-set}

-- The frames of a program's pages: they exist and are all different.
pub record AreFrames (frames : ℕ → ℕ) (n : ℕ) : Type 0 where
  pub in_memory : (i : ℕ) → i < n → frames i < num_phys_pages
  pub apart : (i j : ℕ) → i < n → j < n → frames i ≡ frames j → i ≡ j

pub record Entry (frames : ℕ → ℕ) (table : List TranslationEntry) (i : ℕ) : Type 0 where
  pub entry : TranslationEntry
  pub there : get_elem? table i ≡ some entry
  pub is_valid : entry.valid ≡ true
  pub may_write : entry.read_only ≡ false
  pub frame : entry.physical_page ≡ frames i

-- The machine translates the addresses of n pages by the frames.
pub record UserSpace (frames : ℕ → ℕ) (n : ℕ) (m : Machine) : Type 0 where
  pub table : List TranslationEntry
  pub no_tlb : m.tlb ≡ none
  pub in_use : m.page_table ≡ some table
  pub size : m.page_table_size ≡ n
  pub entries : (i : ℕ) → i < n → Entry frames table i

-- The place in memory of a program's address.
abbrev pub place : (ℕ → ℕ) → ℕ → ℕ
place frames a = frames (a / page_size) * page_size + a % page_size

module _ (frames : ℕ → ℕ) (n : ℕ) where
  pub place_apart :
      (a b : ℕ)
      → AreFrames frames n
      → a < n * page_size
      → b < n * page_size
      → a ≢ b
      → place frames a ≢ place frames b
  place_apart a b f p q ne = λ e.
      let same : frames (a / page_size) ≡ frames (b / page_size) = omega arith in
      let page = f.apart (a / page_size) (b / page_size) (omega arith) (omega arith) same in
      ne (omega arith)

  page_lt : (a : ℕ) → a < n * page_size → a / page_size < n
  page_lt a h = omega arith

  -- An entry of the table is marked.
  marked-UserSpace :
      (m : Machine) (u : UserSpace frames n m) (i : ℕ) (writing : Bool) (memory : ℕ → ℕ) (l : i < n)
      → UserSpace frames n (record m {
        page_table = some (set u.table i (mark_entry writing (u.entries i l).entry));
        main_memory = memory;
      })
  unfolding mark_entry
  marked-UserSpace m u i writing memory l =
      let e = u.entries i l in
      record {
        table = set u.table i (mark_entry writing e.entry);
        no_tlb = u.no_tlb;
        in_use = refl;
        size = u.size;
        entries = λ j k. elim (ℕ_discrete i j) [
          | yes s ↦ subst (Entry frames (set u.table i (mark_entry writing e.entry))) s (record {
            entry = mark_entry writing e.entry;
            there = get_elem?-set u.table i e.entry _ e.there;
            is_valid = e.is_valid;
            may_write = e.may_write;
            frame = e.frame;
          })
          | no s ↦
              let g = u.entries j k in
              record {
                entry = g.entry;
                there = get_elem?-set_ne u.table _ s ∙ g.there;
                is_valid = g.is_valid;
                may_write = g.may_write;
                frame = g.frame;
              }
        ];
      }

  translate_lem :
      (m : Machine) (u : UserSpace frames n m) (a : ℕ) (writing : Bool)
      → AreFrames frames n
      → (l : a / page_size < n)
      → translate a 1 writing m
        ≡ found (place frames a) (record m {
          page_table = some (
              set u.table (a / page_size) (mark_entry writing (u.entries (a / page_size) l).entry));
        })
  unfolding misaligned
  translate_lem m u a writing f l =
      let e = u.entries (a / page_size) l in
      let there = f.in_memory (a / page_size) l in
      (translate_found a 1 writing m u.table _ _ u.no_tlb u.in_use).1 (record {
        entry = e.entry;
        aligned = refl;
        at_page = e.there;
        in_table = omega (arith, u.size);
        is_valid = e.is_valid;
        may_write = rw e.may_write refl;
        frame_exists = omega (arith, e.frame);
        address = ap (λ q. q * page_size + a % page_size) (sym e.frame);
        fits = omega (arith, e.frame);
        marked = refl;
      })

  -- One byte is read.
  pub read_byte :
      (m : Machine) (a : ℕ)
      → UserSpace frames n m
      → AreFrames frames n
      → a < n * page_size
      → (m' : Machine) × (read_mem a 1 m ≡ done (char_value (m.main_memory (place frames a))) m')
        × UserSpace frames n m'
        × (m'.main_memory ≡ m.main_memory)
  unfolding read_mem load_bytes
  read_byte m a u f h =
      let l = page_lt a h in
      (
        record m {
          page_table =
              some (
                set u.table (a / page_size) (mark_entry false (u.entries (a / page_size) l).entry));
        },
        rw (translate_lem m u a false f l, read_mem) refl,
        marked-UserSpace m u (a / page_size) false m.main_memory l,
        refl,
      )

  -- One byte is written.
  pub write_byte :
      (m : Machine) (a value : ℕ)
      → UserSpace frames n m
      → AreFrames frames n
      → a < n * page_size
      → (m' : Machine) × (write_mem a 1 value m ≡ done tt m')
        × UserSpace frames n m'
        × (m'.main_memory ≡ update m.main_memory (place frames a) (value % 256))
  unfolding write_mem store_bytes
  write_byte m a value u f h =
      let l = page_lt a h in
      (
        record m {
          page_table =
              some
                (set u.table (a / page_size) (mark_entry true (u.entries (a / page_size) l).entry));
          main_memory = update m.main_memory (place frames a) (value % 256);
        },
        rw (translate_lem m u a true f l, write_mem) refl,
        marked-UserSpace m u (a / page_size) true _ l,
        refl,
      )
