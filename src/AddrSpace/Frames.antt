-- ===== src/AddrSpace/Frames.antt =====
-- NachOS-4.0/code/userprog/addrspace.cc: the frames that `AddrSpace::Load` takes.
use hcmus_csc10007_operating.Common.{
  ℕ, zero, suc, ◌+◌, ◌<◌, ◌≤◌, ◌≡◌, refl, sym, ◌∙◌, Bool, true, false, Option, some, List, ◌==◌,
  ltb, leb, assign_at, arith, Bool-cases, inl, inr, ℕ_discrete,
}
use hcmus_csc10007_operating.Machine.State.{TranslationEntry, page_size, num_phys_pages}
use hcmus_csc10007_operating.Bitmap.{Bitmap, div_round_up, is_set, num_clear}
use hcmus_csc10007_operating.Bitmap.Bits.{IsValid}
use hcmus_csc10007_operating.Bitmap.Allocation.{clear_below, num_clear_lem, Writes-count_set}
use hcmus_csc10007_operating.FileHeader.Sectors.{Owns, Owns-step, Owns-none, find_some}
use hcmus_csc10007_operating.AddrSpace.{
  NoffHeader, noff_magic_number, AddrSpace, Memory, program_size, fresh_entry, zero_frame,
  allocate_frames, read_program, load,
}

abbrev pub frame_of : (ℕ → TranslationEntry) → ℕ → ℕ
frame_of table i = (table i).physical_page

Owns-same :
    (d e : ℕ → ℕ) (lo hi : ℕ) (before b : Bitmap)
    → ((x : ℕ) → d x ≡ e x)
    → Owns d lo hi before b
    → Owns e lo hi before b
Owns-same d e lo hi before b h o = record {
  same_size = o.same_size;
  valid = o.valid;
  in_range = λ x p q. rw (sym (h x)) (o.in_range x p q);
  free_before = λ x p q. rw (sym (h x)) (o.free_before x p q);
  taken = λ x p q. rw (sym (h x)) (o.taken x p q);
  distinct = λ x y p q r z. o.distinct x y p q r (h x ∙ z ∙ sym (h y));
  others = λ j n. o.others j (λ x p q z. n x p q (sym (h x) ∙ z));
}

-- Entries that `Load` makes: of their own page, valid, writable.
abbrev pub Fresh : (ℕ → TranslationEntry) → ℕ → Type 0
Fresh table n = (x : ℕ) → x < n → table x ≡ fresh_entry x (frame_of table x)

allocate_frames_lem :
    (k i : ℕ) (table : ℕ → TranslationEntry) (before : Bitmap) (m : Memory)
    → Owns (frame_of table) 0 i before m.phys_pages
    → Fresh table i
    → k ≤ clear_below (is_set m.phys_pages) m.phys_pages.num_bits
    → (table' : ℕ → TranslationEntry) × (m' : Memory) × (allocate_frames k i table m
        ≡ some (table', m'))
      × Owns (frame_of table') 0 (i + k) before m'.phys_pages
      × Fresh table' (i + k)
unfolding allocate_frames
allocate_frames_lem zero i table before m o f c =
    let e : i + 0 ≡ i = omega arith in (table, m, refl, rw e o, rw e f)
allocate_frames_lem (suc k) i table before m o f c =
    let (s, b, e, l, free, w) = find_some m.phys_pages o.valid (omega arith) in
    let table1 : ℕ → TranslationEntry = assign_at table i (fresh_entry i s) in
    let m1 : Memory = record { phys_pages = b; bytes = zero_frame s m.bytes } in
    let q : allocate_frames (suc k) i table m ≡ allocate_frames k (suc i) table1 m1 =
      ground arith in
    let o1 : Owns (frame_of table1) 0 (suc i) before b =
      Owns-same _ (frame_of table1) 0 (suc i) before b (λ x. ground arith)
        (Owns-step (frame_of table) i s before m.phys_pages b o l free w) in
    let f1 : Fresh table1 (suc i) = λ x p. elim (ℕ_discrete x i) [
      | yes z ↦ ground arith
      | no z ↦ let g = f x (omega arith) in ground arith
    ] in
    let (t, m', r, o', f') =
      allocate_frames_lem k (suc i) table1 before m1 o1 f1
        (omega (arith, Writes-count_set m.phys_pages b s l free w)) in
    let g : suc i + k ≡ i + suc k = omega arith in (t, m', q ∙ r, rw (sym g) o', rw (sym g) f')

frames_for :
    (n : ℕ) (table : ℕ → TranslationEntry) (m : Memory)
    → IsValid m.phys_pages
    → n ≤ clear_below (is_set m.phys_pages) m.phys_pages.num_bits
    → (table' : ℕ → TranslationEntry) × (m' : Memory) × (allocate_frames n 0 table m
        ≡ some (table', m'))
      × Owns (frame_of table') 0 n m.phys_pages m'.phys_pages
      × Fresh table' n
frames_for n table m v c =
    let (t, m', r, o, f) =
      allocate_frames_lem n 0 table m.phys_pages m (Owns-none _ m.phys_pages v) (λ x p. elim p [ ])
        c in
    let g : 0 + n ≡ n = omega arith in (t, m', r, Owns-upto g o, Fresh-upto g f)
  where
    Owns-upto :
        {d : ℕ → ℕ} {a b : ℕ} {before after : Bitmap}
        → a ≡ b
        → Owns d 0 a before after
        → Owns d 0 b before after
    Owns-upto {d} {before = before} {after} e o = rw (sym e) o

    Fresh-upto : {t : ℕ → TranslationEntry} {a b : ℕ} → a ≡ b → Fresh t a → Fresh t b
    Fresh-upto e f = λ x p. f x (omega arith)

-- What `Load` is to do with the frames: with too few of them it returns FALSE and changes nothing
-- but the number of pages; otherwise the pages have frames of their own.
pub data Loads (exec : ℕ → ℕ → List ℕ) (h : NoffHeader) (space : AddrSpace) (m : Memory)
    : Option (Bool × (AddrSpace × Memory)) → Type 0 where
  no_memory :
      clear_below (is_set m.phys_pages) m.phys_pages.num_bits
        < div_round_up (program_size h) page_size
      → Loads exec h space m (some (false, (record space { num_pages = 0 }, m)))
  loaded :
      (space' : AddrSpace) (m1 m' : Memory)
      → space'.num_pages ≡ div_round_up (program_size h) page_size
      → allocate_frames space'.num_pages 0 space.page_table m ≡ some (space'.page_table, m1)
      → Owns (frame_of space'.page_table) 0 space'.num_pages m.phys_pages m'.phys_pages
      → Fresh space'.page_table space'.num_pages
      → m'.bytes ≡ read_program exec space'.page_table h m1.bytes
      → Loads exec h space m (some (true, (space', m')))

pub load-Loads :
    (exec : ℕ → ℕ → List ℕ) (h : NoffHeader) (space : AddrSpace) (m : Memory)
    → IsValid m.phys_pages
    → h.noff_magic ≡ noff_magic_number
    → div_round_up (program_size h) page_size ≤ num_phys_pages
    → Loads exec h space m (load exec h space m)
unfolding load
load-Loads exec h space m v magic small =
    go (div_round_up (program_size h) page_size) refl small (num_clear_lem m.phys_pages)
  where
    go :
        (n : ℕ)
        → div_round_up (program_size h) page_size ≡ n
        → n ≤ num_phys_pages
        → num_clear m.phys_pages ≡ some (clear_below (is_set m.phys_pages) m.phys_pages.num_bits)
        → Loads exec h space m (load exec h space m)
    go n e l c =
        let g : (h.noff_magic == noff_magic_number) ≡ true = ground arith in
        let a : leb n num_phys_pages ≡ true = ground arith in
        elim (Bool-cases (ltb (clear_below (is_set m.phys_pages) m.phys_pages.num_bits) n)) [
          | inl t ↦ rw (g, e, a, c, t) (no_memory (rw e (ground arith)))
          | inr t ↦
              let (table, m1, r, o, f) = frames_for n space.page_table m v (ground arith) in
              rw (g, e, a, c, t, r)
                (loaded (record { num_pages = n; page_table = table }) m1 _ (sym e) r o f refl)
        ]
