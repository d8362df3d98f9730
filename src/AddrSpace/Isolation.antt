-- ===== src/AddrSpace/Isolation.antt =====
-- NachOS-4.0/code/userprog/addrspace.cc: loading a program leaves the memory of the programs that are there.
use hcmus_csc10007_operating.Common.{
  ℕ, zero, suc, ◌+◌, ◌-◌, ◌*◌, ◌/◌, ◌%◌, ◌<◌, ◌≤◌, ◌≡◌, ◌≢◌, refl, sym, ap, ◌∙◌, true, false, some,
  List, ◌==◌, ltb, assign_at, arith, Bool-cases, inl, inr,
}
use hcmus_csc10007_operating.Machine.State.{TranslationEntry, page_size, num_phys_pages}
use hcmus_csc10007_operating.Bitmap.{div_round_up, is_set}
use hcmus_csc10007_operating.AddrSpace.{
  fresh_entry, zero_frame, AddrSpace, Memory, program_size, load, allocate_frames, Segment,
  NoffHeader, noff_magic_number, copy_in, last_page_size, lesser, read_page, read_pages,
  read_segment, read_program,
}
use hcmus_csc10007_operating.AddrSpace.Frames.{frame_of}
use hcmus_csc10007_operating.AddrSpace.Release.{allocate_step, load-some}
use hcmus_csc10007_operating.Bitmap.Bits.{IsValid}
use hcmus_csc10007_operating.AddrSpace.Views.{ReadsFile, view}
use hcmus_csc10007_operating.AddrSpace.Loading.{first_part, read_segment-next}
use hcmus_csc10007_operating.AddrSpace.Program.{Fits, read_program-body}
use hcmus_csc10007_operating.AddrSpace.Views.{copied_outside}

-- A place of the memory that is in none of the first `pages` frames of the table.
module _ (exec : ℕ → ℕ → List ℕ) (file : ℕ → ℕ) (size : ℕ) (reads : ReadsFile exec file size)
    (table : ℕ → TranslationEntry) (pages p : ℕ)
    (other : (x : ℕ) → x < pages → p / page_size ≢ frame_of table x) where
  read_page-other :
      (i offset n position : ℕ) (bytes : ℕ → ℕ)
      → i < pages
      → offset + n ≤ page_size
      → position + n ≤ size
      → read_page exec 0 table i offset n position bytes p ≡ bytes p
  unfolding read_page
  read_page-other i offset n position bytes l fits enough =
      let z = other i l in
      ap (λ (cs : List ℕ). copy_in cs (0 + frame_of table i * page_size + offset) bytes p)
        (reads n position enough)
      ∙ copied_outside file n position _ p bytes (ground arith)

  read_pages-other :
      (k n i position last : ℕ) (bytes : ℕ → ℕ)
      → k ≡ div_round_up n page_size
      → last ≡ last_page_size n
      → i + k ≤ pages
      → position + n ≤ size
      → read_pages exec 0 table k last i position bytes p ≡ bytes p
  unfolding read_pages
  read_pages-other zero n i position last bytes e f l enough = refl
  read_pages-other (suc zero) zero i position last bytes e f l enough = absurd (ground arith)
  read_pages-other (suc zero) (suc n) i position last bytes e f l enough =
      read_page-other i 0 last position bytes (omega arith) (ground arith) (ground arith)
  read_pages-other (suc (suc k)) zero i position last bytes e f l enough = absurd (ground arith)
  read_pages-other (suc (suc k)) (suc n) i position last bytes e f l enough =
      let big : page_size ≤ n = ground arith in
      let less : suc n - page_size ≡ suc (n - page_size) = omega arith in
      let same : last ≡ last_page_size (suc n - page_size) =
        f
        ∙ (let z : n % page_size + 1 ≡ (n - page_size) % page_size + 1 = omega arith in z)
        ∙ sym (ap last_page_size less) in
      let step : read_pages exec 0 table (suc (suc k)) last i position bytes
          ≡ read_pages exec 0 table (suc k) last (suc i) (position + page_size)
              (read_page exec 0 table i 0 page_size position bytes) =
        ground arith in
      ap (λ (g : ℕ → ℕ). g p) step
      ∙ read_pages-other (suc k) (suc n - page_size) (suc i) (position + page_size) last
          (read_page exec 0 table i 0 page_size position bytes) (ground arith) same (omega arith)
          (omega arith)
      ∙ read_page-other i 0 page_size position bytes (omega arith) (omega arith) (omega arith)

  read_segment-other :
      (s : Segment) (before i : ℕ) (bytes : ℕ → ℕ)
      → 0 < before
      → i ≡ div_round_up before page_size
      → div_round_up (before + s.size) page_size ≤ pages
      → s.in_file_addr + s.size ≤ size
      → (read_segment exec 0 table s before i bytes).0 p ≡ bytes p
  unfolding read_segment
  read_segment-other s zero i bytes b e l enough = absurd (omega arith)
  read_segment-other s (suc n) i bytes b e l enough = elim (Bool-cases (s.size == 0)) [
    | inl z ↦ rw z refl
    | inr z ↦ elim (Bool-cases (n % page_size + 1 == page_size)) [
      | inl full ↦
          let f : lesser (page_size - (n % page_size + 1)) s.size ≡ 0 = ground arith in
          rw (z, full, f)
            (read_pages-other (div_round_up (s.size - 0) page_size) (s.size - 0) i
              (s.in_file_addr + 0) (last_page_size (s.size - 0)) bytes refl refl (ground arith)
              (omega arith))
      | inr part ↦
          let some_pages : ltb 0 i ≡ true = ground arith in
          let (f, fe, fl, fc, fp) = first_part s.size n i e part in
          rw (z, part, some_pages, fe)
            (read_pages-other (div_round_up (s.size - f) page_size) (s.size - f) i
                (s.in_file_addr + f) (last_page_size (s.size - f)) _ refl refl (omega arith)
                (omega arith)
              ∙ read_page-other (i - 1) (n % page_size + 1) f s.in_file_addr bytes (ground arith)
                  (ground arith) (omega arith))
    ]
  ]

  read_program-other :
      (h : NoffHeader) (bytes : ℕ → ℕ)
      → Fits h size
      → div_round_up (h.code.size + h.init_data.size + h.readonly_data.size) page_size ≤ pages
      → read_program exec table h bytes p ≡ bytes p
  read_program-other h bytes f l =
      let q = read_program-body exec table h bytes f.code_first f.some_code in
      let n = div_round_up h.code.size page_size in
      let c = f.some_code in
      let w = read_pages exec 0 table n (last_page_size h.code.size) 0 h.code.in_file_addr bytes in
      let u = read_segment exec 0 table h.init_data h.code.size n w in
      ap (λ (g : ℕ → ℕ). g p) q
      ∙ read_segment-other h.readonly_data (h.code.size + h.init_data.size) u.1 u.0 (omega arith)
          (read_segment-next exec table h.init_data h.code.size n w f.some_code refl) l
          f.readonly_in
      ∙ read_segment-other h.init_data h.code.size n w f.some_code refl (ground arith) f.data_in
      ∙ read_pages-other n h.code.size 0 h.code.in_file_addr (last_page_size h.code.size) bytes refl
          refl (ground arith) f.code_in

-- Frames that are taken already keep their bytes.
kept_frames :
    (k i : ℕ) (table table' : ℕ → TranslationEntry) (m m' : Memory) (p : ℕ)
    → ((x : ℕ) → i ≤ x → x < i + k → p / page_size ≢ frame_of table' x)
    → allocate_frames k i table m ≡ some (table', m')
    → (m'.bytes p ≡ m.bytes p) × ((x : ℕ) → x < i → frame_of table' x ≡ frame_of table x)
unfolding allocate_frames zero_frame
kept_frames zero i table table' m m' p n e =
    let t : table ≡ table' = ground arith in
    let u : m ≡ m' = ground arith in
    (
      ap (λ (n : Memory). n.bytes p) (sym u),
      λ x l. ap (λ (g : ℕ → TranslationEntry). frame_of g x) (sym t),
    )
kept_frames (suc k) i table table' m m' p n e =
    let (s, b, f) = allocate_step k i table m (table', m') e in
    let (q, r) =
      kept_frames k (suc i) (assign_at table i (fresh_entry i s)) table' _ m' p
        (λ x c d. n x (omega arith) (omega arith)) f in
    let here = r i (omega arith) in
    let w = n i (omega arith) (omega arith) in
    let z : (p / page_size == s) ≡ false = ground arith in
    (q ∙ (rw z refl), λ x l. r x (omega arith) ∙ same_frame x l s)
  where
    same_frame :
        (x : ℕ)
        → x < i
        → (s : ℕ) → (assign_at table i (fresh_entry i s) x).physical_page ≡ (table x).physical_page
    same_frame x l s = let y : (x == i) ≡ false = ground arith in rw y refl

-- A program of the right magic number is loaded out of a valid map, and then another one, whose segments stand in an executable of which ReadAt
-- returns the bytes, with its code at address 0 and not empty, and whose sizes with the stack do not
-- wrap around; both have at most as many pages as there are frames: no frame of the second is a frame
-- of the first, and the memory of the first program is what it was.
pub load-load :
    (exec exec' : ℕ → ℕ → List ℕ) (file' : ℕ → ℕ) (size' : ℕ) (h h' : NoffHeader)
    (space space' first second : AddrSpace) (m m1 m2 : Memory)
    → IsValid m.phys_pages
    → h.noff_magic ≡ noff_magic_number
    → div_round_up (program_size h) page_size ≤ num_phys_pages
    → load exec h space m ≡ some (true, (first, m1))
    → ReadsFile exec' file' size'
    → Fits h' size'
    → div_round_up (program_size h') page_size ≤ num_phys_pages
    → load exec' h' space' m1 ≡ some (true, (second, m2))
    → ((x y : ℕ)
        → x < first.num_pages
        → y < second.num_pages
        → frame_of first.page_table x ≢ frame_of second.page_table y)
      × ((a : ℕ)
          → a < first.num_pages * page_size
          → view first.page_table m2.bytes a ≡ view first.page_table m1.bytes a)
unfolding program_size
load-load exec exec' file' size' h h' space space' first second m m1 m2 v g l e reads f l' e' =
    let (o, _, _, _) = load-some exec h space first m m1 v g l e in
    let (o', _, n', (m3, r, b)) = load-some exec' h' space' second m1 m2 o.valid f.magic l' e' in
    let w = f.no_wrap in
    let apart : (x y : ℕ)
        → x < first.num_pages
        → y < second.num_pages
        → frame_of first.page_table x ≢ frame_of second.page_table y =
      λ x y p q z.
        let t = o.taken x (omega arith) p in
        let u = o'.free_before y (omega arith) q in
        let c : is_set m1.phys_pages (frame_of first.page_table x)
            ≡ is_set m1.phys_pages (frame_of second.page_table y) =
          ap (is_set m1.phys_pages) z in
        ground arith in
    (
      apart,
      λ a p.
          let q = frame_of first.page_table (a / page_size) * page_size + a % page_size in
          let own : q / page_size ≡ frame_of first.page_table (a / page_size) = omega arith in
          let other : (x : ℕ)
              → x < second.num_pages
              → q / page_size ≢ frame_of second.page_table x =
            λ x c z. apart (a / page_size) x (omega arith) c (sym own ∙ z) in
          let (k, _) =
            kept_frames second.num_pages 0 space'.page_table second.page_table m1 m3 q
              (λ x _ d. other x (omega arith)) r in
          ap (λ (t : ℕ → ℕ). t q) b
          ∙ read_program-other exec' file' size' reads second.page_table second.num_pages q other h'
              m3.bytes f (ground arith)
          ∙ k,
    )
