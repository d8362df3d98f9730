-- ===== src/AddrSpace/Program.antt =====
-- NachOS-4.0/code/userprog/addrspace.cc: what `AddrSpace::Load` leaves in the program's memory.
use hcmus_csc10007_operating.Common.{
  ℕ, zero, suc, ◌+◌, ◌*◌, ◌/◌, ◌<◌, ◌≤◌, ◌≡◌, ◌≢◌, refl, sym, ap, ◌∙◌, true, some, List, ◌==◌,
  if◌then◌else◌, arith, inl, inr, dec_lt,
}
use hcmus_csc10007_operating.Common.Word.{word_mod}
use hcmus_csc10007_operating.Machine.State.{TranslationEntry, page_size, num_phys_pages}
use hcmus_csc10007_operating.Bitmap.{Bitmap, div_round_up}
use hcmus_csc10007_operating.AddrSpace.{
  AddrSpace, Memory, program_size, load, Segment, NoffHeader, noff_magic_number, user_stack_size,
  last_page_size, read_pages, read_segment, read_program,
}
use hcmus_csc10007_operating.AddrSpace.Frames.{frame_of}
use hcmus_csc10007_operating.AddrSpace.Release.{allocate_frames-Zeroed, load-some}
use hcmus_csc10007_operating.FileHeader.Sectors.{Owns}
use hcmus_csc10007_operating.Bitmap.Bits.{IsValid}
use hcmus_csc10007_operating.AddrSpace.Views.{ReadsFile, Filled, view}
use hcmus_csc10007_operating.AddrSpace.Loading.{Filled-at, read_pages-Filled, read_segment-Filled}

-- The program's memory after `Load`: the code, the data and the read-only data one after the other,
-- and what was there before elsewhere.
pub record Laid (h : NoffHeader) (file : ℕ → ℕ) (limit : ℕ) (v v' : ℕ → ℕ) : Type 0 where
  pub code_at : (a : ℕ) → a < h.code.size → a < limit → v' a ≡ file (h.code.in_file_addr + a)
  pub data_at :
      (k : ℕ)
      → k < h.init_data.size
      → h.code.size + k < limit
      → v' (h.code.size + k) ≡ file (h.init_data.in_file_addr + k)
  pub readonly_at :
      (k : ℕ)
      → k < h.readonly_data.size
      → h.code.size + h.init_data.size + k < limit
      → v' (h.code.size + h.init_data.size + k) ≡ file (h.readonly_data.in_file_addr + k)
  pub rest :
      (a : ℕ) → h.code.size + h.init_data.size + h.readonly_data.size ≤ a → a < limit → v' a ≡ v a

Laid-three :
    (h : NoffHeader) (file : ℕ → ℕ) (limit : ℕ) (v w x y : ℕ → ℕ)
    → Filled file limit 0 h.code.size h.code.in_file_addr v w
    → Filled file limit h.code.size h.init_data.size h.init_data.in_file_addr w x
    → Filled file limit
        (h.code.size + h.init_data.size)
        h.readonly_data.size
        h.readonly_data.in_file_addr
        x
        y
    → Laid h file limit v y
Laid-three h file limit v w x y f g k = record {
  code_at = λ a p l.
      k.outside a (inl (omega arith)) l
      ∙ g.outside a (inl p) l
      ∙ f.inside a (omega arith) (omega arith) l
      ∙ ap (λ (t : ℕ). file (h.code.in_file_addr + t)) (omega arith);
  data_at = λ a p l.
      k.outside (h.code.size + a) (inl (omega arith)) l
      ∙ g.inside (h.code.size + a) (omega arith) (omega arith) l
      ∙ ap (λ (t : ℕ). file (h.init_data.in_file_addr + t)) (omega arith);
  readonly_at = λ a p l.
      k.inside (h.code.size + h.init_data.size + a) (omega arith) (omega arith) l
      ∙ ap (λ (t : ℕ). file (h.readonly_data.in_file_addr + t)) (omega arith);
  rest = λ a p l.
      k.outside a (inr p) l ∙ g.outside a (inr (omega arith)) l ∙ f.outside a (inr (omega arith)) l;
}

-- The segments stand in the file, the code at address 0, and their sizes do not wrap around.
pub record Fits (h : NoffHeader) (size : ℕ) : Type 0 where
  pub magic : h.noff_magic ≡ noff_magic_number
  pub code_first : h.code.virtual_addr ≡ 0
  pub some_code : 0 < h.code.size
  pub code_in : h.code.in_file_addr + h.code.size ≤ size
  pub data_in : h.init_data.in_file_addr + h.init_data.size ≤ size
  pub readonly_in : h.readonly_data.in_file_addr + h.readonly_data.size ≤ size
  pub no_wrap :
      h.code.size + h.readonly_data.size + h.init_data.size + h.uninit_data.size + user_stack_size
      < word_mod

-- The three loops, with the address of the code and the page after it.
abbrev pub body : (ℕ → ℕ → List ℕ) → (ℕ → TranslationEntry) → NoffHeader → ℕ → ℕ → (ℕ → ℕ) → ℕ → ℕ
body exec table h c i bytes =
    let w =
      read_pages exec c table (div_round_up h.code.size page_size) (last_page_size h.code.size) 0
        h.code.in_file_addr bytes in
    let (u, next) = read_segment exec c table h.init_data h.code.size i w in
    let (x, _) =
      read_segment exec c table h.readonly_data (h.code.size + h.init_data.size) next u in
    x

pub read_program-body :
    (exec : ℕ → ℕ → List ℕ) (table : ℕ → TranslationEntry) (h : NoffHeader) (bytes : ℕ → ℕ)
    → h.code.virtual_addr ≡ 0
    → 0 < h.code.size
    → read_program exec table h bytes
      ≡ body exec table h 0 (div_round_up h.code.size page_size) bytes
unfolding read_program
read_program-body exec table h bytes e p =
    let n = div_round_up h.code.size page_size in
    let i : (if h.code.size == 0 then 0 else n) ≡ n = ground arith in
    ap (λ (c : ℕ). body exec table h c (if h.code.size == 0 then 0 else n) bytes) e
    ∙ ap (λ (j : ℕ). body exec table h 0 j bytes) i

module _ (exec : ℕ → ℕ → List ℕ) (file : ℕ → ℕ) (size : ℕ) (reads : ReadsFile exec file size)
    (table : ℕ → TranslationEntry) (pages : ℕ)
    (apart : (x y : ℕ) → x < pages → y < pages → x ≢ y → frame_of table x ≢ frame_of table y) where
  segment_after :
      (s : Segment) (before i : ℕ) (bytes : ℕ → ℕ)
      → 0 < before
      → i ≡ div_round_up before page_size
      → div_round_up (before + s.size) page_size ≤ pages
      → s.in_file_addr + s.size ≤ size
      → Filled file
          (pages * page_size)
          before
          s.size
          s.in_file_addr
          (view table bytes)
          (view table (read_segment exec 0 table s before i bytes).0)
        × ((read_segment exec 0 table s before i bytes).1
            ≡ div_round_up (before + s.size) page_size)
  segment_after s zero i bytes p e l enough = absurd (omega arith)
  segment_after s (suc n) i bytes p e l enough =
      read_segment-Filled exec file size reads table pages apart s n i bytes e l enough

  read_program-Laid :
      (h : NoffHeader) (bytes : ℕ → ℕ)
      → Fits h size
      → div_round_up (h.code.size + h.init_data.size + h.readonly_data.size) page_size ≤ pages
      → Laid h file
          (pages * page_size)
          (view table bytes)
          (view table (read_program exec table h bytes))
  read_program-Laid h bytes f l =
      let n = div_round_up h.code.size page_size in
      let first =
        read_pages-Filled exec file size reads table pages apart n h.code.size 0 h.code.in_file_addr
          (last_page_size h.code.size) bytes refl refl (ground arith) f.code_in in
      let w = read_pages exec 0 table n (last_page_size h.code.size) 0 h.code.in_file_addr bytes in
      let (second, next) =
        segment_after h.init_data h.code.size n w f.some_code refl (ground arith) f.data_in in
      let c = f.some_code in
      let (third, _) =
        segment_after h.readonly_data (h.code.size + h.init_data.size)
          (read_segment exec 0 table h.init_data h.code.size n w).1
          (read_segment exec 0 table h.init_data h.code.size n w).0 (omega arith) next l
          f.readonly_in in
      let q = read_program-body exec table h bytes f.code_first f.some_code in
      rw q (
        Laid-three h file (pages * page_size) _ _ _ _ (Filled-at (omega arith) refl refl first)
          second third)

pub Owns-apart :
    (d : ℕ → ℕ) (n : ℕ) (before b : Bitmap)
    → Owns d 0 n before b
    → (x y : ℕ) → x < n
    → y < n
    → x ≢ y
    → d x ≢ d y
Owns-apart d n before b o x y p q e = elim (dec_lt x y) [
  | yes l ↦ o.distinct x y (omega arith) l q
  | no l ↦ λ z. o.distinct y x (omega arith) (omega arith) p (sym z)
]

-- A program whose segments stand in an executable of which ReadAt returns the bytes, with its code at
-- address 0 and not empty, whose sizes with the stack do not wrap around, and with at most as many
-- pages as there are frames; and a `Load` of it that returned TRUE out of a valid map: through the new page table the memory holds the code from address 0, then the
-- data, then the read-only data, and zeros from there to the end of the last page.
pub load-Laid :
    (exec : ℕ → ℕ → List ℕ) (file : ℕ → ℕ) (size : ℕ) (h : NoffHeader) (space space' : AddrSpace)
    (m m' : Memory)
    → ReadsFile exec file size
    → Fits h size
    → IsValid m.phys_pages
    → div_round_up (program_size h) page_size ≤ num_phys_pages
    → load exec h space m ≡ some (true, (space', m'))
    → Laid h file (space'.num_pages * page_size) (λ a. 0) (view space'.page_table m'.bytes)
unfolding program_size
load-Laid exec file size h space space' m m' reads f v l e =
    let (o, fresh, n, (m1, r, b)) = load-some exec h space space' m m' v f.magic l e in
    let w = f.no_wrap in
    let laid =
      read_program-Laid exec file size reads space'.page_table space'.num_pages
        (Owns-apart _ space'.num_pages _ _ o) h m1.bytes f (ground arith) in
    let zero_view : (a : ℕ)
        → a < space'.num_pages * page_size
        → view space'.page_table m1.bytes a ≡ 0 =
      λ a p.
        allocate_frames-Zeroed space'.num_pages 0 space.page_table space'.page_table m m1
          (λ x q u. absurd (omega arith)) r (a / page_size) _ (omega arith) (omega arith) in
    record {
      code_at = λ a p q. same m1.bytes b a ∙ laid.code_at a p q;
      data_at = λ a p q. same m1.bytes b (h.code.size + a) ∙ laid.data_at a p q;
      readonly_at =
          λ a p q. same m1.bytes b (h.code.size + h.init_data.size + a) ∙ laid.readonly_at a p q;
      rest = λ a p q. same m1.bytes b a ∙ laid.rest a p q ∙ zero_view a q;
    }
  where
    same :
        (bytes : ℕ → ℕ)
        → m'.bytes ≡ read_program exec space'.page_table h bytes
        → (a : ℕ)
        → view space'.page_table m'.bytes a
          ≡ view space'.page_table (read_program exec space'.page_table h bytes) a
    same bytes b a = ap (λ (g : ℕ → ℕ). view space'.page_table g a) b
