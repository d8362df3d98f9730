-- ===== src/AddrSpace/Release.antt =====
-- NachOS-4.0/code/userprog/addrspace.cc: what a `Load` has done, and the frames that `~AddrSpace` gives back.
use hcmus_csc10007_operating.Common.{
  ℕ, zero, suc, ◌+◌, ◌/◌, ◌<◌, ◌≤◌, ◌≡◌, refl, sym, ap, ◌∙◌, Bool, true, Option, none, some, List,
  assign_at, arith, ℕ_discrete,
}
use hcmus_csc10007_operating.Machine.State.{TranslationEntry, page_size, num_phys_pages}
use hcmus_csc10007_operating.Bitmap.{Bitmap, div_round_up, is_set, find_and_set}
use hcmus_csc10007_operating.Bitmap.Bits.{IsValid, clear-Writes}
use hcmus_csc10007_operating.FileHeader.Sectors.{Owns}
use hcmus_csc10007_operating.FileHeader.Release.{Owns-drop}
use hcmus_csc10007_operating.AddrSpace.{
  NoffHeader, noff_magic_number, AddrSpace, Memory, program_size, fresh_entry, zero_frame,
  allocate_frames, read_program, load, free_frames, destroy,
}
use hcmus_csc10007_operating.AddrSpace.Frames.{
  frame_of, Fresh, Loads, no_memory, loaded, load-Loads,
}

pub allocate_step :
    (k i : ℕ) (table : ℕ → TranslationEntry) (m : Memory) (r : (ℕ → TranslationEntry) × Memory)
    → allocate_frames (suc k) i table m ≡ some r
    → (s : ℕ) × (b : Bitmap) × (allocate_frames k
          (suc i)
          (assign_at table i (fresh_entry i s))
          (record { phys_pages = b; bytes = zero_frame s m.bytes })
        ≡ some r)
unfolding allocate_frames
allocate_step k i table m r e = go (find_and_set m.phys_pages) refl
  where
    go :
        (o : Option (Option ℕ × Bitmap))
        → find_and_set m.phys_pages ≡ o
        → (s : ℕ) × (b : Bitmap) × (allocate_frames k
              (suc i)
              (assign_at table i (fresh_entry i s))
              (record { phys_pages = b; bytes = zero_frame s m.bytes })
            ≡ some r)
    go none q = ground arith
    go (some (none, b)) q = ground arith
    go (some (some s, b)) q = (s, b, ground arith)

-- The frames of the first `n` pages hold zeros.
abbrev pub Zeroed : (ℕ → TranslationEntry) → ℕ → (ℕ → ℕ) → Type 0
Zeroed table n bytes = (x p : ℕ) → x < n → p / page_size ≡ frame_of table x → bytes p ≡ 0

pub allocate_frames-Zeroed :
    (k i : ℕ) (table table' : ℕ → TranslationEntry) (m m' : Memory)
    → Zeroed table i m.bytes
    → allocate_frames k i table m ≡ some (table', m')
    → Zeroed table' (i + k) m'.bytes
unfolding allocate_frames zero_frame
allocate_frames-Zeroed zero i table table' m m' z e x p l q =
    let t : table ≡ table' = ground arith in
    let u : m ≡ m' = ground arith in
    let v : p / page_size ≡ frame_of table x =
      q ∙ ap (λ (g : ℕ → TranslationEntry). frame_of g x) (sym t) in
    ap (λ (n : Memory). n.bytes p) (sym u) ∙ z x p (omega arith) v
allocate_frames-Zeroed (suc k) i table table' m m' z e x p l q =
    let (s, b, f) = allocate_step k i table m (table', m') e in
    allocate_frames-Zeroed k (suc i) (assign_at table i (fresh_entry i s)) table' _ m'
      (λ y r n h. elim (ℕ_discrete y i) [
        | yes c ↦ ground arith
        | no c ↦ let g = z y r (omega arith) in ground arith
      ])
      f x p (omega arith) q

-- What a `Load` that returned TRUE has done.
pub load-some :
    (exec : ℕ → ℕ → List ℕ) (h : NoffHeader) (space space' : AddrSpace) (m m' : Memory)
    → IsValid m.phys_pages
    → h.noff_magic ≡ noff_magic_number
    → div_round_up (program_size h) page_size ≤ num_phys_pages
    → load exec h space m ≡ some (true, (space', m'))
    → Owns (frame_of space'.page_table) 0 space'.num_pages m.phys_pages m'.phys_pages
      × Fresh space'.page_table space'.num_pages
      × (space'.num_pages ≡ div_round_up (program_size h) page_size)
      × ((m1 : Memory) × (allocate_frames space'.num_pages 0 space.page_table m
            ≡ some (space'.page_table, m1))
          × (m'.bytes ≡ read_program exec space'.page_table h m1.bytes))
load-some exec h space space' m m' v g l e = go _ e (load-Loads exec h space m v g l)
  where
    go :
        (o : Option (Bool × (AddrSpace × Memory)))
        → o ≡ some (true, (space', m'))
        → Loads exec h space m o
        → Owns (frame_of space'.page_table) 0 space'.num_pages m.phys_pages m'.phys_pages
          × Fresh space'.page_table space'.num_pages
          × (space'.num_pages ≡ div_round_up (program_size h) page_size)
          × ((m1 : Memory) × (allocate_frames space'.num_pages 0 space.page_table m
                ≡ some (space'.page_table, m1))
              × (m'.bytes ≡ read_program exec space'.page_table h m1.bytes))
    go _ q (no_memory c) = ground arith
    go _ q (loaded s m1 m2 n r o f b) =
        let es : s ≡ space' = ground arith in
        let em : m2 ≡ m' = ground arith in rw (sym es, sym em) (o, f, n, (m1, r, b))

free_frames_lem :
    (k i : ℕ) (table : ℕ → TranslationEntry) (before b : Bitmap)
    → Owns (frame_of table) i (i + k) before b
    → (b' : Bitmap) × (free_frames k i table b ≡ some b')
      × IsValid b'
      × ((j : ℕ) → is_set b' j ≡ is_set before j)
unfolding free_frames
free_frames_lem zero i table before b o =
    (b, refl, o.valid, λ j. o.others j (λ x p q. absurd (omega arith)))
free_frames_lem (suc k) i table before b o =
    let r : frame_of table i < b.num_bits =
      omega (arith, o.same_size, o.in_range i (omega arith) (omega arith)) in
    let (b1, c, u) = clear-Writes b (frame_of table i) o.valid r in
    let g : i + suc k ≡ suc i + k = omega arith in
    let (b', q, w, e) =
      free_frames_lem k (suc i) table before b1
        (rw (sym g) (Owns-drop (frame_of table) i (i + suc k) before b b1 o (omega arith) u)) in
    let f : free_frames (suc k) i table b ≡ free_frames k (suc i) table b1 = ground arith in
    (b', f ∙ q, w, e)

-- The frames that a `Load` that returned TRUE took are given back by `~AddrSpace`: no ASSERT fails,
-- and the map is valid and has the bits that it had before.
pub load-destroy :
    (exec : ℕ → ℕ → List ℕ) (h : NoffHeader) (space space' : AddrSpace) (m m' : Memory)
    → IsValid m.phys_pages
    → h.noff_magic ≡ noff_magic_number
    → div_round_up (program_size h) page_size ≤ num_phys_pages
    → load exec h space m ≡ some (true, (space', m'))
    → (b : Bitmap) × (destroy space' m'.phys_pages ≡ some b)
      × IsValid b
      × ((j : ℕ) → is_set b j ≡ is_set m.phys_pages j)
unfolding destroy
load-destroy exec h space space' m m' v g l e =
    let (o, _, _, _) = load-some exec h space space' m m' v g l e in
    let z : space'.num_pages ≡ 0 + space'.num_pages = omega arith in
    free_frames_lem space'.num_pages 0 space'.page_table m.phys_pages m'.phys_pages (rw (sym z) o)
