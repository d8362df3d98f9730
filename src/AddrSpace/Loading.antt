-- ===== src/AddrSpace/Loading.antt =====
-- NachOS-4.0/code/userprog/addrspace.cc: the copying of the segments in `AddrSpace::Load`.
use hcmus_csc10007_operating.Common.{
  ℕ, zero, suc, ◌+◌, ◌-◌, ◌*◌, ◌%◌, ◌<◌, ◌≤◌, ◌≡◌, ◌≢◌, ◌⊎◌, refl, sym, ap, ◌∙◌, true, false, List,
  ◌==◌, ltb, leb, arith, Bool-cases, inl, inr,
}
use hcmus_csc10007_operating.Machine.State.{TranslationEntry, page_size}
use hcmus_csc10007_operating.Bitmap.{div_round_up}
use hcmus_csc10007_operating.AddrSpace.{
  Segment, last_page_size, lesser, read_page, read_pages, read_segment,
}
use hcmus_csc10007_operating.AddrSpace.Frames.{frame_of}
use hcmus_csc10007_operating.AddrSpace.Views.{
  ReadsFile, Filled, Filled-none, Filled-join, view, read_page-Filled,
}

pub Filled-at :
    {file : ℕ → ℕ} {limit start start' n n' position position' : ℕ} {v v' : ℕ → ℕ}
    → start ≡ start'
    → n ≡ n'
    → position ≡ position'
    → Filled file limit start n position v v'
    → Filled file limit start' n' position' v v'
Filled-at {file} {limit} {v = v} {v'} e f g h = rw (sym e, sym f, sym g) h

-- How much of a segment goes on the page that the bytes before it have begun.
pub first_part :
    (size n i : ℕ)
    → i ≡ div_round_up (suc n) page_size
    → (n % page_size + 1 == page_size) ≡ false
    → (f : ℕ) × (lesser (page_size - (n % page_size + 1)) size ≡ f)
      × (f ≤ size)
      × ((suc n + f ≡ i * page_size) ⊎ (f ≡ size))
      × (i + div_round_up (size - f) page_size ≡ div_round_up (suc n + size) page_size)
first_part size n i e part = elim (Bool-cases (leb (page_size - (n % page_size + 1)) size)) [
  | inl t ↦ (
    page_size - (n % page_size + 1),
    ground arith,
    ground arith,
    inl (ground arith),
    ground arith,
  )
  | inr t ↦ (size, ground arith, omega arith, inr refl, ground arith)
]

-- The page that follows a segment.
pub read_segment-next :
    (exec : ℕ → ℕ → List ℕ) (table : ℕ → TranslationEntry) (s : Segment) (before i : ℕ)
    (bytes : ℕ → ℕ)
    → 0 < before
    → i ≡ div_round_up before page_size
    → (read_segment exec 0 table s before i bytes).1 ≡ div_round_up (before + s.size) page_size
unfolding read_segment
read_segment-next exec table s zero i bytes b e = absurd (omega arith)
read_segment-next exec table s (suc n) i bytes b e = elim (Bool-cases (s.size == 0)) [
  | inl z ↦ rw z (ground arith)
  | inr z ↦ elim (Bool-cases (n % page_size + 1 == page_size)) [
    | inl full ↦
        let f : lesser (page_size - (n % page_size + 1)) s.size ≡ 0 = ground arith in
        rw (z, f) (ground arith)
    | inr part ↦ let (f, fe, fl, fc, fp) = first_part s.size n i e part in rw (z, fe) fp
  ]
]

module _ (exec : ℕ → ℕ → List ℕ) (file : ℕ → ℕ) (size : ℕ) (reads : ReadsFile exec file size)
    (table : ℕ → TranslationEntry) (pages : ℕ)
    (apart : (x y : ℕ) → x < pages → y < pages → x ≢ y → frame_of table x ≢ frame_of table y) where
  pub read_pages-Filled :
      (k n i position last : ℕ) (bytes : ℕ → ℕ)
      → k ≡ div_round_up n page_size
      → last ≡ last_page_size n
      → i + k ≤ pages
      → position + n ≤ size
      → Filled file
          (pages * page_size)
          (i * page_size)
          n
          position
          (view table bytes)
          (view table (read_pages exec 0 table k last i position bytes))
  unfolding read_pages
  read_pages-Filled zero n i position last bytes e f l enough =
      let z : 0 ≡ n = ground arith in
      Filled-at refl z refl (Filled-none file _ _ position (view table bytes))
  read_pages-Filled (suc zero) zero i position last bytes e f l enough = absurd (ground arith)
  read_pages-Filled (suc zero) (suc n) i position last bytes e f l enough =
      let z : last ≡ suc n = ground arith in
      Filled-at (omega arith) z refl (
        read_page-Filled exec file size reads table pages apart i 0 last position bytes
          (omega arith) (omega arith) (omega (arith, z)))
  read_pages-Filled (suc (suc k)) zero i position last bytes e f l enough = absurd (ground arith)
  read_pages-Filled (suc (suc k)) (suc n) i position last bytes e f l enough =
      let big : page_size ≤ n = ground arith in
      let less : suc n - page_size ≡ suc (n - page_size) = omega arith in
      let same : last ≡ last_page_size (suc n - page_size) =
        f
        ∙ (let z : n % page_size + 1 ≡ (n - page_size) % page_size + 1 = omega arith in z)
        ∙ sym (ap last_page_size less) in
      let more : suc k ≡ div_round_up (suc n - page_size) page_size = ground arith in
      let step : read_pages exec 0 table (suc (suc k)) last i position bytes
          ≡ read_pages exec 0 table (suc k) last (suc i) (position + page_size)
              (read_page exec 0 table i 0 page_size position bytes) =
        ground arith in
      rw step (
        Filled-at (omega arith) (omega arith) refl (
          Filled-join file _ _ page_size (suc n - page_size) position _ _ _
            (read_page-Filled exec file size reads table pages apart i 0 page_size position bytes
              (omega arith) (omega arith) (omega arith))
            (Filled-at (omega arith) refl refl (
              read_pages-Filled (suc k) (suc n - page_size) (suc i) (position + page_size) last
                (read_page exec 0 table i 0 page_size position bytes) more same (omega arith)
                (omega arith)))))

  read_nothing :
      (last i position : ℕ) (begun : ℕ → ℕ)
      → read_pages exec 0 table 0 last i position begun ≡ begun
  unfolding read_pages
  read_nothing last i position begun = refl

  -- The pages of a segment once its first `f` bytes are there.
  pages_after :
      (s : Segment) (before f i : ℕ) (bytes begun : ℕ → ℕ)
      → Filled file
          (pages * page_size)
          before
          f
          s.in_file_addr
          (view table bytes)
          (view table begun)
      → f ≤ s.size
      → (before + f ≡ i * page_size) ⊎ (f ≡ s.size)
      → i + div_round_up (s.size - f) page_size ≤ pages
      → s.in_file_addr + s.size ≤ size
      → Filled file (pages * page_size) before s.size s.in_file_addr (view table bytes) (
          view table (
            read_pages exec 0 table
              (div_round_up (s.size - f) page_size)
              (last_page_size (s.size - f))
              i
              (s.in_file_addr + f)
              begun))
  pages_after s before f i bytes begun h l (inl e) p enough = Filled-at refl (omega arith) refl (
      Filled-join file _ before f (s.size - f) s.in_file_addr _ _ _ h (
        Filled-at (sym e) refl refl (
          read_pages-Filled (div_round_up (s.size - f) page_size) (s.size - f) i
            (s.in_file_addr + f) (last_page_size (s.size - f)) begun refl refl p (omega arith))))
  pages_after s before f i bytes begun h l (inr e) p enough =
      let z : s.size - f ≡ 0 = omega arith in
      let q : read_pages exec 0 table (div_round_up (s.size - f) page_size)
            (last_page_size (s.size - f)) i (s.in_file_addr + f) begun
          ≡ begun =
        rw z (read_nothing (last_page_size 0) i (s.in_file_addr + f) begun) in
      rw q (Filled-at refl e refl h)

  -- A segment after `before` bytes, of which there are some.
  pub read_segment-Filled :
      (s : Segment) (n i : ℕ) (bytes : ℕ → ℕ)
      → i ≡ div_round_up (suc n) page_size
      → div_round_up (suc n + s.size) page_size ≤ pages
      → s.in_file_addr + s.size ≤ size
      → Filled file
          (pages * page_size)
          (suc n)
          s.size
          s.in_file_addr
          (view table bytes)
          (view table (read_segment exec 0 table s (suc n) i bytes).0)
        × ((read_segment exec 0 table s (suc n) i bytes).1
            ≡ div_round_up (suc n + s.size) page_size)
  unfolding read_segment
  read_segment-Filled s n i bytes e l enough = elim (Bool-cases (s.size == 0)) [
    | inl z ↦
        let y : 0 ≡ s.size = ground arith in
        rw z (
          Filled-at refl y refl (Filled-none file _ _ s.in_file_addr (view table bytes)),
          ground arith,
        )
    | inr z ↦ elim (Bool-cases (n % page_size + 1 == page_size)) [
      | inl full ↦
          let none : Filled file (pages * page_size) (suc n) 0 s.in_file_addr (view table bytes)
              (view table bytes) =
            Filled-none file _ _ s.in_file_addr (view table bytes) in
          let f : lesser (page_size - (n % page_size + 1)) s.size ≡ 0 = ground arith in
          rw (z, full, f)
            (
              pages_after s (suc n) 0 i bytes bytes none (omega arith) (inl (ground arith))
                  (ground arith) enough,
              ground arith,
            )
      | inr part ↦
          let some_pages : ltb 0 i ≡ true = ground arith in
          let (f, fe, fl, fc, fp) = first_part s.size n i e part in
          let there : (i - 1) * page_size + (n % page_size + 1) ≡ suc n = ground arith in
          rw (z, part, some_pages, fe)
            (
              pages_after s (suc n) f i bytes
                  (read_page exec 0 table (i - 1) (n % page_size + 1) f s.in_file_addr bytes)
                  (Filled-at there refl refl (
                    read_page-Filled exec file size reads table pages apart (i - 1)
                      (n % page_size + 1) f s.in_file_addr bytes (ground arith) (ground arith)
                      (omega arith)))
                  fl fc (omega arith) enough,
              fp,
            )
    ]
  ]
