-- ===== src/SectorFile/Blocks.antt =====
-- NachOS-4.0/code/filesys/openfile.cc: the buffer of `WriteAt` before its sectors are written.
use hcmus_csc10007_operating.Common.{
  ℕ, suc, ◌+◌, ◌-◌, ◌*◌, ◌/◌, ◌≤◌, ◌<◌, ◌==◌, ltb, leb, ◌≡◌, refl, ap, ◌∙◌, ◌&&◌, ◌||◌, not, Bool,
  true, false, if◌then◌else◌, Bool-cases, ◌⊎◌, inl, inr, arith,
}
use hcmus_csc10007_operating.FileHeader.{FileHeader, sector_size, num_direct, file_length}
use hcmus_csc10007_operating.Common.Word.{sign_bit, add32}
use hcmus_csc10007_operating.SectorFile.{Bytes, Disk, bcopy, transferred}
use hcmus_csc10007_operating.SectorFile.Reading.{contents}

and-false : (t : Bool) → (t && false) ≡ false
and-false true = refl
and-false false = refl

-- Block b of the file, read into a buffer.
abbrev pub block_in : FileHeader → Disk → Bytes → ℕ → ℕ → Bytes
block_in h d buf at b =
    bcopy (contents h d) (b * sector_size) buf at (transferred h sector_size (b * sector_size))

block_in_lem :
    (h : FileHeader) (d : Disk) (buf : Bytes) (at b i j : ℕ)
    → b * sector_size ≤ j
    → j < (b + 1) * sector_size
    → j < h.num_bytes
    → h.num_bytes ≤ num_direct * sector_size
    → i ≡ at + (j - b * sector_size)
    → block_in h d buf at b i ≡ contents h d j
unfolding transferred file_length
block_in_lem h d buf at b i j p q r f e =
    let n = transferred h sector_size (b * sector_size) in
    let whole : ltb (add32 (b * sector_size) sector_size) sign_bit ≡ true = ground arith in
    let long : j - b * sector_size < n = ground arith in
    let back : b * sector_size + (i - at) ≡ j = omega arith in
    let test : (leb at i && ltb i (at + n)) ≡ true = ground arith in
    rw test (ap (contents h d) back)

block_in_before :
    (h : FileHeader) (d : Disk) (buf : Bytes) (at b i : ℕ)
    → i < at
    → block_in h d buf at b i ≡ buf i
block_in_before h d buf at b i l = ground arith

-- The buffer after the reads of the first and of the last block.
abbrev pub buffered : FileHeader → Disk → Bytes → Bool → Bool → ℕ → ℕ → Bytes
buffered h d made t1 t2 first last =
    let buf : Bytes = if t1 then block_in h d made 0 first else made in
    if t2 then block_in h d buf ((last - first) * sector_size) last else buf

-- It holds the bytes of the file before and after those to be written.
module _ (h : FileHeader) (d : Disk) (made : Bytes) (first last : ℕ) (t1 t2 : Bool) (j : ℕ)
    (low : first * sector_size ≤ j) (short : j < h.num_bytes)
    (fits : h.num_bytes ≤ num_direct * sector_size) where
  front_lem :
      t1 ≡ true
      → j < (first + 1) * sector_size
      → (t2 ≡ false) ⊎ (first < last)
      → buffered h d made t1 t2 first last (j - first * sector_size) ≡ contents h d j
  front_lem e l k =
      let one =
        block_in_lem h d made 0 first (j - first * sector_size) j low l short fits (omega arith) in
      elim k [
        | inl f ↦ rw (e, f) one
        | inr f ↦ elim (Bool-cases t2) [
          | inl g ↦
              let far : j - first * sector_size < (last - first) * sector_size = omega arith in
              rw (e, g)
                (block_in_before h d (block_in h d made 0 first) ((last - first) * sector_size) last
                    (j - first * sector_size) far
                  ∙ one)
          | inr g ↦ rw (e, g) one
        ]
      ]

  back_lem :
      first ≤ last
      → last * sector_size ≤ j
      → j < (last + 1) * sector_size
      → (t2 ≡ true) ⊎ ((t1 ≡ true) × (t2 ≡ false) × (first ≡ last))
      → buffered h d made t1 t2 first last (j - first * sector_size) ≡ contents h d j
  back_lem o p q (inl e) = rw e (
      block_in_lem h d (if t1 then block_in h d made 0 first else made)
        ((last - first) * sector_size) last (j - first * sector_size) j p q short fits
        (omega arith))
  back_lem o p q (inr e) = front_lem e.0 (omega (arith, e.2)) (inl e.1)

-- The tests of WriteAt read the last block, or it is the first one, which is read.
tests_after :
    (end position first last : ℕ)
    → (end == (last + 1) * sector_size) ≡ false
    → let t2 =
        not (end == (last + 1) * sector_size)
        && (not (first == last) || position == first * sector_size) in
      (t2 ≡ true) ⊎ ((not (position == first * sector_size) ≡ true) × (t2 ≡ false) × (first ≡ last))
tests_after end position first last e = elim (Bool-cases (first == last)) [
  | inl f ↦ elim (Bool-cases (position == first * sector_size)) [
    | inl g ↦ inl (rw (e, f, g) refl)
    | inr g ↦ inr (rw g refl, rw (e, f, g) refl, ground arith)
  ]
  | inr f ↦ inl (rw (e, f) refl)
]

tests_before :
    (position first last : ℕ) (t : Bool)
    → first ≤ last
    → (position == first * sector_size) ≡ false
    → ((t && (not (first == last) || position == first * sector_size)) ≡ false) ⊎ (first < last)
tests_before position first last t l e = elim (Bool-cases (first == last)) [
  | inl f ↦ inl (rw (f, e) (and-false t))
  | inr f ↦ inr (ground arith)
]

-- The buffer that is written holds the file's bytes with those from `from` in their place.
pub buffer_lem :
    (h : FileHeader) (d : Disk) (made from : Bytes) (position m j first last : ℕ)
    → first ≡ position / sector_size
    → last ≡ (position + suc m - 1) / sector_size
    → first * sector_size ≤ j
    → j < (last + 1) * sector_size
    → j < h.num_bytes
    → h.num_bytes ≤ num_direct * sector_size
    → bcopy from 0
        (buffered h d made
          (not (position == first * sector_size))
          (not (position + suc m == (last + 1) * sector_size)
            && (not (first == last) || position == first * sector_size))
          first
          last)
        (position - first * sector_size)
        (suc m)
        (j - first * sector_size)
      ≡ bcopy from 0 (contents h d) position (suc m) j
buffer_lem h d made from position m j first last ef el p q r fits =
    let t1 = not (position == first * sector_size) in
    let t2 =
      not (position + suc m == (last + 1) * sector_size)
      && (not (first == last) || position == first * sector_size) in
    elim (Bool-cases (leb position j)) [
      | inl a ↦ elim (Bool-cases (ltb j (position + suc m))) [
        | inl b ↦
            let place : 0 + (j - first * sector_size - (position - first * sector_size))
                ≡ 0 + (j - position) =
              ground arith in
            let test : (leb (position - first * sector_size) (j - first * sector_size)
                  && ltb (j - first * sector_size) (position - first * sector_size + suc m))
                ≡ true =
              ground arith in
            rw (a, b, test) (ap from place)
        | inr b ↦
            let test : (leb (position - first * sector_size) (j - first * sector_size)
                  && ltb (j - first * sector_size) (position - first * sector_size + suc m))
                ≡ false =
              ground arith in
            let past : position + suc m ≤ j = ground arith in
            let odd : (position + suc m == (last + 1) * sector_size) ≡ false = ground arith in
            rw (a, b, test)
              (back_lem h d made first last t1 t2 j p r fits (omega arith) (omega arith) q
                (tests_after (position + suc m) position first last odd))
      ]
      | inr a ↦
          let before : j < position = ground arith in
          let test : leb (position - first * sector_size) (j - first * sector_size) ≡ false =
            ground arith in
          let one : t1 ≡ true = ground arith in
          let odd : (position == first * sector_size) ≡ false = ground arith in
          rw (a, test)
            (front_lem h d made first last t1 t2 j p r fits one (omega arith)
              (tests_before position first last _ (omega arith) odd))
    ]
