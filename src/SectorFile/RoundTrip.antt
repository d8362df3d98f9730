-- ===== src/SectorFile/RoundTrip.antt =====
-- NachOS-4.0/code/filesys/openfile.cc on a header that NachOS-4.0/code/filesys/filehdr.cc allocated: what `Write` puts
-- into a file `Read` gets back.
use hcmus_csc10007_operating.Common.{
  ℕ, ◌+◌, ◌*◌, ◌/◌, ◌≤◌, ◌<◌, ◌≡◌, refl, sym, ap, ◌∙◌, true, some, arith, ◌⊎◌, inl, inr, ltb,
  Bool-cases, ◌-◌, ltb→lt,
}
use mathlib.Core.Path.{fun_ext, subst}
use hcmus_csc10007_operating.Bitmap.{Bitmap}
use hcmus_csc10007_operating.Bitmap.Bits.{IsValid}
use hcmus_csc10007_operating.Common.Word.{sign_bit}
use hcmus_csc10007_operating.FileHeader.{
  FileHeader, ok, allocate, sector_size, num_direct, byte_to_sector,
}
use hcmus_csc10007_operating.FileHeader.Sectors.{Allocates, allocated, allocate-Allocates}
use hcmus_csc10007_operating.FileHeader.Release.{Allocates-Owns, allocate-byte_to_sector}
use hcmus_csc10007_operating.SectorFile.{
  num_sectors, Bytes, Disk, bcopy, OpenFile, seek, transferred, read, write,
}
use hcmus_csc10007_operating.SectorFile.Reading.{
  Mapped, contents, read_at-contents, transferred_cases, bcopy_inside,
}
use hcmus_csc10007_operating.SectorFile.Writing.{Wrote, write_at-Wrote}

Allocates-num_bytes :
    (size : ℕ) (h : FileHeader) (before b : Bitmap)
    → Allocates size before (ok true h b)
    → h.num_bytes ≡ size
Allocates-num_bytes size h before b (allocated _ _ c n1 n2 o) = n1

Allocates-block :
    (size : ℕ) (h : FileHeader) (before b : Bitmap) (i : ℕ)
    → Allocates size before (ok true h b)
    → i < size
    → i / sector_size < h.num_sectors
Allocates-block size h before b i (allocated _ _ c n1 n2 o) l = ground arith

-- The blocks of a file that `Allocate` made, out of the map of the disk's sectors.
pub allocate-Mapped :
    (size : ℕ) (h h' : FileHeader) (b b' : Bitmap)
    → IsValid b
    → b.num_bits ≡ num_sectors
    → size ≤ num_direct * sector_size
    → allocate size h b ≡ ok true h' b'
    → Mapped h' × (h'.num_bytes ≡ size)
unfolding byte_to_sector
allocate-Mapped size h h' b b' v w l e =
    let a : Allocates size b (ok true h' b') =
      subst (Allocates size b) e (allocate-Allocates size h b v l) in
    let o = Allocates-Owns size h' b b' a in
    let n = Allocates-num_bytes size h' b b' a in
    (
      record {
        fits = omega (arith, n);
        on_disk = λ i p. omega (
          arith,
          w,
          o.in_range (i / sector_size) (omega arith)
              (Allocates-block size h' b b' i a (omega (arith, n))),
        );
        apart = λ i j p q s.
            (allocate-byte_to_sector size h h' b b' i j v l e (omega (arith, n))
                (omega (arith, n))).1.0
              s;
      },
      n,
    )

transferred_short :
    (h : FileHeader) (num position : ℕ)
    → position + num < sign_bit
    → position + transferred h num position < sign_bit
unfolding transferred
transferred_short h num position l = ground arith

transferred_again :
    (h : FileHeader) (num position : ℕ)
    → position + num < sign_bit
    → transferred h (transferred h num position) position ≡ transferred h num position
unfolding transferred
transferred_again h num position l = ground arith

written_lem :
    (h : FileHeader) (from into : Bytes) (position n : ℕ) (d d' : Disk)
    → position + n ≤ h.num_bytes ⊎ (n ≡ 0)
    → Wrote h from position n d d'
    → bcopy (contents h d') position into 0 n ≡ bcopy from 0 into 0 n
written_lem h from into position n d d' l w = fun_ext λ j. elim (Bool-cases (ltb j n)) [
  | inl e ↦
      let k : j < n = ltb→lt j n e in
      let p : position + (j - 0) < h.num_bytes = elim l [
        | inl a ↦ omega arith
        | inr a ↦ absurd (omega arith)
      ] in
      bcopy_inside (contents h d') position into 0 n j (omega arith) (omega arith)
      ∙ w.written (position + (j - 0)) p
      ∙ bcopy_inside from 0 (contents h d) position n (position + (j - 0)) (omega arith)
          (omega arith)
      ∙ ap from (omega arith)
      ∙ sym (bcopy_inside from 0 into 0 n j (omega arith) (omega arith))
  | inr e ↦ ground arith
]

-- After an Allocate of at most MaxFileSize bytes that returned TRUE, out of a valid map of the disk's
-- sectors, and with position + num below 2 ^ 31: Write of the new file, Seek back and Read of as many bytes as Write has counted pass the
-- disk's ASSERTs, Read counts the same bytes and puts into its buffer those that were written, and
-- the rest of the buffer stays, and the position is that after Write.
pub write-read :
    (size : ℕ) (h : FileHeader) (b b' : Bitmap) (f : OpenFile) (d : Disk)
    (made from made' into : Bytes) (num : ℕ)
    → IsValid b
    → b.num_bits ≡ num_sectors
    → size ≤ num_direct * sector_size
    → allocate size h b ≡ ok true f.hdr b'
    → f.seek_position + num < sign_bit
    → (d' : Disk) × (f' : OpenFile) × (write f d made from num
        ≡ some (transferred f.hdr num f.seek_position, d', f'))
      × (read (seek f.seek_position f') d' made' into (transferred f.hdr num f.seek_position)
          ≡ some (
            transferred f.hdr num f.seek_position,
            bcopy from 0 into 0 (transferred f.hdr num f.seek_position),
            f',
          ))
unfolding read write seek
write-read size h b b' f d made from made' into num v w l e short =
    let m = (allocate-Mapped size h f.hdr b b' v w l e).0 in
    let n = transferred f.hdr num f.seek_position in
    let again = transferred_short f.hdr num f.seek_position short in
    let r = write_at-Wrote f.hdr d made from num f.seek_position m short in
    let same =
      written_lem f.hdr from into f.seek_position n d r.0
        (transferred_cases f.hdr num f.seek_position short) r.2 in
    (
      r.0,
      record f { seek_position = f.seek_position + n },
      rw r.1 refl,
      rw
          (
            read_at-contents f.hdr r.0 made' into 0 n f.seek_position m again,
            transferred_again f.hdr num f.seek_position short,
            same,
          )
          refl,
    )
