-- ===== src/OpenFiles/RoundTrip.antt =====
-- NachOS-4.0/code/threads/pcb.cc: a read of the bytes that were written to an open file.
use hcmus_csc10007_operating.Common.{
  ℕ, zero, suc, ◌+◌, ◌<◌, ◌≤◌, ◌≡◌, refl, ap, ◌∙◌, false, some, List, [], ◌∷◌, ◌++◌, ◌==◌, arith,
  length, length-take, length-append, take, drop,
}
use hcmus_csc10007_operating.Common.Int.{pos}
use hcmus_csc10007_operating.OpenFiles.{Host, OpenFile}
use hcmus_csc10007_operating.OpenFiles.Table.{read_open, write_open, seek_open}
use hcmus_csc10007_operating.OpenFiles.Transfer.{
  overwrite, Regular, seek_open-inside, write_open_lem, read_open_lem,
}

drop-append : (xs ys : List ℕ) (n : ℕ) → length xs ≡ n → drop n (xs ++ ys) ≡ ys
drop-append [] ys n h = let e : n ≡ 0 = ground arith in rw e refl
drop-append (x ∷ xs) ys zero h = absurd (omega arith)
drop-append (x ∷ xs) ys (suc n) h = drop-append xs ys n (omega arith)

take-append : (xs ys : List ℕ) → take (length xs) (xs ++ ys) ≡ xs
take-append [] ys = refl
take-append (x ∷ xs) ys = ap (λ (zs : List ℕ). x ∷ zs) (take-append xs ys)

-- The bytes just written stand where they were written.
overwrite_there :
    (content : List ℕ) (n : ℕ) (bytes : List ℕ)
    → n ≤ length content
    → take (length bytes) (drop n (overwrite content n bytes)) ≡ bytes
overwrite_there content n bytes l =
    let p : length (take n content) ≡ n = ground (arith, length-take n content) in
    ap (take (length bytes))
      (drop-append (take n content) (bytes ++ drop (n + length bytes) content) n p)
    ∙ take-append bytes (drop (n + length bytes) content)

overwrite_long :
    (content : List ℕ) (n : ℕ) (bytes : List ℕ)
    → n ≤ length content
    → n ≤ length (overwrite content n bytes)
overwrite_long content n bytes l =
    let p = length-take n content in
    let q = length-append (take n content) (bytes ++ drop (n + length bytes) content) in
    ground arith

-- Some bytes written to an open file at the host's offset, within the file or at its end, then
-- `Seek` to that offset, then a read of as many bytes: `Write` and `Read` return their number,
-- `Seek` the offset, and the bytes read are those written. The host does what it is documented to
-- do.
pub write-seek-read :
    {W : Type 0} (host : Host W) (f : OpenFile) (content : W → List ℕ) (place : W → ℕ)
    (bytes : List ℕ) (w : W)
    → Regular host f.file content place
    → place w ≤ length (content w)
    → 0 < length bytes
    → (f1 : OpenFile) × (f2 : OpenFile) × (f3 : OpenFile) × (w1 : W) × (w2 : W) × (w3 : W)
      × (write_open host f bytes (length bytes) w ≡ some (pos (length bytes), (f1, w1)))
      × (seek_open host f1 (pos (place w)) w1 ≡ some (some (pos (place w)), (f2, w2)))
      × (read_open host f2 (length bytes) w2 ≡ some (pos (length bytes), (bytes, (f3, w3))))
write-seek-read host f content place bytes w r l b =
    let (w1, e1, c1, p1) = write_open_lem host f content place r bytes w l b in
    let f1 : OpenFile = record f { current_offset = pos (place w + length bytes) } in
    let m : place w ≤ length (content w1) = rw c1 (overwrite_long (content w) (place w) bytes l) in
    let (w2, e2, c2, p2) =
      seek_open-inside host f1 content place r (place w + length bytes) (place w) w1 refl m in
    let f2 : OpenFile = record f { current_offset = pos (place w) } in
    let (w3, e3, c3, p3) = read_open_lem host f2 content place r (length bytes) w2 in
    let same : take (length bytes) (drop (place w2) (content w2)) ≡ bytes =
      rw (p2, c2, c1) (overwrite_there (content w) (place w) bytes l) in
    let z : (length bytes == 0) ≡ false = ground arith in
    let f3 : OpenFile = record f { current_offset = pos (place w2 + length bytes) } in
    let q : read_open host f2 (length bytes) w2 ≡ some (pos (length bytes), (bytes, (f3, w3))) =
      e3 ∙ (rw (same, z) refl) in
    (f1, f2, f3, w1, w2, w3, e1, e2, q)
