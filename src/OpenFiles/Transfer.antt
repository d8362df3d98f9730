-- ===== src/OpenFiles/Transfer.antt =====
-- NachOS-4.0/code/threads/pcb.cc: `Write`, `Seek` and `Read` on an open file, each over what the host's
-- calls are documented to do.
use hcmus_csc10007_operating.Common.{
  ℕ, ◌+◌, ◌<◌, ◌≤◌, ◌≡◌, refl, ◌∙◌, some, List, ◌++◌, ◌==◌, if◌then◌else◌, arith, length, take,
  drop, Bool-cases, inl, inr,
}
use hcmus_csc10007_operating.Common.Int.{pos, negsuc, ◌+ℤ◌, ◌-ℤ◌}
use hcmus_csc10007_operating.OpenFiles.{
  seek_set, seek_cur, seek_end, Host, OpenFile, seek_file, tell, read_partial, write_file,
  file_seek, read_at, write_at, file_read, file_write, get_current_pos, file_length,
}
use hcmus_csc10007_operating.OpenFiles.Table.{read_open, write_open, seek_open, seek_target}

-- The bytes of a file after a write at a place in it.
abbrev pub overwrite : List ℕ → ℕ → List ℕ → List ℕ
overwrite content place bytes = take place content ++ (bytes ++ drop (place + length bytes) content)

-- What lseek(2), read(2) and write(2) do on a descriptor of a regular file that is open for both:
-- the descriptor has an offset, `read` stops at the end of the file, `write` writes all.
pub record Regular {W : Type 0} (host : Host W) (fd : ℕ) (content : W → List ℕ) (place : W → ℕ)
    : Type 0 where
  pub at_set :
      (n : ℕ) (w : W)
      → (w' : W) × (host.lseek fd (pos n) seek_set w ≡ (pos n, w'))
        × (content w' ≡ content w)
        × (place w' ≡ n)
  pub at_cur : (w : W) → host.lseek fd (pos 0) seek_cur w ≡ (pos (place w), w)
  pub at_end :
      (w : W)
      → (w' : W) × (host.lseek fd (pos 0) seek_end w ≡ (pos (length (content w)), w'))
        × (content w' ≡ content w)
        × (place w' ≡ length (content w))
  pub reads :
      (n : ℕ) (w : W)
      → (w' : W) × (host.read fd (pos n) w ≡ (
        pos (length (take n (drop (place w) (content w)))),
        (take n (drop (place w) (content w)), w'),
      ))
        × (content w' ≡ content w)
        × (place w' ≡ place w + length (take n (drop (place w) (content w))))
  pub writes :
      (bytes : List ℕ) (w : W)
      → place w ≤ length (content w)
      → (w' : W) × (host.write fd bytes w ≡ (pos (length bytes), w'))
        × (content w' ≡ overwrite (content w) (place w) bytes)
        × (place w' ≡ place w + length bytes)

module _ {W : Type 0} (host : Host W) (f : OpenFile) (content : W → List ℕ) (place : W → ℕ)
    (r : Regular host f.file content place) where
  tell_lem : (w : W) → tell host f.file w ≡ (pos (place w), w)
  unfolding tell
  tell_lem w = r.at_cur w

  seek_file_lem :
      (n : ℕ) (w : W)
      → (w' : W) × (seek_file host f.file (pos n) seek_set w ≡ some w')
        × (content w' ≡ content w)
        × (place w' ≡ n)
  unfolding seek_file
  seek_file_lem n w = let (w', e, c, p) = r.at_set n w in (w', ground arith, c, p)

  -- `Length` is the number of bytes and goes back to the offset that the kernel keeps.
  file_length_lem :
      (k : ℕ) (w : W)
      → f.current_offset ≡ pos k
      → (w' : W) × (file_length host f w ≡ some (pos (length (content w)), w'))
        × (content w' ≡ content w)
        × (place w' ≡ k)
  unfolding file_length seek_file
  file_length_lem k w o =
      let (w1, e1, c1, p1) = r.at_end w in
      let s1 : seek_file host f.file (pos 0) seek_end w ≡ some w1 = seek_end_lem w w1 e1 in
      let t = tell_lem w1 in
      let (w2, e2, c2, p2) = seek_file_lem k w1 in
      let q : file_length host f w ≡ some (pos (length (content w)), w2) = ground arith in
      (w2, q, c2 ∙ c1, p2)
    where
      seek_end_lem :
          (w w1 : W)
          → host.lseek f.file (pos 0) seek_end w ≡ (pos (length (content w)), w1)
          → seek_file host f.file (pos 0) seek_end w ≡ some w1
      seek_end_lem w w1 e = ground arith

  -- `Seek` to a place inside the file goes there.
  pub seek_open-inside :
      (k n : ℕ) (w : W)
      → f.current_offset ≡ pos k
      → n ≤ length (content w)
      → (w' : W) × (seek_open host f (pos n) w
          ≡ some (some (pos n), (record f { current_offset = pos n }, w')))
        × (content w' ≡ content w)
        × (place w' ≡ n)
  unfolding seek_open seek_target file_seek
  seek_open-inside k n w o l =
      let (w1, e1, c1, p1) = file_length_lem k w o in
      let (w2, e2, c2, p2) = seek_file_lem n w1 in
      let t = tell_lem w2 in
      let q : seek_open host f (pos n) w
          ≡ some (some (pos n), (record f { current_offset = pos n }, w2)) =
        ground arith in
      (w2, q, c2 ∙ c1, p2)

  -- A write puts the bytes at the place of the host's offset.
  pub write_open_lem :
      (bytes : List ℕ) (w : W)
      → place w ≤ length (content w)
      → 0 < length bytes
      → (w' : W) × (write_open host f bytes (length bytes) w
          ≡ some (
            pos (length bytes),
            (record f { current_offset = pos (place w + length bytes) }, w'),
          ))
        × (content w' ≡ overwrite (content w) (place w) bytes)
        × (place w' ≡ place w + length bytes)
  unfolding write_open get_current_pos file_write write_at ◌+ℤ◌ ◌-ℤ◌ write_file
  write_open_lem bytes w l b =
      let t = tell_lem w in
      let (w1, e1, c1, p1) = seek_file_lem (place w) w in
      let (w2, e2, c2, p2) = r.writes bytes w1 (ground arith) in
      let t2 = tell_lem w2 in
      let q : write_open host f bytes (length bytes) w
          ≡ some (
            pos (length bytes),
            (record f { current_offset = pos (place w + length bytes) }, w2),
          ) =
        ground arith in
      (w2, q, c2 ∙ (rw (c1, p1) refl), ground arith)

  -- A read returns the bytes from there, or -2 where there are none.
  pub read_open_lem :
      (n : ℕ) (w : W)
      → (w' : W) × (read_open host f n w
          ≡ some (
            (if length (take n (drop (place w) (content w))) == 0
                then negsuc 1
                else pos (length (take n (drop (place w) (content w))))),
            (
              take n (drop (place w) (content w)),
              (
                record f {
                  current_offset = pos (place w + length (take n (drop (place w) (content w))));
                },
                w',
              ),
            ),
          ))
        × (content w' ≡ content w)
        × (place w' ≡ place w + length (take n (drop (place w) (content w))))
  unfolding read_open get_current_pos file_read read_at ◌+ℤ◌ ◌-ℤ◌ read_partial
  read_open_lem n w =
      let t = tell_lem w in
      let (w1, e1, c1, p1) = seek_file_lem (place w) w in
      let (w2, e2, c2, p2) = r.reads n w1 in
      let t2 = tell_lem w2 in
      let same : take n (drop (place w1) (content w1)) ≡ take n (drop (place w) (content w)) =
        rw (c1, p1) refl in
      after (take n (drop (place w) (content w))) w1 w2 t e1 (e2 ∙ (rw same refl)) (c2 ∙ c1)
        (p2 ∙ (rw (same, p1) refl)) t2
    where
      after :
          (bs : List ℕ) (w1 w2 : W)
          → tell host f.file w ≡ (pos (place w), w)
          → seek_file host f.file (pos (place w)) seek_set w ≡ some w1
          → host.read f.file (pos n) w1 ≡ (pos (length bs), (bs, w2))
          → content w2 ≡ content w
          → place w2 ≡ place w + length bs
          → tell host f.file w2 ≡ (pos (place w2), w2)
          → (w' : W) × (read_open host f n w
              ≡ some (
                (if length bs == 0 then negsuc 1 else pos (length bs)),
                (bs, (record f { current_offset = pos (place w + length bs) }, w')),
              ))
            × (content w' ≡ content w)
            × (place w' ≡ place w + length bs)
      after bs w1 w2 t e1 e2 c p t2 = elim (Bool-cases (length bs == 0)) [
        | inl z ↦
            let q : read_open host f n w
                ≡ some (
                  negsuc 1,
                  (bs, (record f { current_offset = pos (place w + length bs) }, w2)),
                ) =
              ground arith in
            (w2, rw z q, c, p)
        | inr z ↦
            let q : read_open host f n w
                ≡ some (
                  pos (length bs),
                  (bs, (record f { current_offset = pos (place w + length bs) }, w2)),
                ) =
              ground arith in
            (w2, rw z q, c, p)
      ]
