-- ===== src/OpenFiles.antt =====
-- NachOS-4.0/code/lib/sysdep.cc and filesys/openfile.h, filesys.h as the build makes them (FILESYS_STUB): open
-- files on the host's.
--
-- The host's calls are parameters, and the state of the host is any type. `none` is a failed
-- ASSERT.
pub mod Table
pub mod Opening
pub mod Transfer
pub mod RoundTrip
use hcmus_csc10007_operating.Common.{
  ℕ, ◌==◌, Bool, true, false, Option, none, some, List, ◌++◌, if◌then◌else◌, ◌>>=◌,
}
use hcmus_csc10007_operating.Common.Int.{ℤ, pos, negsuc, ◌+ℤ◌}

pub data Whence : Type 0 where
  seek_set seek_cur seek_end : Whence

-- The calls of the host: each returns -1 where it fails; `read` returns the bytes too.
pub record Host (W : Type 0) : Type 0 where
  pub open_create : List ℕ → W → ℤ × W
  pub open_existing : List ℕ → W → ℤ × W
  pub lseek : ℕ → ℤ → Whence → W → ℤ × W
  pub read : ℕ → ℤ → W → ℤ × (List ℕ × W)
  pub write : ℕ → List ℕ → W → ℤ × W
  pub close : ℕ → W → ℤ × W

-- The name is the characters up to the first NUL after `filename`.
pub record OpenFile : Type 0 where
  pub file : ℕ
  pub current_offset : ℤ
  pub type : ℤ
  pub filename : List ℕ

-- OpenFile::OpenFile, where `tail` is what the heap holds after the copied characters: the
-- constructor does not write their NUL.
unfoldable pub new_open_file : ℕ → ℤ → List ℕ → List ℕ → OpenFile
new_open_file fd type name tail = record {
  file = fd;
  current_offset = pos 0;
  type = type;
  filename = name ++ tail;
}

-- The ASSERT of a wrapper that the call has not failed.
abbrev pub succeeded : ℤ → Option ℕ
succeeded (pos n) = some n
succeeded (negsuc n) = none

module _ {W : Type 0} (host : Host W) where
  unfoldable pub open_for_write : List ℕ → W → Option (ℕ × W)
  open_for_write name w =
      let (fd, w1) = host.open_create name w in
      elim (succeeded fd) [ none ↦ none | some n ↦ some (n, w1) ]

  -- OpenForReadWrite with `crashOnError` false
  unfoldable pub open_for_read_write : List ℕ → W → ℤ × W
  open_for_read_write name w = host.open_existing name w

  unfoldable pub close_file : ℕ → W → Option W
  close_file fd w =
      let (r, w1) = host.close fd w in elim (succeeded r) [ none ↦ none | some _ ↦ some w1 ]

  -- Lseek
  unfoldable pub seek_file : ℕ → ℤ → Whence → W → Option W
  seek_file fd offset whence w =
      let (r, w1) = host.lseek fd offset whence w in
      elim (succeeded r) [ none ↦ none | some _ ↦ some w1 ]

  -- Tell
  unfoldable pub tell : ℕ → W → ℤ × W
  tell fd w = host.lseek fd (pos 0) seek_cur w

  -- ReadPartial
  unfoldable pub read_partial : ℕ → ℤ → W → ℤ × (List ℕ × W)
  read_partial fd n w = host.read fd n w

  -- WriteFile: the host is to write all the bytes.
  unfoldable pub write_file : ℕ → List ℕ → ℕ → W → Option W
  write_file fd bytes n w =
      let (r, w1) = host.write fd bytes w in
      elim (succeeded r) [ none ↦ none | some m ↦ if m == n then some w1 else none ]

  -- FileSystem::Open: NULL is `none` inside.
  unfoldable pub fs_open : List ℕ → ℤ → List ℕ → W → Option OpenFile × W
  fs_open name type tail w =
      let (fd, w1) = open_for_read_write name w in
      elim fd [ pos n ↦ (some (new_open_file n type name tail), w1) | negsuc _ ↦ (none, w1) ]

  -- FileSystem::Create
  unfoldable pub fs_create : List ℕ → W → Option (Bool × W)
  fs_create name w = do (fd, w1) ← open_for_write name w; w2 ← close_file fd w1; some (true, w2)

  -- OpenFile::Seek
  unfoldable pub file_seek : OpenFile → ℤ → W → Option (OpenFile × W)
  file_seek f position w = do
    w1 ← seek_file f.file position seek_set w
    let (p, w2) = tell f.file w1 in some (record f { current_offset = p }, w2)

  -- OpenFile::ReadAt
  unfoldable pub read_at : OpenFile → ℤ → ℤ → W → Option (ℤ × (List ℕ × W))
  read_at f num_bytes position w = do
    w1 ← seek_file f.file position seek_set w
    some (read_partial f.file num_bytes w1)

  -- OpenFile::WriteAt
  unfoldable pub write_at : OpenFile → List ℕ → ℕ → ℤ → W → Option W
  write_at f bytes num_bytes position w = do
    w1 ← seek_file f.file position seek_set w
    write_file f.file bytes num_bytes w1

  -- OpenFile::Read
  unfoldable pub file_read : OpenFile → ℤ → W → Option (ℤ × (List ℕ × (OpenFile × W)))
  file_read f num_bytes w = do
    (num_read, (bytes, w1)) ← read_at f num_bytes f.current_offset w
    some (num_read, (bytes, (record f { current_offset = f.current_offset +ℤ num_read }, w1)))

  -- OpenFile::Write
  unfoldable pub file_write : OpenFile → List ℕ → ℕ → W → Option (ℤ × (OpenFile × W))
  file_write f bytes num_bytes w = do
    w1 ← write_at f bytes num_bytes f.current_offset w
    some (pos num_bytes, (record f { current_offset = f.current_offset +ℤ pos num_bytes }, w1))

  -- OpenFile::GetCurrentPos
  unfoldable pub get_current_pos : OpenFile → W → ℤ × (OpenFile × W)
  get_current_pos f w = let (p, w1) = tell f.file w in (p, (record f { current_offset = p }, w1))

  -- OpenFile::Length
  unfoldable pub file_length : OpenFile → W → Option (ℤ × W)
  file_length f w = do
    w1 ← seek_file f.file (pos 0) seek_end w
    let (len, w2) = tell f.file w1 in
        do w3 ← seek_file f.file f.current_offset seek_set w2; some (len, w3)
