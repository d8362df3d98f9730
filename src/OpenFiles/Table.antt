-- ===== src/OpenFiles/Table.antt =====
-- NachOS-4.0/code/threads/pcb.cc: the ten open files of a process, and the system calls on them.
--
-- The console's input is the characters that `GetChar` is to return, its output the characters that
-- `PutChar` was given. `none` is a failed ASSERT or the wait for a character that does not come.
use hcmus_csc10007_operating.Common.{
  ℕ, zero, suc, ◌+◌, ◌==◌, Bool, true, false, ◌||◌, Option, none, some, List, [], ◌∷◌, ◌++◌,
  if◌then◌else◌, assign_at, ◌>>=◌, ltb, leb,
}
use hcmus_csc10007_operating.Common.Int.{ℤ, pos, negsuc, ◌-ℤ◌, ltb_ℤ}
use hcmus_csc10007_operating.Common.Search.{first}
use hcmus_csc10007_operating.SemTable.{strcmp_eq}
use hcmus_csc10007_operating.OpenFiles.{
  Host, OpenFile, fs_open, close_file, file_seek, file_read, file_write, get_current_pos,
  file_length,
}

pub record Io (W : Type 0) : Type 0 where
  pub host_state : W
  pub input : List ℕ
  pub output : List ℕ

abbrev pub FileTable : Type 0
FileTable = ℕ → Option OpenFile

abbrev pub is_null : Option OpenFile → Bool
is_null none = true
is_null (some _) = false

abbrev pub opened_as : List ℕ → Option OpenFile → Bool
opened_as name none = false
opened_as name (some f) = strcmp_eq f.filename name

-- PCB::FindFreeSlot
unfoldable pub find_free_slot : FileTable → Option ℕ
find_free_slot table = first (λ i. is_null (table i)) 8 2

-- The character that `GetChar` returns at the end of the input, as a `char`.
abbrev pub eof : ℕ
eof = 255

abbrev pub new_line : ℕ
new_line = 10

-- The second loop of `readString` and its end, with the input that is left.
unfoldable pub read_string_from : List ℕ → ℕ → ℕ → (ℕ → ℕ) → Option (ℕ × ((ℕ → ℕ) × List ℕ))
read_string_from [] idx length buffer =
    if leb length idx then some (idx, (assign_at buffer (idx + 1) 0, [])) else none
read_string_from (c ∷ cs) idx length buffer =
    let skipped = read_string_from cs idx length buffer in
    let stored = read_string_from cs (suc idx) length (assign_at buffer idx c) in
    if leb length idx
    then some (idx, (assign_at buffer (idx + 1) 0, c ∷ cs))
    else if c == eof
    then skipped
    else if c == new_line
    then some (idx, (assign_at buffer (idx + 1) 0, cs))
    else stored

-- The first loop of `readString` zeroes `length` places.
unfoldable pub read_string : (ℕ → ℕ) → ℕ → List ℕ → Option (ℕ × ((ℕ → ℕ) × List ℕ))
read_string buffer length input =
    read_string_from input 0 length (λ i. if ltb i length then 0 else buffer i)

-- The loop of `Write` on the console from place `i`, with `k` places left of `size`: what it puts
-- out and how many.
unfoldable pub put_chars : ℕ → ℕ → (ℕ → ℕ) → ℕ × List ℕ
put_chars zero i buffer = (i, [])
put_chars (suc k) i buffer =
    let (n, cs) = put_chars k (suc i) buffer in
    if buffer i == 0 || buffer i == new_line then (i, []) else (n, buffer i ∷ cs)

-- The bytes of a buffer from place `i`.
unfoldable pub bytes_of : ℕ → ℕ → (ℕ → ℕ) → List ℕ
bytes_of zero i buffer = []
bytes_of (suc k) i buffer = buffer i ∷ bytes_of k (suc i) buffer

-- The bytes that the host reads go to the buffer.
unfoldable pub fill : List ℕ → ℕ → (ℕ → ℕ) → ℕ → ℕ
fill [] i buffer = buffer
fill (c ∷ cs) i buffer = fill cs (suc i) (assign_at buffer i c)

-- An id out of [0, 9], or a slot that is NULL, is `none`.
unfoldable pub slot_of : ℤ → FileTable → Option (ℕ × OpenFile)
slot_of (negsuc _) table = none
slot_of (pos n) table =
    if ltb 9 n then none else elim (table n) [ none ↦ none | some f ↦ some (n, f) ]

abbrev pub is_id : ℤ → ℕ → Bool
is_id (pos n) m = n == m
is_id (negsuc _) m = false

abbrev pub minus_one : ℤ → Bool
minus_one (pos n) = false
minus_one (negsuc n) = n == 0

module _ {W : Type 0} (host : Host W) where
  -- The last part of PCB::Open, for a free slot
  unfoldable pub open_in : ℕ → List ℕ → ℤ → List ℕ → FileTable → W → ℤ × (FileTable × W)
  open_in slot name type tail table w =
      let (f, w1) = fs_open host name type tail w in
      if is_id type 0 || is_id type 1
      then (elim f [
        | none ↦ (negsuc 0, (assign_at table slot none, w1))
        | some g ↦ (pos slot, (assign_at table slot (some g), w1))
      ])
      else if is_id type 2
      then (pos 0, (table, w))
      else (pos 1, (table, w))

  -- PCB::Open, where `tail` is as for the constructor of `OpenFile`
  unfoldable pub pcb_open : List ℕ → ℤ → List ℕ → FileTable → W → ℤ × (FileTable × W)
  pcb_open name type tail table w = elim (first (λ i. opened_as name (table i)) 10 0) [
    | some _ ↦ (negsuc 0, (table, w))
    | none ↦ elim (find_free_slot table) [
      | none ↦ (negsuc 0, (table, w))
      | some slot ↦ open_in slot name type tail table w
    ]
  ]

  -- PCB::Close
  unfoldable pub pcb_close : ℤ → FileTable → W → Option (ℤ × (FileTable × W))
  pcb_close id table w = elim (slot_of id table) [
    | none ↦ some (negsuc 0, (table, w))
    | some (n, f) ↦ do w1 ← close_file host f.file w; some (pos 0, (assign_at table n none, w1))
  ]

  -- The part of PCB::Read for a file: what it returns, the bytes read and the file.
  unfoldable pub read_open : OpenFile → ℕ → W → Option (ℤ × (List ℕ × (OpenFile × W)))
  read_open f size w =
      let (old_pos, (f1, w1)) = get_current_pos host f w in
      do
        (num_read, (bytes, (f2, w2))) ← file_read host f1 (pos size) w1
        let (new_pos, (f3, w3)) = get_current_pos host f2 w2 in
            if ltb_ℤ (pos 0) num_read
            then some (new_pos -ℤ old_pos, (bytes, (f3, w3)))
            else some (negsuc 1, (bytes, (f2, w2)))

  -- PCB::Read, with the buffer that it fills
  unfoldable pub pcb_read :
      (ℕ → ℕ) → ℕ → ℤ → FileTable → Io W → Option (ℤ × ((ℕ → ℕ) × (FileTable × Io W)))
  pcb_read buffer size id table io =
      if is_id id 1 then some (negsuc 0, (buffer, (table, io))) else elim (slot_of id table) [
        | none ↦ some (negsuc 0, (buffer, (table, io)))
        | some (n, f) ↦
            if n == 0
            then (let (_, (f1, w1)) = get_current_pos host f io.host_state in
                do
                  (count, (filled, rest)) ← read_string buffer size io.input
                  some (
                    pos count,
                    (
                      filled,
                      (assign_at table n (some f1), record io { host_state = w1; input = rest }),
                    ),
                  ))
            else (do
              (result, (bytes, (f1, w1))) ← read_open f size io.host_state
              some (
                result,
                (fill bytes 0 buffer, (assign_at table n (some f1), record io { host_state = w1 })),
              ))
      ]

  -- The part of PCB::Write for a file
  unfoldable pub write_open : OpenFile → List ℕ → ℕ → W → Option (ℤ × (OpenFile × W))
  write_open f bytes size w =
      let (old_pos, (f1, w1)) = get_current_pos host f w in
      do
        (written, (f2, w2)) ← file_write host f1 bytes size w1
        let (new_pos, (f3, w3)) = get_current_pos host f2 w2 in
            if ltb_ℤ (pos 0) written
            then some (new_pos -ℤ old_pos, (f3, w3))
            else some (negsuc 0, (f2, w2))

  -- PCB::Write, with the buffer, to which the console adds a new line
  unfoldable pub pcb_write :
      (ℕ → ℕ) → ℕ → ℤ → FileTable → Io W → Option (ℤ × ((ℕ → ℕ) × (FileTable × Io W)))
  pcb_write buffer size id table io =
      if is_id id 0 then some (negsuc 0, (buffer, (table, io))) else elim (slot_of id table) [
        | none ↦ some (negsuc 0, (buffer, (table, io)))
        | some (n, f) ↦
            if is_id f.type 1
            then some (negsuc 0, (buffer, (table, io)))
            else if n == 1
            then (let (_, (f1, w1)) = get_current_pos host f io.host_state in
                let (i, cs) = put_chars size 0 buffer in
                some (
                  pos i,
                  (
                    assign_at buffer i new_line,
                    (
                      assign_at table n (some f1),
                      record io { host_state = w1; output = io.output ++ (cs ++ (new_line ∷ [])) },
                    ),
                  ),
                ))
            else (do
              (result, (f1, w1)) ← write_open f (bytes_of size 0 buffer) size io.host_state
              some (result, (buffer, (assign_at table n (some f1), record io { host_state = w1 }))))
      ]

  -- In `Seek` -1 stands for the end of the file.
  unfoldable pub seek_target : OpenFile → ℤ → W → Option (ℤ × W)
  seek_target f position w = if minus_one position then file_length host f w else some (position, w)

  -- The part of PCB::Seek for a file: `none` inside where it returns -1.
  unfoldable pub seek_open : OpenFile → ℤ → W → Option (Option ℤ × (OpenFile × W))
  seek_open f position w = do
    (target, w1) ← seek_target f position w
    (length, w2) ← file_length host f w1
    if ltb_ℤ length target || ltb_ℤ target (pos 0)
        then some (none, (f, w2))
        else (do (f1, w3) ← file_seek host f target w2; some (some target, (f1, w3)))

  -- PCB::Seek
  unfoldable pub pcb_seek : ℤ → ℤ → FileTable → W → Option (ℤ × (FileTable × W))
  pcb_seek position id table w = elim (slot_of id table) [
    | none ↦ some (negsuc 0, (table, w))
    | some (n, f) ↦ if n == 1 || n == 0 then some (negsuc 0, (table, w)) else (do
      (result, (f1, w1)) ← seek_open f position w
      elim result [
        | none ↦ some (negsuc 0, (assign_at table n (some f1), w1))
        | some target ↦ some (target, (assign_at table n (some f1), w1))
      ])
  ]
