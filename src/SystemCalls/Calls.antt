-- ===== src/SystemCalls/Calls.antt =====
-- NachOS-4.0/code/userprog/ksyscall.h: the console calls, and the cases of `ExceptionHandler` that make them.
use hcmus_csc10007_operating.Common.{
  ℕ, zero, suc, ◌-◌, ◌%◌, ◌==◌, ltb, leb, ◌||◌, if◌then◌else◌, assign_at, List, [], ◌∷◌, ◌++◌,
  Option, none, some,
}
use hcmus_csc10007_operating.Common.Word.{word_mod, sign_bit, add32}
use hcmus_csc10007_operating.Machine.Memory.{char_value}
use hcmus_csc10007_operating.Numbers.{sys_read_num, sys_print_num}
use hcmus_csc10007_operating.SystemCalls.State.{
  Buffer, returned, halted, waiting, fault, S, ◌>>=◌, ◌>>◌, on_machine, get_reg, put_reg,
}
use hcmus_csc10007_operating.SystemCalls.Copying
use hcmus_csc10007_operating.SystemCalls.Copying.{user2system, system2user}

abbrev pub failed : ℕ
failed = word_mod - 1

abbrev pub max_file_length : ℕ
max_file_length = 32

abbrev pub max_filename_length : ℕ
max_filename_length = 32

-- The loop of SysReadString from place `idx` with `k` places left: `none` waits for a character.
unfoldable pub read_chars : ℕ → ℕ → Buffer → List ℕ → Option (Buffer × List ℕ)
read_chars zero idx buffer input = some (buffer, input)
read_chars (suc k) idx buffer [] = none
read_chars (suc k) idx buffer (ch ∷ input) =
    let next = read_chars k (suc idx) (assign_at buffer idx ch) input in
    let again = read_chars (suc k) idx buffer input in
    if ch == 255 then again else if ch == 1 || ch == 10 then some (buffer, input) else next

-- SysReadString; a negative length reads nothing.
unfoldable pub sys_read_string : Buffer → ℕ → List ℕ → Option (Buffer × List ℕ)
sys_read_string buffer length input =
    if leb sign_bit length
    then some (buffer, input)
    else read_chars length 0 (λ i. if ltb i length then 0 else buffer i) input

-- The characters of a buffer up to its first NUL, with `k` places left: `none` reads past its end.
unfoldable pub chars_from : ℕ → ℕ → Buffer → Option (List ℕ)
chars_from zero i buffer = none
chars_from (suc k) i buffer =
    let rest = chars_from k (suc i) buffer in
    if buffer i == 0 then some [] else elim rest [ none ↦ none | some cs ↦ some (buffer i ∷ cs) ]

unfoldable pub sys_add : ℕ → ℕ → ℕ
sys_add op1 op2 = add32 op1 op2

module _ {K : Type 0} where
  abbrev pub move_on : S K (Unit {0})
  move_on = on_machine Copying.increase_pc

  abbrev pub from_user : ℕ → ℕ → S K Buffer
  from_user virt_addr limit = on_machine (user2system virt_addr limit)

  abbrev pub to_user : ℕ → ℕ → Buffer → S K ℕ
  to_user virt_addr len buffer = on_machine (system2user virt_addr len buffer)

  abbrev pub put_output : List ℕ → S K (Unit {0})
  put_output cs s = returned tt (record s { output = s.output ++ cs })

  -- A call of another part of the kernel.
  abbrev pub call : {A : Type 0} → (K → A × K) → S K A
  call f s = returned (f s.kernel).0 (record s { kernel = (f s.kernel).1 })

  unfoldable pub sys_halt : S K (Unit {0})
  sys_halt s = halted s

  unfoldable pub get_char : S K ℕ
  get_char s = elim s.input [ [] ↦ waiting | c ∷ cs ↦ returned c (record s { input = cs }) ]

  unfoldable pub read_num : S K ℕ
  read_num s = elim (sys_read_num s.input) [
    | none ↦ waiting
    | some r ↦ returned r.0 (record s { input = r.1 })
  ]

  unfoldable pub print_num : ℕ → S K (Unit {0})
  print_num n s = elim (sys_print_num n) [ none ↦ fault | some cs ↦ put_output cs s ]

  unfoldable pub take_string : Buffer → ℕ → S K Buffer
  take_string buffer length s = elim (sys_read_string buffer length s.input) [
    | none ↦ waiting
    | some r ↦ returned r.0 (record s { input = r.1 })
  ]

  unfoldable pub print_string : Buffer → ℕ → S K (Unit {0})
  print_string buffer size s = elim (chars_from size 0 buffer) [
    | none ↦ fault
    | some cs ↦ put_output cs s
  ]

  unfoldable pub handle_add : S K (Unit {0})
  handle_add = do op1 ← get_reg 4; op2 ← get_reg 5; put_reg 2 (sys_add op1 op2); move_on

  unfoldable pub handle_read_num : S K (Unit {0})
  handle_read_num = do num ← read_num; put_reg 2 num; move_on

  unfoldable pub handle_print_num : S K (Unit {0})
  handle_print_num = do num ← get_reg 4; print_num num; move_on

  unfoldable pub handle_read_char : S K (Unit {0})
  handle_read_char = do c ← get_char; put_reg 2 (char_value c); move_on

  unfoldable pub handle_print_char : S K (Unit {0})
  handle_print_char = do c ← get_reg 4; put_output (c % 256 ∷ []); move_on

  unfoldable pub handle_read_string : S K (Unit {0})
  handle_read_string = do
    virtual_addr ← get_reg 4
    length ← get_reg 5
    buffer ← from_user virtual_addr length
    buffer' ← take_string buffer length
    _ ← to_user virtual_addr length buffer'
    move_on

  unfoldable pub handle_print_string : S K (Unit {0})
  handle_print_string = do
    virtual_addr ← get_reg 4
    buffer ← from_user virtual_addr 255
    print_string buffer 256
    move_on
