-- ===== src/SystemCalls/Copying.antt =====
-- NachOS-4.0/code/userprog/exception.cc: `IncreasePC`, `User2System` and `System2User`.
use hcmus_csc10007_operating.Common.{ℕ, zero, suc, ◌-◌, ◌%◌, ◌==◌, leb, if◌then◌else◌, assign_at}
use hcmus_csc10007_operating.Common.Word.{word_mod, sign_bit, add32}
use hcmus_csc10007_operating.Machine.State.{M, pc_reg, next_pc_reg, prev_pc_reg, done, abort, ◌>>=◌}
use hcmus_csc10007_operating.Machine.State
use hcmus_csc10007_operating.Machine.Memory.{read_mem, write_mem, char_value}
use hcmus_csc10007_operating.SystemCalls.State.{Buffer}

infixl 5 ◌>>◌
abbrev ◌>>◌ : {B : Type 0} → M (Unit {0}) → M B → M B
m >> k = m >>= λ _. k

unfoldable pub increase_pc : M (Unit {0})
increase_pc = do
  pc ← State.read_register pc_reg
  State.write_register prev_pc_reg pc
  pc' ← State.read_register pc_reg
  State.write_register pc_reg (add32 pc' 4)
  pc'' ← State.read_register pc_reg
  State.write_register next_pc_reg (add32 pc'' 4)

-- The loop of User2System from place `i`, with `k` places left.
unfoldable pub copy_from_user : ℕ → ℕ → ℕ → Buffer → M Buffer
copy_from_user zero i virt_addr buf = done buf
copy_from_user (suc k) i virt_addr buf = do
  one_char ← read_mem (add32 virt_addr i) 1
  let buf' : Buffer = assign_at buf i (one_char % 256)
  let rest = copy_from_user k (suc i) virt_addr buf'
  (if one_char == 0 then done buf' else rest)

-- `new char[limit + 1]` fails where that is negative, also by the overflow of limit + 1; for -1 it has
-- no place and nothing is read.
unfoldable pub user2system : ℕ → ℕ → M Buffer
user2system virt_addr limit =
    if limit == word_mod - 1
    then done (λ _. 0)
    else if leb (sign_bit - 1) limit
    then (λ _. abort)
    else copy_from_user limit 0 virt_addr (λ _. 0)

-- The loop of System2User, with `k` places left; the number of places written.
unfoldable pub copy_to_user : ℕ → ℕ → ℕ → Buffer → M ℕ
copy_to_user zero i virt_addr buffer = done i
copy_to_user (suc k) i virt_addr buffer = do
  write_mem (add32 virt_addr i) 1 (char_value (buffer i))
  let rest = copy_to_user k (suc i) virt_addr buffer
  (if buffer i == 0 then done (suc i) else rest)

unfoldable pub system2user : ℕ → ℕ → Buffer → M ℕ
system2user virt_addr len buffer =
    if leb sign_bit len then done (word_mod - 1) else copy_to_user len 0 virt_addr buffer
