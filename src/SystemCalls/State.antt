-- ===== src/SystemCalls/State.antt =====
-- NachOS-4.0/code/userprog/exception.cc: what a handler works on, and how it ends.
use hcmus_csc10007_operating.Common.{ℕ, List, Bool, true, false}
use hcmus_csc10007_operating.Machine.State.{
  Machine, Outcome, done, trap, abort, M, ExceptionType, no_exception, syscall_exception,
  page_fault_exception, read_only_exception, bus_error_exception, address_error_exception,
  overflow_exception, illegal_instr_exception,
}
use hcmus_csc10007_operating.Machine.State

abbrev pub Buffer : Type 0
Buffer = ℕ → ℕ

-- The calls of ksyscall.h that leave it for another part of the kernel, with what they return.
pub record Services (K : Type 0) : Type 0 where
  pub file_create : Buffer → K → Bool × K
  pub file_remove : Buffer → K → Bool × K
  pub file_opens : Buffer → K → Bool × K
  pub file_open : Buffer → ℕ → K → ℕ × K
  pub file_close : ℕ → K → ℕ × K
  pub file_read : Buffer → ℕ → ℕ → K → (ℕ × Buffer) × K
  pub file_write : Buffer → ℕ → ℕ → K → ℕ × K
  pub file_seek : ℕ → ℕ → K → ℕ × K
  pub exec_update : Buffer → K → ℕ × K
  pub join_update : ℕ → K → ℕ × K
  pub exit : ℕ → K → K
  pub process_id : K → ℕ
  pub create_semaphore : Buffer → ℕ → K → ℕ × K
  pub wait : Buffer → K → ℕ × K
  pub signal : Buffer → K → ℕ × K

-- The machine, the characters still to be typed and those printed, and the rest of the kernel.
pub record System (K : Type 0) : Type 0 where
  pub machine : Machine
  pub input : List ℕ
  pub output : List ℕ
  pub kernel : K

-- `halted` is Halt, `finished` the end of the thread, `waiting` a GetChar that nothing is typed for,
-- and `fault` a failed ASSERT or a fault of the host.
pub data Reply (K A : Type 0) : Type 0 where
  returned : A → System K → Reply K A
  halted : System K → Reply K A
  finished : System K → Reply K A
  waiting : Reply K A
  fault : Reply K A

abbrev pub S : Type 0 → Type 0 → Type 0
S K A = System K → Reply K A

infixl 5 ◌>>=◌ ◌>>◌
abbrev pub ◌>>=◌ : {K A B : Type 0} → S K A → (A → S K B) → S K B
◌>>=◌ m f s = elim (m s) [
  | returned a t ↦ f a t
  | halted t ↦ halted t
  | finished t ↦ finished t
  | waiting ↦ waiting
  | fault ↦ fault
]

abbrev pub ◌>>◌ : {K B : Type 0} → S K (Unit {0}) → S K B → S K B
m >> k = m >>= λ _. k

abbrev pub return : {K A : Type 0} → A → S K A
return a s = returned a s

-- The cases of ExceptionHandler that are no system call: a message and Halt. RaiseException is not called
-- with the other two.
abbrev pub halting : ExceptionType → Bool
halting no_exception = false
halting syscall_exception = false
halting page_fault_exception = true
halting read_only_exception = true
halting bus_error_exception = true
halting address_error_exception = true
halting overflow_exception = true
halting illegal_instr_exception = true

unfoldable pub handle_error : {K A : Type 0} → ExceptionType → S K A
handle_error which s = elim (halting which) [ true ↦ halted s | false ↦ fault ]

-- A call of the machine. Where it raises an exception the handler is entered again.
abbrev pub on_machine : {K A : Type 0} → M A → S K A
on_machine act s = elim (act s.machine) [
  | done a m ↦ returned a (record s { machine = m })
  | trap which m ↦ handle_error which (record s { machine = m })
  | abort ↦ fault
]

abbrev pub get_reg : {K : Type 0} → ℕ → S K ℕ
get_reg num = on_machine (State.read_register num)

abbrev pub put_reg : {K : Type 0} → ℕ → ℕ → S K (Unit {0})
put_reg num value = on_machine (State.write_register num value)
