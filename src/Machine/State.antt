-- ===== src/Machine/State.antt =====
-- NachOS-4.0/code/machine/machine.h, translate.h, machine.cc: the state of the simulated machine, its
-- registers, and what `RaiseException` does before the kernel's handler is entered.
--
-- A register holds a 32-bit pattern; memory holds bytes. `ReadMem` and the instructions that
-- follow it return as soon as an exception is raised, hence the monad: `trap` is the machine as
-- `RaiseException` hands it to the kernel's `ExceptionHandler`, and `abort` a failed ASSERT or a
-- fault of the host.
use hcmus_csc10007_operating.Common.{ℕ, Bool, Option, List, ltb, if◌then◌else◌}
pub use hcmus_csc10007_operating.Common.Strings.{update}

pub data ExceptionType : Type 0 where
  no_exception syscall_exception page_fault_exception read_only_exception : ExceptionType
  bus_error_exception address_error_exception overflow_exception : ExceptionType
  illegal_instr_exception : ExceptionType

-- The field `use` of the source is `used`.
pub record TranslationEntry : Type 0 where
  pub virtual_page : ℕ
  pub physical_page : ℕ
  pub valid : Bool
  pub read_only : Bool
  pub used : Bool
  pub dirty : Bool

abbrev pub page_size : ℕ
page_size = 128

abbrev pub num_phys_pages : ℕ
num_phys_pages = 128

abbrev pub memory_size : ℕ
memory_size = 16384

abbrev pub tlb_size : ℕ
tlb_size = 4

abbrev pub num_gp_regs : ℕ
num_gp_regs = 32

abbrev pub stack_reg : ℕ
stack_reg = 29

abbrev pub ret_addr_reg : ℕ
ret_addr_reg = 31

abbrev pub hi_reg : ℕ
hi_reg = 32

abbrev pub lo_reg : ℕ
lo_reg = 33

abbrev pub pc_reg : ℕ
pc_reg = 34

abbrev pub next_pc_reg : ℕ
next_pc_reg = 35

abbrev pub prev_pc_reg : ℕ
prev_pc_reg = 36

abbrev pub load_reg : ℕ
load_reg = 37

abbrev pub load_value_reg : ℕ
load_value_reg = 38

abbrev pub bad_v_addr_reg : ℕ
bad_v_addr_reg = 39

abbrev pub num_total_regs : ℕ
num_total_regs = 40

-- `tlb` and `page_table` are pointers in the source, so `none` is NULL.
pub record Machine : Type 0 where
  pub registers : ℕ → ℕ
  pub main_memory : ℕ → ℕ
  pub tlb : Option (List TranslationEntry)
  pub page_table : Option (List TranslationEntry)
  pub page_table_size : ℕ

pub data Outcome (A : Type 0) : Type 0 where
  done : A → Machine → Outcome A
  trap : ExceptionType → Machine → Outcome A
  abort : Outcome A

abbrev pub M : Type 0 → Type 0
M A = Machine → Outcome A

infixl 5 ◌>>=◌
abbrev pub ◌>>=◌ : {A B : Type 0} → M A → (A → M B) → M B
◌>>=◌ m f s = elim (m s) [ done a s' ↦ f a s' | trap e s' ↦ trap e s' | abort ↦ abort ]

abbrev pub set_register : Machine → ℕ → ℕ → Machine
set_register m r v = record m { registers = update m.registers r v }

-- `Machine::ReadRegister` and `Machine::WriteRegister`, with their ASSERT.
unfoldable pub read_register : ℕ → M ℕ
read_register num m = if ltb num num_total_regs then done (m.registers num) m else abort

unfoldable pub write_register : ℕ → ℕ → M (Unit {0})
write_register num value m =
    if ltb num num_total_regs then done tt (set_register m num value) else abort

-- `Machine::DelayedLoad`: four assignments in the source's order.
unfoldable pub delayed_load : ℕ → ℕ → Machine → Machine
delayed_load next_reg next_value m =
    let m1 = set_register m (m.registers load_reg) (m.registers load_value_reg) in
    let m2 = set_register m1 load_reg next_reg in
    let m3 = set_register m2 load_value_reg next_value in set_register m3 0 0

-- `Machine::RaiseException` up to the call of `ExceptionHandler`.
unfoldable pub raise_exception : {A : Type 0} → ExceptionType → ℕ → M A
unfolding delayed_load
raise_exception which bad_v_addr m =
    trap which (delayed_load 0 0 (set_register m bad_v_addr_reg bad_v_addr))
