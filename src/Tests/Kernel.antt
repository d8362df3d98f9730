-- ===== src/Tests/Kernel.antt =====
-- The system calls (NachOS-4.0/code/userprog) and the interrupts (NachOS-4.0/code/machine) on
-- concrete inputs.
use hcmus_csc10007_operating.Common.{
  ℕ, zero, suc, ◌+◌, ◌<◌, ◌≡◌, refl, Bool, true, false, none, some, List, [], ◌∷◌, arith,
}
use hcmus_csc10007_operating.Machine.State.{Machine, syscall_exception, pc_reg, done, update}
use hcmus_csc10007_operating.SystemCalls.State.{Services, System}
use hcmus_csc10007_operating.SystemCalls.Dispatch.{exception_handler}
use hcmus_csc10007_operating.SystemCalls.Copying.{system2user, user2system}
use hcmus_csc10007_operating.SystemCalls.Space.{AreFrames, UserSpace, Entry}
use hcmus_csc10007_operating.SystemCalls.Frame.{Ends, Advanced}
use hcmus_csc10007_operating.SystemCalls.Advance.{exception_handler-Advances}
use hcmus_csc10007_operating.SystemCalls.Transfer.{cut, system2user-user2system}
use hcmus_csc10007_operating.Interrupts.{
  timer_int, Request, Interrupts, int_off, MachineStatus, idle_mode, system_mode, user_mode,
  check_if_due,
}
use hcmus_csc10007_operating.Interrupts.Pending.{Future}
use hcmus_csc10007_operating.Interrupts.Clock.{Checked, check_if_due-Checked}

-- A kernel whose calls do nothing.
abbrev no_services : Services (Unit {0})
no_services = record {
  file_create = λ b k. (true, k);
  file_remove = λ b k. (false, k);
  file_opens = λ b k. (false, k);
  file_open = λ b t k. (0, k);
  file_close = λ i k. (0, k);
  file_read = λ b n i k. ((0, b), k);
  file_write = λ b n i k. (n, k);
  file_seek = λ p i k. (p, k);
  exec_update = λ b k. (1, k);
  join_update = λ i k. (0, k);
  exit = λ c k. k;
  process_id = λ k. 0;
  create_semaphore = λ b v k. (0, k);
  wait = λ b k. (0, k);
  signal = λ b k. (0, k);
}

abbrev one_page : Machine
one_page = record {
  registers = λ i. 0;
  main_memory = λ p. 0;
  tlb = none;
  page_table = some (
      record {
        virtual_page = 0;
        physical_page = 2;
        valid = true;
        read_only = false;
        used = false;
        dirty = false;
      }
      ∷ []);
  page_table_size = 1;
}

-- A program about to make the system call of a number, with the arguments 8 and 5.
abbrev calling : ℕ → System (Unit {0})
calling type = record {
  machine = record one_page {
    registers = update (update (update (update (λ i. 0) 2 type) 4 8) 5 5) pc_reg 100;
  };
  input = [];
  output = [];
  kernel = tt;
}

exception_handler-Advances_example :
    Ends (Advanced (calling 42)) (exception_handler no_services syscall_exception (calling 42))
exception_handler-Advances_example = exception_handler-Advances (calling 42) no_services refl

one_page-AreFrames : AreFrames (λ i. i + 2) 1
one_page-AreFrames = record { in_memory = λ i h. omega arith; apart = λ i j h k e. omega arith }

one_page-UserSpace : UserSpace (λ i. i + 2) 1 one_page
one_page-UserSpace = record {
  table = _;
  no_tlb = refl;
  in_use = refl;
  size = refl;
  entries = entry_of;
}
  where
    entry_of :
        (i : ℕ)
        → i < 1
        → Entry
            (λ i. i + 2)
            (record {
              virtual_page = 0;
              physical_page = 2;
              valid = true;
              read_only = false;
              used = false;
              dirty = false;
            }
              ∷ [])
            i
    entry_of zero h = record {
      entry = _;
      there = refl;
      is_valid = refl;
      may_write = refl;
      frame = refl;
    }
    entry_of (suc i) h = absurd (omega arith)

-- A buffer with a NUL in its third place.
abbrev with_nul : ℕ → ℕ
with_nul = update (λ i. 65) 2 0

system2user-user2system_example :
    (m1 m2 : Machine) × (system2user 100 8 with_nul one_page ≡ done 3 m1)
    × (user2system 100 8 m1 ≡ done (cut 8 with_nul) m2)
system2user-user2system_example =
    system2user-user2system (λ i. i + 2) 1 (omega arith) one_page-AreFrames 100 8 with_nul one_page
      one_page-UserSpace (λ i. ground arith) (λ a h. omega arith) (omega arith)

-- A timer that asks for its next interrupt a hundred ticks later, and for a context switch unless
-- there is nothing to run.
abbrev timer : ℕ → MachineStatus → ℕ → ℕ × List (Request ℕ) × Bool
timer h idle_mode d = (d + 1, record { to_call = h; from_now = 100; type = timer_int } ∷ [], false)
timer h _ d = (d + 1, record { to_call = h; from_now = 100; type = timer_int } ∷ [], true)

abbrev ticking : Interrupts ℕ ℕ
ticking = record {
  level = int_off;
  pending = record { call_on_interrupt = 0; when = 40; type = timer_int } ∷ [];
  in_handler = false;
  yield_on_return = false;
  status = system_mode;
  total_ticks = 25;
  idle_ticks = 0;
  system_ticks = 25;
  user_ticks = 0;
  devices = 0;
  machine = none;
}

timer-Future : (h : ℕ) (status : MachineStatus) (d : ℕ) → Future 40 (timer h status d).1
timer-Future h idle_mode d = (omega arith, omega arith, tt)
timer-Future h system_mode d = (omega arith, omega arith, tt)
timer-Future h user_mode d = (omega arith, omega arith, tt)

check_if_due-Checked_example :
    (r : Interrupts ℕ ℕ × Bool) × (check_if_due timer true ticking ≡ some r)
    × Checked true ticking r
check_if_due-Checked_example = check_if_due-Checked timer true ticking timer-Future refl (tt, tt)
