-- ===== src/SystemCalls/Advance.antt =====
-- NachOS-4.0/code/userprog/exception.cc: a system call that returns has moved the program counters on.
use hcmus_csc10007_operating.Common.{
  ℕ, ◌==◌, leb, ◌&&◌, ◌||◌, ◌≡◌, refl, sym, if◌then◌else◌, Bool, true, false, arith,
}
use hcmus_csc10007_operating.Machine.State.{
  Machine, ExceptionType, syscall_exception, pc_reg, next_pc_reg, prev_pc_reg,
}
use hcmus_csc10007_operating.Machine.State
use mathlib.Core.Path.{subst}
use hcmus_csc10007_operating.SystemCalls.State.{Services, System, S}
use hcmus_csc10007_operating.SystemCalls.Calls.{sys_halt}
use hcmus_csc10007_operating.SystemCalls.Dispatch.{
  handle_console_syscall, handle_syscall, exception_handler,
}
use hcmus_csc10007_operating.SystemCalls.Frame.{Ends, Advanced}
use hcmus_csc10007_operating.SystemCalls.Handlers.{
  handle_create-Advances, handle_open-Advances, handle_close-Advances, handle_read-Advances,
  handle_write-Advances, handle_seek-Advances, handle_remove-Advances, handle_exec-Advances,
  handle_join-Advances, handle_exit-Advances, handle_get_pid-Advances,
  handle_create_semaphore-Advances, handle_wait-Advances, handle_signal-Advances,
}
use hcmus_csc10007_operating.SystemCalls.Console.{
  handle_add-Advances, handle_read_num-Advances, handle_print_num-Advances,
  handle_read_char-Advances, handle_print_char-Advances, handle_read_string-Advances,
  handle_print_string-Advances,
}

module _ {K : Type 0} (s : System K) where
  module _ (services : Services K) where
    if_advances :
        (b : Bool) (x y : S K (Unit {0}))
        → Ends (Advanced s) (x s)
        → (b ≡ false → Ends (Advanced s) (y s))
        → Ends (Advanced s) ((if b then x else y) s)
    if_advances true x y h k = h
    if_advances false x y h k = k refl

    halt-Advances : Ends (Advanced s) (sys_halt s)
    unfolding sys_halt
    halt-Advances = tt

    -- A number that ExceptionHandler has a case for.
    abbrev pub is_call : ℕ → Bool
    is_call type = leb type 24 || (leb 42 type && leb type 46) || (leb 48 type && leb type 50)

    -- A number that has a case among the last ones.
    abbrev is_console : ℕ → Bool
    is_console type = (leb 42 type && leb type 46) || (leb 48 type && leb type 50)

    handle_console_syscall-Advances :
        (type : ℕ)
        → is_console type ≡ true
        → Ends (Advanced s) (handle_console_syscall services type s)
    unfolding handle_console_syscall
    handle_console_syscall-Advances type known =
        if_advances (type == 42) _ _ (handle_add-Advances s) (λ e0.
          if_advances (type == 43) _ _ (handle_read_num-Advances s) (λ e1.
            if_advances (type == 44) _ _ (handle_print_num-Advances s) (λ e2.
              if_advances (type == 45) _ _ (handle_read_char-Advances s) (λ e3.
                if_advances (type == 46) _ _ (handle_print_char-Advances s) (λ e4.
                  if_advances (type == 48) _ _ (handle_read_string-Advances s) (λ e5.
                    if_advances (type == 49) _ _ (handle_print_string-Advances s) (λ e6.
                      if_advances (type == 50) _ _ halt-Advances
                        (λ e7. absurd (ground arith)))))))))

    handle_syscall-Advances :
        (type : ℕ) → is_call type ≡ true → Ends (Advanced s) (handle_syscall services type s)
    unfolding handle_syscall
    handle_syscall-Advances type known = if_advances (type == 0) _ _ halt-Advances (λ e0.
        if_advances (type == 1) _ _ (handle_exit-Advances s services) (λ e1.
          if_advances (type == 2) _ _ (handle_exec-Advances s services) (λ e2.
            if_advances (type == 3) _ _ (handle_join-Advances s services) (λ e3.
              if_advances (type == 4) _ _ (handle_create-Advances s services) (λ e4.
                if_advances (type == 5) _ _ (handle_remove-Advances s services) (λ e5.
                  if_advances (type == 6) _ _ (handle_open-Advances s services) (λ e6.
                    if_advances (type == 7) _ _ (handle_read-Advances s services) (λ e7.
                      if_advances (type == 8) _ _ (handle_write-Advances s services) (λ e8.
                        if_advances (type == 9) _ _ (handle_seek-Advances s services) (λ e9.
                          if_advances (type == 10) _ _ (handle_close-Advances s services) (λ e10.
                            if_advances (leb 11 type && leb type 15) _ _ halt-Advances (λ e11.
                              if_advances (type == 16) _ _
                                (handle_create_semaphore-Advances s services)
                                (λ e12.
                                  if_advances (type == 17) _ _ (handle_wait-Advances s services)
                                    (λ e13.
                                      if_advances (type == 18) _ _
                                        (handle_signal-Advances s services)
                                        (λ e14.
                                          if_advances (type == 19) _ _
                                            (handle_get_pid-Advances s services)
                                            (λ e15.
                                              if_advances (leb 20 type && leb type 24) _ _
                                                halt-Advances
                                                (λ e16.
                                                  handle_console_syscall-Advances type
                                                    (ground arith))))))))))))))))))

    handler_lem :
        exception_handler services syscall_exception s
        ≡ handle_syscall services (s.machine.registers 2) s
    unfolding exception_handler State.read_register
    handler_lem = refl

    -- Where the number in R2 is one that ExceptionHandler has a case for, and the handler returns, PC
    -- stands at the next instruction, NextPC at the one after it and PrevPC at the system call, and
    -- every other register but R2 is as it was, whatever the rest of the kernel answers.
    pub exception_handler-Advances :
        is_call (s.machine.registers 2) ≡ true
        → Ends (Advanced s) (exception_handler services syscall_exception s)
    exception_handler-Advances known =
        subst (Ends (Advanced s)) (sym handler_lem)
          (handle_syscall-Advances (s.machine.registers 2) known)
