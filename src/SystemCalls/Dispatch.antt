-- ===== src/SystemCalls/Dispatch.antt =====
-- NachOS-4.0/code/userprog/exception.cc: the other cases of `ExceptionHandler`, and the calls of
-- NachOS-4.0/code/userprog/ksyscall.h that they make.
use hcmus_csc10007_operating.Common.{ℕ, ◌+◌, ◌-◌, ◌==◌, leb, ◌&&◌, not, if◌then◌else◌}
use hcmus_csc10007_operating.Common.Word.{word_mod}
use hcmus_csc10007_operating.Machine.State.{ExceptionType, no_exception, syscall_exception}
use hcmus_csc10007_operating.SystemCalls.State.{
  Buffer, Services, finished, S, ◌>>=◌, ◌>>◌, return, handle_error, get_reg, put_reg,
}
use hcmus_csc10007_operating.SystemCalls.Calls.{
  failed, max_file_length, max_filename_length, move_on, from_user, to_user, call, sys_halt,
  handle_add, handle_read_num, handle_print_num, handle_read_char, handle_print_char,
  handle_read_string, handle_print_string,
}

module _ {K : Type 0} (services : Services K) where
  open services use {
    file_create, file_remove, file_opens, file_open, file_close, file_read, file_write, file_seek,
    exec_update, join_update, exit, process_id, create_semaphore, wait, signal,
  }

  -- SysCreate: an empty name is refused.
  unfoldable pub sys_create : Buffer → S K (Unit {0})
  sys_create filename =
      if filename 0 == 0
      then put_reg 2 failed
      else (do created ← call (file_create filename); put_reg 2 (if created then 0 else failed))

  unfoldable pub sys_remove : Buffer → S K ℕ
  sys_remove filename =
      if filename 0 == 0
      then return failed
      else (do removed ← call (file_remove filename); return (if removed then 0 else failed))

  -- SysExec: the file is opened and closed to see whether it is there.
  unfoldable pub sys_exec : Buffer → S K (Unit {0})
  sys_exec name = do
    opens ← call (file_opens name)
    (if opens then (do id ← call (exec_update name); put_reg 2 id) else put_reg 2 failed)

  unfoldable pub sys_exit : ℕ → S K (Unit {0})
  sys_exit code s = finished (record s { kernel = exit code s.kernel })

  unfoldable pub handle_create : S K (Unit {0})
  handle_create = do
    virt_addr ← get_reg 4
    filename ← from_user virt_addr (max_file_length + 1)
    sys_create filename
    move_on

  unfoldable pub handle_open : S K (Unit {0})
  handle_open = do
    virt_addr ← get_reg 4
    type ← get_reg 5
    filename ← from_user virt_addr (max_filename_length + 1)
    result ← call (file_open filename type)
    put_reg 2 result
    move_on

  unfoldable pub handle_close : S K (Unit {0})
  handle_close = do id ← get_reg 4; result ← call (file_close id); put_reg 2 result; move_on

  unfoldable pub handle_read : S K (Unit {0})
  handle_read = do
    virt_addr ← get_reg 4
    size ← get_reg 5
    id ← get_reg 6
    buffer ← from_user virt_addr size
    r ← call (file_read buffer size id)
    put_reg 2 r.0
    _ ←
        (if not (r.0 == failed) && not (r.0 == word_mod - 2)
          then to_user virt_addr r.0 r.1
          else return 0)
    move_on

  unfoldable pub handle_write : S K (Unit {0})
  handle_write = do
    virt_addr ← get_reg 4
    size ← get_reg 5
    id ← get_reg 6
    buffer ← from_user virt_addr size
    res ← call (file_write buffer size id)
    put_reg 2 res
    move_on

  unfoldable pub handle_seek : S K (Unit {0})
  handle_seek = do
    position ← get_reg 4
    id ← get_reg 5
    res ← call (file_seek position id)
    put_reg 2 res
    move_on

  unfoldable pub handle_remove : S K (Unit {0})
  handle_remove = do
    virt_addr ← get_reg 4
    filename ← from_user virt_addr (max_filename_length + 1)
    res ← sys_remove filename
    put_reg 2 res
    move_on

  unfoldable pub handle_exec : S K (Unit {0})
  handle_exec = do
    virtual_addr ← get_reg 4
    name ← from_user virtual_addr (max_filename_length + 1)
    sys_exec name
    move_on

  unfoldable pub handle_join : S K (Unit {0})
  handle_join = do pid ← get_reg 4; code ← call (join_update pid); put_reg 2 code; move_on

  unfoldable pub handle_exit : S K (Unit {0})
  handle_exit = do exit_code ← get_reg 4; sys_exit exit_code; move_on

  unfoldable pub handle_get_pid : S K (Unit {0})
  handle_get_pid = do pid ← call (λ k. (process_id k, k)); put_reg 2 pid; move_on

  unfoldable pub handle_create_semaphore : S K (Unit {0})
  handle_create_semaphore = do
    virtual_addr ← get_reg 4
    sem_val ← get_reg 5
    name ← from_user virtual_addr (max_filename_length + 1)
    result ← call (create_semaphore name sem_val)
    put_reg 2 result
    move_on

  unfoldable pub handle_wait : S K (Unit {0})
  handle_wait = do
    virtual_addr ← get_reg 4
    name ← from_user virtual_addr (max_filename_length + 1)
    result ← call (wait name)
    put_reg 2 result
    move_on

  unfoldable pub handle_signal : S K (Unit {0})
  handle_signal = do
    virtual_addr ← get_reg 4
    name ← from_user virtual_addr (max_filename_length + 1)
    result ← call (signal name)
    put_reg 2 result
    move_on

  -- The calls from 42 on, Add and those of the console: 50 halts, any other is a message and no more.
  unfoldable pub handle_console_syscall : ℕ → S K (Unit {0})
  handle_console_syscall type =
      if type == 42
      then handle_add
      else if type == 43
      then handle_read_num
      else if type == 44
      then handle_print_num
      else if type == 45
      then handle_read_char
      else if type == 46
      then handle_print_char
      else if type == 48
      then handle_read_string
      else if type == 49
      then handle_print_string
      else if type == 50
      then sys_halt
      else return tt

  -- The numbers of the system calls. Those from 11 to 15 and the sockets from 20 to 24 halt.
  unfoldable pub handle_syscall : ℕ → S K (Unit {0})
  handle_syscall type =
      if type == 0
      then sys_halt
      else if type == 1
      then handle_exit
      else if type == 2
      then handle_exec
      else if type == 3
      then handle_join
      else if type == 4
      then handle_create
      else if type == 5
      then handle_remove
      else if type == 6
      then handle_open
      else if type == 7
      then handle_read
      else if type == 8
      then handle_write
      else if type == 9
      then handle_seek
      else if type == 10
      then handle_close
      else if leb 11 type && leb type 15
      then sys_halt
      else if type == 16
      then handle_create_semaphore
      else if type == 17
      then handle_wait
      else if type == 18
      then handle_signal
      else if type == 19
      then handle_get_pid
      else if leb 20 type && leb type 24
      then sys_halt
      else handle_console_syscall type

  unfoldable pub exception_handler : ExceptionType → S K (Unit {0})
  exception_handler no_exception = return tt
  exception_handler syscall_exception = do type ← get_reg 2; handle_syscall type
  exception_handler which = handle_error which
