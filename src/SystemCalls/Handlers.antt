-- ===== src/SystemCalls/Handlers.antt =====
-- NachOS-4.0/code/userprog/exception.cc: the calls on files, processes and semaphores move the program
-- counters on.
use hcmus_csc10007_operating.Common.{ℕ, ◌+◌, ◌-◌, ◌==◌, ◌&&◌, not, if◌then◌else◌, Bool}
use hcmus_csc10007_operating.Common.Word.{word_mod}
use hcmus_csc10007_operating.SystemCalls.State.{
  Buffer, Services, System, ◌>>=◌, return, get_reg, put_reg,
}
use hcmus_csc10007_operating.SystemCalls.Calls.{
  max_file_length, max_filename_length, failed, from_user, to_user, call,
}
use hcmus_csc10007_operating.SystemCalls.Dispatch.{
  sys_create, sys_remove, sys_exec, sys_exit, handle_create, handle_open, handle_close, handle_read,
  handle_write, handle_seek, handle_remove, handle_exec, handle_join, handle_exit, handle_get_pid,
  handle_create_semaphore, handle_wait, handle_signal,
}
use hcmus_csc10007_operating.SystemCalls.Frame.{
  Ends, Kept, Advanced, read_register_lem, from_user_lem, to_user_lem, write_register_lem,
  increase_pc_lem,
}
use hcmus_csc10007_operating.SystemCalls.Parts.{Self, call_lem, if_lem, then_kept, then_advanced}

module _ {K : Type 0} (s : System K) where
  module _ (services : Services K) where
    open services use {
      file_create, file_remove, file_opens, file_open, file_close, file_read, file_write, file_seek,
      exec_update, join_update, process_id, create_semaphore, wait, signal,
    }

    sys_create_lem :
        (t : System K) (name : Buffer) → Kept s t → Ends (Kept s) (sys_create services name t)
    unfolding sys_create
    sys_create_lem t name h =
        if_lem s (name 0 == 0) (put_reg 2 failed) _ t (write_register_lem s t h failed) (
          then_kept s (call (file_create name)) _ t (call_lem s Bool (file_create name) t h)
            (λ b u k. write_register_lem s u k (if b then 0 else failed)))

    sys_remove_lem :
        (t : System K) (name : Buffer) → Kept s t → Ends (Kept s) (sys_remove services name t)
    unfolding sys_remove
    sys_remove_lem t name h = if_lem s (name 0 == 0) (return failed) _ t h (
        then_kept s {B = ℕ} (call (file_remove name)) (λ b. return (if b then 0 else failed)) t
          (call_lem s Bool (file_remove name) t h) (λ b u k. k))

    sys_exec_lem :
        (t : System K) (name : Buffer) → Kept s t → Ends (Kept s) (sys_exec services name t)
    unfolding sys_exec
    sys_exec_lem t name h =
        then_kept s (call (file_opens name)) _ t (call_lem s Bool (file_opens name) t h) (λ b u k.
          if_lem s b (call (exec_update name) >>= λ id. put_reg 2 id) (put_reg 2 failed) u
            (then_kept s (call (exec_update name)) _ u (call_lem s ℕ (exec_update name) u k)
              (λ id v l. write_register_lem s v l id))
            (write_register_lem s u k failed))

    pub handle_create-Advances : Ends (Advanced s) (handle_create services s)
    unfolding handle_create
    handle_create-Advances =
        then_advanced s (get_reg 4) _ s (read_register_lem s s (Self s) 4) (λ a t1 h1.
          then_advanced s (from_user a (max_file_length + 1)) _ t1
            (from_user_lem s t1 h1 a (max_file_length + 1))
            (λ name t2 h2.
              then_advanced s (sys_create services name) _ t2 (sys_create_lem t2 name h2)
                (λ _ t3 h3. increase_pc_lem s t3 h3)))

    pub handle_open-Advances : Ends (Advanced s) (handle_open services s)
    unfolding handle_open
    handle_open-Advances =
        then_advanced s (get_reg 4) _ s (read_register_lem s s (Self s) 4) (λ a t1 h1.
          then_advanced s (get_reg 5) _ t1 (read_register_lem s t1 h1 5) (λ type t2 h2.
            then_advanced s (from_user a (max_filename_length + 1)) _ t2
              (from_user_lem s t2 h2 a (max_filename_length + 1))
              (λ name t3 h3.
                then_advanced s (call (file_open name type)) _ t3
                  (call_lem s (ℕ) (file_open name type) t3 h3)
                  (λ r t4 h4.
                    then_advanced s (put_reg 2 r) _ t4 (write_register_lem s t4 h4 r)
                      (λ _ t5 h5. increase_pc_lem s t5 h5)))))

    pub handle_close-Advances : Ends (Advanced s) (handle_close services s)
    unfolding handle_close
    handle_close-Advances =
        then_advanced s (get_reg 4) _ s (read_register_lem s s (Self s) 4) (λ id t1 h1.
          then_advanced s (call (file_close id)) _ t1 (call_lem s (ℕ) (file_close id) t1 h1)
            (λ r t2 h2.
              then_advanced s (put_reg 2 r) _ t2 (write_register_lem s t2 h2 r)
                (λ _ t3 h3. increase_pc_lem s t3 h3)))

    pub handle_read-Advances : Ends (Advanced s) (handle_read services s)
    unfolding handle_read
    handle_read-Advances =
        then_advanced s (get_reg 4) _ s (read_register_lem s s (Self s) 4) (λ a t1 h1.
          then_advanced s (get_reg 5) _ t1 (read_register_lem s t1 h1 5) (λ n t2 h2.
            then_advanced s (get_reg 6) _ t2 (read_register_lem s t2 h2 6) (λ id t3 h3.
              then_advanced s (from_user a n) _ t3 (from_user_lem s t3 h3 a n) (λ buf t4 h4.
                then_advanced s (call (file_read buf n id)) _ t4
                  (call_lem s (ℕ × Buffer) (file_read buf n id) t4 h4)
                  (λ r t5 h5.
                    then_advanced s (put_reg 2 r.0) _ t5 (write_register_lem s t5 h5 r.0)
                      (λ _ t6 h6.
                        then_advanced s
                          (if not (r.0 == failed) && not (r.0 == word_mod - 2)
                            then to_user a r.0 r.1
                            else return 0)
                          _ t6
                          (if_lem s (not (r.0 == failed) && not (r.0 == word_mod - 2))
                            (to_user a r.0 r.1) (return 0) t6 (to_user_lem s t6 h6 a r.0 r.1) h6)
                          (λ _ t7 h7. increase_pc_lem s t7 h7)))))))

    pub handle_write-Advances : Ends (Advanced s) (handle_write services s)
    unfolding handle_write
    handle_write-Advances =
        then_advanced s (get_reg 4) _ s (read_register_lem s s (Self s) 4) (λ a t1 h1.
          then_advanced s (get_reg 5) _ t1 (read_register_lem s t1 h1 5) (λ n t2 h2.
            then_advanced s (get_reg 6) _ t2 (read_register_lem s t2 h2 6) (λ id t3 h3.
              then_advanced s (from_user a n) _ t3 (from_user_lem s t3 h3 a n) (λ buf t4 h4.
                then_advanced s (call (file_write buf n id)) _ t4
                  (call_lem s (ℕ) (file_write buf n id) t4 h4)
                  (λ r t5 h5.
                    then_advanced s (put_reg 2 r) _ t5 (write_register_lem s t5 h5 r)
                      (λ _ t6 h6. increase_pc_lem s t6 h6))))))

    pub handle_seek-Advances : Ends (Advanced s) (handle_seek services s)
    unfolding handle_seek
    handle_seek-Advances =
        then_advanced s (get_reg 4) _ s (read_register_lem s s (Self s) 4) (λ p t1 h1.
          then_advanced s (get_reg 5) _ t1 (read_register_lem s t1 h1 5) (λ id t2 h2.
            then_advanced s (call (file_seek p id)) _ t2 (call_lem s (ℕ) (file_seek p id) t2 h2)
              (λ r t3 h3.
                then_advanced s (put_reg 2 r) _ t3 (write_register_lem s t3 h3 r)
                  (λ _ t4 h4. increase_pc_lem s t4 h4))))

    pub handle_remove-Advances : Ends (Advanced s) (handle_remove services s)
    unfolding handle_remove
    handle_remove-Advances =
        then_advanced s (get_reg 4) _ s (read_register_lem s s (Self s) 4) (λ a t1 h1.
          then_advanced s (from_user a (max_filename_length + 1)) _ t1
            (from_user_lem s t1 h1 a (max_filename_length + 1))
            (λ name t2 h2.
              then_advanced s (sys_remove services name) _ t2 (sys_remove_lem t2 name h2)
                (λ r t3 h3.
                  then_advanced s (put_reg 2 r) _ t3 (write_register_lem s t3 h3 r)
                    (λ _ t4 h4. increase_pc_lem s t4 h4))))

    pub handle_exec-Advances : Ends (Advanced s) (handle_exec services s)
    unfolding handle_exec
    handle_exec-Advances =
        then_advanced s (get_reg 4) _ s (read_register_lem s s (Self s) 4) (λ a t1 h1.
          then_advanced s (from_user a (max_filename_length + 1)) _ t1
            (from_user_lem s t1 h1 a (max_filename_length + 1))
            (λ name t2 h2.
              then_advanced s (sys_exec services name) _ t2 (sys_exec_lem t2 name h2)
                (λ _ t3 h3. increase_pc_lem s t3 h3)))

    pub handle_join-Advances : Ends (Advanced s) (handle_join services s)
    unfolding handle_join
    handle_join-Advances =
        then_advanced s (get_reg 4) _ s (read_register_lem s s (Self s) 4) (λ pid t1 h1.
          then_advanced s (call (join_update pid)) _ t1 (call_lem s (ℕ) (join_update pid) t1 h1)
            (λ r t2 h2.
              then_advanced s (put_reg 2 r) _ t2 (write_register_lem s t2 h2 r)
                (λ _ t3 h3. increase_pc_lem s t3 h3)))

    pub handle_exit-Advances : Ends (Advanced s) (handle_exit services s)
    unfolding handle_exit sys_exit
    handle_exit-Advances =
        then_advanced s (get_reg 4) _ s (read_register_lem s s (Self s) 4) (λ code t1 h1.
          then_advanced s (sys_exit services code) _ t1 (tt) (λ _ t2 h2. increase_pc_lem s t2 h2))

    pub handle_get_pid-Advances : Ends (Advanced s) (handle_get_pid services s)
    unfolding handle_get_pid
    handle_get_pid-Advances =
        then_advanced s (call (λ k. (process_id k, k))) _ s
          (call_lem s (ℕ) (λ k. (process_id k, k)) s (Self s))
          (λ r t1 h1.
            then_advanced s (put_reg 2 r) _ t1 (write_register_lem s t1 h1 r)
              (λ _ t2 h2. increase_pc_lem s t2 h2))

    pub handle_create_semaphore-Advances : Ends (Advanced s) (handle_create_semaphore services s)
    unfolding handle_create_semaphore
    handle_create_semaphore-Advances =
        then_advanced s (get_reg 4) _ s (read_register_lem s s (Self s) 4) (λ a t1 h1.
          then_advanced s (get_reg 5) _ t1 (read_register_lem s t1 h1 5) (λ v t2 h2.
            then_advanced s (from_user a (max_filename_length + 1)) _ t2
              (from_user_lem s t2 h2 a (max_filename_length + 1))
              (λ name t3 h3.
                then_advanced s (call (create_semaphore name v)) _ t3
                  (call_lem s (ℕ) (create_semaphore name v) t3 h3)
                  (λ r t4 h4.
                    then_advanced s (put_reg 2 r) _ t4 (write_register_lem s t4 h4 r)
                      (λ _ t5 h5. increase_pc_lem s t5 h5)))))

    pub handle_wait-Advances : Ends (Advanced s) (handle_wait services s)
    unfolding handle_wait
    handle_wait-Advances =
        then_advanced s (get_reg 4) _ s (read_register_lem s s (Self s) 4) (λ a t1 h1.
          then_advanced s (from_user a (max_filename_length + 1)) _ t1
            (from_user_lem s t1 h1 a (max_filename_length + 1))
            (λ name t2 h2.
              then_advanced s (call (wait name)) _ t2 (call_lem s (ℕ) (wait name) t2 h2) (λ r t3 h3.
                then_advanced s (put_reg 2 r) _ t3 (write_register_lem s t3 h3 r)
                  (λ _ t4 h4. increase_pc_lem s t4 h4))))

    pub handle_signal-Advances : Ends (Advanced s) (handle_signal services s)
    unfolding handle_signal
    handle_signal-Advances =
        then_advanced s (get_reg 4) _ s (read_register_lem s s (Self s) 4) (λ a t1 h1.
          then_advanced s (from_user a (max_filename_length + 1)) _ t1
            (from_user_lem s t1 h1 a (max_filename_length + 1))
            (λ name t2 h2.
              then_advanced s (call (signal name)) _ t2 (call_lem s (ℕ) (signal name) t2 h2)
                (λ r t3 h3.
                  then_advanced s (put_reg 2 r) _ t3 (write_register_lem s t3 h3 r)
                    (λ _ t4 h4. increase_pc_lem s t4 h4))))
