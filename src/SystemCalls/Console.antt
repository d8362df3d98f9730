-- ===== src/SystemCalls/Console.antt =====
-- NachOS-4.0/code/userprog/exception.cc: the handlers of the calls on the console.
use hcmus_csc10007_operating.Common.{◌%◌, [], ◌∷◌}
use hcmus_csc10007_operating.Machine.Memory.{char_value}
use hcmus_csc10007_operating.SystemCalls.State.{System, get_reg, put_reg}
use hcmus_csc10007_operating.SystemCalls.Calls.{
  sys_add, from_user, to_user, put_output, get_char, read_num, print_num, take_string, print_string,
  handle_add, handle_read_num, handle_print_num, handle_read_char, handle_print_char,
  handle_read_string, handle_print_string,
}
use hcmus_csc10007_operating.SystemCalls.Frame.{
  Ends, Advanced, read_register_lem, from_user_lem, to_user_lem, write_register_lem,
  increase_pc_lem,
}
use hcmus_csc10007_operating.SystemCalls.Parts.{
  Self, put_chars_lem, get_char_lem, read_num_lem, read_string_lem, print_num_lem, print_string_lem,
  then_advanced,
}

module _ {K : Type 0} (s : System K) where
  pub handle_add-Advances : Ends (Advanced s) (handle_add s)
  unfolding handle_add
  handle_add-Advances =
      then_advanced s (get_reg 4) _ s (read_register_lem s s (Self s) 4) (λ a t1 h1.
        then_advanced s (get_reg 5) _ t1 (read_register_lem s t1 h1 5) (λ b t2 h2.
          then_advanced s (put_reg 2 (sys_add a b)) _ t2 (write_register_lem s t2 h2 (sys_add a b))
            (λ _ t3 h3. increase_pc_lem s t3 h3)))

  pub handle_read_num-Advances : Ends (Advanced s) (handle_read_num s)
  unfolding handle_read_num
  handle_read_num-Advances = then_advanced s (read_num) _ s (read_num_lem s s (Self s)) (λ n t1 h1.
      then_advanced s (put_reg 2 n) _ t1 (write_register_lem s t1 h1 n)
        (λ _ t2 h2. increase_pc_lem s t2 h2))

  pub handle_print_num-Advances : Ends (Advanced s) (handle_print_num s)
  unfolding handle_print_num
  handle_print_num-Advances =
      then_advanced s (get_reg 4) _ s (read_register_lem s s (Self s) 4) (λ n t1 h1.
        then_advanced s (print_num n) _ t1 (print_num_lem s t1 n h1)
          (λ _ t2 h2. increase_pc_lem s t2 h2))

  pub handle_read_char-Advances : Ends (Advanced s) (handle_read_char s)
  unfolding handle_read_char
  handle_read_char-Advances = then_advanced s (get_char) _ s (get_char_lem s s (Self s)) (λ c t1 h1.
      then_advanced s (put_reg 2 (char_value c)) _ t1 (write_register_lem s t1 h1 (char_value c))
        (λ _ t2 h2. increase_pc_lem s t2 h2))

  pub handle_print_char-Advances : Ends (Advanced s) (handle_print_char s)
  unfolding handle_print_char
  handle_print_char-Advances =
      then_advanced s (get_reg 4) _ s (read_register_lem s s (Self s) 4) (λ c t1 h1.
        then_advanced s (put_output (c % 256 ∷ [])) _ t1 (put_chars_lem s t1 (c % 256 ∷ []) h1)
          (λ _ t2 h2. increase_pc_lem s t2 h2))

  pub handle_read_string-Advances : Ends (Advanced s) (handle_read_string s)
  unfolding handle_read_string
  handle_read_string-Advances =
      then_advanced s (get_reg 4) _ s (read_register_lem s s (Self s) 4) (λ a t1 h1.
        then_advanced s (get_reg 5) _ t1 (read_register_lem s t1 h1 5) (λ n t2 h2.
          then_advanced s (from_user a n) _ t2 (from_user_lem s t2 h2 a n) (λ buf t3 h3.
            then_advanced s (take_string buf n) _ t3 (read_string_lem s t3 buf n h3) (λ buf2 t4 h4.
              then_advanced s (to_user a n buf2) _ t4 (to_user_lem s t4 h4 a n buf2)
                (λ _ t5 h5. increase_pc_lem s t5 h5)))))

  pub handle_print_string-Advances : Ends (Advanced s) (handle_print_string s)
  unfolding handle_print_string
  handle_print_string-Advances =
      then_advanced s (get_reg 4) _ s (read_register_lem s s (Self s) 4) (λ a t1 h1.
        then_advanced s (from_user a 255) _ t1 (from_user_lem s t1 h1 a 255) (λ buf t2 h2.
          then_advanced s (print_string buf 256) _ t2 (print_string_lem s t2 buf 256 h2)
            (λ _ t3 h3. increase_pc_lem s t3 h3)))
