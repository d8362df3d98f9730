-- ===== src/SystemCalls/Parts.antt =====
-- NachOS-4.0/code/userprog/exception.cc: the parts of the handlers leave every register alone but R2.
use hcmus_csc10007_operating.Common.{
  ℕ, refl, if◌then◌else◌, Bool, true, false, Option, none, some, List, [], ◌∷◌,
}
use hcmus_csc10007_operating.Numbers.{sys_read_num, sys_print_num}
use hcmus_csc10007_operating.SystemCalls.State.{Buffer, System, returned, waiting, fault, S, ◌>>=◌}
use hcmus_csc10007_operating.SystemCalls.Calls.{
  sys_read_string, chars_from, put_output, call, get_char, read_num, print_num, take_string,
  print_string,
}
use hcmus_csc10007_operating.SystemCalls.Frame.{Ends, Kept, Advanced, bind}

module _ {K : Type 0} (s : System K) where
  abbrev pub Self : Kept s s
  Self = λ r ne. refl

  -- The parts that do not touch the machine.
  pub put_chars_lem : (t : System K) (cs : List ℕ) → Kept s t → Ends (Kept s) (put_output cs t)
  put_chars_lem t cs h = h

  pub call_lem : (A : Type 0) (f : K → A × K) (t : System K) → Kept s t → Ends (Kept s) (call f t)
  call_lem A f t h = h

  pub get_char_lem : (t : System K) → Kept s t → Ends (Kept s) (get_char t)
  unfolding get_char
  get_char_lem t h = go t.input
    where
      go :
          (cs : List ℕ)
          → Ends (Kept s) (elim cs [ [] ↦ waiting | c ∷ cs ↦ returned c (record t { input = cs }) ])
      go [] = tt
      go (c ∷ cs) = h

  pub read_num_lem : (t : System K) → Kept s t → Ends (Kept s) (read_num t)
  unfolding read_num
  read_num_lem t h = go (sys_read_num t.input)
    where
      go :
          (o : Option (ℕ × List ℕ))
          → Ends
              (Kept s)
              (elim o [ none ↦ waiting | some r ↦ returned r.0 (record t { input = r.1 }) ])
      go none = tt
      go (some r) = h

  pub read_string_lem :
      (t : System K) (buffer : Buffer) (length : ℕ)
      → Kept s t
      → Ends (Kept s) (take_string buffer length t)
  unfolding take_string
  read_string_lem t buffer length h = go (sys_read_string buffer length t.input)
    where
      go :
          (o : Option (Buffer × List ℕ))
          → Ends
              (Kept s)
              (elim o [ none ↦ waiting | some r ↦ returned r.0 (record t { input = r.1 }) ])
      go none = tt
      go (some r) = h

  pub put_some_lem :
      (o : Option (List ℕ)) (t : System K)
      → Kept s t
      → Ends (Kept s) (elim o [ none ↦ fault | some cs ↦ put_output cs t ])
  put_some_lem none t h = tt
  put_some_lem (some cs) t h = h

  pub print_num_lem : (t : System K) (n : ℕ) → Kept s t → Ends (Kept s) (print_num n t)
  unfolding print_num
  print_num_lem t n h = put_some_lem (sys_print_num n) t h

  pub print_string_lem :
      (t : System K) (buffer : Buffer) (size : ℕ)
      → Kept s t
      → Ends (Kept s) (print_string buffer size t)
  unfolding print_string
  print_string_lem t buffer size h = put_some_lem (chars_from size 0 buffer) t h

  pub if_lem :
      {A : Type 0} (b : Bool) (x y : S K A) (t : System K)
      → Ends (Kept s) (x t)
      → Ends (Kept s) (y t)
      → Ends (Kept s) ((if b then x else y) t)
  if_lem true x y t h k = h
  if_lem false x y t h k = k

  -- A part of a handler, and the rest of it.
  abbrev pub then_kept :
      {A B : Type 0} (m : S K A) (f : A → S K B) (t : System K)
      → Ends (Kept s) (m t)
      → ((a : A) (u : System K) → Kept s u → Ends (Kept s) (f a u))
      → Ends (Kept s) ((m >>= f) t)
  then_kept m f t = bind (Kept s) (Kept s) m f t

  abbrev pub then_advanced :
      {A B : Type 0} (m : S K A) (f : A → S K B) (t : System K)
      → Ends (Kept s) (m t)
      → ((a : A) (u : System K) → Kept s u → Ends (Advanced s) (f a u))
      → Ends (Advanced s) ((m >>= f) t)
  then_advanced m f t = bind (Kept s) (Advanced s) m f t
