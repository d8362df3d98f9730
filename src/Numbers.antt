-- ===== src/Numbers.antt =====
-- NachOS-4.0/code/userprog/ksyscall.h: the system calls `SysReadNum` and `SysPrintNum`, on the characters
-- that the console delivers and takes.
--
-- An `int` is a 32-bit pattern and wraps around; a character is a byte. The input is the list of
-- characters still to be typed; on an empty list `GetChar` waits for ever, which is `none`.
pub mod RoundTrip
use hcmus_csc10007_operating.Common.{
  ℕ, zero, suc, ◌+◌, ◌-◌, ◌*◌, ◌/◌, ◌%◌, Bool, true, false, not, ◌&&◌, ◌||◌, Option, none, some,
  List, [], ◌∷◌, ◌++◌, leb, ◌==◌, if◌then◌else◌,
}
use hcmus_csc10007_operating.Common.Word.{word_mod, sub32}
use hcmus_csc10007_operating.Machine.Memory.{char_value}
use hcmus_csc10007_operating.Machine.Mult.{is_negative}
use hcmus_csc10007_operating.Machine.Cpu.Alu.{div_signed, rem_signed}

abbrev pub is_digit : ℕ → Bool
is_digit c = leb 48 c && leb c 57

-- `c == ' ' || c == '\n'`.
abbrev pub is_blank : ℕ → Bool
is_blank c = (c == 32) || (c == 10)

-- `num * 10 + c - '0'`, where `c` is a signed `char`.
abbrev pub next_num : ℕ → ℕ → ℕ
next_num num c = (num * 10 + char_value c + word_mod - 48) % word_mod

-- The first loop: the first character that is not blank, and the rest.
abbrev pub skip_blanks : List ℕ → Option (ℕ × List ℕ)
skip_blanks [] = none
skip_blanks (c ∷ cs) = let rest = skip_blanks cs in if is_blank c then rest else some (c, cs)

-- The second loop, entered with the character `c`, the number read so far, and `isInteger`.
unfoldable pub read_digits : ℕ → ℕ → Bool → List ℕ → Option (ℕ × Bool × List ℕ)
read_digits c num is_integer [] = none
read_digits c num is_integer (d ∷ cs) =
    let num' = next_num num c in
    let rest = read_digits d num' (is_integer && is_digit d) cs in
    if is_blank d then some (num', is_integer, cs) else rest

-- What follows the sign.
unfoldable pub read_magnitude : Bool → ℕ → List ℕ → Option (ℕ × List ℕ)
read_magnitude is_sign c cs = elim (read_digits c 0 (is_digit c) cs) [
  | some (num, is_integer, rest) ↦
      some ((if is_integer then (if is_sign then sub32 0 num else num) else 0), rest)
  | none ↦ none
]

unfoldable pub after_minus : List ℕ → Option (ℕ × List ℕ)
after_minus [] = none
after_minus (c ∷ cs) = if is_blank c then some (0, cs) else read_magnitude true c cs

unfoldable pub sys_read_num : List ℕ → Option (ℕ × List ℕ)
sys_read_num input = elim (skip_blanks input) [
  | some (c, cs) ↦ (if c == 45 then after_minus cs else read_magnitude false c cs)
  | none ↦ none
]

-- The loop that fills `arr`, whose length of ten is the fuel: `none` is a write past its end.
unfoldable pub collect : ℕ → ℕ → Option (List ℕ)
collect zero op1 = if op1 == 0 then some [] else none
collect (suc k) op1 =
    let rest = collect k (div_signed op1 10) in
    if op1 == 0
    then some []
    else elim rest [ some ds ↦ some (rem_signed op1 10 % 256 ∷ ds) | none ↦ none ]

-- The loop that prints `arr` from its end.
abbrev pub put_digits : List ℕ → List ℕ
put_digits [] = []
put_digits (d ∷ ds) = put_digits ds ++ ((48 + d) % 256 ∷ [])

abbrev pub put_magnitude : List ℕ → ℕ → Option (List ℕ)
put_magnitude sign op1 = elim (collect 10 op1) [
  | some ds ↦ some (sign ++ put_digits ds)
  | none ↦ none
]

unfoldable pub sys_print_num : ℕ → Option (List ℕ)
sys_print_num op1 =
    if op1 == 0
    then some (48 ∷ [])
    else if is_negative op1
    then put_magnitude (45 ∷ []) (sub32 0 op1)
    else put_magnitude [] op1
