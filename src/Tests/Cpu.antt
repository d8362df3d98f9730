-- ===== src/Tests/Cpu.antt =====
-- The simulated machine (NachOS-4.0/code/machine) and the number system calls (NachOS-4.0/code/userprog/ksyscall.h) on
-- concrete inputs.
use hcmus_csc10007_operating.Common.{
  ℕ, ◌^◌, ◌<◌, ◌≡◌, ◌≢◌, ◌↔◌, refl, true, false, none, some, List, [], ◌∷◌, ◌++◌, arith, inr, ltb,
  ◌==◌, if◌then◌else◌,
}
use hcmus_csc10007_operating.Common.Word.{signed, shr32}
use hcmus_csc10007_operating.Common.Int.{◌+ℤ◌, ◌*ℤ◌}
use hcmus_csc10007_operating.Machine.State.{TranslationEntry, Machine, done, update}
use hcmus_csc10007_operating.Machine.Decode.{OpCode, Instruction}
use hcmus_csc10007_operating.Machine.Memory.{
  found, translate, translate_with, resolve, use_entry, mark_entry, misaligned, lookup_page,
  read_mem, write_mem, store_bytes,
}
use hcmus_csc10007_operating.Machine.Memory.Translation.{Hit, translate_found}
use hcmus_csc10007_operating.Machine.Memory.RoundTrip.{read-write}
use hcmus_csc10007_operating.Machine.Mult.{mult}
use hcmus_csc10007_operating.Machine.Mult.Product.{double}
use hcmus_csc10007_operating.Machine.Mult.Signed.{signed64, signed64-mult}
use hcmus_csc10007_operating.Machine.Cpu.{one_instruction, initial}
use hcmus_csc10007_operating.Machine.Cpu.Locals.{assign}
use hcmus_csc10007_operating.Machine.Cpu.Alu.{exec_add, exec_srl, exec_sra}
use hcmus_csc10007_operating.Machine.Cpu.Frame.{Stepped, one_instruction-Stepped}
use hcmus_csc10007_operating.Machine.Cpu.Overflow.{checked, exec_add-checked, exec_srl-ne-logical}
use hcmus_csc10007_operating.Numbers.{sys_read_num, sys_print_num}
use hcmus_csc10007_operating.Numbers.RoundTrip.{read-print}

abbrev page_3 : TranslationEntry
page_3 = record {
  virtual_page = 0;
  physical_page = 3;
  valid = true;
  read_only = false;
  used = false;
  dirty = false;
}

abbrev one_page : List TranslationEntry
one_page = page_3 ∷ []

-- Register 9 holds the greatest `int`, register 10 a negative one, and the others their number.
abbrev demo_registers : ℕ → ℕ
demo_registers r =
    if r == 9 then 0x7fffffff else if r == 10 then 0x80000010 else if ltb r 32 then r else 0

abbrev demo : Machine
demo = record {
  registers = demo_registers;
  main_memory = λ p. 0;
  tlb = none;
  page_table = some one_page;
  page_table_size = 1;
}

demo_words : (r : ℕ) → demo.registers r < 2 ^ 32
demo_words r = ground arith

abbrev add_9 : Instruction
add_9 = record { value = 0; op_code = OpCode.op_add; rs = 9; rt = 10; rd = 8; extra = 5 }

abbrev demo_read : Machine
demo_read = record demo { page_table = some (mark_entry false page_3 ∷ []) }

translate_found_example :
    (translate 8 4 false demo ≡ found 392 demo_read) ↔ Hit one_page 8 4 false demo 392 demo_read
translate_found_example = translate_found 8 4 false demo one_page 392 demo_read refl refl

abbrev demo_written : Machine
demo_written = record demo {
  page_table = some (mark_entry true page_3 ∷ []);
  main_memory = update (update (update (update (λ p. 0) 392 0x34) 393 0x12) 394 0) 395 0x80;
}

demo_write : write_mem 8 4 0x80001234 demo ≡ done tt demo_written
unfolding write_mem translate misaligned translate_with lookup_page resolve use_entry store_bytes
demo_write = refl

read-write_example : (m2 : Machine) × (read_mem 8 4 demo_written ≡ done 0x80001234 m2)
read-write_example =
    read-write 8 4 0x80001234 demo demo_written one_page (inr (inr refl)) (omega arith) refl refl
      demo_write

signed64-mult_example :
    signed64 (double (mult 0xffffffff 0x80000000 true)) ≡ signed 0xffffffff *ℤ signed 0x80000000
signed64-mult_example = signed64-mult 0xffffffff 0x80000000 (omega arith) (omega arith)

one_instruction-Stepped_example : Stepped demo (one_instruction demo)
one_instruction-Stepped_example = one_instruction-Stepped demo (omega arith)

exec_add-checked_example :
    exec_add add_9 (initial demo) demo
    ≡ checked (signed 0x7fffffff +ℤ signed 0x80000010) 8 (initial demo) demo
exec_add-checked_example = exec_add-checked add_9 (initial demo) demo demo_words

exec_srl-ne-logical_example :
    (exec_srl add_9 (initial demo) demo ≡ exec_sra add_9 (initial demo) demo)
    × (exec_srl add_9 (initial demo) demo ≢ assign 8 (shr32 0x80000010 5) (initial demo) demo)
exec_srl-ne-logical_example =
    exec_srl-ne-logical add_9 (initial demo) demo (omega arith) (omega arith) (omega arith)

read-print_example :
    (out : List ℕ) × (sys_print_num 0xffffff85 ≡ some out)
    × (sys_read_num (out ++ (10 ∷ 65 ∷ [])) ≡ some (0xffffff85, 65 ∷ []))
read-print_example = read-print 0xffffff85 (65 ∷ []) (omega arith) (λ e. omega arith)
