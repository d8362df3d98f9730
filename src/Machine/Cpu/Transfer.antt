-- ===== src/Machine/Cpu/Transfer.antt =====
-- Branch, jump and trap cases of `OneInstruction` (NachOS-4.0/code/machine/mipssim.cc).
use hcmus_csc10007_operating.Common.{ℕ, Bool, not, ◌==◌, if◌then◌else◌, bit_and, bit_or}
use hcmus_csc10007_operating.Common.Word.{add32, shl32, truthy, lt_signed, sign_bit}
use hcmus_csc10007_operating.Machine.State.{
  Machine, M, done, set_register, next_pc_reg, ret_addr_reg, raise_exception, syscall_exception,
  illegal_instr_exception,
}
use hcmus_csc10007_operating.Machine.Decode.{Instruction}
use hcmus_csc10007_operating.Machine.Cpu.Locals.{Effects, go_to}

-- `IndexToAddr`.
abbrev pub index_to_addr : ℕ → ℕ
index_to_addr x = shl32 x 2

-- `if (taken) pcAfter = registers[NextPCReg] + IndexToAddr(instr->extra);`
unfoldable pub branch : Bool → Instruction → Effects → M Effects
branch taken i p m =
    if taken then go_to (add32 (m.registers next_pc_reg) (index_to_addr i.extra)) p m else done p m

-- `registers[R31] = registers[NextPCReg] + 4;`
abbrev pub link : ℕ → Machine → Machine
link r m = set_register m r (add32 (m.registers next_pc_reg) 4)

unfoldable pub exec_beq : Instruction → Effects → M Effects
unfolding branch
exec_beq i p m = branch (m.registers i.rs == m.registers i.rt) i p m

unfoldable pub exec_bgez : Instruction → Effects → M Effects
exec_bgez i p m = branch (not (truthy (bit_and (m.registers i.rs) sign_bit))) i p m

unfoldable pub exec_bgezal : Instruction → Effects → M Effects
exec_bgezal i p m = exec_bgez i p (link ret_addr_reg m)

unfoldable pub exec_bgtz : Instruction → Effects → M Effects
exec_bgtz i p m = branch (lt_signed 0 (m.registers i.rs)) i p m

unfoldable pub exec_blez : Instruction → Effects → M Effects
exec_blez i p m = branch (not (lt_signed 0 (m.registers i.rs))) i p m

unfoldable pub exec_bltz : Instruction → Effects → M Effects
exec_bltz i p m = branch (truthy (bit_and (m.registers i.rs) sign_bit)) i p m

unfoldable pub exec_bltzal : Instruction → Effects → M Effects
exec_bltzal i p m = exec_bltz i p (link ret_addr_reg m)

unfoldable pub exec_bne : Instruction → Effects → M Effects
exec_bne i p m = branch (not (m.registers i.rs == m.registers i.rt)) i p m

unfoldable pub exec_j : Instruction → Effects → M Effects
exec_j i p m = go_to (bit_or (bit_and p.pc_after 0xf0000000) (index_to_addr i.extra)) p m

unfoldable pub exec_jal : Instruction → Effects → M Effects
exec_jal i p m = exec_j i p (link ret_addr_reg m)

unfoldable pub exec_jr : Instruction → Effects → M Effects
exec_jr i p m = go_to (m.registers i.rs) p m

unfoldable pub exec_jalr : Instruction → Effects → M Effects
exec_jalr i p m = exec_jr i p (link i.rd m)

unfoldable pub exec_syscall : Instruction → Effects → M Effects
exec_syscall i p m = raise_exception syscall_exception 0 m

unfoldable pub exec_illegal : Instruction → Effects → M Effects
exec_illegal i p m = raise_exception illegal_instr_exception 0 m
