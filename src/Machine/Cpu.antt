-- ===== src/Machine/Cpu.antt =====
-- `Machine::OneInstruction` of NachOS-4.0/code/machine/mipssim.cc, built with SIM_FIX as the Makefile has it.
-- The children have one function for each case of its `switch`; a case that falls through to the
-- next is composed with it. The debug output under DEBUG flags is left out.
pub mod Locals
pub mod Alu
pub mod Transfer
pub mod LoadStore
pub mod Frame
pub mod Overflow
use hcmus_csc10007_operating.Common.{ℕ, true, false}
use hcmus_csc10007_operating.Common.Word.{add32}
use hcmus_csc10007_operating.Machine.State.{
  Machine, Outcome, done, trap, abort, M, ◌>>=◌, set_register, delayed_load, pc_reg, next_pc_reg,
  prev_pc_reg,
}
use hcmus_csc10007_operating.Machine.Decode.{OpCode, Instruction, decode}
use hcmus_csc10007_operating.Machine.Memory.{read_mem}
use Locals.{Effects}
use Alu.{
  exec_add, exec_addi, exec_addiu, exec_addu, exec_and, exec_andi, exec_div, exec_divu, exec_lui,
  exec_mfhi, exec_mflo, exec_mthi, exec_mtlo, exec_mult, exec_nor, exec_or, exec_ori, exec_sll,
  exec_sllv, exec_slt, exec_slti, exec_sltiu, exec_sltu, exec_sra, exec_srav, exec_srl, exec_srlv,
  exec_sub, exec_subu, exec_xor, exec_xori,
}
use Transfer.{
  exec_beq, exec_bgez, exec_bgezal, exec_bgtz, exec_blez, exec_bltz, exec_bltzal, exec_bne, exec_j,
  exec_jal, exec_jr, exec_jalr, exec_syscall, exec_illegal,
}
use LoadStore.{exec_lb, exec_lh, exec_lw, exec_lwl, exec_lwr, exec_store, exec_swl, exec_swr}

-- The `switch` on `instr->opCode`; its default is `ASSERT(FALSE)`.
unfoldable pub execute : OpCode → Instruction → Effects → M Effects
execute OpCode.op_add i p m = exec_add i p m
execute OpCode.op_addi i p m = exec_addi i p m
execute OpCode.op_addiu i p m = exec_addiu i p m
execute OpCode.op_addu i p m = exec_addu i p m
execute OpCode.op_and i p m = exec_and i p m
execute OpCode.op_andi i p m = exec_andi i p m
execute OpCode.op_beq i p m = exec_beq i p m
execute OpCode.op_bgez i p m = exec_bgez i p m
execute OpCode.op_bgezal i p m = exec_bgezal i p m
execute OpCode.op_bgtz i p m = exec_bgtz i p m
execute OpCode.op_blez i p m = exec_blez i p m
execute OpCode.op_bltz i p m = exec_bltz i p m
execute OpCode.op_bltzal i p m = exec_bltzal i p m
execute OpCode.op_bne i p m = exec_bne i p m
execute OpCode.op_div i p m = exec_div i p m
execute OpCode.op_divu i p m = exec_divu i p m
execute OpCode.op_j i p m = exec_j i p m
execute OpCode.op_jal i p m = exec_jal i p m
execute OpCode.op_jalr i p m = exec_jalr i p m
execute OpCode.op_jr i p m = exec_jr i p m
execute OpCode.op_lb i p m = exec_lb true i p m
execute OpCode.op_lbu i p m = exec_lb false i p m
execute OpCode.op_lh i p m = exec_lh true i p m
execute OpCode.op_lhu i p m = exec_lh false i p m
execute OpCode.op_lui i p m = exec_lui i p m
execute OpCode.op_lw i p m = exec_lw i p m
execute OpCode.op_lwl i p m = exec_lwl i p m
execute OpCode.op_lwr i p m = exec_lwr i p m
execute OpCode.op_mfhi i p m = exec_mfhi i p m
execute OpCode.op_mflo i p m = exec_mflo i p m
execute OpCode.op_mthi i p m = exec_mthi i p m
execute OpCode.op_mtlo i p m = exec_mtlo i p m
execute OpCode.op_mult i p m = exec_mult true i p m
execute OpCode.op_multu i p m = exec_mult false i p m
execute OpCode.op_nor i p m = exec_nor i p m
execute OpCode.op_or i p m = exec_or i p m
execute OpCode.op_ori i p m = exec_ori i p m
execute OpCode.op_rfe i p m = abort
execute OpCode.op_sb i p m = exec_store 1 i p m
execute OpCode.op_sh i p m = exec_store 2 i p m
execute OpCode.op_sll i p m = exec_sll i p m
execute OpCode.op_sllv i p m = exec_sllv i p m
execute OpCode.op_slt i p m = exec_slt i p m
execute OpCode.op_slti i p m = exec_slti i p m
execute OpCode.op_sltiu i p m = exec_sltiu i p m
execute OpCode.op_sltu i p m = exec_sltu i p m
execute OpCode.op_sra i p m = exec_sra i p m
execute OpCode.op_srav i p m = exec_srav i p m
execute OpCode.op_srl i p m = exec_srl i p m
execute OpCode.op_srlv i p m = exec_srlv i p m
execute OpCode.op_sub i p m = exec_sub i p m
execute OpCode.op_subu i p m = exec_subu i p m
execute OpCode.op_sw i p m = exec_store 4 i p m
execute OpCode.op_swl i p m = exec_swl i p m
execute OpCode.op_swr i p m = exec_swr i p m
execute OpCode.op_xor i p m = exec_xor i p m
execute OpCode.op_xori i p m = exec_xori i p m
execute OpCode.op_syscall i p m = exec_syscall i p m
execute OpCode.op_unimp i p m = exec_illegal i p m
execute OpCode.op_res i p m = exec_illegal i p m
execute OpCode.special i p m = abort
execute OpCode.bcond i p m = abort

-- What follows the `switch`: the pending load comes in, and the program counters move on.
unfoldable pub finish : Effects → M (Unit {0})
finish p m =
    let m1 = delayed_load p.next_load_reg p.next_load_value m in
    let m2 = set_register m1 prev_pc_reg (m1.registers pc_reg) in
    let m3 = set_register m2 pc_reg (m2.registers next_pc_reg) in
    done tt (set_register m3 next_pc_reg p.pc_after)

-- The locals as they are initialised before the `switch`.
abbrev pub initial : Machine → Effects
initial m = record {
  pc_after = add32 (m.registers next_pc_reg) 4;
  next_load_reg = 0;
  next_load_value = 0;
}

unfoldable pub execute_raw : ℕ → M (Unit {0})
execute_raw raw m = (execute (decode raw).op_code (decode raw) (initial m) >>= finish) m

-- `Machine::OneInstruction`.
unfoldable pub one_instruction : M (Unit {0})
one_instruction m = (read_mem (m.registers pc_reg) 4 >>= execute_raw) m
