-- ===== src/Machine/Cpu/Frame.antt =====
-- What every instruction keeps (`Machine::OneInstruction`, NachOS-4.0/code/machine/mipssim.cc).
mod Rules
mod Alu
mod Transfer
mod LoadStore
use hcmus_csc10007_operating.Common.{ℕ, ◌≤◌, ◌<◌, ◌≡◌, refl, ◌∙◌, ap, true, false, arith, bit_and}
use hcmus_csc10007_operating.Common.Word.{shr32}
use hcmus_csc10007_operating.Common.Bits.{and-ones}
use hcmus_csc10007_operating.Machine.State.{
  ExceptionType, Machine, Outcome, done, trap, abort, ◌>>=◌, delayed_load, pc_reg, next_pc_reg,
  prev_pc_reg, load_reg,
}
use hcmus_csc10007_operating.Machine.Decode.{OpCode, Instruction, decode}
use hcmus_csc10007_operating.Machine.Memory.{read_mem}
use hcmus_csc10007_operating.Machine.Memory.Registers.{
  Leaves, kept, trapped, aborted, read_mem-registers,
}
use hcmus_csc10007_operating.Machine.Cpu.Locals.{Effects}
use hcmus_csc10007_operating.Machine.Cpu.{execute, execute_raw, one_instruction, finish, initial}
use Rules.{Framed, runs, traps, aborts, SameHigh}
use Alu
use Transfer
use LoadStore

module _ (i : Instruction) (p : Effects) (m : Machine) (rd : i.rd < 32) (rt : i.rt < 32)
    (n : p.next_load_reg < 32) where
  execute-Framed : (op : OpCode) → Framed m (execute op i p m)
  unfolding execute
  execute-Framed OpCode.op_add = Alu.add-Framed i p m rd rt n
  execute-Framed OpCode.op_addi = Alu.addi-Framed i p m rd rt n
  execute-Framed OpCode.op_addiu = Alu.addiu-Framed i p m rd rt n
  execute-Framed OpCode.op_addu = Alu.addu-Framed i p m rd rt n
  execute-Framed OpCode.op_and = Alu.and-Framed i p m rd rt n
  execute-Framed OpCode.op_andi = Alu.andi-Framed i p m rd rt n
  execute-Framed OpCode.op_beq = Transfer.beq-Framed i p n m
  execute-Framed OpCode.op_bgez = Transfer.bgez-Framed i p n m
  execute-Framed OpCode.op_bgezal = Transfer.bgezal-Framed i p n m
  execute-Framed OpCode.op_bgtz = Transfer.bgtz-Framed i p n m
  execute-Framed OpCode.op_blez = Transfer.blez-Framed i p n m
  execute-Framed OpCode.op_bltz = Transfer.bltz-Framed i p n m
  execute-Framed OpCode.op_bltzal = Transfer.bltzal-Framed i p n m
  execute-Framed OpCode.op_bne = Transfer.bne-Framed i p n m
  execute-Framed OpCode.op_div = Alu.div-Framed i p m rd rt n
  execute-Framed OpCode.op_divu = Alu.divu-Framed i p m rd rt n
  execute-Framed OpCode.op_j = Transfer.j-Framed i p n m
  execute-Framed OpCode.op_jal = Transfer.jal-Framed i p n m
  execute-Framed OpCode.op_jalr = Transfer.jalr-Framed i p n m rd
  execute-Framed OpCode.op_jr = Transfer.jr-Framed i p n m
  execute-Framed OpCode.op_lb = LoadStore.lb-Framed i p m rt n true
  execute-Framed OpCode.op_lbu = LoadStore.lb-Framed i p m rt n false
  execute-Framed OpCode.op_lh = LoadStore.lh-Framed i p m rt n true
  execute-Framed OpCode.op_lhu = LoadStore.lh-Framed i p m rt n false
  execute-Framed OpCode.op_lui = Alu.lui-Framed i p m rd rt n
  execute-Framed OpCode.op_lw = LoadStore.lw-Framed i p m rt n
  execute-Framed OpCode.op_lwl = LoadStore.lwl-Framed i p m rt n
  execute-Framed OpCode.op_lwr = LoadStore.lwr-Framed i p m rt n
  execute-Framed OpCode.op_mfhi = Alu.mfhi-Framed i p m rd rt n
  execute-Framed OpCode.op_mflo = Alu.mflo-Framed i p m rd rt n
  execute-Framed OpCode.op_mthi = Alu.mthi-Framed i p m rd rt n
  execute-Framed OpCode.op_mtlo = Alu.mtlo-Framed i p m rd rt n
  execute-Framed OpCode.op_mult = Alu.mult-Framed i p m rd rt n true
  execute-Framed OpCode.op_multu = Alu.mult-Framed i p m rd rt n false
  execute-Framed OpCode.op_nor = Alu.nor-Framed i p m rd rt n
  execute-Framed OpCode.op_or = Alu.or-Framed i p m rd rt n
  execute-Framed OpCode.op_ori = Alu.ori-Framed i p m rd rt n
  execute-Framed OpCode.op_sb = LoadStore.store-Framed i p m rt n 1
  execute-Framed OpCode.op_sh = LoadStore.store-Framed i p m rt n 2
  execute-Framed OpCode.op_sll = Alu.sll-Framed i p m rd rt n
  execute-Framed OpCode.op_sllv = Alu.sllv-Framed i p m rd rt n
  execute-Framed OpCode.op_slt = Alu.slt-Framed i p m rd rt n
  execute-Framed OpCode.op_slti = Alu.slti-Framed i p m rd rt n
  execute-Framed OpCode.op_sltiu = Alu.sltiu-Framed i p m rd rt n
  execute-Framed OpCode.op_sltu = Alu.sltu-Framed i p m rd rt n
  execute-Framed OpCode.op_sra = Alu.sra-Framed i p m rd rt n
  execute-Framed OpCode.op_srav = Alu.srav-Framed i p m rd rt n
  execute-Framed OpCode.op_srl = Alu.srl-Framed i p m rd rt n
  execute-Framed OpCode.op_srlv = Alu.srlv-Framed i p m rd rt n
  execute-Framed OpCode.op_sub = Alu.sub-Framed i p m rd rt n
  execute-Framed OpCode.op_subu = Alu.subu-Framed i p m rd rt n
  execute-Framed OpCode.op_sw = LoadStore.store-Framed i p m rt n 4
  execute-Framed OpCode.op_swl = LoadStore.swl-Framed i p m rt n
  execute-Framed OpCode.op_swr = LoadStore.swr-Framed i p m rt n
  execute-Framed OpCode.op_xor = Alu.xor-Framed i p m rd rt n
  execute-Framed OpCode.op_xori = Alu.xori-Framed i p m rd rt n
  execute-Framed OpCode.op_syscall = Transfer.syscall-Framed i p n m
  execute-Framed OpCode.op_unimp = Transfer.illegal-Framed i p n m
  execute-Framed OpCode.op_res = Transfer.illegal-Framed i p n m
  execute-Framed OpCode.op_rfe = aborts
  execute-Framed OpCode.special = aborts
  execute-Framed OpCode.bcond = aborts

decode_registers : (raw : ℕ) → ((decode raw).rd < 32) × ((decode raw).rt < 32)
unfolding decode
decode_registers raw =
    (omega (arith, and-ones 5 (shr32 raw 11)), omega (arith, and-ones 5 (shr32 raw 16)))

-- How an instruction may end.
pub data Stepped (m : Machine) : Outcome (Unit {0}) → Type 0 where
  retired :
      (m' : Machine)
      → m'.registers pc_reg ≡ m.registers next_pc_reg
      → m'.registers prev_pc_reg ≡ m.registers pc_reg
      → m'.registers 0 ≡ 0
      → m'.registers load_reg < 32
      → Stepped m (done tt m')
  excepted : (e : ExceptionType) (m' : Machine) → m'.registers 0 ≡ 0 → Stepped m (trap e m')
  stopped : Stepped m abort

-- Where 32 registers and the target of the pending load are apart from the program counters,
-- `finish` moves these on.
finish-Stepped :
    (m m' : Machine) (p : Effects)
    → m.registers load_reg < 32
    → SameHigh m m'
    → p.next_load_reg < 32
    → Stepped m (finish p m')
unfolding finish delayed_load
finish-Stepped m m' p l s n =
    retired _ (ground (arith, s next_pc_reg (omega arith), s load_reg (omega arith)))
      (ground (arith, s pc_reg (omega arith), s load_reg (omega arith))) (ground arith)
      (ground arith)

bind-Stepped :
    (m : Machine) {o : Outcome Effects}
    → m.registers load_reg < 32
    → Framed m o
    → Stepped m (elim o [ done a s ↦ finish a s | trap e s ↦ trap e s | abort ↦ abort ])
bind-Stepped m l (runs p m' s n) = finish-Stepped m m' p l s n
bind-Stepped m l (traps e m' z) = excepted e m' z
bind-Stepped m l aborts = stopped

execute_raw-Stepped :
    (raw : ℕ) (m : Machine) → m.registers load_reg < 32 → Stepped m (execute_raw raw m)
unfolding execute_raw
execute_raw-Stepped raw m l =
    let (rd, rt) = decode_registers raw in
    bind-Stepped m l
      (execute-Framed (decode raw) (initial m) m rd rt (omega arith) (decode raw).op_code)

Stepped-same :
    (m m' : Machine) {o : Outcome (Unit {0})}
    → m'.registers ≡ m.registers
    → Stepped m' o
    → Stepped m o
Stepped-same m m' e (retired m2 a b c d) =
    retired m2 (a ∙ ap (λ (f : ℕ → ℕ). f next_pc_reg) e) (b ∙ ap (λ (f : ℕ → ℕ). f pc_reg) e) c d
Stepped-same m m' e (excepted x m2 z) = excepted x m2 z
Stepped-same m m' e stopped = stopped

fetch-Stepped :
    (m : Machine) {o : Outcome ℕ}
    → m.registers load_reg < 32
    → Leaves m o
    → Stepped m (elim o [ done a s ↦ execute_raw a s | trap e s ↦ trap e s | abort ↦ abort ])
fetch-Stepped m l (kept raw m' e) = Stepped-same m m' e (execute_raw-Stepped raw m' (rw e l))
fetch-Stepped m l (trapped e m' z) = excepted e m' z
fetch-Stepped m l aborted = stopped

-- Whatever word is fetched and whatever it does: an instruction that retires moves the program
-- counters on by one place (PrevPC takes PC, PC takes NextPC, so a branch acts one instruction
-- late), one that retires or traps leaves R0 zero, and the target of the next delayed load is
-- again a general register, as it was before.
pub one_instruction-Stepped :
    (m : Machine) → m.registers load_reg < 32 → Stepped m (one_instruction m)
unfolding one_instruction
one_instruction-Stepped m l = fetch-Stepped m l (read_mem-registers (m.registers pc_reg) 4 m)
