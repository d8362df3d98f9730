-- ===== src/Machine/Cpu/Alu.antt =====
-- Arithmetic, logic, comparison and shift cases of `OneInstruction` (NachOS-4.0/code/machine/mipssim.cc).
-- A register or an immediate is a 32-bit pattern, so one function serves an instruction and its
-- immediate form where the source's two cases differ only in their operand.
use hcmus_csc10007_operating.Common.{
  ℕ, ◌/◌, ◌%◌, Bool, not, ◌&&◌, ◌==◌, ltb, xor, if◌then◌else◌, bit_and, bit_or, bit_xor,
}
use hcmus_csc10007_operating.Common.Word.{
  add32, sub32, not32, shl32, sar32, truthy, lt_signed, sign_bit,
}
use hcmus_csc10007_operating.Machine.State.{
  M, abort, set_register, hi_reg, lo_reg, raise_exception, overflow_exception,
}
use hcmus_csc10007_operating.Machine.Decode.{Instruction}
use hcmus_csc10007_operating.Machine.Mult.{mult, neg32, is_negative}
use hcmus_csc10007_operating.Machine.Cpu.Locals.{Effects, assign}

-- The conditions under which ADD, ADDI and SUB raise OverflowException.
unfoldable pub add_overflow : ℕ → ℕ → Bool
add_overflow a b =
    not (truthy (bit_and (bit_xor a b) sign_bit))
    && truthy (bit_and (bit_xor a (add32 a b)) sign_bit)

unfoldable pub addi_overflow : ℕ → ℕ → Bool
addi_overflow a extra =
    not (truthy (bit_and (bit_xor a extra) sign_bit))
    && truthy (bit_and (bit_xor extra (add32 a extra)) sign_bit)

unfoldable pub sub_overflow : ℕ → ℕ → Bool
sub_overflow a b =
    truthy (bit_and (bit_xor a b) sign_bit) && truthy (bit_and (bit_xor a (sub32 a b)) sign_bit)

unfoldable pub exec_add : Instruction → Effects → M Effects
exec_add i p m =
    if add_overflow (m.registers i.rs) (m.registers i.rt)
    then raise_exception overflow_exception 0 m
    else assign i.rd (add32 (m.registers i.rs) (m.registers i.rt)) p m

unfoldable pub exec_addi : Instruction → Effects → M Effects
exec_addi i p m =
    if addi_overflow (m.registers i.rs) i.extra
    then raise_exception overflow_exception 0 m
    else assign i.rt (add32 (m.registers i.rs) i.extra) p m

unfoldable pub exec_addiu : Instruction → Effects → M Effects
exec_addiu i p m = assign i.rt (add32 (m.registers i.rs) i.extra) p m

unfoldable pub exec_addu : Instruction → Effects → M Effects
exec_addu i p m = assign i.rd (add32 (m.registers i.rs) (m.registers i.rt)) p m

unfoldable pub exec_and : Instruction → Effects → M Effects
exec_and i p m = assign i.rd (bit_and (m.registers i.rs) (m.registers i.rt)) p m

unfoldable pub exec_andi : Instruction → Effects → M Effects
exec_andi i p m = assign i.rt (bit_and (m.registers i.rs) (bit_and i.extra 0xffff)) p m

-- `a / b` and `a % b` of `int`, which C truncates towards zero. The host traps where the quotient
-- of the most negative number by -1 does not fit.
unfoldable pub div_signed : ℕ → ℕ → ℕ
div_signed a b =
    let x = if is_negative a then neg32 a else a in
    let y = if is_negative b then neg32 b else b in
    if xor (is_negative a) (is_negative b) then neg32 (x / y) else x / y

unfoldable pub rem_signed : ℕ → ℕ → ℕ
rem_signed a b =
    let x = if is_negative a then neg32 a else a in
    let y = if is_negative b then neg32 b else b in if is_negative a then neg32 (x % y) else x % y

unfoldable pub exec_div : Instruction → Effects → M Effects
exec_div i p m =
    let a = m.registers i.rs in
    let b = m.registers i.rt in
    if b == 0
    then assign hi_reg 0 p (set_register m lo_reg 0)
    else if a == sign_bit && b == 0xffffffff
    then abort
    else assign hi_reg (rem_signed a b) p (set_register m lo_reg (div_signed a b))

unfoldable pub exec_divu : Instruction → Effects → M Effects
exec_divu i p m =
    let rs = m.registers i.rs in
    let rt = m.registers i.rt in
    if rt == 0
    then assign hi_reg 0 p (set_register m lo_reg 0)
    else assign hi_reg (rs % rt) p (set_register m lo_reg (rs / rt))

unfoldable pub exec_lui : Instruction → Effects → M Effects
exec_lui i p m = assign i.rt (shl32 i.extra 16) p m

unfoldable pub exec_mfhi : Instruction → Effects → M Effects
exec_mfhi i p m = assign i.rd (m.registers hi_reg) p m

unfoldable pub exec_mflo : Instruction → Effects → M Effects
exec_mflo i p m = assign i.rd (m.registers lo_reg) p m

unfoldable pub exec_mthi : Instruction → Effects → M Effects
exec_mthi i p m = assign hi_reg (m.registers i.rs) p m

unfoldable pub exec_mtlo : Instruction → Effects → M Effects
exec_mtlo i p m = assign lo_reg (m.registers i.rs) p m

-- `Mult` stores through `hiPtr` first.
unfoldable pub exec_mult : Bool → Instruction → Effects → M Effects
exec_mult signed_arith i p m =
    let result = mult (m.registers i.rs) (m.registers i.rt) signed_arith in
    assign lo_reg result.lo p (set_register m hi_reg result.hi)

unfoldable pub exec_nor : Instruction → Effects → M Effects
exec_nor i p m = assign i.rd (not32 (bit_or (m.registers i.rs) (m.registers i.rt))) p m

unfoldable pub exec_or : Instruction → Effects → M Effects
exec_or i p m = assign i.rd (bit_or (m.registers i.rs) (m.registers i.rt)) p m

unfoldable pub exec_ori : Instruction → Effects → M Effects
exec_ori i p m = assign i.rt (bit_or (m.registers i.rs) (bit_and i.extra 0xffff)) p m

unfoldable pub exec_sll : Instruction → Effects → M Effects
exec_sll i p m = assign i.rd (shl32 (m.registers i.rt) i.extra) p m

unfoldable pub exec_sllv : Instruction → Effects → M Effects
exec_sllv i p m = assign i.rd (shl32 (m.registers i.rt) (bit_and (m.registers i.rs) 0x1f)) p m

unfoldable pub exec_slt : Instruction → Effects → M Effects
exec_slt i p m = assign i.rd (if lt_signed (m.registers i.rs) (m.registers i.rt) then 1 else 0) p m

unfoldable pub exec_slti : Instruction → Effects → M Effects
exec_slti i p m = assign i.rt (if lt_signed (m.registers i.rs) i.extra then 1 else 0) p m

unfoldable pub exec_sltiu : Instruction → Effects → M Effects
exec_sltiu i p m = assign i.rt (if ltb (m.registers i.rs) i.extra then 1 else 0) p m

unfoldable pub exec_sltu : Instruction → Effects → M Effects
exec_sltu i p m = assign i.rd (if ltb (m.registers i.rs) (m.registers i.rt) then 1 else 0) p m

unfoldable pub exec_sra : Instruction → Effects → M Effects
exec_sra i p m = assign i.rd (sar32 (m.registers i.rt) i.extra) p m

unfoldable pub exec_srav : Instruction → Effects → M Effects
exec_srav i p m = assign i.rd (sar32 (m.registers i.rt) (bit_and (m.registers i.rs) 0x1f)) p m

-- `tmp`, which is shifted, is declared `int`.
unfoldable pub exec_srl : Instruction → Effects → M Effects
exec_srl i p m = assign i.rd (sar32 (m.registers i.rt) i.extra) p m

unfoldable pub exec_srlv : Instruction → Effects → M Effects
exec_srlv i p m = assign i.rd (sar32 (m.registers i.rt) (bit_and (m.registers i.rs) 0x1f)) p m

unfoldable pub exec_sub : Instruction → Effects → M Effects
exec_sub i p m =
    if sub_overflow (m.registers i.rs) (m.registers i.rt)
    then raise_exception overflow_exception 0 m
    else assign i.rd (sub32 (m.registers i.rs) (m.registers i.rt)) p m

unfoldable pub exec_subu : Instruction → Effects → M Effects
exec_subu i p m = assign i.rd (sub32 (m.registers i.rs) (m.registers i.rt)) p m

unfoldable pub exec_xor : Instruction → Effects → M Effects
exec_xor i p m = assign i.rd (bit_xor (m.registers i.rs) (m.registers i.rt)) p m

unfoldable pub exec_xori : Instruction → Effects → M Effects
exec_xori i p m = assign i.rt (bit_xor (m.registers i.rs) (bit_and i.extra 0xffff)) p m
