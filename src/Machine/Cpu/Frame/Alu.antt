-- ===== src/Machine/Cpu/Frame/Alu.antt =====
-- The arithmetic cases keep the program counters and the load registers (NachOS-4.0/code/machine/mipssim.cc).
use hcmus_csc10007_operating.Common.{ℕ, ◌<◌, Bool, arith, ◌==◌, ◌&&◌}
use hcmus_csc10007_operating.Common.Word.{sign_bit}
use hcmus_csc10007_operating.Machine.State.{Machine, set_register, hi_reg, lo_reg}
use hcmus_csc10007_operating.Machine.Decode.{Instruction}
use hcmus_csc10007_operating.Machine.Cpu.Locals.{Effects, assign}
use hcmus_csc10007_operating.Machine.Cpu.Frame.Rules.{
  Framed, aborts, SameHigh-set, SameHigh-refl, raise-Framed, assign-Framed, if-Framed,
}
use hcmus_csc10007_operating.Machine.Cpu.Alu.{
  add_overflow, addi_overflow, sub_overflow, exec_addu, exec_and, exec_mfhi, exec_mflo, exec_nor,
  exec_or, exec_sll, exec_sllv, exec_slt, exec_sltu, exec_sra, exec_srav, exec_srl, exec_srlv,
  exec_subu, exec_xor, exec_addiu, exec_andi, exec_lui, exec_ori, exec_slti, exec_sltiu, exec_xori,
  exec_add, exec_addi, exec_sub, exec_div, exec_divu, exec_mthi, exec_mtlo, exec_mult,
}

module _ (i : Instruction) (p : Effects) (m : Machine) (rd : i.rd < 32) (rt : i.rt < 32)
    (n : p.next_load_reg < 32) where
  pub addu-Framed : Framed m (exec_addu i p m)
  unfolding exec_addu
  addu-Framed = assign-Framed i.rd _ p m m (omega arith) n (SameHigh-refl m)

  pub and-Framed : Framed m (exec_and i p m)
  unfolding exec_and
  and-Framed = assign-Framed i.rd _ p m m (omega arith) n (SameHigh-refl m)

  pub mfhi-Framed : Framed m (exec_mfhi i p m)
  unfolding exec_mfhi
  mfhi-Framed = assign-Framed i.rd _ p m m (omega arith) n (SameHigh-refl m)

  pub mflo-Framed : Framed m (exec_mflo i p m)
  unfolding exec_mflo
  mflo-Framed = assign-Framed i.rd _ p m m (omega arith) n (SameHigh-refl m)

  pub nor-Framed : Framed m (exec_nor i p m)
  unfolding exec_nor
  nor-Framed = assign-Framed i.rd _ p m m (omega arith) n (SameHigh-refl m)

  pub or-Framed : Framed m (exec_or i p m)
  unfolding exec_or
  or-Framed = assign-Framed i.rd _ p m m (omega arith) n (SameHigh-refl m)

  pub sll-Framed : Framed m (exec_sll i p m)
  unfolding exec_sll
  sll-Framed = assign-Framed i.rd _ p m m (omega arith) n (SameHigh-refl m)

  pub sllv-Framed : Framed m (exec_sllv i p m)
  unfolding exec_sllv
  sllv-Framed = assign-Framed i.rd _ p m m (omega arith) n (SameHigh-refl m)

  pub slt-Framed : Framed m (exec_slt i p m)
  unfolding exec_slt
  slt-Framed = assign-Framed i.rd _ p m m (omega arith) n (SameHigh-refl m)

  pub sltu-Framed : Framed m (exec_sltu i p m)
  unfolding exec_sltu
  sltu-Framed = assign-Framed i.rd _ p m m (omega arith) n (SameHigh-refl m)

  pub sra-Framed : Framed m (exec_sra i p m)
  unfolding exec_sra
  sra-Framed = assign-Framed i.rd _ p m m (omega arith) n (SameHigh-refl m)

  pub srav-Framed : Framed m (exec_srav i p m)
  unfolding exec_srav
  srav-Framed = assign-Framed i.rd _ p m m (omega arith) n (SameHigh-refl m)

  pub srl-Framed : Framed m (exec_srl i p m)
  unfolding exec_srl
  srl-Framed = assign-Framed i.rd _ p m m (omega arith) n (SameHigh-refl m)

  pub srlv-Framed : Framed m (exec_srlv i p m)
  unfolding exec_srlv
  srlv-Framed = assign-Framed i.rd _ p m m (omega arith) n (SameHigh-refl m)

  pub subu-Framed : Framed m (exec_subu i p m)
  unfolding exec_subu
  subu-Framed = assign-Framed i.rd _ p m m (omega arith) n (SameHigh-refl m)

  pub xor-Framed : Framed m (exec_xor i p m)
  unfolding exec_xor
  xor-Framed = assign-Framed i.rd _ p m m (omega arith) n (SameHigh-refl m)

  pub addiu-Framed : Framed m (exec_addiu i p m)
  unfolding exec_addiu
  addiu-Framed = assign-Framed i.rt _ p m m (omega arith) n (SameHigh-refl m)

  pub andi-Framed : Framed m (exec_andi i p m)
  unfolding exec_andi
  andi-Framed = assign-Framed i.rt _ p m m (omega arith) n (SameHigh-refl m)

  pub lui-Framed : Framed m (exec_lui i p m)
  unfolding exec_lui
  lui-Framed = assign-Framed i.rt _ p m m (omega arith) n (SameHigh-refl m)

  pub ori-Framed : Framed m (exec_ori i p m)
  unfolding exec_ori
  ori-Framed = assign-Framed i.rt _ p m m (omega arith) n (SameHigh-refl m)

  pub slti-Framed : Framed m (exec_slti i p m)
  unfolding exec_slti
  slti-Framed = assign-Framed i.rt _ p m m (omega arith) n (SameHigh-refl m)

  pub sltiu-Framed : Framed m (exec_sltiu i p m)
  unfolding exec_sltiu
  sltiu-Framed = assign-Framed i.rt _ p m m (omega arith) n (SameHigh-refl m)

  pub xori-Framed : Framed m (exec_xori i p m)
  unfolding exec_xori
  xori-Framed = assign-Framed i.rt _ p m m (omega arith) n (SameHigh-refl m)

  pub add-Framed : Framed m (exec_add i p m)
  unfolding exec_add
  add-Framed =
      if-Framed m (add_overflow (m.registers i.rs) (m.registers i.rt)) (raise-Framed _ 0 m m)
        (assign-Framed i.rd _ p m m (omega arith) n (SameHigh-refl m))

  pub addi-Framed : Framed m (exec_addi i p m)
  unfolding exec_addi
  addi-Framed =
      if-Framed m (addi_overflow (m.registers i.rs) i.extra) (raise-Framed _ 0 m m)
        (assign-Framed i.rt _ p m m (omega arith) n (SameHigh-refl m))

  pub sub-Framed : Framed m (exec_sub i p m)
  unfolding exec_sub
  sub-Framed =
      if-Framed m (sub_overflow (m.registers i.rs) (m.registers i.rt)) (raise-Framed _ 0 m m)
        (assign-Framed i.rd _ p m m (omega arith) n (SameHigh-refl m))

  pub mthi-Framed : Framed m (exec_mthi i p m)
  unfolding exec_mthi
  mthi-Framed = assign-Framed hi_reg _ p m m (omega arith) n (SameHigh-refl m)

  pub mtlo-Framed : Framed m (exec_mtlo i p m)
  unfolding exec_mtlo
  mtlo-Framed = assign-Framed lo_reg _ p m m (omega arith) n (SameHigh-refl m)

  -- Two assignments, to `lo_reg` and `hi_reg` in either order.
  both_halves : (r s v w : ℕ) → r < 34 → s < 34 → Framed m (assign s w p (set_register m r v))
  both_halves r s v w hr hs =
      assign-Framed s w p m (set_register m r v) hs n (SameHigh-set m m r v hr (SameHigh-refl m))

  pub div-Framed : Framed m (exec_div i p m)
  unfolding exec_div
  div-Framed =
      if-Framed m (m.registers i.rt == 0)
        (both_halves lo_reg hi_reg _ _ (omega arith) (omega arith))
        (if-Framed m (m.registers i.rs == sign_bit && m.registers i.rt == 0xffffffff) aborts
          (both_halves lo_reg hi_reg _ _ (omega arith) (omega arith)))

  pub divu-Framed : Framed m (exec_divu i p m)
  unfolding exec_divu
  divu-Framed =
      if-Framed m (m.registers i.rt == 0)
        (both_halves lo_reg hi_reg _ _ (omega arith) (omega arith))
        (both_halves lo_reg hi_reg _ _ (omega arith) (omega arith))

  pub mult-Framed : (signed_arith : Bool) → Framed m (exec_mult signed_arith i p m)
  unfolding exec_mult
  mult-Framed signed_arith = both_halves hi_reg lo_reg _ _ (omega arith) (omega arith)
