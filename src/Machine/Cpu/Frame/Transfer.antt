-- ===== src/Machine/Cpu/Frame/Transfer.antt =====
-- The branch and jump cases keep the program counters and the load registers
-- (NachOS-4.0/code/machine/mipssim.cc).
use hcmus_csc10007_operating.Common.{ℕ, ◌<◌, Bool, arith}
use hcmus_csc10007_operating.Machine.State.{Machine, ret_addr_reg}
use hcmus_csc10007_operating.Machine.Decode.{Instruction}
use hcmus_csc10007_operating.Machine.Cpu.Locals.{Effects}
use hcmus_csc10007_operating.Machine.Cpu.Frame.Rules.{
  Framed, runs, SameHigh, SameHigh-set, SameHigh-refl, raise-Framed, go_to-Framed, if-Framed,
  Framed-trans,
}
use hcmus_csc10007_operating.Machine.Cpu.Transfer.{
  branch, link, exec_beq, exec_bgez, exec_bgtz, exec_blez, exec_bltz, exec_bne, exec_bgezal,
  exec_bltzal, exec_j, exec_jal, exec_jr, exec_jalr, exec_syscall, exec_illegal,
}

module _ (i : Instruction) (p : Effects) (n : p.next_load_reg < 32) where
  branch-Framed : (taken : Bool) (m : Machine) → Framed m (branch taken i p m)
  unfolding branch
  branch-Framed taken m =
      if-Framed m taken (go_to-Framed _ p m m n (SameHigh-refl m)) (runs p m (SameHigh-refl m) n)

  pub beq-Framed : (m : Machine) → Framed m (exec_beq i p m)
  unfolding exec_beq
  beq-Framed m = branch-Framed _ m

  pub bgez-Framed : (m : Machine) → Framed m (exec_bgez i p m)
  unfolding exec_bgez
  bgez-Framed m = branch-Framed _ m

  pub bgtz-Framed : (m : Machine) → Framed m (exec_bgtz i p m)
  unfolding exec_bgtz
  bgtz-Framed m = branch-Framed _ m

  pub blez-Framed : (m : Machine) → Framed m (exec_blez i p m)
  unfolding exec_blez
  blez-Framed m = branch-Framed _ m

  pub bltz-Framed : (m : Machine) → Framed m (exec_bltz i p m)
  unfolding exec_bltz
  bltz-Framed m = branch-Framed _ m

  pub bne-Framed : (m : Machine) → Framed m (exec_bne i p m)
  unfolding exec_bne
  bne-Framed m = branch-Framed _ m

  pub j-Framed : (m : Machine) → Framed m (exec_j i p m)
  unfolding exec_j
  j-Framed m = go_to-Framed _ p m m n (SameHigh-refl m)

  pub jr-Framed : (m : Machine) → Framed m (exec_jr i p m)
  unfolding exec_jr
  jr-Framed m = go_to-Framed _ p m m n (SameHigh-refl m)

  SameHigh-link : (r : ℕ) (m : Machine) → r < 32 → SameHigh m (link r m)
  SameHigh-link r m h = SameHigh-set m m r _ (omega arith) (SameHigh-refl m)

  pub bgezal-Framed : (m : Machine) → Framed m (exec_bgezal i p m)
  unfolding exec_bgezal
  bgezal-Framed m =
      Framed-trans m _ (SameHigh-link ret_addr_reg m (omega arith))
        (bgez-Framed (link ret_addr_reg m))

  pub bltzal-Framed : (m : Machine) → Framed m (exec_bltzal i p m)
  unfolding exec_bltzal
  bltzal-Framed m =
      Framed-trans m _ (SameHigh-link ret_addr_reg m (omega arith))
        (bltz-Framed (link ret_addr_reg m))

  pub jal-Framed : (m : Machine) → Framed m (exec_jal i p m)
  unfolding exec_jal
  jal-Framed m =
      Framed-trans m _ (SameHigh-link ret_addr_reg m (omega arith)) (j-Framed (link ret_addr_reg m))

  pub jalr-Framed : (m : Machine) → i.rd < 32 → Framed m (exec_jalr i p m)
  unfolding exec_jalr
  jalr-Framed m rd = Framed-trans m _ (SameHigh-link i.rd m rd) (jr-Framed (link i.rd m))

  pub syscall-Framed : (m : Machine) → Framed m (exec_syscall i p m)
  unfolding exec_syscall
  syscall-Framed m = raise-Framed _ 0 m m

  pub illegal-Framed : (m : Machine) → Framed m (exec_illegal i p m)
  unfolding exec_illegal
  illegal-Framed m = raise-Framed _ 0 m m
