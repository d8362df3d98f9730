-- ===== src/Machine/Cpu/Locals.antt =====
-- The local variables of `OneInstruction` that outlive its `switch` (NachOS-4.0/code/machine/mipssim.cc).
use hcmus_csc10007_operating.Common.{ℕ}
use hcmus_csc10007_operating.Machine.State.{done, M, set_register}

pub record Effects : Type 0 where
  pub pc_after : ℕ
  pub next_load_reg : ℕ
  pub next_load_value : ℕ

-- `registers[r] = value;` as the last statement of a case.
unfoldable pub assign : ℕ → ℕ → Effects → M Effects
assign r value p m = done p (set_register m r value)

-- `pcAfter = target;` as the last statement of a case.
unfoldable pub go_to : ℕ → Effects → M Effects
go_to target p m = done (record p { pc_after = target }) m

-- `nextLoadReg = r; nextLoadValue = value;`
unfoldable pub load_later : ℕ → ℕ → Effects → M Effects
load_later r value p m = done (record p { next_load_reg = r; next_load_value = value }) m
