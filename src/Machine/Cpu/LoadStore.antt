-- ===== src/Machine/Cpu/LoadStore.antt =====
-- Load and store cases of `OneInstruction` (NachOS-4.0/code/machine/mipssim.cc), with SIM_FIX.
use hcmus_csc10007_operating.Common.{ℕ, Bool, ◌&&◌, ◌==◌, if◌then◌else◌, bit_and, bit_or}
use hcmus_csc10007_operating.Common.Word.{add32, sub32, shl32, sar32, truthy}
use hcmus_csc10007_operating.Machine.State.{
  Machine, M, ◌>>=◌, done, raise_exception, address_error_exception, load_reg, load_value_reg,
}
use hcmus_csc10007_operating.Machine.Memory.{read_mem, write_mem}
use hcmus_csc10007_operating.Machine.Decode.{Instruction}
use hcmus_csc10007_operating.Machine.Cpu.Locals.{Effects, load_later}

-- `tmp = registers[instr->rs] + instr->extra;`
abbrev pub effective : Instruction → Machine → ℕ
effective i m = add32 (m.registers i.rs) i.extra

-- LB where `sign` is set, LBU otherwise.
unfoldable pub exec_lb : Bool → Instruction → Effects → M Effects
exec_lb sign i p m =
    (read_mem (effective i m) 1 >>= λ value.
    load_later i.rt
      (if truthy (bit_and value 0x80) && sign then bit_or value 0xffffff00 else bit_and value 0xff)
      p)
      m

unfoldable pub exec_lh : Bool → Instruction → Effects → M Effects
exec_lh sign i p m =
    if truthy (bit_and (effective i m) 0x1)
    then raise_exception address_error_exception (effective i m) m
    else (read_mem (effective i m) 2 >>= λ value.
          load_later i.rt
            (if truthy (bit_and value 0x8000) && sign
              then bit_or value 0xffff0000
              else bit_and value 0xffff)
            p)
        m

unfoldable pub exec_lw : Instruction → Effects → M Effects
exec_lw i p m =
    if truthy (bit_and (effective i m) 0x3)
    then raise_exception address_error_exception (effective i m) m
    else (read_mem (effective i m) 4 >>= λ value. load_later i.rt value p) m

-- What a register holds once a pending load has come in.
abbrev pub pending : ℕ → Machine → ℕ
pending r m = if m.registers load_reg == r then m.registers load_value_reg else m.registers r

-- The inner `switch (3 - byte)` of LWL, LWR, SWL and SWR, on `byte = tmp & 0x3`.
unfoldable pub merge_lwl : ℕ → ℕ → ℕ → ℕ
merge_lwl byte old value =
    if byte == 3
    then value
    else if byte == 2
    then bit_or (bit_and old 0xff) (shl32 value 8)
    else if byte == 1
    then bit_or (bit_and old 0xffff) (shl32 value 16)
    else bit_or (bit_and old 0xffffff) (shl32 value 24)

unfoldable pub merge_lwr : ℕ → ℕ → ℕ → ℕ
merge_lwr byte old value =
    if byte == 3
    then bit_or (bit_and old 0xffffff00) (bit_and (sar32 value 24) 0xff)
    else if byte == 2
    then bit_or (bit_and old 0xffff0000) (bit_and (sar32 value 16) 0xffff)
    else if byte == 1
    then bit_or (bit_and old 0xff000000) (bit_and (sar32 value 8) 0xffffff)
    else value

unfoldable pub exec_lwl : Instruction → Effects → M Effects
exec_lwl i p m =
    let tmp = effective i m in
    let byte = bit_and tmp 0x3 in
    (read_mem (sub32 tmp byte) 4 >>= λ value m'.
    load_later i.rt (merge_lwl byte (pending i.rt m') value) p m')
      m

unfoldable pub exec_lwr : Instruction → Effects → M Effects
exec_lwr i p m =
    let tmp = effective i m in
    let byte = bit_and tmp 0x3 in
    (read_mem (sub32 tmp byte) 4 >>= λ value m'.
    load_later i.rt (merge_lwr byte (pending i.rt m') value) p m')
      m

-- SB, SH and SW.
unfoldable pub exec_store : ℕ → Instruction → Effects → M Effects
exec_store size i p m = (write_mem (effective i m) size (m.registers i.rt) >>= λ _ m'. done p m') m

unfoldable pub merge_swl : ℕ → ℕ → ℕ → ℕ
merge_swl byte value reg =
    if byte == 3
    then reg
    else if byte == 2
    then bit_or (bit_and value 0xff000000) (bit_and (sar32 reg 8) 0xffffff)
    else if byte == 1
    then bit_or (bit_and value 0xffff0000) (bit_and (sar32 reg 16) 0xffff)
    else bit_or (bit_and value 0xffffff00) (bit_and (sar32 reg 24) 0xff)

unfoldable pub merge_swr : ℕ → ℕ → ℕ → ℕ
merge_swr byte value reg =
    if byte == 3
    then bit_or (bit_and value 0xffffff) (shl32 reg 24)
    else if byte == 2
    then bit_or (bit_and value 0xffff) (shl32 reg 16)
    else if byte == 1
    then bit_or (bit_and value 0xff) (shl32 reg 8)
    else reg

unfoldable pub exec_swl : Instruction → Effects → M Effects
exec_swl i p m =
    let tmp = effective i m in
    let byte = bit_and tmp 0x3 in
    (read_mem (sub32 tmp byte) 4 >>= λ value m'.
    (write_mem (sub32 tmp byte) 4 (merge_swl byte value (m'.registers i.rt)) >>= λ _ m''.
    done p m'')
      m')
      m

unfoldable pub exec_swr : Instruction → Effects → M Effects
exec_swr i p m =
    let tmp = effective i m in
    let byte = bit_and tmp 0x3 in
    (read_mem (sub32 tmp byte) 4 >>= λ value m'.
    (write_mem (sub32 tmp byte) 4 (merge_swr byte value (m'.registers i.rt)) >>= λ _ m''.
    done p m'')
      m')
      m
