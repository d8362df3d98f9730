-- ===== src/Machine.antt =====
-- The simulated MIPS machine: NachOS-4.0/code/machine/machine.h, machine.cc, translate.cc, mipssim.cc.
pub mod State
pub mod Decode
pub mod Memory
pub mod Mult
pub mod Cpu
