-- ===== src/Tests.antt =====
-- Runs of the model on concrete inputs.
mod Cpu
mod Files
mod Threads
mod Programs
mod Storage
mod Kernel
