-- ===== src/SystemCalls.antt =====
-- NachOS-4.0/code/userprog/exception.cc: `ExceptionHandler`, with the copies between user and kernel memory,
-- and the console calls of NachOS-4.0/code/userprog/ksyscall.h.
--
-- The calls that go to the file system, the process table and the table of semaphores are an
-- interface: the handler is the same for any kernel behind it. A buffer is the bytes from its start
-- on; an `int` is a 32-bit pattern and a `char` a byte.
pub mod State
pub mod Copying
pub mod Calls
pub mod Dispatch
pub mod Space
pub mod Bytes
pub mod Transfer
pub mod Frame
pub mod Parts
pub mod Console
pub mod Handlers
pub mod Advance
