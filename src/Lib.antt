-- ===== src/Lib.antt =====
-- NachOS 4.0: the simulated MIPS machine and its clock, threads and their synchronization, address
-- spaces, linked lists, the bitmap, the file system and files on the simulated disk, open files, and
-- the handler of exceptions with its system calls.
--
-- The kernel runs user programs on a simulated CPU (NachOS-4.0/code/machine/mipssim.cc), which
-- fetches, loads and stores through the page table or the TLB (translate.cc) and hands exceptions
-- to the kernel. A bitmap (NachOS-4.0/code/lib/bitmap.cc) keeps track of free disk sectors; a file header
-- (NachOS-4.0/code/filesys/filehdr.cc) takes a file's sectors out of it, and the directory
-- (NachOS-4.0/code/filesys/directory.cc) maps names to the sectors of headers. Threads
-- (NachOS-4.0/code/threads) take turns on the processor and wait on semaphores, on which locks,
-- conditions and the named semaphores of the system calls stand. A program is loaded into frames
-- that another bitmap hands out (NachOS-4.0/code/userprog/addrspace.cc); its process has ten open
-- files (NachOS-4.0/code/threads/pcb.cc), which in this build are files of the host; in the real
-- file system they stand in sectors of the disk (NachOS-4.0/code/filesys/openfile.cc). A system
-- call of a program ends in ExceptionHandler (NachOS-4.0/code/userprog/exception.cc), which takes
-- the arguments out of the registers, copies between the program's memory and the kernel's, calls
-- the routines of NachOS-4.0/code/userprog/ksyscall.h and moves the program counter on. Interrupts
-- that devices ask for wait in an ordered list for the simulated clock
-- (NachOS-4.0/code/machine/interrupt.cc); it is one of the lists of NachOS-4.0/code/lib/list.cc.
--
-- Which file models what:
--   Common          Boolean tests, lists and strings of C, bit operations, 32-bit words, integers
--   Lists           list.cc: List and SortedList as elements of a heap
--   Machine.State   machine.h, translate.h: registers, memory, tables, DelayedLoad, RaiseException
--   Machine.Decode  mipssim.h and Instruction::Decode
--   Machine.Memory  Translate, ReadMem, WriteMem (translate_with, use_entry: the parts of Translate)
--   Machine.Mult    Mult
--   Machine.Cpu     OneInstruction: one function exec_... for each case of its switch, in Alu,
--                   Transfer and LoadStore; execute is the switch and finish what follows it
--   Interrupts      interrupt.cc: the pending interrupts and the clock
--   Bitmap          class Bitmap
--   FileHeader      class FileHeader
--   Directory       class Directory
--   FileSystem      FileSystem::Create and Remove (NachOS-4.0/code/filesys/filesys.cc) on these three
--   SectorFile      class OpenFile of openfile.cc over the sectors of the disk, synchdisk.cc
--   Numbers         SysReadNum and SysPrintNum
--   Threads         thread.cc, scheduler.cc: the ready list and the switch of threads
--   Threads.Synch   synch.cc, and the steps: perform is a section of the current thread that
--                   nothing interrupts, Step one of these, a switch by the timer or an interrupt
--   SemTable        class STable
--   OpenFiles       class OpenFile and FileSystem of the stub file system, the wrappers of sysdep.cc
--   OpenFiles.Table the file table of class PCB
--   AddrSpace       class AddrSpace: load is Load from the header on
--   SystemCalls.State     the state of the handler, and Services: the calls of the file system,
--                         the process table and the semaphore table that it makes
--   SystemCalls.Copying   IncreasePC, User2System, System2User
--   SystemCalls.Calls     the routines of ksyscall.h
--   SystemCalls.Dispatch  ExceptionHandler: one function handle_... for each case of its switch
--   Tests           runs on concrete inputs
--
-- How the state is modelled: an int or a register is its 32-bit pattern, a native number below
-- 2 ^ 32 with the wrap-around written out; `signed` reads it as an integer. An array is a function
-- of its index, or a list where its length matters. ReadMem and every instruction return as soon as
-- an exception is raised, so they run in a monad whose outcomes are a result, an exception with
-- the machine that the kernel's handler gets, and a failed ASSERT. Elsewhere a failed ASSERT is
-- `none` or the constructor `fault`; in Lists it is told from a bad read. The build is the one of build.linux (SIM_FIX, a little-endian
-- host with signed char), on which the conversions between host and machine order do nothing.
--
-- Loops are structural recursion on the rounds that are left: 32 for Mult, the number of bits,
-- sectors or entries for the others. The loop of SysPrintNum runs on the ten places of its array,
-- and the round trip shows that these are enough. A walk along a list has one round more than the
-- list object counts elements, the loop of CheckIfDue as many as interrupts are pending, and that
-- these are enough is part of what is shown of them. SysPrintString has 256 rounds, as many as the
-- buffer that the handler copies for it has bytes.
--
-- The threads: a thread's place in a routine stands for its stack. Simulated time advances only
-- where interrupts are enabled again and after user instructions, so a step is what stands between
-- two such points. A thread that is woken in P may, in the model, lose the processor before it
-- tests the value again, which in the code it does with interrupts off: the model has more runs
-- than the code. A device's handler is a V on a semaphore of the kernel. The lists of threads are
-- mathematical ones, and the ASSERT of Append stands apart, in Threads.Appending. The value of a
-- semaphore is a number from 0 on that does not wrap around.
--
-- The host's calls and the executable's bytes are parameters (Host, exec); Regular and ReadsFile
-- say what they are documented to do. What a device's handler asks the clock for is a parameter of
-- Interrupts. The heap of Lists is a function of pointers, and the order of SortedList is its
-- argument, as in the code. A sector of the disk is read and written in one step. FileSystem has the bitmap,
-- the directory and the headers of the disk as three parts, which in the source are sectors of it.
--
-- Not modelled: debugging output, the creation and end of processes, the devices but for the
-- sectors of the disk and the interrupts they ask for, the network, hash tables.
pub mod Common
pub mod Lists
pub mod Machine
pub mod Interrupts
pub mod Bitmap
pub mod FileHeader
pub mod Directory
pub mod FileSystem
pub mod SectorFile
pub mod Numbers
pub mod Threads
pub mod SemTable
pub mod OpenFiles
pub mod AddrSpace
pub mod SystemCalls
pub mod Tests
