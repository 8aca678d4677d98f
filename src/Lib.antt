-- ===== src/Lib.antt =====
-- PS2BiosRebuild: a reimplementation of the BIOS of the PlayStation 2. Two processors boot it:
-- the IOP from a list of modules (src/iop), the EE from a kernel of its own (src/kernel).
--
-- The program's parts, and where each is modelled:
--
-- * SYSMEM, src/iop/sysmem.cpp, hands out the IOP's memory in blocks of 256 bytes: Sysmem.antt.
--   Its table is the record Sysmem; allocate, deallocate, blockAddress, blockSize, memSize and
--   _module_start are functions of it that answer the new table too. Below it, Sysmem/Invariant
--   says what a valid table is, Placement what an insertion does, Scan which ranges are free,
--   Allocate, Modes, Query and Release what the operations do, and Wrap where the 32 bits of a
--   size wrap.
-- * The EE kernel's threads and semaphores, src/kernel/thread.cpp: EeThread.antt. The kernel's
--   variables are the record Kernel of EeThread/Types; Links has enqueue, unlink and popFront,
--   Tables the tables and the moves between queues, Switch the context switch, Threads and
--   Control the slots of threads, Program what program.cpp asks for, and Semas the slots of
--   semaphores. The other files there hold what is shown of them: Lists and Unlink of the linked
--   lists, Pick of the scan, Frames of the parked registers, Rotation, Ready, Queues of the ready
--   queues as lists, Signals, Waking, Deletion, Waits and SecondWaiter.
-- * SYSCLIB, src/iop/sysclib.cpp, the C library of the IOP: Sysclib.antt. Ctype has the character
--   table, Memory the mem* and b* operations, Strings and Tokens the str* family, Numbers strtol,
--   strtoul and atob, Print the integer conversions of prnt, Directives and Formatter its
--   directives, its loop and sprintf. Moves, Words, Fills and Searches are about the operations
--   on memory, Text and Compare about strings, Parse, RoundTrip, Padding, Written and Echo about
--   numbers and text, and Cases about letters.
--
-- * HEAPLIB, src/iop/heaplib.cpp, allocates inside an arena of memory: Heaplib.antt has its
--   ordinals 11 to 15 on memory as words. Heaplib/Pairs and Arena say what a free list is, Grants
--   is about a block that is granted, Accounts about allocations, Prepared about a fresh arena,
--   and Refusals about releases that are refused.
--
-- * THREADMAN, src/iop/threadman.cpp, the IOP's threads and what they wait for: Threadman.antt.
--   The module's variables are the record Kernel of Threadman/Types, with the alarms and the
--   timer in a record of their own. Links has the operations on lists, Ids the handles, Ready the
--   ready queues and pick, Switch the hooks that INTRMAN calls and the moves of threads, Threads
--   and Wakeups thbase, Clock and Alarms its clock and the queue by deadline, Timer the calls and
--   the interrupt of the alarms and the entry, Events thevent, Semas thsemap and Mailboxes
--   thmsgbx. Lists, Unlink and Ranks are about the lists; Touch, Bitmap, Pick, Scheduler, Moves,
--   Choice, Preempt, Blocking and HandOver about the scheduler and the choice of who runs;
--   Release, Joins and Signals about waiters; Rings, Boxes and Mail about messages; Arithmetic,
--   Division, LongDivision and Conversions about the clock; Splice, Deadlines and Insertion about
--   the alarms; Handles and Boot about ids and the entry.
-- * LOADCORE, src/iop/loadcore.cpp, and the binder of src/iop/loader.hpp: Loadcore.antt. Tables
--   is the registry and the tables, as records kept by their addresses, Bind the binder, Register
--   the registrations, Records the boot records and the callbacks, Modules the list of modules.
--   Chains has the linked lists; Detach, Take, Walks, Adopt, Gathered and Supersede are about a
--   registration, Binding about stubs, Order about the order of versions and Query about the boot
--   records.
--
-- Common.antt has what all of them use, with Common/Bits and Common/BitLaws for the bits of a
-- word: tests on numbers, arrays as functions, 32-bit sums.
--
-- Machine words are numbers, and a sum or difference that may leave 32 bits is taken modulo 2 ^
-- 32, by add32 and sub32. An int32_t is the word that holds it. A table is a function of its
-- index, and memory of the EE is a function from the address of a word to the word. What does not
-- return to its caller, and what ends the kernel, answers `none`. A call of THREADMAN comes to an
-- Outcome: an answer, or a trap with how the call goes on from the answer that its thread is
-- resumed with. A critical section is one step. What INTRMAN and SYSMEM answer, the readings of
-- the counter and the functions of clients are arguments there.
--
-- Loops over a table run on the number of entries left, which is their bound in the source. The
-- loop of deleteSema has as fuel one more than there are threads, since no thread waits twice.
-- The loops of SYSCLIB over a string take their fuel as an argument, and their theorems say how
-- much is enough: more than the string is long. Those of HEAPLIB along a free list do too: as
-- many steps as it has blocks. In THREADMAN the queue of alarms and a list of waiters are walked
-- with one step more than there are alarms or threads, and the loops that release the waiters of
-- an object or call the alarms that are due have their fuel as an argument, as all loops of
-- LOADCORE have. SYSCLIB's memory maps an address to a byte, and objects do not run over the end
-- of the address space.
--
-- Not modelled: registers of devices, assembly, the export tables, and the modules that are
-- listed without a file above. SYSMEM's kprintf, SYSCLIB's setjmp and longjmp, and the kernel's
-- slot 0x3C, which copies strings, are left out of the components that are modelled.
mod Common
pub mod Sysmem
pub mod EeThread
pub mod Sysclib
pub mod Heaplib
pub mod Threadman
pub mod Loadcore
