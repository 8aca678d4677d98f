-- ===== src/Threadman.antt =====
-- src/iop/threadman.cpp: the IOP's threads, event flags, semaphores and message boxes.
pub mod Types
pub mod Links
pub mod Ids
pub mod Clock
pub mod Alarms
pub mod Ready
pub mod Switch
pub mod Threads
pub mod Wakeups
pub mod Events
pub mod Semas
pub mod Mailboxes
pub mod Timer
pub mod Lists
pub mod Unlink
pub mod Touch
pub mod Bitmap
pub mod Pick
pub mod Scheduler
pub mod Moves
pub mod Choice
pub mod Preempt
pub mod Blocking
pub mod HandOver
pub mod Arithmetic
pub mod Division
pub mod LongDivision
pub mod Conversions
pub mod Rings
pub mod Boxes
pub mod Mail
pub mod Release
pub mod Joins
pub mod Signals
pub mod Splice
pub mod Deadlines
pub mod Insertion
pub mod Handles
pub mod Ranks
pub mod Boot
mod Tests
