-- ===== src/EeThread.antt =====
-- src/kernel/thread.cpp: the EE kernel's threads, semaphores and context switch.
pub mod Types
pub mod Links
pub mod Tables
pub mod Switch
pub mod Threads
pub mod Control
pub mod Program
pub mod Semas
pub mod Lists
pub mod Unlink
pub mod Pick
pub mod Frames
pub mod Rotation
pub mod Ready
pub mod Queues
pub mod Signals
pub mod Waking
pub mod Deletion
pub mod Waits
pub mod SecondWaiter
mod Tests
