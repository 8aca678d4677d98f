-- ===== src/EeThread/Types.antt =====
-- The records and constants of src/kernel/thread.cpp. Words are numbers below 2^32, an `int16_t`
-- is its 16 bits and an `int32_t` its 32; a table is a function of its index.
use ps2bios_rebuild.Common.{ℕ, ◌+◌, Bool, ltb, leb, if◌then◌else◌}

abbrev pub thread_count : ℕ
thread_count = 256

abbrev pub semaphore_count : ℕ
semaphore_count = 256

abbrev pub boot_priority : ℕ
boot_priority = 128

-- kPriorities and kIdleQueue.
abbrev pub idle_queue : ℕ
idle_queue = 129

abbrev pub queue_count : ℕ
queue_count = 130

-- kNone: the end of a list.
abbrev pub nobody : ℕ
nobody = 0xFFFF

abbrev pub frame_bytes : ℕ
frame_bytes = 0x2A0

abbrev pub frame_push : ℕ
frame_push = 0x280

abbrev pub block_words : ℕ
block_words = 128

-- The byte offsets of $v0, $a0, $gp, $sp, $fp and $ra in a frame.
abbrev pub slot_v0 : ℕ
slot_v0 = 32

abbrev pub slot_a0 : ℕ
slot_a0 = 64

abbrev pub slot_gp : ℕ
slot_gp = 448

abbrev pub slot_sp : ℕ
slot_sp = 464

abbrev pub slot_fp : ℕ
slot_fp = 480

abbrev pub slot_ra : ℕ
slot_ra = 496

abbrev pub minus_one : ℕ
minus_one = 0xFFFFFFFF

-- An int32_t below 0.
abbrev pub is_negative : ℕ → Bool
is_negative x = leb 0x80000000 x

-- An int16_t as an int32_t.
abbrev pub sign_extend : ℕ → ℕ
sign_extend p = if ltb p 0x8000 then p else p + 0xFFFF0000

pub data State : Type 0 where
  free run ready wait suspend wait_suspend dormant : State

-- As a program sees them through 0x30.
abbrev pub state_code : State → ℕ
state_code free = 0
state_code run = 1
state_code ready = 2
state_code wait = 4
state_code suspend = 8
state_code wait_suspend = 0xC
state_code dormant = 0x10

pub data WaitType : Type 0 where
  not_waiting sleeping on_semaphore : WaitType

abbrev pub wait_code : WaitType → ℕ
wait_code not_waiting = 0
wait_code sleeping = 1
wait_code on_semaphore = 2

pub record ThreadRecord : Type 0 where
  pub state : State
  pub resume_pc : ℕ
  pub context : ℕ
  pub gp : ℕ
  pub initial_priority : ℕ
  pub current_priority : ℕ
  pub wait_type : WaitType
  pub wait_id : ℕ
  pub wakeup_count : ℕ
  pub attr : ℕ
  pub option : ℕ
  pub entry : ℕ
  pub argc : ℕ
  pub args : ℕ
  pub stack : ℕ
  pub stack_size : ℕ
  pub root : ℕ
  pub heap_end : ℕ
  pub start_arg : ℕ
  pub next : ℕ
  pub prev : ℕ

pub record Semaphore : Type 0 where
  pub count : ℕ
  pub max_count : ℕ
  pub attr : ℕ
  pub option : ℕ
  pub wait_count : ℕ
  pub wait_head : ℕ
  pub wait_tail : ℕ
  pub next_free : ℕ

pub record Queue : Type 0 where
  pub head : ℕ
  pub tail : ℕ

-- The addresses of what the image holds beside the tables.
pub record Symbols : Type 0 where
  pub thread_root : ℕ
  pub idle_loop : ℕ
  pub idle_frame : ℕ
  pub idle_stack : ℕ

-- The kernel's variables; `memory` maps the address of a word to the word, `syscall_context` is
-- the dispatcher's block and `epc` the coprocessor's register.
pub record Kernel : Type 0 where
  pub threads : ℕ → ThreadRecord
  pub semaphores : ℕ → Semaphore
  pub ready_queue : ℕ → Queue
  pub current_thread : ℕ
  pub lowest_ready : ℕ
  pub free_thread : ℕ
  pub free_semaphore : ℕ
  pub tables_ready : Bool
  pub reschedule_requested : Bool
  pub parked_by_interrupt : ℕ → Bool
  pub memory : ℕ → ℕ
  pub syscall_context : ℕ → ℕ
  pub epc : ℕ
  pub restore_full : Bool
  pub memory_size : ℕ

abbrev pub current : Kernel → ThreadRecord
current k = k.threads k.current_thread
