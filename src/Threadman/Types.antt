-- ===== src/Threadman/Types.antt =====
-- The records and constants of src/iop/threadman.cpp. Words are numbers below 2^32 and a null
-- pointer is 0; a pool is a function of its index. A priority is between 1 and 127.
use ps2bios_rebuild.Common.{ℕ, Bool, ltb, ◌&&◌, add32}

abbrev pub thread_count : ℕ
thread_count = 48

abbrev pub event_count : ℕ
event_count = 48

abbrev pub semaphore_count : ℕ
semaphore_count = 48

abbrev pub mailbox_count : ℕ
mailbox_count = 32

abbrev pub alarm_count : ℕ
alarm_count = 32

abbrev pub idle_priority : ℕ
idle_priority = 127

-- kNone and kAlarmNone: the end of a list.
abbrev pub nobody : ℕ
nobody = 0xFFFF

abbrev pub new_status : ℕ
new_status = 0x404

-- The codes of kerr.h, as words.
abbrev pub error : ℕ
error = 0xFFFFFFFF

abbrev pub illegal_context : ℕ
illegal_context = 0xFFFFFF9C

abbrev pub alarm_duplicate : ℕ
alarm_duplicate = 0xFFFFFF98

abbrev pub alarm_unknown : ℕ
alarm_unknown = 0xFFFFFF97

abbrev pub no_memory : ℕ
no_memory = 0xFFFFFE70

abbrev pub illegal_attr : ℕ
illegal_attr = 0xFFFFFE6F

abbrev pub illegal_entry : ℕ
illegal_entry = 0xFFFFFE6E

abbrev pub illegal_priority : ℕ
illegal_priority = 0xFFFFFE6D

abbrev pub illegal_stack_size : ℕ
illegal_stack_size = 0xFFFFFE6C

abbrev pub illegal_mode : ℕ
illegal_mode = 0xFFFFFE6B

abbrev pub illegal_thid : ℕ
illegal_thid = 0xFFFFFE6A

abbrev pub unknown_thid : ℕ
unknown_thid = 0xFFFFFE69

abbrev pub unknown_semid : ℕ
unknown_semid = 0xFFFFFE68

abbrev pub unknown_evfid : ℕ
unknown_evfid = 0xFFFFFE67

abbrev pub unknown_mbxid : ℕ
unknown_mbxid = 0xFFFFFE66

abbrev pub is_dormant : ℕ
is_dormant = 0xFFFFFE63

abbrev pub not_dormant : ℕ
not_dormant = 0xFFFFFE62

abbrev pub not_wait : ℕ
not_wait = 0xFFFFFE60

abbrev pub release_wait : ℕ
release_wait = 0xFFFFFE5E

abbrev pub sema_zero : ℕ
sema_zero = 0xFFFFFE5D

abbrev pub evf_cond : ℕ
evf_cond = 0xFFFFFE5B

abbrev pub evf_multi : ℕ
evf_multi = 0xFFFFFE5A

abbrev pub evf_ilpat : ℕ
evf_ilpat = 0xFFFFFE59

abbrev pub mbx_no_msg : ℕ
mbx_no_msg = 0xFFFFFE58

abbrev pub wait_delete : ℕ
wait_delete = 0xFFFFFE57

pub data State : Type 0 where
  free run ready wait dormant : State

abbrev pub state_code : State → ℕ
state_code free = 0
state_code run = 1
state_code ready = 2
state_code wait = 4
state_code dormant = 0x10

pub data WaitType : Type 0 where
  not_waiting sleeping delayed on_sema on_event on_mbx : WaitType

abbrev pub wait_code : WaitType → ℕ
wait_code not_waiting = 0
wait_code sleeping = 1
wait_code delayed = 2
wait_code on_sema = 3
wait_code on_event = 4
wait_code on_mbx = 5

-- All of a thread's record but its two links.
pub record Thread : Type 0 where
  pub state : State
  pub wait_type : WaitType
  pub generation : ℕ
  pub in_use : Bool
  pub initial_priority : ℕ
  pub current_priority : ℕ
  pub attr : ℕ
  pub option : ℕ
  pub entry : ℕ
  pub stack : ℕ
  pub stack_size : ℕ
  pub gp : ℕ
  pub frame : ℕ
  pub wait_id : ℕ
  pub wakeup_count : ℕ
  pub wait_out : ℕ
  pub wait_bits : ℕ
  pub wait_mode : ℕ

-- The `next` and `prev` fields of the records of a pool.
pub record Links : Type 0 where
  pub next : ℕ → ℕ
  pub prev : ℕ → ℕ

pub record Queue : Type 0 where
  pub head : ℕ
  pub tail : ℕ

abbrev pub empty_queue : Queue
empty_queue = record { head = nobody; tail = nobody }

pub record Event : Type 0 where
  pub in_use : Bool
  pub generation : ℕ
  pub attr : ℕ
  pub option : ℕ
  pub initial_bits : ℕ
  pub bits : ℕ
  pub waiters : Queue
  pub waiter_count : ℕ

-- `initial`, `max` and `count` are int32_t, as their 32 bits.
pub record Semaphore : Type 0 where
  pub in_use : Bool
  pub generation : ℕ
  pub attr : ℕ
  pub option : ℕ
  pub initial : ℕ
  pub max : ℕ
  pub count : ℕ
  pub waiters : Queue
  pub waiter_count : ℕ

-- `tail` is the address of the last message.
pub record Mailbox : Type 0 where
  pub in_use : Bool
  pub generation : ℕ
  pub attr : ℕ
  pub option : ℕ
  pub waiters : Queue
  pub waiter_count : ℕ
  pub tail : ℕ
  pub message_count : ℕ

pub record Clock : Type 0 where
  pub lo : ℕ
  pub hi : ℕ

-- All of an alarm's record but its two links.
pub record Alarm : Type 0 where
  pub deadline : Clock
  pub callback : ℕ
  pub arg : ℕ
  pub in_use : Bool
  pub permanent : Bool

-- The alarms and the clock. `counter i` is what the `i`-th reading of the timer's counter gives,
-- `reads` counts the readings made, and `compare` is the compare register.
pub record Alarms : Type 0 where
  pub alarms : ℕ → Alarm
  pub links : Links
  pub alarm_head : ℕ
  pub clock_seen : Clock
  pub ticks_granularity : ℕ
  pub ticks_coalesce : ℕ
  pub counter : ℕ → ℕ
  pub reads : ℕ
  pub compare : ℕ

-- Addresses of the image: two functions and the pool of threads.
pub record Symbols : Type 0 where
  pub exit_thread : ℕ
  pub delay_expired : ℕ
  pub threads_at : ℕ

-- The module's variables; `memory` maps the address of a word to the word.
pub record Kernel : Type 0 where
  pub threads : ℕ → Thread
  pub links : Links
  pub events : ℕ → Event
  pub semaphores : ℕ → Semaphore
  pub mailboxes : ℕ → Mailbox
  pub ready_queue : ℕ → Queue
  pub ready_bits : ℕ → ℕ
  pub current : ℕ
  pub pending : ℕ
  pub clockwork : Alarms
  pub memory : ℕ → ℕ
  pub symbols : Symbols

abbrev pub running : Kernel → Thread
running k = k.threads k.current

-- Tests on int32_t: `0 < a`, `a < b`.
abbrev pub is_positive : ℕ → Bool
is_positive a = ltb 0 a && ltb a 0x80000000

abbrev pub signed_lt : ℕ → ℕ → Bool
signed_lt a b = ltb (add32 a 0x80000000) (add32 b 0x80000000)
