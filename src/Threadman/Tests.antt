-- ===== src/Threadman/Tests.antt =====
-- Runs of src/iop/threadman.cpp on a kernel of four threads, and the theorems there.
use ps2bios_rebuild.Common.{
  ℕ, length, ◌+◌, ◌*◌, ◌<◌, ◌≤◌, ◌==◌, ◌≡◌, ◌≢◌, ◌⊎◌, ◌↔◌, refl, ap, ◌∙◌, inl, inr, arith, List, [],
  ◌∷◌, true, false, if◌then◌else◌, update, some,
}
use ps2bios_rebuild.Threadman.Types.{
  Thread, Links, Queue, Event, Semaphore, Mailbox, Clock, Alarms, Kernel, State, free, run, wait,
  WaitType, not_waiting, sleeping, on_sema, nobody, empty_queue,
}
use ps2bios_rebuild.Threadman.Links.{enqueue, set_next, set_prev, enqueue_by_priority}
use ps2bios_rebuild.Threadman.Ids.{
  slot_of, thread_of, id_of, semaphore_of, mailbox_of, first_unused,
}
use ps2bios_rebuild.Threadman.Ready.{
  priority_of, make_ready, link_ready, mark_ready, take_off_ready, pick,
}
use ps2bios_rebuild.Threadman.Switch.{
  answers, preempt_if_better, block_current, should_preempt, new_context,
}
use ps2bios_rebuild.Threadman.Clock.{
  clock_add, clock_subtract, clock_divide, usec_to_sys_clock, sys_clock_to_usec,
}
use ps2bios_rebuild.Threadman.Alarms.{insert_alarm}
use ps2bios_rebuild.Threadman.Semas.{SemaParameters, create_sema, signal_sema}
use ps2bios_rebuild.Threadman.Mailboxes.{message_priority, send_mbx, poll_mbx}
use ps2bios_rebuild.Threadman.Timer.{module_start}
use ps2bios_rebuild.Threadman.Lists.{IsQueue}
use ps2bios_rebuild.Threadman.Scheduler.{Holds}
use ps2bios_rebuild.Threadman.Moves.{make_ready-Holds, take_off_ready-Holds, pick-Holds}
use ps2bios_rebuild.Threadman.Choice.{Settled, Scheduled}
use ps2bios_rebuild.Threadman.Preempt.{Preemption}
use ps2bios_rebuild.Threadman.Blocking.{trapped}
use ps2bios_rebuild.Threadman.Boot.{
  nobody_ready, nobody_ready-Holds, idle_ready, module_start-Scheduled,
}
use ps2bios_rebuild.Threadman.HandOver.{block_current_hands_over}
use ps2bios_rebuild.Threadman.Release.{AllWait}
use ps2bios_rebuild.Threadman.Joins.{joined}
use ps2bios_rebuild.Threadman.Signals.{signal_sema_releases}
use ps2bios_rebuild.Threadman.Arithmetic.{value, IsClock, clock_subtract-clock_add}
use ps2bios_rebuild.Threadman.LongDivision.{clock_divide-value}
use ps2bios_rebuild.Threadman.Conversions.{sys_clock_to_usec-usec_to_sys_clock}
use ps2bios_rebuild.Threadman.Deadlines.{IsAlarms, Sorted, by_deadline}
use ps2bios_rebuild.Threadman.Insertion.{insert_alarm-IsAlarms}
use ps2bios_rebuild.Threadman.Boxes.{by_priority, queued}
use ps2bios_rebuild.Threadman.Mail.{HoldsMail, send_mbx-HoldsMail, poll_mbx-HoldsMail}
use ps2bios_rebuild.Threadman.Ranks.{enqueue_by_priority-IsQueue}
use ps2bios_rebuild.Threadman.Handles.{thread_of_iff, made_sema, create_sema-semaphore_of}

abbrev thread : State → WaitType → ℕ → ℕ → Thread
thread state type wait_id priority = record {
  state = state;
  wait_type = type;
  generation = 1;
  in_use = true;
  initial_priority = priority;
  current_priority = priority;
  attr = 0;
  option = 0;
  entry = 0x10000;
  stack = 0x20000;
  stack_size = 0x800;
  gp = 0;
  frame = 0;
  wait_id = wait_id;
  wakeup_count = 0;
  wait_out = 0;
  wait_bits = 0;
  wait_mode = 0;
}

-- Thread 0 idles, thread 1 runs, thread 2 waits for semaphore 0, and thread 3 is ready.
abbrev four_threads : ℕ → Thread
four_threads j =
    if j == 0
    then thread free not_waiting 0 127
    else if j == 1
    then thread run not_waiting 0 10
    else if j == 2
    then thread wait on_sema 0x101 5
    else thread free not_waiting 0 20

abbrev no_event : Event
no_event = record {
  in_use = false;
  generation = 0;
  attr = 0;
  option = 0;
  initial_bits = 0;
  bits = 0;
  waiters = empty_queue;
  waiter_count = 0;
}

abbrev one_semaphore : ℕ → Semaphore
one_semaphore j = record {
  in_use = j == 0;
  generation = 1;
  attr = 0;
  option = 0;
  initial = 0;
  max = 1;
  count = 0;
  waiters = if j == 0 then record { head = 2; tail = 2 } else empty_queue;
  waiter_count = if j == 0 then 1 else 0;
}

abbrev one_mailbox : ℕ → Mailbox
one_mailbox j = record {
  in_use = j == 0;
  generation = 1;
  attr = 4;
  option = 0;
  waiters = empty_queue;
  waiter_count = 0;
  tail = 0;
  message_count = 0;
}

abbrev no_links : Links
no_links = record { next = λ _. nobody; prev = λ _. nobody }

abbrev no_alarms : Alarms
no_alarms = record {
  alarms = λ j. record {
    deadline = record { lo = 100 * j; hi = 0 };
    callback = 0;
    arg = 0;
    in_use = false;
    permanent = false;
  };
  links = no_links;
  alarm_head = nobody;
  clock_seen = record { lo = 0; hi = 0 };
  ticks_granularity = 3686;
  ticks_coalesce = 7372;
  counter = λ i. i;
  reads = 0;
  compare = 0;
}

abbrev blank : Kernel
blank = record {
  threads = four_threads;
  links = no_links;
  events = λ _. no_event;
  semaphores = one_semaphore;
  mailboxes = one_mailbox;
  ready_queue = λ _. empty_queue;
  ready_bits = λ _. 0;
  current = 1;
  pending = 1;
  clockwork = no_alarms;
  memory = λ _. 0;
  symbols = record { exit_thread = 0x11000; delay_expired = 0x12000; threads_at = 0x13000 };
}

abbrev idle : Kernel
idle = make_ready blank 0

abbrev busy : Kernel
busy = make_ready idle 3

abbrev idle_list : ℕ → List ℕ
idle_list = update nobody_ready 127 (0 ∷ [])

abbrev busy_lists : ℕ → List ℕ
busy_lists = update idle_list 20 (3 ∷ [])

idle-Holds : Holds idle idle_list
idle-Holds =
    make_ready-Holds 0 (nobody_ready-Holds blank refl refl) (λ e. absurd (omega arith))
      (omega arith) tt

busy-Holds : Holds busy busy_lists
unfolding make_ready link_ready mark_ready
busy-Holds = make_ready-Holds 3 idle-Holds (λ e. absurd (omega arith)) (omega arith) tt

priorities : (j : ℕ) → priority_of busy j < 128
unfolding make_ready link_ready mark_ready
priorities j = ground arith

busy-Settled : Settled busy
unfolding make_ready link_ready mark_ready
busy-Settled = record { stays = inr refl; runs = refl }

busy-Scheduled : Scheduled busy busy_lists
unfolding make_ready link_ready mark_ready
busy-Scheduled = record {
  holds = busy-Holds;
  range = priorities;
  thread = λ e. absurd (omega (arith, e));
  choice = inl busy-Settled;
}

somebody : busy_lists 20 ≢ []
somebody e = let f : 1 ≡ 0 = ap length e in absurd (omega (arith, f))

block_current_hands_over_example :
    (t : Kernel) × (p : ℕ) × (x : ℕ) × (ys : List ℕ) × (trapped (block_current busy sleeping 0)
      ≡ some t)
    × (busy_lists p ≡ x ∷ ys)
    × ((j : ℕ) → j < p → busy_lists j ≡ [])
    × (should_preempt t ≡ true)
    × ((new_context t 0x20000).1.current ≡ x)
    × (((new_context t 0x20000).1.threads busy.current).state ≡ wait)
    × Scheduled (new_context t 0x20000).1 (update busy_lists p ys)
    × Settled (new_context t 0x20000).1
block_current_hands_over_example =
    block_current_hands_over sleeping 0 0x20000 20 busy-Scheduled busy-Settled (omega arith)
      somebody

pick-Holds_example :
    (((p : ℕ) → p < 128 → busy_lists p ≡ []) × (pick busy ≡ (nobody, busy)))
    ⊎ ((p : ℕ) × (id : ℕ) × (ys : List ℕ) × (p < 128)
        × (busy_lists p ≡ id ∷ ys)
        × ((j : ℕ) → j < p → busy_lists j ≡ [])
        × ((pick busy).0 ≡ id)
        × Holds (pick busy).1 (update busy_lists p ys))
pick-Holds_example = pick-Holds busy-Holds

busy_priority : priority_of busy 3 ≡ 20
unfolding make_ready link_ready mark_ready
busy_priority = refl

take_off_ready-Holds_example :
    Holds (take_off_ready busy 3) (update busy_lists (priority_of busy 3) [])
take_off_ready-Holds_example =
    take_off_ready-Holds 3 [] [] busy-Holds (omega (arith, busy_priority))
      (ap busy_lists busy_priority)

busy_semaphore : semaphore_of busy 0x101 ≡ some 0
unfolding semaphore_of slot_of make_ready link_ready mark_ready
busy_semaphore = refl

busy_waiters : IsQueue busy.links (busy.semaphores 0).waiters (2 ∷ [])
unfolding make_ready link_ready mark_ready enqueue set_next set_prev
busy_waiters = record {
  head = refl;
  tail = refl;
  links = ((λ e. absurd (omega (arith, e))), refl, refl, tt);
  distinct = (tt, tt);
}

busy_waits :
    AllWait busy (2 ∷ [])
    × ((busy.threads 2).wait_type ≡ on_sema)
    × ((busy.threads 2).wait_id ≡ 0x101)
unfolding make_ready link_ready mark_ready
busy_waits = ((refl, tt), refl, refl)

signal_sema_releases_example :
    (k : Kernel) × (signal_sema busy 0x101 true ≡ answers 0 (preempt_if_better k 2))
    × IsQueue k.links (k.semaphores 0).waiters []
    × ((k.semaphores 0).count ≡ (busy.semaphores 0).count)
    × Scheduled k (joined busy busy_lists 2)
    × Preemption k
        (joined busy busy_lists 2)
        2
        (busy_lists (priority_of busy 2))
        (preempt_if_better k 2)
signal_sema_releases_example =
    signal_sema_releases 0x101 0 2 [] busy-Scheduled busy_semaphore busy_waiters busy_waits.0
      busy_waits.1 (ap (semaphore_of busy) busy_waits.2 ∙ busy_semaphore)

blank_mailbox : mailbox_of blank 0x101 ≡ some 0
unfolding mailbox_of slot_of
blank_mailbox = refl

send_mbx-HoldsMail_example :
    (k : Kernel) × (send_mbx blank 0x101 0x500 false ≡ answers 0 k)
    × HoldsMail k 0 (queued (message_priority blank.memory) 4 0x500 [])
send_mbx-HoldsMail_example =
    send_mbx-HoldsMail 0x101 0x500 [] false blank_mailbox refl (record { box = refl; count = refl })
      (λ e. absurd (omega (arith, e))) tt (omega arith)

-- One message, at 0x500, in the box.
abbrev mailed : Kernel
mailed = record blank {
  memory = update blank.memory 0x500 0x500;
  mailboxes = λ j. record (one_mailbox j) { tail = 0x500; message_count = 1 };
}

mailed_mailbox : mailbox_of mailed 0x101 ≡ some 0
unfolding mailbox_of slot_of
mailed_mailbox = refl

poll_mbx-HoldsMail_example :
    let (answer, k) = poll_mbx mailed 0x600 0x101 in
    (answer ≡ 0) × (k.memory 0x600 ≡ 0x500) × HoldsMail k 0 []
poll_mbx-HoldsMail_example =
    poll_mbx-HoldsMail 0x101 0x600 0x500 [] mailed_mailbox
      (record {
        box = (
          (λ e. absurd (omega (arith, e))),
          record { hops = (refl, tt); closed = refl; distinct = (tt, tt) },
        );
        count = refl;
      })
      (omega arith) (λ e. absurd (omega (arith, e))) tt

abbrev some_clock : Clock
some_clock = record { lo = 5; hi = 7 }

some_clock-IsClock : IsClock some_clock
some_clock-IsClock = record { lo = omega arith; hi = omega arith }

clock_divide-value_example :
    let (q, r) = clock_divide some_clock 125 in
    (value q * 125 + r ≡ value some_clock) × (r < 125) × IsClock q
clock_divide-value_example = clock_divide-value 125 some_clock-IsClock (omega arith) (omega arith)

clock_subtract-clock_add_example :
    value (clock_subtract (clock_add some_clock some_clock) some_clock) ≡ value some_clock
clock_subtract-clock_add_example = clock_subtract-clock_add some_clock-IsClock some_clock-IsClock

sys_clock_to_usec-usec_to_sys_clock_example :
    let (seconds, rest) = sys_clock_to_usec (usec_to_sys_clock 1000) in
    (seconds * 1000000 + rest ≤ 1000) × (1000 ≤ seconds * 1000000 + rest + 1) × (rest < 1000000)
sys_clock_to_usec-usec_to_sys_clock_example = sys_clock_to_usec-usec_to_sys_clock 1000 (omega arith)

abbrev one_alarm : Alarms
one_alarm = record no_alarms { alarm_head = 3 }

insert_alarm-IsAlarms_example :
    (a : Alarms) × (insert_alarm one_alarm 2 ≡ some a)
    × IsAlarms a (by_deadline one_alarm 2 (3 ∷ []))
    × Sorted a (by_deadline one_alarm 2 (3 ∷ []))
insert_alarm-IsAlarms_example =
    insert_alarm-IsAlarms one_alarm 2 (3 ∷ [])
      (record {
        head = refl;
        links = ((λ e. absurd (omega (arith, e))), refl, refl, tt);
        distinct = (tt, tt);
      })
      tt (omega arith) (λ e. absurd (omega (arith, e))) ((λ e. absurd (omega (arith, e))), tt)

enqueue_by_priority-IsQueue_example :
    (r : Links × Queue) × (enqueue_by_priority no_links (λ j. j) (record { head = 2; tail = 2 }) 1
      ≡ some r)
    × IsQueue r.0 r.1 (by_priority (λ j. j) 1 (2 ∷ []))
enqueue_by_priority-IsQueue_example =
    enqueue_by_priority-IsQueue (λ j. j) 1 (2 ∷ [])
      (record {
        head = refl;
        tail = refl;
        links = ((λ e. absurd (omega (arith, e))), refl, refl, tt);
        distinct = (tt, tt);
      })
      (omega arith) (λ e. absurd (omega (arith, e))) ((λ e. absurd (omega (arith, e))), tt)

thread_of_iff_example :
    (thread_of blank 0x401 ≡ some 3)
    ↔ ((3 < 48) × ((blank.threads 3).in_use ≡ true) × (0x401 ≡ id_of blank 3))
thread_of_iff_example = thread_of_iff blank 3 0x401 (omega arith) (λ j. ground arith)

abbrev asked : SemaParameters
asked = record { attr = 1; option = 0; initial = 2; max = 5 }

second_slot : first_unused (λ j. (blank.semaphores j).in_use) 48 0 ≡ some 1
unfolding first_unused
second_slot = refl

create_sema-semaphore_of_example :
    let (id, k) = create_sema blank false asked in
    (semaphore_of k id ≡ some 1)
    × ((blank.semaphores 1).in_use ≡ false)
    × (k.semaphores 1 ≡ made_sema blank 1 asked)
    × ((j : ℕ) → j ≢ 1 → k.semaphores j ≡ blank.semaphores j)
create_sema-semaphore_of_example = create_sema-semaphore_of blank asked 1 refl second_slot

module_start-Scheduled_example :
    (b : Kernel) × (module_start blank 0x14000 0x15000 0x1FF0 0 ≡ some b)
    × (b.current ≡ 1)
    × Scheduled b idle_ready
    × Settled b
module_start-Scheduled_example =
    module_start-Scheduled blank (λ j. ground arith) 0x14000 0x15000 0 0x1FF0
