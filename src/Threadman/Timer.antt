-- ===== src/Threadman/Timer.antt =====
-- The alarm calls of src/iop/threadman.cpp, its timer's interrupt, DelayThread, and the entry.
use ps2bios_rebuild.Common.{
  ℕ, zero, suc, ◌+◌, ◌-◌, ◌*◌, ◌/◌, ◌%◌, Bool, true, false, not, ◌&&◌, Option, none, some, ltb,
  ◌==◌, if◌then◌else◌, update, add32,
}
use ps2bios_rebuild.Threadman.Types.{
  Clock, Alarm, Alarms, Thread, Kernel, run, wait, delayed, nobody, idle_priority, empty_queue,
  alarm_count, wait_code, illegal_context,
}
use ps2bios_rebuild.Threadman.Clock.{clock_before, clock_add, clock_subtract, usec_to_sys_clock}
use ps2bios_rebuild.Threadman.Alarms.{
  read_clock, unlink_alarm, insert_alarm, allocate_alarm, arm_timer, add_alarm, remove_alarm,
  set_alarm_record,
}
use ps2bios_rebuild.Threadman.Ready.{set_thread, make_ready}
use ps2bios_rebuild.Threadman.Switch.{
  Outcome, answers, never, block_current, thread_bytes, thread_address, wake, prime_frame,
}
use ps2bios_rebuild.Threadman.Threads.{is_state}

abbrev pub with_clockwork : Kernel → Alarms → Kernel
with_clockwork k a = record k { clockwork = a }

-- What an operation on the alarms answers; `never` where a loop over them does not end.
unfoldable pub on_alarms : Kernel → Option (ℕ × Alarms) → Outcome
on_alarms k none = never
on_alarms k (some (answer, a)) = answers answer (with_clockwork k a)

-- Ordinal 34: the clock is stored where the caller asks for it.
unfoldable pub get_system_time : Kernel → ℕ → ℕ × Kernel
get_system_time k out =
    let (now, a) = read_clock k.clockwork in
    let k = with_clockwork k a in
    (
      0,
      if out == 0
          then k
          else record k { memory = update (update k.memory out now.lo) (out + 4) now.hi },
    )

unfoldable pub set_alarm : Kernel → Bool → Clock → ℕ → ℕ → Outcome
set_alarm k interrupted delta callback arg =
    if interrupted
    then answers illegal_context k
    else on_alarms k (add_alarm k.clockwork delta callback arg)

unfoldable pub set_alarm_interrupt : Kernel → Bool → Clock → ℕ → ℕ → Outcome
set_alarm_interrupt k interrupted delta callback arg =
    if not interrupted
    then answers illegal_context k
    else on_alarms k (add_alarm k.clockwork delta callback arg)

unfoldable pub cancel_alarm : Kernel → Bool → ℕ → ℕ → Outcome
cancel_alarm k interrupted callback arg =
    if interrupted
    then answers illegal_context k
    else on_alarms k (remove_alarm k.clockwork callback arg)

unfoldable pub cancel_alarm_interrupt : Kernel → Bool → ℕ → ℕ → Outcome
cancel_alarm_interrupt k interrupted callback arg =
    if not interrupted
    then answers illegal_context k
    else on_alarms k (remove_alarm k.clockwork callback arg)

unfoldable pub is_delayed : Thread → Bool
is_delayed t = is_state t.state wait && wait_code t.wait_type == wait_code delayed

-- `arg` is the address of the thread's record.
unfoldable pub delay_expired : Kernel → ℕ → Outcome
delay_expired k arg =
    let id = (arg - k.symbols.threads_at) / thread_bytes in
    if is_delayed (k.threads id) then wake k id 0 true else answers 0 k

unfoldable pub delay_thread : Kernel → Bool → ℕ → Outcome
delay_thread k interrupted usec =
    if interrupted
    then answers illegal_context k
    else elim (add_alarm k.clockwork (usec_to_sys_clock usec) k.symbols.delay_expired
        (thread_address k k.current)) [
          | none ↦ never
          | some (added, a) ↦
              if added == 0
              then block_current (with_clockwork k a) delayed 0
              else answers added (with_clockwork k a)
        ]

-- What a due alarm does. `call` is the callback of a client, with its answer; DelayThread's own is
-- called as it stands, and answers 0.
unfoldable pub call_back : (Kernel → ℕ → ℕ → ℕ × Kernel) → Kernel → Alarm → Option (ℕ × Kernel)
call_back call k alarm =
    if alarm.callback == k.symbols.delay_expired
    then elim (delay_expired k alarm.arg) [ answers a k' ↦ some (0, k') | _ ↦ none ]
    else some (call k alarm.callback alarm.arg)

abbrev pub reinsert : Kernel → ℕ → Clock → Option Kernel
reinsert k index deadline =
    let a = k.clockwork in
    elim (insert_alarm (set_alarm_record a index (record (a.alarms index) { deadline = deadline }))
      index) [ none ↦ none | some a ↦ some (with_clockwork k a) ]

-- An alarm that was called: freed, or due again at most ticks_coalesce later.
unfoldable pub after_call : Kernel → ℕ → ℕ → Option Kernel
after_call k index again =
    let a = k.clockwork in
    if again == 0
    then some
        (with_clockwork k (set_alarm_record a index (record (a.alarms index) { in_use = false })))
    else let more = if ltb again a.ticks_coalesce then again else a.ticks_coalesce in
      reinsert k index (clock_add (a.alarms index).deadline (record { lo = more; hi = 0 }))

-- The head of the queue, which is due and taken off.
unfoldable pub fire : (Kernel → ℕ → ℕ → ℕ × Kernel) → Kernel → ℕ → Option Kernel
fire call k index =
    let k = with_clockwork k (unlink_alarm k.clockwork index) in
    let alarm = k.clockwork.alarms index in
    if alarm.permanent
    then reinsert k index (record alarm.deadline { hi = add32 alarm.deadline.hi 1 })
    else elim (call_back call k alarm) [ none ↦ none | some (again, k) ↦ after_call k index again ]

-- The walk over the due alarms, with fuel; `none` if it runs out.
unfoldable pub fire_due : ℕ → (Kernel → ℕ → ℕ → ℕ × Kernel) → Kernel → Option Kernel
fire_due zero call k = none
fire_due (suc n) call k =
    let index = k.clockwork.alarm_head in
    let deadline = (k.clockwork.alarms index).deadline in
    let (now, a) = read_clock k.clockwork in
    let read = with_clockwork k a in
    let rest : Option Kernel = elim (fire call read index) [
      | none ↦ none
      | some k ↦ fire_due n call k
    ] in
    if index == nobody then some k else (if clock_before now deadline then some read else rest)

-- kStatusTarget is bit 11 of the timer's status.
unfoldable pub timer_handler : ℕ → (Kernel → ℕ → ℕ → ℕ × Kernel) → Kernel → ℕ → Option (ℕ × Kernel)
timer_handler fuel call k status =
    let (now, a) = read_clock k.clockwork in
    let k = with_clockwork k a in
    if status / 0x800 % 2 == 0 then some (1, k) else elim (fire_due fuel call k) [
      | none ↦ none
      | some k ↦ elim (arm_timer k.clockwork) [
        | none ↦ none
        | some a ↦ some (1, with_clockwork k a)
      ]
    ]

abbrev pub granularity_usec : ℕ
granularity_usec = 100

abbrev pub seed_usec : ℕ
seed_usec = 2000

-- for (k = 0; k < n; k++) alarms[k].in_use = false;
unfoldable pub free_alarms : ℕ → (ℕ → Alarm) → ℕ → Alarm
free_alarms zero alarms = alarms
free_alarms (suc n) alarms =
    let rest = free_alarms n alarms in update rest n (record (rest n) { in_use = false })

-- The permanent alarm, in a pool that is otherwise free, before it is queued.
unfoldable pub seed_clock : Alarms → ℕ × Alarms
seed_clock a =
    let ticks = (usec_to_sys_clock granularity_usec).lo in
    let (permanent, b) = allocate_alarm (record a {
      ticks_granularity = ticks;
      ticks_coalesce = ticks * 2 % 4294967296;
      clock_seen = record { lo = 0; hi = 0 };
      alarms = free_alarms alarm_count a.alarms;
      alarm_head = nobody;
    }) in
    let seed = clock_subtract (record { lo = 0; hi = 0 }) (usec_to_sys_clock seed_usec) in
    (
      permanent,
      set_alarm_record b permanent (record (b.alarms permanent) {
        permanent = true;
        callback = 0;
        arg = 0;
        deadline = seed;
      }),
    )

-- What startClock leaves in the module's variables, and in the compare register.
unfoldable pub start_clock : Alarms → Option Alarms
start_clock a =
    let (permanent, b) = seed_clock a in
    elim (insert_alarm b permanent) [
      | none ↦ none
      | some b ↦ some (record b { compare = b.ticks_granularity })
    ]

-- for (j = 0; j < n; j++) ready[j] = {kNone, kNone};
unfoldable pub empty_queues : Kernel → Kernel
empty_queues k = record k { ready_queue = λ _. empty_queue; ready_bits = λ _. 0 }

-- The idle thread: `idle` is idleLoop, `stack` the address of its stack.
unfoldable pub add_idle : Kernel → ℕ → ℕ → ℕ → Kernel
add_idle k idle stack gp =
    let k = set_thread k 0 (record (k.threads 0) {
      in_use = true;
      generation = 1;
      attr = 0x02000000;
      entry = idle;
      stack = stack;
      stack_size = 0x200;
      gp = gp;
      initial_priority = idle_priority;
      current_priority = idle_priority;
    }) in
    make_ready (prime_frame k 0 0) 0

-- The record of the code that is running, whose $sp is `sp`.
abbrev pub boot_record : Kernel → ℕ → ℕ → Thread
boot_record k sp gp = record (k.threads 1) {
  in_use = true;
  generation = 1;
  attr = 0x02000000;
  entry = 0;
  stack = sp / 0x1000 * 0x1000;
  stack_size = 0x1000;
  gp = gp;
  initial_priority = 8;
  current_priority = 1;
  state = run;
  frame = 0;
}

unfoldable pub add_boot : Kernel → ℕ → ℕ → Kernel
add_boot k sp gp = record (set_thread k 1 (boot_record k sp gp)) { current = 1; pending = 1 }

-- The entry, where its libraries are registered.
unfoldable pub module_start : Kernel → ℕ → ℕ → ℕ → ℕ → Option Kernel
module_start k idle stack sp gp =
    let k = add_boot (add_idle (empty_queues k) idle stack gp) sp gp in
    elim (start_clock k.clockwork) [ none ↦ none | some a ↦ some (with_clockwork k a) ]
