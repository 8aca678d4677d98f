-- ===== src/Threadman/Threads.antt =====
-- thbase of src/iop/threadman.cpp: a thread's life. `interrupted` is what INTRMAN's query_context
-- answers, whether an interrupt is being served.
use ps2bios_rebuild.Common.{
  ℕ, ◌*◌, ◌/◌, ◌%◌, Bool, true, false, not, ◌&&◌, ◌||◌, Option, none, some, ltb, ◌==◌,
  if◌then◌else◌, add32, bit_and,
}
use ps2bios_rebuild.Threadman.Types.{
  Thread, Kernel, State, free, ready, wait, dormant, not_waiting, nobody, thread_count, running,
  illegal_context, no_memory, illegal_attr, illegal_entry, illegal_priority, illegal_stack_size,
  illegal_thid, unknown_thid, is_dormant, not_dormant, state_code,
}
use ps2bios_rebuild.Threadman.Links.{enqueue, pop_front, set_next, set_prev}
use ps2bios_rebuild.Threadman.Ids.{thread_of, id_of, first_unused, next_generation}
use ps2bios_rebuild.Threadman.Ready.{
  set_thread, priority_of, with_ready, make_ready, take_off_ready, pick,
}
use ps2bios_rebuild.Threadman.Switch.{
  Outcome, answers, never, and_then, then_answer, set_pending, leave_wait, switch_now,
  hand_off_if_better, prime_frame,
}

pub record ThreadParameters : Type 0 where
  pub attr : ℕ
  pub option : ℕ
  pub entry : ℕ
  pub stack_size : ℕ
  pub priority : ℕ

-- The record of a new thread.
unfoldable pub made_thread : Thread → ThreadParameters → ℕ → ℕ → Thread
made_thread t p stack gp = record t {
  in_use = true;
  generation = next_generation t.generation;
  state = dormant;
  wait_type = not_waiting;
  attr = p.attr;
  option = p.option;
  entry = p.entry;
  stack = stack;
  stack_size = p.stack_size;
  gp = gp;
  initial_priority = p.priority;
  current_priority = p.priority;
  frame = 0;
  wakeup_count = 0;
}

-- `allocate` is SYSMEM's answer to a request of a size, 0 where it has none, and `gp` the caller's
-- $gp.
unfoldable pub place_thread : Kernel → ThreadParameters → (ℕ → ℕ) → ℕ → ℕ × Kernel
place_thread k p allocate gp = elim (first_unused (λ j. (k.threads j).in_use) thread_count 0) [
  | none ↦ (no_memory, k)
  | some index ↦
      let stack = allocate p.stack_size in
      if stack == 0
      then (no_memory, k)
      else let k = set_thread k index (made_thread (k.threads index) p stack gp) in
        let k = record k { links = set_prev (set_next k.links index nobody) index nobody } in
        (id_of k index, k)
]

unfoldable pub round_stack : ℕ → ℕ
round_stack size = add32 size 0xFF / 256 * 256

-- The answer, and the stack size that the parameters are left with.
unfoldable pub create_thread : Kernel → Bool → ThreadParameters → (ℕ → ℕ) → ℕ → (ℕ × Kernel) × ℕ
create_thread k interrupted p allocate gp =
    if interrupted
    then ((illegal_context, k), p.stack_size)
    else if not (bit_and p.attr 0x1CFFFFF7 == 0)
    then ((illegal_attr, k), p.stack_size)
    else if ltb p.priority 1 || ltb 126 p.priority
    then ((illegal_priority, k), p.stack_size)
    else if not (p.entry % 4 == 0)
    then ((illegal_entry, k), p.stack_size)
    else if ltb p.stack_size 0x130
    then ((illegal_stack_size, k), p.stack_size)
    else let size = round_stack p.stack_size in
      (place_thread k (record p { stack_size = size }) allocate gp, size)

unfoldable pub is_state : State → State → Bool
is_state s t = state_code s == state_code t

unfoldable pub delete_thread : Kernel → Bool → ℕ → ℕ × Kernel
delete_thread k interrupted id =
    if interrupted then (illegal_context, k) else elim (thread_of k id) [
      | none ↦ (unknown_thid, k)
      | some index ↦
          let t = k.threads index in
          if is_state t.state dormant
          then (0, set_thread k index (record t { in_use = false; state = free }))
          else (not_dormant, k)
    ]

-- A thread that is dormant goes to its initial priority, gets a frame, and is ready.
unfoldable pub ready_to_start : Kernel → ℕ → ℕ → Kernel
ready_to_start k index arg =
    let t = k.threads index in
    let k = set_thread k index (record t { current_priority = t.initial_priority }) in
    make_ready (prime_frame k index arg) index

-- startThread, and startThreadArgs with `arg` for its argv.
unfoldable pub start_thread : Kernel → Bool → ℕ → ℕ → Outcome
start_thread k interrupted id arg =
    if interrupted then answers illegal_context k else elim (thread_of k id) [
      | none ↦ answers unknown_thid k
      | some index ↦
          if is_state (k.threads index).state dormant
          then then_answer (hand_off_if_better (ready_to_start k index arg) index) 0
          else answers not_dormant k
    ]

-- The trap does not come back.
unfoldable pub exit_thread : Kernel → Outcome
exit_thread k =
    let k =
      set_thread k k.current (record (running k) { state = dormant; wait_type = not_waiting }) in
    let (id, k) = pick k in and_then (switch_now (set_pending k id)) (λ k. never)

-- A thread off the list it is in; `none` means that a loop over the alarms did not end.
unfoldable pub detach : Kernel → ℕ → Option Kernel
detach k index =
    if is_state (k.threads index).state ready
    then some (take_off_ready k index)
    else (if is_state (k.threads index).state wait then leave_wait k index else some k)

unfoldable pub put_dormant : Kernel → ℕ → Kernel
put_dormant k index =
    let k = if k.pending == index then set_pending k k.current else k in
    set_thread k index (record (k.threads index) { state = dormant })

-- Both forms, the thread's and the interrupt's.
unfoldable pub terminate_thread : Kernel → ℕ → Outcome
terminate_thread k id = if id == 0 then answers illegal_thid k else elim (thread_of k id) [
  | none ↦ answers unknown_thid k
  | some index ↦
      if index == k.current
      then answers illegal_thid k
      else if is_state (k.threads index).state dormant
      then answers is_dormant k
      else elim (detach k index) [ none ↦ never | some k ↦ answers 0 (put_dormant k index) ]
]

-- An id, where 0 is the thread that runs.
unfoldable pub thread_or_running : Kernel → ℕ → Option ℕ
thread_or_running k id = if id == 0 then some k.current else thread_of k id

abbrev pub set_priority : Kernel → ℕ → ℕ → Kernel
set_priority k index priority =
    set_thread k index (record (k.threads index) { current_priority = priority })

-- The running thread, with its new priority, gives way to a better one.
unfoldable pub yield_to_better : Kernel → ℕ → Outcome
yield_to_better k index =
    let (best, k') = pick k in
    if best == nobody
    then answers 0 k'
    else if ltb (priority_of k' best) (priority_of k' index)
    then switch_now (set_pending (make_ready k' index) best)
    else answers 0 (make_ready k' best)

unfoldable pub change_priority : Kernel → ℕ → ℕ → Bool → Outcome
change_priority k index priority from_interrupt =
    if is_state (k.threads index).state ready
    then (let k = make_ready (set_priority (take_off_ready k index) index priority) index in
        if from_interrupt then answers 0 k else hand_off_if_better k index)
    else let k = set_priority k index priority in
      (if index == k.current && not from_interrupt then yield_to_better k index else answers 0 k)

unfoldable pub change_thread_priority : Kernel → ℕ → ℕ → Bool → Outcome
change_thread_priority k id priority from_interrupt =
    if ltb priority 1 || ltb 126 priority
    then answers illegal_priority k
    else elim (thread_or_running k id) [
      | none ↦ answers unknown_thid k
      | some index ↦
          if is_state (k.threads index).state dormant
          then answers is_dormant k
          else then_answer (change_priority k index priority from_interrupt) (priority_of k index)
    ]

unfoldable pub rotate_queue : Kernel → ℕ → Kernel
rotate_queue k priority =
    let (id, l, q) = pop_front k.links (k.ready_queue priority) in
    with_ready k priority (if id == nobody then (l, q) else enqueue l q id)

unfoldable pub rotate_thread_ready_queue : Kernel → ℕ → Bool → Outcome
rotate_thread_ready_queue k requested from_interrupt =
    if ltb 127 requested
    then answers illegal_priority k
    else let priority = if requested == 0 then priority_of k k.current else requested in
      if not from_interrupt
        && not (k.current == nobody)
        && priority_of k k.current == priority
        && not ((k.ready_queue priority).head == nobody)
      then (let (id, k) = pick (make_ready k k.current) in
          then_answer (switch_now (set_pending k id)) 0)
      else answers 0 (rotate_queue k priority)
