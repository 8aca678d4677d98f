-- ===== src/EeThread/Switch.antt =====
-- The context switch of src/kernel/thread.cpp. A frame is `block_words` words of memory, the
-- dispatcher's block an array of as many. `none` is the kernel's stop where nothing is ready.
use ps2bios_rebuild.Common.{
  ℕ, zero, suc, ◌-◌, ◌*◌, ◌/◌, Bool, true, false, not, ◌||◌, Option, none, some, ◌==◌,
  if◌then◌else◌, update, add32, sub32,
}
use ps2bios_rebuild.EeThread.Types.{
  Queue, Kernel, run, ready, wait, dormant, WaitType, not_waiting, queue_count, nobody, frame_bytes,
  frame_push, block_words, slot_v0, slot_gp, slot_sp, slot_fp, slot_ra, current,
}
use ps2bios_rebuild.EeThread.Tables.{set_thread, take_off_ready_queue}

-- copyWords to memory: word `j` and the `n - 1` behind it.
unfoldable pub store_words : (ℕ → ℕ) → ℕ → (ℕ → ℕ) → ℕ → ℕ → ℕ → ℕ
store_words memory to block zero j = memory
store_words memory to block (suc n) j =
    store_words (update memory (add32 to (4 * j)) (block j)) to block n (suc j)

-- copyWords from memory.
unfoldable pub load_words : (ℕ → ℕ) → (ℕ → ℕ) → ℕ → ℕ → ℕ → ℕ → ℕ
load_words block memory from zero j = block
load_words block memory from (suc n) j =
    load_words (update block j (memory (add32 from (4 * j)))) memory from n (suc j)

unfoldable pub park_current : Kernel → (ℕ → ℕ) → ℕ → Bool → Kernel
park_current k block resume_pc by_interrupt =
    let frame = sub32 (block (slot_sp / 4)) frame_push in
    record (set_thread k k.current_thread
      (record (current k) { resume_pc = resume_pc; context = frame })) {
        memory = store_words k.memory frame block block_words 0;
        parked_by_interrupt = update k.parked_by_interrupt k.current_thread by_interrupt;
      }

unfoldable pub save_caller : Kernel → Kernel
save_caller k = park_current k k.syscall_context k.epc false

-- The scan from `queue` on, with `n` queues left: the queue found.
unfoldable pub first_ready : (ℕ → Queue) → ℕ → ℕ → Option ℕ
first_ready queues zero queue = none
first_ready queues (suc n) queue =
    let rest = first_ready queues n (suc queue) in
    if (queues queue).head == nobody then rest else some queue

unfoldable pub pick_next : Kernel → Option (ℕ × Kernel)
pick_next k = elim (first_ready k.ready_queue (queue_count - k.lowest_ready) k.lowest_ready) [
  | none ↦ none
  | some queue ↦ some ((k.ready_queue queue).head, record k { lowest_ready = queue })
]

unfoldable pub resume : Kernel → ℕ → ℕ × Kernel
resume k id =
    let t = record (k.threads id) { state = run } in
    (
      k.memory (add32 t.context slot_v0),
      record (set_thread k id t) {
        current_thread = id;
        syscall_context = load_words k.syscall_context k.memory t.context block_words 0;
        epc = t.resume_pc;
        restore_full = k.parked_by_interrupt id;
      },
    )

-- `resume(pickNext())`: what a handler that switches returns.
unfoldable pub switch : Kernel → Option (ℕ × Kernel)
switch k = elim (pick_next k) [ none ↦ none | some (id, k') ↦ some (resume k' id) ]

unfoldable pub set_resume_value : Kernel → ℕ → ℕ → Kernel
set_resume_value k id value = record k {
  memory = update k.memory (add32 (k.threads id).context slot_v0) value;
}

unfoldable pub yield : Kernel → ℕ → Option (ℕ × Kernel)
yield k answer =
    let k = save_caller k in
    let k = set_resume_value k k.current_thread answer in
    switch (set_thread k k.current_thread (record (current k) { state = ready }))

unfoldable pub block_caller : Kernel → WaitType → ℕ → ℕ → Option (ℕ × Kernel)
block_caller k type wait_id answer =
    let k = save_caller k in
    let k = set_resume_value k k.current_thread answer in
    let k = take_off_ready_queue k k.current_thread in
    switch (
      set_thread k k.current_thread
        (record (current k) { state = wait; wait_type = type; wait_id = wait_id }))

-- for (k = 0; k < n; k++) frame[k] = 0;
unfoldable pub clear_words : (ℕ → ℕ) → ℕ → ℕ → ℕ → ℕ
clear_words memory to n = store_words memory to (λ _. 0) n 0

unfoldable pub prime_frame : Kernel → ℕ → Kernel
prime_frame k id =
    let t = k.threads id in
    let top = add32 t.stack t.stack_size in
    let frame = sub32 top frame_bytes in
    let memory = clear_words k.memory frame block_words in
    let memory = update memory (add32 frame slot_gp) t.gp in
    let memory = update memory (add32 frame slot_sp) (sub32 top 0x20) in
    let memory = update memory (add32 frame slot_fp) (sub32 top 0x20) in
    record (set_thread k id (record t { context = frame })) {
      memory = update memory (add32 frame slot_ra) t.root;
    }

unfoldable pub reset_to_dormant : Kernel → ℕ → Kernel
reset_to_dormant k id =
    let t = k.threads id in
    prime_frame
      (set_thread k id (record t {
        state = dormant;
        resume_pc = t.entry;
        current_priority = t.initial_priority;
        wait_type = not_waiting;
        wakeup_count = 0;
      }))
      id

unfoldable pub clear_reschedule_request : Kernel → Kernel
clear_reschedule_request k = record k { reschedule_requested = false }

-- The interrupt frame is a block of its own, with EPC in word 0 and Status in word 1; it is
-- rewritten if a switch is due.
unfoldable pub interrupt_reschedule : Kernel → (ℕ → ℕ) → Option (Bool × (ℕ → ℕ) × Kernel)
interrupt_reschedule k frame =
    if not k.reschedule_requested || not k.tables_ready
    then some (false, frame, k)
    else let k = park_current (record k { reschedule_requested = false }) frame (frame 0) true in
      elim (pick_next (set_thread k k.current_thread (record (current k) { state = ready }))) [
        | none ↦ none
        | some (next, k') ↦
            let t = record (k'.threads next) { state = run } in
            let loaded = load_words frame k'.memory t.context block_words 0 in
            some (
              true,
              update (update loaded 1 (frame 1)) 0 t.resume_pc,
              record (set_thread k' next t) { current_thread = next },
            )
      ]
