-- ===== src/EeThread/Threads.antt =====
-- The thread slots of src/kernel/thread.cpp: creation, start and end, priorities, rotation. A
-- handler that switches answers `none` where the kernel stops.
use ps2bios_rebuild.Common.{
  ℕ, ◌%◌, Bool, true, false, not, ◌||◌, Option, some, ltb, leb, ◌==◌, if◌then◌else◌, update, add32,
}
use ps2bios_rebuild.EeThread.Types.{
  Kernel, Symbols, State, free, dormant, thread_count, nobody, minus_one, is_negative, sign_extend,
  slot_a0, current,
}
use ps2bios_rebuild.EeThread.Links.{enqueue, pop_front}
use ps2bios_rebuild.EeThread.Tables.{
  set_thread, with_queue, is_run_or_ready, prepare_tables, link_ready, make_ready,
  take_off_ready_queue, detach, free_thread_record, valid_other,
}
use ps2bios_rebuild.EeThread.Switch.{switch, yield, reset_to_dormant}

-- The two forms of a slot: 0x25 and its like switch behind a result that is no error.
abbrev pub then_yield : ℕ × Kernel → Option (ℕ × Kernel)
then_yield (r, k) = if is_negative r then some (r, k) else yield k r

unfoldable pub is_free : State → Bool
is_free free = true
is_free _ = false

unfoldable pub is_dormant : State → Bool
is_dormant dormant = true
is_dormant _ = false

-- Slot 0x20, over the words of the caller's block.
unfoldable pub create_thread : Symbols → Kernel → (ℕ → ℕ) → ℕ × Kernel
create_thread sym k block =
    let k = prepare_tables k in
    if k.free_thread == nobody
    then (minus_one, k)
    else let id = k.free_thread in
      let t = k.threads id in
      let creator = current k in
      let priority = block 5 % 65536 in
      let made = record t {
        entry = block 1;
        stack = block 2;
        stack_size = block 3;
        gp = block 4;
        initial_priority = priority;
        current_priority = priority;
        attr = block 7;
        option = block 8;
        wait_id = 0;
        argc = 0;
        args = 0;
        start_arg = 0;
        heap_end = creator.heap_end;
        root = if creator.root == 0 then sym.thread_root else creator.root;
        next = nobody;
        prev = nobody;
      } in
      let k = record k {
        free_thread = t.next;
        parked_by_interrupt = update k.parked_by_interrupt id false;
      } in
      (id, reset_to_dormant (set_thread k id made) id)

-- Slot 0x21.
unfoldable pub delete_thread : Kernel → ℕ → ℕ × Kernel
delete_thread k id =
    let k = prepare_tables k in
    if not (valid_other k id) || not (is_dormant (k.threads id).state)
    then (minus_one, k)
    else (id, free_thread_record k id)

-- What slot 0x22 does before it yields.
unfoldable pub started : Kernel → ℕ → ℕ → Kernel
started k id arg =
    let t = record (k.threads id) { start_arg = arg; resume_pc = (k.threads id).entry } in
    make_ready
      (record (set_thread k id t) { memory = update k.memory (add32 t.context slot_a0) arg }) id

-- Slot 0x22.
unfoldable pub start_thread : Kernel → ℕ → ℕ → Option (ℕ × Kernel)
start_thread k id arg =
    let k = prepare_tables k in
    if not (valid_other k id) || not (is_dormant (k.threads id).state)
    then some (minus_one, k)
    else yield (started k id arg) id

-- Slot 0x23.
unfoldable pub exit_thread : Kernel → Option (ℕ × Kernel)
exit_thread k =
    let k = prepare_tables k in
    switch (reset_to_dormant (take_off_ready_queue k k.current_thread) k.current_thread)

-- Slot 0x24.
unfoldable pub exit_delete_thread : Kernel → Option (ℕ × Kernel)
exit_delete_thread k =
    let k = prepare_tables k in
    switch (free_thread_record (take_off_ready_queue k k.current_thread) k.current_thread)

-- Slot 0x26.
unfoldable pub terminate_thread : Kernel → ℕ → ℕ × Kernel
terminate_thread k id =
    let k = prepare_tables k in
    if ltb id 1 || leb thread_count id
    then (minus_one, k)
    else if is_free (k.threads id).state || is_dormant (k.threads id).state
    then (minus_one, k)
    else (id, reset_to_dormant (detach k id) id)

-- Slot 0x25.
unfoldable pub terminate_thread_and_switch : Kernel → ℕ → Option (ℕ × Kernel)
terminate_thread_and_switch k id =
    let (r, k') = terminate_thread k id in
    if is_negative r
    then some (r, k')
    else if id == k'.current_thread
    then switch k'
    else yield k' r

-- What slots 0x29 and 0x2A do to a thread that passed their tests.
unfoldable pub reprioritised : Kernel → ℕ → ℕ → Kernel
reprioritised k id priority =
    if is_run_or_ready (k.threads id).state
    then (let k = take_off_ready_queue k id in
        link_ready (set_thread k id (record (k.threads id) { current_priority = priority })) id)
    else set_thread k id (record (k.threads id) { current_priority = priority })

-- Slot 0x2A.
unfoldable pub change_thread_priority : Kernel → ℕ → ℕ → ℕ × Kernel
change_thread_priority k id priority =
    let k = prepare_tables k in
    let id = if id == 0 then k.current_thread else id in
    if leb thread_count id || leb 128 priority
    then (minus_one, k)
    else if is_free (k.threads id).state || is_dormant (k.threads id).state
    then (minus_one, k)
    else (sign_extend (k.threads id).current_priority, reprioritised k id priority)

-- Slot 0x29.
unfoldable pub change_thread_priority_and_switch : Kernel → ℕ → ℕ → Option (ℕ × Kernel)
change_thread_priority_and_switch k id priority = then_yield (change_thread_priority k id priority)

-- Slot 0x2C.
unfoldable pub rotate_ready_queue : Kernel → ℕ → ℕ × Kernel
rotate_ready_queue k priority =
    let k = prepare_tables k in
    if leb 128 priority
    then (minus_one, k)
    else let (head, t, q) = pop_front k.threads (k.ready_queue priority) in
      (priority, with_queue k priority (if head == nobody then (t, q) else enqueue t q head))

-- Slot 0x2B.
unfoldable pub rotate_ready_queue_and_switch : Kernel → ℕ → Option (ℕ × Kernel)
rotate_ready_queue_and_switch k priority = then_yield (rotate_ready_queue k priority)
