-- ===== src/EeThread/Control.antt =====
-- The slots of src/kernel/thread.cpp that block, wake, suspend and report threads, and what the
-- kernel's other files ask of the tables.
use ps2bios_rebuild.Common.{
  ℕ, ◌-◌, Bool, true, false, not, ◌||◌, Option, none, some, ltb, leb, ◌==◌, if◌then◌else◌, add32,
  List, [], ◌∷◌,
}
use ps2bios_rebuild.EeThread.Types.{
  ThreadRecord, Kernel, State, run, ready, wait, suspend, wait_suspend, WaitType, sleeping,
  thread_count, minus_one, is_negative, sign_extend, current, state_code, wait_code,
}
use ps2bios_rebuild.EeThread.Tables.{
  set_thread, prepare_tables, make_ready, take_off_ready_queue, leave_wait_list, stop_waiting,
  valid_other,
}
use ps2bios_rebuild.EeThread.Switch.{set_resume_value, block_caller}
use ps2bios_rebuild.EeThread.Threads.{then_yield, is_free}

abbrev pub set_state : Kernel → ℕ → State → Kernel
set_state k id s = set_thread k id (record (k.threads id) { state = s })

abbrev pub set_wakeups : Kernel → ℕ → ℕ → Kernel
set_wakeups k id n = set_thread k id (record (k.threads id) { wakeup_count = n })

-- Off its wait list, with -1 for its blocked call to answer.
unfoldable pub release_from_wait : Kernel → ℕ → Kernel
release_from_wait k id = set_resume_value (leave_wait_list k id) id minus_one

unfoldable pub released : State → Kernel → ℕ → Kernel
released wait k id = make_ready (release_from_wait k id) id
released wait_suspend k id = set_state (release_from_wait k id) id suspend
released _ k id = k

-- Slot 0x2E.
unfoldable pub release_wait_thread : Kernel → ℕ → ℕ × Kernel
release_wait_thread k id =
    let k = prepare_tables k in
    if ltb id 1 || leb thread_count id
    then (minus_one, k)
    else if is_free (k.threads id).state
    then (minus_one, k)
    else (id, released (k.threads id).state k id)

-- Slot 0x2D.
unfoldable pub release_wait_thread_and_switch : Kernel → ℕ → Option (ℕ × Kernel)
release_wait_thread_and_switch k id = then_yield (release_wait_thread k id)

-- Slot 0x2F.
unfoldable pub get_thread_id : Kernel → ℕ × Kernel
get_thread_id k = let k = prepare_tables k in (k.current_thread, k)

-- The twelve words of slot 0x30.
unfoldable pub thread_status : ThreadRecord → List ℕ
thread_status t =
    state_code t.state
    ∷ t.entry
    ∷ t.stack
    ∷ t.stack_size
    ∷ t.gp
    ∷ sign_extend t.initial_priority
    ∷ sign_extend t.current_priority
    ∷ t.attr
    ∷ t.option
    ∷ wait_code t.wait_type
    ∷ t.wait_id
    ∷ t.wakeup_count
    ∷ []

-- Slots 0x30 and 0x31: the answer, what is written if `out` is no null pointer, and the kernel.
unfoldable pub refer_thread_status : Kernel → ℕ → Bool → ℕ × Option (List ℕ) × Kernel
refer_thread_status k id has_out =
    let k = prepare_tables k in
    let id = if id == 0 then k.current_thread else id in
    if leb thread_count id then (minus_one, none, k) else (
      state_code (k.threads id).state,
      if has_out then some (thread_status (k.threads id)) else none,
      k,
    )

-- Slot 0x32.
unfoldable pub sleep_thread : Kernel → Option (ℕ × Kernel)
sleep_thread k =
    let k = prepare_tables k in
    if ltb 0 (current k).wakeup_count
    then some (k.current_thread, set_wakeups k k.current_thread ((current k).wakeup_count - 1))
    else block_caller k sleeping 0 k.current_thread

unfoldable pub is_sleeping : WaitType → Bool
is_sleeping sleeping = true
is_sleeping _ = false

-- A wakeup of a thread in the given state.
unfoldable pub woken : State → Kernel → ℕ → ℕ × Kernel
woken wait k id =
    if is_sleeping (k.threads id).wait_type
    then (id, make_ready (stop_waiting k id) id)
    else (id, set_wakeups k id (add32 (k.threads id).wakeup_count 1))
woken ready k id = (id, set_wakeups k id (add32 (k.threads id).wakeup_count 1))
woken suspend k id = (id, set_wakeups k id (add32 (k.threads id).wakeup_count 1))
woken wait_suspend k id =
    if is_sleeping (k.threads id).wait_type
    then (id, set_state (stop_waiting k id) id suspend)
    else (id, set_wakeups k id (add32 (k.threads id).wakeup_count 1))
woken _ k id = (minus_one, k)

-- Slot 0x34.
unfoldable pub wakeup_thread : Kernel → ℕ → ℕ × Kernel
wakeup_thread k id =
    let k = prepare_tables k in
    if leb thread_count id then (minus_one, k) else woken (k.threads id).state k id

-- Slot 0x33.
unfoldable pub wakeup_thread_and_switch : Kernel → ℕ → Option (ℕ × Kernel)
wakeup_thread_and_switch k id = then_yield (wakeup_thread k id)

-- Slots 0x35 and 0x36.
unfoldable pub cancel_wakeup_thread : Kernel → ℕ → ℕ × Kernel
cancel_wakeup_thread k id =
    let k = prepare_tables k in
    if leb thread_count id
    then (minus_one, k)
    else ((k.threads id).wakeup_count, set_wakeups k id 0)

unfoldable pub suspended : State → Kernel → ℕ → ℕ × Kernel
suspended run k id = (id, set_state (take_off_ready_queue k id) id suspend)
suspended ready k id = (id, set_state (take_off_ready_queue k id) id suspend)
suspended wait k id = (id, set_state k id wait_suspend)
suspended _ k id = (minus_one, k)

-- Slots 0x37 and 0x38.
unfoldable pub suspend_thread : Kernel → ℕ → ℕ × Kernel
suspend_thread k id =
    let k = prepare_tables k in
    if ltb id 1 || leb thread_count id then (minus_one, k) else suspended (k.threads id).state k id

unfoldable pub resumed : State → Kernel → ℕ → ℕ × Kernel
resumed suspend k id = (id, make_ready k id)
resumed wait_suspend k id = (id, set_state k id wait)
resumed _ k id = (minus_one, k)

-- Slot 0x3A.
unfoldable pub resume_thread : Kernel → ℕ → ℕ × Kernel
resume_thread k id =
    let k = prepare_tables k in
    if not (valid_other k id) then (minus_one, k) else resumed (k.threads id).state k id

-- Slot 0x39.
unfoldable pub resume_thread_and_switch : Kernel → ℕ → Option (ℕ × Kernel)
resume_thread_and_switch k id = then_yield (resume_thread k id)

-- Slot 0x3D.
unfoldable pub setup_heap : Kernel → ℕ → ℕ → ℕ × Kernel
setup_heap k start size =
    let k = prepare_tables k in
    let heap_end = if is_negative size then (current k).stack else add32 start size in
    (heap_end, set_thread k k.current_thread (record (current k) { heap_end = heap_end }))

-- Slot 0x3E.
unfoldable pub end_of_heap : Kernel → ℕ × Kernel
end_of_heap k = let k = prepare_tables k in ((current k).heap_end, k)
