-- ===== src/EeThread/Tables.antt =====
-- How src/kernel/thread.cpp sets its tables up and moves threads between its lists.
use ps2bios_rebuild.Common.{
  ℕ, zero, suc, ◌-◌, Bool, true, false, ◌&&◌, not, ltb, leb, ◌==◌, if◌then◌else◌, update,
}
use ps2bios_rebuild.EeThread.Types.{
  ThreadRecord, Semaphore, Queue, Kernel, State, free, ready, run, wait, wait_suspend, WaitType,
  not_waiting, on_semaphore, thread_count, semaphore_count, idle_queue, queue_count, boot_priority,
  nobody, minus_one,
}
use ps2bios_rebuild.EeThread.Links.{Table, enqueue, unlink}

abbrev pub set_thread : Kernel → ℕ → ThreadRecord → Kernel
set_thread k id r = record k { threads = update k.threads id r }

abbrev pub set_semaphore : Kernel → ℕ → Semaphore → Kernel
set_semaphore k id s = record k { semaphores = update k.semaphores id s }

unfoldable pub is_run_or_ready : State → Bool
is_run_or_ready run = true
is_run_or_ready ready = true
is_run_or_ready _ = false

unfoldable pub is_waiting : State → Bool
is_waiting wait = true
is_waiting wait_suspend = true
is_waiting _ = false

unfoldable pub waits_on_semaphore : WaitType → Bool
waits_on_semaphore on_semaphore = true
waits_on_semaphore _ = false

unfoldable pub queue_of : Kernel → ℕ → ℕ
queue_of k id = if id == 0 then idle_queue else (k.threads id).current_priority

-- The ready queue `q` after an operation on it.
abbrev pub with_queue : Kernel → ℕ → Table × Queue → Kernel
with_queue k q r = record k { threads = r.0; ready_queue = update k.ready_queue q r.1 }

-- The wait list of semaphore `id` after an operation on it.
abbrev pub with_list : Kernel → ℕ → Table × Queue → Kernel
with_list k id r = record k {
  threads = r.0;
  semaphores =
      update k.semaphores id
        (record (k.semaphores id) { wait_head = r.1.head; wait_tail = r.1.tail });
}

abbrev pub wait_list : Semaphore → Queue
wait_list s = record { head = s.wait_head; tail = s.wait_tail }

-- for (k = n - 1; k >= 1; k--): every thread but the boot thread goes on the free list.
unfoldable pub free_threads : ℕ → Kernel → Kernel
free_threads zero k = k
free_threads (suc zero) k = k
free_threads (suc (suc n)) k = free_threads (suc n) (record k {
  threads =
      update k.threads (suc n) (record (k.threads (suc n)) { state = free; next = k.free_thread });
  free_thread = suc n;
})

-- for (k = n; k-- > 0;)
unfoldable pub free_semaphores : ℕ → Kernel → Kernel
free_semaphores zero k = k
free_semaphores (suc n) k = free_semaphores n (record k {
  semaphores =
      update k.semaphores n
        (record (k.semaphores n) { count = minus_one; next_free = k.free_semaphore });
  free_semaphore = n;
})

-- for (k = 0; k < n; k++), from the last to the first.
unfoldable pub empty_queues : ℕ → (ℕ → Queue) → ℕ → Queue
empty_queues zero q = q
empty_queues (suc n) q = update (empty_queues n q) n (record { head = nobody; tail = nobody })

unfoldable pub set_up_tables : Kernel → Kernel
set_up_tables k =
    let k = record k {
      tables_ready = true;
      ready_queue = empty_queues queue_count k.ready_queue;
    } in
    let k = free_threads thread_count k in
    let k = set_thread k 0 (record (k.threads 0) {
      state = ready;
      initial_priority = boot_priority;
      current_priority = boot_priority;
    }) in
    let k = with_queue k idle_queue (enqueue k.threads (k.ready_queue idle_queue) 0) in
    free_semaphores semaphore_count (record k { lowest_ready = idle_queue })

unfoldable pub prepare_tables : Kernel → Kernel
prepare_tables k = if k.tables_ready then k else set_up_tables k

unfoldable pub link_ready : Kernel → ℕ → Kernel
link_ready k id =
    let q = queue_of k id in
    let k = with_queue k q (enqueue k.threads (k.ready_queue q) id) in
    let k = if ltb q k.lowest_ready then record k { lowest_ready = q } else k in
    if ltb q (queue_of k k.current_thread) then record k { reschedule_requested = true } else k

unfoldable pub make_ready : Kernel → ℕ → Kernel
make_ready k id = link_ready (set_thread k id (record (k.threads id) { state = ready })) id

unfoldable pub take_off_ready_queue : Kernel → ℕ → Kernel
take_off_ready_queue k id =
    with_queue k (queue_of k id) (unlink k.threads (k.ready_queue (queue_of k id)) id)

-- Off the wait list of semaphore `s`, whose count of waiters falls by one, not below 0.
unfoldable pub leave_list : Kernel → ℕ → ℕ → Kernel
leave_list k s id =
    let k = with_list k s (unlink k.threads (wait_list (k.semaphores s)) id) in
    if ltb 0 (k.semaphores s).wait_count
    then set_semaphore k s
        (record (k.semaphores s) { wait_count = (k.semaphores s).wait_count - 1 })
    else k

abbrev pub stop_waiting : Kernel → ℕ → Kernel
stop_waiting k id = set_thread k id (record (k.threads id) { wait_type = not_waiting })

unfoldable pub leave_wait_list : Kernel → ℕ → Kernel
leave_wait_list k id =
    let t = k.threads id in
    stop_waiting
      (if waits_on_semaphore t.wait_type && ltb t.wait_id semaphore_count
        then leave_list k t.wait_id id
        else k)
      id

-- Out of whatever list it is in.
unfoldable pub detach : Kernel → ℕ → Kernel
detach k id =
    if is_run_or_ready (k.threads id).state
    then take_off_ready_queue k id
    else if is_waiting (k.threads id).state
    then leave_wait_list k id
    else k

unfoldable pub free_thread_record : Kernel → ℕ → Kernel
free_thread_record k id =
    record (set_thread k id (record (k.threads id) { state = free; next = k.free_thread })) {
      free_thread = id;
    }

unfoldable pub valid_other : Kernel → ℕ → Bool
valid_other k id = leb 1 id && ltb id thread_count && not (id == k.current_thread)
