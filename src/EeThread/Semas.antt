-- ===== src/EeThread/Semas.antt =====
-- The semaphore slots of src/kernel/thread.cpp.
use ps2bios_rebuild.Common.{
  ℕ, zero, suc, ◌-◌, Bool, not, ◌&&◌, ◌||◌, Option, none, some, ltb, ◌==◌, if◌then◌else◌, add32,
  List, [], ◌∷◌,
}
use ps2bios_rebuild.EeThread.Types.{
  Kernel, State, wait, suspend, wait_suspend, on_semaphore, semaphore_count, thread_count, nobody,
  minus_one, is_negative,
}
use ps2bios_rebuild.EeThread.Links.{enqueue}
use ps2bios_rebuild.EeThread.Tables.{
  set_semaphore, with_list, wait_list, prepare_tables, make_ready, leave_list, stop_waiting,
}
use ps2bios_rebuild.EeThread.Switch.{set_resume_value, block_caller}
use ps2bios_rebuild.EeThread.Threads.{then_yield}
use ps2bios_rebuild.EeThread.Control.{set_state}

-- Slot 0x40, over the words of the caller's block.
unfoldable pub create_sema : Kernel → (ℕ → ℕ) → ℕ × Kernel
create_sema k block =
    let k = prepare_tables k in
    if k.free_semaphore == nobody || is_negative (block 2)
    then (minus_one, k)
    else let id = k.free_semaphore in
      let made = record (k.semaphores id) {
        count = block 2;
        max_count = block 1;
        attr = block 4;
        option = block 5;
        wait_count = 0;
        wait_head = nobody;
        wait_tail = nobody;
      } in
      (id, set_semaphore (record k { free_semaphore = (k.semaphores id).next_free }) id made)

-- Whether `id` names a semaphore, in a kernel whose tables are ready.
unfoldable pub is_allocated : Kernel → ℕ → Bool
is_allocated k id = ltb id semaphore_count && not (is_negative (k.semaphores id).count)

unfoldable pub after_wait : State → Kernel → ℕ → Kernel
after_wait wait k id = make_ready k id
after_wait wait_suspend k id = set_state k id suspend
after_wait _ k id = k

unfoldable pub wake_waiter : Kernel → ℕ → ℕ → Kernel
wake_waiter k s id =
    let k = stop_waiting (leave_list k s id) id in after_wait (k.threads id).state k id

-- The loop of a deletion, with fuel; `none` means that the fuel ran out.
unfoldable pub wake_all : ℕ → Kernel → ℕ → Option Kernel
wake_all zero k s = none
wake_all (suc n) k s =
    let waiter = (k.semaphores s).wait_head in
    let rest = wake_all n (wake_waiter (set_resume_value k waiter minus_one) s waiter) s in
    if waiter == nobody then some k else rest

-- Slot 0x49. A list of waiters has no more entries than there are threads.
unfoldable pub delete_sema : Kernel → ℕ → Option (ℕ × Kernel)
delete_sema k id =
    let k = prepare_tables k in
    if not (is_allocated k id)
    then some (minus_one, k)
    else elim (wake_all (suc thread_count) k id) [
      | none ↦ none
      | some k' ↦ some (
        id,
        record (set_semaphore k' id
            (record (k'.semaphores id) { count = minus_one; next_free = k'.free_semaphore })) {
              free_semaphore = id;
            },
      )
    ]

-- Slot 0x41.
unfoldable pub delete_sema_and_switch : Kernel → ℕ → Option (ℕ × Kernel)
delete_sema_and_switch k id = elim (delete_sema k id) [ none ↦ none | some r ↦ then_yield r ]

abbrev pub set_count : Kernel → ℕ → ℕ → Kernel
set_count k id n = set_semaphore k id (record (k.semaphores id) { count = n })

-- Slot 0x43.
unfoldable pub signal_sema : Kernel → ℕ → ℕ × Kernel
signal_sema k id =
    let k = prepare_tables k in
    if not (is_allocated k id)
    then (minus_one, k)
    else let waiter = (k.semaphores id).wait_head in
      if waiter == nobody
      then (id, set_count k id (add32 (k.semaphores id).count 1))
      else (id, wake_waiter (set_resume_value k waiter id) id waiter)

-- Slot 0x42.
unfoldable pub signal_sema_and_switch : Kernel → ℕ → Option (ℕ × Kernel)
signal_sema_and_switch k id = then_yield (signal_sema k id)

-- The caller on the wait list of semaphore `id`, before it blocks.
unfoldable pub join_list : Kernel → ℕ → Kernel
join_list k id =
    let k = with_list k id (enqueue k.threads (wait_list (k.semaphores id)) k.current_thread) in
    set_semaphore k id
      (record (k.semaphores id) { wait_count = add32 (k.semaphores id).wait_count 1 })

-- Slot 0x44. A count that is no error and not 0 is above 0.
unfoldable pub wait_sema : Kernel → ℕ → Option (ℕ × Kernel)
wait_sema k id =
    let k = prepare_tables k in
    if not (is_allocated k id)
    then some (minus_one, k)
    else if ltb 0 (k.semaphores id).count
    then some (id, set_count k id ((k.semaphores id).count - 1))
    else block_caller (join_list k id) on_semaphore id id

-- Slots 0x45 and 0x46.
unfoldable pub poll_sema : Kernel → ℕ → ℕ × Kernel
poll_sema k id =
    let k = prepare_tables k in
    if not (is_allocated k id) || (k.semaphores id).count == 0
    then (minus_one, k)
    else (id, set_count k id ((k.semaphores id).count - 1))

-- Slots 0x47 and 0x48: what is written at words 0, 1, 3, 4 and 5 if `out` is no null pointer.
unfoldable pub refer_sema_status : Kernel → ℕ → Bool → ℕ × Option (List ℕ) × Kernel
refer_sema_status k id has_out =
    let k = prepare_tables k in
    if not (is_allocated k id)
    then (minus_one, none, k)
    else let s = k.semaphores id in
      (
        id,
        if has_out
            then some (s.count ∷ s.max_count ∷ s.wait_count ∷ s.attr ∷ s.option ∷ [])
            else none,
        k,
      )
