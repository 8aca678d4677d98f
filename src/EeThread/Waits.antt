-- ===== src/EeThread/Waits.antt =====
-- Slot 0x44 of src/kernel/thread.cpp puts its caller on the semaphore's list while the caller is
-- still on its ready queue. A thread has one pair of links, so the ready queue is lost.
use ps2bios_rebuild.Common.{ℕ, ◌<◌, ◌≡◌, ◌∙◌, ap, refl, sym, arith, true, List, ◌∷◌, some}
use ps2bios_rebuild.EeThread.Types.{Kernel, Queue, WaitType, on_semaphore, nobody, semaphore_count}
use ps2bios_rebuild.EeThread.Links.{Table, enqueue, set_next, set_prev}
use ps2bios_rebuild.EeThread.Lists.{IsQueue, alone_links, enqueue-empty}
use ps2bios_rebuild.EeThread.Unlink.{unlink-only}
use ps2bios_rebuild.EeThread.Tables.{prepare_tables, queue_of, take_off_ready_queue, wait_list}
use ps2bios_rebuild.EeThread.Switch.{
  save_caller, park_current, set_resume_value, switch, pick_next, resume, block_caller,
}
use ps2bios_rebuild.EeThread.Semas.{is_allocated, join_list, wait_sema}

-- A switch leaves the queues as they are.
switch-ready_queue :
    (k : Kernel) (r : ℕ) (k' : Kernel) → switch k ≡ some (r, k') → k'.ready_queue ≡ k.ready_queue
unfolding switch pick_next resume
switch-ready_queue k r k' e = ground arith

-- What parking a caller leaves alone.
pub parked_links :
    (k : Kernel) (a : ℕ)
    → let c = k.current_thread in
      let p = set_resume_value (save_caller k) c a in
      (p.current_thread ≡ c)
      × (p.ready_queue ≡ k.ready_queue)
      × (queue_of p c ≡ queue_of k c)
      × ((p.threads c).prev ≡ (k.threads c).prev)
      × ((p.threads c).next ≡ (k.threads c).next)
unfolding save_caller park_current set_resume_value queue_of
parked_links k a = (refl, refl, ground arith, ground arith, ground arith)

take_off_alone :
    (k : Kernel) (id : ℕ)
    → (k.threads id).prev ≡ nobody
    → (k.threads id).next ≡ nobody
    → (take_off_ready_queue k id).ready_queue (queue_of k id)
      ≡ record { head = nobody; tail = nobody }
unfolding take_off_ready_queue
take_off_alone k id p n =
    rw (unlink-only k.threads (k.ready_queue (queue_of k id)) id nobody nobody p n refl refl)
      (ground arith)

-- A caller with no links that blocks empties its ready queue.
block_caller-empties :
    (k : Kernel) (type : WaitType) (wait_id a r : ℕ) (k' : Kernel)
    → let c = k.current_thread in
      (k.threads c).prev ≡ nobody
      → (k.threads c).next ≡ nobody
      → block_caller k type wait_id a ≡ some (r, k')
      → k'.ready_queue (queue_of k c) ≡ record { head = nobody; tail = nobody }
unfolding block_caller save_caller park_current set_resume_value
block_caller-empties k type wait_id a r k' p n e =
    let c = k.current_thread in
    let f = parked_links k a in
    let parked = set_resume_value (save_caller k) c a in
    let off = take_off_alone parked c (f.3 ∙ p) (f.4 ∙ n) in
    ap (λ q. q (queue_of k c)) (switch-ready_queue _ r k' e)
    ∙ ap (λ q. (take_off_ready_queue parked c).ready_queue q) (sym f.2)
    ∙ off

pub enqueue-priority :
    (t : Table) (q : Queue) (id j : ℕ)
    → ((enqueue t q id).0 j).current_priority ≡ (t j).current_priority
unfolding enqueue set_next set_prev
enqueue-priority t q id j = ground arith

-- The caller after it joined an empty wait list.
join_links :
    (k : Kernel) (id : ℕ)
    → (k.semaphores id).wait_tail ≡ nobody
    → let c = k.current_thread in
      let j = join_list k id in
      (j.current_thread ≡ c)
      × (j.ready_queue ≡ k.ready_queue)
      × (queue_of j c ≡ queue_of k c)
      × ((j.threads c).prev ≡ nobody)
      × ((j.threads c).next ≡ nobody)
unfolding join_list queue_of
join_links k id e =
    let c = k.current_thread in
    let l = wait_list (k.semaphores id) in
    let f = alone_links k.threads c nobody in
    (
      refl,
      refl,
      ground (arith, enqueue-priority k.threads l c c),
      rw (enqueue-empty k.threads l c e) f.1,
      rw (enqueue-empty k.threads l c e) f.0,
    )

pub wait_sema_blocks :
    (k : Kernel) (id : ℕ)
    → k.tables_ready ≡ true
    → id < semaphore_count
    → (k.semaphores id).count ≡ 0
    → wait_sema k id ≡ block_caller (join_list k id) on_semaphore id id
unfolding wait_sema prepare_tables is_allocated
wait_sema_blocks k id ready h z = ground arith

-- A thread that blocks in slot 0x44 on a semaphore nobody waits for empties its ready queue: the
-- threads that were ready behind it are in no queue any more, so no scan finds them.
pub wait_sema_drops :
    (k : Kernel) (id x : ℕ) (xs : List ℕ) (r : ℕ) (k' : Kernel)
    → k.tables_ready ≡ true
    → id < semaphore_count
    → (k.semaphores id).count ≡ 0
    → (k.semaphores id).wait_tail ≡ nobody
    → IsQueue k.threads (k.ready_queue (queue_of k k.current_thread)) (k.current_thread ∷ x ∷ xs)
    → wait_sema k id ≡ some (r, k')
    → (k'.ready_queue (queue_of k k.current_thread) ≡ record { head = nobody; tail = nobody })
      × (¬ IsQueue k'.threads (k'.ready_queue (queue_of k k.current_thread)) (x ∷ xs))
unfolding join_list
wait_sema_drops k id x xs r k' ready h z e v w =
    let q = queue_of k k.current_thread in
    let f = join_links k id e in
    let empty : k'.ready_queue q ≡ record { head = nobody; tail = nobody } =
      ap k'.ready_queue (sym f.2)
      ∙ block_caller-empties (join_list k id) on_semaphore id id r k' f.3 f.4
          (sym (wait_sema_blocks k id ready h z) ∙ w) in
    (empty, λ u. u.links.0 (sym u.head ∙ ap (λ p. p.head) empty))
