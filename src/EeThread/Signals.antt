-- ===== src/EeThread/Signals.antt =====
-- The signal of src/kernel/thread.cpp: the longest waiter is handed the semaphore.
use ps2bios_rebuild.Common.{
  ℕ, ◌+◌, ◌-◌, ◌<◌, ◌==◌, ◌≡◌, ◌≢◌, ◌∙◌, ap, refl, arith, true, false, List, [], ◌∷◌, add32, subst,
  sym, map-All,
}
use ps2bios_rebuild.EeThread.Types.{Kernel, Queue, nobody, slot_v0, ready, wait, not_waiting}
use ps2bios_rebuild.EeThread.Links.{Table, unlink, bypass_next, bypass_prev, set_next, set_prev}
use ps2bios_rebuild.EeThread.Lists.{IsQueue}
use ps2bios_rebuild.EeThread.Unlink.{unlink-IsQueue}
use ps2bios_rebuild.EeThread.Tables.{
  prepare_tables, queue_of, wait_list, leave_list, stop_waiting, make_ready,
}
use ps2bios_rebuild.EeThread.Switch.{set_resume_value}
use ps2bios_rebuild.EeThread.Semas.{
  is_allocated, signal_sema, wake_waiter, after_wait, poll_sema, set_count,
}
use ps2bios_rebuild.EeThread.Queues.{
  InQueues, Outside, with_last, tail-Absent, unlink-apart, make_ready-InQueues,
}
use ps2bios_rebuild.EeThread.Ready.{
  IsQueue-SameBut, make_ready-apart, make_ready_state, make_ready-wait_type, make_ready_keeps,
}

unlink_keeps :
    (t : Table) (q : Queue) (id j : ℕ)
    → let u = (unlink t q id).0 in
      ((u j).state ≡ (t j).state)
      × ((u j).current_priority ≡ (t j).current_priority)
      × ((u j).context ≡ (t j).context)
      × ((u j).wait_type ≡ (t j).wait_type)
unfolding unlink bypass_next bypass_prev set_next set_prev
unlink_keeps t q id j = (ground arith, ground arith, ground arith, ground arith)

leave_list_lem :
    (k : Kernel) (s id : ℕ)
    → let l = leave_list k s id in
      let u = unlink k.threads (wait_list (k.semaphores s)) id in
      (l.threads ≡ u.0)
      × (wait_list (l.semaphores s) ≡ u.1)
      × ((l.semaphores s).count ≡ (k.semaphores s).count)
      × (l.ready_queue ≡ k.ready_queue)
      × (l.memory ≡ k.memory)
      × ((l.semaphores s).wait_count ≡ (k.semaphores s).wait_count - 1)
unfolding leave_list
leave_list_lem k s id =
    (ground arith, ground arith, ground arith, ground arith, ground arith, ground arith)

-- The waiter off its list, before it is made ready.
unfoldable pub left : Kernel → ℕ → ℕ → Kernel
left k s id = stop_waiting (leave_list k s id) id

module _ (k : Kernel) (s id : ℕ) where
  pub left_lem :
      (((left k s id).threads id).state ≡ (k.threads id).state)
      × (queue_of (left k s id) id ≡ queue_of k id)
      × ((left k s id).ready_queue ≡ k.ready_queue)
      × ((left k s id).memory ≡ k.memory)
      × (((left k s id).semaphores s).count ≡ (k.semaphores s).count)
      × (((left k s id).semaphores s).wait_count ≡ (k.semaphores s).wait_count - 1)
  unfolding left queue_of
  left_lem =
      let f = leave_list_lem k s id in
      let g = unlink_keeps k.threads (wait_list (k.semaphores s)) id id in
      (
        ground (arith, ap (λ t. (t id).state) f.0, g),
        ground (arith, ap (λ t. (t id).current_priority) f.0, g),
        f.3,
        f.4,
        f.2,
        f.5,
      )

  -- What leaving the list keeps of each thread.
  pub left_keeps :
      (j : ℕ)
      → let l = left k s id in
        ((l.threads j).state ≡ (k.threads j).state)
        × ((l.threads j).context ≡ (k.threads j).context)
        × (queue_of l j ≡ queue_of k j)
        × (j ≢ id → (l.threads j).wait_type ≡ (k.threads j).wait_type)
        × ((l.threads id).wait_type ≡ not_waiting)
  unfolding left queue_of
  left_keeps j =
      let f = leave_list_lem k s id in
      let g = unlink_keeps k.threads (wait_list (k.semaphores s)) id j in
      (
        ground (arith, ap (λ t. (t j).state) f.0, g),
        ground (arith, ap (λ t. (t j).context) f.0, g),
        ground (arith, ap (λ t. (t j).current_priority) f.0, g),
        (λ h. ground (arith, ap (λ t. (t j).wait_type) f.0, g)),
        ground arith,
      )

  -- The ready queues hold what they held.
  pub left-InQueues :
      {ws : List ℕ} {rq : ℕ → List ℕ}
      → IsQueue k.threads (wait_list (k.semaphores s)) (id ∷ ws)
      → Outside rq (id ∷ ws)
      → InQueues k rq
      → InQueues (left k s id) rq
  unfolding left
  left-InQueues {ws} {rq} w o v =
      let l = leave_list k s id in
      let f = leave_list_lem k s id in
      record {
        queues = λ q.
            subst (λ r. IsQueue (left k s id).threads (r q) (rq q)) (sym f.3)
              (IsQueue-SameBut l.threads (stop_waiting l id).threads id (λ j h. ground arith)
                (o q).0
                (subst (λ t. IsQueue t (k.ready_queue q) (rq q)) (sym f.0)
                  (unlink-apart id ws (rq q) w (o q) (v.queues q))));
        members = λ q.
            map-All (λ x. queue_of k x ≡ q) (λ x. queue_of (left k s id) x ≡ q) (rq q)
              (λ x e. (left_keeps x).2 ∙ e) (v.members q);
      }

  pub left-IsQueue :
      {ws : List ℕ}
      → IsQueue k.threads (wait_list (k.semaphores s)) (id ∷ ws)
      → IsQueue (left k s id).threads (wait_list ((left k s id).semaphores s)) ws
  unfolding left
  left-IsQueue {ws} v =
      let l = leave_list k s id in
      let f = leave_list_lem k s id in
      let w : IsQueue l.threads (wait_list (l.semaphores s)) ws =
        rw (f.0, f.1) (unlink-IsQueue id [] ws v) in
      IsQueue-SameBut l.threads (stop_waiting l id).threads id (λ j h. ground arith) v.distinct.0 w

wake_waiter_lem :
    (k : Kernel) (s id : ℕ)
    → (k.threads id).state ≡ wait
    → wake_waiter k s id ≡ make_ready (left k s id) id
unfolding wake_waiter left after_wait
wake_waiter_lem k s id e = ap (λ x. after_wait x (left k s id) id) ((left_lem k s id).0 ∙ e)

signal_sema_lem :
    (k : Kernel) (s id : ℕ)
    → k.tables_ready ≡ true
    → is_allocated k s ≡ true
    → (k.semaphores s).wait_head ≡ id
    → id ≢ nobody
    → signal_sema k s ≡ (s, wake_waiter (set_resume_value k id s) s id)
unfolding signal_sema prepare_tables is_allocated wake_waiter
signal_sema_lem k s id rdy al e ne =
    let f : (id == nobody) ≡ false = ground arith in rw (rdy, al, e, f)

pub resume_value-InQueues :
    {k : Kernel} {rq : ℕ → List ℕ} (id a : ℕ)
    → InQueues k rq
    → InQueues (set_resume_value k id a) rq
unfolding set_resume_value queue_of
resume_value-InQueues id a v = record { queues = v.queues; members = v.members }

pub resume_queue_of :
    (k : Kernel) (id a j : ℕ) → queue_of (set_resume_value k id a) j ≡ queue_of k j
unfolding set_resume_value queue_of
resume_queue_of k id a j = refl

-- A signal of a semaphore with waiters takes the longest waiter off the list, keeps the order of
-- the others, makes it ready, hands it the semaphore's number to answer, leaves the count, and counts
-- one waiter less. The waiter is then the last in the ready queue of its priority, and all ready
-- queues hold else what they held. The waiter is not suspended, and no waiter is in a ready queue.
pub signal_sema_wakes :
    (k : Kernel) (s id : ℕ) (ws : List ℕ) (rq : ℕ → List ℕ)
    → k.tables_ready ≡ true
    → is_allocated k s ≡ true
    → (k.threads id).state ≡ wait
    → InQueues k rq
    → Outside rq (id ∷ ws)
    → IsQueue k.threads (wait_list (k.semaphores s)) (id ∷ ws)
    → let (r, k') = signal_sema k s in
      (r ≡ s)
      × IsQueue k'.threads (wait_list (k'.semaphores s)) ws
      × InQueues k' (with_last rq (queue_of k id) id)
      × ((k'.threads id).state ≡ ready)
      × ((k'.threads id).wait_type ≡ not_waiting)
      × ((k'.semaphores s).count ≡ (k.semaphores s).count)
      × ((k'.semaphores s).wait_count ≡ (k.semaphores s).wait_count - 1)
      × (k'.memory (add32 (k.threads id).context slot_v0) ≡ s)
unfolding set_resume_value
signal_sema_wakes k s id ws rq rdy al st queues o v =
    let p = set_resume_value k id s in
    let l = left p s id in
    let f = left_lem p s id in
    let g = make_ready_keeps l id in
    let w : InQueues l rq = left-InQueues p s id v o (resume_value-InQueues id s queues) in
    let c : IsQueue l.threads (wait_list (l.semaphores s)) ws = left-IsQueue p s id v in
    let ready_now : IsQueue (make_ready l id).threads (wait_list (l.semaphores s)) ws =
      make_ready-apart l id v.distinct.0 (tail-Absent (queue_of l id) ws w (λ q. (o q).1) c) c in
    rw (signal_sema_lem k s id rdy al v.head v.links.0, wake_waiter_lem p s id st)
      (
        refl,
        rw (g.0) ready_now,
        subst (λ q. InQueues (make_ready l id) (with_last rq q id))
            (f.1 ∙ resume_queue_of k id s id) (make_ready-InQueues id v.links.0 (λ q. (o q).0) w),
        make_ready_state l id,
        make_ready-wait_type l id id ∙ (left_keeps p s id id).4,
        ap (λ x. (x s).count) g.0 ∙ f.4,
        ap (λ x. (x s).wait_count) g.0 ∙ f.5,
        ap (λ m. m (add32 (k.threads id).context slot_v0)) (g.1 ∙ f.3) ∙ ground arith,
      )

signal_sema_counts :
    (k : Kernel) (s : ℕ)
    → k.tables_ready ≡ true
    → is_allocated k s ≡ true
    → (k.semaphores s).wait_head ≡ nobody
    → signal_sema k s ≡ (s, set_count k s (add32 (k.semaphores s).count 1))
unfolding signal_sema prepare_tables is_allocated
signal_sema_counts k s rdy al e = rw (rdy, al, e)

poll_sema_takes :
    (k : Kernel) (s : ℕ)
    → k.tables_ready ≡ true
    → is_allocated k s ≡ true
    → (k.semaphores s).count ≢ 0
    → poll_sema k s ≡ (s, set_count k s ((k.semaphores s).count - 1))
unfolding poll_sema prepare_tables is_allocated
poll_sema_takes k s rdy al ne =
    let f : ((k.semaphores s).count == 0) ≡ false = ground arith in rw (rdy, al, f)

counted_is_allocated :
    (k : Kernel) (s : ℕ)
    → is_allocated k s ≡ true
    → (k.semaphores s).count < 0x7FFFFFFF
    → is_allocated (set_count k s (add32 (k.semaphores s).count 1)) s ≡ true
unfolding is_allocated
counted_is_allocated k s al lt = ground arith

-- With no waiter a signal counts up, and a poll takes that back: semaphores, threads and queues
-- are as before. The count is below the largest `int`.
pub poll-signal :
    (k : Kernel) (s : ℕ)
    → k.tables_ready ≡ true
    → is_allocated k s ≡ true
    → (k.semaphores s).wait_head ≡ nobody
    → (k.semaphores s).count < 0x7FFFFFFF
    → let (a, k') = poll_sema (signal_sema k s).1 s in
      (a ≡ s)
      × ((j : ℕ) → k'.semaphores j ≡ k.semaphores j)
      × (k'.threads ≡ k.threads)
      × (k'.ready_queue ≡ k.ready_queue)
poll-signal k s rdy al e lt =
    let c = (k.semaphores s).count in
    let up = set_count k s (add32 c 1) in
    let count : (up.semaphores s).count ≡ c + 1 = ground arith in
    rw
      (
        signal_sema_counts k s rdy al e,
        poll_sema_takes up s rdy (counted_is_allocated k s al lt) (omega (arith, count)),
      )
      (refl, λ j. ground (arith, ap k.semaphores {x = j} {y = s}), refl, refl)
