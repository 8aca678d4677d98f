-- ===== src/EeThread/Waking.antt =====
-- A deletion by src/kernel/thread.cpp wakes one waiter.
use ps2bios_rebuild.Common.{
  ℕ, ◌-◌, ◌≡◌, ◌≢◌, ◌⊎◌, ◌∙◌, ap, refl, sym, subst, arith, List, [], ◌∷◌, inl, inr, add32, update,
}
use ps2bios_rebuild.EeThread.Types.{
  Kernel, State, minus_one, slot_v0, ready, wait, suspend, wait_suspend, not_waiting,
}
use ps2bios_rebuild.EeThread.Lists.{IsQueue, Absent}
use ps2bios_rebuild.EeThread.Tables.{queue_of, wait_list, make_ready, link_ready, leave_list}
use ps2bios_rebuild.EeThread.Control.{set_state}
use ps2bios_rebuild.EeThread.Switch.{set_resume_value}
use ps2bios_rebuild.EeThread.Semas.{wake_waiter, after_wait}
use ps2bios_rebuild.EeThread.Ready.{
  IsQueue-SameBut, make_ready-apart, make_ready_keeps, make_ready_state, make_ready-wait_type,
  make_ready_others, make_ready-queue_of,
}
use ps2bios_rebuild.EeThread.Queues.{
  InQueues, Outside, with_last, tail-Absent, make_ready-InQueues, InQueues-SameBut,
  with_last-Outside,
}
use ps2bios_rebuild.EeThread.Signals.{
  left, left_lem, left_keeps, left-IsQueue, left-InQueues, resume_value-InQueues,
}

-- A waiter, which may be suspended as well.
abbrev pub IsWaiter : Kernel → ℕ → Type 0
IsWaiter k id = ((k.threads id).state ≡ wait) ⊎ ((k.threads id).state ≡ wait_suspend)

-- A waiter of `k` as it is in `u`: ready, or suspended if it was that too; and it answers -1.
abbrev pub Woken : Kernel → Kernel → ℕ → Type 0
Woken k u id =
    ((((k.threads id).state ≡ wait) × ((u.threads id).state ≡ ready))
      ⊎ (((k.threads id).state ≡ wait_suspend) × ((u.threads id).state ≡ suspend)))
    × ((u.threads id).wait_type ≡ not_waiting)
    × (u.memory (add32 (k.threads id).context slot_v0) ≡ minus_one)

-- The ready queues when a waiter in this state has been woken.
abbrev pub joined_by : State → (ℕ → List ℕ) → ℕ → ℕ → ℕ → List ℕ
joined_by wait rq q id = with_last rq q id
joined_by _ rq q id = rq

-- The ready queues with those of the waiters that are not suspended, each behind the others of its
-- priority, the longest waiter first.
abbrev pub joined : Kernel → (ℕ → List ℕ) → List ℕ → ℕ → List ℕ
joined k rq [] = rq
joined k rq (w ∷ ws) = joined k (joined_by (k.threads w).state rq (queue_of k w) w) ws

-- What the loop over a semaphore's list keeps.
pub record Waiting (k : Kernel) (s : ℕ) (rq : ℕ → List ℕ) (ws : List ℕ) : Type 0 where
  pub list : IsQueue k.threads (wait_list (k.semaphores s)) ws
  pub queues : InQueues k rq
  pub outside : Outside rq ws

-- What the waking of `ids` leaves alone.
pub record Spares (k u : Kernel) (ids : List ℕ) : Type 0 where
  pub context : (j : ℕ) → (u.threads j).context ≡ (k.threads j).context
  pub queue : (j : ℕ) → queue_of u j ≡ queue_of k j
  pub state : (j : ℕ) → Absent j ids → (u.threads j).state ≡ (k.threads j).state
  pub wait_type : (j : ℕ) → Absent j ids → (u.threads j).wait_type ≡ (k.threads j).wait_type
  pub answers : (a : ℕ) → k.memory a ≡ minus_one → u.memory a ≡ minus_one
  pub free : u.free_semaphore ≡ k.free_semaphore

wake_waiter-left :
    (k : Kernel) (s id : ℕ) → wake_waiter k s id ≡ after_wait (k.threads id).state (left k s id) id
unfolding wake_waiter left
wake_waiter-left k s id = ap (λ x. after_wait x (left k s id) id) (left_lem k s id).0

make_ready-free : (k : Kernel) (id : ℕ) → (make_ready k id).free_semaphore ≡ k.free_semaphore
unfolding make_ready link_ready
make_ready-free k id = ground arith

-- What waking one waiter comes to.
pub record Step (k u : Kernel) (s id : ℕ) (rq : ℕ → List ℕ) (ws : List ℕ) : Type 0 where
  pub waiting : Waiting u s (joined_by (k.threads id).state rq (queue_of k id) id) ws
  pub woken : Woken k u id
  pub spares : Spares k u (id ∷ [])
  pub count : (u.semaphores s).wait_count ≡ (k.semaphores s).wait_count - 1

module _ (k : Kernel) (s id : ℕ) (rq : ℕ → List ℕ) (ws : List ℕ)
    (v : Waiting k s rq (id ∷ ws)) where
  resumed : Kernel
  resumed = set_resume_value k id minus_one

  off : Kernel
  off = left resumed s id

  off_facts :
      IsQueue off.threads (wait_list (off.semaphores s)) ws
      × InQueues off rq
      × ((j : ℕ) → (off.threads j).state ≡ (k.threads j).state)
      × ((j : ℕ) → (off.threads j).context ≡ (k.threads j).context)
      × ((j : ℕ) → queue_of off j ≡ queue_of k j)
      × ((j : ℕ) → j ≢ id → (off.threads j).wait_type ≡ (k.threads j).wait_type)
      × ((off.threads id).wait_type ≡ not_waiting)
      × (off.memory ≡ update k.memory (add32 (k.threads id).context slot_v0) minus_one)
      × ((off.semaphores s).wait_count ≡ (k.semaphores s).wait_count - 1)
  unfolding off resumed set_resume_value queue_of
  off_facts =
      let p = set_resume_value k id minus_one in
      (
        left-IsQueue p s id v.list,
        left-InQueues p s id v.list v.outside (resume_value-InQueues id minus_one v.queues),
        (λ j. (left_keeps p s id j).0),
        (λ j. (left_keeps p s id j).1),
        (λ j. (left_keeps p s id j).2),
        (λ j. (left_keeps p s id j).3),
        (left_keeps p s id id).4,
        (left_lem p s id).3,
        (left_lem p s id).5,
      )

  wake_lem :
      wake_waiter (set_resume_value k id minus_one) s id ≡ after_wait (k.threads id).state off id
  unfolding off resumed set_resume_value
  wake_lem = wake_waiter-left (set_resume_value k id minus_one) s id

  off_free : off.free_semaphore ≡ k.free_semaphore
  unfolding off resumed set_resume_value left leave_list
  off_free = ground arith

  answered : (a : ℕ) → k.memory a ≡ minus_one → off.memory a ≡ minus_one
  answered a e = ap (λ m. m a) off_facts.7 ∙ ground arith

  answer : off.memory (add32 (k.threads id).context slot_v0) ≡ minus_one
  answer = ap (λ m. m (add32 (k.threads id).context slot_v0)) off_facts.7 ∙ ground arith

  ready_Step : (k.threads id).state ≡ wait → Step k (make_ready off id) s id rq ws
  ready_Step st =
      let u = make_ready off id in
      let f = off_facts in
      let g = make_ready_keeps off id in
      record {
        waiting = rw st (record {
          list =
              subst (λ x. IsQueue u.threads (wait_list (x s)) ws) (sym g.0)
                (make_ready-apart off id v.list.distinct.0
                  (tail-Absent (queue_of off id) ws f.1 (λ q. (v.outside q).1) f.0) f.0);
          queues =
              subst (λ q. InQueues u (with_last rq q id)) (f.4 id)
                (make_ready-InQueues id v.list.links.0 (λ q. (v.outside q).0) f.1);
          outside =
              with_last-Outside rq (queue_of k id) id ws v.list.distinct.0 (λ q. (v.outside q).1);
        });
        woken = (
          inl (st, make_ready_state off id),
          make_ready-wait_type off id id ∙ f.6,
          ap (λ m. m (add32 (k.threads id).context slot_v0)) g.1 ∙ answer,
        );
        spares = record {
          context = λ j. (make_ready_others off id j).0 ∙ f.3 j;
          queue = λ j. make_ready-queue_of off id j ∙ f.4 j;
          state = λ j a. (make_ready_others off id j).1 a.0 ∙ f.2 j;
          wait_type = λ j a. make_ready-wait_type off id j ∙ f.5 j a.0;
          answers = λ a e. ap (λ m. m a) g.1 ∙ answered a e;
          free = make_ready-free off id ∙ off_free;
        };
        count = ap (λ x. (x s).wait_count) g.0 ∙ f.8;
      }

  suspended_queue : (j : ℕ) → queue_of (set_state off id suspend) j ≡ queue_of off j
  unfolding queue_of
  suspended_queue j = ground arith

  suspend_Step : (k.threads id).state ≡ wait_suspend → Step k (set_state off id suspend) s id rq ws
  suspend_Step st =
      let u = set_state off id suspend in
      let f = off_facts in
      record {
        waiting = rw st (record {
          list =
              IsQueue-SameBut off.threads u.threads id (λ j h. ground arith) v.list.distinct.0 f.0;
          queues =
              InQueues-SameBut {k = off} {u = u} id (λ j h. ground arith) refl suspended_queue
                (λ q. (v.outside q).0) f.1;
          outside = λ q. (v.outside q).1;
        });
        woken = (inr (st, ground arith), ground (arith, f.6), answer);
        spares = record {
          context = λ j. ground (arith, f.3 j);
          queue = λ j. suspended_queue j ∙ f.4 j;
          state = λ j a. (let h = a.0 in ground (arith, f.2 j));
          wait_type = λ j a. (let h = a.0 in ground (arith, f.5 j h));
          answers = answered;
          free = off_free;
        };
        count = f.8;
      }

  pub wake_waiter-Step :
      IsWaiter k id → Step k (wake_waiter (set_resume_value k id minus_one) s id) s id rq ws
  unfolding after_wait
  wake_waiter-Step (inl st) = rw (wake_lem, st) (ready_Step st)
  wake_waiter-Step (inr st) = rw (wake_lem, st) (suspend_Step st)
