-- ===== src/EeThread/Deletion.antt =====
-- The deletion of a semaphore by src/kernel/thread.cpp: its loop over the waiters wakes them all.
use ps2bios_rebuild.Common.{
  ℕ, zero, suc, ◌-◌, ◌≤◌, ◌<◌, ◌≡◌, ◌==◌, ◌∙◌, ap, refl, sym, subst, arith, if◌then◌else◌, true,
  false, List, [], ◌∷◌, length, some, inl, inr, add32, All,
}
use ps2bios_rebuild.EeThread.Types.{Kernel, nobody, thread_count, minus_one, slot_v0}
use ps2bios_rebuild.EeThread.Lists.{IsQueue, Absent}
use ps2bios_rebuild.EeThread.Tables.{
  set_semaphore, set_up_tables, prepare_tables, queue_of, wait_list,
}
use ps2bios_rebuild.EeThread.Switch.{set_resume_value}
use ps2bios_rebuild.EeThread.Semas.{is_allocated, wake_waiter, wake_all, delete_sema}
use ps2bios_rebuild.EeThread.Queues.{InQueues, Outside}
use ps2bios_rebuild.EeThread.Waking.{
  IsWaiter, Woken, joined_by, joined, Waiting, Spares, Step, wake_waiter-Step,
}

prepared : (k : Kernel) → k.tables_ready ≡ true → prepare_tables k ≡ k
unfolding prepare_tables
prepared k rdy = ap (λ b. if b then k else set_up_tables k) rdy

module _ {k u : Kernel} {id : ℕ} (v : Spares k u (id ∷ [])) where
  joined-same : (rq : ℕ → List ℕ) (ws : List ℕ) → Absent id ws → joined u rq ws ≡ joined k rq ws
  joined-same rq [] a = refl
  joined-same rq (w ∷ ws) a =
      let e = v.state w ((λ f. a.0 (sym f)), tt) in
      ap (λ r. joined u r ws)
        (ap (λ x. joined_by x rq (queue_of u w) w) e
          ∙ ap (λ q. joined_by (k.threads w).state rq q w) (v.queue w))
      ∙ joined-same (joined_by (k.threads w).state rq (queue_of k w) w) ws a.1

  waiters-same : (ws : List ℕ) → Absent id ws → All (IsWaiter k) ws → All (IsWaiter u) ws
  waiters-same [] a h = tt
  waiters-same (w ∷ ws) a h =
      let e = v.state w ((λ f. a.0 (sym f)), tt) in
      (elim h.0 [ inl f ↦ inl (e ∙ f) | inr f ↦ inr (e ∙ f) ], waiters-same ws a.1 h.1)

  Woken-before : (t : Kernel) (ws : List ℕ) → Absent id ws → All (Woken u t) ws → All (Woken k t) ws
  Woken-before t [] a h = tt
  Woken-before t (w ∷ ws) a h =
      let e = v.state w ((λ f. a.0 (sym f)), tt) in
      let (o, wt, m) = h.0 in
      (
        (
          elim o [ inl f ↦ inl (sym e ∙ f.0, f.1) | inr f ↦ inr (sym e ∙ f.0, f.1) ],
          wt,
          subst (λ c. t.memory (add32 c slot_v0) ≡ minus_one) (v.context w) m,
        ),
        Woken-before t ws a.1 h.1,
      )

  Spares-trans : {t : Kernel} (ws : List ℕ) → Spares u t ws → Spares k t (id ∷ ws)
  Spares-trans ws w = record {
    context = λ j. w.context j ∙ v.context j;
    queue = λ j. w.queue j ∙ v.queue j;
    state = λ j a. w.state j a.1 ∙ v.state j (a.0, tt);
    wait_type = λ j a. w.wait_type j a.1 ∙ v.wait_type j (a.0, tt);
    answers = λ a e. w.answers a (v.answers a e);
    free = w.free ∙ v.free;
  }

-- A waiter that was woken stays so while others are.
Woken-after :
    (k u t : Kernel) (id : ℕ) (ws : List ℕ)
    → Absent id ws
    → Spares u t ws
    → Woken k u id
    → Woken k t id
Woken-after k u t id ws a w (o, wt, m) =
    let e = w.state id a in
    (
      elim o [ inl f ↦ inl (f.0, e ∙ f.1) | inr f ↦ inr (f.0, e ∙ f.1) ],
      w.wait_type id a ∙ wt,
      w.answers (add32 (k.threads id).context slot_v0) m,
    )

-- What the loop comes to.
record Emptied (k u : Kernel) (s : ℕ) (rq : ℕ → List ℕ) (ws : List ℕ) : Type 0 where
  waiting : Waiting u s (joined k rq ws) []
  woken : All (Woken k u) ws
  spares : Spares k u ws
  count : (u.semaphores s).wait_count ≡ (k.semaphores s).wait_count - length ws

Emptied-cons :
    {k u t : Kernel} {s id : ℕ} {rq : ℕ → List ℕ} (ws : List ℕ)
    → Absent id ws
    → Step k u s id rq ws
    → Emptied u t s (joined_by (k.threads id).state rq (queue_of k id) id) ws
    → Emptied k t s rq (id ∷ ws)
Emptied-cons {k} {u} {t} {s} {id} {rq} ws a st e =
    let r = joined_by (k.threads id).state rq (queue_of k id) id in
    record {
      waiting = subst (λ q. Waiting t s q []) (joined-same st.spares r ws a) e.waiting;
      woken = (Woken-after k u t id ws a e.spares st.woken, Woken-before st.spares t ws a e.woken);
      spares = Spares-trans st.spares ws e.spares;
      count = omega (arith, e.count, st.count);
    }

wake_all-Emptied :
    (fuel : ℕ) (k : Kernel) (s : ℕ) (rq : ℕ → List ℕ) (ws : List ℕ)
    → Waiting k s rq ws
    → All (IsWaiter k) ws
    → length ws < fuel
    → (u : Kernel) × (wake_all fuel k s ≡ some u) × Emptied k u s rq ws
unfolding wake_all
wake_all-Emptied zero k s rq ws v i h = absurd (omega arith)
wake_all-Emptied (suc fuel) k s rq [] v i h =
    let e : ((k.semaphores s).wait_head == nobody) ≡ true = ground (arith, v.list.head) in
    (
      k,
      rw (wake_all, e) refl,
      record {
        waiting = v;
        woken = tt;
        spares = record {
          context = λ j. refl;
          queue = λ j. refl;
          state = λ j a. refl;
          wait_type = λ j a. refl;
          answers = λ a e. e;
          free = refl;
        };
        count = omega arith;
      },
    )
wake_all-Emptied (suc fuel) k s rq (id ∷ ws) v i h =
    let f : (k.semaphores s).wait_head ≡ id = v.list.head in
    let e : (id == nobody) ≡ false = ground (arith, v.list.links.0) in
    let st = wake_waiter-Step k s id rq ws v i.0 in
    let r = joined_by (k.threads id).state rq (queue_of k id) id in
    let (u, g, w) =
      wake_all-Emptied fuel (wake_waiter (set_resume_value k id minus_one) s id) s r ws st.waiting
        (waiters-same st.spares ws v.list.distinct.0 i.1) (omega arith) in
    (u, rw (wake_all, f, e) g, Emptied-cons ws v.list.distinct.0 st w)

-- The semaphore in front of those that are not in use.
abbrev unused : Kernel → ℕ → Kernel
unused u s =
    record (set_semaphore u s
      (record (u.semaphores s) { count = minus_one; next_free = u.free_semaphore })) {
        free_semaphore = s;
      }

unused-InQueues : {u : Kernel} {rq : ℕ → List ℕ} (s : ℕ) → InQueues u rq → InQueues (unused u s) rq
unfolding queue_of
unused-InQueues s v = record { queues = v.queues; members = v.members }

-- The deletion of a semaphore with at most as many waiters as there are threads, none of them in a
-- ready queue, returns its number. Each waiter waits no more and answers -1: it is suspended if it
-- was, and else ready and in its ready queue, behind the others and the longest waiter first; the
-- queues hold else what they held, and all other threads are in the state they were in. The list of
-- waiters is empty, and the semaphore is marked as not in use and is the next to be created.
pub delete_sema-returns :
    (k : Kernel) (s : ℕ) (ws : List ℕ) (rq : ℕ → List ℕ)
    → k.tables_ready ≡ true
    → is_allocated k s ≡ true
    → IsQueue k.threads (wait_list (k.semaphores s)) ws
    → All (IsWaiter k) ws
    → InQueues k rq
    → Outside rq ws
    → length ws ≤ thread_count
    → (k' : Kernel) × (delete_sema k s ≡ some (s, k'))
      × All (Woken k k') ws
      × InQueues k' (joined k rq ws)
      × ((j : ℕ) → Absent j ws → (k'.threads j).state ≡ (k.threads j).state)
      × ((k'.semaphores s).wait_head ≡ nobody)
      × ((k'.semaphores s).wait_count ≡ (k.semaphores s).wait_count - length ws)
      × ((k'.semaphores s).count ≡ minus_one)
      × ((k'.semaphores s).next_free ≡ k.free_semaphore)
      × (k'.free_semaphore ≡ s)
unfolding delete_sema
delete_sema-returns k s ws rq rdy al v i q o h =
    let (u, e, w) =
      wake_all-Emptied (suc thread_count) k s rq ws (record { list = v; queues = q; outside = o }) i
        (omega arith) in
    (
      unused u s,
      rw (delete_sema, prepared k rdy, al, e) refl,
      w.woken,
      unused-InQueues s w.waiting.queues,
      w.spares.state,
      ground (arith, w.waiting.list.head),
      ground (arith, w.count),
      ground arith,
      ground arith ∙ w.spares.free,
      refl,
    )
