-- ===== src/Threadman/Joins.antt =====
-- A waiter of src/iop/threadman.cpp that is released joins the ready threads.
use ps2bios_rebuild.Common.{
  ℕ, ◌<◌, ◌==◌, ◌≡◌, ◌≢◌, ◌⊎◌, refl, sym, ap, ◌∙◌, inl, inr, arith, List, [], ◌∷◌, ◌++◌, Bool-cases,
  update, subst, append-nil,
}
use ps2bios_rebuild.Threadman.Types.{Kernel, ready, wait, nobody}
use ps2bios_rebuild.Threadman.Links.{unlink, enqueue}
use ps2bios_rebuild.Threadman.Lists.{Absent, IsQueue, append-Absent}
use ps2bios_rebuild.Threadman.Unlink.{unlink-IsQueue, Distinct-append}
use ps2bios_rebuild.Threadman.Touch.{Disjoint, IsQueue-SameOutside, enqueue-SameOutside}
use ps2bios_rebuild.Threadman.Ready.{priority_of, make_ready, link_ready, set_ready, mark_ready}
use ps2bios_rebuild.Threadman.Switch.{leave_sema, stop_waiting, preempt_if_better}
use ps2bios_rebuild.Threadman.Scheduler.{AllAt, Holds}
use ps2bios_rebuild.Threadman.Moves.{make_ready-Holds}
use ps2bios_rebuild.Threadman.Choice.{Settled, Due, Scheduled, Absent-not_ready, make_ready_keeps}
use ps2bios_rebuild.Threadman.Preempt.{Preemption, preempt_if_better_lem}
use ps2bios_rebuild.Threadman.HandOver.{wait-ne-ready}
use ps2bios_rebuild.Threadman.Release.{
  run-ne-wait, AllWait, leave_sema_lem, released, set_answer_keeps, answered, not_queued,
  answered-Holds, answered_threads,
}

-- The thread that an operation made ready stands last in its queue.
abbrev pub joined : Kernel → (ℕ → List ℕ) → ℕ → ℕ → List ℕ
joined k rq x = update rq (priority_of k x) (rq (priority_of k x) ++ x ∷ [])

make_ready_others :
    (k : Kernel) (x j : ℕ)
    → (j ≢ x → ((make_ready k x).threads j).state ≡ (k.threads j).state)
      × (((make_ready k x).threads x).state ≡ ready)
      × ((make_ready k x).semaphores ≡ k.semaphores)
      × ((make_ready k x).memory ≡ k.memory)
      × ((make_ready k x).links
          ≡ (enqueue k.links (k.ready_queue (priority_of (set_ready k x) x)) x).0)
unfolding make_ready link_ready mark_ready
make_ready_others k x j = ((λ ne. ground arith), ground arith, refl, refl, refl)

joined-Absent :
    (k : Kernel) (rq : ℕ → List ℕ) (x j p : ℕ)
    → j ≢ x
    → Absent j (rq p)
    → Absent j (joined k rq x p)
joined-Absent k rq x j p ne a =
    elim (Bool-cases (p == priority_of k x)) as (λ _. Absent j (joined k rq x p)) [
      | inl e ↦
          let f : p ≡ priority_of k x = ground arith in
          rw e (
            append-Absent j (rq (priority_of k x)) (x ∷ []) (subst (λ p. Absent j (rq p)) f a)
              (ne, tt))
      | inr e ↦ rw e a
    ]

choice-joined :
    {k : Kernel} {rq : ℕ → List ℕ} (k' : Kernel) (x : ℕ)
    → k'.current ≡ k.current
    → k'.pending ≡ k.pending
    → ((j : ℕ) → j ≢ x → (k'.threads j).state ≡ (k.threads j).state)
    → (k.threads x).state ≡ wait
    → Settled k ⊎ Due k rq
    → Settled k' ⊎ Due k' (joined k rq x)
choice-joined {k} {rq} k' x c d t s (inl w) =
    let ne : k.current ≢ x = λ e. run-ne-wait (sym w.runs ∙ ap (λ i. (k.threads i).state) e ∙ s) in
    inl (record {
      stays = elim w.stays [ inl e ↦ inl (d ∙ e) | inr e ↦ inr (d ∙ e ∙ sym c) ];
      runs = ap (λ i. (k'.threads i).state) c ∙ t k.current ne ∙ w.runs;
    })
choice-joined {k} {rq} k' x c d t s (inr w) =
    let ne : k.pending ≢ x =
      λ e. wait-ne-ready (sym s ∙ ap (λ i. (k.threads i).state) (sym e) ∙ w.is_ready) in
    inr (record {
      somebody = λ e. w.somebody (sym d ∙ e);
      other = λ e. w.other (sym d ∙ e ∙ c);
      is_ready = ap (λ i. (k'.threads i).state) d ∙ t k.pending ne ∙ w.is_ready;
      apart = λ p.
          subst (λ i. Absent i (joined k rq x p)) (sym d)
            (joined-Absent k rq x k.pending p ne (w.apart p));
    })

AllWait-Disjoint :
    (k : Kernel) (x p : ℕ) (ys zs : List ℕ)
    → Absent x ys
    → AllWait k ys
    → AllAt k p zs
    → Disjoint ys (x ∷ zs)
AllWait-Disjoint k x p [] zs n a b = tt
AllWait-Disjoint k x p (y ∷ ys) zs n a b = (
  ((λ e. n.0 (sym e)), Absent-not_ready k p y zs (λ e. wait-ne-ready (sym a.0 ∙ e)) b),
  AllWait-Disjoint k x p ys zs n.1 a.1 b,
)

AllWait-rest :
    (k : Kernel) (x : ℕ) (xs ys : List ℕ) → AllWait k (xs ++ x ∷ ys) → AllWait k (xs ++ ys)
AllWait-rest k x [] ys a = a.1
AllWait-rest k x (z ∷ zs) ys a = (a.0, AllWait-rest k x zs ys a.1)

module _ {k : Kernel} {rq : ℕ → List ℕ} (s x a : ℕ) (xs ys : List ℕ) (v : Scheduled k rq)
    (w : IsQueue k.links (k.semaphores s).waiters (xs ++ x ∷ ys)) (all : AllWait k (xs ++ x ∷ ys))
    (waits : (k.threads x).state ≡ wait) (sb : x ≢ nobody) where
  pub released-Scheduled : Scheduled (released k s x a) (joined k rq x)
  unfolding released
  released-Scheduled =
      let b = answered k s x a in
      let h = answered-Holds s x a xs ys v w all waits in
      let f = set_answer_keeps (stop_waiting (leave_sema k s x) x) x a in
      let g = leave_sema_lem k s x in
      let t = answered_threads s x a xs ys v w all waits in
      let p : priority_of b x ≡ priority_of k x = (t x).0 in
      let n = not_queued s x a xs ys v w all waits in
      let c : (make_ready b x).current ≡ k.current = (make_ready_keeps b x x).1 ∙ f.5 ∙ g.7 in
      let d : (make_ready b x).pending ≡ k.pending = (make_ready_keeps b x x).2 ∙ f.6 ∙ g.8 in
      record {
        holds =
            subst (λ p. Holds (make_ready b x) (update rq p (rq p ++ x ∷ []))) p
              (make_ready-Holds x h sb (subst (λ p. p < 128) (sym p) (v.range x)) (n _));
        range = λ j. subst (λ p. p < 128) (sym ((make_ready_keeps b x j).0 ∙ (t j).0)) (v.range j);
        thread = λ e. v.thread (sym c ∙ e);
        choice =
            choice-joined (make_ready b x) x c d
              (λ j ne. (make_ready_others b x j).0 ne ∙ (t j).1 ne) waits v.choice;
      }

  released_thread :
      (priority_of (released k s x a) x ≡ priority_of k x)
      × (((released k s x a).threads x).state ≡ ready)
  unfolding released
  released_thread =
      let b = answered k s x a in
      (
        (make_ready_keeps b x x).0 ∙ (answered_threads s x a xs ys v w all waits x).0,
        (make_ready_others b x x).1,
      )

  -- The list of waiters afterwards, and the count, which a waiter's release does not touch.
  pub released-waiters :
      let k' = released k s x a in
      IsQueue k'.links (k'.semaphores s).waiters (xs ++ ys)
      × ((k'.semaphores s).count ≡ (k.semaphores s).count)
  unfolding released
  released-waiters =
      let b = answered k s x a in
      let h = answered-Holds s x a xs ys v w all waits in
      let f = set_answer_keeps (stop_waiting (leave_sema k s x) x) x a in
      let g = leave_sema_lem k s x in
      let m = make_ready_others b x x in
      let u = unlink k.links (k.semaphores s).waiters x in
      let l : b.links ≡ u.0 = f.1 ∙ g.0 in
      let p = priority_of (set_ready b x) x in
      let q : IsQueue b.links u.1 (xs ++ ys) =
        subst (λ l. IsQueue l u.1 (xs ++ ys)) (sym l) (unlink-IsQueue x xs ys w) in
      let e : ((make_ready b x).semaphores s).waiters ≡ u.1 =
        ap (λ z. (z s).waiters) (m.2 ∙ f.4) ∙ g.1 in
      let d =
        AllWait-Disjoint k x p (xs ++ ys) (rq p) (Distinct-append xs x ys w.distinct).3
          (AllWait-rest k x xs ys all) (v.holds.queued.members p) in
      (
        subst (λ z. IsQueue (make_ready b x).links z (xs ++ ys)) (sym e)
            (subst (λ z. IsQueue z u.1 (xs ++ ys)) (sym m.4)
              (IsQueue-SameOutside (x ∷ rq p) (xs ++ ys)
                (enqueue-SameOutside x (rq p) (h.queued.queues p)) d q)),
        ap (λ z. (z s).count) (m.2 ∙ f.4) ∙ g.2,
      )

  pub released-Preemption :
      let k' = released k s x a in
      Preemption k' (joined k rq x) x (rq (priority_of k x)) (preempt_if_better k' x)
  released-Preemption =
      let k' = released k s x a in
      let p = released_thread in
      subst (λ l. Preemption k' (joined k rq x) x l (preempt_if_better k' x))
        (append-nil (rq (priority_of k x)))
        (preempt_if_better_lem x (rq (priority_of k x)) [] released-Scheduled
          (ap (joined k rq x) p.0 ∙ ground arith) p.1 sb)
