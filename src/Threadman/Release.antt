-- ===== src/Threadman/Release.antt =====
-- A waiter of src/iop/threadman.cpp that is released: off its list, and ready.
use ps2bios_rebuild.Common.{
  ℕ, ◌/◌, ◌%◌, not, test_bit, ◌<◌, ◌==◌, ◌≡◌, ◌≢◌, refl, sym, ap, ◌∙◌, arith, List, [], ◌∷◌, ◌++◌,
  update, subst, none, some, sub32,
}
use ps2bios_rebuild.Threadman.Types.{
  Links, Queue, Kernel, run, ready, wait, on_sema, nobody, state_code, not_waiting,
}
use ps2bios_rebuild.Threadman.Links.{unlink}
use ps2bios_rebuild.Threadman.Ids.{semaphore_of}
use ps2bios_rebuild.Threadman.Lists.{Absent, IsQueue}
use ps2bios_rebuild.Threadman.Touch.{SameOutside, Disjoint, IsQueue-SameOutside, unlink-SameOutside}
use ps2bios_rebuild.Threadman.Ready.{priority_of, make_ready}
use ps2bios_rebuild.Threadman.Switch.{
  leave_sema, leave_object, cancel_delay, leave_wait, stop_waiting, set_answer, release,
}
use ps2bios_rebuild.Threadman.Scheduler.{AllAt, Holds}
use ps2bios_rebuild.Threadman.Choice.{Scheduled, Absent-not_ready}
use ps2bios_rebuild.Threadman.Blocking.{Absent-Holds}
use ps2bios_rebuild.Threadman.HandOver.{wait-ne-ready}

pub run-ne-wait : run ≢ wait
run-ne-wait e = let f : 1 ≡ 4 = ap state_code e in absurd (omega (arith, f))

-- The threads `xs` wait.
abbrev pub AllWait : Kernel → List ℕ → Type 0
AllWait k [] = Unit {0}
AllWait k (x ∷ xs) = ((k.threads x).state ≡ wait) × AllWait k xs

ready-not_waiting :
    (k : Kernel) (x : ℕ) (zs : List ℕ) → (k.threads x).state ≡ ready → AllWait k zs → Absent x zs
ready-not_waiting k x [] e a = tt
ready-not_waiting k x (z ∷ zs) e a = (
  (λ f. wait-ne-ready (sym a.0 ∙ ap (λ i. (k.threads i).state) (sym f) ∙ e)),
  ready-not_waiting k x zs e a.1,
)

pub AllAt-AllWait :
    (k : Kernel) (p : ℕ) (ys zs : List ℕ) → AllAt k p ys → AllWait k zs → Disjoint ys zs
AllAt-AllWait k p [] zs a b = tt
AllAt-AllWait k p (y ∷ ys) zs a b = (ready-not_waiting k y zs a.1 b, AllAt-AllWait k p ys zs a.2 b)

-- The scheduler does not see what else changes, nor the links of threads in no ready queue.
pub Holds-elsewhere :
    {k : Kernel} {rq : ℕ → List ℕ} (k' : Kernel) (zs : List ℕ)
    → Holds k rq
    → k'.threads ≡ k.threads
    → k'.ready_queue ≡ k.ready_queue
    → k'.ready_bits ≡ k.ready_bits
    → SameOutside zs k.links k'.links
    → ((p : ℕ) → Disjoint (rq p) zs)
    → Holds k' rq
Holds-elsewhere {k} {rq} k' zs v t q b s d = record {
  queued = record {
    queues = λ p.
        subst (λ r. IsQueue k'.links (r p) (rq p)) (sym q)
          (IsQueue-SameOutside zs (rq p) s (d p) (v.queued.queues p));
    members =
        λ p. subst (λ u. AllAt (record k { threads = u }) p (rq p)) (sym t) (v.queued.members p);
  };
  bitmap = record {
    marks = λ p h.
        ap (λ r. test_bit (p % 32) (r (p / 32))) b
        ∙ v.bitmap.marks p h
        ∙ ap (λ r. not ((r p).head == nobody)) (sym q);
    words = λ w h. subst (λ r. r w < 4294967296) (sym b) (v.bitmap.words w h);
  };
}

module _ (k : Kernel) (s x : ℕ) where
  abbrev semaphore_unlink : Links × Queue
  semaphore_unlink = unlink k.links (k.semaphores s).waiters x

  pub leave_sema_lem :
      let k' = leave_sema k s x in
      (k'.links ≡ semaphore_unlink.0)
      × ((k'.semaphores s).waiters ≡ semaphore_unlink.1)
      × ((k'.semaphores s).count ≡ (k.semaphores s).count)
      × ((k'.semaphores s).waiter_count ≡ sub32 (k.semaphores s).waiter_count 1)
      × (k'.threads ≡ k.threads)
      × (k'.ready_queue ≡ k.ready_queue)
      × (k'.ready_bits ≡ k.ready_bits)
      × (k'.current ≡ k.current)
      × (k'.pending ≡ k.pending)
      × (k'.memory ≡ k.memory)
  unfolding leave_sema
  leave_sema_lem =
      (refl, ground arith, ground arith, ground arith, refl, refl, refl, refl, refl, refl)

  -- What `release` makes of a waiter of the semaphore.
  unfoldable pub released : ℕ → Kernel
  released answer = make_ready (set_answer (stop_waiting (leave_sema k s x) x) x answer) x

  object_lem :
      semaphore_of k (k.threads x).wait_id ≡ some s → leave_object k on_sema x ≡ leave_sema k s x
  unfolding leave_object leave_sema
  object_lem f = rw (leave_object, f) refl

  leave_wait_lem :
      (k.threads x).wait_type ≡ on_sema
      → semaphore_of k (k.threads x).wait_id ≡ some s
      → leave_wait k x ≡ some (stop_waiting (leave_sema k s x) x)
  unfolding leave_wait cancel_delay
  leave_wait_lem e f =
      ap
        (λ t. elim (cancel_delay k t x) [
          | none ↦ none
          | some k' ↦ some (stop_waiting (leave_object k' t x) x)
        ])
        e
      ∙ ap (λ l. some (stop_waiting l x)) (object_lem f)

  pub release_lem :
      (answer : ℕ)
      → (k.threads x).wait_type ≡ on_sema
      → semaphore_of k (k.threads x).wait_id ≡ some s
      → release k x answer ≡ some (released answer)
  unfolding release released
  release_lem answer e f =
      ap (λ o. elim o [ none ↦ none | some k ↦ some (make_ready (set_answer k x answer) x) ])
        (leave_wait_lem e f)

pub set_answer_keeps :
    (k : Kernel) (x a : ℕ)
    → let k' = set_answer k x a in
      (k'.threads ≡ k.threads)
      × (k'.links ≡ k.links)
      × (k'.ready_queue ≡ k.ready_queue)
      × (k'.ready_bits ≡ k.ready_bits)
      × (k'.semaphores ≡ k.semaphores)
      × (k'.current ≡ k.current)
      × (k'.pending ≡ k.pending)
unfolding set_answer
set_answer_keeps k x a = (
  ground arith,
  ground arith,
  ground arith,
  ground arith,
  ground arith,
  ground arith,
  ground arith,
)

-- The waiter off its list, with its answer, before it is made ready.
abbrev pub answered : Kernel → ℕ → ℕ → ℕ → Kernel
answered k s x a = set_answer (stop_waiting (leave_sema k s x) x) x a

module _ {k : Kernel} {rq : ℕ → List ℕ} (s x a : ℕ) (xs ys : List ℕ) (v : Scheduled k rq)
    (w : IsQueue k.links (k.semaphores s).waiters (xs ++ x ∷ ys)) (all : AllWait k (xs ++ x ∷ ys))
    (waits : (k.threads x).state ≡ wait) where
  pub not_queued : (p : ℕ) → Absent x (rq p)
  not_queued p =
      Absent-not_ready k p x (rq p) (λ e. wait-ne-ready (sym waits ∙ e)) (v.holds.queued.members p)

  left-Holds : Holds (leave_sema k s x) rq
  left-Holds =
      let f = leave_sema_lem k s x in
      Holds-elsewhere (leave_sema k s x) (xs ++ x ∷ ys) v.holds f.4 f.5 f.6
        (subst (SameOutside (xs ++ x ∷ ys) k.links) (sym f.0) (unlink-SameOutside x xs ys w))
        (λ p. AllAt-AllWait k p (rq p) (xs ++ x ∷ ys) (v.holds.queued.members p) all)

  pub answered-Holds : Holds (answered k s x a) rq
  answered-Holds =
      let f = set_answer_keeps (stop_waiting (leave_sema k s x) x) x a in
      Holds-elsewhere (answered k s x a) [] (Absent-Holds x _ not_queued left-Holds) f.0 f.2 f.3
        (λ j h g. (ap (λ l. l.next j) f.1, ap (λ l. l.prev j) f.1)) (λ p. disjoint (rq p))
    where
      disjoint : (ys : List ℕ) → Disjoint ys []
      disjoint [] = tt
      disjoint (y ∷ ys) = (tt, disjoint ys)

  pub answered_threads :
      (j : ℕ)
      → (priority_of (answered k s x a) j ≡ priority_of k j)
        × (j ≢ x → ((answered k s x a).threads j).state ≡ (k.threads j).state)
  answered_threads j =
      let f = set_answer_keeps (stop_waiting (leave_sema k s x) x) x a in
      let g = leave_sema_lem k s x in
      let e : (answered k s x a).threads
          ≡ update k.threads x (record (k.threads x) { wait_type = not_waiting }) =
        f.0 ∙ ap (λ t. update t x (record (t x) { wait_type = not_waiting })) g.4 in
      (
        ap (λ t. (t j).current_priority) e ∙ ground arith,
        λ ne. ap (λ t. (t j).state) e ∙ ground arith,
      )
