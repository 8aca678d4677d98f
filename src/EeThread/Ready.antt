-- ===== src/EeThread/Ready.antt =====
-- What making a thread ready in src/kernel/thread.cpp does to the lists it is not in.
use ps2bios_rebuild.Common.{
  if◌then◌else◌, ℕ, ◌==◌, ◌≡◌, ◌≢◌, ◌∙◌, ap, refl, arith, List, inl, inr, Bool-cases,
}
use ps2bios_rebuild.EeThread.Types.{idle_queue, Kernel, Queue, ThreadRecord, nobody, ready}
use ps2bios_rebuild.EeThread.Links.{Table, enqueue, set_next, set_prev}
use ps2bios_rebuild.EeThread.Lists.{
  IsQueue, Absent, SameBut, Segment-SameBut, alone, alone-SameBut, enqueue_lem, enqueue-empty,
  set_next-SameBut,
}
use ps2bios_rebuild.EeThread.Tables.{queue_of, set_thread, link_ready, make_ready}

pub IsQueue-SameBut :
    (t u : Table) (i : ℕ) {q : Queue} {xs : List ℕ}
    → SameBut i t u
    → Absent i xs
    → IsQueue t q xs
    → IsQueue u q xs
IsQueue-SameBut t u i {q} {xs} e a v = record {
  head = v.head;
  tail = v.tail;
  links = Segment-SameBut t u i nobody xs nobody e a v.links;
  distinct = v.distinct;
}

-- An entry appended to one queue leaves a queue alone that holds neither it nor the other's tail.
pub enqueue-apart :
    {t : Table} {r : Queue} {ys : List ℕ} (q : Queue) (id : ℕ)
    → Absent id ys
    → Absent q.tail ys
    → IsQueue t r ys
    → IsQueue (enqueue t q id).0 r ys
enqueue-apart {t} {r} {ys} q id a b v = elim (Bool-cases (q.tail == nobody)) [
  | inl e ↦
      rw (enqueue-empty t q id (ground arith))
        (IsQueue-SameBut t (alone t id nobody) id (alone-SameBut t id nobody) a v)
  | inr e ↦
      let u = alone t id q.tail in
      rw (enqueue_lem t q id q.tail refl (ground arith)) (
        IsQueue-SameBut u (set_next u q.tail id) q.tail (set_next-SameBut u q.tail id) b
          (IsQueue-SameBut t u id (alone-SameBut t id q.tail) a v))
]

-- A thread whose record changes beside its links.
set_thread-SameBut :
    (k : Kernel) (id : ℕ) (r : ThreadRecord) → SameBut id k.threads (set_thread k id r).threads
set_thread-SameBut k id r j h = ground arith

pub link_ready_threads :
    (k : Kernel) (id : ℕ)
    → (link_ready k id).threads ≡ (enqueue k.threads (k.ready_queue (queue_of k id)) id).0
unfolding link_ready
link_ready_threads k id = ground arith

-- A thread marked ready, before it is linked.
unfoldable pub marked_ready : Kernel → ℕ → Kernel
marked_ready k id = set_thread k id (record (k.threads id) { state = ready })

pub marked_ready_queue : (k : Kernel) (id : ℕ) → queue_of (marked_ready k id) id ≡ queue_of k id
unfolding marked_ready queue_of
marked_ready_queue k id = ground arith

pub marked_ready-SameBut : (k : Kernel) (id : ℕ) → SameBut id k.threads (marked_ready k id).threads
unfolding marked_ready
marked_ready-SameBut k id j h = ground arith

pub make_ready_threads :
    (k : Kernel) (id : ℕ)
    → (make_ready k id).threads
      ≡ (enqueue (marked_ready k id).threads (k.ready_queue (queue_of k id)) id).0
unfolding make_ready marked_ready
make_ready_threads k id =
    link_ready_threads (marked_ready k id) id
    ∙ ap (λ q. (enqueue (marked_ready k id).threads (k.ready_queue q) id).0)
        (marked_ready_queue k id)

-- Making a thread ready leaves a list alone that holds neither it nor its ready queue's last.
pub make_ready-apart :
    (k : Kernel) (id : ℕ) {r : Queue} {ys : List ℕ}
    → Absent id ys
    → Absent (k.ready_queue (queue_of k id)).tail ys
    → IsQueue k.threads r ys
    → IsQueue (make_ready k id).threads r ys
make_ready-apart k id {r} {ys} a b v = rw (make_ready_threads k id) (
    enqueue-apart (k.ready_queue (queue_of k id)) id a b
      (IsQueue-SameBut k.threads (marked_ready k id).threads id (marked_ready-SameBut k id) a v))

pub enqueue_state : (t : Table) (q : Queue) (id j : ℕ) → ((enqueue t q id).0 j).state ≡ (t j).state
unfolding enqueue set_next set_prev
enqueue_state t q id j = ground arith

pub make_ready_state : (k : Kernel) (id : ℕ) → ((make_ready k id).threads id).state ≡ ready
unfolding marked_ready
make_ready_state k id =
    ap (λ t. (t id).state) (make_ready_threads k id)
    ∙ enqueue_state (marked_ready k id).threads (k.ready_queue (queue_of k id)) id id
    ∙ ground arith

enqueue_keeps :
    (t : Table) (q : Queue) (id j : ℕ)
    → (((enqueue t q id).0 j).context ≡ (t j).context)
      × (((enqueue t q id).0 j).wait_type ≡ (t j).wait_type)
      × (((enqueue t q id).0 j).current_priority ≡ (t j).current_priority)
unfolding enqueue set_next set_prev
enqueue_keeps t q id j = (ground arith, ground arith, ground arith)

marked_ready_keeps :
    (k : Kernel) (id j : ℕ)
    → let m = marked_ready k id in
      ((m.threads j).context ≡ (k.threads j).context)
      × ((m.threads j).wait_type ≡ (k.threads j).wait_type)
      × ((m.threads j).current_priority ≡ (k.threads j).current_priority)
      × (j ≢ id → (m.threads j).state ≡ (k.threads j).state)
unfolding marked_ready
marked_ready_keeps k id j = (ground arith, ground arith, ground arith, λ h. ground arith)

-- What making a thread ready keeps of each thread.
module _ (k : Kernel) (id j : ℕ) where
  pub make_ready_others :
      (((make_ready k id).threads j).context ≡ (k.threads j).context)
      × (j ≢ id → ((make_ready k id).threads j).state ≡ (k.threads j).state)
  make_ready_others =
      let m = (marked_ready k id).threads in
      let q = k.ready_queue (queue_of k id) in
      let f = marked_ready_keeps k id j in
      (
        ap (λ t. (t j).context) (make_ready_threads k id) ∙ (enqueue_keeps m q id j).0 ∙ f.0,
        λ h. ap (λ t. (t j).state) (make_ready_threads k id) ∙ enqueue_state m q id j ∙ f.3 h,
      )

  pub make_ready-wait_type : ((make_ready k id).threads j).wait_type ≡ (k.threads j).wait_type
  make_ready-wait_type =
      let m = (marked_ready k id).threads in
      ap (λ t. (t j).wait_type) (make_ready_threads k id)
      ∙ (enqueue_keeps m (k.ready_queue (queue_of k id)) id j).1
      ∙ (marked_ready_keeps k id j).1

  make_ready-priority :
      ((make_ready k id).threads j).current_priority ≡ (k.threads j).current_priority
  make_ready-priority =
      let m = (marked_ready k id).threads in
      ap (λ t. (t j).current_priority) (make_ready_threads k id)
      ∙ (enqueue_keeps m (k.ready_queue (queue_of k id)) id j).2
      ∙ (marked_ready_keeps k id j).2

  pub make_ready-queue_of : queue_of (make_ready k id) j ≡ queue_of k j
  unfolding queue_of
  make_ready-queue_of = ap (λ p. if j == 0 then idle_queue else p) make_ready-priority

-- What linking leaves as it was.
pub make_ready_keeps :
    (k : Kernel) (id : ℕ)
    → ((make_ready k id).semaphores ≡ k.semaphores) × ((make_ready k id).memory ≡ k.memory)
unfolding make_ready link_ready
make_ready_keeps k id = (ground arith, ground arith)
