-- ===== src/EeThread/Queues.antt =====
-- The ready queues of src/kernel/thread.cpp as lists, and what waiters do to them.
use ps2bios_rebuild.Common.{
  ℕ, ◌==◌, ◌≡◌, ◌≢◌, ◌∙◌, sym, refl, ap, subst, arith, List, [], ◌∷◌, ◌++◌, inl, inr, Bool-cases,
  update, All, append-All, map-All,
}
use ps2bios_rebuild.EeThread.Types.{Kernel, Queue, nobody}
use ps2bios_rebuild.EeThread.Links.{Table, enqueue, unlink, set_prev}
use ps2bios_rebuild.EeThread.Lists.{
  last, Absent, append-Absent, Segment, IsQueue, SameBut, alone, alone-SameBut, set_prev-SameBut,
  enqueue-IsQueue,
}
use ps2bios_rebuild.EeThread.Unlink.{unlink-only, unlink-first}
use ps2bios_rebuild.EeThread.Tables.{queue_of, make_ready, link_ready}
use ps2bios_rebuild.EeThread.Ready.{
  IsQueue-SameBut, marked_ready, marked_ready_queue, marked_ready-SameBut, make_ready_threads,
  make_ready-apart, make_ready-queue_of,
}

-- Each ready queue holds its list, and the threads in a queue are of its priority.
pub record InQueues (k : Kernel) (rq : ℕ → List ℕ) : Type 0 where
  pub queues : (q : ℕ) → IsQueue k.threads (k.ready_queue q) (rq q)
  pub members : (q : ℕ) → All (λ x. queue_of k x ≡ q) (rq q)

-- None of `xs` is in a ready queue.
abbrev pub Outside : (ℕ → List ℕ) → List ℕ → Type 0
Outside rq xs = (q : ℕ) → All (λ x. Absent x (rq q)) xs

-- `id` behind the others of queue `q`.
abbrev pub with_last : (ℕ → List ℕ) → ℕ → ℕ → ℕ → List ℕ
with_last rq q id = update rq q (rq q ++ id ∷ [])

Segment-nobody : (t : Table) (p : ℕ) (xs : List ℕ) (n : ℕ) → Segment t p xs n → Absent nobody xs
Segment-nobody t p [] n s = tt
Segment-nobody t p (x ∷ xs) n s = ((λ e. s.0 (sym e)), Segment-nobody t x xs n s.3)

All-last : (P : ℕ → Type 0) (x : ℕ) (xs : List ℕ) → P x → All P xs → P (last x xs)
All-last P x [] p a = p
All-last P x (y ∷ xs) p a = All-last P y xs a.0 a.1

-- The last of a list is not in another one that is apart from it.
last-Outside :
    (xs ys : List ℕ) → Absent nobody ys → All (λ y. Absent y xs) ys → Absent (last nobody xs) ys
last-Outside [] ys n a = n
last-Outside (x ∷ xs) [] n a = tt
last-Outside (x ∷ xs) (y ∷ ys) n a = (
  (λ e. All-last (λ z. y ≢ z) x xs a.0.0 (each y xs a.0.1) (sym e)),
  last-Outside (x ∷ xs) ys n.1 a.1,
)
  where
    each : (y : ℕ) (xs : List ℕ) → Absent y xs → All (λ z. y ≢ z) xs
    each y [] b = tt
    each y (x ∷ xs) b = (b.0, each y xs b.1)

-- The last of a ready queue is in no list of threads that are in none.
pub tail-Absent :
    {k : Kernel} {rq : ℕ → List ℕ} {t : Table} {r : Queue} (q : ℕ) (ws : List ℕ)
    → InQueues k rq
    → Outside rq ws
    → IsQueue t r ws
    → Absent (k.ready_queue q).tail ws
tail-Absent {k} {rq} {t} q ws v o w =
    subst (λ i. Absent i ws) (sym (v.queues q).tail)
      (last-Outside (rq q) ws (Segment-nobody t nobody ws nobody w.links) (o q))

other_queue :
    (k : Kernel) (p q x : ℕ) (xs : List ℕ)
    → p ≢ q
    → queue_of k x ≡ p
    → All (λ x. queue_of k x ≡ q) xs
    → Absent x xs
other_queue k p q x [] h e a = tt
other_queue k p q x (y ∷ xs) h e a =
    ((λ f. h (sym e ∙ ap (queue_of k) f ∙ a.0)), other_queue k p q x xs h e a.1)

last_other :
    (k : Kernel) (p q : ℕ) (xs ys : List ℕ)
    → p ≢ q
    → Absent nobody ys
    → All (λ x. queue_of k x ≡ p) xs
    → All (λ x. queue_of k x ≡ q) ys
    → Absent (last nobody xs) ys
last_other k p q [] ys h n a b = n
last_other k p q (x ∷ xs) ys h n a b =
    other_queue k p q (last x xs) ys h (All-last (λ x. queue_of k x ≡ p) x xs a.0 a.1) b

-- The last of a ready queue is in no other one.
tail-other :
    {k : Kernel} {rq : ℕ → List ℕ} (p q : ℕ)
    → p ≢ q
    → InQueues k rq
    → Absent (k.ready_queue p).tail (rq q)
tail-other {k} {rq} p q h v =
    subst (λ i. Absent i (rq q)) (sym (v.queues p).tail)
      (last_other k p q (rq p) (rq q) h
        (Segment-nobody k.threads nobody (rq q) nobody (v.queues q).links) (v.members p)
        (v.members q))

make_ready_queues :
    (k : Kernel) (id : ℕ)
    → (make_ready k id).ready_queue
      ≡ update k.ready_queue
          (queue_of k id)
          (enqueue (marked_ready k id).threads (k.ready_queue (queue_of k id)) id).1
unfolding make_ready marked_ready link_ready
make_ready_queues k id =
    ground arith
    ∙ ap (λ q. update k.ready_queue q (enqueue (marked_ready k id).threads (k.ready_queue q) id).1)
        (marked_ready_queue k id)

-- A thread that is made ready is the last of its queue, and the queues are else as they were.
pub make_ready-InQueues :
    {k : Kernel} {rq : ℕ → List ℕ} (id : ℕ)
    → id ≢ nobody
    → ((q : ℕ) → Absent id (rq q))
    → InQueues k rq
    → InQueues (make_ready k id) (with_last rq (queue_of k id) id)
make_ready-InQueues {k} {rq} id nz a v = record {
  queues = λ q. elim (Bool-cases (q == p)) [
    | inl e ↦
        rw (make_ready_queues k id, e, make_ready_threads k id)
          (enqueue-IsQueue id (rq p) nz (a p) (
            IsQueue-SameBut k.threads (marked_ready k id).threads id (marked_ready-SameBut k id)
              (a p) (v.queues p)))
    | inr e ↦
        rw (make_ready_queues k id, e)
          (make_ready-apart k id (a q) (tail-other p q (ground arith) v) (v.queues q))
  ];
  members = λ q. elim (Bool-cases (q == p)) [
    | inl e ↦
        let same : p ≡ q = ground arith in
        rw e (
          append-All (λ x. queue_of (make_ready k id) x ≡ q) (rq p) (id ∷ [])
            (subst (λ q. All (λ x. queue_of (make_ready k id) x ≡ q) (rq p)) same
              (moved p (rq p) (v.members p)))
            (make_ready-queue_of k id id ∙ same, tt))
    | inr e ↦ rw e (moved q (rq q) (v.members q))
  ];
}
  where
    p : ℕ
    p = queue_of k id

    moved :
        (q : ℕ) (xs : List ℕ)
        → All (λ x. queue_of k x ≡ q) xs
        → All (λ x. queue_of (make_ready k id) x ≡ q) xs
    moved q xs =
        map-All (λ x. queue_of k x ≡ q) (λ x. queue_of (make_ready k id) x ≡ q) xs
          (λ x e. make_ready-queue_of k id x ∙ e)

-- A change of one thread outside the queues, which keeps all priorities, keeps the queues.
pub InQueues-SameBut :
    {k u : Kernel} {rq : ℕ → List ℕ} (i : ℕ)
    → SameBut i k.threads u.threads
    → u.ready_queue ≡ k.ready_queue
    → ((j : ℕ) → queue_of u j ≡ queue_of k j)
    → ((q : ℕ) → Absent i (rq q))
    → InQueues k rq
    → InQueues u rq
InQueues-SameBut {k} {u} {rq} i s e f a v = record {
  queues = λ q.
      subst (λ r. IsQueue u.threads (r q) (rq q)) (sym e)
        (IsQueue-SameBut k.threads u.threads i s (a q) (v.queues q));
  members = λ q.
      map-All (λ x. queue_of k x ≡ q) (λ x. queue_of u x ≡ q) (rq q) (λ x g. f x ∙ g) (v.members q);
}

-- The first of a list is taken out of it, and a queue that is apart from the list stays.
pub unlink-apart :
    {t : Table} {q r : Queue} (id : ℕ) (ws ys : List ℕ)
    → IsQueue t q (id ∷ ws)
    → All (λ x. Absent x ys) (id ∷ ws)
    → IsQueue t r ys
    → IsQueue (unlink t q id).0 r ys
unlink-apart {t} {q} id [] ys v a w =
    rw (unlink-only t q id nobody nobody v.links.1 v.links.2 refl refl)
      (IsQueue-SameBut t (alone t id nobody) id (alone-SameBut t id nobody) a.0 w)
unlink-apart {t} {q} id (y ∷ ws) ys v a w =
    let u = set_prev t y nobody in
    rw (unlink-first t q id nobody y v.links.1 v.links.2 refl v.links.3.0) (
      IsQueue-SameBut u (alone u id nobody) id (alone-SameBut u id nobody) a.0
        (IsQueue-SameBut t u y (set_prev-SameBut t y nobody) a.1.0 w))

-- Waiters stay outside when another thread has become ready.
pub with_last-Outside :
    (rq : ℕ → List ℕ) (p id : ℕ) (ws : List ℕ)
    → Absent id ws
    → Outside rq ws
    → Outside (with_last rq p id) ws
with_last-Outside rq p id ws a o q = elim (Bool-cases (q == p)) [
  | inl e ↦ rw e (each ws a (o p))
  | inr e ↦ rw e (o q)
]
  where
    each :
        (ws : List ℕ)
        → Absent id ws
        → All (λ x. Absent x (rq p)) ws
        → All (λ x. Absent x (rq p ++ id ∷ [])) ws
    each [] a b = tt
    each (w ∷ ws) a b =
        (append-Absent w (rq p) (id ∷ []) b.0 ((λ e. a.0 (sym e)), tt), each ws a.1 b.1)
