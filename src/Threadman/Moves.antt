-- ===== src/Threadman/Moves.antt =====
-- What the operations of src/iop/threadman.cpp on ready threads do to the lists of the scheduler.
use ps2bios_rebuild.Common.{
  ℕ, ◌<◌, ◌==◌, ◌≡◌, ◌≢◌, ◌⊎◌, refl, sym, ap, ◌∙◌, inl, inr, arith, List, [], ◌∷◌, ◌++◌, true,
  update, subst, if_ind,
}
use ps2bios_rebuild.Threadman.Types.{Queue, Kernel, ready, nobody}
use ps2bios_rebuild.Threadman.Links.{enqueue, unlink, push_front}
use ps2bios_rebuild.Threadman.Lists.{Absent, IsQueue, enqueue-IsQueue}
use ps2bios_rebuild.Threadman.Unlink.{unlink-IsQueue, pop_front_lem}
use ps2bios_rebuild.Threadman.Touch.{
  SameOutside, enqueue-SameOutside, unlink-SameOutside, push_front-SameOutside, push_front-IsQueue,
}
use ps2bios_rebuild.Threadman.Ready.{
  priority_of, with_ready, unmark_empty, link_ready, set_ready, make_ready, make_ready_first,
  take_off_ready, pop_ready, pick,
}
use ps2bios_rebuild.Threadman.Bitmap.{mark_of, Marked, unmark_empty-BitmapIsTrue}
use ps2bios_rebuild.Threadman.Pick.{pick-best}
use ps2bios_rebuild.Threadman.Scheduler.{
  AllAt, Queued, Holds, AllAt-append, AllAt-split, with_ready-Queued, with_ready-BitmapBut,
  head_somebody, head_nobody, linked-Holds,
}

-- A thread that is ready goes behind the others of its priority.
pub link_ready-Holds :
    {k : Kernel} {rq : ℕ → List ℕ} (id : ℕ)
    → Holds k rq
    → id ≢ nobody
    → priority_of k id < 128
    → (k.threads id).state ≡ ready
    → Absent id (rq (priority_of k id))
    → Holds (link_ready k id) (update rq (priority_of k id) (rq (priority_of k id) ++ id ∷ []))
unfolding link_ready
link_ready-Holds {k} {rq} id v ne b s a =
    let p = priority_of k id in
    let w = v.queued.queues p in
    linked-Holds id (enqueue k.links (k.ready_queue p) id).0
      (enqueue k.links (k.ready_queue p) id).1 (rq p) [] v b (enqueue-SameOutside id (rq p) w)
      (enqueue-IsQueue id (rq p) ne a w)
      (AllAt-append k p (rq p) (id ∷ []) (v.queued.members p) (refl, s, tt))

set_ready_keeps :
    (k : Kernel) (id x : ℕ)
    → (priority_of (set_ready k id) x ≡ priority_of k x)
      × (((k.threads x).state ≡ ready) → ((set_ready k id).threads x).state ≡ ready)
      × (((set_ready k id).threads id).state ≡ ready)
set_ready_keeps k id x = (ground arith, λ h. ground arith, ground arith)

set_ready-AllAt : (k : Kernel) (id p : ℕ) (xs : List ℕ) → AllAt k p xs → AllAt (set_ready k id) p xs
set_ready-AllAt k id p [] a = tt
set_ready-AllAt k id p (x ∷ xs) a =
    let f = set_ready_keeps k id x in (f.0 ∙ a.0, f.1 a.1, set_ready-AllAt k id p xs a.2)

set_ready-Holds : {k : Kernel} {rq : ℕ → List ℕ} (id : ℕ) → Holds k rq → Holds (set_ready k id) rq
set_ready-Holds {k} {rq} id v = record {
  queued = record {
    queues = v.queued.queues;
    members = λ p. set_ready-AllAt k id p (rq p) (v.queued.members p);
  };
  bitmap = record { marks = v.bitmap.marks; words = v.bitmap.words };
}

-- `make_ready` puts a thread that is in no queue behind the others of its priority.
pub make_ready-Holds :
    {k : Kernel} {rq : ℕ → List ℕ} (id : ℕ)
    → Holds k rq
    → id ≢ nobody
    → priority_of k id < 128
    → Absent id (rq (priority_of k id))
    → Holds (make_ready k id) (update rq (priority_of k id) (rq (priority_of k id) ++ id ∷ []))
unfolding make_ready
make_ready-Holds {k} {rq} id v ne b a =
    let f = set_ready_keeps k id id in
    let e : priority_of (set_ready k id) id ≡ priority_of k id = f.0 in
    subst (λ p. Holds (link_ready (set_ready k id) id) (update rq p (rq p ++ id ∷ []))) e
      (link_ready-Holds id (set_ready-Holds id v) ne (subst (λ p. p < 128) (sym e) b) f.2
        (subst (λ p. Absent id (rq p)) (sym e) a))

-- `make_ready_first` puts it before them.
pub make_ready_first-Holds :
    {k : Kernel} {rq : ℕ → List ℕ} (id : ℕ)
    → Holds k rq
    → id ≢ nobody
    → priority_of k id < 128
    → Absent id (rq (priority_of k id))
    → Holds (make_ready_first k id) (update rq (priority_of k id) (id ∷ rq (priority_of k id)))
unfolding make_ready_first
make_ready_first-Holds {k} {rq} id v ne b a =
    let r = set_ready k id in
    let f = set_ready_keeps k id id in
    let p = priority_of r id in
    let e : p ≡ priority_of k id = f.0 in
    let w = v.queued.queues p in
    let a' : Absent id (rq p) = subst (λ p. Absent id (rq p)) (sym e) a in
    let h = set_ready-Holds id v in
    subst (λ j. Holds (make_ready_first k id) (update rq j (id ∷ rq j))) e
      (linked-Holds id (push_front k.links (k.ready_queue p) id).0
        (push_front k.links (k.ready_queue p) id).1 [] (rq p) h (subst (λ p. p < 128) (sym e) b)
        (push_front-SameOutside id (rq p) w) (push_front-IsQueue id (rq p) ne a' w)
        (refl, f.2, h.queued.members p))

unmark_empty-Queued :
    {k : Kernel} {rq : ℕ → List ℕ} (p : ℕ) → Queued k rq → Queued (unmark_empty k p) rq
unfolding unmark_empty
unmark_empty-Queued {k} {rq} p v =
    if_ind (λ k. Queued k rq) ((k.ready_queue p).head == nobody)
      (λ e. record { queues = v.queues; members = v.members }) (λ e. v)

-- Taking a thread off its queue leaves the others as they were.
unlinked-Holds :
    {k : Kernel} {rq : ℕ → List ℕ} (id : ℕ) (xs ys : List ℕ)
    → Holds k rq
    → priority_of k id < 128
    → rq (priority_of k id) ≡ xs ++ id ∷ ys
    → let p = priority_of k id in
      Holds
        (unmark_empty (with_ready k p (unlink k.links (k.ready_queue p) id)) p)
        (update rq p (xs ++ ys))
unlinked-Holds {k} {rq} id xs ys v b e =
    let p = priority_of k id in
    let w : IsQueue k.links (k.ready_queue p) (xs ++ id ∷ ys) =
      subst (IsQueue k.links (k.ready_queue p)) e (v.queued.queues p) in
    let a = AllAt-split k p xs (id ∷ ys) (subst (AllAt k p) e (v.queued.members p)) in
    let u = unlink k.links (k.ready_queue p) id in
    let s : SameOutside (id ∷ rq p) k.links u.0 =
      λ j ne h. unlink-SameOutside id xs ys w j ne (subst (Absent j) e h.1) in
    let q =
      with_ready-Queued p id u.0 u.1 (xs ++ ys) v.queued refl s (unlink-IsQueue id xs ys w)
        (AllAt-append k p xs ys a.0 a.1.2) in
    let m : mark_of k p ≡ true = marked xs w (v.bitmap.marks p b) in
    record {
      queued = unmark_empty-Queued p q;
      bitmap = unmark_empty-BitmapIsTrue p b (with_ready-BitmapBut p u v.bitmap) m;
    }
  where
    marked :
        {p : ℕ} (xs : List ℕ)
        → IsQueue k.links (k.ready_queue p) (xs ++ id ∷ ys)
        → Marked k p
        → mark_of k p ≡ true
    marked xs w m = let ne = head_somebody xs id ys w in ground (arith, m, ne)

-- `take_off_ready` takes a thread out of its queue, wherever it stands.
pub take_off_ready-Holds :
    {k : Kernel} {rq : ℕ → List ℕ} (id : ℕ) (xs ys : List ℕ)
    → Holds k rq
    → priority_of k id < 128
    → rq (priority_of k id) ≡ xs ++ id ∷ ys
    → Holds (take_off_ready k id) (update rq (priority_of k id) (xs ++ ys))
unfolding take_off_ready
take_off_ready-Holds id xs ys v b e = unlinked-Holds id xs ys v b e

pop_ready_lem :
    (k : Kernel) (id : ℕ)
    → let p = priority_of k id in
      (k.ready_queue p).head ≡ id
      → id ≢ nobody
      → pop_ready k p ≡ (id, unmark_empty (with_ready k p (unlink k.links (k.ready_queue p) id)) p)
unfolding pop_ready
pop_ready_lem k id e h = rw (pop_front_lem k.links (k.ready_queue (priority_of k id)) id e h)

pop_ready-Holds :
    {k : Kernel} {rq : ℕ → List ℕ} (p id : ℕ) (ys : List ℕ)
    → Holds k rq
    → p < 128
    → rq p ≡ id ∷ ys
    → ((pop_ready k p).0 ≡ id) × Holds (pop_ready k p).1 (update rq p ys)
pop_ready-Holds {k} {rq} p id ys v b e =
    let w : IsQueue k.links (k.ready_queue p) (id ∷ ys) =
      subst (IsQueue k.links (k.ready_queue p)) e (v.queued.queues p) in
    let a : AllAt k p (id ∷ ys) = subst (AllAt k p) e (v.queued.members p) in
    subst
      (λ p.
        p < 128
        → rq p ≡ id ∷ ys
        → (k.ready_queue p).head ≡ id
        → ((pop_ready k p).0 ≡ id) × Holds (pop_ready k p).1 (update rq p ys))
      a.0 (λ b e h. rw (pop_ready_lem k id h w.links.0) (refl, unlinked-Holds id [] ys v b e)) b e
      w.head

-- `pick` takes the first thread of the best priority that has one, and the scheduler holds the rest;
-- it answers `nobody`, with nothing changed, only if no thread is ready.
pub pick-Holds :
    {k : Kernel} {rq : ℕ → List ℕ}
    → Holds k rq
    → (((p : ℕ) → p < 128 → rq p ≡ []) × (pick k ≡ (nobody, k)))
      ⊎ ((p : ℕ) × (id : ℕ) × (ys : List ℕ) × (p < 128)
          × (rq p ≡ id ∷ ys)
          × ((j : ℕ) → j < p → rq j ≡ [])
          × ((pick k).0 ≡ id)
          × Holds (pick k).1 (update rq p ys))
pick-Holds {k} {rq} v = elim (pick-best v.bitmap) [
  | inl (f, e) ↦ inl (λ p h. head_nobody (rq p) (v.queued.queues p) (f p h), e)
  | inr (p, b, ne, f, e) ↦
      let (id, ys, g) = somebody (rq p) (v.queued.queues p) ne in
      let r = pop_ready-Holds p id ys v b g in
      inr (
        p,
        id,
        ys,
        b,
        g,
        λ j h. head_nobody (rq j) (v.queued.queues j) (f j h),
        ap (λ x. x.0) e ∙ r.0,
        subst (λ x. Holds x.1 (update rq p ys)) (sym e) r.1,
      )
]
  where
    somebody :
        {q : Queue} (xs : List ℕ)
        → IsQueue k.links q xs
        → q.head ≢ nobody
        → (id : ℕ) × (ys : List ℕ) × (xs ≡ id ∷ ys)
    somebody [] v h = absurd (h v.head)
    somebody (x ∷ xs) v h = (x, xs, refl)
