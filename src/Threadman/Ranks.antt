-- ===== src/Threadman/Ranks.antt =====
-- The list of waiters by priority of src/iop/threadman.cpp.
use ps2bios_rebuild.Common.{
  ℕ, zero, suc, ◌<◌, ◌≤◌, ◌==◌, ◌≡◌, ◌≢◌, refl, sym, ap, ◌∙◌, inl, inr, arith, List, [], ◌∷◌, ◌++◌,
  false, Bool-cases, if◌then◌else◌, subst, append-nil, leb, length, Option, none, some,
}
use ps2bios_rebuild.Threadman.Types.{Links, Queue, nobody, thread_count}
use ps2bios_rebuild.Threadman.Links.{
  set_next, set_prev, enqueue, first_worse, follow, link_before, enqueue_by_priority,
}
use ps2bios_rebuild.Threadman.Lists.{
  first, last, Absent, Segment, IsQueue, Segment-append, enqueue-IsQueue, last-ne-nobody,
}
use ps2bios_rebuild.Threadman.Boxes.{by_priority}
use ps2bios_rebuild.Threadman.Rings.{last-append}
use ps2bios_rebuild.Threadman.Splice.{spliced, spliced-Segment}

-- Where the search for a thread worse than `id` stops.
record Stopped (priority : ℕ → ℕ) (id : ℕ) (zs : List ℕ) (r : Option ℕ) : Type 0 where
  front : List ℕ
  back : List ℕ
  parts : front ++ back ≡ zs
  found : r ≡ some (first back nobody)
  place : by_priority priority id zs ≡ front ++ id ∷ back

first_worse-Stopped :
    (n : ℕ) (l : Links) (priority : ℕ → ℕ) (id p at : ℕ) (zs : List ℕ)
    → length zs < n
    → at ≡ first zs nobody
    → Segment l p zs nobody
    → Stopped priority id zs (first_worse n l priority (priority id) at)
unfolding first_worse
first_worse-Stopped zero l priority id p at zs h e s = absurd (omega arith)
first_worse-Stopped (suc n) l priority id p at [] h e s = record {
  front = [];
  back = [];
  parts = refl;
  found = rw e refl;
  place = refl;
}
first_worse-Stopped (suc n) l priority id p at (z ∷ zs) h e s =
    let f : (z == nobody) ≡ false = let ne = s.0 in ground arith in
    subst (λ at. Stopped priority id (z ∷ zs) (first_worse (suc n) l priority (priority id) at))
      (sym e)
      (elim (Bool-cases (leb (priority z) (priority id))) [
        | inl b ↦
            let r = first_worse-Stopped n l priority id z (l.next z) zs (omega arith) s.2 s.3 in
            record {
              front = z ∷ r.front;
              back = r.back;
              parts = ap (λ l. z ∷ l) r.parts;
              found = rw (f, b) r.found;
              place = rw b (ap (λ l. z ∷ l) r.place);
            }
        | inr b ↦ record {
          front = [];
          back = z ∷ zs;
          parts = refl;
          found = rw (f, b) refl;
          place = rw b refl;
        }
      ])

link_before_lem :
    (l : Links) (q : Queue) (at id p : ℕ)
    → l.prev at ≡ p
    → at ≢ nobody
    → ((link_before l q at id).0 ≡ spliced l p id at)
      × ((link_before l q at id).1.head ≡ (if p == nobody then id else q.head))
      × ((link_before l q at id).1.tail ≡ q.tail)
unfolding link_before follow set_next set_prev
link_before_lem l q at id p e ne =
    let z : (at == nobody) ≡ false = ground arith in
    elim (Bool-cases (p == nobody)) [
      | inl b ↦ rw (e, z, b) (refl, refl, refl)
      | inr b ↦ rw (e, z, b) (refl, refl, refl)
    ]

link_before-IsQueue :
    {l : Links} {q : Queue} (id : ℕ) (xs : List ℕ) (y : ℕ) (ys : List ℕ)
    → IsQueue l q (xs ++ y ∷ ys)
    → id ≢ nobody
    → Absent id (xs ++ y ∷ ys)
    → let r = link_before l q y id in IsQueue r.0 r.1 (xs ++ id ∷ y ∷ ys)
link_before-IsQueue {l} {q} id xs y ys v ne a =
    let s = Segment-append l nobody xs (y ∷ ys) nobody v.links in
    let f = link_before_lem l q y id (last nobody xs) s.1.1 s.1.0 in
    let w = spliced-Segment l id xs (y ∷ ys) v.links v.distinct ne a in
    record {
      head = f.1 ∙ new_head xs v.head s.0;
      tail =
          f.2 ∙ v.tail ∙ last-append nobody xs (y ∷ ys) ∙ sym (last-append nobody xs (id ∷ y ∷ ys));
      links = subst (λ l. Segment l nobody (xs ++ id ∷ y ∷ ys) nobody) (sym f.0) w.0;
      distinct = w.1;
    }
  where
    new_head :
        (xs : List ℕ)
        → q.head ≡ first (xs ++ y ∷ ys) nobody
        → Segment l nobody xs y
        → (if last nobody xs == nobody then id else q.head) ≡ first (xs ++ id ∷ y ∷ ys) nobody
    new_head [] e s = refl
    new_head (x ∷ xs) e s =
        let sb = last-ne-nobody l nobody x xs y s in
        let z : (last x xs == nobody) ≡ false = ground arith in
        ap (λ b. if b then id else q.head) z ∙ e

enqueue_by_priority_found :
    (l : Links) (priority : ℕ → ℕ) (q : Queue) (id at : ℕ)
    → first_worse (suc thread_count) l priority (priority id) q.head ≡ some at
    → enqueue_by_priority l priority q id
      ≡ some (if at == nobody then enqueue l q id else link_before l q at id)
unfolding enqueue_by_priority
enqueue_by_priority_found l priority q id at e =
    ap
      (λ o. elim o [
        | none ↦ none
        | some at ↦ some (if at == nobody then enqueue l q id else link_before l q at id)
      ])
      e

-- `enqueueByPriority` ends, and puts a thread that is not in the list behind every thread whose
-- priority is not worse, and before the others, in their order.
pub enqueue_by_priority-IsQueue :
    {l : Links} {q : Queue} (priority : ℕ → ℕ) (id : ℕ) (xs : List ℕ)
    → IsQueue l q xs
    → length xs ≤ thread_count
    → id ≢ nobody
    → Absent id xs
    → (r : Links × Queue) × (enqueue_by_priority l priority q id ≡ some r)
      × IsQueue r.0 r.1 (by_priority priority id xs)
enqueue_by_priority-IsQueue {l} {q} priority id xs v h ne a =
    let r =
      first_worse-Stopped (suc thread_count) l priority id nobody q.head xs (omega arith) v.head
        v.links in
    let at = first r.back nobody in
    (
      (if at == nobody then enqueue l q id else link_before l q at id),
      enqueue_by_priority_found l priority q id at r.found,
      subst (λ zs. IsQueue (placed at).0 (placed at).1 zs) (sym r.place)
          (insert r.front r.back (subst (IsQueue l q) (sym r.parts) v)
            (subst (Absent id) (sym r.parts) a)),
    )
  where
    placed : ℕ → Links × Queue
    placed at = if at == nobody then enqueue l q id else link_before l q at id

    insert :
        (front back : List ℕ)
        → IsQueue l q (front ++ back)
        → Absent id (front ++ back)
        → IsQueue (placed (first back nobody)).0 (placed (first back nobody)).1 (front ++ id ∷ back)
    insert front [] w b =
        enqueue-IsQueue id front ne (subst (Absent id) (append-nil front) b)
          (subst (IsQueue l q) (append-nil front) w)
    insert front (y ∷ ys) w b =
        let sb = (Segment-append l nobody front (y ∷ ys) nobody w.links).1.0 in
        let z : (y == nobody) ≡ false = ground arith in
        subst (λ r. IsQueue r.0 r.1 (front ++ id ∷ y ∷ ys))
          (ap (λ b. if b then enqueue l q id else link_before l q y id) (sym z))
          (link_before-IsQueue id front y ys w ne b)
