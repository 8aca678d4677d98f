-- ===== src/Threadman/Touch.antt =====
-- What the list operations of src/iop/threadman.cpp leave alone: the links of all threads but those
-- of the list.
use ps2bios_rebuild.Common.{ℕ, ◌≡◌, ◌≢◌, refl, ap, ◌∙◌, arith, List, [], ◌∷◌, ◌++◌}
use ps2bios_rebuild.Threadman.Types.{Links, Queue, nobody}
use ps2bios_rebuild.Threadman.Links.{
  set_next, set_prev, enqueue, unlink, bypass_next, bypass_prev, push_front,
}
use ps2bios_rebuild.Threadman.Lists.{
  first, Absent, Segment, IsQueue, SameBut, Segment-SameBut, set_next-SameBut, set_prev-SameBut,
  Segment-append, last-ne, Absent-append, Segment-set_prev,
}

-- The links of thread `j` are the same.
abbrev pub SameAt : ℕ → Links → Links → Type 0
SameAt j l u = (u.next j ≡ l.next j) × (u.prev j ≡ l.prev j)

abbrev pub SameOutside : List ℕ → Links → Links → Type 0
SameOutside xs l u = (j : ℕ) → j ≢ nobody → Absent j xs → SameAt j l u

abbrev pub Disjoint : List ℕ → List ℕ → Type 0
Disjoint [] zs = Unit {0}
Disjoint (y ∷ ys) zs = Absent y zs × Disjoint ys zs

pub Segment-SameOutside :
    (l u : Links) (zs : List ℕ) (p : ℕ) (ys : List ℕ) (n : ℕ)
    → SameOutside zs l u
    → Disjoint ys zs
    → Segment l p ys n
    → Segment u p ys n
Segment-SameOutside l u zs p [] n e d s = tt
Segment-SameOutside l u zs p (y ∷ ys) n e d s =
    let f = e y s.0 d.0 in (s.0, f.1 ∙ s.1, f.0 ∙ s.2, Segment-SameOutside l u zs y ys n e d.1 s.3)

pub IsQueue-SameOutside :
    {l u : Links} {q : Queue} (zs ys : List ℕ)
    → SameOutside zs l u
    → Disjoint ys zs
    → IsQueue l q ys
    → IsQueue u q ys
IsQueue-SameOutside {l} {u} {q} zs ys e d v = record {
  head = v.head;
  tail = v.tail;
  links = Segment-SameOutside l u zs nobody ys nobody e d v.links;
  distinct = v.distinct;
}

module _ (l : Links) (q : Queue) (id j : ℕ) (other : j ≢ id) where
  enqueue-SameAt : j ≢ q.tail → SameAt j l (enqueue l q id).0
  unfolding enqueue set_next set_prev
  enqueue-SameAt h = (ground arith, ground arith)

  unlink-SameAt : j ≢ l.prev id → j ≢ l.next id → SameAt j l (unlink l q id).0
  unfolding unlink bypass_next bypass_prev set_next set_prev
  unlink-SameAt h g = (ground arith, ground arith)

  push_front-SameAt : j ≢ q.head → SameAt j l (push_front l q id).0
  unfolding push_front set_next set_prev
  push_front-SameAt h = (ground arith, ground arith)

first-ne : (i n : ℕ) (xs : List ℕ) → i ≢ n → Absent i xs → i ≢ first xs n
first-ne i n [] h a = h
first-ne i n (x ∷ xs) h a = a.0

pub enqueue-SameOutside :
    {l : Links} {q : Queue} (id : ℕ) (xs : List ℕ)
    → IsQueue l q xs
    → SameOutside (id ∷ xs) l (enqueue l q id).0
enqueue-SameOutside {l} {q} id xs v j ne a =
    enqueue-SameAt l q id j a.0 (λ e. last-ne j nobody xs ne a.1 (e ∙ v.tail))

pub push_front-SameOutside :
    {l : Links} {q : Queue} (id : ℕ) (xs : List ℕ)
    → IsQueue l q xs
    → SameOutside (id ∷ xs) l (push_front l q id).0
push_front-SameOutside {l} {q} id xs v j ne a =
    push_front-SameAt l q id j a.0 (λ e. first-ne j nobody xs ne a.1 (e ∙ v.head))

pub unlink-SameOutside :
    {l : Links} {q : Queue} (id : ℕ) (xs ys : List ℕ)
    → IsQueue l q (xs ++ id ∷ ys)
    → SameOutside (xs ++ id ∷ ys) l (unlink l q id).0
unlink-SameOutside {l} {q} id xs ys v j ne a =
    let s = Segment-append l nobody xs (id ∷ ys) nobody v.links in
    let b = Absent-append j xs (id ∷ ys) a in
    unlink-SameAt l q id j b.1.0 (λ e. last-ne j nobody xs ne b.0 (e ∙ s.1.1))
      (λ e. first-ne j nobody ys ne b.1.1 (e ∙ s.1.2))

push_front-empty :
    (l : Links) (q : Queue) (id : ℕ)
    → q.head ≡ nobody
    → let (u, p) = push_front l q id in
      (p ≡ record { head = id; tail = id }) × (u.next id ≡ nobody) × (u.prev id ≡ nobody)
unfolding push_front set_next set_prev
push_front-empty l q id e = rw e (refl, ground arith, ground arith)

-- `id` before the head of a queue.
abbrev headed : Links → ℕ → ℕ → Links
headed l id x = set_next (set_prev l id nobody) id x

push_front_lem :
    (l : Links) (q : Queue) (id x : ℕ)
    → q.head ≡ x
    → x ≢ nobody
    → push_front l q id ≡ (set_prev (headed l id x) x id, record q { head = id })
unfolding push_front
push_front_lem l q id x e h = rw e (ground arith)

headed_links :
    (l : Links) (id x : ℕ)
    → id ≢ x
    → let u = set_prev (headed l id x) x id in (u.next id ≡ x) × (u.prev id ≡ nobody)
unfolding set_next set_prev
headed_links l id x h = (ground arith, ground arith)

-- `push_front` puts a thread before the others, in their order.
pub push_front-IsQueue :
    {l : Links} {q : Queue} (id : ℕ) (xs : List ℕ)
    → id ≢ nobody
    → Absent id xs
    → IsQueue l q xs
    → IsQueue (push_front l q id).0 (push_front l q id).1 (id ∷ xs)
push_front-IsQueue {l} {q} id [] h a v =
    let f = push_front-empty l q id v.head in
    record {
      head = ap (λ q. q.head) f.0;
      tail = ap (λ q. q.tail) f.0;
      links = (h, f.2, f.1, tt);
      distinct = (tt, tt);
    }
push_front-IsQueue {l} {q} id (x ∷ xs) h a v =
    let f = headed_links l id x a.0 in
    let same : SameBut id l (headed l id x) = λ j ne.
      let g = set_prev-SameBut l id nobody j ne in
      let g' = set_next-SameBut (set_prev l id nobody) id x j ne in (g'.0 ∙ g.0, g'.1 ∙ g.1) in
    let s = Segment-SameBut l (headed l id x) id nobody (x ∷ xs) nobody same a v.links in
    rw (push_front_lem l q id x v.head v.links.0) (record {
      head = refl;
      tail = v.tail;
      links = (h, f.1, f.0, Segment-set_prev (headed l id x) nobody x xs nobody id v.distinct s);
      distinct = (a, v.distinct);
    })
