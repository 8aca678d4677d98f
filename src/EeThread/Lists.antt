-- ===== src/EeThread/Lists.antt =====
-- The doubly linked lists of src/kernel/thread.cpp stand for lists of thread numbers.
use ps2bios_rebuild.Common.{ℕ, ◌≡◌, ◌≢◌, refl, sym, ◌∙◌, arith, List, [], ◌∷◌, ◌++◌}
use ps2bios_rebuild.EeThread.Types.{Queue, nobody}
use ps2bios_rebuild.EeThread.Links.{
  Table, set_next, set_prev, set_next_next, set_next_prev, set_prev_next, set_prev_prev, enqueue,
}

abbrev pub first : List ℕ → ℕ → ℕ
first [] n = n
first (x ∷ xs) n = x

abbrev pub last : ℕ → List ℕ → ℕ
last p [] = p
last p (x ∷ xs) = last x xs

abbrev pub Absent : ℕ → List ℕ → Type 0
Absent i [] = Unit {0}
Absent i (x ∷ xs) = (i ≢ x) × Absent i xs

abbrev pub Distinct : List ℕ → Type 0
Distinct [] = Unit {0}
Distinct (x ∷ xs) = Absent x xs × Distinct xs

-- The entries `xs` are linked both ways, behind `p` and before `n`.
abbrev pub Segment : Table → ℕ → List ℕ → ℕ → Type 0
Segment t p [] n = Unit {0}
Segment t p (x ∷ xs) n =
    (x ≢ nobody) × ((t x).prev ≡ p) × ((t x).next ≡ first xs n) × Segment t x xs n

-- The queue `q` holds `xs`, in that order.
pub record IsQueue (t : Table) (q : Queue) (xs : List ℕ) : Type 0 where
  pub head : q.head ≡ first xs nobody
  pub tail : q.tail ≡ last nobody xs
  pub links : Segment t nobody xs nobody
  pub distinct : Distinct xs

-- Two tables agree on the links of all threads but `i`.
abbrev pub SameBut : ℕ → Table → Table → Type 0
SameBut i t u = (j : ℕ) → j ≢ i → ((u j).next ≡ (t j).next) × ((u j).prev ≡ (t j).prev)

pub Segment-SameBut :
    (t u : Table) (i p : ℕ) (xs : List ℕ) (n : ℕ)
    → SameBut i t u
    → Absent i xs
    → Segment t p xs n
    → Segment u p xs n
Segment-SameBut t u i p [] n e a s = tt
Segment-SameBut t u i p (x ∷ xs) n e a s =
    let f = e x (λ h. a.0 (sym h)) in
    (s.0, f.1 ∙ s.1, f.0 ∙ s.2, Segment-SameBut t u i x xs n e a.1 s.3)

pub set_next-SameBut : (t : Table) (i v : ℕ) → SameBut i t (set_next t i v)
set_next-SameBut t i v j h = ground (arith, set_next_next t i v j, set_next_prev t i v j)

pub set_prev-SameBut : (t : Table) (i v : ℕ) → SameBut i t (set_prev t i v)
set_prev-SameBut t i v j h = ground (arith, set_prev_next t i v j, set_prev_prev t i v j)

pub Segment-append :
    (t : Table) (p : ℕ) (xs ys : List ℕ) (n : ℕ)
    → Segment t p (xs ++ ys) n
    → Segment t p xs (first ys n) × Segment t (last p xs) ys n
Segment-append t p [] ys n s = (tt, s)
Segment-append t p (x ∷ []) ys n s = ((s.0, s.1, s.2, tt), s.3)
Segment-append t p (x ∷ y ∷ xs) ys n s =
    let r = Segment-append t x (y ∷ xs) ys n s.3 in ((s.0, s.1, s.2, r.0), r.1)

pub append-Segment :
    (t : Table) (p : ℕ) (xs ys : List ℕ) (n : ℕ)
    → Segment t p xs (first ys n)
    → Segment t (last p xs) ys n
    → Segment t p (xs ++ ys) n
append-Segment t p [] ys n s r = r
append-Segment t p (x ∷ []) ys n s r = (s.0, s.1, s.2, r)
append-Segment t p (x ∷ y ∷ xs) ys n s r = (s.0, s.1, s.2, append-Segment t x (y ∷ xs) ys n s.3 r)

pub last-ne : (i p : ℕ) (xs : List ℕ) → i ≢ p → Absent i xs → i ≢ last p xs
last-ne i p [] h a = h
last-ne i p (x ∷ xs) h a = last-ne i x xs a.0 a.1

-- A new successor for the last entry.
pub Segment-set_next :
    (t : Table) (p x : ℕ) (xs : List ℕ) (n m : ℕ)
    → Distinct (x ∷ xs)
    → Segment t p (x ∷ xs) n
    → Segment (set_next t (last x xs) m) p (x ∷ xs) m
Segment-set_next t p x [] n m d s = ground (arith, set_next_next t x m x, set_next_prev t x m x)
Segment-set_next t p x (y ∷ xs) n m d s =
    let l = last x (y ∷ xs) in
    let ne : x ≢ l = last-ne x y xs d.0.0 d.0.1 in
    let f = set_next-SameBut t l m x ne in
    (s.0, f.1 ∙ s.1, f.0 ∙ s.2, Segment-set_next t x y xs n m d.1 s.3)

-- A new predecessor for the first entry.
pub Segment-set_prev :
    (t : Table) (p x : ℕ) (xs : List ℕ) (n q : ℕ)
    → Distinct (x ∷ xs)
    → Segment t p (x ∷ xs) n
    → Segment (set_prev t x q) q (x ∷ xs) n
Segment-set_prev t p x xs n q d s = (
  s.0,
  ground (arith, set_prev_prev t x q x),
  ground (arith, set_prev_next t x q x),
  Segment-SameBut t (set_prev t x q) x x xs n (set_prev-SameBut t x q) d.0 s.3,
)

pub Absent-append : (i : ℕ) (xs ys : List ℕ) → Absent i (xs ++ ys) → Absent i xs × Absent i ys
Absent-append i [] ys a = (tt, a)
Absent-append i (x ∷ xs) ys a = let r = Absent-append i xs ys a.1 in ((a.0, r.0), r.1)

pub append-Absent : (i : ℕ) (xs ys : List ℕ) → Absent i xs → Absent i ys → Absent i (xs ++ ys)
append-Absent i [] ys a b = b
append-Absent i (x ∷ xs) ys a b = (a.0, append-Absent i xs ys a.1 b)

Distinct-snoc : (i : ℕ) (xs : List ℕ) → Absent i xs → Distinct xs → Distinct (xs ++ i ∷ [])
Distinct-snoc i [] a d = (tt, tt)
Distinct-snoc i (x ∷ xs) a d =
    (append-Absent x xs (i ∷ []) d.0 ((λ e. a.0 (sym e)), tt), Distinct-snoc i xs a.1 d.1)

last-snoc : (p i : ℕ) (xs : List ℕ) → last p (xs ++ i ∷ []) ≡ i
last-snoc p i [] = refl
last-snoc p i (x ∷ xs) = last-snoc x i xs

pub last-ne-nobody :
    (t : Table) (p x : ℕ) (xs : List ℕ) (n : ℕ) → Segment t p (x ∷ xs) n → last x xs ≢ nobody
last-ne-nobody t p x [] n s = s.0
last-ne-nobody t p x (y ∷ xs) n s = last-ne-nobody t x y xs n s.3

-- `id` with no successor, and `l` before it.
unfoldable pub alone : Table → ℕ → ℕ → Table
alone t id l = set_prev (set_next t id nobody) id l

pub alone-SameBut : (t : Table) (id l : ℕ) → SameBut id t (alone t id l)
unfolding alone
alone-SameBut t id l j h =
    let f = set_prev-SameBut (set_next t id nobody) id l j h in
    let g = set_next-SameBut t id nobody j h in (f.0 ∙ g.0, f.1 ∙ g.1)

pub alone_links :
    (t : Table) (id l : ℕ) → ((alone t id l id).next ≡ nobody) × ((alone t id l id).prev ≡ l)
unfolding alone
alone_links t id l = (
  ground (arith, set_prev_next (set_next t id nobody) id l id, set_next_next t id nobody id),
  ground (arith, set_prev_prev (set_next t id nobody) id l id),
)

pub enqueue_lem :
    (t : Table) (q : Queue) (id l : ℕ)
    → q.tail ≡ l
    → l ≢ nobody
    → enqueue t q id ≡ (set_next (alone t id l) l id, record q { tail = id })
unfolding enqueue alone
enqueue_lem t q id l e h = rw e (ground arith)

pub enqueue-empty :
    (t : Table) (q : Queue) (id : ℕ)
    → q.tail ≡ nobody
    → enqueue t q id ≡ (alone t id nobody, record { head = id; tail = id })
unfolding enqueue alone
enqueue-empty t q id e = rw e

-- `enqueue` puts a thread that is not in the queue behind the others, in their order.
pub enqueue-IsQueue :
    {t : Table} {q : Queue} (id : ℕ) (xs : List ℕ)
    → id ≢ nobody
    → Absent id xs
    → IsQueue t q xs
    → IsQueue (enqueue t q id).0 (enqueue t q id).1 (xs ++ id ∷ [])
enqueue-IsQueue {t} {q} id [] h a v =
    let f = alone_links t id nobody in
    rw (enqueue-empty t q id v.tail)
      (record { head = refl; tail = refl; links = (h, f.1, f.0, tt); distinct = (tt, tt) })
enqueue-IsQueue {t} {q} id (x ∷ xs) h a v =
    let l = last x xs in
    let ne : l ≢ nobody = last-ne-nobody t nobody x xs nobody v.links in
    let ne' : id ≢ l = last-ne id x xs a.0 a.1 in
    let u = alone t id l in
    let f = alone_links t id l in
    let g = set_next-SameBut u l id id ne' in
    let front : Segment (set_next u l id) nobody (x ∷ xs) id =
      Segment-set_next u nobody x xs nobody id v.distinct
        (Segment-SameBut t u id nobody (x ∷ xs) nobody (alone-SameBut t id l) a v.links) in
    rw (enqueue_lem t q id l v.tail ne) (record {
      head = v.head;
      tail = sym (last-snoc x id xs);
      links =
          append-Segment (set_next u l id) nobody (x ∷ xs) (id ∷ []) nobody front
            (h, g.1 ∙ f.1, g.0 ∙ f.0, tt);
      distinct = Distinct-snoc id (x ∷ xs) a v.distinct;
    })
