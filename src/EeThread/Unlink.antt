-- ===== src/EeThread/Unlink.antt =====
-- `unlink` of src/kernel/thread.cpp takes a thread out of the middle of a list, or of either end.
use ps2bios_rebuild.Common.{
  ℕ, ◌==◌, ◌≡◌, ◌≢◌, refl, sym, ◌∙◌, arith, List, [], ◌∷◌, ◌++◌, append-nil, false,
}
use ps2bios_rebuild.EeThread.Types.{Queue, nobody}
use ps2bios_rebuild.EeThread.Links.{
  Table, set_next, set_prev, set_next_next, set_next_prev, bypass_next, bypass_prev, unlink,
  pop_front,
}
use ps2bios_rebuild.EeThread.Lists.{
  first, last, Absent, Distinct, Segment, IsQueue, Segment-SameBut, set_next-SameBut,
  set_prev-SameBut, Segment-append, append-Segment, last-ne, Segment-set_next, Segment-set_prev,
  Absent-append, append-Absent, last-ne-nobody, alone, alone-SameBut,
}

Distinct-append :
    (xs : List ℕ) (id : ℕ) (ys : List ℕ)
    → Distinct (xs ++ id ∷ ys)
    → Distinct (xs ++ ys) × Distinct xs × Distinct ys × Absent id (xs ++ ys)
Distinct-append [] id ys d = (d.1, tt, d.1, d.0)
Distinct-append (x ∷ xs) id ys d =
    let r = Distinct-append xs id ys d.1 in
    let a = Absent-append x xs (id ∷ ys) d.0 in
    ((append-Absent x xs ys a.0 a.1.1, r.0), (a.0, r.1), r.2, ((λ e. a.1.0 (sym e)), r.3))

module _ (t : Table) (q : Queue) (id p n : ℕ) (behind : (t id).prev ≡ p)
    (before : (t id).next ≡ n) where
  pub unlink-only :
      p ≡ nobody
      → n ≡ nobody
      → unlink t q id ≡ (alone t id nobody, record { head = nobody; tail = nobody })
  unfolding unlink alone bypass_next bypass_prev
  unlink-only e f = ground arith

  pub unlink-first :
      p ≡ nobody
      → n ≢ nobody
      → unlink t q id ≡ (alone (set_prev t n nobody) id nobody, record q { head = n })
  unfolding unlink alone bypass_next bypass_prev
  unlink-first e f = ground arith

  pub unlink-last :
      p ≢ nobody
      → p ≢ id
      → n ≡ nobody
      → unlink t q id ≡ (alone (set_next t p nobody) id nobody, record q { tail = p })
  unfolding unlink alone bypass_next bypass_prev
  unlink-last e ne f = ground (arith, set_next_next t p nobody id, set_next_prev t p nobody id)

  unlink-middle :
      p ≢ nobody
      → p ≢ id
      → n ≢ nobody
      → unlink t q id ≡ (alone (set_prev (set_next t p n) n p) id nobody, q)
  unfolding unlink alone bypass_next bypass_prev
  unlink-middle e ne f = ground (arith, set_next_next t p n id, set_next_prev t p n id)

last-Absent : (x : ℕ) (xs zs : List ℕ) → Distinct (x ∷ (xs ++ zs)) → Absent (last x xs) zs
last-Absent x [] zs d = d.0
last-Absent x (y ∷ xs) zs d = last-Absent y xs zs d.1

middle-Absent : (xs : List ℕ) (id : ℕ) (ys : List ℕ) → Distinct (xs ++ id ∷ ys) → Absent id xs
middle-Absent xs id ys d = (Absent-append id xs ys (Distinct-append xs id ys d).3).0

last-append : (p : ℕ) (xs : List ℕ) (y : ℕ) (ys : List ℕ) → last p (xs ++ y ∷ ys) ≡ last y ys
last-append p [] y ys = refl
last-append p (x ∷ xs) y ys = last-append x xs y ys

first-append : (x : ℕ) (xs ys : List ℕ) (n : ℕ) → first ((x ∷ xs) ++ ys) n ≡ x
first-append x xs ys n = refl

-- `unlink` takes a thread out of the queue, wherever it stands, and keeps the order of the others.
pub unlink-IsQueue :
    {t : Table} {q : Queue} (id : ℕ) (xs ys : List ℕ)
    → IsQueue t q (xs ++ id ∷ ys)
    → IsQueue (unlink t q id).0 (unlink t q id).1 (xs ++ ys)
unlink-IsQueue {t} {q} id [] [] v =
    rw (unlink-only t q id nobody nobody v.links.1 v.links.2 refl refl)
      (record { head = refl; tail = refl; links = tt; distinct = tt })
unlink-IsQueue {t} {q} id [] (y ∷ ys) v =
    let u = set_prev t y nobody in
    rw (unlink-first t q id nobody y v.links.1 v.links.2 refl v.links.3.0) (record {
      head = refl;
      tail = v.tail;
      links =
          Segment-SameBut u (alone u id nobody) id nobody (y ∷ ys) nobody
            (alone-SameBut u id nobody) v.distinct.0
            (Segment-set_prev t id y ys nobody nobody v.distinct.1 v.links.3);
      distinct = v.distinct.1;
    })
unlink-IsQueue {t} {q} id (x ∷ xs) [] v =
    let l = last x xs in
    let s = Segment-append t nobody (x ∷ xs) (id ∷ []) nobody v.links in
    let d = Distinct-append (x ∷ xs) id [] v.distinct in
    let ne : l ≢ nobody = last-ne-nobody t nobody x xs id s.0 in
    let a : Absent id (x ∷ xs) = middle-Absent (x ∷ xs) id [] v.distinct in
    let ne' : l ≢ id = λ e. last-ne id x xs a.0 a.1 (sym e) in
    let u = set_next t l nobody in
    rw (append-nil, unlink-last t q id l nobody s.1.1 s.1.2 ne ne' refl)
      (record {
        head = v.head;
        tail = refl;
        links =
            Segment-SameBut u (alone u id nobody) id nobody (x ∷ xs) nobody
              (alone-SameBut u id nobody) a (Segment-set_next t nobody x xs id nobody d.1 s.0);
        distinct = d.1;
      })
unlink-IsQueue {t} {q} id (x ∷ xs) (y ∷ ys) v =
    let l = last x xs in
    let s = Segment-append t nobody (x ∷ xs) (id ∷ y ∷ ys) nobody v.links in
    let d = Distinct-append (x ∷ xs) id (y ∷ ys) v.distinct in
    let ne : l ≢ nobody = last-ne-nobody t nobody x xs id s.0 in
    let a : Absent id (x ∷ xs) = middle-Absent (x ∷ xs) id (y ∷ ys) v.distinct in
    let b : Absent y (x ∷ xs) = middle-Absent (x ∷ xs) y ys d.0 in
    let c : Absent l (y ∷ ys) = last-Absent x xs (y ∷ ys) d.0 in
    let ne' : l ≢ id = λ e. last-ne id x xs a.0 a.1 (sym e) in
    let u = set_next t l y in
    let w = set_prev u y l in
    let front : Segment u nobody (x ∷ xs) y = Segment-set_next t nobody x xs id y d.1 s.0 in
    let back : Segment u id (y ∷ ys) nobody =
      Segment-SameBut t u l id (y ∷ ys) nobody (set_next-SameBut t l y) c s.1.3 in
    let front' : Segment w nobody (x ∷ xs) y =
      Segment-SameBut u w y nobody (x ∷ xs) y (set_prev-SameBut u y l) b front in
    let back' : Segment w l (y ∷ ys) nobody = Segment-set_prev u id y ys nobody l d.2 back in
    rw (unlink-middle t q id l y s.1.1 s.1.2 ne ne' s.1.3.0) (record {
      head = v.head;
      tail = v.tail ∙ last-append x xs id (y ∷ ys) ∙ sym (last-append x xs y ys);
      links =
          Segment-SameBut w (alone w id nobody) id nobody (x ∷ xs ++ y ∷ ys) nobody
            (alone-SameBut w id nobody) d.3
            (append-Segment w nobody (x ∷ xs) (y ∷ ys) nobody front' back');
      distinct = d.0;
    })

pub pop_front_lem :
    (t : Table) (q : Queue) (id : ℕ)
    → q.head ≡ id
    → id ≢ nobody
    → pop_front t q ≡ (id, (unlink t q id).0, (unlink t q id).1)
unfolding pop_front
pop_front_lem t q id e h = let f : (id == nobody) ≡ false = ground arith in rw (e, f)

-- `popFront` answers the first thread and leaves the others, in their order.
pub pop_front-IsQueue :
    {t : Table} {q : Queue} (id : ℕ) (xs : List ℕ)
    → IsQueue t q (id ∷ xs)
    → let (r, u, p) = pop_front t q in (r ≡ id) × IsQueue u p xs
pop_front-IsQueue {t} {q} id xs v =
    rw (pop_front_lem t q id v.head v.links.0) (refl, unlink-IsQueue id [] xs v)
