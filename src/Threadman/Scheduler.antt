-- ===== src/Threadman/Scheduler.antt =====
-- The scheduler of src/iop/threadman.cpp, seen as one list of threads for each priority.
use ps2bios_rebuild.Common.{
  ℕ, ◌<◌, ◌==◌, ◌≡◌, ◌≢◌, refl, sym, ap, ◌∙◌, inl, inr, arith, List, [], ◌∷◌, ◌++◌, false,
  Bool-cases, update, subst,
}
use ps2bios_rebuild.Threadman.Types.{Links, Queue, Kernel, ready, nobody}
use ps2bios_rebuild.Threadman.Lists.{Absent, IsQueue}
use ps2bios_rebuild.Threadman.Touch.{SameOutside, Disjoint, IsQueue-SameOutside}
use ps2bios_rebuild.Threadman.Ready.{priority_of, with_ready, mark_ready}
use ps2bios_rebuild.Threadman.Bitmap.{BitmapIsTrue, BitmapBut, mark_ready-BitmapIsTrue}

-- The threads `xs` are ready, at priority `p`.
abbrev pub AllAt : Kernel → ℕ → List ℕ → Type 0
AllAt k p [] = Unit {0}
AllAt k p (x ∷ xs) = (priority_of k x ≡ p) × ((k.threads x).state ≡ ready) × AllAt k p xs

-- Ready queue `p` holds the threads `rq p`, in that order.
pub record Queued (k : Kernel) (rq : ℕ → List ℕ) : Type 0 where
  pub queues : (p : ℕ) → IsQueue k.links (k.ready_queue p) (rq p)
  pub members : (p : ℕ) → AllAt k p (rq p)

-- Moreover the bitmap is true.
pub record Holds (k : Kernel) (rq : ℕ → List ℕ) : Type 0 where
  pub queued : Queued k rq
  pub bitmap : BitmapIsTrue k

pub AllAt-Absent :
    (k : Kernel) (p x : ℕ) (zs : List ℕ) → priority_of k x ≢ p → AllAt k p zs → Absent x zs
AllAt-Absent k p x [] h a = tt
AllAt-Absent k p x (z ∷ zs) h a =
    ((λ e. h (ap (priority_of k) e ∙ a.0)), AllAt-Absent k p x zs h a.2)

AllAt-Disjoint :
    (k : Kernel) (j p id : ℕ) (ys zs : List ℕ)
    → j ≢ p
    → priority_of k id ≡ p
    → AllAt k j ys
    → AllAt k p zs
    → Disjoint ys (id ∷ zs)
AllAt-Disjoint k j p id [] zs h e a b = tt
AllAt-Disjoint k j p id (y ∷ ys) zs h e a b = (
  ((λ f. h (sym a.0 ∙ ap (priority_of k) f ∙ e)), AllAt-Absent k p y zs (λ f. h (sym a.0 ∙ f)) b),
  AllAt-Disjoint k j p id ys zs h e a.2 b,
)

pub AllAt-append :
    (k : Kernel) (p : ℕ) (xs ys : List ℕ) → AllAt k p xs → AllAt k p ys → AllAt k p (xs ++ ys)
AllAt-append k p [] ys a b = b
AllAt-append k p (x ∷ xs) ys a b = (a.0, a.1, AllAt-append k p xs ys a.2 b)

pub AllAt-split :
    (k : Kernel) (p : ℕ) (xs ys : List ℕ) → AllAt k p (xs ++ ys) → AllAt k p xs × AllAt k p ys
AllAt-split k p [] ys a = (tt, a)
AllAt-split k p (x ∷ xs) ys a = let r = AllAt-split k p xs ys a.2 in ((a.0, a.1, r.0), r.1)

-- An operation on queue `p` that moves only `id` and threads of the queue.
pub with_ready-Queued :
    {k : Kernel} {rq : ℕ → List ℕ} (p id : ℕ) (u : Links) (q : Queue) (zs : List ℕ)
    → Queued k rq
    → priority_of k id ≡ p
    → SameOutside (id ∷ rq p) k.links u
    → IsQueue u q zs
    → AllAt k p zs
    → Queued (with_ready k p (u, q)) (update rq p zs)
with_ready-Queued {k} {rq} p id u q zs v e s w a = record {
  queues = λ j.
      elim (Bool-cases (j == p))
        as (λ _. IsQueue u (update k.ready_queue p q j) (update rq p zs j)) [
          | inl f ↦ rw f w
          | inr f ↦
              let ne : j ≢ p = ground arith in
              let d = AllAt-Disjoint k j p id (rq j) (rq p) ne e (v.members j) (v.members p) in
              rw f (IsQueue-SameOutside (id ∷ rq p) (rq j) s d (v.queues j))
        ];
  members = λ j. elim (Bool-cases (j == p)) as (λ _. AllAt k j (update rq p zs j)) [
    | inl f ↦ let g : j ≡ p = ground arith in rw f (subst (λ i. AllAt k i zs) (sym g) a)
    | inr f ↦ rw f (v.members j)
  ];
}

pub with_ready-BitmapBut :
    {k : Kernel} (p : ℕ) (r : Links × Queue) → BitmapIsTrue k → BitmapBut (with_ready k p r) p
with_ready-BitmapBut {k} p r v = record {
  marks = λ j h ne. let f : (j == p) ≡ false = ground arith in rw f (v.marks j h);
  words = v.words;
}

pub head_somebody :
    {l : Links} {q : Queue} (xs : List ℕ) (id : ℕ) (ys : List ℕ)
    → IsQueue l q (xs ++ id ∷ ys)
    → q.head ≢ nobody
head_somebody [] id ys v = λ e. v.links.0 (sym v.head ∙ e)
head_somebody (x ∷ xs) id ys v = λ e. v.links.0 (sym v.head ∙ e)

pub head_nobody : {l : Links} {q : Queue} (xs : List ℕ) → IsQueue l q xs → q.head ≡ nobody → xs ≡ []
head_nobody [] v e = refl
head_nobody (x ∷ xs) v e = absurd (v.links.0 (sym v.head ∙ e))

-- A thread put into its queue, whose bit is then set.
pub linked-Holds :
    {k : Kernel} {rq : ℕ → List ℕ} (id : ℕ) (u : Links) (q : Queue) (xs ys : List ℕ)
    → Holds k rq
    → priority_of k id < 128
    → SameOutside (id ∷ rq (priority_of k id)) k.links u
    → IsQueue u q (xs ++ id ∷ ys)
    → AllAt k (priority_of k id) (xs ++ id ∷ ys)
    → let p = priority_of k id in
      Holds (mark_ready (with_ready k p (u, q)) p) (update rq p (xs ++ id ∷ ys))
unfolding mark_ready
linked-Holds {k} {rq} id u q xs ys v b s w a =
    let p = priority_of k id in
    let r = with_ready-Queued p id u q (xs ++ id ∷ ys) v.queued refl s w a in
    let e : update k.ready_queue p q p ≡ q = ground arith in
    record {
      queued = record { queues = r.queues; members = r.members };
      bitmap =
          mark_ready-BitmapIsTrue p b (with_ready-BitmapBut p (u, q) v.bitmap)
            (λ h. head_somebody xs id ys w (ap (λ q. q.head) (sym e) ∙ h));
    }
