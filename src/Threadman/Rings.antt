-- ===== src/Threadman/Rings.antt =====
-- The circular lists of messages in src/iop/threadman.cpp: hops through the words of memory.
use ps2bios_rebuild.Common.{
  ℕ, ◌==◌, ◌≡◌, ◌≢◌, refl, sym, ap, ◌∙◌, arith, List, [], ◌∷◌, ◌++◌, false, update, if◌then◌else◌,
  subst, append-nil,
}
use ps2bios_rebuild.Threadman.Lists.{last, Absent, Distinct, Absent-append, append-Absent}
use ps2bios_rebuild.Threadman.Mailboxes.{link_message}

-- The hops from `p` lead through `xs`.
abbrev pub Hops : (ℕ → ℕ) → ℕ → List ℕ → Type 0
Hops memory p [] = Unit {0}
Hops memory p (x ∷ xs) = (memory p ≡ x) × Hops memory x xs

-- Where the hops start.
abbrev pub sources : ℕ → List ℕ → List ℕ
sources p [] = []
sources p (x ∷ xs) = p ∷ sources x xs

-- The ring whose last message is `tail` holds `xs`, in that order, if it is not empty.
pub record IsRing (memory : ℕ → ℕ) (tail : ℕ) (xs : List ℕ) : Type 0 where
  pub hops : Hops memory tail xs
  pub closed : last tail xs ≡ tail
  pub distinct : Distinct xs

pub Hops-append :
    (memory : ℕ → ℕ) (p : ℕ) (xs ys : List ℕ)
    → Hops memory p (xs ++ ys)
    → Hops memory p xs × Hops memory (last p xs) ys
Hops-append memory p [] ys h = (tt, h)
Hops-append memory p (x ∷ xs) ys h = let r = Hops-append memory x xs ys h.1 in ((h.0, r.0), r.1)

pub append-Hops :
    (memory : ℕ → ℕ) (p : ℕ) (xs ys : List ℕ)
    → Hops memory p xs
    → Hops memory (last p xs) ys
    → Hops memory p (xs ++ ys)
append-Hops memory p [] ys h g = g
append-Hops memory p (x ∷ xs) ys h g = (h.0, append-Hops memory x xs ys h.1 g)

pub update-Hops :
    (memory : ℕ → ℕ) (i v p : ℕ) (xs : List ℕ)
    → Absent i (sources p xs)
    → Hops memory p xs
    → Hops (update memory i v) p xs
update-Hops memory i v p [] a h = tt
update-Hops memory i v p (x ∷ xs) a h =
    let e : (p == i) ≡ false = let ne = a.0 in ground arith in
    (ap (λ b. if b then v else memory p) e ∙ h.0, update-Hops memory i v x xs a.1 h.1)

pub Absent-sources : (j p : ℕ) (xs : List ℕ) → j ≢ p → Absent j xs → Absent j (sources p xs)
Absent-sources j p [] h a = tt
Absent-sources j p (x ∷ xs) h a = (h, Absent-sources j x xs a.0 a.1)

pub last_in : (j p : ℕ) (xs : List ℕ) → j ≢ p → Absent j xs → j ≢ last p xs
last_in j p [] h a = h
last_in j p (x ∷ xs) h a = last_in j x xs a.0 a.1

-- The last of distinct messages is not where a hop starts.
pub last-Absent-sources :
    (x : ℕ) (xs : List ℕ) → Distinct (x ∷ xs) → Absent (last x xs) (sources x xs)
last-Absent-sources x [] d = tt
last-Absent-sources x (y ∷ xs) d =
    ((λ e. last_in x y xs d.0.0 d.0.1 (sym e)), last-Absent-sources y xs d.1)

pub last-append : (p : ℕ) (xs ys : List ℕ) → last p (xs ++ ys) ≡ last (last p xs) ys
last-append p [] ys = refl
last-append p (x ∷ xs) ys = last-append x xs ys

pub Distinct-insert :
    (m : ℕ) (xs ys : List ℕ) → Absent m (xs ++ ys) → Distinct (xs ++ ys) → Distinct (xs ++ m ∷ ys)
Distinct-insert m [] ys a d = (a, d)
Distinct-insert m (x ∷ xs) ys a d =
    let b = Absent-append x xs ys d.0 in
    (append-Absent x xs (m ∷ ys) b.0 ((λ e. a.0 (sym e)), b.1), Distinct-insert m xs ys a.1 d.1)

-- Of distinct messages, the last of the first ones is none of the others.
pub last-Absent : (x : ℕ) (xs ys : List ℕ) → Distinct ((x ∷ xs) ++ ys) → Absent (last x xs) ys
last-Absent x [] ys d = d.0
last-Absent x (y ∷ xs) ys d = last-Absent y xs ys d.1

pub Distinct-front : (xs ys : List ℕ) → Distinct (xs ++ ys) → Distinct xs × Distinct ys
Distinct-front [] ys d = (tt, d)
Distinct-front (x ∷ xs) ys d =
    let r = Distinct-front xs ys d.1 in (((Absent-append x xs ys d.0).0, r.0), r.1)

-- The words that `link_message` leaves.
link_new :
    (memory : ℕ → ℕ) (q m : ℕ)
    → m ≢ q
    → (link_message memory q m m ≡ memory q) × (link_message memory q m q ≡ m)
link_new memory q m ne = (ground arith, ground arith)

link-Hops :
    (memory : ℕ → ℕ) (q m p : ℕ) (xs : List ℕ)
    → Absent q (sources p xs)
    → Absent m (sources p xs)
    → Hops memory p xs
    → Hops (link_message memory q m) p xs
link-Hops memory q m p xs a b h =
    update-Hops (update memory m (memory q)) q m p xs a (update-Hops memory m (memory q) p xs b h)

-- A message behind the last of `xs`, with more behind it: the ring's tail stays.
pub link-IsRing :
    {memory : ℕ → ℕ} {tail : ℕ} (m : ℕ) (xs : List ℕ) (y : ℕ) (ys : List ℕ)
    → IsRing memory tail (xs ++ y ∷ ys)
    → Absent m (xs ++ y ∷ ys)
    → IsRing (link_message memory (last tail xs) m) tail (xs ++ m ∷ y ∷ ys)
link-IsRing {memory} {tail} m xs y ys v a =
    let q = last tail xs in
    let h = Hops-append memory tail xs (y ∷ ys) v.hops in
    let b = Absent-append m xs (y ∷ ys) a in
    let c : last y ys ≡ tail = sym (last-append tail xs (y ∷ ys)) ∙ v.closed in
    let ne : m ≢ tail = subst (λ t. m ≢ t) c (last_in m y ys b.1.0 b.1.1) in
    let o : m ≢ q = last_in m tail xs ne b.0 in
    let l = link_new memory q m o in
    record {
      hops =
          append-Hops (link_message memory q m) tail xs (m ∷ y ∷ ys)
            (link-Hops memory q m tail xs (before xs c v.distinct) (Absent-sources m tail xs ne b.0)
              h.0)
            (
              l.1,
              (
                l.0 ∙ h.1.0,
                link-Hops memory q m y ys (behind xs c v.distinct)
                    (Absent-sources m y ys b.1.0 b.1.1) h.1.1,
              ),
            );
      closed = last-append tail xs (m ∷ y ∷ ys) ∙ c;
      distinct = Distinct-insert m xs (y ∷ ys) a v.distinct;
    }
  where
    before :
        (xs : List ℕ)
        → last y ys ≡ tail
        → Distinct (xs ++ y ∷ ys)
        → Absent (last tail xs) (sources tail xs)
    before [] c d = tt
    before (x ∷ xs) c d = (
      (λ e.
          last_in (last x xs) y ys (last-Absent x xs (y ∷ ys) d).0 (last-Absent x xs (y ∷ ys) d).1
            (e ∙ sym c)),
      last-Absent-sources x xs (Distinct-front (x ∷ xs) (y ∷ ys) d).0,
    )

    behind :
        (xs : List ℕ)
        → last y ys ≡ tail
        → Distinct (xs ++ y ∷ ys)
        → Absent (last tail xs) (sources y ys)
    behind [] c d = subst (λ t. Absent t (sources y ys)) c (last-Absent-sources y ys d)
    behind (x ∷ xs) c d =
        let l = last-Absent x xs (y ∷ ys) d in Absent-sources (last x xs) y ys l.0 l.1

-- A message behind all others is the new tail.
pub link-IsRing-tail :
    {memory : ℕ → ℕ} {tail : ℕ} (m x : ℕ) (xs : List ℕ)
    → IsRing memory tail (x ∷ xs)
    → Absent m (x ∷ xs)
    → IsRing (link_message memory tail m) m ((x ∷ xs) ++ m ∷ [])
link-IsRing-tail {memory} {tail} m x xs v a =
    let ne : m ≢ tail = subst (λ t. m ≢ t) v.closed (last_in m x xs a.0 a.1) in
    let l = link_new memory tail m ne in
    let b : Absent tail (sources x xs) =
      subst (λ t. Absent t (sources x xs)) v.closed (last-Absent-sources x xs v.distinct) in
    record {
      hops = (
        l.0 ∙ v.hops.0,
        append-Hops (link_message memory tail m) x xs (m ∷ [])
            (link-Hops memory tail m x xs b (Absent-sources m x xs a.0 a.1) v.hops.1)
            (ap (link_message memory tail m) v.closed ∙ l.1, tt),
      );
      closed = last-append x xs (m ∷ []);
      distinct =
          Distinct-insert m (x ∷ xs) [] (subst (Absent m) (sym (append-nil (x ∷ xs))) a)
            (subst Distinct (sym (append-nil (x ∷ xs))) v.distinct);
    }

-- The first message taken off.
pub unlink-IsRing :
    {memory : ℕ → ℕ} {tail : ℕ} (x y : ℕ) (xs : List ℕ)
    → IsRing memory tail (x ∷ y ∷ xs)
    → IsRing (update memory tail (memory x)) tail (y ∷ xs)
unlink-IsRing {memory} {tail} x y xs v =
    let b : Absent tail (sources y xs) =
      subst (λ t. Absent t (sources y xs)) v.closed (last-Absent-sources y xs v.distinct.1) in
    record {
      hops = (ground (arith, v.hops.1.0), update-Hops memory tail (memory x) y xs b v.hops.1.1);
      closed = v.closed;
      distinct = v.distinct.1;
    }
