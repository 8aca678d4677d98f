-- ===== src/Loadcore/Gathered.antt =====
-- The clients that are taken from a registry of src/iop/loadcore.cpp, and those that stay.
use ps2bios_rebuild.Common.{
  ℕ, ◌≡◌, sym, List, [], ◌∷◌, ◌++◌, Bool, true, false, if◌then◌else◌, if_ind, subst,
}
use ps2bios_rebuild.Threadman.Lists.{Absent, Distinct, append-Absent, Absent-append}
use ps2bios_rebuild.Loadcore.Tables.{Tables, is_pinned, same_library}
use ps2bios_rebuild.Loadcore.Chains.{
  Chain, Apart, Chain-same, keep, drop, drop-Absent, drop-Distinct,
}
use ps2bios_rebuild.Loadcore.Take.{
  given_up, append-Apart, rev-Apart, drop-Apart, keep-Apart, Apart-sym, rev-Absent, rev-Distinct,
  keep-Apart-rev,
}
use ps2bios_rebuild.Loadcore.Walks.{members, gather, staying, Stay, member_facts, Apart-append}

append-Distinct : (xs ys : List ℕ) → Distinct xs → Distinct ys → Apart xs ys → Distinct (xs ++ ys)
append-Distinct [] ys d e a = e
append-Distinct (x ∷ xs) ys d e a = (append-Absent x xs ys d.0 a.0, append-Distinct xs ys d.1 e a.1)

given_up-Absent : (r : Tables) (i : ℕ) (xs : List ℕ) → Absent i xs → Absent i (given_up r xs)
given_up-Absent r i xs a = rev-Absent i (drop (is_pinned r) xs) (drop-Absent (is_pinned r) i xs a)

pub gather-Absent :
    (r : Tables) (table : ℕ) (cs : ℕ → List ℕ) (i : ℕ) (ws ts : List ℕ)
    → Absent i (members cs ws)
    → Absent i ts
    → Absent i (gather r table cs ws ts)
gather-Absent r table cs i [] ts a b = b
gather-Absent r table cs i (w ∷ ws) ts a b =
    let c = Absent-append i (cs w) (members cs ws) a.1 in
    if_ind (Absent i) (same_library r w table)
      (λ e.
        gather-Absent r table cs i ws (given_up r (cs w) ++ ts) c.1
          (append-Absent i (given_up r (cs w)) ts (given_up-Absent r i (cs w) c.0) b))
      (λ e. gather-Absent r table cs i ws ts c.1 b)

pub Apart-gather :
    (r : Tables) (table : ℕ) (cs : ℕ → List ℕ) (zs ws ts : List ℕ)
    → Apart zs (members cs ws)
    → Apart zs ts
    → Apart zs (gather r table cs ws ts)
Apart-gather r table cs [] ws ts a b = tt
Apart-gather r table cs (z ∷ zs) ws ts a b =
    (gather-Absent r table cs z ws ts a.0 b.0, Apart-gather r table cs zs ws ts a.1 b.1)

pub gather-Distinct :
    (r : Tables) (table : ℕ) (cs : ℕ → List ℕ) (ws ts : List ℕ)
    → Distinct (members cs ws)
    → Distinct ts
    → Apart ts (members cs ws)
    → Distinct (gather r table cs ws ts)
gather-Distinct r table cs [] ts d e a = e
gather-Distinct r table cs (w ∷ ws) ts d e a =
    let q = is_pinned r in
    let m = members cs ws in
    let us = given_up r (cs w) in
    let b = member_facts cs w ws d in
    let z = Apart-append ts (w ∷ cs w) m a in
    let c = Apart-sym ts (w ∷ cs w) z.0 in
    if_ind Distinct (same_library r w table)
      (λ f.
        gather-Distinct r table cs ws (us ++ ts) b.1
          (append-Distinct us ts (rev-Distinct (drop q (cs w)) (drop-Distinct q (cs w) b.0.1)) e
            (rev-Apart (drop q (cs w)) ts (drop-Apart q (cs w) ts c.1)))
          (append-Apart us ts m (rev-Apart (drop q (cs w)) m (drop-Apart q (cs w) m b.2.1)) z.1))
      (λ f. gather-Distinct r table cs ws ts b.1 e z.1)

-- Each of `ws` and what stays with it is apart from `zs`.
abbrev pub StayApart : Tables → ℕ → (ℕ → List ℕ) → List ℕ → List ℕ → Type 0
StayApart r table cs [] zs = Unit {0}
StayApart r table cs (w ∷ ws) zs = Apart (w ∷ staying r table cs w) zs × StayApart r table cs ws zs

Apart-append-right : (xs ys zs : List ℕ) → Apart xs ys → Apart xs zs → Apart xs (ys ++ zs)
Apart-append-right [] ys zs a b = tt
Apart-append-right (x ∷ xs) ys zs a b =
    (append-Absent x ys zs a.0 b.0, Apart-append-right xs ys zs a.1 b.1)

pub gather-StayApart :
    (r : Tables) (table : ℕ) (cs : ℕ → List ℕ) (ws ts : List ℕ)
    → Distinct (members cs ws)
    → Apart ts (members cs ws)
    → StayApart r table cs ws (gather r table cs ws ts)
gather-StayApart r table cs [] ts d a = tt
gather-StayApart r table cs (w ∷ ws) ts d a =
    if_ind2 (same_library r w table)
      (
        Apart-gather r table cs (w ∷ keep q (cs w)) ws (us ++ ts)
            (b.2.0, keep-Apart q (cs w) m b.2.1)
            (Apart-append-right (w ∷ keep q (cs w)) us ts
              (given_up-Absent r w (cs w) b.0.0, keep-Apart-rev q (cs w) b.0.1)
              (c.0, keep-Apart q (cs w) ts c.1)),
        gather-StayApart r table cs ws (us ++ ts) b.1
            (append-Apart us ts m (rev-Apart (drop q (cs w)) m (drop-Apart q (cs w) m b.2.1)) z.1),
      )
      (Apart-gather r table cs (w ∷ cs w) ws ts b.2 c, gather-StayApart r table cs ws ts b.1 z.1)
  where
    q : ℕ → Bool
    q = is_pinned r

    m : List ℕ
    m = members cs ws

    us : List ℕ
    us = given_up r (cs w)

    b : Distinct (w ∷ cs w) × Distinct m × Apart (w ∷ cs w) m
    b = member_facts cs w ws d

    z : Apart ts (w ∷ cs w) × Apart ts m
    z = Apart-append ts (w ∷ cs w) m a

    c : Apart (w ∷ cs w) ts
    c = Apart-sym ts (w ∷ cs w) z.0

    if_ind2 :
        (x : Bool)
        → (Apart (w ∷ keep q (cs w)) (gather r table cs ws (us ++ ts))
            × StayApart r table cs ws (gather r table cs ws (us ++ ts)))
        → (Apart (w ∷ cs w) (gather r table cs ws ts)
            × StayApart r table cs ws (gather r table cs ws ts))
        → (Apart
              (w ∷ (if x then keep q (cs w) else cs w))
              (if x then gather r table cs ws (us ++ ts) else gather r table cs ws ts)
            × StayApart r table cs ws
                (if x then gather r table cs ws (us ++ ts) else gather r table cs ws ts))
    if_ind2 true h k = h
    if_ind2 false h k = k

pub Stay-same :
    (r : Tables) (table : ℕ) (cs : ℕ → List ℕ) (f g : ℕ → ℕ) (ws zs : List ℕ)
    → ((j : ℕ) → Absent j zs → g j ≡ f j)
    → StayApart r table cs ws zs
    → Stay r table cs f ws
    → Stay r table cs g ws
Stay-same r table cs f g [] zs e a s = tt
Stay-same r table cs f g (w ∷ ws) zs e a s = (
  subst (λ p. Chain g p (staying r table cs w)) (sym (e w a.0.0))
      (Chain-same f g (f w) (staying r table cs w) zs e a.0.1 s.0),
  Stay-same r table cs f g ws zs e a.1 s.1,
)
