-- ===== src/Heaplib/Pairs.antt =====
-- Lists whose members are pairwise in a relation, or of which one satisfies a predicate.
use ps2bios_rebuild.Common.{ℕ, ◌≢◌, ◌⊎◌, inl, inr, List, [], ◌∷◌, ◌++◌, All, append-All, map-All}
use ps2bios_rebuild.Threadman.Lists.{Absent, Distinct}

abbrev pub Pairs : (ℕ → ℕ → Type 0) → List ℕ → Type 0
Pairs R [] = Unit {0}
Pairs R (x ∷ xs) = All (R x) xs × Pairs R xs

abbrev pub Any : (ℕ → Type 0) → List ℕ → Type 0
Any P [] = ⊥
Any P (x ∷ xs) = P x ⊎ Any P xs

All-front : (P : ℕ → Type 0) (xs ys : List ℕ) → All P (xs ++ ys) → All P xs × All P ys
All-front P [] ys a = (tt, a)
All-front P (x ∷ xs) ys a = let b = All-front P xs ys a.1 in ((a.0, b.0), b.1)

pub All-rotate : (P : ℕ → Type 0) (xs ys : List ℕ) → All P (xs ++ ys) → All P (ys ++ xs)
All-rotate P xs ys a = let b = All-front P xs ys a in append-All P ys xs b.1 b.0

module _ (R : ℕ → ℕ → Type 0) where
  Pairs-front :
      (xs ys : List ℕ) → Pairs R (xs ++ ys) → Pairs R xs × Pairs R ys × All (λ x. All (R x) ys) xs
  Pairs-front [] ys p = (tt, p, tt)
  Pairs-front (x ∷ xs) ys p =
      let a = All-front (R x) xs ys p.0 in
      let q = Pairs-front xs ys p.1 in ((a.0, q.0), q.1, (a.1, q.2))

  append-Pairs :
      (xs ys : List ℕ) → Pairs R xs → Pairs R ys → All (λ x. All (R x) ys) xs → Pairs R (xs ++ ys)
  append-Pairs [] ys p q a = q
  append-Pairs (x ∷ xs) ys p q a = (append-All (R x) xs ys p.0 a.0, append-Pairs xs ys p.1 q a.1)

  All-snoc :
      (ys : List ℕ) (x : ℕ) (xs : List ℕ)
      → All (λ y. R y x) ys
      → All (λ y. All (R y) xs) ys
      → All (λ y. All (R y) (x ∷ xs)) ys
  All-snoc [] x xs a b = tt
  All-snoc (y ∷ ys) x xs a b = ((a.0, b.0), All-snoc ys x xs a.1 b.1)

  All-nil : (ys : List ℕ) → All (λ y. All (R y) []) ys
  All-nil [] = tt
  All-nil (y ∷ ys) = (tt, All-nil ys)

  All-swap :
      ((x y : ℕ) → R x y → R y x)
      → (xs ys : List ℕ) → All (λ x. All (R x) ys) xs
      → All (λ y. All (R y) xs) ys
  All-swap s [] ys a = All-nil ys
  All-swap s (x ∷ xs) ys a =
      All-snoc ys x xs (map-All (R x) (λ y. R y x) ys (s x) a.0) (All-swap s xs ys a.1)

  pub Pairs-rotate :
      ((x y : ℕ) → R x y → R y x) → (xs ys : List ℕ) → Pairs R (xs ++ ys) → Pairs R (ys ++ xs)
  Pairs-rotate s xs ys p =
      let q = Pairs-front xs ys p in append-Pairs ys xs q.1 q.0 (All-swap s xs ys q.2)

  pub Pairs-Distinct : ((x y : ℕ) → R x y → x ≢ y) → (xs : List ℕ) → Pairs R xs → Distinct xs
  Pairs-Distinct f [] p = tt
  Pairs-Distinct f (x ∷ xs) p = (each xs p.0, Pairs-Distinct f xs p.1)
    where
      each : (ys : List ℕ) → All (R x) ys → Absent x ys
      each [] a = tt
      each (y ∷ ys) a = (f x y a.0, each ys a.1)

-- Another relation that follows where both members satisfy a predicate.
pub Pairs-map :
    (R S : ℕ → ℕ → Type 0) (P : ℕ → Type 0)
    → ((x y : ℕ) → P x → P y → R x y → S x y)
    → (xs : List ℕ) → All P xs
    → Pairs R xs
    → Pairs S xs
Pairs-map R S P f [] a p = tt
Pairs-map R S P f (x ∷ xs) a p = (each xs a.1 p.0, Pairs-map R S P f xs a.1 p.1)
  where
    each : (ys : List ℕ) → All P ys → All (R x) ys → All (S x) ys
    each [] b q = tt
    each (y ∷ ys) b q = (f x y a.0 b.0 q.0, each ys b.1 q.1)

pub Any-left : (P : ℕ → Type 0) (xs ys : List ℕ) → Any P xs → Any P (xs ++ ys)
Any-left P [] ys a = absurd a
Any-left P (x ∷ xs) ys (inl a) = inl a
Any-left P (x ∷ xs) ys (inr a) = inr (Any-left P xs ys a)

pub Any-right : (P : ℕ → Type 0) (xs ys : List ℕ) → Any P ys → Any P (xs ++ ys)
Any-right P [] ys a = a
Any-right P (x ∷ xs) ys a = inr (Any-right P xs ys a)

pub Any-rotate : (P : ℕ → Type 0) (xs ys : List ℕ) → Any P (xs ++ ys) → Any P (ys ++ xs)
Any-rotate P [] ys a = Any-left P ys [] a
Any-rotate P (x ∷ xs) ys (inl a) = Any-right P ys (x ∷ xs) (inl a)
Any-rotate P (x ∷ xs) ys (inr a) = widen ys (Any-rotate P xs ys a)
  where
    widen : (ys : List ℕ) → Any P (ys ++ xs) → Any P (ys ++ x ∷ xs)
    widen [] a = inr a
    widen (y ∷ ys) (inl a) = inl a
    widen (y ∷ ys) (inr a) = inr (widen ys a)

pub Any-map : (P Q : ℕ → Type 0) (xs : List ℕ) → All (λ x. P x → Q x) xs → Any P xs → Any Q xs
Any-map P Q [] f a = a
Any-map P Q (x ∷ xs) f (inl a) = inl (f.0 a)
Any-map P Q (x ∷ xs) f (inr a) = inr (Any-map P Q xs f.1 a)
