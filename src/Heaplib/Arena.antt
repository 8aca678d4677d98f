-- ===== src/Heaplib/Arena.antt =====
-- The free list of an arena of src/iop/heaplib.cpp as a list of blocks.
use ps2bios_rebuild.Common.{
  ℕ, ◌+◌, ◌*◌, ◌%◌, ◌≤◌, ◌≡◌, ◌≢◌, ◌⊎◌, ◌∙◌, inl, inr, sym, refl, subst, arith, List, [], ◌∷◌, ◌++◌,
  All, map-All,
}
use ps2bios_rebuild.Threadman.Lists.{last}
use ps2bios_rebuild.Threadman.Rings.{IsRing, Hops, Hops-append, append-Hops, last-append}
use ps2bios_rebuild.Heaplib.{Words, rover_at, size_at}
use ps2bios_rebuild.Heaplib.Pairs.{Pairs, Any, Pairs-rotate, Pairs-Distinct, Pairs-map, Any-map}

-- The bytes of a block, which are its header's at least.
abbrev pub Before : Words → ℕ → ℕ → Type 0
Before m x y = (x + 8 ≤ y) × (x + 8 * m (size_at x) ≤ y)

abbrev pub Disjoint : Words → ℕ → ℕ → Type 0
Disjoint m x y = Before m x y ⊎ Before m y x

-- A block of the arena `a`, behind its header and before its end.
abbrev pub IsBlock : Words → ℕ → ℕ → Type 0
IsBlock m a p =
    (a + 16 ≤ p) × (p % 8 ≡ 0) × (p + 8 ≤ a + m (a + 4)) × (p + 8 * m (size_at p) ≤ a + m (a + 4))

-- The free list is a circle of the blocks `bs`, the one behind the rover first and the rover's last,
-- one of them the sentinel, of size 0; and no two of them overlap.
pub record IsArena (m : Words) (a : ℕ) (bs : List ℕ) : Type 0 where
  pub ring : IsRing m (m (rover_at a)) bs
  pub blocks : All (IsBlock m a) bs
  pub disjoint : Pairs (Disjoint m) bs
  pub sentinel : Any (λ p. m (size_at p) ≡ 0) bs

pub Disjoint-sym : (m : Words) (x y : ℕ) → Disjoint m x y → Disjoint m y x
Disjoint-sym m x y (inl d) = inr d
Disjoint-sym m x y (inr d) = inl d

pub Disjoint-ne : (m : Words) (x y : ℕ) → Disjoint m x y → x ≢ y
Disjoint-ne m x y (inl d) = λ e. absurd (omega (arith, d.0, e))
Disjoint-ne m x y (inr d) = λ e. absurd (omega (arith, d.0, e))

-- The circle from another of its blocks on.
pub rotate-IsRing :
    {m : Words} {rover : ℕ} (xs : List ℕ) (p : ℕ) (zs : List ℕ)
    → Pairs (Disjoint m) (xs ++ p ∷ zs)
    → IsRing m rover (xs ++ p ∷ zs)
    → IsRing m (last rover xs) (p ∷ zs ++ xs)
rotate-IsRing {m} {rover} xs p zs d v =
    let h = Hops-append m rover xs (p ∷ zs) v.hops in
    let e : last p zs ≡ rover = sym (last-append rover xs (p ∷ zs)) ∙ v.closed in
    record {
      hops = append-Hops m (last rover xs) (p ∷ zs) xs h.1 (subst (λ r. Hops m r xs) (sym e) h.0);
      closed =
          last-append p zs xs
          ∙ (let f : (r : ℕ) → r ≡ rover → last r xs ≡ last rover xs =
                λ r g. subst (λ r. last r xs ≡ last rover xs) (sym g) refl in
              f (last p zs) e);
      distinct =
          Pairs-Distinct (Disjoint m) (Disjoint-ne m) (p ∷ zs ++ xs)
            (Pairs-rotate (Disjoint m) (Disjoint-sym m) xs (p ∷ zs) d);
    }

-- What is written elsewhere leaves the circle.
Hops-same :
    (m u : Words) (p : ℕ) (xs : List ℕ)
    → u p ≡ m p
    → All (λ x. u x ≡ m x) xs
    → Hops m p xs
    → Hops u p xs
Hops-same m u p [] e a h = tt
Hops-same m u p (x ∷ xs) e a h = (e ∙ h.0, Hops-same m u x xs a.0 a.1 h.1)

pub All-last : (P : ℕ → Type 0) (x : ℕ) (xs : List ℕ) → P x → All P xs → P (last x xs)
All-last P x [] p a = p
All-last P x (y ∷ xs) p a = All-last P y xs a.0 a.1

pub same-IsRing :
    {m u : Words} {t : ℕ} (xs : List ℕ) → All (λ x. u x ≡ m x) xs → IsRing m t xs → IsRing u t xs
same-IsRing [] a v = record { hops = tt; closed = v.closed; distinct = tt }
same-IsRing {m} {u} {t} (x ∷ xs) a v = record {
  hops =
      Hops-same m u t (x ∷ xs)
        (subst (λ r. u r ≡ m r) v.closed (All-last (λ x. u x ≡ m x) x xs a.0 a.1)) a v.hops;
  closed = v.closed;
  distinct = v.distinct;
}

-- Blocks that have not grown, in an arena that is as long as it was.
abbrev pub Shrunk : Words → Words → ℕ → Type 0
Shrunk m u x = u (size_at x) ≤ m (size_at x)

pub Shrunk-blocks :
    (m u : Words) (a : ℕ) (bs : List ℕ)
    → u (a + 4) ≡ m (a + 4)
    → All (Shrunk m u) bs
    → All (IsBlock m a) bs
    → All (IsBlock u a) bs
Shrunk-blocks m u a [] e s b = tt
Shrunk-blocks m u a (x ∷ bs) e s b = (
  (b.0.0, b.0.1, omega (arith, e, b.0.2), omega (arith, e, s.0, b.0.3)),
  Shrunk-blocks m u a bs e s.1 b.1,
)

pub Shrunk-Disjoint :
    (m u : Words) (bs : List ℕ)
    → All (Shrunk m u) bs
    → Pairs (Disjoint m) bs
    → Pairs (Disjoint u) bs
Shrunk-Disjoint m u = Pairs-map (Disjoint m) (Disjoint u) (Shrunk m u) (λ x y a b d. elim d [
  | inl h ↦ inl (h.0, omega (arith, a, h.1))
  | inr h ↦ inr (h.0, omega (arith, b, h.1))
])

pub Shrunk-sentinel :
    (m u : Words) (bs : List ℕ)
    → All (Shrunk m u) bs
    → Any (λ p. m (size_at p) ≡ 0) bs
    → Any (λ p. u (size_at p) ≡ 0) bs
Shrunk-sentinel m u bs s =
    Any-map (λ p. m (size_at p) ≡ 0) (λ p. u (size_at p) ≡ 0) bs
      (map-All (Shrunk m u) (λ p. m (size_at p) ≡ 0 → u (size_at p) ≡ 0) bs
        (λ x l e. omega (arith, l, e)) s)
