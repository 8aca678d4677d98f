-- ===== src/Heaplib/Accounts.antt =====
-- What an allocation of src/iop/heaplib.cpp does to the free list.
use ps2bios_rebuild.Common.{
  lt_cases, ◌+◌, ◌*◌, ◌^◌, ltb, ℕ, zero, suc, ◌≤◌, ◌<◌, ◌≡◌, ◌≢◌, ◌==◌, ◌⊎◌, ◌∙◌, inl, inr, refl,
  sym, ap, subst, arith, true, false, leb, some, Bool-cases, List, [], ◌∷◌, ◌++◌, All, length,
}
use ps2bios_rebuild.Threadman.Lists.{last, Distinct, last-ne}
use ps2bios_rebuild.Threadman.Rings.{Hops}
use ps2bios_rebuild.Heaplib.{
  Words, rover_at, size_at, is_valid_arena, request_units, take_block, alloc_from, heap_alloc,
}
use ps2bios_rebuild.Heaplib.Pairs.{All-rotate, Pairs-rotate, Any-rotate}
use ps2bios_rebuild.Heaplib.Arena.{IsArena, IsBlock, Disjoint, Disjoint-sym, rotate-IsRing}
use ps2bios_rebuild.Heaplib.Grants.{Taken, take_block-Taken}

-- A block that is too small for a request.
abbrev pub IsSmall : Words → ℕ → ℕ → Type 0
IsSmall m units x = m (size_at x) < units

-- The first block that is large enough is `p`, behind `xs` and before `zs`.
pub record FirstFit (m : Words) (units : ℕ) (ys xs : List ℕ) (p : ℕ) (zs : List ℕ) : Type 0 where
  pub parts : ys ≡ xs ++ p ∷ zs
  pub small : All (IsSmall m units) xs
  pub fits : units ≤ m (size_at p)

abbrev Searched : Words → ℕ → ℕ → ℕ → List ℕ → ℕ × Words → Type 0
Searched m a units prev ys r =
    ((r ≡ (0, m)) × All (IsSmall m units) ys)
    ⊎ ((xs : List ℕ) × (p : ℕ) × (zs : List ℕ) × FirstFit m units ys xs p zs
        × (r ≡ take_block m a units (last prev xs) p))

Searched-on :
    (m : Words) (a units prev y : ℕ) (ys : List ℕ) (r : ℕ × Words)
    → m (size_at y) < units
    → Searched m a units y ys r
    → Searched m a units prev (y ∷ ys) r
Searched-on m a units prev y ys r h (inl (e, s)) = inl (e, (h, s))
Searched-on m a units prev y ys r h (inr (xs, p, zs, f, e)) = inr (
  y ∷ xs,
  p,
  zs,
  record { parts = ap (λ l. y ∷ l) f.parts; small = (h, f.small); fits = f.fits },
  e,
)

taken_here :
    (m : Words) (a units prev y : ℕ) (ys : List ℕ)
    → units ≤ m (size_at y)
    → (xs : List ℕ) × (p : ℕ) × (zs : List ℕ) × FirstFit m units (y ∷ ys) xs p zs
      × (take_block m a units prev y ≡ take_block m a units (last prev xs) p)
taken_here m a units prev y ys h = ([], y, ys, record { parts = refl; small = tt; fits = h }, refl)

-- The circuit from `prev` through `ys`, the last of which is the rover.
alloc_from-Searched :
    (fuel : ℕ) (m : Words) (a units prev y : ℕ) (ys : List ℕ)
    → Hops m prev (y ∷ ys)
    → last y ys ≡ m (rover_at a)
    → Distinct (y ∷ ys)
    → length ys < fuel
    → (r : ℕ × Words) × (alloc_from fuel m a units prev ≡ some r)
      × Searched m a units prev (y ∷ ys) r
unfolding alloc_from
alloc_from-Searched zero m a units prev y ys h c d l = absurd (omega arith)
alloc_from-Searched (suc fuel) m a units prev y [] h c d l =
    elim (Bool-cases (leb units (m (size_at y)))) [
      | inl g ↦ (
        take_block m a units prev y,
        rw (alloc_from, h.0, g) refl,
        inr (taken_here m a units prev y [] (ground arith)),
      )
      | inr g ↦
          let e : (y == m (rover_at a)) ≡ true = ground arith in
          ((0, m), rw (alloc_from, h.0, g, e) refl, inl (refl, (ground arith, tt)))
    ]
alloc_from-Searched (suc fuel) m a units prev y (z ∷ zs) h c d l =
    elim (Bool-cases (leb units (m (size_at y)))) [
      | inl g ↦ (
        take_block m a units prev y,
        rw (alloc_from, h.0, g) refl,
        inr (taken_here m a units prev y (z ∷ zs) (ground arith)),
      )
      | inr g ↦
          let ne : y ≢ m (rover_at a) = λ e. last-ne y z zs d.0.0 d.0.1 (e ∙ sym c) in
          let e : (y == m (rover_at a)) ≡ false = ground arith in
          let (r, q, s) = alloc_from-Searched fuel m a units y z zs h.1 c d.1 (omega arith) in
          (
            r,
            rw (alloc_from, h.0, g, e) q,
            Searched-on m a units prev y (z ∷ zs) r (ground arith) s,
          )
    ]

-- A grant: the first block that is large enough gives it, and is the first of the free list that is
-- left, if it is left at all.
abbrev pub Granted : Words → ℕ → ℕ → List ℕ → ℕ × Words → Type 0
Granted m a units bs (r, u) =
    (xs : List ℕ) × (p : ℕ) × (zs : List ℕ) × FirstFit m units bs xs p zs
    × IsBlock m a p
    × Taken m a units p (zs ++ xs) r u

take_first :
    {m : Words} {a units : ℕ} (xs : List ℕ) (p : ℕ) (zs : List ℕ)
    → IsArena m a (xs ++ p ∷ zs)
    → 1 ≤ units
    → units ≤ m (size_at p)
    → let (r, u) = take_block m a units (last (m (rover_at a)) xs) p in
      IsBlock m a p × Taken m a units p (zs ++ xs) r u
take_first {m} {a} {units} xs p zs v one l =
    let blocks = All-rotate (IsBlock m a) xs (p ∷ zs) v.blocks in
    (
      blocks.0,
      take_block-Taken m a units (last (m (rover_at a)) xs) p (zs ++ xs)
          (rotate-IsRing xs p zs v.disjoint v.ring) blocks
          (Pairs-rotate (Disjoint m) (Disjoint-sym m) xs (p ∷ zs) v.disjoint)
          (Any-rotate (λ x. m (size_at x) ≡ 0) xs (p ∷ zs) v.sentinel) one l,
    )

found :
    {m : Words} {a units : ℕ} (bs : List ℕ) (r : ℕ × Words)
    → IsArena m a bs
    → 1 ≤ units
    → Searched m a units (m (rover_at a)) bs r
    → ((r ≡ (0, m)) × All (IsSmall m units) bs) ⊎ Granted m a units bs r
found bs r v one (inl s) = inl s
found {m} {a} {units} bs r v one (inr (xs, p, zs, f, e)) =
    let t = take_first xs p zs (subst (IsArena m a) f.parts v) one f.fits in
    inr (xs, p, zs, f, t.0, subst (λ s. Taken m a units p (zs ++ xs) s.0 s.1) (sym e) t.1)

request_units_positive : (requested : ℕ) → 1 ≤ request_units requested
unfolding request_units
request_units_positive requested = omega arith

-- The units of a request: a header, and the bytes that were asked for, which are at least 8, rounded
-- up to a multiple of 8, unless that wraps around in 32 bits.
abbrev pub Rounds : ℕ → ℕ → Type 0
Rounds requested units =
    (2 ^ 32 ≤ requested + 7)
    ⊎ ((requested + 8 ≤ 8 * units) × (2 ≤ units) × ((8 * units < requested + 16) ⊎ (units ≡ 2)))

request_units-Rounds : (requested : ℕ) → Rounds requested (request_units requested)
unfolding request_units
request_units-Rounds requested = elim (lt_cases (requested + 7) (2 ^ 32)) [
  | inl h ↦ inr (elim (Bool-cases (ltb requested 8)) [
    | inl e ↦ (ground arith, ground arith, inr (ground arith))
    | inr e ↦ (ground arith, ground arith, inl (ground arith))
  ])
  | inr h ↦ inl h
]

-- An allocation in a valid arena returns, with as much fuel as there are blocks in the free list. If
-- no block is large enough it answers 0 and changes nothing. Else the first one behind the rover that
-- is large enough gives its end: what is granted has the units of the request, which is rounded up
-- to a header and a multiple of 8 bytes unless that wraps around, has the arena's tag and is
-- counted, the block leaves the free list if it fits exactly and shrinks by those units if not, the
-- other blocks stay as they are, and no block that is left has a part of what is granted.
pub heap_alloc-Granted :
    (fuel : ℕ) (m : Words) (a requested : ℕ) (bs : List ℕ)
    → is_valid_arena m a ≡ true
    → IsArena m a bs
    → length bs ≤ fuel
    → (units : ℕ) × Rounds requested units
      × (r : ℕ × Words) × (heap_alloc fuel m a requested ≡ some r)
      × (((r ≡ (0, m)) × All (IsSmall m units) bs) ⊎ Granted m a units bs r)
unfolding heap_alloc
heap_alloc-Granted fuel m a requested [] h v l = absurd v.sentinel
heap_alloc-Granted fuel m a requested (b ∷ bs) h v l =
    let units = request_units requested in
    let (r, q, s) =
      alloc_from-Searched fuel m a units (m (rover_at a)) b bs v.ring.hops v.ring.closed
        v.ring.distinct (omega arith) in
    (
      units,
      request_units-Rounds requested,
      r,
      rw (heap_alloc, h) q,
      found (b ∷ bs) r v (request_units_positive requested) s,
    )

-- A request of nearly 2 ^ 32 bytes is rounded to the single unit of a header.
pub request_units_wrap :
    (requested : ℕ) → 0xFFFFFFF9 ≤ requested → requested < 0x100000000 → request_units requested ≡ 1
unfolding request_units
request_units_wrap requested h k = ground arith
