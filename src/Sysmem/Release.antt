-- ===== src/Sysmem/Release.antt =====
-- Ordinal 5 of src/iop/sysmem.cpp: a release takes one record out of the table.
use ps2bios_rebuild.Common.{
  ℕ, zero, suc, ◌+◌, ◌-◌, ◌%◌, ◌≤◌, ◌<◌, ◌≡◌, ◌≢◌, ◌⊎◌, inl, inr, refl, arith, ltb, ◌==◌,
  if◌then◌else◌, Bool-cases, lt_cases, subst, ap, ◌∙◌,
}
use ps2bios_rebuild.Sysmem.{
  Block, Sysmem, shift_down, deallocate_from, deallocate, minus_one, round_up, allocate,
}
use ps2bios_rebuild.Sysmem.Invariant.{IsTable, IsValid, shift_down_lem}
use ps2bios_rebuild.Sysmem.Placement.{inserted, inserted_lem, inserted-IsValid}
use ps2bios_rebuild.Sysmem.Scan.{IsFree, round_up_lem}
use ps2bios_rebuild.Sysmem.Allocate.{Placed, allocate-Placed, allocate_zero}

-- The state with record `i` taken out.
abbrev pub removed : Sysmem → ℕ → Sysmem
removed s i = record s {
  blocks = shift_down (s.block_count - 1 - i) i s.blocks;
  block_count = s.block_count - 1;
}

removed_lem :
    (s : Sysmem) (i j : ℕ)
    → i < s.block_count
    → j < s.block_count - 1
    → (removed s i).blocks j ≡ (if ltb j i then s.blocks j else s.blocks (suc j))
removed_lem s i j h k = ground (arith, shift_down_lem (s.block_count - 1 - i) i s.blocks j)

removed-IsValid : {s : Sysmem} (i : ℕ) → IsValid s → i < s.block_count → IsValid (removed s i)
removed-IsValid {s} i v h = record {
  ordered = v.ordered;
  high = v.high;
  low_aligned = v.low_aligned;
  high_aligned = v.high_aligned;
  full = omega (arith, v.full);
  table = record {
    above = λ j k. ground (arith, at j, t.above j, t.above (suc j));
    below = λ j k. ground (arith, at j, t.below j, t.below (suc j));
    sized = λ j k. ground (arith, at j, t.sized j, t.sized (suc j));
    aligned = λ j k. ground (arith, at j, t.aligned j, t.aligned (suc j));
    sorted = λ j k p q.
        ground (arith, at j, at k, t.sorted j k, t.sorted j (suc k), t.sorted (suc j) (suc k));
  };
}
  where
    t : IsTable s.heap_low s.heap_high s.block_count s.blocks
    t = v.table

    at :
        (j : ℕ)
        → j < s.block_count - 1
        → (removed s i).blocks j ≡ (if ltb j i then s.blocks j else s.blocks (suc j))
    at j = removed_lem s i j h

-- The range of a block that was taken out is free.
removed-IsFree :
    {s : Sysmem} (i : ℕ)
    → IsValid s
    → i < s.block_count
    → IsFree (removed s i) (s.blocks i).start (s.blocks i).size
removed-IsFree {s} i v h = record {
  from_low = v.table.above i h;
  to_high = v.table.below i h;
  apart = λ j k. ground (arith, removed_lem s i j h, v.table.sorted j i, v.table.sorted i (suc j));
}

-- What the search from record `i` on finds: no record with that start, or one, which it takes out.
abbrev Searched : Sysmem → ℕ → ℕ → ℕ × Sysmem → Type 0
Searched s a i r =
    (((j : ℕ) → i ≤ j → j < s.block_count → (s.blocks j).start ≢ a) × (r ≡ (minus_one, s)))
    ⊎ ((k : ℕ) × (i ≤ k) × (k < s.block_count) × ((s.blocks k).start ≡ a) × (r ≡ (0, removed s k)))

Searched-suc :
    (s : Sysmem) (a i : ℕ) (r : ℕ × Sysmem)
    → (s.blocks i).start ≢ a
    → Searched s a (suc i) r
    → Searched s a i r
Searched-suc s a i r h (inl (g, e)) = inl (
  λ j p q. elim (lt_cases i j) [
    | inl m ↦ g j m q
    | inr m ↦ let eq : i ≡ j = omega arith in subst (λ x. (s.blocks x).start ≢ a) eq h
  ],
  e,
)
Searched-suc s a i r h (inr (k, p, q, m, e)) = inr (k, omega arith, q, m, e)

deallocate_from-Searched :
    (s : Sysmem) (a n i : ℕ) → n + i ≡ s.block_count → Searched s a i (deallocate_from s a n i)
unfolding deallocate_from
deallocate_from-Searched s a zero i e = inl (λ j p q. absurd (omega arith), refl)
deallocate_from-Searched s a (suc n) i e = elim (Bool-cases ((s.blocks i).start == a)) [
  | inl h ↦
      let m : n ≡ s.block_count - 1 - i = omega arith in
      rw (h, m) (inr (i, omega arith, omega arith, ground arith, refl))
  | inr h ↦
      rw h
        (Searched-suc s a i _ (ground arith) (deallocate_from-Searched s a n (suc i) (omega arith)))
]

start-injective :
    {s : Sysmem} (i k : ℕ)
    → IsValid s
    → i < s.block_count
    → k < s.block_count
    → (s.blocks i).start ≡ (s.blocks k).start
    → i ≡ k
start-injective {s} i k v h g e =
    grind (arith, v.table.sorted i k, v.table.sorted k i, v.table.sized i, v.table.sized k)

deallocate-removed :
    {s : Sysmem} (i : ℕ)
    → IsValid s
    → i < s.block_count
    → deallocate s (s.blocks i).start ≡ (0, removed s i)
unfolding deallocate
deallocate-removed {s} i v h =
    rw ((v.table.aligned i h).0)
      elim (deallocate_from-Searched s (s.blocks i).start s.block_count 0 (omega arith)) [
        | inl (g, e) ↦ absurd (g i (omega arith) h refl)
        | inr (k, _, q, m, e) ↦ e ∙ ap (λ x. (0, removed s x)) (start-injective k i v q h m)
      ]

-- The release of a block by its own start answers 0, keeps the table valid, makes the block's
-- range free, and keeps every other record.
pub deallocate-exact :
    {s : Sysmem} (i : ℕ)
    → IsValid s
    → i < s.block_count
    → let (r, t) = deallocate s (s.blocks i).start in
      (r ≡ 0)
      × IsValid t
      × IsFree t (s.blocks i).start (s.blocks i).size
      × (t.block_count + 1 ≡ s.block_count)
      × ((j : ℕ)
          → j < s.block_count
          → j ≢ i
          → (k : ℕ) × (k < t.block_count) × (t.blocks k ≡ s.blocks j))
deallocate-exact {s} i v h = rw (deallocate-removed i v h) (
  refl,
  removed-IsValid i v h,
  removed-IsFree i v h,
  omega arith,
  λ j p ne. elim (lt_cases j i) [
    | inl m ↦ (j, omega arith, ground (arith, removed_lem s i j h))
    | inr m ↦ (j - 1, omega arith, ground (arith, removed_lem s i (j - 1) h))
  ],
)

-- At any address where no block starts, inside a block included, it answers -1 and changes
-- nothing.
pub deallocate-refused :
    (s : Sysmem) (a : ℕ)
    → ((i : ℕ) → i < s.block_count → (s.blocks i).start ≢ a)
    → deallocate s a ≡ (minus_one, s)
unfolding deallocate
deallocate-refused s a g = elim (Bool-cases (a % 256 == 0)) [
  | inr e ↦ rw e
  | inl e ↦ rw e elim (deallocate_from-Searched s a s.block_count 0 (omega arith)) [
    | inl (_, r) ↦ r
    | inr (k, _, q, m, _) ↦ absurd (g k q m)
  ]
]

-- A block that was just granted can be released, which brings the table back entry by entry.
pub deallocate-allocate :
    {s : Sysmem} (mode size address : ℕ)
    → IsValid s
    → size ≤ 0xFFFFFF00
    → (allocate s mode size address).0 ≢ 0
    → let (a, t) = allocate s mode size address in
      let (r, u) = deallocate t a in
      (r ≡ 0)
      × (u.block_count ≡ s.block_count)
      × ((j : ℕ) → j < s.block_count → u.blocks j ≡ s.blocks j)
deallocate-allocate {s} mode size address v h g = elim (lt_cases 0 size) [
  | inl z ↦ released (allocate s mode size address) z (allocate-Placed mode size address v h) g
  | inr z ↦ absurd (g (ground (arith, allocate_zero s mode size address)))
]
  where
    released :
        (x : ℕ × Sysmem)
        → 0 < size
        → Placed s (round_up size) x
        → x.0 ≢ 0
        → let (r, u) = deallocate x.1 x.0 in
          (r ≡ 0)
          × (u.block_count ≡ s.block_count)
          × ((j : ℕ) → j < s.block_count → u.blocks j ≡ s.blocks j)
    released x z (inl e) nz = absurd (nz (ap (λ y. y.0) e))
    released x z (inr (i, a, f, al, c, e)) nz =
        let b : Block = record { start = a; size = round_up size } in
        let t = inserted s i b in
        let r = round_up_lem size h in
        let w : IsValid t = inserted-IsValid i b v f c (omega (arith, r)) al (omega (arith, r)) in
        let k : i < t.block_count = omega (arith, f.in_table) in
        let at : (t.blocks i).start ≡ a = ground arith in
        let d : deallocate t a ≡ (0, removed t i) =
          subst (λ y. deallocate t y ≡ (0, removed t i)) at (deallocate-removed i w k) in
        rw (e, d)
          (
            refl,
            omega arith,
            λ j m. ground (
              arith,
              removed_lem t i j k,
              inserted_lem s i b j f.in_table,
              inserted_lem s i b (suc j) f.in_table,
            ),
          )
