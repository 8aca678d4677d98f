-- ===== src/Sysmem/Query.antt =====
-- Ordinals 9 and 10 of src/iop/sysmem.cpp: the range that contains an address.
use ps2bios_rebuild.Common.{
  ℕ, zero, suc, ◌+◌, ◌-◌, ◌≤◌, ◌<◌, ◌≡◌, ◌⊎◌, inl, inr, refl, arith, Bool-cases, lt_cases, subst,
  true, false, ap, some, none,
}
use ps2bios_rebuild.Sysmem.{
  Block, Sysmem, contains, block_containing_from, block_containing, lower_bound, gap_containing,
  block_address, block_size, minus_one, free_mark,
}
use ps2bios_rebuild.Sysmem.Invariant.{
  IsTable, IsValid, block_end, gap_start, gap_end, gap_bounds, gap_before_lem,
}
use ps2bios_rebuild.Sysmem.Scan.{IsFree, lower_bound-le, lower_bound-Fits, Fits-IsFree}

-- No two records hold one address.
contains-one :
    {low high count : ℕ} {blocks : ℕ → Block} (i j x : ℕ)
    → IsTable low high count blocks
    → i < j
    → j < count
    → contains (blocks j) x ≡ true
    → block_end (blocks i) ≤ x
contains-one i j x t h k c = ground (arith, t.sorted i j)

pub block_containing_from_lem :
    {low high count : ℕ} {blocks : ℕ → Block} (x n i : ℕ)
    → IsTable low high count blocks
    → n + i ≤ count
    → ((j : ℕ)
        → i ≤ j
        → j < n + i
        → contains (blocks j) x ≡ true
        → block_containing_from blocks x n i ≡ some (blocks j))
      × (((j : ℕ) → i ≤ j → j < n + i → contains (blocks j) x ≡ false)
          → block_containing_from blocks x n i ≡ none)
unfolding block_containing_from
block_containing_from_lem x zero i t h = (λ j p q c. absurd (omega arith), λ g. refl)
block_containing_from_lem {blocks} x (suc n) i t h = elim (Bool-cases (contains (blocks i) x)) [
  | inl e ↦ rw e (
    λ j p q c. elim (lt_cases i j) [
      | inl m ↦ absurd (ground (arith, contains-one i j x t m))
      | inr m ↦ ap (λ k. some (blocks k)) (omega arith)
    ],
    λ g. cc (g i (omega arith) (omega arith)),
  )
  | inr e ↦
      let ih = block_containing_from_lem x n (suc i) t (omega arith) in
      rw e (
        λ j p q c. elim (lt_cases i j) [
          | inl m ↦ ground (arith, contains-one i j x t m, ih.0 j)
          | inr m ↦ absurd (ne i j x e c (omega arith))
        ],
        λ g. ground (arith, ih.1 (λ j p q. g j (omega arith) (omega arith))),
      )
]
  where
    ne : (i j x : ℕ) → contains (blocks i) x ≡ false → contains (blocks j) x ≡ true → i ≡ j → ⊥
    ne i j x e c p = cc (subst (λ k. contains (blocks k) x ≡ false) p e)

block_containing-used :
    {s : Sysmem} (i x : ℕ)
    → IsValid s
    → i < s.block_count
    → contains (s.blocks i) x ≡ true
    → block_containing s x ≡ some (s.blocks i)
unfolding block_containing
block_containing-used {s} i x v h c =
    (block_containing_from_lem x s.block_count 0 v.table (omega arith)).0 i (omega arith)
      (omega arith) c

block_containing-free :
    {s : Sysmem} (x : ℕ)
    → IsValid s
    → ((i : ℕ) → i < s.block_count → contains (s.blocks i) x ≡ false)
    → block_containing s x ≡ none
unfolding block_containing
block_containing-free {s} x v g =
    (block_containing_from_lem x s.block_count 0 v.table (omega arith)).1 λ j p q. g j (omega arith)

-- Inside a block that is in use the two ordinals answer its start and its size.
pub block_query-used :
    {s : Sysmem} (i x : ℕ)
    → IsValid s
    → i < s.block_count
    → (s.blocks i).start ≤ x
    → x < block_end (s.blocks i)
    → (block_address s x ≡ (s.blocks i).start) × (block_size s x ≡ (s.blocks i).size)
unfolding block_address block_size
block_query-used {s} i x v h p q =
    let e = block_containing-used i x v h (ground arith) in
    rw (e, block_address, block_size) (refl, refl)

free-not-contained : {s : Sysmem} (x : ℕ) → IsValid s → IsFree s x 1 → block_containing s x ≡ none
free-not-contained {s} x v f =
    block_containing-free x v λ i h. ground (arith, f.apart i h, v.table.sized i h)

gap_containing-free :
    {s : Sysmem} (x : ℕ)
    → IsValid s
    → IsFree s x 1
    → let k = lower_bound s x in
      gap_containing s x ≡ record { start = gap_start s k; end = gap_end s k }
unfolding gap_containing
gap_containing-free {s} x v f =
    let at = lower_bound-Fits x 1 v (omega arith) f in
    rw (gap_before_lem (lower_bound s x) v at.in_table) (ground (arith, at.from_start, at.to_end))

-- At an address of the heap that no block holds they answer a free range around it, start and
-- size, with bit 31 set.
pub block_query-IsFree :
    {s : Sysmem} (x : ℕ)
    → IsValid s
    → IsFree s x 1
    → (a n : ℕ) × (a ≤ x)
      × (x < a + n)
      × IsFree s a n
      × (block_address s x ≡ a + free_mark)
      × (block_size s x ≡ n + free_mark)
unfolding block_address block_size
block_query-IsFree {s} x v f =
    let k = lower_bound s x in
    let at = lower_bound-Fits x 1 v (omega arith) f in
    let b = gap_bounds k v at.in_table in
    let none_at = free-not-contained x v f in
    let gap = gap_containing-free x v f in
    (
      gap_start s k,
      gap_end s k - gap_start s k,
      at.from_start,
      omega (arith, at.from_start, at.to_end, b),
      Fits-IsFree k (gap_start s k) (gap_end s k - gap_start s k) v
          (record { in_table = at.in_table; from_start = omega arith; to_end = omega (arith, b) }),
      ground (arith, none_at, gap, at.from_start, at.to_end, b, v.high),
      ground (arith, none_at, gap, at.from_start, at.to_end, b, v.high),
    )

-- Outside the heap both answer -1.
pub block_query-outside :
    {s : Sysmem} (x : ℕ)
    → IsValid s
    → (x < s.heap_low) ⊎ (s.heap_high ≤ x)
    → (block_address s x ≡ minus_one) × (block_size s x ≡ minus_one)
unfolding block_address block_size gap_containing
block_query-outside {s} x v o = ground (arith, none_at, gap)
  where
    none_at : block_containing s x ≡ none
    none_at = block_containing-free x v λ i h. ground (arith, v.table.above i, v.table.below i)

    gap : gap_containing s x ≡ record { start = 0; end = 0 }
    gap =
        let le = lower_bound-le s x in
        rw (gap_before_lem (lower_bound s x) v le, gap_containing)
          (ground (arith, gap_bounds (lower_bound s x) v le))
