-- ===== src/Sysmem/Scan.antt =====
-- The searches of src/iop/sysmem.cpp for a gap: what each finds, against the free ranges of the heap.
use ps2bios_rebuild.Common.{
  ℕ, zero, suc, ◌+◌, ◌-◌, ◌%◌, ◌≤◌, ◌<◌, ◌≡◌, ◌⊎◌, inl, inr, refl, arith, ltb, leb, sub32,
  Bool-cases, lt_cases, subst,
}
use ps2bios_rebuild.Sysmem.{
  Block, Sysmem, place, lower_bound_from, lower_bound, gap_before, round_up, room, allocate_lowest,
  allocate_highest,
}
use ps2bios_rebuild.Sysmem.Invariant.{
  IsValid, block_end, gap_start, gap_end, gap_bounds, gap_before_lem,
}
use ps2bios_rebuild.Sysmem.Placement.{Fits}

-- [a, a + n) lies in the heap and meets no record.
pub record IsFree (s : Sysmem) (a n : ℕ) : Type 0 where
  pub from_low : s.heap_low ≤ a
  pub to_high : a + n ≤ s.heap_high
  pub apart :
      (i : ℕ) → i < s.block_count → (block_end (s.blocks i) ≤ a) ⊎ (a + n ≤ (s.blocks i).start)

abbrev pub width : Sysmem → ℕ → ℕ
width s i = gap_end s i - gap_start s i

pub room-gap_before :
    {s : Sysmem} (i : ℕ) → IsValid s → i ≤ s.block_count → room (gap_before s i) ≡ width s i
room-gap_before {s} i v h = rw (gap_before_lem i v h) (omega (arith, gap_bounds i v h, v.high))

pub round_up_lem :
    (size : ℕ)
    → size ≤ 0xFFFFFF00
    → (size ≤ round_up size) × (round_up size < size + 256) × (round_up size % 256 ≡ 0)
unfolding round_up
round_up_lem size h = omega arith

pub lower_bound_from_lem :
    (blocks : ℕ → Block) (a n i : ℕ)
    → let k = lower_bound_from blocks a n i in
      (i ≤ k)
      × (k ≤ i + n)
      × ((j : ℕ) → i ≤ j → j < k → (blocks j).start < a)
      × (k < i + n → a ≤ (blocks k).start)
unfolding lower_bound_from
lower_bound_from_lem blocks a zero i =
    (omega arith, omega arith, λ j h k. absurd (omega arith), λ h. absurd (omega arith))
lower_bound_from_lem blocks a (suc n) i = elim (Bool-cases (ltb (blocks i).start a)) [
  | inl h ↦
      let ih = lower_bound_from_lem blocks a n (suc i) in
      rw h (
        ground (arith, ih),
        ground (arith, ih),
        λ j p q. ground (arith, ih.2 j),
        λ p. ih.3 (omega arith),
      )
  | inr h ↦ rw h (omega arith, omega arith, λ j p q. absurd (omega arith), λ p. ground arith)
]

pub lower_bound_lem :
    (s : Sysmem) (a : ℕ)
    → a < s.heap_high
    → (lower_bound s a ≤ s.block_count) × (a ≤ gap_end s (lower_bound s a))
unfolding lower_bound
lower_bound_lem s a h =
    let at = lower_bound_from_lem s.blocks a s.block_count 0 in
    (ground (arith, at), ground (arith, at))

pub lower_bound-le : (s : Sysmem) (a : ℕ) → lower_bound s a ≤ s.block_count
unfolding lower_bound
lower_bound-le s a = omega (arith, (lower_bound_from_lem s.blocks a s.block_count 0).1)

-- A free range lies in the gap that `lower_bound` names.
pub lower_bound-Fits :
    {s : Sysmem} (a n : ℕ)
    → IsValid s
    → 0 < n
    → IsFree s a n
    → Fits s (lower_bound s a) (record { start = a; size = n })
unfolding lower_bound
lower_bound-Fits {s} a n v pos f =
    let k = lower_bound_from s.blocks a s.block_count 0 in
    let at = lower_bound_from_lem s.blocks a s.block_count 0 in
    let le : k ≤ s.block_count = ground (arith, at) in
    record {
      in_table = le;
      from_start = ground (arith, at.2 (k - 1), f.from_low, f.apart (k - 1));
      to_end = ground (arith, at.3, f.to_high, f.apart k, v.table.sized k);
    }

-- A block that fits in a gap is free.
pub Fits-IsFree :
    {s : Sysmem} (i a n : ℕ) → IsValid s → Fits s i (record { start = a; size = n }) → IsFree s a n
Fits-IsFree {s} i a n v f = record {
  from_low = ground (arith, gap_bounds i v f.in_table, f.from_start);
  to_high = ground (arith, gap_bounds i v f.in_table, f.to_end);
  apart = λ j h. ground (
    arith,
    f.from_start,
    f.to_end,
    v.table.sorted j (i - 1),
    v.table.sorted i j,
    gap_bounds i v f.in_table,
  );
}

-- What the scan from gap `i` upwards finds: nothing wide enough, or the first gap that is.
abbrev pub ScanUp : Sysmem → ℕ → ℕ → ℕ × Sysmem → Type 0
ScanUp s rounded i r =
    (((j : ℕ) → i ≤ j → j ≤ s.block_count → width s j < rounded) × (r ≡ (0, s)))
    ⊎ ((k : ℕ) × (i ≤ k)
        × (k ≤ s.block_count)
        × (rounded ≤ width s k)
        × ((j : ℕ) → i ≤ j → j < k → width s j < rounded)
        × (r ≡ place s k (record { start = gap_start s k; size = rounded })))

-- A narrow gap does not change what a scan finds.
extend_down :
    (f : ℕ → ℕ) (r i k : ℕ)
    → f i < r
    → ((j : ℕ) → suc i ≤ j → j < k → f j < r)
    → (j : ℕ) → i ≤ j
    → j < k
    → f j < r
extend_down f r i k h g j p q = elim (lt_cases i j) [
  | inl m ↦ g j m q
  | inr m ↦ subst (λ x. f x < r) (omega arith) h
]

ScanUp-suc :
    {s : Sysmem} (r i : ℕ) (x : ℕ × Sysmem) → width s i < r → ScanUp s r (suc i) x → ScanUp s r i x
ScanUp-suc {s} r i x h (inl (g, e)) = inl (
  λ j p q.
      extend_down (width s) r i (suc s.block_count) h (λ a b c. g a b (omega arith)) j p
        (omega arith),
  e,
)
ScanUp-suc {s} r i x h (inr (k, a, b, c, g, e)) =
    inr (k, omega arith, b, c, extend_down (width s) r i k h g, e)

pub allocate_lowest-ScanUp :
    {s : Sysmem} (rounded n i : ℕ)
    → IsValid s
    → n + i ≡ s.block_count + 1
    → ScanUp s rounded i (allocate_lowest s rounded n i)
unfolding allocate_lowest
allocate_lowest-ScanUp {s} rounded zero i v e = inl (λ j h k. absurd (omega arith), refl)
allocate_lowest-ScanUp {s} rounded (suc n) i v e =
    let le : i ≤ s.block_count = omega arith in
    rw (room-gap_before i v le, gap_before_lem i v le)
      elim (Bool-cases (leb rounded (width s i))) [
        | inl h ↦ rw h (inr (i, omega arith, le, ground arith, λ j p q. absurd (omega arith), refl))
        | inr h ↦ rw h (
            ScanUp-suc rounded i _ (ground arith)
              (allocate_lowest-ScanUp rounded n (suc i) v (omega arith)))
      ]

-- What the scan from gap `n - 1` downwards finds.
abbrev pub ScanDown : Sysmem → ℕ → ℕ → ℕ × Sysmem → Type 0
ScanDown s rounded n r =
    (((j : ℕ) → j < n → width s j < rounded) × (r ≡ (0, s)))
    ⊎ ((k : ℕ) × (k < n)
        × (rounded ≤ width s k)
        × ((j : ℕ) → k < j → j < n → width s j < rounded)
        × (r ≡ place s k (record { start = gap_end s k - rounded; size = rounded })))

extend_up :
    (f : ℕ → ℕ) (r i k : ℕ)
    → f i < r
    → ((j : ℕ) → k < j → j < i → f j < r)
    → (j : ℕ) → k < j
    → j < suc i
    → f j < r
extend_up f r i k h g j p q = elim (lt_cases j i) [
  | inl m ↦ g j p m
  | inr m ↦ subst (λ x. f x < r) (omega arith) h
]

ScanDown-suc :
    {s : Sysmem} (r i : ℕ) (x : ℕ × Sysmem)
    → width s i < r
    → ScanDown s r i x
    → ScanDown s r (suc i) x
ScanDown-suc {s} r i x h (inl (g, e)) = inl (
  λ j p. elim (lt_cases j i) [ inl m ↦ g j m | inr m ↦ subst (λ x. width s x < r) (omega arith) h ],
  e,
)
ScanDown-suc {s} r i x h (inr (k, a, c, g, e)) =
    inr (k, omega arith, c, extend_up (width s) r i k h g, e)

pub allocate_highest-ScanDown :
    {s : Sysmem} (rounded n : ℕ)
    → IsValid s
    → n ≤ s.block_count + 1
    → ScanDown s rounded n (allocate_highest s rounded n)
unfolding allocate_highest
allocate_highest-ScanDown {s} rounded zero v e = inl (λ j h. absurd (omega arith), refl)
allocate_highest-ScanDown {s} rounded (suc i) v e =
    let le : i ≤ s.block_count = omega arith in
    rw (room-gap_before i v le, gap_before_lem i v le)
      elim (Bool-cases (leb rounded (width s i))) [
        | inl h ↦
            let wide : rounded ≤ width s i = ground arith in
            let e : sub32 (gap_end s i) rounded ≡ gap_end s i - rounded =
              omega (arith, gap_bounds i v le, v.high) in
            rw (h, e) (inr (i, omega arith, wide, λ j p q. absurd (omega arith), refl))
        | inr h ↦ rw h (
            ScanDown-suc rounded i _ (ground arith)
              (allocate_highest-ScanDown rounded i v (omega arith)))
      ]
