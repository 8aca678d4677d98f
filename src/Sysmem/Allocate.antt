-- ===== src/Sysmem/Allocate.antt =====
-- Ordinal 4 of src/iop/sysmem.cpp: `allocate`, mode by mode.
use ps2bios_rebuild.Common.{
  ℕ, ◌+◌, ◌-◌, ◌%◌, ◌≤◌, ◌<◌, ◌≡◌, ◌≢◌, ◌⊎◌, inl, inr, refl, arith, ltb, leb, ◌==◌, if◌then◌else◌,
  not, ◌||◌, sub32, Bool, Bool-cases, if_ind, lt_cases, ap,
}
use ps2bios_rebuild.Sysmem.{Sysmem, max_blocks, place, lower_bound, round_up, allocate_at, allocate}
use ps2bios_rebuild.Sysmem.Invariant.{IsValid, gap_start, gap_end, gap_bounds, gap_before_lem}
use ps2bios_rebuild.Sysmem.Placement.{Fits, inserted, place-Placed, inserted-IsValid}
use ps2bios_rebuild.Sysmem.Scan.{
  IsFree, round_up_lem, lower_bound_lem, Fits-IsFree, ScanUp, ScanDown, allocate_lowest-ScanUp,
  allocate_highest-ScanDown,
}

-- An operation that answered `r` refused and changed nothing, or put a whole number of units
-- into a gap.
abbrev pub Placed : Sysmem → ℕ → ℕ × Sysmem → Type 0
Placed s n r =
    (r ≡ (0, s))
    ⊎ ((i a : ℕ) × Fits s i (record { start = a; size = n })
        × (a % 256 ≡ 0)
        × (s.block_count < max_blocks)
        × (r ≡ (a, inserted s i (record { start = a; size = n }))))

place_cases :
    {s : Sysmem} (i a n : ℕ)
    → Fits s i (record { start = a; size = n })
    → a % 256 ≡ 0
    → IsValid s
    → Placed s n (place s i (record { start = a; size = n }))
place_cases {s} i a n f m v = elim (lt_cases s.block_count max_blocks) [
  | inl h ↦ inr (i, a, f, m, h, ground (arith, place-Placed i (record { start = a; size = n }) f))
  | inr h ↦ inl (ground (arith, v.full, place-Placed i (record { start = a; size = n }) f))
]

gap_start-aligned : {s : Sysmem} (i : ℕ) → IsValid s → i ≤ s.block_count → gap_start s i % 256 ≡ 0
gap_start-aligned {s} i v h = ground (arith, v.table.aligned (i - 1), v.low_aligned)

gap_end-aligned : {s : Sysmem} (i : ℕ) → IsValid s → i ≤ s.block_count → gap_end s i % 256 ≡ 0
gap_end-aligned {s} i v h = ground (arith, v.table.aligned i, v.high_aligned)

ScanUp-Placed :
    {s : Sysmem} (n : ℕ) (r : ℕ × Sysmem) → 0 < n → IsValid s → ScanUp s n 0 r → Placed s n r
ScanUp-Placed {s} n r pos v (inl (_, e)) = inl e
ScanUp-Placed {s} n r pos v (inr (k, _, b, c, _, e)) = rw e (
    place_cases k _ n (record { in_table = b; from_start = omega arith; to_end = omega arith })
      (gap_start-aligned k v b) v)

ScanDown-Placed :
    {s : Sysmem} (n : ℕ) (r : ℕ × Sysmem)
    → n % 256 ≡ 0
    → 0 < n
    → IsValid s
    → ScanDown s n (s.block_count + 1) r
    → Placed s n r
ScanDown-Placed {s} n r al pos v (inl (_, e)) = inl e
ScanDown-Placed {s} n r al pos v (inr (k, b, c, _, e)) = rw e (
    place_cases k _ n
      (record { in_table = omega arith; from_start = omega arith; to_end = omega arith })
      (omega (arith, gap_end-aligned k v (omega arith))) v)

-- The test of mode 2 before it looks for the gap.
abbrev pub off_heap : Sysmem → ℕ → ℕ → Bool
off_heap s n address =
    not (address % 256 == 0)
    || ltb address s.heap_low
    || leb s.heap_high address
    || ltb (sub32 s.heap_high address) n

-- The test of mode 2 against the gap.
abbrev pub off_gap : Sysmem → ℕ → ℕ → Bool
off_gap s n address =
    ltb address (gap_start s (lower_bound s address))
    || ltb (sub32 (gap_end s (lower_bound s address)) address) n

pub allocate_at_lem :
    {s : Sysmem} (n address : ℕ)
    → IsValid s
    → allocate_at s n address ≡ (
        if off_heap s n address || off_gap s n address
        then (0, s)
        else place s (lower_bound s address) (record { start = address; size = n }))
unfolding allocate_at
allocate_at_lem {s} n address v = elim (Bool-cases (off_heap s n address)) [
  | inl h ↦ rw h
  | inr h ↦
      let le : lower_bound s address ≤ s.block_count =
        (lower_bound_lem s address (ground arith)).0 in
      rw (h, gap_before_lem (lower_bound s address) v le)
]

allocate_at-Placed : {s : Sysmem} (n address : ℕ) → IsValid s → Placed s n (allocate_at s n address)
allocate_at-Placed {s} n address v =
    rw (allocate_at_lem n address v)
      elim (Bool-cases (off_heap s n address || off_gap s n address)) [
        | inl h ↦ rw h (inl refl)
        | inr h ↦
            let k = lower_bound s address in
            let at = lower_bound_lem s address (ground arith) in
            rw h (
              place_cases k address n
                (record {
                  in_table = at.0;
                  from_start = ground arith;
                  to_end = ground (arith, at, gap_bounds k v at.0, v.high);
                })
                (ground arith) v)
      ]

pub allocate_zero :
    (s : Sysmem) (mode size address : ℕ) → size ≡ 0 → allocate s mode size address ≡ (0, s)
unfolding allocate
allocate_zero s mode size address e = ground arith

-- Every mode refuses and changes nothing, or grants a block of whole units out of a gap.
pub allocate-Placed :
    {s : Sysmem} (mode size address : ℕ)
    → IsValid s
    → size ≤ 0xFFFFFF00
    → Placed s (round_up size) (allocate s mode size address)
unfolding allocate
allocate-Placed {s} mode size address v h =
    if_ind P _ (λ _. inl refl)
      λ nz.
        let z : 0 < size = ground arith in
        let r = round_up_lem size h in
        if_ind P (mode == 2) (λ _. allocate_at-Placed n address v)
          λ _.
            if_ind P (mode == 0)
              (λ _.
                ScanUp-Placed n _ (omega (arith, r)) v
                  (allocate_lowest-ScanUp n (s.block_count + 1) 0 v (omega arith)))
              λ _.
                if_ind P (mode == 1)
                  (λ _.
                    ScanDown-Placed n _ (omega (arith, r)) (omega (arith, r)) v
                      (allocate_highest-ScanDown n (s.block_count + 1) v (omega arith)))
                  (λ _. inl refl)
  where
    n : ℕ
    n = round_up size

    P : ℕ × Sysmem → Type 0
    P = Placed s n

Placed-IsValid :
    {s : Sysmem} (n : ℕ) (r : ℕ × Sysmem)
    → IsValid s
    → 0 < n
    → n % 256 ≡ 0
    → Placed s n r
    → IsValid r.1
Placed-IsValid n r v h k (inl e) = rw e v
Placed-IsValid n r v h k (inr (i, a, f, al, c, e)) = rw e (inserted-IsValid i _ v f c h al k)

-- `allocate` keeps the table sorted, disjoint, aligned and inside the heap, in every mode, for
-- every request whose rounding does not wrap.
pub allocate-IsValid :
    {s : Sysmem} (mode size address : ℕ)
    → IsValid s
    → size ≤ 0xFFFFFF00
    → IsValid (allocate s mode size address).1
allocate-IsValid {s} mode size address v h = elim (lt_cases 0 size) [
  | inl z ↦
      let r = round_up_lem size h in
      Placed-IsValid (round_up size) _ v (omega (arith, r)) (omega (arith, r))
        (allocate-Placed mode size address v h)
  | inr z ↦ rw (allocate_zero s mode size address (omega arith)) v
]

-- A grant in any mode is a range of the heap that no record met, on a unit boundary and as long as
-- was asked, for every request whose rounding does not wrap.
pub allocate-IsFree :
    {s : Sysmem} (mode size address : ℕ)
    → IsValid s
    → size ≤ 0xFFFFFF00
    → (allocate s mode size address).0 ≢ 0
    → let a = (allocate s mode size address).0 in
      IsFree s a (round_up size) × (size ≤ round_up size) × (a % 256 ≡ 0)
allocate-IsFree {s} mode size address v h g = elim (lt_cases 0 size) [
  | inl z ↦ granted (allocate s mode size address) (allocate-Placed mode size address v h) g
  | inr z ↦ absurd (g (ground (arith, allocate_zero s mode size address)))
]
  where
    granted :
        (r : ℕ × Sysmem)
        → Placed s (round_up size) r
        → r.0 ≢ 0
        → IsFree s r.0 (round_up size) × (size ≤ round_up size) × (r.0 % 256 ≡ 0)
    granted r (inl e) nz = absurd (nz (ap (λ x. x.0) e))
    granted r (inr (i, a, f, al, c, e)) nz =
        rw e (Fits-IsFree i a (round_up size) v f, (round_up_lem size h).0, al)
