-- ===== src/Sysmem/Modes.antt =====
-- Ordinal 4 of src/iop/sysmem.cpp: which range each mode of `allocate` grants.
use ps2bios_rebuild.Common.{
  ℕ, ◌+◌, ◌-◌, ◌%◌, ◌≤◌, ◌<◌, ◌≡◌, ◌≢◌, inl, inr, arith, if◌then◌else◌, ◌||◌, Bool-cases, lt_cases,
  false,
}
use ps2bios_rebuild.Sysmem.{
  Sysmem, max_blocks, place, lower_bound, round_up, allocate_lowest, allocate_highest, allocate_at,
  allocate,
}
use ps2bios_rebuild.Sysmem.Invariant.{
  IsValid, gap_start, gap_end, gap_bounds, gap_start_mono, gap_end_mono,
}
use ps2bios_rebuild.Sysmem.Placement.{Fits, place-Placed}
use ps2bios_rebuild.Sysmem.Scan.{
  IsFree, round_up_lem, lower_bound_lem, lower_bound-Fits, Fits-IsFree, ScanUp, ScanDown,
  allocate_lowest-ScanUp, allocate_highest-ScanDown,
}
use ps2bios_rebuild.Sysmem.Allocate.{off_heap, off_gap, allocate_at_lem}

allocate_mode :
    (s : Sysmem) (size address : ℕ)
    → 0 < size
    → s.heap_low ≢ 0
    → (allocate s 0 size address ≡ allocate_lowest s (round_up size) (s.block_count + 1) 0)
      × (allocate s 1 size address ≡ allocate_highest s (round_up size) (s.block_count + 1))
      × (allocate s 2 size address ≡ allocate_at s (round_up size) address)
unfolding allocate
allocate_mode s size address h k = ground arith

place-Fits :
    {s : Sysmem} (i a n : ℕ)
    → Fits s i (record { start = a; size = n })
    → s.block_count < max_blocks
    → (place s i (record { start = a; size = n })).0 ≡ a
place-Fits {s} i a n f h = ground (arith, place-Placed i (record { start = a; size = n }) f)

ScanUp-first :
    {s : Sysmem} (n a : ℕ) (r : ℕ × Sysmem)
    → IsValid s
    → 0 < n
    → s.block_count < max_blocks
    → IsFree s a n
    → ScanUp s n 0 r
    → IsFree s r.0 n × (r.0 ≤ a)
ScanUp-first {s} n a r v pos c f (inl (g, e)) =
    let k = lower_bound-Fits a n v pos f in
    absurd (omega (arith, k.from_start, k.to_end, g (lower_bound s a) (omega arith) k.in_table))
ScanUp-first {s} n a r v pos c f (inr (k, _, b, w, g, e)) =
    let fits : Fits s k (record { start = gap_start s k; size = n }) = record {
      in_table = b;
      from_start = omega arith;
      to_end = omega arith;
    } in
    let at = lower_bound-Fits a n v pos f in
    rw (e, place-Fits k _ n fits c)
      (
        Fits-IsFree k _ n v fits,
        elim (lt_cases (lower_bound s a) k) [
          | inl m ↦
              absurd (omega (arith, at.from_start, at.to_end, g (lower_bound s a) (omega arith) m))
          | inr m ↦ omega (arith, at.from_start, gap_start_mono k (lower_bound s a) v m at.in_table)
        ],
      )

-- Mode 0 grants a free range, and the lowest one in which the request fits, whenever there is
-- one and a record is left.
pub allocate_lowest-first :
    {s : Sysmem} (size address a : ℕ)
    → IsValid s
    → 0 < size
    → size ≤ 0xFFFFFF00
    → s.heap_low ≢ 0
    → s.block_count < max_blocks
    → IsFree s a (round_up size)
    → let r = (allocate s 0 size address).0 in IsFree s r (round_up size) × (r ≤ a)
allocate_lowest-first {s} size address a v pos h low c f =
    rw ((allocate_mode s size address pos low).0) (
      ScanUp-first (round_up size) a _ v (omega (arith, round_up_lem size h)) c f
        (allocate_lowest-ScanUp (round_up size) (s.block_count + 1) 0 v (omega arith)))

ScanDown-last :
    {s : Sysmem} (n a : ℕ) (r : ℕ × Sysmem)
    → IsValid s
    → 0 < n
    → s.block_count < max_blocks
    → IsFree s a n
    → ScanDown s n (s.block_count + 1) r
    → IsFree s r.0 n × (a ≤ r.0)
ScanDown-last {s} n a r v pos c f (inl (g, e)) =
    let k = lower_bound-Fits a n v pos f in
    absurd (
      omega (
        arith,
        k.from_start,
        k.to_end,
        k.in_table,
        g (lower_bound s a) (omega (arith, k.in_table)),
      ))
ScanDown-last {s} n a r v pos c f (inr (k, b, w, g, e)) =
    let fits : Fits s k (record { start = gap_end s k - n; size = n }) = record {
      in_table = omega arith;
      from_start = omega arith;
      to_end = omega arith;
    } in
    let at = lower_bound-Fits a n v pos f in
    rw (e, place-Fits k _ n fits c)
      (
        Fits-IsFree k _ n v fits,
        elim (lt_cases k (lower_bound s a)) [
          | inl m ↦ absurd (
              omega (
                arith,
                at.from_start,
                at.to_end,
                at.in_table,
                g (lower_bound s a) m (omega (arith, at.in_table)),
              ))
          | inr m ↦ omega (arith, at.to_end, gap_end_mono (lower_bound s a) k v m (omega arith))
        ],
      )

-- Mode 1 grants a free range, and the highest one in which the request fits, whenever there is
-- one and a record is left.
pub allocate_highest-last :
    {s : Sysmem} (size address a : ℕ)
    → IsValid s
    → 0 < size
    → size ≤ 0xFFFFFF00
    → s.heap_low ≢ 0
    → s.block_count < max_blocks
    → IsFree s a (round_up size)
    → let r = (allocate s 1 size address).0 in IsFree s r (round_up size) × (a ≤ r)
allocate_highest-last {s} size address a v pos h low c f =
    rw ((allocate_mode s size address pos low).1) (
      ScanDown-last (round_up size) a _ v (omega (arith, round_up_lem size h)) c f
        (allocate_highest-ScanDown (round_up size) (s.block_count + 1) v (omega arith)))

-- Mode 2 at a unit boundary grants the address that was named if its range is free, and
-- otherwise refuses and changes nothing.
pub allocate_at-exact :
    {s : Sysmem} (size address : ℕ)
    → IsValid s
    → 0 < size
    → size ≤ 0xFFFFFF00
    → s.heap_low ≢ 0
    → s.block_count < max_blocks
    → address % 256 ≡ 0
    → (IsFree s address (round_up size) → (allocate s 2 size address).0 ≡ address)
      × (¬ IsFree s address (round_up size) → allocate s 2 size address ≡ (0, s))
allocate_at-exact {s} size address v pos h low c al =
    rw ((allocate_mode s size address pos low).2, allocate_at_lem (round_up size) address v)
      (granted, refused)
  where
    n : ℕ
    n = round_up size

    k : ℕ
    k = lower_bound s address

    r : (size ≤ n) × (n < size + 256) × (n % 256 ≡ 0)
    r = round_up_lem size h

    granted :
        IsFree s address n
        → (if off_heap s n address || off_gap s n address
            then (0, s)
            else place s k (record { start = address; size = n })).0
          ≡ address
    granted f =
        let at = lower_bound-Fits address n v (omega (arith, r)) f in
        let b = gap_bounds k v at.in_table in
        let on : (off_heap s n address || off_gap s n address) ≡ false =
          ground (arith, at.from_start, at.to_end, f.from_low, f.to_high, b, v.high, r) in
        rw on (place-Fits k address n at c)

    refused :
        ¬ IsFree s address n
        → (if off_heap s n address || off_gap s n address
            then (0, s)
            else place s k (record { start = address; size = n }))
          ≡ (0, s)
    refused f = elim (Bool-cases (off_heap s n address || off_gap s n address)) [
      | inl e ↦ rw e
      | inr e ↦
          let at = lower_bound_lem s address (ground arith) in
          absurd (
            f (
              Fits-IsFree k address n v (record {
                in_table = at.0;
                from_start = ground arith;
                to_end = ground (arith, at, gap_bounds k v at.0, v.high);
              })))
    ]
