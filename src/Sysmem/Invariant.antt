-- ===== src/Sysmem/Invariant.antt =====
-- The record table of src/iop/sysmem.cpp: sorted, disjoint, and inside the heap.
use ps2bios_rebuild.Common.{
  ℕ, zero, suc, ◌+◌, ◌-◌, ◌%◌, ◌≤◌, ◌<◌, ◌≡◌, arith, ◌&&◌, ltb, leb, ◌==◌, if◌then◌else◌, update,
}
use ps2bios_rebuild.Sysmem.{
  Block, Sysmem, gap_before, heap_end, max_blocks, shift_up, shift_down, module_start,
}

abbrev pub block_end : Block → ℕ
block_end b = b.start + b.size

-- The live part of the table.
pub record IsTable (low high count : ℕ) (blocks : ℕ → Block) : Type 0 where
  pub above : (i : ℕ) → i < count → low ≤ (blocks i).start
  pub below : (i : ℕ) → i < count → block_end (blocks i) ≤ high
  pub sized : (i : ℕ) → i < count → 0 < (blocks i).size
  pub aligned : (i : ℕ) → i < count → ((blocks i).start % 256 ≡ 0) × ((blocks i).size % 256 ≡ 0)
  pub sorted : (i j : ℕ) → i < j → j < count → block_end (blocks i) ≤ (blocks j).start

pub record IsValid (s : Sysmem) : Type 0 where
  pub ordered : s.heap_low ≤ s.heap_high
  pub high : s.heap_high ≤ heap_end
  pub low_aligned : s.heap_low % 256 ≡ 0
  pub high_aligned : s.heap_high % 256 ≡ 0
  pub full : s.block_count ≤ max_blocks
  pub table : IsTable s.heap_low s.heap_high s.block_count s.blocks

pub module_start-IsValid : (s : Sysmem) (ram : ℕ) → IsValid (module_start s ram)
unfolding module_start
module_start-IsValid s ram = record {
  ordered = ground arith;
  high = ground arith;
  low_aligned = ground arith;
  high_aligned = ground arith;
  full = omega arith;
  table = record {
    above = λ i h. absurd (omega arith);
    below = λ i h. absurd (omega arith);
    sized = λ i h. absurd (omega arith);
    aligned = λ i h. absurd (omega arith);
    sorted = λ i j h k. absurd (omega arith);
  };
}

pub shift_up_lem :
    (index n : ℕ) (blocks : ℕ → Block) (j : ℕ)
    → shift_up index n blocks j ≡ (if ltb index j && leb j n then blocks (j - 1) else blocks j)
unfolding shift_up
shift_up_lem index zero blocks j = ground arith
shift_up_lem index (suc i) blocks j =
    ground (arith, shift_up_lem index i (update blocks (suc i) (blocks i)) j)

pub shift_down_lem :
    (n i : ℕ) (blocks : ℕ → Block) (j : ℕ)
    → shift_down n i blocks j ≡ (if leb i j && ltb j (i + n) then blocks (suc j) else blocks j)
unfolding shift_down
shift_down_lem zero i blocks j = ground arith
shift_down_lem (suc n) i blocks j =
    ground (arith, shift_down_lem n (suc i) (update blocks i (blocks (suc i))) j)

-- The bounds of gap `i`, as `gap_before` has them where nothing wraps.
abbrev pub gap_start : Sysmem → ℕ → ℕ
gap_start s i = if i == 0 then s.heap_low else block_end (s.blocks (i - 1))

abbrev pub gap_end : Sysmem → ℕ → ℕ
gap_end s i = if i == s.block_count then s.heap_high else (s.blocks i).start

pub gap_before_lem :
    {s : Sysmem} (i : ℕ)
    → IsValid s
    → i ≤ s.block_count
    → gap_before s i ≡ record { start = gap_start s i; end = gap_end s i }
unfolding gap_before
gap_before_lem {s} i v h = ground (arith, v.table.below (i - 1))

-- Every gap is a range of the heap.
pub gap_bounds :
    {s : Sysmem} (i : ℕ)
    → IsValid s
    → i ≤ s.block_count
    → (s.heap_low ≤ gap_start s i) × (gap_start s i ≤ gap_end s i) × (gap_end s i ≤ s.heap_high)
gap_bounds {s} i v h = ground (
  arith,
  v.table.below (i - 1),
  v.table.above (i - 1),
  v.table.above i,
  v.table.below i,
  v.table.sorted (i - 1) i,
)

-- Gaps rise with their index.
pub gap_start_mono :
    {s : Sysmem} (i j : ℕ) → IsValid s → i ≤ j → j ≤ s.block_count → gap_start s i ≤ gap_start s j
gap_start_mono {s} i j v h k = ground (arith, v.table.above (j - 1), v.table.sorted (i - 1) (j - 1))

pub gap_end_mono :
    {s : Sysmem} (i j : ℕ) → IsValid s → i ≤ j → j ≤ s.block_count → gap_end s i ≤ gap_end s j
gap_end_mono {s} i j v h k = ground (arith, v.table.below i, v.table.sorted i j)
