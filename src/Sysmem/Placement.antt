-- ===== src/Sysmem/Placement.antt =====
-- What src/iop/sysmem.cpp does to its table when it hands a block out of a gap.
use ps2bios_rebuild.Common.{
  ℕ, ◌+◌, ◌-◌, ◌%◌, ◌≤◌, ◌<◌, ◌≡◌, ◌⊎◌, arith, ltb, ◌==◌, if◌then◌else◌, update,
}
use ps2bios_rebuild.Sysmem.{Block, Sysmem, max_blocks, shift_up, insert_block, place}
use ps2bios_rebuild.Sysmem.Invariant.{
  IsTable, IsValid, block_end, shift_up_lem, gap_start, gap_end, gap_bounds,
}

-- The state with `b` in the table at `index`.
abbrev pub inserted : Sysmem → ℕ → Block → Sysmem
inserted s index b = record s {
  blocks = update (shift_up index s.block_count s.blocks) index b;
  block_count = s.block_count + 1;
}

-- `b` lies in gap `index`, and there is a record for it.
pub record Fits (s : Sysmem) (index : ℕ) (b : Block) : Type 0 where
  pub in_table : index ≤ s.block_count
  pub from_start : gap_start s index ≤ b.start
  pub to_end : block_end b ≤ gap_end s index

-- An operation that answered `r` refused and changed nothing, or granted a block that fitted.
abbrev pub Placed : Sysmem → ℕ → ℕ × Sysmem → Type 0
Placed s size r =
    (r ≡ (0, s))
    ⊎ ((i a : ℕ) × Fits s i (record { start = a; size = size })
        × (s.block_count < max_blocks)
        × (r ≡ (a, inserted s i (record { start = a; size = size }))))

-- The table after an insertion, entry by entry.
pub inserted_lem :
    (s : Sysmem) (index : ℕ) (b : Block) (j : ℕ)
    → index ≤ s.block_count
    → j < s.block_count + 1
    → (inserted s index b).blocks j
      ≡ (if ltb j index then s.blocks j else if j == index then b else s.blocks (j - 1))
inserted_lem s index b j h k = ground (arith, shift_up_lem index s.block_count s.blocks j)

pub place-Placed :
    {s : Sysmem} (index : ℕ) (b : Block)
    → Fits s index b
    → (place s index b
        ≡ (if s.block_count == max_blocks then (0, s) else (b.start, inserted s index b)))
unfolding place insert_block
place-Placed index b f = ground arith

-- A block of whole units out of a gap keeps the table sorted and disjoint.
pub inserted-IsValid :
    {s : Sysmem} (index : ℕ) (b : Block)
    → IsValid s
    → Fits s index b
    → s.block_count < max_blocks
    → 0 < b.size
    → b.start % 256 ≡ 0
    → b.size % 256 ≡ 0
    → IsValid (inserted s index b)
inserted-IsValid {s} index b v f room sized start_aligned size_aligned = record {
  ordered = v.ordered;
  high = v.high;
  low_aligned = v.low_aligned;
  high_aligned = v.high_aligned;
  full = omega arith;
  table = record {
    above = λ i h. ground (arith, at i, bounds, t.above i, t.above (i - 1));
    below = λ i h. ground (arith, at i, bounds, t.below i, t.below (i - 1));
    sized = λ i h. ground (arith, at i, t.sized i, t.sized (i - 1));
    aligned = λ i h. ground (arith, at i, t.aligned i, t.aligned (i - 1));
    sorted = λ i j h k. ground (
      arith,
      at i,
      at j,
      bounds,
      t.sorted i j,
      t.sorted i (j - 1),
      t.sorted (i - 1) (j - 1),
      t.sorted i (index - 1),
      t.sorted index (j - 1),
      t.below i,
      t.below (j - 1),
      t.above (j - 1),
      f.from_start,
      f.to_end,
    );
  };
}
  where
    t : IsTable s.heap_low s.heap_high s.block_count s.blocks
    t = v.table

    at :
        (j : ℕ)
        → j < s.block_count + 1
        → (inserted s index b).blocks j
          ≡ (if ltb j index then s.blocks j else if j == index then b else s.blocks (j - 1))
    at j = inserted_lem s index b j f.in_table

    bounds :
        (s.heap_low ≤ gap_start s index)
        × (gap_start s index ≤ gap_end s index)
        × (gap_end s index ≤ s.heap_high)
    bounds = gap_bounds index v f.in_table
