-- ===== src/Sysmem/Tests.antt =====
-- Runs of src/iop/sysmem.cpp on a heap of one block, and the theorems there.
use ps2bios_rebuild.Common.{ℕ, ◌+◌, ◌%◌, ◌≤◌, ◌<◌, ◌≡◌, ◌≢◌, refl, arith, inl}
use ps2bios_rebuild.Sysmem.{
  Sysmem, round_up, lower_bound_from, lower_bound, block_containing_from, block_containing,
  gap_before, insert_block, place, allocate_lowest, allocate_highest, allocate_at, allocate,
  gap_containing, free_mark, minus_one, block_address, block_size, deallocate_from, deallocate,
}
use ps2bios_rebuild.Sysmem.Invariant.{IsValid}
use ps2bios_rebuild.Sysmem.Scan.{IsFree}
use ps2bios_rebuild.Sysmem.Allocate.{allocate-IsValid, allocate-IsFree}
use ps2bios_rebuild.Sysmem.Modes.{allocate_lowest-first, allocate_highest-last}
use ps2bios_rebuild.Sysmem.Query.{block_query-IsFree}
use ps2bios_rebuild.Sysmem.Release.{deallocate-refused, deallocate-allocate}

abbrev one_block : Sysmem
one_block = record {
  heap_low = 0x20000;
  heap_high = 0x1F0000;
  ram_size = 0x200000;
  blocks = λ i. record { start = 0x20000; size = 0x200 };
  block_count = 1;
}

one_block-IsValid : IsValid one_block
one_block-IsValid = record {
  ordered = omega arith;
  high = omega arith;
  low_aligned = refl;
  high_aligned = refl;
  full = omega arith;
  table = record {
    above = λ i h. omega arith;
    below = λ i h. omega arith;
    sized = λ i h. omega arith;
    aligned = λ i h. (refl, refl);
    sorted = λ i j h k. absurd (omega arith);
  };
}

runs :
    ((allocate one_block 0 0x150 0).0 ≡ 0x20200)
    × ((allocate one_block 1 0x150 0).0 ≡ 0x1EFE00)
    × ((allocate one_block 2 0x150 0x20100).0 ≡ 0)
    × ((deallocate one_block 0x20100).0 ≡ minus_one)
    × (block_address one_block 0x20100 ≡ 0x20000)
    × (block_size one_block 0x20300 ≡ 0x801CFE00)
unfolding allocate allocate_lowest allocate_highest allocate_at lower_bound lower_bound_from
    gap_before place insert_block round_up deallocate deallocate_from block_address block_size
    block_containing block_containing_from gap_containing
runs = (refl, refl, refl, refl, refl, refl)

above_block : IsFree one_block 0x30000 (round_up 0x150)
unfolding round_up
above_block = record {
  from_low = omega arith;
  to_high = omega arith;
  apart = λ i h. inl (omega arith);
}

allocate-IsValid_example : IsValid (allocate one_block 1 0x150 0).1
allocate-IsValid_example = allocate-IsValid 1 0x150 0 one_block-IsValid (omega arith)

granted : (allocate one_block 0 0x150 0).0 ≡ 0x20200
unfolding runs
granted = runs.0

granted_ne : (allocate one_block 0 0x150 0).0 ≢ 0
granted_ne = omega (arith, granted)

allocate-IsFree_example :
    IsFree one_block (allocate one_block 0 0x150 0).0 (round_up 0x150)
    × (0x150 ≤ round_up 0x150)
    × ((allocate one_block 0 0x150 0).0 % 256 ≡ 0)
allocate-IsFree_example = allocate-IsFree 0 0x150 0 one_block-IsValid (omega arith) granted_ne

allocate_lowest-first_example :
    let r = (allocate one_block 0 0x150 0).0 in IsFree one_block r (round_up 0x150) × (r ≤ 0x30000)
allocate_lowest-first_example =
    allocate_lowest-first 0x150 0 0x30000 one_block-IsValid (omega arith) (omega arith)
      (omega arith) (omega arith) above_block

allocate_highest-last_example :
    let r = (allocate one_block 1 0x150 0).0 in IsFree one_block r (round_up 0x150) × (0x30000 ≤ r)
allocate_highest-last_example =
    allocate_highest-last 0x150 0 0x30000 one_block-IsValid (omega arith) (omega arith)
      (omega arith) (omega arith) above_block

one-IsFree : IsFree one_block 0x30000 1
one-IsFree = record {
  from_low = omega arith;
  to_high = omega arith;
  apart = λ i h. inl (omega arith);
}

block_query-IsFree_example :
    (a n : ℕ) × (a ≤ 0x30000)
    × (0x30000 < a + n)
    × IsFree one_block a n
    × (block_address one_block 0x30000 ≡ a + free_mark)
    × (block_size one_block 0x30000 ≡ n + free_mark)
block_query-IsFree_example = block_query-IsFree 0x30000 one_block-IsValid one-IsFree

deallocate-refused_example : deallocate one_block 0x20100 ≡ (minus_one, one_block)
deallocate-refused_example = deallocate-refused one_block 0x20100 (λ i h. omega arith)

deallocate-allocate_example :
    let (a, t) = allocate one_block 0 0x150 0 in
    let (r, u) = deallocate t a in
    (r ≡ 0) × (u.block_count ≡ 1) × ((j : ℕ) → j < 1 → u.blocks j ≡ one_block.blocks j)
deallocate-allocate_example =
    deallocate-allocate 0 0x150 0 one_block-IsValid (omega arith) granted_ne
