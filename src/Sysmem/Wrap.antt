-- ===== src/Sysmem/Wrap.antt =====
-- The rounding of src/iop/sysmem.cpp wraps for the last 0xFF requests below 2^32.
use ps2bios_rebuild.Common.{ℕ, suc, ◌<◌, ◌≡◌, ◌≢◌, refl, arith, word, ap}
use native.Mathlib.Numerals.{add-one}
use ps2bios_rebuild.Sysmem.{Block, Sysmem, round_up, allocate, allocate_lowest, max_blocks}
use ps2bios_rebuild.Sysmem.Invariant.{IsValid, gap_before_lem}
use ps2bios_rebuild.Sysmem.Placement.{Fits, inserted, inserted_lem, place-Placed}

round_up_wraps : (size : ℕ) → 0xFFFFFF00 < size → size < word → round_up size ≡ 0
unfolding round_up
round_up_wraps size h k = omega arith

allocate_lowest_zero :
    (s : Sysmem) (n : ℕ)
    → IsValid s
    → s.block_count < max_blocks
    → allocate_lowest s 0 (suc n) 0
      ≡ (s.heap_low, inserted s 0 (record { start = s.heap_low; size = 0 }))
unfolding allocate_lowest
allocate_lowest_zero s n v c =
    let b : Block = record { start = s.heap_low; size = 0 } in
    let f : Fits s 0 b = record {
      in_table = omega arith;
      from_start = omega arith;
      to_end = ground (arith, v.ordered, v.table.above 0);
    } in
    ground (arith, gap_before_lem 0 v (omega arith), place-Placed 0 b f)

-- A request above 0xFFFFFF00 in mode 0 is granted: it answers the bottom of the heap, in use or
-- not, and leaves a record of no bytes in the table.
pub allocate_wraps :
    {s : Sysmem} (size address : ℕ)
    → IsValid s
    → s.heap_low ≢ 0
    → s.block_count < max_blocks
    → 0xFFFFFF00 < size
    → size < word
    → let (r, t) = allocate s 0 size address in
      (r ≡ s.heap_low) × ((t.blocks 0).size ≡ 0) × (¬ IsValid t)
unfolding allocate
allocate_wraps {s} size address v low c h k =
    rw (whole) (refl, empty, λ w. omega (arith, w.table.sized 0 (omega arith), empty))
  where
    b : Block
    b = record { start = s.heap_low; size = 0 }

    whole : allocate s 0 size address ≡ (s.heap_low, inserted s 0 b)
    whole = ground (
      arith,
      round_up_wraps size h k,
      allocate_lowest_zero s s.block_count v c,
      ap (λ n. allocate_lowest s 0 n 0) (add-one s.block_count),
    )

    empty : ((inserted s 0 b).blocks 0).size ≡ 0
    empty = ground (arith, inserted_lem s 0 b 0)
