-- ===== src/Sysmem.antt =====
-- src/iop/sysmem.cpp: the IOP's memory manager. The record table is the array `blocks` with the
-- number of its live entries; a loop over it recurs on the rounds that are left.
pub mod Invariant
pub mod Placement
pub mod Scan
pub mod Allocate
pub mod Modes
pub mod Query
pub mod Release
pub mod Wrap
mod Tests
use ps2bios_rebuild.Common.{
  ℕ, zero, suc, ◌+◌, ◌-◌, ◌*◌, ◌/◌, ◌%◌, Bool, not, ◌&&◌, ◌||◌, Option, none, some, ltb, leb, ◌==◌,
  if◌then◌else◌, update, add32, sub32,
}

pub record Block : Type 0 where
  pub start : ℕ
  pub size : ℕ

pub record Gap : Type 0 where
  pub start : ℕ
  pub end : ℕ

pub record Sysmem : Type 0 where
  pub heap_low : ℕ
  pub heap_high : ℕ
  pub ram_size : ℕ
  pub blocks : ℕ → Block
  pub block_count : ℕ

abbrev pub heap_start : ℕ
heap_start = 0x00020000

abbrev pub default_ram_size : ℕ
default_ram_size = 0x00200000

abbrev pub heap_end : ℕ
heap_end = 0x001F0000

abbrev pub max_blocks : ℕ
max_blocks = 256

-- (x + kAlignment - 1) & ~(kAlignment - 1)
pub round_up : ℕ → ℕ
round_up size = add32 size 255 / 256 * 256

pub lower_bound_from : (ℕ → Block) → ℕ → ℕ → ℕ → ℕ
lower_bound_from blocks address zero i = i
lower_bound_from blocks address (suc n) i =
    if ltb (blocks i).start address then lower_bound_from blocks address n (suc i) else i

pub lower_bound : Sysmem → ℕ → ℕ
lower_bound s address = lower_bound_from s.blocks address s.block_count 0

abbrev pub contains : Block → ℕ → Bool
contains b address = leb b.start address && ltb (address - b.start) b.size

pub block_containing_from : (ℕ → Block) → ℕ → ℕ → ℕ → Option Block
block_containing_from blocks address zero i = none
block_containing_from blocks address (suc n) i =
    let rest = block_containing_from blocks address n (suc i) in
    if contains (blocks i) address
    then some (blocks i)
    else if ltb address (blocks i).start
    then none
    else rest

pub block_containing : Sysmem → ℕ → Option Block
block_containing s address = block_containing_from s.blocks address s.block_count 0

pub gap_before : Sysmem → ℕ → Gap
gap_before s index = record {
  start =
      if index == 0
      then s.heap_low
      else add32 (s.blocks (index - 1)).start (s.blocks (index - 1)).size;
  end = if index == s.block_count then s.heap_high else (s.blocks index).start;
}

-- for (i = block_count; i > index; --i) blocks[i] = blocks[i - 1];
pub shift_up : ℕ → ℕ → (ℕ → Block) → ℕ → Block
shift_up index zero blocks = blocks
shift_up index (suc i) blocks =
    if ltb index (suc i) then shift_up index i (update blocks (suc i) (blocks i)) else blocks

-- `none` for a full table.
pub insert_block : Sysmem → ℕ → Block → Option Sysmem
insert_block s index b =
    if s.block_count == max_blocks
    then none
    else some (record s {
      blocks = update (shift_up index s.block_count s.blocks) index b;
      block_count = s.block_count + 1;
    })

-- The answer of an insertion: the address, or 0 with nothing changed.
abbrev pub granted : Sysmem → ℕ → Option Sysmem → ℕ × Sysmem
granted s address none = (0, s)
granted s address (some t) = (address, t)

pub place : Sysmem → ℕ → Block → ℕ × Sysmem
place s index b = granted s b.start (insert_block s index b)

abbrev pub room : Gap → ℕ
room g = sub32 g.end g.start

-- mode 0: `n` gaps are left, from gap `i` upwards.
pub allocate_lowest : Sysmem → ℕ → ℕ → ℕ → ℕ × Sysmem
allocate_lowest s rounded zero i = (0, s)
allocate_lowest s rounded (suc n) i =
    let rest = allocate_lowest s rounded n (suc i) in
    if leb rounded (room (gap_before s i))
    then place s i (record { start = (gap_before s i).start; size = rounded })
    else rest

-- mode 1: gaps `i - 1` down to 0 are left.
pub allocate_highest : Sysmem → ℕ → ℕ → ℕ × Sysmem
allocate_highest s rounded zero = (0, s)
allocate_highest s rounded (suc i) =
    let rest = allocate_highest s rounded i in
    if leb rounded (room (gap_before s i))
    then place s i (record { start = sub32 (gap_before s i).end rounded; size = rounded })
    else rest

pub allocate_at : Sysmem → ℕ → ℕ → ℕ × Sysmem
allocate_at s rounded address =
    if not (address % 256 == 0)
      || ltb address s.heap_low
      || leb s.heap_high address
      || ltb (sub32 s.heap_high address) rounded
    then (0, s)
    else let index = lower_bound s address in
      let gap = gap_before s index in
      if ltb address gap.start || ltb (sub32 gap.end address) rounded
      then (0, s)
      else place s index (record { start = address; size = rounded })

-- Ordinal 4.
pub allocate : Sysmem → ℕ → ℕ → ℕ → ℕ × Sysmem
allocate s mode size address =
    if size == 0 || s.heap_low == 0
    then (0, s)
    else if mode == 2
    then allocate_at s (round_up size) address
    else if mode == 0
    then allocate_lowest s (round_up size) (s.block_count + 1) 0
    else if mode == 1
    then allocate_highest s (round_up size) (s.block_count + 1)
    else (0, s)

-- Ordinal 6.
pub mem_size : Sysmem → ℕ
mem_size s = s.ram_size

pub gap_containing : Sysmem → ℕ → Gap
gap_containing s address =
    let gap = gap_before s (lower_bound s address) in
    if leb gap.start address && ltb address gap.end then gap else record { start = 0; end = 0 }

abbrev pub free_mark : ℕ
free_mark = 0x80000000

-- x | kFreeMark
abbrev pub marked : ℕ → ℕ
marked x = x % 0x80000000 + free_mark

abbrev pub minus_one : ℕ
minus_one = 0xFFFFFFFF

-- Ordinal 9.
pub block_address : Sysmem → ℕ → ℕ
block_address s address = elim (block_containing s address) [
  | some b ↦ b.start
  | none ↦
      let gap = gap_containing s address in if gap.end == 0 then minus_one else marked gap.start
]

-- Ordinal 10.
pub block_size : Sysmem → ℕ → ℕ
block_size s address = elim (block_containing s address) [
  | some b ↦ b.size
  | none ↦
      let gap = gap_containing s address in
      if gap.end == 0 then minus_one else marked (sub32 gap.end gap.start)
]

-- for (j = i; j + 1 < block_count; ++j) blocks[j] = blocks[j + 1];
pub shift_down : ℕ → ℕ → (ℕ → Block) → ℕ → Block
shift_down zero j blocks = blocks
shift_down (suc n) j blocks = shift_down n (suc j) (update blocks j (blocks (suc j)))

-- The rounds of the search are what is left of the table from `i` on.
pub deallocate_from : Sysmem → ℕ → ℕ → ℕ → ℕ × Sysmem
deallocate_from s address zero i = (minus_one, s)
deallocate_from s address (suc n) i =
    let rest = deallocate_from s address n (suc i) in
    if (s.blocks i).start == address
    then (0, record s { blocks = shift_down n i s.blocks; block_count = s.block_count - 1 })
    else rest

-- Ordinal 5.
pub deallocate : Sysmem → ℕ → ℕ × Sysmem
deallocate s address =
    if not (address % 256 == 0) then (minus_one, s) else deallocate_from s address s.block_count 0

-- The entry. The table's old contents stay behind a count of 0.
pub module_start : Sysmem → ℕ → Sysmem
module_start s ram_size_byte =
    let ram_top = ram_size_byte / 256 * 256 in
    let high = if not (ram_top == 0) && ltb ram_top heap_end then ram_top else heap_end in
    record s {
      ram_size = if not (ram_top == 0) then ram_top else default_ram_size;
      heap_high = high;
      heap_low = if leb (heap_start + 256) high then heap_start else 0;
      block_count = 0;
    }
