-- ===== src/Heaplib/Tests.antt =====
-- Runs of src/iop/heaplib.cpp on an arena of 0x100 bytes, and the theorems there.
use ps2bios_rebuild.Common.{
  sub32, ◌+◌, ◌≤◌, ◌<◌, List, [], ◌∷◌, All, ℕ, ◌*◌, ◌≡◌, ◌≢◌, ◌⊎◌, refl, arith, true, none, some,
  Option,
}
use ps2bios_rebuild.Heaplib.{
  Words, used_at, size_at, rover_at, is_valid_arena, request_units, heap_prepare, heap_is_empty,
  heap_alloc, heap_free, heap_chunk_size, alloc_from, take_block, finish, bracket_from, release,
  join_next, join_previous,
}
use ps2bios_rebuild.Heaplib.Arena.{IsArena}
use ps2bios_rebuild.Heaplib.Accounts.{Granted, IsSmall, Rounds, heap_alloc-Granted}
use ps2bios_rebuild.Heaplib.Prepared.{heap_prepare-IsArena}

abbrev blank : Words
blank a = 0

abbrev arena : Words
arena = heap_prepare blank 0x1000 0x100

heap_prepare-IsArena_example :
    let first = 0x1000 + 16 in
    let last = first + 8 * arena (size_at first) in
    IsArena arena 0x1000 (last ∷ first ∷ [])
    × (arena (size_at last) ≡ 0)
    × (arena (rover_at 0x1000) ≡ first)
    × (arena (0x1000 + 4) ≡ 0x100)
    × (arena 0x1000 ≡ sub32 0x1000 1)
    × (arena (used_at 0x1000) ≡ 0)
    × (last + 8 ≤ 0x1000 + 0x100)
    × (0x1000 + 0x100 < last + 16)
    × (is_valid_arena arena 0x1000 ≡ true)
    × (heap_is_empty arena 0x1000 ≡ 1)
    × (heap_chunk_size arena 0x1000 ≡ 8 * arena (size_at first))
    × ((j : ℕ) → (j < 0x1000) ⊎ (0x1000 + 0x100 ≤ j) → arena j ≡ blank j)
heap_prepare-IsArena_example =
    heap_prepare-IsArena blank 0x1000 0x100 (omega arith) (omega arith) (omega arith) refl

-- The address of its sentinel, and of its first block.
abbrev arena_blocks : List ℕ
arena_blocks = 0x10F8 ∷ 0x1010 ∷ []

arena-IsArena : IsArena arena 0x1000 arena_blocks
unfolding heap_prepare
arena-IsArena = heap_prepare-IsArena_example.0

arena_is_valid : is_valid_arena arena 0x1000 ≡ true
unfolding heap_prepare is_valid_arena
arena_is_valid = refl

heap_alloc-Granted_example :
    (units : ℕ) × Rounds 20 units
    × (r : ℕ × Words) × (heap_alloc 4 arena 0x1000 20 ≡ some r)
    × (((r ≡ (0, arena)) × All (IsSmall arena units) arena_blocks)
        ⊎ Granted arena 0x1000 units arena_blocks r)
heap_alloc-Granted_example =
    heap_alloc-Granted 4 arena 0x1000 20 arena_blocks arena_is_valid arena-IsArena (omega arith)

-- The address of the block that is granted, and of none for an `alloc` that ran out of fuel.
abbrev outcome : Option (ℕ × Words) → ℕ × Words
outcome none = (0, blank)
outcome (some r) = r

runs :
    let r = outcome (heap_alloc 4 arena 0x1000 20) in
    let s = outcome (heap_free 4 r.1 0x1000 r.0) in
    (r.0 ≡ 0x10E0)
    × (heap_chunk_size r.1 0x1000 ≡ 200)
    × (s.0 ≡ 0)
    × (heap_is_empty s.1 0x1000 ≡ 1)
    × (heap_chunk_size s.1 0x1000 ≡ 232)
unfolding heap_prepare heap_alloc is_valid_arena alloc_from request_units take_block finish
    heap_free bracket_from release join_next join_previous heap_is_empty heap_chunk_size
runs = (refl, refl, refl, refl, refl)

refusal :
    heap_free 4 arena 0x1000 0x1020
    ≡ some (
      (outcome (heap_free 4 arena 0x1000 0x1020)).0,
      (outcome (heap_free 4 arena 0x1000 0x1020)).1,
    )
unfolding heap_free heap_prepare is_valid_arena bracket_from release
refusal = refl

refused_code : (outcome (heap_free 4 arena 0x1000 0x1020)).0 ≢ 0
unfolding heap_free heap_prepare is_valid_arena bracket_from release
refused_code = omega arith
