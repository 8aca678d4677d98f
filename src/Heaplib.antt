-- ===== src/Heaplib.antt =====
-- src/iop/heaplib.cpp: the arena allocator of the IOP, ordinals 11 to 15. Memory is a function
-- from the address of a word to the word. An arena is four words, {magic, size, used, rover}, and a
-- block's header two, {next, size in units of 8 bytes}; an `int` is the 32 bits of it.
pub mod Pairs
pub mod Arena
pub mod Grants
pub mod Accounts
pub mod Prepared
pub mod Refusals
mod Tests
use ps2bios_rebuild.Common.{
  ℕ, zero, suc, ◌+◌, ◌-◌, ◌*◌, ◌/◌, ◌%◌, Bool, not, ◌&&◌, ◌||◌, ltb, leb, ◌==◌, if◌then◌else◌,
  update, add32, sub32, Option, none, some,
}

abbrev pub Words : Type 0
Words = ℕ → ℕ

-- kBadArena, kCorrupted, kOutOfRange and kNotOwned.
abbrev pub bad_arena : ℕ
bad_arena = 0xFFFFFFFC

abbrev pub corrupted : ℕ
corrupted = 0xFFFFFFFD

abbrev pub out_of_range : ℕ
out_of_range = 0xFFFFFFFE

abbrev pub not_owned : ℕ
not_owned = 0xFFFFFFFF

abbrev pub used_at : ℕ → ℕ
used_at a = a + 8

abbrev pub rover_at : ℕ → ℕ
rover_at a = a + 12

abbrev pub size_at : ℕ → ℕ
size_at p = p + 4

pub is_valid_arena : Words → ℕ → Bool
is_valid_arena m a = not (a == 0) && m a == sub32 a 1

abbrev pub first_block_of : ℕ → ℕ
first_block_of a = a + 16

-- Ordinal 11. A negative size is below 0x29 too.
pub heap_prepare : Words → ℕ → ℕ → Words
heap_prepare m memory size =
    if memory == 0 || ltb size 0x29 || leb 0x80000000 size
    then m
    else let units = (size - 16) / 8 in
      let first = first_block_of memory in
      let sentinel = first + 8 * (units - 1) in
      let m = update m memory (sub32 memory 1) in
      let m = update m (memory + 4) size in
      let m = update m (used_at memory) 0 in
      let m = update m (size_at first) (units - 1) in
      let m = update m first sentinel in
      let m = update m (size_at sentinel) 0 in
      let m = update m sentinel first in update m (rover_at memory) first

-- Ordinal 12.
pub heap_is_empty : Words → ℕ → ℕ
heap_is_empty m a =
    if not (is_valid_arena m a) then bad_arena else (if m (used_at a) == 0 then 1 else 0)

-- The units of a request, with those of its header.
pub request_units : ℕ → ℕ
request_units requested = add32 (if ltb requested 8 then 8 else requested) 7 / 8 + 1

-- The rover, the count and the tag of a block that is granted.
pub finish : Words → ℕ → ℕ → ℕ → ℕ → ℕ × Words
finish m a units prev p =
    let m = update m (rover_at a) prev in
    let m = update m (used_at a) (add32 (m (used_at a)) units) in (p + 8, update m p a)

-- An exact fit is unlinked, and a larger block split from its tail.
pub take_block : Words → ℕ → ℕ → ℕ → ℕ → ℕ × Words
take_block m a units prev p =
    if m (size_at p) == units
    then finish (update m prev (m p)) a units prev p
    else let left = m (size_at p) - units in
      let q = p + 8 * left in
      finish (update (update m (size_at p) left) (size_at q) units) a units prev q

-- The circuit, with fuel.
pub alloc_from : ℕ → Words → ℕ → ℕ → ℕ → Option (ℕ × Words)
alloc_from zero m a units prev = none
alloc_from (suc fuel) m a units prev =
    let p = m prev in
    let rest = alloc_from fuel m a units p in
    if leb units (m (size_at p))
    then some (take_block m a units prev p)
    else (if p == m (rover_at a) then some (0, m) else rest)

-- Ordinal 13.
pub heap_alloc : ℕ → Words → ℕ → ℕ → Option (ℕ × Words)
heap_alloc fuel m a requested =
    if not (is_valid_arena m a)
    then some (0, m)
    else alloc_from fuel m a (request_units requested) (m (rover_at a))

-- What the walk for a block at bp finds: a free block that it meets, or its predecessor.
pub data Bracket : Type 0 where
  meets : Bracket
  behind : ℕ → Bracket

pub bracket_from : ℕ → Words → ℕ → ℕ → Option Bracket
bracket_from zero m bp p = none
bracket_from (suc fuel) m bp p =
    let next = m p in
    let rest = bracket_from fuel m bp next in
    if bp == p || bp == next || (ltb p bp && ltb bp (p + 8 * m (size_at p)))
    then some meets
    else (if (if ltb p next then ltb p bp && ltb bp next else ltb p bp || ltb bp next)
        then some (behind p)
        else rest)

-- The block joins the free block behind it, or points to it.
pub join_next : Words → ℕ → ℕ → Words
join_next m bp next =
    if not (m (size_at next) == 0) && bp + 8 * m (size_at bp) == next
    then (let m' = update m (size_at bp) (add32 (m (size_at bp)) (m (size_at next))) in
        update m' bp (m' next))
    else update m bp next

-- The free block before it takes it in, or points to it.
pub join_previous : Words → ℕ → ℕ → Words
join_previous m bp p =
    if p + 8 * m (size_at p) == bp
    then (let m' = update m (size_at p) (add32 (m (size_at p)) (m (size_at bp))) in
        update m' p (m' bp))
    else update m p bp

pub release : Words → ℕ → ℕ → ℕ → ℕ × Words
release m a bp p =
    let next = m p in
    if not (m (size_at next) == 0) && ltb next (bp + 8 * m (size_at bp))
    then (corrupted, m)
    else let m = update m (used_at a) (sub32 (m (used_at a)) (m (size_at bp))) in
      let m = join_previous (join_next m bp next) bp p in (0, update m (rover_at a) p)

-- Ordinal 14.
pub heap_free : ℕ → Words → ℕ → ℕ → Option (ℕ × Words)
heap_free fuel m a ptr =
    let bp = sub32 ptr 8 in
    if not (is_valid_arena m a)
    then some (bad_arena, m)
    else (if ptr == 0 || ltb bp (first_block_of a) || leb (a + m (a + 4)) bp
        then some (out_of_range, m)
        else (if not (m bp == a)
            then some (not_owned, m)
            else elim (bracket_from fuel m bp (m (rover_at a))) [
              | none ↦ none
              | some b ↦ elim b [ meets ↦ some (corrupted, m) | behind p ↦ some (release m a bp p) ]
            ]))

-- Ordinal 15, for an arena whose size is at least 0x10.
pub heap_chunk_size : Words → ℕ → ℕ
heap_chunk_size m a = sub32 (sub32 ((m (a + 4) - 16) / 8) (m (used_at a))) 1 * 8 % 0x100000000
