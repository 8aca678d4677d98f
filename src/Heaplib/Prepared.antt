-- ===== src/Heaplib/Prepared.antt =====
-- A fresh arena of src/iop/heaplib.cpp.
use ps2bios_rebuild.Common.{
  [], ◌∷◌, sym, subst, ℕ, ◌⊎◌, ◌+◌, ◌-◌, ◌*◌, ◌/◌, ◌%◌, ◌≤◌, ◌<◌, ◌≡◌, ◌≢◌, ◌==◌, ◌∙◌, inl, inr, ap,
  arith, true, false, ◌||◌, leb, ltb, sub32,
}
use ps2bios_rebuild.Heaplib.{
  Words, used_at, rover_at, size_at, is_valid_arena, heap_prepare, heap_is_empty, heap_chunk_size,
}
use ps2bios_rebuild.Heaplib.Arena.{IsArena}

module _ (m : Words) (a size : ℕ) (ne : a ≢ 0) (large : 0x29 ≤ size)
    (small : size < 0x80000000) where
  abbrev units : ℕ
  units = (size - 16) / 8

  abbrev sentinel : ℕ
  sentinel = a + 16 + 8 * (units - 1)

  prepared_lem :
      let u = heap_prepare m a size in
      (u a ≡ sub32 a 1)
      × (u (a + 4) ≡ size)
      × (u (used_at a) ≡ 0)
      × (u (rover_at a) ≡ a + 16)
      × (u (a + 16) ≡ sentinel)
      × (u sentinel ≡ a + 16)
      × (u (size_at (a + 16)) ≡ units - 1)
      × (u (size_at sentinel) ≡ 0)
  unfolding heap_prepare
  prepared_lem =
      let e : (a == 0 || ltb size 0x29 || leb 0x80000000 size) ≡ false = ground arith in
      let h : 3 ≤ (size - 16) / 8 = omega arith in
      rw (heap_prepare, e)
        (
          ground arith,
          ground arith,
          ground arith,
          ground arith,
          ground arith,
          ground arith,
          ground arith,
          ground arith,
        )

  outside : (j : ℕ) → (j < a) ⊎ (a + size ≤ j) → heap_prepare m a size j ≡ m j
  unfolding heap_prepare
  outside j h =
      let e : (a == 0 || ltb size 0x29 || leb 0x80000000 size) ≡ false = ground arith in
      rw (heap_prepare, e) (elim h [ inl l ↦ ground arith | inr l ↦ ground arith ])

  -- A fresh arena at a multiple of 8 is valid and empty: it has its magic and no units in use. Its
  -- first block starts behind the arena's header and reaches to the sentinel, which is the last of the
  -- arena's units. These two are its free list, the first one is the rover, and its size is what the
  -- arena reports as free. Memory outside the arena is as it was.
  pub heap_prepare-IsArena :
      a % 8 ≡ 0
      → let u = heap_prepare m a size in
        let first = a + 16 in
        let last = first + 8 * u (size_at first) in
        IsArena u a (last ∷ first ∷ [])
        × (u (size_at last) ≡ 0)
        × (u (rover_at a) ≡ first)
        × (u (a + 4) ≡ size)
        × (u a ≡ sub32 a 1)
        × (u (used_at a) ≡ 0)
        × (last + 8 ≤ a + size)
        × (a + size < last + 16)
        × (is_valid_arena u a ≡ true)
        × (heap_is_empty u a ≡ 1)
        × (heap_chunk_size u a ≡ 8 * u (size_at first))
        × ((j : ℕ) → (j < a) ⊎ (a + size ≤ j) → u j ≡ m j)
  unfolding is_valid_arena heap_is_empty heap_chunk_size
  heap_prepare-IsArena al =
      let f = prepared_lem in
      let u = heap_prepare m a size in
      let e : sentinel ≡ a + 16 + 8 * u (size_at (a + 16)) = omega (arith, f.6) in
      (
        subst (λ s. IsArena u a (s ∷ (a + 16) ∷ [])) e
            (record {
              ring = record {
                hops = (ap u f.3 ∙ f.4, (f.5, tt));
                closed = sym f.3;
                distinct = (((λ e. absurd (omega (arith, e, large))), tt), (tt, tt));
              };
              blocks = (
                (
                  omega arith,
                  omega arith,
                  omega (arith, f.1, large),
                  omega (arith, f.1, f.7, large),
                ),
                (
                  (
                    omega arith,
                    omega arith,
                    omega (arith, f.1, large),
                    omega (arith, f.1, f.6, large),
                  ),
                  tt,
                ),
              );
              disjoint = ((inr (omega (arith, large), omega (arith, f.6)), tt), (tt, tt));
              sentinel = inl f.7;
            }),
        subst (λ s. u (size_at s) ≡ 0) e f.7,
        f.3,
        f.1,
        f.0,
        f.2,
        omega (arith, large, e),
        omega (arith, large, e),
        ground (arith, f),
        ground (arith, f),
        ground (arith, f),
        outside,
      )
