-- ===== src/Threadman/Pick.antt =====
-- The pick of src/iop/threadman.cpp by its bitmap is the best queue that has a thread.
use ps2bios_rebuild.Common.{
  ℕ, zero, suc, ◌+◌, ◌*◌, ◌/◌, ◌%◌, ◌≤◌, ◌<◌, ◌==◌, ◌≡◌, ◌≢◌, ◌⊎◌, inl, inr, refl, ap, ◌∙◌, arith,
  true, false, Bool-cases, lt_cases, test_bit, lowest_bit, lowest_bit-test, test_bit-zero,
}
use ps2bios_rebuild.Threadman.Types.{Kernel, nobody}
use ps2bios_rebuild.Threadman.Ready.{pop_ready, pick_from, pick}
use ps2bios_rebuild.Threadman.Bitmap.{mark_of, BitmapIsTrue}

-- What the scan of the words from `w` on does.
abbrev Scanned : ℕ → Kernel → ℕ × Kernel → Type 0
Scanned w k r =
    (((p : ℕ) → w * 32 ≤ p → p < 128 → (k.ready_queue p).head ≡ nobody) × (r ≡ (nobody, k)))
    ⊎ ((p : ℕ) × (p < 128)
        × ((k.ready_queue p).head ≢ nobody)
        × ((j : ℕ) → w * 32 ≤ j → j < p → (k.ready_queue j).head ≡ nobody)
        × (r ≡ pop_ready k p))

pub unmarked_is_empty :
    {k : Kernel} (p : ℕ)
    → p < 128
    → BitmapIsTrue k
    → mark_of k p ≡ false
    → (k.ready_queue p).head ≡ nobody
unmarked_is_empty {k} p h v e = ground (arith, v.marks p h)

pub marked_is_not_empty :
    {k : Kernel} (p : ℕ)
    → p < 128
    → BitmapIsTrue k
    → mark_of k p ≡ true
    → (k.ready_queue p).head ≢ nobody
marked_is_not_empty {k} p h v e = ground (arith, v.marks p h)

-- A queue of word `w`.
mark_of-word :
    (k : Kernel) (w p : ℕ) → p / 32 ≡ w → mark_of k p ≡ test_bit (p % 32) (k.ready_bits w)
mark_of-word k w p e = ap (λ x. test_bit (p % 32) (k.ready_bits x)) e

module _ {k : Kernel} (v : BitmapIsTrue k) where
  zero_word :
      (w : ℕ)
      → k.ready_bits w ≡ 0
      → (p : ℕ) → w * 32 ≤ p
      → p < w * 32 + 32
      → p < 128
      → (k.ready_queue p).head ≡ nobody
  zero_word w e p h m b =
      unmarked_is_empty p b v
        (mark_of-word k w p (omega arith) ∙ ap (test_bit (p % 32)) e ∙ test_bit-zero (p % 32))

  found :
      (w : ℕ)
      → w < 4
      → k.ready_bits w ≢ 0
      → Scanned w k (pop_ready k (w * 32 + lowest_bit 32 (k.ready_bits w)))
  found w h ne =
      let t = lowest_bit-test 32 (k.ready_bits w) ne (v.words w h) in
      let b = lowest_bit 32 (k.ready_bits w) in
      let p = w * 32 + b in
      let at : mark_of k p ≡ true =
        mark_of-word k w p (omega (arith, t.1))
        ∙ ap (λ x. test_bit x (k.ready_bits w)) (omega (arith, t.1))
        ∙ t.0 in
      inr (
        p,
        omega (arith, t.1),
        marked_is_not_empty p (omega (arith, t.1)) v at,
        λ j m l.
            unmarked_is_empty j (omega (arith, t.1)) v
              (mark_of-word k w j (omega (arith, t.1)) ∙ t.2 (j % 32) (omega (arith, t.1))),
        refl,
      )

  skipped : (w : ℕ) (r : ℕ × Kernel) → k.ready_bits w ≡ 0 → Scanned (suc w) k r → Scanned w k r
  skipped w r e (inl (f, g)) = inl (
    λ p h b. elim (lt_cases p (w * 32 + 32)) [
      | inl m ↦ zero_word w e p h m b
      | inr m ↦ f p (omega arith) b
    ],
    g,
  )
  skipped w r e (inr (p, b, ne, f, g)) = inr (
    p,
    b,
    ne,
    λ j h l. elim (lt_cases j (w * 32 + 32)) [
      | inl m ↦ zero_word w e j h m (omega arith)
      | inr m ↦ f j (omega arith) l
    ],
    g,
  )

  pick_from-Scanned : (n w : ℕ) → w + n ≡ 4 → Scanned w k (pick_from n w k)
  unfolding pick_from
  pick_from-Scanned zero w h = inl (λ p m b. absurd (omega arith), refl)
  pick_from-Scanned (suc n) w h = elim (Bool-cases (k.ready_bits w == 0)) [
    | inl e ↦ rw e (skipped w _ (ground arith) (pick_from-Scanned n (suc w) (omega arith)))
    | inr e ↦ rw e (found w (omega arith) (ground arith))
  ]

-- Where the bitmap is true, `pick` takes the head of the best queue that has a thread, and answers
-- `nobody` with nothing changed only if all 128 queues are empty.
pub pick-best :
    {k : Kernel}
    → BitmapIsTrue k
    → (((p : ℕ) → p < 128 → (k.ready_queue p).head ≡ nobody) × (pick k ≡ (nobody, k)))
      ⊎ ((p : ℕ) × (p < 128)
          × ((k.ready_queue p).head ≢ nobody)
          × ((j : ℕ) → j < p → (k.ready_queue j).head ≡ nobody)
          × (pick k ≡ pop_ready k p))
unfolding pick
pick-best {k} v = elim (pick_from-Scanned v 4 0 (omega arith)) [
  | inl (f, g) ↦ inl (λ p h. f p (omega arith) h, g)
  | inr (p, b, ne, f, g) ↦ inr (p, b, ne, λ j h. f j (omega arith) h, g)
]
