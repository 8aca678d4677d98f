-- ===== src/Threadman/Bitmap.antt =====
-- The bitmap of src/iop/threadman.cpp says which of its 128 ready queues have a thread.
use ps2bios_rebuild.Common.{
  ℕ, ◌/◌, ◌%◌, ◌<◌, ◌==◌, ◌≡◌, ◌≢◌, inl, inr, refl, sym, ap, ◌∙◌, arith, if◌then◌else◌, not, true,
  false, Bool-cases, update, test_bit, clear_bit, test_bit-set_bit, test_bit-clear_bit,
  set_bit_bound, clear_bit_bound, Bool, subst,
}
use ps2bios_rebuild.Threadman.Types.{Kernel, nobody}
use ps2bios_rebuild.Threadman.Ready.{mark_ready, unmark_empty}

abbrev pub mark_of : Kernel → ℕ → Bool
mark_of k p = test_bit (p % 32) (k.ready_bits (p / 32))

abbrev pub Marked : Kernel → ℕ → Type 0
Marked k p = mark_of k p ≡ not ((k.ready_queue p).head == nobody)

abbrev pub Words : Kernel → Type 0
Words k = (w : ℕ) → w < 4 → k.ready_bits w < 4294967296

pub record BitmapIsTrue (k : Kernel) : Type 0 where
  pub marks : (p : ℕ) → p < 128 → Marked k p
  pub words : Words k

-- The bitmap is true of all queues but `p`.
pub record BitmapBut (k : Kernel) (p : ℕ) : Type 0 where
  pub marks : (j : ℕ) → j < 128 → j ≢ p → Marked k j
  pub words : Words k

mark_of-mark_ready :
    (k : Kernel) (p j : ℕ) → mark_of (mark_ready k p) j ≡ (if j == p then true else mark_of k j)
unfolding mark_ready
mark_of-mark_ready k p j = elim (Bool-cases (j / 32 == p / 32)) [
  | inl e ↦
      let w : j / 32 ≡ p / 32 = ground arith in
      rw e (test_bit-set_bit (j % 32) (p % 32) (k.ready_bits (p / 32)) ∙ same w)
  | inr e ↦ let f : (j == p) ≡ false = ground (arith, ap (λ x. x / 32)) in rw (e, f)
]
  where
    same :
        j / 32 ≡ p / 32
        → (if j % 32 == p % 32 then true else test_bit (j % 32) (k.ready_bits (p / 32)))
          ≡ (if j == p then true else mark_of k j)
    same w = ground (arith, ap (λ x. test_bit (j % 32) (k.ready_bits x)) w)

-- The bit of queue `p` cleared, whatever the queue.
abbrev unmarked : Kernel → ℕ → Kernel
unmarked k p = record k {
  ready_bits = update k.ready_bits (p / 32) (clear_bit (p % 32) (k.ready_bits (p / 32)));
}

mark_of-unmarked :
    (k : Kernel) (p j : ℕ) → mark_of (unmarked k p) j ≡ (if j == p then false else mark_of k j)
mark_of-unmarked k p j = elim (Bool-cases (j / 32 == p / 32)) [
  | inl e ↦
      let w : j / 32 ≡ p / 32 = ground arith in
      rw e (test_bit-clear_bit (j % 32) (p % 32) (k.ready_bits (p / 32)) ∙ same w)
  | inr e ↦ let f : (j == p) ≡ false = ground (arith, ap (λ x. x / 32)) in rw (e, f)
]
  where
    same :
        j / 32 ≡ p / 32
        → (if j % 32 == p % 32 then false else test_bit (j % 32) (k.ready_bits (p / 32)))
          ≡ (if j == p then false else mark_of k j)
    same w = ground (arith, ap (λ x. test_bit (j % 32) (k.ready_bits x)) w)

mark_ready_queue : (k : Kernel) (p : ℕ) → (mark_ready k p).ready_queue ≡ k.ready_queue
unfolding mark_ready
mark_ready_queue k p = refl

mark_ready-Words : (k : Kernel) (p : ℕ) → p < 128 → Words k → Words (mark_ready k p)
unfolding mark_ready
mark_ready-Words k p h b w m =
    let c =
      set_bit_bound 32 (p % 32) (k.ready_bits (p / 32)) (omega arith) (b (p / 32) (omega arith)) in
    ground (arith, b w m, c)

unmarked-Words : (k : Kernel) (p : ℕ) → p < 128 → Words k → Words (unmarked k p)
unmarked-Words k p h b w m =
    let c = clear_bit_bound (p % 32) (k.ready_bits (p / 32)) in
    ground (arith, b w m, b (p / 32) (omega arith), c)

-- Marking a queue that has a thread makes the bitmap true.
pub mark_ready-BitmapIsTrue :
    {k : Kernel} (p : ℕ)
    → p < 128
    → BitmapBut k p
    → (k.ready_queue p).head ≢ nobody
    → BitmapIsTrue (mark_ready k p)
mark_ready-BitmapIsTrue {k} p h v ne = record {
  marks = λ j m.
      mark_of-mark_ready k p j
      ∙ elim (Bool-cases (j == p))
          as (λ b.
            (if j == p then true else mark_of k j)
            ≡ not (((mark_ready k p).ready_queue j).head == nobody)) [
              | inl e ↦
                  let f : j ≡ p = ground arith in
                  rw (mark_ready_queue k p) (ground (arith, ap (λ i. (k.ready_queue i).head) f))
              | inr e ↦ rw (mark_ready_queue k p) (ground (arith, v.marks j m))
            ];
  words = mark_ready-Words k p h v.words;
}

unmark_empty_queue : (k : Kernel) (p : ℕ) → (unmark_empty k p).ready_queue ≡ k.ready_queue
unfolding unmark_empty
unmark_empty_queue k p = ground arith

unmark_empty-nobody :
    (k : Kernel) (p : ℕ) → (k.ready_queue p).head ≡ nobody → unmark_empty k p ≡ unmarked k p
unfolding unmark_empty
unmark_empty-nobody k p e = let f : ((k.ready_queue p).head == nobody) ≡ true = ground arith in rw f

unmark_empty-somebody :
    (k : Kernel) (p : ℕ) → (k.ready_queue p).head ≢ nobody → unmark_empty k p ≡ k
unfolding unmark_empty
unmark_empty-somebody k p e =
    let f : ((k.ready_queue p).head == nobody) ≡ false = ground arith in rw f

-- Where the queue was marked before a thread was taken off it, the bitmap is true again.
pub unmark_empty-BitmapIsTrue :
    {k : Kernel} (p : ℕ)
    → p < 128
    → BitmapBut k p
    → mark_of k p ≡ true
    → BitmapIsTrue (unmark_empty k p)
unmark_empty-BitmapIsTrue {k} p h v t = elim (Bool-cases ((k.ready_queue p).head == nobody)) [
  | inl e ↦ subst BitmapIsTrue (sym (unmark_empty-nobody k p (ground arith))) (record {
    marks = λ j m. mark_of-unmarked k p j ∙ cleared j m (ground arith);
    words = unmarked-Words k p h v.words;
  })
  | inr e ↦
      subst BitmapIsTrue (sym (unmark_empty-somebody k p (ground arith)))
        (record { marks = λ j m. kept j m e; words = v.words })
]
  where
    cleared :
        (j : ℕ)
        → j < 128
        → (k.ready_queue p).head ≡ nobody
        → (if j == p then false else mark_of k j) ≡ not ((k.ready_queue j).head == nobody)
    cleared j m e = elim (Bool-cases (j == p)) [
      | inl f ↦ let g : j ≡ p = ground arith in ground (arith, ap (λ i. (k.ready_queue i).head) g)
      | inr f ↦ ground (arith, v.marks j m)
    ]

    kept : (j : ℕ) → j < 128 → ((k.ready_queue p).head == nobody) ≡ false → Marked k j
    kept j m e = elim (Bool-cases (j == p)) [
      | inl f ↦ let g : j ≡ p = ground arith in subst (Marked k) (sym g) (rw e t)
      | inr f ↦ v.marks j m (ground arith)
    ]
