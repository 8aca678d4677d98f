-- ===== src/Threadman/Handles.antt =====
-- An id of src/iop/threadman.cpp names the object that it was given for, and no other.
use ps2bios_rebuild.Common.{
  ℕ, zero, suc, ◌+◌, ◌*◌, ◌/◌, ◌%◌, ◌≤◌, ◌<◌, ◌==◌, ◌≡◌, ◌≢◌, ◌↔◌, inl, inr, refl, sym, ap, ◌∙◌,
  arith, true, false, Bool, Bool-cases, ◌||◌, leb, if◌then◌else◌, none, some, sub32, bit_and, not,
  subst,
}
use ps2bios_rebuild.Threadman.Types.{Kernel, Semaphore, empty_queue, thread_count, semaphore_count}
use ps2bios_rebuild.Threadman.Ids.{
  make_id, slot_of, thread_of, semaphore_of, id_of, first_unused, next_generation,
}
use ps2bios_rebuild.Threadman.Semas.{SemaParameters, set_semaphore, create_sema}

some_inj : {i j : ℕ} → some i ≡ some j → i ≡ j
some_inj {i} e = ap (λ o. elim o [ none ↦ i | some x ↦ x ]) e

true-ne-false : true ≢ false
true-ne-false e =
    let g : zero ≡ suc zero = ap (λ b. if b then zero else suc zero) e in absurd (omega (arith, g))

none-ne-some : {i : ℕ} {A : Type 0} → none ≡ some i → A
none-ne-some {i} e =
    let f : true ≡ false = ap (λ o. elim o [ none ↦ true | some x ↦ false ]) e in
    absurd (true-ne-false f)

if_some : (b : Bool) {x i : ℕ} → (if b then none else some x) ≡ some i → (b ≡ false) × (x ≡ i)
if_some true e = none-ne-some e
if_some false e = (refl, some_inj e)

any_false :
    (a b c d : Bool)
    → (a || b || not c || not d) ≡ false
    → (a ≡ false) × (b ≡ false) × (c ≡ true) × (d ≡ true)
any_false false false true true e = (refl, refl, refl, refl)
any_false true b c d e = absurd (true-ne-false e)
any_false false true c d e = absurd (true-ne-false e)
any_false false false false d e = absurd (true-ne-false e)
any_false false false true false e = absurd (true-ne-false e)

module _ (count : ℕ) (in_use : ℕ → Bool) (generation : ℕ → ℕ) (i : ℕ) where
  pub slot_of-make_id :
      count ≤ 0xFFFF
      → i < count
      → in_use i ≡ true
      → generation i < 256
      → slot_of count in_use generation (make_id i (generation i)) ≡ some i
  unfolding slot_of make_id
  slot_of-make_id c h u g =
      let e : sub32 (((i + 1) * 256 + generation i) / 256) 1 ≡ i = omega arith in
      rw (e, u) (ground arith)

  slot_of-named :
      (id : ℕ)
      → count ≤ 0xFFFF
      → id < 4294967296
      → slot_of count in_use generation id ≡ some i
      → (i < count) × (in_use i ≡ true) × (id ≡ make_id i (generation i))
  unfolding slot_of make_id
  slot_of-named id c h e =
      let j = sub32 (id / 256) 1 in
      let f = if_some _ e in
      let g = any_false (id == 0) (leb count j) (in_use j) (generation j == id % 256) f.0 in
      let z = g.0 in
      let b = g.1 in
      let q : generation i ≡ id % 256 = ap generation (sym f.1) ∙ (let d = g.3 in ground arith) in
      (ground (arith, f.1), ap in_use (sym f.1) ∙ g.2, ground (arith, f.1, q))

-- An id below 2^32 names a thread exactly if it is the id that the thread's slot, which is in use,
-- now has.
pub thread_of_iff :
    (k : Kernel) (i id : ℕ)
    → id < 4294967296
    → ((j : ℕ) → (k.threads j).generation < 256)
    → (thread_of k id ≡ some i)
      ↔ ((i < thread_count) × ((k.threads i).in_use ≡ true) × (id ≡ id_of k i))
unfolding thread_of id_of
thread_of_iff k i id h g = (
  (λ e.
      slot_of-named thread_count (λ j. (k.threads j).in_use) (λ j. (k.threads j).generation) i id
        (omega arith) h e),
  (λ f.
      subst
        (λ id.
          slot_of thread_count (λ j. (k.threads j).in_use) (λ j. (k.threads j).generation) id
          ≡ some i)
        (sym f.2)
        (slot_of-make_id thread_count (λ j. (k.threads j).in_use) (λ j. (k.threads j).generation) i
          (omega arith) f.0 f.1 (g i))),
)

first_unused_lem :
    (in_use : ℕ → Bool) (n at i : ℕ)
    → first_unused in_use n at ≡ some i
    → (at ≤ i) × (i < at + n) × (in_use i ≡ false)
unfolding first_unused
first_unused_lem in_use zero at i e = none-ne-some e
first_unused_lem in_use (suc n) at i e = elim (Bool-cases (in_use at)) [
  | inl b ↦
      let f : first_unused in_use n (suc at) ≡ some i =
        ap (λ b. if b then first_unused in_use n (suc at) else some at) (sym b) ∙ e in
      let r = first_unused_lem in_use n (suc at) i f in
      (omega (arith, r.0), omega (arith, r.1), r.2)
  | inr b ↦
      let f : at ≡ i =
        some_inj (ap (λ b. if b then first_unused in_use n (suc at) else some at) (sym b) ∙ e) in
      (omega (arith, f), omega (arith, f), subst (λ i. in_use i ≡ false) f b)
]

next_generation_bound : (g : ℕ) → next_generation g < 256
unfolding next_generation
next_generation_bound g = omega arith

semaphore_of-made :
    (k : Kernel) (s g : ℕ)
    → s < semaphore_count
    → (k.semaphores s).in_use ≡ true
    → (k.semaphores s).generation ≡ g
    → g < 256
    → semaphore_of k (make_id s g) ≡ some s
unfolding semaphore_of
semaphore_of-made k s g h u e b =
    subst
      (λ g.
        slot_of semaphore_count (λ j. (k.semaphores j).in_use) (λ j. (k.semaphores j).generation)
          (make_id s g)
        ≡ some s)
      e
      (slot_of-make_id semaphore_count (λ j. (k.semaphores j).in_use)
        (λ j. (k.semaphores j).generation) s (omega arith) h u (omega (arith, e, b)))

-- The record of a semaphore that `create_sema` makes in slot `s`.
abbrev pub made_sema : Kernel → ℕ → SemaParameters → Semaphore
made_sema k s p = record {
  in_use = true;
  generation = next_generation (k.semaphores s).generation;
  attr = p.attr;
  option = p.option;
  initial = p.initial;
  max = p.max;
  count = p.initial;
  waiters = empty_queue;
  waiter_count = 0;
}

create_sema_lem :
    (k : Kernel) (p : SemaParameters) (s : ℕ)
    → bit_and p.attr 0xFFFFFEFE ≡ 0
    → first_unused (λ j. (k.semaphores j).in_use) semaphore_count 0 ≡ some s
    → create_sema k false p ≡ (
      make_id s (next_generation (k.semaphores s).generation),
      set_semaphore k s (made_sema k s p),
    )
unfolding create_sema
create_sema_lem k p s a e =
    let z : (bit_and p.attr 0xFFFFFEFE == 0) ≡ true = ground arith in rw (z, e) refl

-- A semaphore that is created takes a slot that was not in use, and its id names that slot, which
-- holds what was asked for; the other semaphores are as they were.
pub create_sema-semaphore_of :
    (k : Kernel) (p : SemaParameters) (s : ℕ)
    → bit_and p.attr 0xFFFFFEFE ≡ 0
    → first_unused (λ j. (k.semaphores j).in_use) semaphore_count 0 ≡ some s
    → let (id, k') = create_sema k false p in
      (semaphore_of k' id ≡ some s)
      × ((k.semaphores s).in_use ≡ false)
      × (k'.semaphores s ≡ made_sema k s p)
      × ((j : ℕ) → j ≢ s → k'.semaphores j ≡ k.semaphores j)
create_sema-semaphore_of k p s a e =
    let g = next_generation (k.semaphores s).generation in
    let u = first_unused_lem (λ j. (k.semaphores j).in_use) semaphore_count 0 s e in
    let k' = set_semaphore k s (made_sema k s p) in
    let same : k'.semaphores s ≡ made_sema k s p = ground arith in
    let named : semaphore_of k' (make_id s g) ≡ some s =
      semaphore_of-made k' s g (omega (arith, u.1)) (ap (λ r. r.in_use) same)
        (ap (λ r. r.generation) same) (next_generation_bound (k.semaphores s).generation) in
    rw (create_sema_lem k p s a e) (named, u.2, same, λ j h. ground arith)
