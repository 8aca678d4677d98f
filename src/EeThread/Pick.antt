-- ===== src/EeThread/Pick.antt =====
-- The pick of src/kernel/thread.cpp: the head of the best queue that is not empty.
use ps2bios_rebuild.Common.{
  ℕ, zero, suc, ◌+◌, ◌-◌, ◌≤◌, ◌<◌, ◌==◌, ◌≡◌, ◌≢◌, ◌⊎◌, inl, inr, refl, arith, if◌then◌else◌, ltb,
  Option, none, some, Bool-cases, lt_cases, subst, ap, ◌∙◌,
}
use ps2bios_rebuild.EeThread.Types.{Queue, Kernel, queue_count, nobody}
use ps2bios_rebuild.EeThread.Tables.{queue_of, link_ready}
use ps2bios_rebuild.EeThread.Switch.{first_ready, pick_next}

-- Queues `q` to `q + n - 1` are empty.
abbrev pub AllEmpty : (ℕ → Queue) → ℕ → ℕ → Type 0
AllEmpty queues q n = (j : ℕ) → q ≤ j → j < q + n → (queues j).head ≡ nobody

-- What a scan of `n` queues from `q` on answers.
abbrev Scanned : (ℕ → Queue) → ℕ → ℕ → Option ℕ → Type 0
Scanned queues n q o =
    ((o ≡ none) × AllEmpty queues q n)
    ⊎ ((r : ℕ) × (o ≡ some r)
        × (q ≤ r)
        × (r < q + n)
        × ((queues r).head ≢ nobody)
        × ((j : ℕ) → q ≤ j → j < r → (queues j).head ≡ nobody))

extend :
    {P : ℕ → Type 0} (q r : ℕ)
    → P q
    → ((j : ℕ) → suc q ≤ j → j < r → P j)
    → (j : ℕ) → q ≤ j
    → j < r
    → P j
extend {P} q r p f j h k = elim (lt_cases q j) [
  | inl m ↦ f j m k
  | inr m ↦ let e : q ≡ j = omega arith in subst P e p
]

Scanned-suc :
    (queues : ℕ → Queue) (n q : ℕ) (o : Option ℕ)
    → (queues q).head ≡ nobody
    → Scanned queues n (suc q) o
    → Scanned queues (suc n) q o
Scanned-suc queues n q o e (inl (f, g)) =
    inl
      (f, extend {P = λ j. (queues j).head ≡ nobody} q (q + suc n) e (λ i a b. g i a (omega arith)))
Scanned-suc queues n q o e (inr (r, f, a, b, ne, g)) =
    inr (r, f, omega arith, omega arith, ne, extend {P = λ j. (queues j).head ≡ nobody} q r e g)

first_ready-Scanned : (queues : ℕ → Queue) (n q : ℕ) → Scanned queues n q (first_ready queues n q)
unfolding first_ready
first_ready-Scanned queues zero q = inl (refl, λ j h k. absurd (omega arith))
first_ready-Scanned queues (suc n) q = elim (Bool-cases ((queues q).head == nobody)) [
  | inl e ↦ rw e (Scanned-suc queues n q _ (ground arith) (first_ready-Scanned queues n (suc q)))
  | inr e ↦
      rw e (inr (q, refl, omega arith, omega arith, ground arith, λ j h k. absurd (omega arith)))
]

-- Where the scan starts is no higher than the best queue that is not empty.
pub record ScanIsSound (k : Kernel) : Type 0 where
  pub within : k.lowest_ready ≤ queue_count
  pub skipped : (j : ℕ) → j < k.lowest_ready → (k.ready_queue j).head ≡ nobody

-- The pick answers the head of the lowest-numbered queue that is not empty, takes nothing off,
-- and lets the next scan start there; it stops the kernel only if every queue is empty.
pub pick_next-best :
    {k : Kernel}
    → ScanIsSound k
    → ((pick_next k ≡ none) × ((j : ℕ) → j < queue_count → (k.ready_queue j).head ≡ nobody))
      ⊎ ((q : ℕ) × (q < queue_count)
          × ((k.ready_queue q).head ≢ nobody)
          × ((j : ℕ) → j < q → (k.ready_queue j).head ≡ nobody)
          × (pick_next k ≡ some ((k.ready_queue q).head, record k { lowest_ready = q }))
          × ScanIsSound (record k { lowest_ready = q }))
unfolding pick_next
pick_next-best {k} v =
    elim (first_ready-Scanned k.ready_queue (queue_count - k.lowest_ready) k.lowest_ready) [
      | inl (e, g) ↦
          inl (
            rw (e, pick_next),
            λ j h. all queue_count (λ i a b. g i a (omega (arith, v.within))) j h,
          )
      | inr (q, e, a, b, ne, g) ↦ inr (
        q,
        omega (arith, v.within),
        ne,
        all q g,
        rw (e, pick_next),
        record { within = omega (arith, v.within); skipped = all q g },
      )
    ]
  where
    all :
        (q : ℕ)
        → ((j : ℕ) → k.lowest_ready ≤ j → j < q → (k.ready_queue j).head ≡ nobody)
        → (j : ℕ) → j < q
        → (k.ready_queue j).head ≡ nobody
    all q g j h = elim (lt_cases j k.lowest_ready) [ inl m ↦ v.skipped j m | inr m ↦ g j m h ]

link_ready_lem :
    (k : Kernel) (id : ℕ)
    → let q = queue_of k id in
      ((link_ready k id).lowest_ready ≡ (if ltb q k.lowest_ready then q else k.lowest_ready))
      × ((j : ℕ) → j ≢ q → (link_ready k id).ready_queue j ≡ k.ready_queue j)
unfolding link_ready
link_ready_lem k id = (ground arith, λ j h. ground arith)

-- Linking a thread into its ready queue keeps the start of the scan sound.
pub link_ready-ScanIsSound : {k : Kernel} (id : ℕ) → ScanIsSound k → ScanIsSound (link_ready k id)
link_ready-ScanIsSound {k} id v =
    let f = link_ready_lem k id in
    record {
      within = ground (arith, f.0, v.within);
      skipped = λ j h.
          let ne : j ≢ queue_of k id = ground (arith, f.0) in
          let lt : j < k.lowest_ready = ground (arith, f.0) in
          ap (λ q. q.head) (f.1 j ne) ∙ v.skipped j lt;
    }
