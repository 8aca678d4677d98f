-- ===== src/Threadman/Preempt.antt =====
-- An interrupt's wake-up in src/iop/threadman.cpp: who is to run next, and where the others wait.
use ps2bios_rebuild.Common.{
  ℕ, ◌<◌, ◌==◌, ◌≡◌, ◌≢◌, ◌⊎◌, refl, sym, ap, inl, inr, arith, List, [], ◌∷◌, ◌++◌, true, false,
  Bool-cases, if◌then◌else◌, update, subst, ◌||◌, ◌∙◌,
}
use ps2bios_rebuild.Threadman.Types.{Kernel, ready, nobody}
use ps2bios_rebuild.Threadman.Lists.{Absent}
use ps2bios_rebuild.Threadman.Ready.{priority_of, make_ready, make_ready_first, take_off_ready}
use ps2bios_rebuild.Threadman.Switch.{set_pending, is_better, preempt_with, preempt_if_better}
use ps2bios_rebuild.Threadman.Moves.{make_ready-Holds, make_ready_first-Holds}
use ps2bios_rebuild.Threadman.Choice.{
  Settled, Due, Scheduled, Absent-not_ready, run-ne-ready, make_ready_keeps, make_ready_first_keeps,
  chosen-Scheduled,
}

-- The interrupted thread goes back before its peers, or the thread that was to run behind its own;
-- `id` leaves its queue and is the choice.
abbrev pub Preempted : Kernel → (ℕ → List ℕ) → ℕ → List ℕ → Kernel → Type 0
Preempted k rq id rest k' =
    (k'.pending ≡ id)
    × ((Settled k
          × Scheduled k' (
              update
                (update rq (priority_of k k.current) (k.current ∷ rq (priority_of k k.current)))
                (priority_of k id) rest))
        ⊎ (Due k rq
            × Scheduled k' (
                update
                  (update rq (priority_of k k.pending)
                    (rq (priority_of k k.pending) ++ k.pending ∷ []))
                  (priority_of k id) rest)))

-- `k'` is `k` after `id` was preferred to what was to run, if it is better, and `k` otherwise.
abbrev pub Preemption : Kernel → (ℕ → List ℕ) → ℕ → List ℕ → Kernel → Type 0
Preemption k rq id rest k' =
    ((is_better k id ≡ true) × Preempted k rq id rest k') ⊎ ((is_better k id ≡ false) × (k' ≡ k))

module _ (k : Kernel) (id : ℕ) where
  preempt_with-settled :
      (k.pending == nobody || k.pending == k.current) ≡ true
      → preempt_with k id ≡ set_pending (take_off_ready (make_ready_first k k.current) id) id
  unfolding preempt_with
  preempt_with-settled e =
      ap
        (λ b.
          set_pending
            (take_off_ready (if b then make_ready_first k k.current else make_ready k k.pending) id)
            id)
        e

  preempt_with-due :
      (k.pending == nobody || k.pending == k.current) ≡ false
      → preempt_with k id ≡ set_pending (take_off_ready (make_ready k k.pending) id) id
  unfolding preempt_with
  preempt_with-due e =
      ap
        (λ b.
          set_pending
            (take_off_ready (if b then make_ready_first k k.current else make_ready k k.pending) id)
            id)
        e

  is_better_lem :
      is_better k id ≡ true
      → (priority_of k id < priority_of k k.current)
        × (k.pending ≢ nobody → k.pending ≢ k.current → priority_of k id < priority_of k k.pending)
  unfolding is_better
  is_better_lem h = (ground arith, λ p o. ground arith)

module _ {k : Kernel} {rq : ℕ → List ℕ} (id : ℕ) (xs ys : List ℕ) (v : Scheduled k rq)
    (e : rq (priority_of k id) ≡ xs ++ id ∷ ys) (s : (k.threads id).state ≡ ready)
    (sb : id ≢ nobody) where
  Settled-Preempted :
      Settled k
      → priority_of k id < priority_of k k.current
      → Preempted k rq id
          (xs ++ ys)
          (set_pending (take_off_ready (make_ready_first k k.current) id) id)
  Settled-Preempted w b =
      let m = make_ready_first k k.current in
      let f = make_ready_first_keeps k k.current id in
      let apart : Absent k.current (rq (priority_of k k.current)) =
        Absent-not_ready k (priority_of k k.current) k.current _
          (λ h. run-ne-ready (sym w.runs ∙ h)) (v.holds.queued.members _) in
      let h = make_ready_first-Holds k.current v.holds v.thread (v.range _) apart in
      let ne : (priority_of k id == priority_of k k.current) ≡ false = ground arith in
      let other : id ≢ k.current = λ h. absurd (omega (arith, ap (priority_of k) h)) in
      (
        refl,
        inl (
          w,
          subst
              (λ p. Scheduled (set_pending (take_off_ready m id) id) (
                update
                  (update rq (priority_of k k.current) (k.current ∷ rq (priority_of k k.current))) p
                  (xs ++ ys)))
              f.0
              (chosen-Scheduled id xs ys h
                (λ j. let g = make_ready_first_keeps k k.current j in omega (arith, g.0, v.range j))
                (λ h. v.thread (sym f.1 ∙ h)) (λ h. other (h ∙ f.1)) sb (f.3 s) (rw (f.0, ne) e)),
        ),
      )

  Due-Preempted :
      Due k rq
      → priority_of k id < priority_of k k.pending
      → id ≢ k.current
      → Preempted k rq id (xs ++ ys) (set_pending (take_off_ready (make_ready k k.pending) id) id)
  Due-Preempted w b other =
      let m = make_ready k k.pending in
      let f = make_ready_keeps k k.pending id in
      let h = make_ready-Holds k.pending v.holds w.somebody (v.range _) (w.apart _) in
      let ne : (priority_of k id == priority_of k k.pending) ≡ false = ground arith in
      (
        refl,
        inr (
          w,
          subst
              (λ p. Scheduled (set_pending (take_off_ready m id) id) (
                update
                  (update rq (priority_of k k.pending)
                    (rq (priority_of k k.pending) ++ k.pending ∷ []))
                  p (xs ++ ys)))
              f.0
              (chosen-Scheduled id xs ys h
                (λ j. let g = make_ready_keeps k k.pending j in omega (arith, g.0, v.range j))
                (λ h. v.thread (sym f.1 ∙ h)) (λ h. other (h ∙ f.1)) sb (f.3 s) (rw (f.0, ne) e)),
        ),
      )

  preempt_with-Preempted :
      priority_of k id < priority_of k k.current
      → (Due k rq → priority_of k id < priority_of k k.pending)
      → Preempted k rq id (xs ++ ys) (preempt_with k id)
  preempt_with-Preempted b d = elim v.choice [
    | inl w ↦
        let t : (k.pending == nobody || k.pending == k.current) ≡ true = stay w.stays in
        subst (Preempted k rq id (xs ++ ys)) (sym (preempt_with-settled k id t))
          (Settled-Preempted w b)
    | inr w ↦
        let p = w.somebody in
        let o = w.other in
        let t : (k.pending == nobody || k.pending == k.current) ≡ false = ground arith in
        subst (Preempted k rq id (xs ++ ys)) (sym (preempt_with-due k id t))
          (Due-Preempted w (d w) (λ h. absurd (omega (arith, ap (priority_of k) h))))
  ]
    where
      stay :
          (k.pending ≡ nobody) ⊎ (k.pending ≡ k.current)
          → (k.pending == nobody || k.pending == k.current) ≡ true
      stay (inl h) = ground arith
      stay (inr h) = ground arith

  -- A thread that an interrupt made ready is the next to run exactly if it is better than the
  -- running thread and than the one already chosen; no thread is lost from the queues then, and
  -- otherwise nothing changes.
  pub preempt_if_better_lem : Preemption k rq id (xs ++ ys) (preempt_if_better k id)
  unfolding preempt_if_better
  preempt_if_better_lem = elim (Bool-cases (is_better k id)) [
    | inl h ↦ inl (
      h,
      subst (Preempted k rq id (xs ++ ys)) (ap (λ b. if b then preempt_with k id else k) (sym h)) (
          let f = is_better_lem k id h in preempt_with-Preempted f.0 (λ w. f.1 w.somebody w.other)),
    )
    | inr h ↦ inr (h, ap (λ b. if b then preempt_with k id else k) h)
  ]
