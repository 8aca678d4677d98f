-- ===== src/Threadman/HandOver.antt =====
-- A thread that waits in src/iop/threadman.cpp gives the processor to the best thread that is ready.
use ps2bios_rebuild.Common.{
  ℕ, zero, suc, ◌+◌, ◌*◌, if_ind, lowest_bit, ◌<◌, ◌==◌, ◌≡◌, ◌≢◌, refl, sym, ap, ◌∙◌, inl, inr,
  arith, List, [], ◌∷◌, true, update, subst, some,
}
use ps2bios_rebuild.Threadman.Types.{Kernel, ready, wait, WaitType, nobody, running, state_code}
use ps2bios_rebuild.Threadman.Lists.{Absent, IsQueue}
use ps2bios_rebuild.Threadman.Ready.{
  set_thread, priority_of, pop_ready, pick, pick_from, unmark_empty,
}
use ps2bios_rebuild.Threadman.Switch.{
  set_pending, should_preempt, new_context, switch_now, block_current,
}
use ps2bios_rebuild.Threadman.Scheduler.{AllAt, Holds}
use ps2bios_rebuild.Threadman.Moves.{pick-Holds}
use ps2bios_rebuild.Threadman.Choice.{
  Settled, Due, Scheduled, Absent-not_ready, run-ne-ready, only_there,
}
use ps2bios_rebuild.Threadman.Blocking.{trapped, Absent-Holds, new_context-Scheduled}

pub wait-ne-ready : wait ≢ ready
wait-ne-ready e = let f : 4 ≡ 2 = ap state_code e in absurd (omega (arith, f))

should_preempt_lem : (t : Kernel) → t.pending ≢ t.current → should_preempt t ≡ true
unfolding should_preempt
should_preempt_lem t h = ground arith

pop_ready_keeps :
    (k : Kernel) (p : ℕ)
    → ((pop_ready k p).1.threads ≡ k.threads) × ((pop_ready k p).1.current ≡ k.current)
unfolding pop_ready unmark_empty
pop_ready_keeps k p = (ground arith, ground arith)

pick_from_keeps :
    (n w : ℕ) (k : Kernel)
    → ((pick_from n w k).1.threads ≡ k.threads) × ((pick_from n w k).1.current ≡ k.current)
unfolding pick_from
pick_from_keeps zero w k = (refl, refl)
pick_from_keeps (suc n) w k =
    if_ind {A = ℕ × Kernel} (λ r. (r.1.threads ≡ k.threads) × (r.1.current ≡ k.current))
      (k.ready_bits w == 0) (λ e. pick_from_keeps n (suc w) k)
      (λ e. pop_ready_keeps k (w * 32 + lowest_bit 32 (k.ready_bits w)))

pick_keeps : (k : Kernel) → ((pick k).1.threads ≡ k.threads) × ((pick k).1.current ≡ k.current)
unfolding pick
pick_keeps k = pick_from_keeps 4 0 k

-- A state from which `pick` chose the thread `x` of priority `p`.
picked-Scheduled :
    {k : Kernel} {rq : ℕ → List ℕ} (p x : ℕ) (ys : List ℕ)
    → Holds k rq
    → ((j : ℕ) → priority_of k j < 128)
    → k.current ≢ nobody
    → ((j : ℕ) → Absent k.current (rq j))
    → rq p ≡ x ∷ ys
    → (pick k).0 ≡ x
    → Holds (pick k).1 (update rq p ys)
    → let t = set_pending (pick k).1 (pick k).0 in
      Scheduled t (update rq p ys) × Due t (update rq p ys)
picked-Scheduled {k} {rq} p x ys v r c n e f h =
    let t = set_pending (pick k).1 (pick k).0 in
    let keep = pick_keeps k in
    let a : AllAt k p (x ∷ ys) = subst (AllAt k p) e (v.queued.members p) in
    let w : IsQueue k.links (k.ready_queue p) (x ∷ ys) =
      subst (IsQueue k.links (k.ready_queue p)) e (v.queued.queues p) in
    let b : Absent k.current (x ∷ ys) = subst (Absent k.current) e (n p) in
    let due : Due t (update rq p ys) = record {
      somebody = λ g. w.links.0 (sym f ∙ g);
      other = λ g. b.0 (sym keep.1 ∙ sym g ∙ f);
      is_ready = ap (λ u. (u (pick k).0).state) keep.0 ∙ ap (λ i. (k.threads i).state) f ∙ a.1;
      apart = λ j.
          subst (λ i. Absent i (update rq p ys j)) (sym f)
            (subst (λ q. Absent x (update rq q ys j)) a.0 (only_there x [] ys v (ap rq a.0 ∙ e) j));
    } in
    (
      record {
        holds = record {
          queued = record { queues = h.queued.queues; members = h.queued.members };
          bitmap = record { marks = h.bitmap.marks; words = h.bitmap.words };
        };
        range = λ j. subst (λ u. (u j).current_priority < 128) (sym keep.0) (r j);
        thread = λ g. c (sym keep.1 ∙ g);
        choice = inr due;
      },
      due,
    )

-- The running thread, waiting.
abbrev pub waiting : Kernel → WaitType → ℕ → Kernel
waiting k type wait_id =
    set_thread k k.current
      (record (running k) { state = wait; wait_type = type; wait_id = wait_id })

block_current_lem :
    (k : Kernel) (type : WaitType) (wait_id : ℕ)
    → let w = waiting k type wait_id in
      trapped (block_current k type wait_id) ≡ some (set_pending (pick w).1 (pick w).0)
unfolding block_current switch_now
block_current_lem k type wait_id = refl

-- The running thread, when it waits, traps in a state with a switch due to the first thread `x` of
-- the best priority `p` that has one, if any has; and the hook then makes `x` run.
pub block_current_hands_over :
    {k : Kernel} {rq : ℕ → List ℕ} (type : WaitType) (wait_id frame q : ℕ)
    → Scheduled k rq
    → Settled k
    → q < 128
    → rq q ≢ []
    → (t : Kernel) × (p : ℕ) × (x : ℕ) × (ys : List ℕ) × (trapped (block_current k type wait_id)
        ≡ some t)
      × (rq p ≡ x ∷ ys)
      × ((j : ℕ) → j < p → rq j ≡ [])
      × (should_preempt t ≡ true)
      × ((new_context t frame).1.current ≡ x)
      × (((new_context t frame).1.threads k.current).state ≡ wait)
      × Scheduled (new_context t frame).1 (update rq p ys)
      × Settled (new_context t frame).1
block_current_hands_over {k} {rq} type wait_id frame q v s b ne =
    let w = waiting k type wait_id in
    let n : (j : ℕ) → Absent k.current (rq j) = λ j.
      Absent-not_ready k j k.current (rq j) (λ e. run-ne-ready (sym s.runs ∙ e))
        (v.holds.queued.members j) in
    let h : Holds w rq = Absent-Holds k.current _ n v.holds in
    elim (pick-Holds h) [
      | inl (f, e) ↦ absurd (ne (f q b))
      | inr (p, x, ys, l, e, f, g, i) ↦
          let t = set_pending (pick w).1 (pick w).0 in
          let keep = pick_keeps w in
          let r = picked-Scheduled p x ys h (λ j. range j) v.thread n e g i in
          let m = new_context-Scheduled frame r.0 r.1 in
          let state : (t.threads t.current).state ≡ wait =
            ap (λ u. (u t.current).state) keep.0 ∙ ap (λ c. (w.threads c).state) keep.1 ∙ waits in
          (
            t,
            p,
            x,
            ys,
            block_current_lem k type wait_id,
            e,
            f,
            should_preempt_lem t r.1.other,
            m.1 ∙ g,
            ap (λ c. ((new_context t frame).1.threads c).state) (sym keep.1) ∙ m.3 ∙ state,
            m.4,
            m.5,
          )
    ]
  where
    range : (j : ℕ) → priority_of (waiting k type wait_id) j < 128
    range j = ground (arith, v.range j, v.range k.current)

    waits : ((waiting k type wait_id).threads k.current).state ≡ wait
    waits = ground arith
