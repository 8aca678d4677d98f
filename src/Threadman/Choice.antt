-- ===== src/Threadman/Choice.antt =====
-- Who is to run next in src/iop/threadman.cpp, beside the threads in the ready queues.
use ps2bios_rebuild.Common.{
  ℕ, ◌<◌, ◌==◌, ◌≡◌, ◌≢◌, ◌⊎◌, refl, sym, ap, ◌∙◌, inl, inr, arith, List, [], ◌∷◌, ◌++◌, Bool-cases,
  update, subst,
}
use ps2bios_rebuild.Threadman.Types.{Kernel, run, ready, nobody, state_code}
use ps2bios_rebuild.Threadman.Lists.{Absent, IsQueue}
use ps2bios_rebuild.Threadman.Unlink.{Distinct-append}
use ps2bios_rebuild.Threadman.Ready.{
  priority_of, link_ready, make_ready, make_ready_first, take_off_ready, mark_ready, unmark_empty,
}
use ps2bios_rebuild.Threadman.Switch.{set_pending}
use ps2bios_rebuild.Threadman.Scheduler.{AllAt, AllAt-Absent, Holds}
use ps2bios_rebuild.Threadman.Moves.{take_off_ready-Holds}

-- No switch is due: the running thread is the choice, and in no queue.
pub record Settled (k : Kernel) : Type 0 where
  pub stays : (k.pending ≡ nobody) ⊎ (k.pending ≡ k.current)
  pub runs : (k.threads k.current).state ≡ run

-- A switch is due to a thread that is ready, and no longer in its queue.
pub record Due (k : Kernel) (rq : ℕ → List ℕ) : Type 0 where
  pub somebody : k.pending ≢ nobody
  pub other : k.pending ≢ k.current
  pub is_ready : (k.threads k.pending).state ≡ ready
  pub apart : (p : ℕ) → Absent k.pending (rq p)

pub record Scheduled (k : Kernel) (rq : ℕ → List ℕ) : Type 0 where
  pub holds : Holds k rq
  pub range : (id : ℕ) → priority_of k id < 128
  pub thread : k.current ≢ nobody
  pub choice : Settled k ⊎ Due k rq

pub Absent-not_ready :
    (k : Kernel) (p x : ℕ) (zs : List ℕ) → (k.threads x).state ≢ ready → AllAt k p zs → Absent x zs
Absent-not_ready k p x [] h a = tt
Absent-not_ready k p x (z ∷ zs) h a =
    ((λ e. h (ap (λ i. (k.threads i).state) e ∙ a.1)), Absent-not_ready k p x zs h a.2)

pub run-ne-ready : run ≢ ready
run-ne-ready e = let f : 1 ≡ 2 = ap state_code e in absurd (omega (arith, f))

-- A thread is in the queue of its priority only.
pub only_there :
    {k : Kernel} {rq : ℕ → List ℕ} (id : ℕ) (xs ys : List ℕ)
    → Holds k rq
    → rq (priority_of k id) ≡ xs ++ id ∷ ys
    → (p : ℕ) → Absent id (update rq (priority_of k id) (xs ++ ys) p)
only_there {k} {rq} id xs ys v e p =
    elim (Bool-cases (p == priority_of k id))
      as (λ _. Absent id (update rq (priority_of k id) (xs ++ ys) p)) [
        | inl f ↦
            let w =
              subst (IsQueue k.links (k.ready_queue (priority_of k id))) e
                (v.queued.queues (priority_of k id)) in
            rw f (Distinct-append xs id ys w.distinct).3
        | inr f ↦
            let ne : priority_of k id ≢ p = ground arith in
            rw f (AllAt-Absent k p id (rq p) ne (v.queued.members p))
      ]

module _ (k : Kernel) (id j : ℕ) where
  pub make_ready_keeps :
      (priority_of (make_ready k id) j ≡ priority_of k j)
      × ((make_ready k id).current ≡ k.current)
      × ((make_ready k id).pending ≡ k.pending)
      × (((k.threads j).state ≡ ready) → ((make_ready k id).threads j).state ≡ ready)
  unfolding make_ready link_ready mark_ready
  make_ready_keeps = (ground arith, refl, refl, λ h. ground arith)

  pub make_ready_first_keeps :
      (priority_of (make_ready_first k id) j ≡ priority_of k j)
      × ((make_ready_first k id).current ≡ k.current)
      × ((make_ready_first k id).pending ≡ k.pending)
      × (((k.threads j).state ≡ ready) → ((make_ready_first k id).threads j).state ≡ ready)
  unfolding make_ready_first mark_ready
  make_ready_first_keeps = (ground arith, refl, refl, λ h. ground arith)

  pub take_off_ready_keeps :
      ((take_off_ready k id).threads ≡ k.threads) × ((take_off_ready k id).current ≡ k.current)
  unfolding take_off_ready unmark_empty
  take_off_ready_keeps = (ground arith, ground arith)

-- `id` taken off its queue for the choice.
pub chosen-Scheduled :
    {k : Kernel} {rq : ℕ → List ℕ} (id : ℕ) (xs ys : List ℕ)
    → Holds k rq
    → ((j : ℕ) → priority_of k j < 128)
    → k.current ≢ nobody
    → id ≢ k.current
    → id ≢ nobody
    → (k.threads id).state ≡ ready
    → rq (priority_of k id) ≡ xs ++ id ∷ ys
    → Scheduled (set_pending (take_off_ready k id) id) (update rq (priority_of k id) (xs ++ ys))
chosen-Scheduled {k} {rq} id xs ys v r c ne sb s e =
    let w = take_off_ready-Holds id xs ys v (r id) e in
    let f = take_off_ready_keeps k id id in
    record {
      holds = record {
        queued = record { queues = w.queued.queues; members = w.queued.members };
        bitmap = record { marks = w.bitmap.marks; words = w.bitmap.words };
      };
      range = λ j. subst (λ t. (t j).current_priority < 128) (sym f.0) (r j);
      thread = λ h. c (sym f.1 ∙ h);
      choice = inr (record {
        somebody = sb;
        other = λ h. ne (h ∙ f.1);
        is_ready = ap (λ t. (t id).state) f.0 ∙ s;
        apart = only_there id xs ys v e;
      });
    }
