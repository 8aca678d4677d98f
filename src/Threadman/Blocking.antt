-- ===== src/Threadman/Blocking.antt =====
-- A thread that blocks in src/iop/threadman.cpp: the trap, and the hook that ends it.
use ps2bios_rebuild.Common.{
  ℕ, ◌==◌, ◌≡◌, ◌≢◌, refl, sym, ap, ◌∙◌, inl, inr, arith, List, [], ◌∷◌, false, Bool-cases,
  if◌then◌else◌, update, ◌||◌, Option, none, some,
}
use ps2bios_rebuild.Threadman.Types.{Thread, Kernel, run, nobody, running}
use ps2bios_rebuild.Threadman.Lists.{Absent}
use ps2bios_rebuild.Threadman.Ready.{set_thread, priority_of}
use ps2bios_rebuild.Threadman.Switch.{Outcome, traps, resolve_pending, new_context}
use ps2bios_rebuild.Threadman.Scheduler.{AllAt, Holds}
use ps2bios_rebuild.Threadman.Choice.{Settled, Due, Scheduled}

-- The state in which a call traps.
abbrev pub trapped : Outcome → Option Kernel
trapped (traps k rest) = some k
trapped _ = none

-- Any other threads, as long as those in the queues stay ready at their priority.
swap-Holds :
    {k : Kernel} {rq : ℕ → List ℕ} (f : ℕ → Thread)
    → ((p : ℕ) → AllAt k p (rq p) → AllAt (record k { threads = f }) p (rq p))
    → Holds k rq
    → Holds (record k { threads = f }) rq
swap-Holds {k} {rq} f g v = record {
  queued = record { queues = v.queued.queues; members = λ p. g p (v.queued.members p) };
  bitmap = record { marks = v.bitmap.marks; words = v.bitmap.words };
}

module _ (k : Kernel) (id : ℕ) (r : Thread) (p : ℕ) where
  -- A thread that is in no queue changes.
  Absent-AllAt : (xs : List ℕ) → Absent id xs → AllAt k p xs → AllAt (set_thread k id r) p xs
  Absent-AllAt [] n a = tt
  Absent-AllAt (x ∷ xs) n a =
      let ne : (x == id) ≡ false = let h = n.0 in ground arith in
      (
        ap (λ b. (if b then r else k.threads x).current_priority) ne ∙ a.0,
        ap (λ b. (if b then r else k.threads x).state) ne ∙ a.1,
        Absent-AllAt xs n.1 a.2,
      )

  -- A thread changes, but not in its priority and state.
  same-AllAt :
      (xs : List ℕ)
      → r.current_priority ≡ priority_of k id
      → r.state ≡ (k.threads id).state
      → AllAt k p xs
      → AllAt (set_thread k id r) p xs
  same-AllAt [] e f a = tt
  same-AllAt (x ∷ xs) e f a = elim (Bool-cases (x == id)) [
    | inl b ↦
        let g : x ≡ id = ground arith in
        (
          ap (λ b. (if b then r else k.threads x).current_priority) b
              ∙ e
              ∙ ap (priority_of k) (sym g)
              ∙ a.0,
          ap (λ b. (if b then r else k.threads x).state) b
              ∙ f
              ∙ ap (λ i. (k.threads i).state) (sym g)
              ∙ a.1,
          same-AllAt xs e f a.2,
        )
    | inr b ↦ (
      ap (λ b. (if b then r else k.threads x).current_priority) b ∙ a.0,
      ap (λ b. (if b then r else k.threads x).state) b ∙ a.1,
      same-AllAt xs e f a.2,
    )
  ]

pub Absent-Holds :
    {k : Kernel} {rq : ℕ → List ℕ} (id : ℕ) (r : Thread)
    → ((p : ℕ) → Absent id (rq p))
    → Holds k rq
    → Holds (set_thread k id r) rq
Absent-Holds {k} {rq} id r n v =
    swap-Holds (update k.threads id r) (λ p a. Absent-AllAt k id r p (rq p) (n p) a) v

same-Holds :
    {k : Kernel} {rq : ℕ → List ℕ} (id : ℕ) (r : Thread)
    → r.current_priority ≡ priority_of k id
    → r.state ≡ (k.threads id).state
    → Holds k rq
    → Holds (set_thread k id r) rq
same-Holds {k} {rq} id r e f v =
    swap-Holds (update k.threads id r) (λ p a. same-AllAt k id r p (rq p) e f a) v

-- The state that `new_context` leaves where a switch is due.
abbrev resumed : Kernel → ℕ → Kernel
resumed k frame =
    let k = set_thread k k.current (record (running k) { frame = frame }) in
    record (set_thread k k.pending (record (k.threads k.pending) { state = run })) {
      current = k.pending;
    }

new_context_lem :
    (k : Kernel) (frame : ℕ)
    → k.current ≢ nobody
    → k.pending ≢ nobody
    → k.pending ≢ k.current
    → new_context k frame ≡ ((k.threads k.pending).frame, resumed k frame)
unfolding new_context resolve_pending
new_context_lem k frame c sb o =
    let e : (k.current == nobody) ≡ false = ground arith in
    let f : (k.pending == nobody || k.pending == k.current) ≡ false = ground arith in
    let g : (k.pending == k.current) ≡ false = ground arith in rw (e, f, g)

resumed_threads :
    (k : Kernel) (frame j : ℕ)
    → k.pending ≢ k.current
    → let t = (resumed k frame).threads in
      ((t k.current).frame ≡ frame)
      × ((t k.current).state ≡ (k.threads k.current).state)
      × ((t k.pending).state ≡ run)
      × ((t j).current_priority ≡ priority_of k j)
resumed_threads k frame j o = (ground arith, ground arith, ground arith, ground arith)

-- Where a switch is due, `new_context` keeps the outgoing frame in the outgoing thread, answers the
-- frame of the thread that was chosen, and that thread runs, with no other switch due.
pub new_context-Scheduled :
    {k : Kernel} {rq : ℕ → List ℕ} (frame : ℕ)
    → Scheduled k rq
    → Due k rq
    → let (f, k') = new_context k frame in
      (f ≡ (k.threads k.pending).frame)
      × (k'.current ≡ k.pending)
      × ((k'.threads k.current).frame ≡ frame)
      × ((k'.threads k.current).state ≡ (k.threads k.current).state)
      × Scheduled k' rq
      × Settled k'
new_context-Scheduled {k} {rq} frame v w =
    let r = resumed k frame in
    let f = resumed_threads k frame k.current w.other in
    let s : Settled r = record { stays = inr refl; runs = f.2 } in
    let h = same-Holds k.current (record (running k) { frame = frame }) refl refl v.holds in
    let g = Absent-Holds k.pending _ w.apart h in
    let done : Scheduled r rq = record {
      holds = record {
        queued = record { queues = g.queued.queues; members = g.queued.members };
        bitmap = record { marks = g.bitmap.marks; words = g.bitmap.words };
      };
      range = λ j. let e = (resumed_threads k frame j w.other).3 in omega (arith, e, v.range j);
      thread = w.somebody;
      choice = inl s;
    } in
    rw (new_context_lem k frame v.thread w.somebody w.other) (refl, refl, f.0, f.1, done, s)
