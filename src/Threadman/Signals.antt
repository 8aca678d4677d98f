-- ===== src/Threadman/Signals.antt =====
-- An interrupt's signal to a semaphore of src/iop/threadman.cpp that threads wait for.
use ps2bios_rebuild.Common.{
  ℕ, ◌==◌, ◌≡◌, ◌≢◌, ap, ◌∙◌, arith, List, [], ◌∷◌, true, false, Bool, none, some,
}
use ps2bios_rebuild.Threadman.Types.{unknown_semid, Kernel, on_sema, nobody}
use ps2bios_rebuild.Threadman.Ids.{semaphore_of}
use ps2bios_rebuild.Threadman.Lists.{IsQueue}
use ps2bios_rebuild.Threadman.Ready.{priority_of}
use ps2bios_rebuild.Threadman.Switch.{
  answers, never, and_then, then_answer, wake, release, preempt_if_better,
}
use ps2bios_rebuild.Threadman.Semas.{signal_sema, signal_slot}
use ps2bios_rebuild.Threadman.Choice.{Scheduled}
use ps2bios_rebuild.Threadman.Preempt.{Preemption}
use ps2bios_rebuild.Threadman.Release.{AllWait, released, release_lem}
use ps2bios_rebuild.Threadman.Joins.{
  joined, released-Scheduled, released-waiters, released-Preemption,
}

signal_sema-slot :
    (k : Kernel) (id s : ℕ) (b : Bool)
    → semaphore_of k id ≡ some s
    → signal_sema k id b ≡ signal_slot k s b
unfolding signal_sema
signal_sema-slot k id s b e =
    ap (λ o. elim o [ none ↦ answers unknown_semid k | some s ↦ signal_slot k s b ]) e

signal_slot-wake :
    (k : Kernel) (s x : ℕ) (b : Bool)
    → (k.semaphores s).waiters.head ≡ x
    → x ≢ nobody
    → signal_slot k s b ≡ then_answer (wake k x 0 b) 0
unfolding signal_slot
signal_slot-wake k s x b h sb =
    let z : ((k.semaphores s).waiters.head == nobody) ≡ false = ground arith in
    rw z (ap (λ x. then_answer (wake k x 0 b) 0) h)

pub wake_interrupt :
    (k k' : Kernel) (x a : ℕ)
    → release k x a ≡ some k'
    → wake k x a true ≡ answers 0 (preempt_if_better k' x)
unfolding wake
wake_interrupt k k' x a r =
    ap (λ o. elim o [ none ↦ never | some k ↦ answers 0 (preempt_if_better k x) ]) r

signal_sema_lem :
    (k : Kernel) (id s x : ℕ)
    → semaphore_of k id ≡ some s
    → (k.semaphores s).waiters.head ≡ x
    → x ≢ nobody
    → (k.threads x).wait_type ≡ on_sema
    → semaphore_of k (k.threads x).wait_id ≡ some s
    → signal_sema k id true ≡ answers 0 (preempt_if_better (released k s x 0) x)
unfolding and_then
signal_sema_lem k id s x e h sb t f =
    signal_sema-slot k id s true e
    ∙ signal_slot-wake k s x true h sb
    ∙ ap (λ o. then_answer o 0) (wake_interrupt k (released k s x 0) x 0 (release_lem k s x 0 t f))

-- An interrupt's signal to a semaphore with waiters releases the first one: off the list, which
-- keeps the others in their order, with the count as it was, and last in the ready queue of its
-- priority. The scheduler is then in order, and the thread is the next to run if it is better than
-- the running one and than the one already chosen.
pub signal_sema_releases :
    {k : Kernel} {rq : ℕ → List ℕ} (id s x : ℕ) (ys : List ℕ)
    → Scheduled k rq
    → semaphore_of k id ≡ some s
    → IsQueue k.links (k.semaphores s).waiters (x ∷ ys)
    → AllWait k (x ∷ ys)
    → (k.threads x).wait_type ≡ on_sema
    → semaphore_of k (k.threads x).wait_id ≡ some s
    → (k' : Kernel) × (signal_sema k id true ≡ answers 0 (preempt_if_better k' x))
      × IsQueue k'.links (k'.semaphores s).waiters ys
      × ((k'.semaphores s).count ≡ (k.semaphores s).count)
      × Scheduled k' (joined k rq x)
      × Preemption k' (joined k rq x) x (rq (priority_of k x)) (preempt_if_better k' x)
signal_sema_releases {k} {rq} id s x ys v e w all t f =
    let k' = released k s x 0 in
    let sb = w.links.0 in
    let r = released-Scheduled s x 0 [] ys v w all all.0 sb in
    let l = released-waiters s x 0 [] ys v w all all.0 sb in
    (
      k',
      signal_sema_lem k id s x e w.head sb t f,
      l.0,
      l.1,
      r,
      released-Preemption s x 0 [] ys v w all all.0 sb,
    )
