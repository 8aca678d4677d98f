-- ===== src/Threadman/Semas.antt =====
-- thsemap of src/iop/threadman.cpp: semaphores.
use ps2bios_rebuild.Common.{
  ℕ, zero, suc, ◌%◌, Bool, true, false, not, Option, none, some, ◌==◌, if◌then◌else◌, update, add32,
  sub32, bit_and,
}
use ps2bios_rebuild.Threadman.Types.{
  Semaphore, Queue, Links, Kernel, on_sema, nobody, empty_queue, semaphore_count, is_positive,
  signed_lt, illegal_context, illegal_attr, no_memory, unknown_semid, wait_delete, sema_zero,
}
use ps2bios_rebuild.Threadman.Links.{enqueue, enqueue_by_priority}
use ps2bios_rebuild.Threadman.Ids.{semaphore_of, make_id, first_unused, next_generation}
use ps2bios_rebuild.Threadman.Ready.{priority_of}
use ps2bios_rebuild.Threadman.Switch.{
  Outcome, answers, never, and_then, then_answer, block_current, wake,
}

pub record SemaParameters : Type 0 where
  pub attr : ℕ
  pub option : ℕ
  pub initial : ℕ
  pub max : ℕ

pub record SemaInfo : Type 0 where
  pub attr : ℕ
  pub option : ℕ
  pub initial : ℕ
  pub max : ℕ
  pub current : ℕ
  pub waiters : ℕ

abbrev pub set_semaphore : Kernel → ℕ → Semaphore → Kernel
set_semaphore k s r = record k { semaphores = update k.semaphores s r }

abbrev pub set_count : Kernel → ℕ → ℕ → Kernel
set_count k s n = set_semaphore k s (record (k.semaphores s) { count = n })

unfoldable pub create_sema : Kernel → Bool → SemaParameters → ℕ × Kernel
create_sema k interrupted p =
    if interrupted
    then (illegal_context, k)
    else if not (bit_and p.attr 0xFFFFFEFE == 0)
    then (illegal_attr, k)
    else elim (first_unused (λ j. (k.semaphores j).in_use) semaphore_count 0) [
      | none ↦ (no_memory, k)
      | some s ↦
          let generation = next_generation (k.semaphores s).generation in
          (
            make_id s generation,
            set_semaphore k s (record {
              in_use = true;
              generation = generation;
              attr = p.attr;
              option = p.option;
              initial = p.initial;
              max = p.max;
              count = p.initial;
              waiters = empty_queue;
              waiter_count = 0;
            }),
          )
    ]

-- The loop of a deletion, with fuel; every waiter is released. `never` if the fuel runs out.
unfoldable pub release_sema : ℕ → Kernel → ℕ → Outcome
release_sema zero k s = never
release_sema (suc n) k s =
    let waiter = (k.semaphores s).waiters.head in
    let rest = and_then (wake k waiter wait_delete true) (λ k. release_sema n k s) in
    if waiter == nobody
    then answers 0 (set_semaphore k s (record (k.semaphores s) { in_use = false }))
    else rest

-- `fuel` for the loop over the waiters.
unfoldable pub delete_sema : ℕ → Kernel → Bool → ℕ → Outcome
delete_sema fuel k interrupted id =
    if interrupted then answers illegal_context k else elim (semaphore_of k id) [
      | none ↦ answers unknown_semid k
      | some s ↦ release_sema fuel k s
    ]

unfoldable pub signal_slot : Kernel → ℕ → Bool → Outcome
signal_slot k s from_interrupt =
    let r = k.semaphores s in
    if not (r.waiters.head == nobody)
    then then_answer (wake k r.waiters.head 0 from_interrupt) 0
    else answers 0 (if signed_lt r.count r.max then set_count k s (add32 r.count 1) else k)

unfoldable pub signal_sema : Kernel → ℕ → Bool → Outcome
signal_sema k id from_interrupt = elim (semaphore_of k id) [
  | none ↦ answers unknown_semid k
  | some s ↦ signal_slot k s from_interrupt
]

-- A thread into a list of waiters, by priority or behind the others.
unfoldable pub join : Kernel → Bool → Queue → Option (Links × Queue)
join k by_priority q =
    if by_priority
    then enqueue_by_priority k.links (priority_of k) q k.current
    else some (enqueue k.links q k.current)

-- SA_THPRI
abbrev pub by_thread_priority : ℕ → Bool
by_thread_priority attr = attr % 2 == 1

unfoldable pub wait_in_sema : Kernel → ℕ → ℕ → Outcome
wait_in_sema k s id =
    let r = k.semaphores s in
    elim (join k (by_thread_priority r.attr) r.waiters) [
      | none ↦ never
      | some (l, q) ↦
          let joined = record r { waiters = q; waiter_count = add32 r.waiter_count 1 } in
          block_current (set_semaphore (record k { links = l }) s joined) on_sema id
    ]

unfoldable pub wait_sema : Kernel → Bool → ℕ → Outcome
wait_sema k interrupted id =
    if interrupted then answers illegal_context k else elim (semaphore_of k id) [
      | none ↦ answers unknown_semid k
      | some s ↦
          if is_positive (k.semaphores s).count
          then answers 0 (set_count k s (sub32 (k.semaphores s).count 1))
          else wait_in_sema k s id
    ]

unfoldable pub poll_sema : Kernel → ℕ → ℕ × Kernel
poll_sema k id = elim (semaphore_of k id) [
  | none ↦ (unknown_semid, k)
  | some s ↦
      if is_positive (k.semaphores s).count
      then (0, set_count k s (sub32 (k.semaphores s).count 1))
      else (sema_zero, k)
]

unfoldable pub refer_sema_status : Kernel → ℕ → Option SemaInfo
refer_sema_status k id = elim (semaphore_of k id) [
  | none ↦ none
  | some s ↦
      let r = k.semaphores s in
      some (record {
        attr = r.attr;
        option = r.option;
        initial = r.initial;
        max = r.max;
        current = r.count;
        waiters = r.waiter_count;
      })
]
