-- ===== src/Threadman/Ids.antt =====
-- The ids of src/iop/threadman.cpp: the index of a pool's slot and the generation of its object.
use ps2bios_rebuild.Common.{
  ℕ, zero, suc, ◌+◌, ◌*◌, ◌/◌, ◌%◌, Bool, not, ◌||◌, Option, none, some, leb, ◌==◌, if◌then◌else◌,
  sub32,
}
use ps2bios_rebuild.Threadman.Types.{
  Kernel, thread_count, event_count, semaphore_count, mailbox_count,
}

unfoldable pub make_id : ℕ → ℕ → ℕ
make_id index generation = (index + 1) * 256 + generation

-- The slot that `id` names in a pool of `count`, of which slot `j` is in use if `in_use j`, with
-- generation `generation j`.
unfoldable pub slot_of : ℕ → (ℕ → Bool) → (ℕ → ℕ) → ℕ → Option ℕ
slot_of count in_use generation id =
    let index = sub32 (id / 256) 1 in
    if id == 0 || leb count index || not (in_use index) || not (generation index == id % 256)
    then none
    else some index

unfoldable pub thread_of : Kernel → ℕ → Option ℕ
thread_of k id = slot_of thread_count (λ j. (k.threads j).in_use) (λ j. (k.threads j).generation) id

unfoldable pub event_of : Kernel → ℕ → Option ℕ
event_of k id = slot_of event_count (λ j. (k.events j).in_use) (λ j. (k.events j).generation) id

unfoldable pub semaphore_of : Kernel → ℕ → Option ℕ
semaphore_of k id =
    slot_of semaphore_count (λ j. (k.semaphores j).in_use) (λ j. (k.semaphores j).generation) id

unfoldable pub mailbox_of : Kernel → ℕ → Option ℕ
mailbox_of k id =
    slot_of mailbox_count (λ j. (k.mailboxes j).in_use) (λ j. (k.mailboxes j).generation) id

unfoldable pub id_of : Kernel → ℕ → ℕ
id_of k index = make_id index (k.threads index).generation

-- for (k = at; k < at + n; k++): the first slot that is not in use.
unfoldable pub first_unused : (ℕ → Bool) → ℕ → ℕ → Option ℕ
first_unused in_use zero at = none
first_unused in_use (suc n) at =
    let rest = first_unused in_use n (suc at) in if in_use at then rest else some at

-- uint8_t generation++
unfoldable pub next_generation : ℕ → ℕ
next_generation g = (g + 1) % 256
