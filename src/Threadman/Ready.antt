-- ===== src/Threadman/Ready.antt =====
-- The ready queues of src/iop/threadman.cpp and their bitmap.
use ps2bios_rebuild.Common.{
  ℕ, zero, suc, ◌+◌, ◌*◌, ◌/◌, ◌%◌, ◌==◌, if◌then◌else◌, update, set_bit, clear_bit, lowest_bit,
}
use ps2bios_rebuild.Threadman.Types.{Thread, Links, Queue, Kernel, ready, not_waiting, nobody}
use ps2bios_rebuild.Threadman.Links.{enqueue, unlink, pop_front, push_front}

abbrev pub set_thread : Kernel → ℕ → Thread → Kernel
set_thread k id r = record k { threads = update k.threads id r }

abbrev pub priority_of : Kernel → ℕ → ℕ
priority_of k id = (k.threads id).current_priority

-- Ready queue `p` after an operation on it.
abbrev pub with_ready : Kernel → ℕ → Links × Queue → Kernel
with_ready k p r = record k { links = r.0; ready_queue = update k.ready_queue p r.1 }

unfoldable pub mark_ready : Kernel → ℕ → Kernel
mark_ready k p = record k {
  ready_bits = update k.ready_bits (p / 32) (set_bit (p % 32) (k.ready_bits (p / 32)));
}

-- If queue `p` is empty, its bit is cleared.
unfoldable pub unmark_empty : Kernel → ℕ → Kernel
unmark_empty k p =
    if (k.ready_queue p).head == nobody
    then record k {
      ready_bits = update k.ready_bits (p / 32) (clear_bit (p % 32) (k.ready_bits (p / 32)));
    }
    else k

unfoldable pub link_ready : Kernel → ℕ → Kernel
link_ready k id =
    let p = priority_of k id in mark_ready (with_ready k p (enqueue k.links (k.ready_queue p) id)) p

abbrev pub set_ready : Kernel → ℕ → Kernel
set_ready k id = set_thread k id (record (k.threads id) { state = ready; wait_type = not_waiting })

unfoldable pub make_ready : Kernel → ℕ → Kernel
make_ready k id = link_ready (set_ready k id) id

unfoldable pub make_ready_first : Kernel → ℕ → Kernel
make_ready_first k id =
    let k = set_ready k id in
    let p = priority_of k id in
    mark_ready (with_ready k p (push_front k.links (k.ready_queue p) id)) p

unfoldable pub take_off_ready : Kernel → ℕ → Kernel
take_off_ready k id =
    let p = priority_of k id in
    unmark_empty (with_ready k p (unlink k.links (k.ready_queue p) id)) p

-- The head of ready queue `p`, taken off.
unfoldable pub pop_ready : Kernel → ℕ → ℕ × Kernel
pop_ready k p =
    let (id, l, q) = pop_front k.links (k.ready_queue p) in
    (id, unmark_empty (with_ready k p (l, q)) p)

-- The words of the bitmap from `w` on, `n` of them. A word that is not 0 has its lowest bit below 32.
unfoldable pub pick_from : ℕ → ℕ → Kernel → ℕ × Kernel
pick_from zero w k = (nobody, k)
pick_from (suc n) w k =
    let rest = pick_from n (suc w) k in
    if k.ready_bits w == 0 then rest else pop_ready k (w * 32 + lowest_bit 32 (k.ready_bits w))

unfoldable pub pick : Kernel → ℕ × Kernel
pick k = pick_from 4 0 k
