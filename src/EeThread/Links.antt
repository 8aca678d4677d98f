-- ===== src/EeThread/Links.antt =====
-- The doubly linked lists of src/kernel/thread.cpp, threaded through the thread table.
use ps2bios_rebuild.Common.{ℕ, ◌==◌, if◌then◌else◌, update, ◌≡◌, arith}
use ps2bios_rebuild.EeThread.Types.{ThreadRecord, Queue, nobody}

abbrev pub Table : Type 0
Table = ℕ → ThreadRecord

unfoldable pub set_next : Table → ℕ → ℕ → Table
set_next t id n = update t id (record (t id) { next = n })

unfoldable pub set_prev : Table → ℕ → ℕ → Table
set_prev t id p = update t id (record (t id) { prev = p })

module _ (t : Table) (i v j : ℕ) where
  pub set_next_next : (set_next t i v j).next ≡ (if j == i then v else (t j).next)
  unfolding set_next
  set_next_next = ground arith

  pub set_next_prev : (set_next t i v j).prev ≡ (t j).prev
  unfolding set_next
  set_next_prev = ground arith

  pub set_prev_next : (set_prev t i v j).next ≡ (t j).next
  unfolding set_prev
  set_prev_next = ground arith

  pub set_prev_prev : (set_prev t i v j).prev ≡ (if j == i then v else (t j).prev)
  unfolding set_prev
  set_prev_prev = ground arith

pub ruleset links = (set_next_next, set_next_prev, set_prev_next, set_prev_prev)

unfoldable pub enqueue : Table → Queue → ℕ → Table × Queue
enqueue t q id =
    let t = set_prev (set_next t id nobody) id q.tail in
    if q.tail == nobody
    then (t, record { head = id; tail = id })
    else (set_next t q.tail id, record q { tail = id })

-- The entry before `id`, or the head, takes its `next`.
unfoldable pub bypass_next : Table → Queue → ℕ → Table × Queue
bypass_next t q id =
    if (t id).prev == nobody
    then (t, record q { head = (t id).next })
    else (set_next t (t id).prev (t id).next, q)

-- The entry behind `id`, or the tail, takes its `prev`.
unfoldable pub bypass_prev : Table → Queue → ℕ → Table × Queue
bypass_prev t q id =
    if (t id).next == nobody
    then (t, record q { tail = (t id).prev })
    else (set_prev t (t id).next (t id).prev, q)

unfoldable pub unlink : Table → Queue → ℕ → Table × Queue
unlink t q id =
    let (t, q) = bypass_next t q id in
    let (t, q) = bypass_prev t q id in (set_prev (set_next t id nobody) id nobody, q)

-- The id that was taken off, or `nobody`.
unfoldable pub pop_front : Table → Queue → ℕ × Table × Queue
pop_front t q =
    if q.head == nobody then (nobody, t, q) else let (t, r) = unlink t q q.head in (q.head, t, r)
