-- ===== src/Threadman/Links.antt =====
-- The doubly linked lists of src/iop/threadman.cpp, threaded through the pool of threads.
use ps2bios_rebuild.Common.{
  ℕ, zero, suc, Option, none, some, leb, ◌==◌, if◌then◌else◌, update, ◌≡◌, arith,
}
use ps2bios_rebuild.Threadman.Types.{Links, Queue, nobody, thread_count}

unfoldable pub set_next : Links → ℕ → ℕ → Links
set_next l id n = record l { next = update l.next id n }

unfoldable pub set_prev : Links → ℕ → ℕ → Links
set_prev l id p = record l { prev = update l.prev id p }

module _ (l : Links) (i v j : ℕ) where
  pub set_next_next : (set_next l i v).next j ≡ (if j == i then v else l.next j)
  unfolding set_next
  set_next_next = ground arith

  pub set_next_prev : (set_next l i v).prev j ≡ l.prev j
  unfolding set_next
  set_next_prev = ground arith

  pub set_prev_next : (set_prev l i v).next j ≡ l.next j
  unfolding set_prev
  set_prev_next = ground arith

  pub set_prev_prev : (set_prev l i v).prev j ≡ (if j == i then v else l.prev j)
  unfolding set_prev
  set_prev_prev = ground arith

unfoldable pub enqueue : Links → Queue → ℕ → Links × Queue
enqueue l q id =
    let l = set_prev (set_next l id nobody) id q.tail in
    if q.tail == nobody
    then (l, record { head = id; tail = id })
    else (set_next l q.tail id, record q { tail = id })

-- The loop of enqueueByPriority from `at` on, with fuel: the first entry of a worse priority than
-- `p`, or `nobody`. `none` means that the fuel ran out.
unfoldable pub first_worse : ℕ → Links → (ℕ → ℕ) → ℕ → ℕ → Option ℕ
first_worse zero l priority p at = none
first_worse (suc n) l priority p at =
    let rest = first_worse n l priority p (l.next at) in
    if at == nobody then some at else (if leb (priority at) p then rest else some at)

-- `id` follows the entry `p`, or is the head.
unfoldable pub follow : Links → Queue → ℕ → ℕ → Links × Queue
follow l q p id = if p == nobody then (l, record q { head = id }) else (set_next l p id, q)

-- `id` in front of `at`.
unfoldable pub link_before : Links → Queue → ℕ → ℕ → Links × Queue
link_before l q at id =
    let p = l.prev at in
    let (l, q) = follow (set_prev (set_next l id at) id p) q p id in (set_prev l at id, q)

-- `priority j` is the current priority of thread `j`. A list has no more entries than there are
-- threads, and the last step sees its end.
unfoldable pub enqueue_by_priority : Links → (ℕ → ℕ) → Queue → ℕ → Option (Links × Queue)
enqueue_by_priority l priority q id =
    elim (first_worse (suc thread_count) l priority (priority id) q.head) [
      | none ↦ none
      | some at ↦ some (if at == nobody then enqueue l q id else link_before l q at id)
    ]

-- The entry before `id`, or the head, takes its `next`.
unfoldable pub bypass_next : Links → Queue → ℕ → Links × Queue
bypass_next l q id =
    if l.prev id == nobody
    then (l, record q { head = l.next id })
    else (set_next l (l.prev id) (l.next id), q)

-- The entry behind `id`, or the tail, takes its `prev`.
unfoldable pub bypass_prev : Links → Queue → ℕ → Links × Queue
bypass_prev l q id =
    if l.next id == nobody
    then (l, record q { tail = l.prev id })
    else (set_prev l (l.next id) (l.prev id), q)

unfoldable pub unlink : Links → Queue → ℕ → Links × Queue
unlink l q id =
    let (l, q) = bypass_next l q id in
    let (l, q) = bypass_prev l q id in (set_prev (set_next l id nobody) id nobody, q)

-- The id that was taken off, or `nobody`.
unfoldable pub pop_front : Links → Queue → ℕ × Links × Queue
pop_front l q =
    if q.head == nobody then (nobody, l, q) else let (l, r) = unlink l q q.head in (q.head, l, r)

-- How makeReadyFirst puts a thread at the head.
unfoldable pub push_front : Links → Queue → ℕ → Links × Queue
push_front l q id =
    let l = set_next (set_prev l id nobody) id q.head in
    if q.head == nobody
    then (l, record { head = id; tail = id })
    else (set_prev l q.head id, record q { head = id })
