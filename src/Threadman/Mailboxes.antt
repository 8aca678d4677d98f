-- ===== src/Threadman/Mailboxes.antt =====
-- thmsgbx of src/iop/threadman.cpp: message boxes. A message is the address of its header, whose
-- first word is the link and whose next byte is the priority.
use ps2bios_rebuild.Common.{
  ℕ, zero, suc, ◌+◌, ◌/◌, ◌%◌, Bool, true, false, not, Option, none, some, ltb, leb, ◌==◌,
  if◌then◌else◌, update, add32, sub32, bit_and,
}
use ps2bios_rebuild.Threadman.Types.{
  Mailbox, Kernel, on_mbx, nobody, empty_queue, mailbox_count, running, illegal_context,
  illegal_attr, no_memory, unknown_mbxid, wait_delete, mbx_no_msg,
}
use ps2bios_rebuild.Threadman.Ids.{mailbox_of, make_id, first_unused, next_generation}
use ps2bios_rebuild.Threadman.Ready.{set_thread}
use ps2bios_rebuild.Threadman.Switch.{
  Outcome, answers, never, and_then, then_answer, block_current, wake,
}
use ps2bios_rebuild.Threadman.Semas.{join, by_thread_priority}

pub record MailboxParameters : Type 0 where
  pub attr : ℕ
  pub option : ℕ

pub record MailboxInfo : Type 0 where
  pub attr : ℕ
  pub option : ℕ
  pub waiters : ℕ
  pub messages : ℕ
  pub top : ℕ

abbrev pub set_mailbox : Kernel → ℕ → Mailbox → Kernel
set_mailbox k m r = record k { mailboxes = update k.mailboxes m r }

-- Message->next and Message->priority.
abbrev pub next_message : (ℕ → ℕ) → ℕ → ℕ
next_message memory message = memory message

abbrev pub message_priority : (ℕ → ℕ) → ℕ → ℕ
message_priority memory message = memory (message + 4) % 256

unfoldable pub create_mbx : Kernel → Bool → MailboxParameters → ℕ × Kernel
create_mbx k interrupted p =
    if interrupted
    then (illegal_context, k)
    else if not (bit_and p.attr 0xFFFFFFFA == 0)
    then (illegal_attr, k)
    else elim (first_unused (λ j. (k.mailboxes j).in_use) mailbox_count 0) [
      | none ↦ (no_memory, k)
      | some m ↦
          let generation = next_generation (k.mailboxes m).generation in
          (
            make_id m generation,
            set_mailbox k m (record {
              in_use = true;
              generation = generation;
              attr = p.attr;
              option = p.option;
              waiters = empty_queue;
              waiter_count = 0;
              tail = 0;
              message_count = 0;
            }),
          )
    ]

-- The loop of a deletion, with fuel; every waiter is released. `never` if the fuel runs out.
unfoldable pub release_mailbox : ℕ → Kernel → ℕ → Outcome
release_mailbox zero k m = never
release_mailbox (suc n) k m =
    let waiter = (k.mailboxes m).waiters.head in
    let rest = and_then (wake k waiter wait_delete true) (λ k. release_mailbox n k m) in
    if waiter == nobody
    then answers 0 (set_mailbox k m (record (k.mailboxes m) { in_use = false }))
    else rest

-- `fuel` for the loop over the waiters.
unfoldable pub delete_mbx : ℕ → Kernel → Bool → ℕ → Outcome
delete_mbx fuel k interrupted id =
    if interrupted then answers illegal_context k else elim (mailbox_of k id) [
      | none ↦ answers unknown_mbxid k
      | some m ↦ release_mailbox fuel k m
    ]

-- The walk of a message of priority `p` past `n` messages from the one behind `previous`: where it
-- stops, and how many messages it has left.
unfoldable pub walk_messages : ℕ → (ℕ → ℕ) → ℕ → ℕ → ℕ × ℕ
walk_messages zero memory p previous = (previous, 0)
walk_messages (suc n) memory p previous =
    let rest = walk_messages n memory p (memory previous) in
    if leb (message_priority memory (memory previous)) p then rest else (previous, suc n)

-- `message` behind `previous`.
abbrev pub link_message : (ℕ → ℕ) → ℕ → ℕ → ℕ → ℕ
link_message memory previous message =
    update (update memory message (memory previous)) previous message

-- The memory, and the box's tail. MBA_MSPRI is bit 2 of the attributes, and `count` is how many
-- messages are queued.
unfoldable pub queue_message : (ℕ → ℕ) → ℕ → ℕ → ℕ → ℕ → (ℕ → ℕ) × ℕ
queue_message memory attr count tail message =
    let (previous, left) = walk_messages count memory (message_priority memory message) tail in
    if tail == 0
    then (update memory message message, message)
    else if attr / 4 % 2 == 0
    then (link_message memory tail message, message)
    else (link_message memory previous message, if left == 0 then message else tail)

-- The first message, the memory, and the box's tail.
unfoldable pub dequeue_message : (ℕ → ℕ) → ℕ → ℕ × (ℕ → ℕ) × ℕ
dequeue_message memory tail =
    let first = memory tail in
    if first == tail then (first, memory, 0) else (first, update memory tail (memory first), tail)

-- A message straight to the waiter that it is for.
unfoldable pub hand_message : Kernel → ℕ → ℕ → Kernel
hand_message k waiter message =
    let out = (k.threads waiter).wait_out in
    if out == 0 then k else record k { memory = update k.memory out message }

unfoldable pub store_message : Kernel → ℕ → ℕ → Kernel
store_message k m message =
    let r = k.mailboxes m in
    let (memory, tail) = queue_message k.memory r.attr r.message_count r.tail message in
    set_mailbox (record k { memory = memory }) m
      (record r { tail = tail; message_count = add32 r.message_count 1 })

unfoldable pub send_mbx : Kernel → ℕ → ℕ → Bool → Outcome
send_mbx k id message from_interrupt = elim (mailbox_of k id) [
  | none ↦ answers unknown_mbxid k
  | some m ↦
      let waiter = (k.mailboxes m).waiters.head in
      if waiter == nobody
      then answers 0 (store_message k m message)
      else then_answer (wake (hand_message k waiter message) waiter 0 from_interrupt) 0
]

unfoldable pub send_mbx_normal : Kernel → Bool → ℕ → ℕ → Outcome
send_mbx_normal k interrupted id message =
    if interrupted then answers illegal_context k else send_mbx k id message false

unfoldable pub send_mbx_interrupt : Kernel → Bool → ℕ → ℕ → Outcome
send_mbx_interrupt k interrupted id message =
    if not interrupted then answers illegal_context k else send_mbx k id message true

-- The first message of box `m` goes to the address `received`.
unfoldable pub take_message : Kernel → ℕ → ℕ → Kernel
take_message k m received =
    let r = k.mailboxes m in
    let (message, memory, tail) = dequeue_message k.memory r.tail in
    set_mailbox (record k { memory = update memory received message }) m
      (record r { tail = tail; message_count = sub32 r.message_count 1 })

unfoldable pub wait_in_mailbox : Kernel → ℕ → ℕ → ℕ → Outcome
wait_in_mailbox k m id received =
    let k = set_thread k k.current (record (running k) { wait_out = received }) in
    let r = k.mailboxes m in
    elim (join k (by_thread_priority r.attr) r.waiters) [
      | none ↦ never
      | some (l, q) ↦
          let joined = record r { waiters = q; waiter_count = add32 r.waiter_count 1 } in
          block_current (set_mailbox (record k { links = l }) m joined) on_mbx id
    ]

unfoldable pub receive_mbx : Kernel → Bool → ℕ → ℕ → Outcome
receive_mbx k interrupted received id =
    if interrupted then answers illegal_context k else elim (mailbox_of k id) [
      | none ↦ answers unknown_mbxid k
      | some m ↦
          if ltb 0 (k.mailboxes m).message_count
          then answers 0 (take_message k m received)
          else wait_in_mailbox k m id received
    ]

unfoldable pub poll_mbx : Kernel → ℕ → ℕ → ℕ × Kernel
poll_mbx k received id = elim (mailbox_of k id) [
  | none ↦ (unknown_mbxid, k)
  | some m ↦
      if (k.mailboxes m).message_count == 0 then (mbx_no_msg, k) else (0, take_message k m received)
]

unfoldable pub refer_mbx_status : Kernel → ℕ → Option MailboxInfo
refer_mbx_status k id = elim (mailbox_of k id) [
  | none ↦ none
  | some m ↦
      let r = k.mailboxes m in
      some (record {
        attr = r.attr;
        option = r.option;
        waiters = r.waiter_count;
        messages = r.message_count;
        top = if r.tail == 0 then 0 else k.memory r.tail;
      })
]
