-- ===== src/Threadman/Switch.antt =====
-- The switch of src/iop/threadman.cpp. The trap of switchNow ends what a call does at once; it goes
-- on when its thread is resumed, with the answer that is then in the frame's $v0.
use ps2bios_rebuild.Common.{
  ℕ, zero, suc, ◌+◌, ◌*◌, ◌/◌, Bool, not, ◌&&◌, ◌||◌, Option, none, some, ltb, leb, ◌==◌,
  if◌then◌else◌, update, add32, sub32,
}
use ps2bios_rebuild.Threadman.Types.{
  Kernel, run, ready, wait, WaitType, not_waiting, delayed, on_sema, on_event, on_mbx, nobody,
  new_status, running,
}
use ps2bios_rebuild.Threadman.Links.{unlink}
use ps2bios_rebuild.Threadman.Ids.{semaphore_of, event_of, mailbox_of}
use ps2bios_rebuild.Threadman.Alarms.{remove_alarm}
use ps2bios_rebuild.Threadman.Ready.{
  set_thread, priority_of, link_ready, make_ready, make_ready_first, take_off_ready, pick,
}

-- What a call comes to: an answer and the state it leaves; a trap in a state, and how the call goes
-- on from the answer it finds and the state in which it is resumed; or `never`, no return.
pub data Outcome : Type 0 where
  answers : ℕ → Kernel → Outcome
  traps : Kernel → (ℕ → Kernel → Outcome) → Outcome
  never : Outcome

unfoldable pub and_then : Outcome → (Kernel → Outcome) → Outcome
and_then (answers a k) f = f k
and_then (traps k rest) f = traps k (λ a k'. and_then (rest a k') f)
and_then never f = never

-- `o`, whatever it answers, and then the answer `a`.
abbrev pub then_answer : Outcome → ℕ → Outcome
then_answer o a = and_then o (λ k. answers a k)

abbrev pub set_pending : Kernel → ℕ → Kernel
set_pending k id = record k { pending = id }

-- The list of a wait object, without its thread; its count falls by one.
unfoldable pub leave_sema : Kernel → ℕ → ℕ → Kernel
leave_sema k s id =
    let (l, q) = unlink k.links (k.semaphores s).waiters id in
    record k {
      links = l;
      semaphores = update k.semaphores s (record (k.semaphores s) {
        waiters = q;
        waiter_count = sub32 (k.semaphores s).waiter_count 1;
      });
    }

unfoldable pub leave_event : Kernel → ℕ → ℕ → Kernel
leave_event k e id =
    let (l, q) = unlink k.links (k.events e).waiters id in
    record k {
      links = l;
      events =
          update k.events e
            (record (k.events e) { waiters = q; waiter_count = sub32 (k.events e).waiter_count 1 });
    }

unfoldable pub leave_mailbox : Kernel → ℕ → ℕ → Kernel
leave_mailbox k m id =
    let (l, q) = unlink k.links (k.mailboxes m).waiters id in
    record k {
      links = l;
      mailboxes = update k.mailboxes m (record (k.mailboxes m) {
        waiters = q;
        waiter_count = sub32 (k.mailboxes m).waiter_count 1;
      });
    }

-- Off the list of the object that the thread's wait names, if it is one.
unfoldable pub leave_object : Kernel → WaitType → ℕ → Kernel
leave_object k on_sema id = elim (semaphore_of k (k.threads id).wait_id) [
  | none ↦ k
  | some s ↦ leave_sema k s id
]
leave_object k on_event id = elim (event_of k (k.threads id).wait_id) [
  | none ↦ k
  | some e ↦ leave_event k e id
]
leave_object k on_mbx id = elim (mailbox_of k (k.threads id).wait_id) [
  | none ↦ k
  | some m ↦ leave_mailbox k m id
]
leave_object k _ id = k

abbrev pub thread_bytes : ℕ
thread_bytes = 60

-- &threads[id]
abbrev pub thread_address : Kernel → ℕ → ℕ
thread_address k id = k.symbols.threads_at + thread_bytes * id

-- `none` means that a loop over the alarms did not end.
unfoldable pub cancel_delay : Kernel → WaitType → ℕ → Option Kernel
cancel_delay k delayed id =
    elim (remove_alarm k.clockwork k.symbols.delay_expired (thread_address k id)) [
      | none ↦ none
      | some (answer, a) ↦ some (record k { clockwork = a })
    ]
cancel_delay k _ id = some k

abbrev pub stop_waiting : Kernel → ℕ → Kernel
stop_waiting k id = set_thread k id (record (k.threads id) { wait_type = not_waiting })

unfoldable pub leave_wait : Kernel → ℕ → Option Kernel
leave_wait k id =
    let type = (k.threads id).wait_type in
    elim (cancel_delay k type id) [
      | none ↦ none
      | some k ↦ some (stop_waiting (leave_object k type id) id)
    ]

-- context::slotOf(2) as a byte offset.
abbrev pub slot_v0 : ℕ
slot_v0 = 8

unfoldable pub set_answer : Kernel → ℕ → ℕ → Kernel
set_answer k id value =
    let frame = (k.threads id).frame in
    if frame == 0 then k else record k { memory = update k.memory (frame + slot_v0) value }

unfoldable pub should_preempt : Kernel → Bool
should_preempt k = not (k.pending == k.current)

-- The hook's choice: whom the exception resumes.
unfoldable pub resolve_pending : Kernel → Kernel
resolve_pending k =
    if k.pending == nobody || k.pending == k.current
    then (let (id, k') = pick k in set_pending k' (if id == nobody then k'.current else id))
    else k

-- The frame to resume.
unfoldable pub new_context : Kernel → ℕ → ℕ × Kernel
new_context k frame =
    let k =
      if k.current == nobody
      then k
      else set_thread k k.current (record (running k) { frame = frame }) in
    let k = resolve_pending k in
    let next = record (k.threads k.pending) { state = run } in
    (next.frame, record (set_thread k k.pending next) { current = k.pending })

unfoldable pub switch_now : Kernel → Outcome
switch_now k = traps k (λ a k'. answers a k')

unfoldable pub block_current : Kernel → WaitType → ℕ → Outcome
block_current k type wait_id =
    let k =
      set_thread k k.current
        (record (running k) { state = wait; wait_type = type; wait_id = wait_id }) in
    let (id, k) = pick k in switch_now (set_pending k id)

-- The running thread behind its peers, and `id` in its place.
unfoldable pub hand_off : Kernel → ℕ → Kernel
hand_off k id =
    let k = set_thread k k.current (record (running k) { state = ready }) in
    set_pending (take_off_ready (link_ready k k.current) id) id

unfoldable pub hand_off_if_better : Kernel → ℕ → Outcome
hand_off_if_better k id =
    if k.current == nobody || leb (priority_of k k.current) (priority_of k id)
    then answers 0 k
    else switch_now (hand_off k id)

-- `id`, which is ready, is the pending next, and who was to run before it is ready again.
unfoldable pub preempt_with : Kernel → ℕ → Kernel
preempt_with k id =
    let k =
      if k.pending == nobody || k.pending == k.current
      then make_ready_first k k.current
      else make_ready k k.pending in
    set_pending (take_off_ready k id) id

unfoldable pub is_better : Kernel → ℕ → Bool
is_better k id =
    not (k.current == nobody)
    && ltb (priority_of k id) (priority_of k k.current)
    && (k.pending == nobody
        || k.pending == k.current
        || ltb (priority_of k id) (priority_of k k.pending))

unfoldable pub preempt_if_better : Kernel → ℕ → Kernel
preempt_if_better k id = if is_better k id then preempt_with k id else k

-- The waiter off its list, with its answer, and ready.
unfoldable pub release : Kernel → ℕ → ℕ → Option Kernel
release k id answer = elim (leave_wait k id) [
  | none ↦ none
  | some k ↦ some (make_ready (set_answer k id answer) id)
]

unfoldable pub wake : Kernel → ℕ → ℕ → Bool → Outcome
wake k id answer from_interrupt = elim (release k id answer) [
  | none ↦ never
  | some k ↦ if from_interrupt then answers 0 (preempt_if_better k id) else hand_off_if_better k id
]

-- for (j = 0; j < n; j++) frame[j] = 0;
unfoldable pub clear_words : ℕ → (ℕ → ℕ) → ℕ → ℕ → ℕ
clear_words zero memory at = memory
clear_words (suc n) memory at = clear_words n (update memory at 0) (at + 4)

-- A context's words, and the byte offsets of the tag, Status, EPC, I_CTRL and registers 4, 28 to 31.
unfoldable pub prime_frame : Kernel → ℕ → ℕ → Kernel
prime_frame k id arg =
    let t = k.threads id in
    let top = add32 t.stack t.stack_size / 16 * 16 in
    let frame = sub32 top 152 in
    let m = clear_words 38 k.memory frame in
    let m = update m frame 0xFFFFFFFE in
    let m = update m (frame + 140) t.entry in
    let m = update m (frame + 136) new_status in
    let m = update m (frame + 144) 1 in
    let m = update m (frame + 16) arg in
    let m = update m (frame + 112) t.gp in
    let m = update m (frame + 116) (sub32 top 16) in
    let m = update m (frame + 120) (sub32 top 16) in
    let m = update m (frame + 124) k.symbols.exit_thread in
    record (set_thread k id (record t { frame = frame })) { memory = m }
