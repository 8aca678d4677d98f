-- ===== src/EeThread/SecondWaiter.antt =====
-- The second thread that waits in slot 0x44 of src/kernel/thread.cpp: its links still name the
-- waiter before it when it is taken off its ready queue, so it stays that queue's head.
use ps2bios_rebuild.Common.{
  ℕ, ◌<◌, ◌≡◌, ◌≢◌, ◌∙◌, ap, refl, sym, arith, true, add32, some, inl, inr, lt_cases,
}
use ps2bios_rebuild.EeThread.Types.{
  Kernel, WaitType, on_semaphore, nobody, semaphore_count, queue_count, slot_v0, run, wait,
}
use ps2bios_rebuild.EeThread.Links.{unlink, bypass_next, bypass_prev, set_next, set_prev}
use ps2bios_rebuild.EeThread.Lists.{alone, alone_links, enqueue_lem, set_next-SameBut}
use ps2bios_rebuild.EeThread.Unlink.{unlink-last}
use ps2bios_rebuild.EeThread.Tables.{queue_of, take_off_ready_queue, wait_list, set_thread}
use ps2bios_rebuild.EeThread.Switch.{
  save_caller, park_current, set_resume_value, switch, pick_next, resume, block_caller,
}
use ps2bios_rebuild.EeThread.Semas.{join_list, wait_sema}
use ps2bios_rebuild.EeThread.Pick.{ScanIsSound, pick_next-best}
use ps2bios_rebuild.EeThread.Waits.{wait_sema_blocks, parked_links}

-- Queue `q` is the best that is not empty, and `id` is its head.
pub record IsBest (k : Kernel) (q id : ℕ) : Type 0 where
  pub sound : ScanIsSound k
  pub within : q < queue_count
  pub head : (k.ready_queue q).head ≡ id
  pub someone : id ≢ nobody
  pub others : (j : ℕ) → j < q → (k.ready_queue j).head ≡ nobody

-- The pick depends on the heads alone.
IsBest-heads :
    {k : Kernel} (l : Kernel) {q id : ℕ}
    → IsBest k q id
    → l.lowest_ready ≡ k.lowest_ready
    → ((j : ℕ) → (l.ready_queue j).head ≡ (k.ready_queue j).head)
    → IsBest l q id
IsBest-heads {k} l {q} {id} b e f = record {
  sound = record {
    within = omega (arith, b.sound.within);
    skipped = λ j h. f j ∙ b.sound.skipped j (omega arith);
  };
  within = b.within;
  head = f q ∙ b.head;
  someone = b.someone;
  others = λ j h. f j ∙ b.others j h;
}

pick_next-IsBest :
    {k : Kernel} (q id : ℕ) → IsBest k q id → pick_next k ≡ some (id, record k { lowest_ready = q })
pick_next-IsBest {k} q id b = elim (pick_next-best b.sound) [
  | inl (_, g) ↦ absurd (b.someone (sym b.head ∙ g q b.within))
  | inr (r, h, ne, g, e, _) ↦ elim (lt_cases r q) [
    | inl m ↦ absurd (ne (b.others r m))
    | inr m ↦ elim (lt_cases q r) [
      | inl n ↦ absurd (b.someone (sym b.head ∙ g q n))
      | inr n ↦
          let same : r ≡ q = omega arith in
          e
          ∙ ap (λ x. some ((k.ready_queue x).head, record k { lowest_ready = x })) same
          ∙ ap (λ x. some (x, record k { lowest_ready = q })) b.head
    ]
  ]
]

switch-IsBest :
    {k : Kernel} (q id : ℕ)
    → IsBest k q id
    → (k' : Kernel) × (switch k ≡ some (k.memory (add32 (k.threads id).context slot_v0), k'))
      × (k'.current_thread ≡ id)
      × ((k'.threads id).state ≡ run)
unfolding switch resume
switch-IsBest {k} q id b = (
  (resume (record k { lowest_ready = q }) id).1,
  rw (pick_next-IsBest q id b, switch),
  refl,
  ground arith,
)

-- Taking off a thread whose links name a thread before it and none behind it moves no head.
take_off_head :
    (k : Kernel) (id w j : ℕ)
    → (k.threads id).prev ≡ w
    → (k.threads id).next ≡ nobody
    → w ≢ nobody
    → w ≢ id
    → ((take_off_ready_queue k id).ready_queue j).head ≡ (k.ready_queue j).head
unfolding take_off_ready_queue
take_off_head k id w j p n ne ne' =
    rw (unlink-last k.threads (k.ready_queue (queue_of k id)) id w nobody p n ne ne' refl)
      (ground arith)

join_links-second :
    (k : Kernel) (id w : ℕ)
    → (k.semaphores id).wait_tail ≡ w
    → w ≢ nobody
    → w ≢ k.current_thread
    → let c = k.current_thread in
      let j = join_list k id in ((j.threads c).prev ≡ w) × ((j.threads c).next ≡ nobody)
unfolding join_list
join_links-second k id w e ne ne' =
    let c = k.current_thread in
    let l = wait_list (k.semaphores id) in
    let f = alone_links k.threads c w in
    let g = set_next-SameBut (alone k.threads c w) w c c (λ p. ne' (sym p)) in
    (
      rw (enqueue_lem k.threads l c w e ne) (g.1 ∙ f.1),
      rw (enqueue_lem k.threads l c w e ne) (g.0 ∙ f.0),
    )

-- What taking a thread off keeps of its frame, and of memory.
take_off_context :
    (k : Kernel) (id : ℕ)
    → (((take_off_ready_queue k id).threads id).context ≡ (k.threads id).context)
      × ((take_off_ready_queue k id).memory ≡ k.memory)
unfolding take_off_ready_queue unlink bypass_next bypass_prev set_next set_prev
take_off_context k id = (ground arith, refl)

resume_value :
    (k : Kernel) (id a : ℕ)
    → let p = set_resume_value k id a in p.memory (add32 (p.threads id).context slot_v0) ≡ a
unfolding set_resume_value
resume_value k id a = ground arith

blocked : Kernel → ℕ → WaitType → ℕ → Kernel
blocked k id type wait_id =
    set_thread k id (record (k.threads id) { state = wait; wait_type = type; wait_id = wait_id })

blocked_context :
    (k : Kernel) (id : ℕ) (type : WaitType) (wait_id : ℕ)
    → ((blocked k id type wait_id).threads id).context ≡ (k.threads id).context
unfolding blocked
blocked_context k id type wait_id = ground arith

block_caller-returns :
    (k : Kernel) (type : WaitType) (wait_id a w q : ℕ)
    → let c = k.current_thread in
      (k.threads c).prev ≡ w
      → (k.threads c).next ≡ nobody
      → w ≢ nobody
      → w ≢ c
      → IsBest k q c
      → (k' : Kernel) × (block_caller k type wait_id a ≡ some (a, k'))
        × (k'.current_thread ≡ c)
        × ((k'.threads c).state ≡ run)
unfolding block_caller save_caller park_current set_resume_value take_off_ready_queue blocked
block_caller-returns k type wait_id a w q p n ne ne' b =
    let c = k.current_thread in
    let f = parked_links k a in
    let parked = set_resume_value (save_caller k) c a in
    let off = take_off_ready_queue parked c in
    let l = blocked off c type wait_id in
    let g = take_off_context parked c in
    let heads : (j : ℕ) → (l.ready_queue j).head ≡ (k.ready_queue j).head =
      λ j. take_off_head parked c w j (f.3 ∙ p) (f.4 ∙ n) ne ne' in
    let (k', e, cur, state) = switch-IsBest q c (IsBest-heads l b refl heads) in
    let value : l.memory (add32 (l.threads c).context slot_v0) ≡ a =
      ap (λ x. l.memory (add32 x slot_v0)) (blocked_context off c type wait_id ∙ g.0)
      ∙ ap (λ m. m (add32 (parked.threads c).context slot_v0)) g.1
      ∙ resume_value (save_caller k) c a in
    (k', e ∙ ap (λ x. some (x, k')) value, cur, state)

-- A thread that calls slot 0x44 on a semaphore at 0 which another thread already waits for is not
-- blocked, if it heads the best ready queue, as the running thread does: the call answers the
-- semaphore's number at once, as after a signal, and the thread goes on running.
pub wait_sema_returns :
    (k : Kernel) (id w q : ℕ)
    → k.tables_ready ≡ true
    → id < semaphore_count
    → (k.semaphores id).count ≡ 0
    → (k.semaphores id).wait_tail ≡ w
    → w ≢ nobody
    → w ≢ k.current_thread
    → IsBest k q k.current_thread
    → (k' : Kernel) × (wait_sema k id ≡ some (id, k'))
      × (k'.current_thread ≡ k.current_thread)
      × ((k'.threads k.current_thread).state ≡ run)
unfolding join_list
wait_sema_returns k id w q ready h z e ne ne' b =
    let f = join_links-second k id w e ne ne' in
    let (k', g, cur, state) =
      block_caller-returns (join_list k id) on_semaphore id id w q f.0 f.1 ne ne'
        (IsBest-heads (join_list k id) b refl (λ j. refl)) in
    (k', wait_sema_blocks k id ready h z ∙ g, cur, state)
