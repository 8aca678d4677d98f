-- ===== src/EeThread/Tests.antt =====
-- Runs of src/kernel/thread.cpp on a kernel with five threads, and the theorems there.
use ps2bios_rebuild.Common.{
  ℕ, ◌<◌, ◌==◌, ◌≡◌, ◌≢◌, refl, arith, if◌then◌else◌, true, false, List, [], ◌∷◌, add32, inl, inr,
  Bool-cases, All, ◌⊎◌, Option, none, some,
}
use ps2bios_rebuild.EeThread.Types.{
  minus_one, Kernel, Queue, ThreadRecord, Semaphore, State, run, ready, wait, not_waiting, nobody,
  block_words, slot_v0, queue_count,
}
use ps2bios_rebuild.EeThread.Links.{enqueue, unlink, bypass_next, bypass_prev, set_next, set_prev}
use ps2bios_rebuild.EeThread.Lists.{IsQueue, Absent, enqueue-IsQueue}
use ps2bios_rebuild.EeThread.Unlink.{unlink-IsQueue}
use ps2bios_rebuild.EeThread.Tables.{queue_of, wait_list, prepare_tables, take_off_ready_queue}
use ps2bios_rebuild.EeThread.Switch.{
  pick_next, resume, switch, save_caller, park_current, set_resume_value, block_caller, first_ready,
}
use ps2bios_rebuild.EeThread.Semas.{delete_sema, is_allocated, signal_sema, wait_sema, join_list}
use ps2bios_rebuild.EeThread.Pick.{ScanIsSound, pick_next-best}
use ps2bios_rebuild.EeThread.Frames.{parked, parked-resume}
use ps2bios_rebuild.EeThread.Signals.{signal_sema_wakes}
use ps2bios_rebuild.EeThread.Queues.{InQueues, Outside, with_last}
use ps2bios_rebuild.EeThread.Waking.{Woken, joined}
use ps2bios_rebuild.EeThread.Deletion.{delete_sema-returns}
use ps2bios_rebuild.EeThread.SecondWaiter.{IsBest, wait_sema_returns}

abbrev thread : State → ℕ → ℕ → ℕ → ℕ → ThreadRecord
thread state priority context next prev = record {
  state = state;
  resume_pc = 0x100000;
  context = context;
  gp = 0;
  initial_priority = priority;
  current_priority = priority;
  wait_type = not_waiting;
  wait_id = 0;
  wakeup_count = 0;
  attr = 0;
  option = 0;
  entry = 0x100000;
  argc = 0;
  args = 0;
  stack = 0;
  stack_size = 0;
  root = 0;
  heap_end = 0;
  start_arg = 0;
  next = next;
  prev = prev;
}

abbrev semaphore : ℕ → ℕ → ℕ → ℕ → Semaphore
semaphore count waiting head tail = record {
  count = count;
  max_count = 8;
  attr = 0;
  option = 0;
  wait_count = waiting;
  wait_head = head;
  wait_tail = tail;
  next_free = 0;
}

abbrev no_links : Queue
no_links = record { head = nobody; tail = nobody }

-- Thread 1 runs, 2 is ready behind it, 6 has a lower priority, and 3 and 5 wait for semaphore 4.
abbrev busy_threads : ℕ → ThreadRecord
busy_threads i =
    if i == 1
    then thread run 10 0x10000 2 nobody
    else (if i == 2
        then thread ready 10 0x20000 nobody 1
        else (if i == 3
            then thread wait 10 0x30000 5 nobody
            else (if i == 5
                then thread wait 12 0x50000 nobody 3
                else thread ready 20 0x60000 nobody nobody)))

abbrev busy_queues : ℕ → Queue
busy_queues q =
    if q == 10
    then record { head = 1; tail = 2 }
    else (if q == 20 then record { head = 6; tail = 6 } else no_links)

abbrev busy_semaphores : ℕ → Semaphore
busy_semaphores s =
    if s == 4
    then semaphore 0 2 3 5
    else (if s == 7 then semaphore 2 0 nobody nobody else semaphore 0 0 nobody nobody)

abbrev busy : Kernel
busy = record {
  threads = busy_threads;
  semaphores = busy_semaphores;
  ready_queue = busy_queues;
  current_thread = 1;
  lowest_ready = 10;
  free_thread = nobody;
  free_semaphore = nobody;
  tables_ready = true;
  reschedule_requested = false;
  parked_by_interrupt = λ i. false;
  memory = λ i. 0;
  syscall_context = λ i. if i == 116 then 0x11000 else i;
  epc = 0x100400;
  restore_full = false;
  memory_size = 0x2000000;
}

ready_queue_10 : IsQueue busy.threads (busy.ready_queue 10) (1 ∷ 2 ∷ [])
ready_queue_10 = record {
  head = refl;
  tail = refl;
  links = (omega arith, refl, refl, (omega arith, refl, refl, tt));
  distinct = ((omega arith, tt), (tt, tt));
}

wait_list_4 : IsQueue busy.threads (wait_list (busy.semaphores 4)) (3 ∷ 5 ∷ [])
wait_list_4 = record {
  head = refl;
  tail = refl;
  links = (omega arith, refl, refl, (omega arith, refl, refl, tt));
  distinct = ((omega arith, tt), (tt, tt));
}

busy-ScanIsSound : ScanIsSound busy
busy-ScanIsSound = record { within = omega arith; skipped = λ j h. ground arith }

enqueue-IsQueue_example :
    let r = enqueue busy.threads (busy.ready_queue 10) 6 in IsQueue r.0 r.1 (1 ∷ 2 ∷ 6 ∷ [])
enqueue-IsQueue_example =
    enqueue-IsQueue 6 (1 ∷ 2 ∷ []) (omega arith) (omega arith, (omega arith, tt)) ready_queue_10

unlink-IsQueue_example :
    let r = unlink busy.threads (busy.ready_queue 10) 2 in IsQueue r.0 r.1 (1 ∷ [])
unlink-IsQueue_example = unlink-IsQueue 2 (1 ∷ []) [] ready_queue_10

pick_next-best_example :
    ((pick_next busy ≡ none) × ((j : ℕ) → j < queue_count → (busy.ready_queue j).head ≡ nobody))
    ⊎ ((q : ℕ) × (q < queue_count)
        × ((busy.ready_queue q).head ≢ nobody)
        × ((j : ℕ) → j < q → (busy.ready_queue j).head ≡ nobody)
        × (pick_next busy ≡ some ((busy.ready_queue q).head, record busy { lowest_ready = q }))
        × ScanIsSound (record busy { lowest_ready = q }))
pick_next-best_example = pick_next-best busy-ScanIsSound

parked-resume_example :
    let (r, k') = resume (parked busy 77) 1 in
    (r ≡ 77)
    × (k'.current_thread ≡ 1)
    × (k'.epc ≡ 0x100400)
    × (k'.restore_full ≡ false)
    × ((j : ℕ)
        → j < block_words
        → k'.syscall_context j ≡ (if j == 8 then 77 else busy.syscall_context j))
parked-resume_example = parked-resume busy 77

allocated_4 : is_allocated busy 4 ≡ true
unfolding is_allocated
allocated_4 = refl

allocated_7 : is_allocated busy 7 ≡ true
unfolding is_allocated
allocated_7 = refl

abbrev busy_lists : ℕ → List ℕ
busy_lists q = if q == 10 then 1 ∷ 2 ∷ [] else if q == 20 then 6 ∷ [] else []

ready_queue_20 : IsQueue busy.threads (busy.ready_queue 20) (6 ∷ [])
ready_queue_20 = record {
  head = refl;
  tail = refl;
  links = (omega arith, refl, refl, tt);
  distinct = (tt, tt);
}

empty_queue : IsQueue busy.threads no_links []
empty_queue = record { head = refl; tail = refl; links = tt; distinct = tt }

busy-InQueues : InQueues busy busy_lists
unfolding queue_of
busy-InQueues = record {
  queues = λ q. elim (Bool-cases (q == 10)) [
    | inl e ↦ rw e ready_queue_10
    | inr e ↦ elim (Bool-cases (q == 20)) [
      | inl f ↦ rw (e, f) ready_queue_20
      | inr f ↦ rw (e, f) empty_queue
    ]
  ];
  members = λ q. elim (Bool-cases (q == 10)) [
    | inl e ↦ rw e (ground arith, (ground arith, tt))
    | inr e ↦ elim (Bool-cases (q == 20)) [
      | inl f ↦ rw (e, f) (ground arith, tt)
      | inr f ↦ rw (e, f) tt
    ]
  ];
}

busy-Outside : Outside busy_lists (3 ∷ 5 ∷ [])
busy-Outside q = elim (Bool-cases (q == 10)) [
  | inl e ↦ rw e ((omega arith, (omega arith, tt)), ((omega arith, (omega arith, tt)), tt))
  | inr e ↦ elim (Bool-cases (q == 20)) [
    | inl f ↦ rw (e, f) ((omega arith, tt), ((omega arith, tt), tt))
    | inr f ↦ rw (e, f) (tt, (tt, tt))
  ]
]

signal_sema_wakes_example :
    let (r, k') = signal_sema busy 4 in
    (r ≡ 4)
    × IsQueue k'.threads (wait_list (k'.semaphores 4)) (5 ∷ [])
    × InQueues k' (with_last busy_lists (queue_of busy 3) 3)
    × ((k'.threads 3).state ≡ ready)
    × ((k'.threads 3).wait_type ≡ not_waiting)
    × ((k'.semaphores 4).count ≡ 0)
    × ((k'.semaphores 4).wait_count ≡ 1)
    × (k'.memory (add32 0x30000 slot_v0) ≡ 4)
signal_sema_wakes_example =
    signal_sema_wakes busy 4 3 (5 ∷ []) busy_lists refl allocated_4 refl busy-InQueues busy-Outside
      wait_list_4

-- What a call leaves, and `busy` for a kernel that found no thread to run.
outcome : Option (ℕ × Kernel) → ℕ × Kernel
outcome none = (0, busy)
outcome (some r) = r

outcome_6 : wait_sema busy 6 ≡ some ((outcome (wait_sema busy 6)).0, (outcome (wait_sema busy 6)).1)
unfolding outcome wait_sema prepare_tables is_allocated join_list block_caller save_caller
    park_current set_resume_value take_off_ready_queue switch pick_next first_ready resume queue_of
    enqueue set_prev set_next unlink bypass_prev bypass_next
outcome_6 = refl

queue_of_1 : queue_of busy 1 ≡ 10
unfolding queue_of
queue_of_1 = refl

busy-IsBest : IsBest busy 10 1
busy-IsBest = record {
  sound = busy-ScanIsSound;
  within = omega arith;
  head = refl;
  someone = omega arith;
  others = λ j h. ground arith;
}

wait_sema_returns_example :
    (k' : Kernel) × (wait_sema busy 4 ≡ some (4, k'))
    × (k'.current_thread ≡ 1)
    × ((k'.threads 1).state ≡ run)
wait_sema_returns_example =
    wait_sema_returns busy 4 5 10 refl (omega arith) refl refl (omega arith) (omega arith)
      busy-IsBest

delete_sema-returns_example :
    (k' : Kernel) × (delete_sema busy 4 ≡ some (4, k'))
    × All (Woken busy k') (3 ∷ 5 ∷ [])
    × InQueues k' (joined busy busy_lists (3 ∷ 5 ∷ []))
    × ((j : ℕ) → Absent j (3 ∷ 5 ∷ []) → (k'.threads j).state ≡ (busy.threads j).state)
    × ((k'.semaphores 4).wait_head ≡ nobody)
    × ((k'.semaphores 4).wait_count ≡ 0)
    × ((k'.semaphores 4).count ≡ minus_one)
    × ((k'.semaphores 4).next_free ≡ nobody)
    × (k'.free_semaphore ≡ 4)
delete_sema-returns_example =
    delete_sema-returns busy 4 (3 ∷ 5 ∷ []) busy_lists refl allocated_4 wait_list_4
      (inl refl, (inl refl, tt)) busy-InQueues busy-Outside (omega arith)
