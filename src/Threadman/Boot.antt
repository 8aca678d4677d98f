-- ===== src/Threadman/Boot.antt =====
-- The state that the entry of src/iop/threadman.cpp leaves.
use ps2bios_rebuild.Common.{
  ℕ, ◌<◌, ◌==◌, ◌≡◌, refl, sym, ap, ◌∙◌, inl, inr, arith, List, [], ◌∷◌, true, if_ind, update,
  subst, Option-cases, none, some, test_bit, test_bit-zero, ◌%◌, ◌/◌, not,
}
use ps2bios_rebuild.Threadman.Types.{
  Thread, Kernel, Alarms, alarm_count, nobody, idle_priority, empty_queue,
}
use ps2bios_rebuild.Threadman.Lists.{Absent}
use ps2bios_rebuild.Threadman.Ids.{first_unused}
use ps2bios_rebuild.Threadman.Ready.{set_thread, priority_of, make_ready}
use ps2bios_rebuild.Threadman.Switch.{prime_frame}
use ps2bios_rebuild.Threadman.Alarms.{allocate_alarm, insert_alarm, insert_after, link_alarm}
use ps2bios_rebuild.Threadman.Timer.{
  with_clockwork, boot_record, seed_clock, start_clock, empty_queues, add_idle, add_boot,
  module_start,
}
use ps2bios_rebuild.Threadman.Scheduler.{Holds}
use ps2bios_rebuild.Threadman.Moves.{make_ready-Holds}
use ps2bios_rebuild.Threadman.Choice.{Settled, Scheduled, make_ready_keeps}
use ps2bios_rebuild.Threadman.Blocking.{Absent-Holds}

-- No thread is ready.
abbrev pub nobody_ready : ℕ → List ℕ
nobody_ready p = []

insert_first :
    (a : Alarms) (i : ℕ) → a.alarm_head ≡ nobody → insert_alarm a i ≡ some (link_alarm a nobody i)
unfolding insert_alarm insert_after link_alarm
insert_first a i e = rw e refl

allocate_alarm_head : (a : Alarms) → (allocate_alarm a).1.alarm_head ≡ a.alarm_head
unfolding allocate_alarm
allocate_alarm_head a =
    elim (Option-cases (first_unused (λ j. (a.alarms j).in_use) alarm_count 0)) [
      | inl e ↦ rw (allocate_alarm, e) refl
      | inr (i, e) ↦ rw (allocate_alarm, e) refl
    ]

seed_clock-empty : (a : Alarms) → (seed_clock a).1.alarm_head ≡ nobody
unfolding seed_clock
seed_clock-empty a = allocate_alarm_head _

start_clock-some : (a : Alarms) → (b : Alarms) × (start_clock a ≡ some b)
unfolding start_clock
start_clock-some a = (
  _,
  ap (λ o. elim o [ none ↦ none | some b ↦ some (record b { compare = b.ticks_granularity }) ])
      (insert_first (seed_clock a).1 (seed_clock a).0 (seed_clock-empty a)),
)

set_priority_range :
    (k : Kernel) (id : ℕ) (r : Thread)
    → ((j : ℕ) → priority_of k j < 128)
    → r.current_priority < 128
    → (j : ℕ) → priority_of (set_thread k id r) j < 128
set_priority_range k id r h b j = ground (arith, h j)

prime_frame_keeps :
    (k : Kernel) (id arg j : ℕ)
    → (priority_of (prime_frame k id arg) j ≡ priority_of k j)
      × ((prime_frame k id arg).links ≡ k.links)
      × ((prime_frame k id arg).ready_queue ≡ k.ready_queue)
      × ((prime_frame k id arg).ready_bits ≡ k.ready_bits)
unfolding prime_frame
prime_frame_keeps k id arg j = (ground arith, refl, refl, refl)

pub nobody_ready-Holds :
    (k : Kernel)
    → k.ready_queue ≡ (λ _. empty_queue)
    → k.ready_bits ≡ (λ _. 0)
    → Holds k nobody_ready
nobody_ready-Holds k e f = record {
  queued = record {
    queues = λ p. record {
      head = ap (λ q. (q p).head) e;
      tail = ap (λ q. (q p).tail) e;
      links = tt;
      distinct = tt;
    };
    members = λ p. tt;
  };
  bitmap = record {
    marks = λ p h.
        ap (λ b. test_bit (p % 32) (b (p / 32))) f
        ∙ test_bit-zero (p % 32)
        ∙ ap (λ q. not ((q p).head == nobody)) (sym e);
    words = λ w h. let g = ap (λ b. b w) f in omega (arith, g);
  };
}

-- What is ready after the entry: the idle thread, at the worst priority.
abbrev pub idle_ready : ℕ → List ℕ
idle_ready = update nobody_ready idle_priority (0 ∷ [])

idle_ready-apart : (p : ℕ) → Absent 1 (idle_ready p)
idle_ready-apart p =
    if_ind (Absent 1) (p == idle_priority) (λ e. ((λ h. absurd (omega (arith, h))), tt)) (λ e. tt)

module _ (k : Kernel) (range : (j : ℕ) → priority_of k j < 128) (idle stack gp : ℕ) where
  add_idle-Holds :
      let b = add_idle (empty_queues k) idle stack gp in
      Holds b idle_ready × ((j : ℕ) → priority_of b j < 128)
  unfolding add_idle empty_queues
  add_idle-Holds =
      let t = record (k.threads 0) {
        in_use = true;
        generation = 1;
        attr = 0x02000000;
        entry = idle;
        stack = stack;
        stack_size = 0x200;
        gp = gp;
        initial_priority = idle_priority;
        current_priority = idle_priority;
      } in
      let a = set_thread (empty_queues k) 0 t in
      let b = prime_frame a 0 0 in
      let p : priority_of b 0 ≡ 127 = (prime_frame_keeps a 0 0 0).0 in
      let h = nobody_ready-Holds b (prime_frame_keeps a 0 0 0).2 (prime_frame_keeps a 0 0 0).3 in
      let r : (j : ℕ) → priority_of b j < 128 = λ j.
        subst (λ p. p < 128) (sym (prime_frame_keeps a 0 0 j).0)
          (set_priority_range (empty_queues k) 0 t range (omega arith) j) in
      (
        subst (λ p. Holds (make_ready b 0) (update nobody_ready p (0 ∷ []))) p
            (make_ready-Holds 0 h (λ e. absurd (omega arith)) (r 0) tt),
        λ j. subst (λ p. p < 128) (sym (make_ready_keeps b 0 j).0) (r j),
      )

  -- The entry returns with the boot's thread running, only the idle thread ready, and no switch due,
  -- if every priority in memory is in range, as it is where memory is cleared.
  pub module_start-Scheduled :
      (sp : ℕ)
      → (b : Kernel) × (module_start k idle stack sp gp ≡ some b)
        × (b.current ≡ 1)
        × Scheduled b idle_ready
        × Settled b
  unfolding module_start add_boot
  module_start-Scheduled sp =
      let a = add_idle (empty_queues k) idle stack gp in
      let h = add_idle-Holds in
      let s = start_clock-some (add_boot a sp gp).clockwork in
      let t = boot_record a sp gp in
      let w = Absent-Holds 1 t idle_ready-apart h.0 in
      let b = with_clockwork (add_boot a sp gp) s.0 in
      let settled : Settled b = record { stays = inr refl; runs = refl } in
      (
        b,
        ap (λ o. elim o [ none ↦ none | some c ↦ some (with_clockwork (add_boot a sp gp) c) ]) s.1,
        refl,
        record {
          holds = record {
            queued = record { queues = w.queued.queues; members = w.queued.members };
            bitmap = record { marks = w.bitmap.marks; words = w.bitmap.words };
          };
          range = λ j. set_priority_range a 1 t h.1 (omega arith) j;
          thread = λ e. absurd (omega (arith, e));
          choice = inl settled;
        },
        settled,
      )
