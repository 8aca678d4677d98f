-- ===== src/Threadman/Events.antt =====
-- thevent of src/iop/threadman.cpp: event flags.
use ps2bios_rebuild.Common.{
  ℕ, zero, suc, Bool, true, false, not, ◌&&◌, Option, none, some, ◌==◌, if◌then◌else◌, update,
  add32, bit_and, bit_or,
}
use ps2bios_rebuild.Threadman.Types.{
  Event, Kernel, on_event, nobody, empty_queue, event_count, running, illegal_context, illegal_attr,
  no_memory, unknown_evfid, wait_delete, illegal_mode, evf_ilpat, evf_multi, evf_cond,
}
use ps2bios_rebuild.Threadman.Links.{enqueue}
use ps2bios_rebuild.Threadman.Ids.{event_of, make_id, first_unused, next_generation}
use ps2bios_rebuild.Threadman.Ready.{set_thread}
use ps2bios_rebuild.Threadman.Switch.{Outcome, answers, never, and_then, block_current, wake}

pub record EventParameters : Type 0 where
  pub attr : ℕ
  pub option : ℕ
  pub bits : ℕ

pub record EventInfo : Type 0 where
  pub attr : ℕ
  pub option : ℕ
  pub initial_bits : ℕ
  pub bits : ℕ
  pub waiters : ℕ

abbrev pub set_event : Kernel → ℕ → Event → Kernel
set_event k e r = record k { events = update k.events e r }

-- EA_MULTI, WEF_OR and WEF_CLEAR.
abbrev pub event_multi : ℕ
event_multi = 2

abbrev pub wait_or : ℕ
wait_or = 1

abbrev pub wait_clear : ℕ
wait_clear = 0x10

unfoldable pub create_event_flag : Kernel → Bool → EventParameters → ℕ × Kernel
create_event_flag k interrupted p =
    if interrupted
    then (illegal_context, k)
    else if not (bit_and p.attr 0xFFFFFFFD == 0)
    then (illegal_attr, k)
    else elim (first_unused (λ j. (k.events j).in_use) event_count 0) [
      | none ↦ (no_memory, k)
      | some e ↦
          let generation = next_generation (k.events e).generation in
          (
            make_id e generation,
            set_event k e (record {
              in_use = true;
              generation = generation;
              attr = p.attr;
              option = p.option;
              initial_bits = p.bits;
              bits = p.bits;
              waiters = empty_queue;
              waiter_count = 0;
            }),
          )
    ]

-- The loop of a deletion, with fuel; every waiter is released. `never` if the fuel runs out.
unfoldable pub release_event : ℕ → Kernel → ℕ → Outcome
release_event zero k e = never
release_event (suc n) k e =
    let waiter = (k.events e).waiters.head in
    let rest = and_then (wake k waiter wait_delete true) (λ k. release_event n k e) in
    if waiter == nobody
    then answers 0 (set_event k e (record (k.events e) { in_use = false }))
    else rest

-- `fuel` for the loop over the waiters.
unfoldable pub delete_event_flag : ℕ → Kernel → Bool → ℕ → Outcome
delete_event_flag fuel k interrupted id =
    if interrupted
    then answers illegal_context k
    else elim (event_of k id) [ none ↦ answers unknown_evfid k | some e ↦ release_event fuel k e ]

unfoldable pub event_satisfied : ℕ → ℕ → ℕ → Bool
event_satisfied bits wanted mode =
    if not (bit_and mode wait_or == 0)
    then not (bit_and bits wanted == 0)
    else bit_and bits wanted == wanted

-- The flag's bits for whoever asked for them at `out`.
unfoldable pub report_bits : Kernel → ℕ → ℕ → Kernel
report_bits k e out =
    if out == 0 then k else record k { memory = update k.memory out (k.events e).bits }

unfoldable pub clear_if_asked : Kernel → ℕ → ℕ → Kernel
clear_if_asked k e mode =
    if bit_and mode wait_clear == 0 then k else set_event k e (record (k.events e) { bits = 0 })

-- What a waiter whose condition holds gets before it is woken.
unfoldable pub satisfy : Kernel → ℕ → ℕ → ℕ → Kernel
satisfy k e out mode = clear_if_asked (report_bits k e out) e mode

-- The walk over the waiters from `at` on, with fuel. A wake-up may trap, and the walk goes on when
-- its thread is resumed.
unfoldable pub wake_satisfied : ℕ → Kernel → ℕ → ℕ → Bool → Outcome
wake_satisfied zero k e at from_interrupt = never
wake_satisfied (suc n) k e at from_interrupt =
    let following = k.links.next at in
    let t = k.threads at in
    let rest : Kernel → Outcome = λ k. wake_satisfied n k e following from_interrupt in
    if at == nobody
    then answers 0 k
    else if event_satisfied (k.events e).bits t.wait_bits t.wait_mode
    then and_then (wake (satisfy k e t.wait_out t.wait_mode) at 0 from_interrupt) rest
    else rest k

abbrev pub add_bits : Kernel → ℕ → ℕ → Kernel
add_bits k e bits = set_event k e (record (k.events e) { bits = bit_or (k.events e).bits bits })

unfoldable pub set_event_flag : ℕ → Kernel → ℕ → ℕ → Bool → Outcome
set_event_flag fuel k id bits from_interrupt = elim (event_of k id) [
  | none ↦ answers unknown_evfid k
  | some e ↦
      if bits == 0
      then answers 0 k
      else wake_satisfied fuel (add_bits k e bits) e (k.events e).waiters.head from_interrupt
]

unfoldable pub clear_event_flag : Kernel → ℕ → ℕ → ℕ × Kernel
clear_event_flag k id keep = elim (event_of k id) [
  | none ↦ (unknown_evfid, k)
  | some e ↦ (0, set_event k e (record (k.events e) { bits = bit_and (k.events e).bits keep }))
]

-- The running thread behind the flag's waiters, with what it waits for.
unfoldable pub wait_in_event : Kernel → ℕ → ℕ → ℕ → ℕ → ℕ → Outcome
wait_in_event k e id bits mode out =
    let k =
      set_thread k k.current
        (record (running k) { wait_bits = bits; wait_mode = mode; wait_out = out }) in
    let (l, q) = enqueue k.links (k.events e).waiters k.current in
    block_current
      (set_event (record k { links = l }) e
        (record (k.events e) { waiters = q; waiter_count = add32 (k.events e).waiter_count 1 }))
      on_event id

-- waitEventFlagBlocking and pollEventFlag; `out` is where the bits are reported.
unfoldable pub wait_event_flag : Kernel → Bool → ℕ → ℕ → ℕ → ℕ → Bool → Outcome
wait_event_flag k interrupted id bits mode out poll =
    if interrupted
    then answers illegal_context k
    else if not (bit_and mode 0xFFFFFFEE == 0)
    then answers illegal_mode k
    else if bits == 0
    then answers evf_ilpat k
    else elim (event_of k id) [
      | none ↦ answers unknown_evfid k
      | some e ↦
          let r = k.events e in
          if bit_and r.attr event_multi == 0 && not (r.waiter_count == 0)
          then answers evf_multi k
          else if event_satisfied r.bits bits mode
          then answers 0 (satisfy k e out mode)
          else if poll
          then answers evf_cond k
          else wait_in_event k e id bits mode out
    ]

unfoldable pub refer_event_flag_status : Kernel → ℕ → Option EventInfo
refer_event_flag_status k id = elim (event_of k id) [
  | none ↦ none
  | some e ↦
      let r = k.events e in
      some (record {
        attr = r.attr;
        option = r.option;
        initial_bits = r.initial_bits;
        bits = r.bits;
        waiters = r.waiter_count;
      })
]
