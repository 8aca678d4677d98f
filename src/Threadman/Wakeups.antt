-- ===== src/Threadman/Wakeups.antt =====
-- thbase of src/iop/threadman.cpp: a thread's sleep and what is known of it. `interrupted` is what
-- INTRMAN's query_context answers, whether an interrupt is being served.
use ps2bios_rebuild.Common.{
  ℕ, ◌-◌, Bool, ◌&&◌, Option, none, some, ltb, ◌==◌, if◌then◌else◌, add32, sub32,
}
use ps2bios_rebuild.Threadman.Types.{
  Thread, Kernel, wait, dormant, sleeping, running, illegal_context, illegal_thid, unknown_thid,
  is_dormant, not_wait, release_wait, state_code, wait_code,
}
use ps2bios_rebuild.Threadman.Ids.{thread_of, id_of}
use ps2bios_rebuild.Threadman.Ready.{set_thread}
use ps2bios_rebuild.Threadman.Switch.{Outcome, answers, then_answer, block_current, wake}
use ps2bios_rebuild.Threadman.Threads.{is_state, thread_or_running}

unfoldable pub release_wait_thread : Kernel → ℕ → Bool → Outcome
release_wait_thread k id from_interrupt =
    if id == 0 then answers illegal_thid k else elim (thread_of k id) [
      | none ↦ answers unknown_thid k
      | some index ↦
          let state = (k.threads index).state in
          if is_state state dormant
          then answers is_dormant k
          else if is_state state wait
          then then_answer (wake k index release_wait from_interrupt) 0
          else answers not_wait k
    ]

unfoldable pub get_thread_id : Kernel → Bool → ℕ
get_thread_id k interrupted = if interrupted then illegal_context else id_of k k.current

-- `sp` is the caller's $sp.
unfoldable pub check_thread_stack : Kernel → ℕ → ℕ
check_thread_stack k sp = sub32 sp (running k).stack

-- The first thirteen words of what it reports; the last four are 0.
pub record ThreadInfo : Type 0 where
  pub attr : ℕ
  pub option : ℕ
  pub status : ℕ
  pub entry : ℕ
  pub stack : ℕ
  pub stack_size : ℕ
  pub gp : ℕ
  pub initial_priority : ℕ
  pub current_priority : ℕ
  pub wait_type : ℕ
  pub wait_id : ℕ
  pub wakeup_count : ℕ
  pub reg_context : ℕ

-- `none` where there is no such thread: it answers kUnknownThid and reports nothing.
unfoldable pub refer_thread_status : Kernel → ℕ → Option ThreadInfo
refer_thread_status k id = elim (thread_or_running k id) [
  | none ↦ none
  | some index ↦
      let t = k.threads index in
      some (record {
        attr = t.attr;
        option = t.option;
        status = state_code t.state;
        entry = t.entry;
        stack = t.stack;
        stack_size = t.stack_size;
        gp = t.gp;
        initial_priority = t.initial_priority;
        current_priority = t.current_priority;
        wait_type = if is_state t.state wait then wait_code t.wait_type else 0;
        wait_id = if is_state t.state wait then t.wait_id else 0;
        wakeup_count = t.wakeup_count;
        reg_context = t.frame;
      })
]

abbrev pub set_wakeups : Kernel → ℕ → ℕ → Kernel
set_wakeups k index n = set_thread k index (record (k.threads index) { wakeup_count = n })

unfoldable pub sleep_thread : Kernel → Bool → Outcome
sleep_thread k interrupted =
    if interrupted
    then answers illegal_context k
    else if ltb 0 (running k).wakeup_count
    then answers 0 (set_wakeups k k.current ((running k).wakeup_count - 1))
    else block_current k sleeping 0

unfoldable pub sleeps : Thread → Bool
sleeps t = is_state t.state wait && wait_code t.wait_type == wait_code sleeping

unfoldable pub wakeup_thread : Kernel → ℕ → Bool → Outcome
wakeup_thread k id from_interrupt =
    if id == 0 then answers illegal_thid k else elim (thread_of k id) [
      | none ↦ answers unknown_thid k
      | some index ↦
          let t = k.threads index in
          if is_state t.state dormant
          then answers is_dormant k
          else if sleeps t
          then then_answer (wake k index 0 from_interrupt) 0
          else answers 0 (set_wakeups k index (add32 t.wakeup_count 1))
    ]

unfoldable pub cancel_wakeup_thread : Kernel → ℕ → ℕ × Kernel
cancel_wakeup_thread k id = elim (thread_or_running k id) [
  | none ↦ (unknown_thid, k)
  | some index ↦ ((k.threads index).wakeup_count, set_wakeups k index 0)
]
