-- ===== src/EeThread/Program.antt =====
-- What src/kernel/program.cpp asks of src/kernel/thread.cpp: the first program's thread, and the
-- end of the others when a program replaces another.
use ps2bios_rebuild.Common.{ℕ, zero, suc, ◌-◌, ◌||◌, ◌==◌, if◌then◌else◌, update, add32, sub32}
use ps2bios_rebuild.EeThread.Types.{
  Kernel, Symbols, run, ready, not_waiting, thread_count, boot_priority, nobody, slot_sp, slot_fp,
  slot_ra, current, block_words,
}
use ps2bios_rebuild.EeThread.Tables.{
  set_thread, prepare_tables, link_ready, detach, free_thread_record,
}
use ps2bios_rebuild.EeThread.Switch.{clear_words}
use ps2bios_rebuild.EeThread.Threads.{is_free}

-- The boot thread becomes what runs when nothing else can. The stack of `_idle_loop` has 0x400
-- bytes.
unfoldable pub retire_boot_thread : Symbols → Kernel → Kernel
retire_boot_thread sym k =
    let top = add32 sym.idle_stack 0x400 in
    let memory = clear_words k.memory sym.idle_frame block_words in
    let memory = update memory (add32 sym.idle_frame slot_sp) (sub32 top 0x20) in
    let memory = update memory (add32 sym.idle_frame slot_fp) (sub32 top 0x20) in
    let memory = update memory (add32 sym.idle_frame slot_ra) sym.idle_loop in
    set_thread (record k { memory = memory }) 0
      (record (k.threads 0) { context = sym.idle_frame; resume_pc = sym.idle_loop; state = ready })

unfoldable pub start_program_thread : Symbols → Kernel → ℕ → ℕ → ℕ × Kernel
start_program_thread sym k gp entry =
    let k = retire_boot_thread sym (prepare_tables k) in
    let id = k.free_thread in
    let made = record (k.threads id) {
      state = run;
      resume_pc = entry;
      context = 0;
      entry = entry;
      gp = gp;
      initial_priority = boot_priority;
      current_priority = boot_priority;
      wait_type = not_waiting;
      wait_id = 0;
      wakeup_count = 0;
      attr = 0;
      option = 0;
      argc = 0;
      args = 0;
      stack = 0;
      stack_size = 0;
      root = 0;
      heap_end = 0;
      start_arg = 0;
      next = nobody;
      prev = nobody;
    } in
    let k = record k { free_thread = (k.threads id).next } in
    (id, record (link_ready (set_thread k id made) id) { current_thread = id })

-- for (id = first; id < first + n; id++)
unfoldable pub terminate_from : ℕ → ℕ → Kernel → Kernel
terminate_from zero id k = k
terminate_from (suc n) id k = terminate_from n (suc id) (
    if id == k.current_thread || is_free (k.threads id).state
    then k
    else free_thread_record (detach k id) id)

unfoldable pub terminate_other_threads : Kernel → Kernel
terminate_other_threads k = terminate_from (thread_count - 1) 1 (prepare_tables k)

unfoldable pub set_program_arguments : Kernel → ℕ → ℕ → Kernel
set_program_arguments k argc packed =
    let k = prepare_tables k in
    set_thread k k.current_thread (record (current k) { argc = argc; args = packed })
