-- ===== src/Loadcore/Modules.antt =====
-- The list of modules of src/iop/loadcore.cpp.
use ps2bios_rebuild.Common.{ℕ, ◌+◌, ◌%◌, ◌==◌, if◌then◌else◌, update}

-- module_list and next_module_id, and of a record its `id` and its `next`.
pub record Modules : Type 0 where
  pub module_list : ℕ
  pub next_id : ℕ
  pub id : ℕ → ℕ
  pub next : ℕ → ℕ

-- `listed` is how many modules the boot list named.
unfoldable pub register_module : Modules → ℕ → ℕ → Modules
register_module m listed record_at =
    let id = if m.next_id == 0 then (listed + 1) % 0x10000 else m.next_id in
    record {
      module_list = record_at;
      next_id = (id + 1) % 0x10000;
      id = update m.id record_at id;
      next = update m.next record_at m.module_list;
    }
