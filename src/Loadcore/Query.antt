-- ===== src/Loadcore/Query.antt =====
-- The boot records of src/iop/loadcore.cpp as a client finds them.
use ps2bios_rebuild.Common.{ℕ, ◌+◌, ◌==◌, ◌≡◌, arith, not, ◌&&◌, if◌then◌else◌, none, some}
use ps2bios_rebuild.Loadcore.Records.{
  Boot, key_boot_mode, key_command_line, record_header, add_record, add_command_line,
  build_boot_records, query_from, query_boot_mode,
}

-- Of the records that were built, the query answers the boot mode's, the command line's if there is
-- a command line, and none for any other key.
pub query_boot_mode-build_boot_records :
    (b : Boot) (text : ℕ → ℕ) (key fuel : ℕ)
    → query_boot_mode (3 + fuel) (build_boot_records b text) key
      ≡ some (
          if key == key_boot_mode
          then some 0
          else if not (b.info 2 == 0) && key == key_command_line
          then some 1
          else none)
unfolding query_boot_mode query_from build_boot_records add_command_line add_record record_header
query_boot_mode-build_boot_records b text key fuel = ground arith
