-- ===== src/Loadcore/Records.antt =====
-- The boot records of src/iop/loadcore.cpp and its callbacks.
use ps2bios_rebuild.Common.{
  ℕ, zero, suc, ◌+◌, ◌*◌, ◌/◌, ◌%◌, Bool, ◌||◌, Option, none, some, ◌==◌, if◌then◌else◌, update,
}

-- boot_records, boot_records_used, command_line, the address of the records at 0x3F0 and 0x3F4 (0 or
-- `at`), and the addresses of the two arrays.
pub record Boot : Type 0 where
  pub info : ℕ → ℕ
  pub records : ℕ → ℕ
  pub used : ℕ
  pub command_line : ℕ → ℕ
  pub published : Bool
  pub command_line_at : ℕ

abbrev pub key_boot_mode : ℕ
key_boot_mode = 4

abbrev pub key_command_line : ℕ
key_command_line = 5

-- Of a key and an extra below 256.
unfoldable pub record_header : ℕ → ℕ → ℕ → ℕ
record_header value key extra = value % 0x10000 + key * 0x10000 + extra * 0x1000000

unfoldable pub add_record : Boot → ℕ → Boot
add_record b word = record b { records = update b.records b.used word; used = b.used + 1 }

-- From byte `n` on, `left` bytes of room and one for the end, of the 256 of kCommandLineMax.
unfoldable pub copy_command_line : ℕ → (ℕ → ℕ) → (ℕ → ℕ) → ℕ → ℕ → ℕ
copy_command_line zero from line n = update line n 0
copy_command_line (suc left) from line n =
    let rest = copy_command_line left from (update line n (from n)) (suc n) in
    if from n == 0 then update line n 0 else rest

unfoldable pub add_command_line : Boot → (ℕ → ℕ) → Boot
add_command_line b text =
    let b = record b { command_line = copy_command_line 255 text b.command_line 0 } in
    add_record (add_record b (record_header 0 key_command_line 1)) b.command_line_at

-- `text` is the command line at boot_info[2], and boot_info[1] the mode.
unfoldable pub build_boot_records : Boot → (ℕ → ℕ) → Boot
build_boot_records b text =
    let b = add_record (record b { used = 0 }) (record_header (b.info 1) key_boot_mode 0) in
    let b = if b.info 2 == 0 then b else add_command_line b text in
    record b { records = update b.records b.used 0; published = Bool.true }

-- The index of the record of `key`, from word `at` on; its outer `none` means that the fuel ran out.
unfoldable pub query_from : ℕ → (ℕ → ℕ) → ℕ → ℕ → Option (Option ℕ)
query_from zero records key at = none
query_from (suc n) records key at =
    let rest = query_from n records key (at + records at / 0x1000000 % 256 + 1) in
    if records at == 0
    then some none
    else if records at / 0x10000 % 256 == key
    then some (some at)
    else rest

unfoldable pub query_boot_mode : ℕ → Boot → ℕ → Option (Option ℕ)
query_boot_mode fuel b key = if b.published then query_from fuel b.records key 0 else some none

-- An entry point with its pass in bits 0 and 1, the $gp and the argument.
pub record BootupCallback : Type 0 where
  pub function : ℕ
  pub gp : ℕ
  pub argument : ℕ

pub record Callbacks : Type 0 where
  pub callbacks : ℕ → BootupCallback
  pub count : ℕ

abbrev pub bootup_callbacks : ℕ
bootup_callbacks = 8

abbrev pub bootup_passes : ℕ
bootup_passes = 4

-- `gp` is the module's own. The answer -1 is the word of it.
unfoldable pub add_bootup_callback : Callbacks → ℕ → ℕ → ℕ → ℕ → ℕ × Callbacks
add_bootup_callback c function priority argument gp =
    if function == 0 || c.count == bootup_callbacks then (0xFFFFFFFF, c) else (
      0,
      record {
        callbacks =
            update c.callbacks c.count
              (record { function = function / 4 * 4 + priority % 4; gp = gp; argument = argument });
        count = c.count + 1;
      },
    )
