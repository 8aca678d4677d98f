-- ===== src/Loadcore/Bind.antt =====
-- The binder of src/iop/loader.hpp. Its loops take fuel, and `none` means that it ran out.
use ps2bios_rebuild.Common.{
  ℕ, zero, suc, ◌+◌, ◌/◌, ◌%◌, not, ◌&&◌, ◌||◌, Option, none, some, ltb, ◌==◌, if◌then◌else◌,
  update,
}
use ps2bios_rebuild.Loadcore.Tables.{
  Tables, null, import_magic, set_client_next, same_library, is_pinned,
}

-- The entries from `c` on to the zero that ends them.
unfoldable pub count_entries : ℕ → (ℕ → ℕ) → ℕ → Option ℕ
count_entries zero entries c = none
count_entries (suc n) entries c =
    let rest = count_entries n entries (suc c) in if entries c == 0 then some c else rest

-- A jump to the export, or `jr $ra` for an ordinal that there is not.
unfoldable pub instruction : (ℕ → ℕ) → ℕ → ℕ → ℕ
instruction entries count ordinal =
    if ltb ordinal count then 0x08000000 + entries ordinal / 4 % 0x4000000 else 0x03E00008

abbrev pub set_stub : Tables → ℕ → ℕ → ℕ → Tables
set_stub r t j v = record r { stubs = update r.stubs t (update (r.stubs t) j v) }

-- Stub `j` of `client`, if its second word is an `addiu`.
unfoldable pub bind_stub : Tables → ℕ → ℕ → ℕ → ℕ → Tables
bind_stub r client exporter count j =
    let second = r.seconds client j in
    if not (second / 0x4000000 == 9)
    then r
    else set_stub r client j (instruction (r.entries exporter) count (second % 0x10000))

unfoldable pub bind_stubs : ℕ → Tables → ℕ → ℕ → ℕ → ℕ → Option Tables
bind_stubs zero r client exporter count j = none
bind_stubs (suc n) r client exporter count j =
    let rest = bind_stubs n (bind_stub r client exporter count j) client exporter count (suc j) in
    if r.stubs client j == 0 then some r else rest

unfoldable pub bind_table : ℕ → Tables → ℕ → ℕ → Option Tables
bind_table fuel r client exporter = elim (count_entries fuel (r.entries exporter) 0) [
  | none ↦ none
  | some count ↦ bind_stubs fuel r client exporter count 0
]

-- The first table from `at` on of the client's library that is not pinned.
unfoldable pub find_exporter : ℕ → Tables → ℕ → ℕ → Option ℕ
find_exporter zero r client at = none
find_exporter (suc n) r client at =
    let rest = find_exporter n r client (r.link at) in
    if at == null || (same_library r at client && not (is_pinned r at)) then some at else rest

-- `client` is bound and is its exporter's first client. The answer counts what found no exporter.
unfoldable pub bind_to : ℕ → Tables → ℕ → ℕ → Option (ℕ × Tables)
bind_to fuel r client exporter =
    if exporter == null then some (1, r) else elim (bind_table fuel r client exporter) [
      | none ↦ none
      | some r ↦
          some (0, set_client_next (set_client_next r client (r.clients exporter)) exporter client)
    ]

-- The word at `at`, if it starts an import table that is to be bound.
unfoldable pub bind_at : ℕ → Tables → ℕ → Option (ℕ × Tables)
bind_at fuel r at =
    if not (r.link at == import_magic) || not (r.flags at % 8 == 0)
    then some (0, r)
    else elim (find_exporter fuel r at r.head) [
      | none ↦ none
      | some exporter ↦ bind_to fuel r at exporter
    ]

-- `words` words from `at` on.
unfoldable pub bind : ℕ → ℕ → Tables → ℕ → Option (ℕ × Tables)
bind fuel zero r at = some (0, r)
bind fuel (suc words) r at = elim (bind_at fuel r at) [
  | none ↦ none
  | some (unbound, r) ↦ elim (bind fuel words r (at + 4)) [
    | none ↦ none
    | some (others, r) ↦ some (unbound + others, r)
  ]
]
