-- ===== src/Loadcore/Register.antt =====
-- The registrations of src/iop/loadcore.cpp. Its loops take fuel, and `none` means that it ran out.
use ps2bios_rebuild.Common.{
  ℕ, zero, suc, ◌%◌, Bool, true, false, not, ◌||◌, Option, none, some, leb, ◌==◌, if◌then◌else◌,
  update, bit_and, bit_or,
}
use ps2bios_rebuild.Loadcore.Tables.{
  Tables, export_magic, null, library_found, not_registered, illegal_library, set_client_next,
  minor, is_pinned, same_library, register_accept,
}
use ps2bios_rebuild.Loadcore.Bind.{bind_table}

-- The clients from `client` on, dealt out: the pinned ones go behind `kept_tail`, the others onto
-- the stack `taken`, which is the answer.
unfoldable pub detach_from : ℕ → Tables → ℕ → ℕ → ℕ → Option (ℕ × Tables)
detach_from zero r kept_tail taken client = none
detach_from (suc n) r kept_tail taken client =
    let next = r.clients client in
    let kept =
      detach_from n (set_client_next (set_client_next r kept_tail client) client null) client taken
        next in
    let moved = detach_from n (set_client_next r client taken) kept_tail client next in
    if client == null then some (taken, r) else if is_pinned r client then kept else moved

unfoldable pub detach_unpinned_clients : ℕ → Tables → ℕ → Option (ℕ × Tables)
detach_unpinned_clients fuel r old =
    detach_from fuel (set_client_next r old null) old null (r.clients old)

-- `taken` behind the last of the clients of `from_this`, which is reached from `at`.
unfoldable pub append_taken : ℕ → Tables → ℕ → ℕ → ℕ → Option (ℕ × Tables)
append_taken zero r from_this taken at = none
append_taken (suc n) r from_this taken at =
    let rest = append_taken n r from_this taken (r.clients at) in
    if at == null
    then some (taken, r)
    else if r.clients at == null
    then some (from_this, set_client_next r at taken)
    else rest

unfoldable pub take_clients : ℕ → Tables → ℕ → ℕ → Option (ℕ × Tables)
take_clients fuel r taken walk = elim (detach_unpinned_clients fuel r walk) [
  | none ↦ none
  | some (from_this, r) ↦ append_taken fuel r from_this taken from_this
]

unfoldable pub adopt_clients : ℕ → ℕ → Tables → ℕ → ℕ → Option Tables
adopt_clients fuel zero r table taken = none
adopt_clients fuel (suc n) r table taken =
    if taken == null then some r else elim (bind_table fuel r taken table) [
      | none ↦ none
      | some bound ↦
          adopt_clients fuel n
            (set_client_next (set_client_next bound taken (bound.clients table)) table taken) table
            (r.clients taken)
    ]

-- What the walk over the registry comes to: a refusal, the clients that were taken, or no end.
pub data Walk : Type 0 where
  refused : Tables → Walk
  walked : ℕ → Tables → Walk
  endless : Walk

unfoldable pub walk_registry : ℕ → ℕ → Tables → ℕ → ℕ → ℕ → Walk
walk_registry fuel zero r table taken walk = endless
walk_registry fuel (suc n) r table taken walk =
    let rest = walk_registry fuel n r table taken (r.link walk) in
    let superseded : Walk = elim (take_clients fuel r taken walk) [
      | none ↦ endless
      | some (taken, r) ↦ walk_registry fuel n r table taken (r.link walk)
    ] in
    if walk == null
    then walked taken r
    else if not (same_library r walk table)
    then rest
    else if leb (minor r table) (minor r walk)
    then refused r
    else superseded

unfoldable pub accept_walked : ℕ → ℕ → Walk → Option (ℕ × Tables)
accept_walked fuel table (refused r) = some (library_found, r)
accept_walked fuel table (walked taken r) = elim (adopt_clients fuel fuel r table taken) [
  | none ↦ none
  | some r ↦ some (0, register_accept r table)
]
accept_walked fuel table endless = none

unfoldable pub register_versioned : ℕ → Tables → ℕ → Option (ℕ × Tables)
register_versioned fuel r table =
    if table == null || not (r.link table == export_magic)
    then some (illegal_library, r)
    else accept_walked fuel table (walk_registry fuel fuel r table null r.head)

unfoldable pub register_pinned : Tables → ℕ → ℕ × Tables
register_pinned r table =
    if table == null || not (r.link table == export_magic) then (illegal_library, r) else (
      0,
      register_accept (record r { flags = update r.flags table (bit_or (r.flags table) 1) }) table,
    )

-- Whether `table` is registered, from `walk` on.
unfoldable pub is_registered : ℕ → Tables → ℕ → ℕ → Option Bool
is_registered zero r table walk = none
is_registered (suc n) r table walk =
    let rest = is_registered n r table (r.link walk) in
    if walk == null then some false else if walk == table then some true else rest

abbrev pub with_flags : Tables → ℕ → ℕ → Tables
with_flags r table flags = record r {
  flags =
      update r.flags table
        (bit_or (bit_and (r.flags table) 0xFFFFFFF9) (bit_and flags 6) % 0x10000);
}

unfoldable pub set_library_flags : ℕ → Tables → ℕ → ℕ → Option (ℕ × Tables)
set_library_flags fuel r table flags =
    if table == null
    then some (illegal_library, r)
    else if r.link table == export_magic
    then some (0, with_flags r table flags)
    else elim (is_registered fuel r table r.head) [
      | none ↦ none
      | some known ↦ some (if known then (0, with_flags r table flags) else (not_registered, r))
    ]
