-- ===== src/Loadcore/Tables.antt =====
-- The tables of src/iop/loadcore.cpp and src/iop/loader.hpp: the registry and the lists of clients.
use ps2bios_rebuild.Common.{ℕ, ◌/◌, ◌%◌, Bool, ◌&&◌, ◌==◌, update}

-- A table, of exports or of imports, is its address, and tables do not overlap. `link` is the word at
-- an address, the first of a table, and `clients` the second: an exporter's first client, or the
-- client behind this one. An exporter's entries and an importer's stubs, pairs of words, are numbered.
pub record Tables : Type 0 where
  pub head : ℕ
  pub link : ℕ → ℕ
  pub clients : ℕ → ℕ
  pub version : ℕ → ℕ
  pub flags : ℕ → ℕ
  pub tag0 : ℕ → ℕ
  pub tag1 : ℕ → ℕ
  pub entries : ℕ → ℕ → ℕ
  pub stubs : ℕ → ℕ → ℕ
  pub seconds : ℕ → ℕ → ℕ

abbrev pub export_magic : ℕ
export_magic = 0x41C00000

abbrev pub import_magic : ℕ
import_magic = 0x41E00000

abbrev pub null : ℕ
null = 0

-- The errors -212, -213 and -214.
abbrev pub library_found : ℕ
library_found = 4294967084

abbrev pub not_registered : ℕ
not_registered = 4294967083

abbrev pub illegal_library : ℕ
illegal_library = 4294967082

abbrev pub set_client_next : Tables → ℕ → ℕ → Tables
set_client_next r client next = record r { clients = update r.clients client next }

abbrev pub major : Tables → ℕ → ℕ
major r t = r.version t / 256 % 256

abbrev pub minor : Tables → ℕ → ℕ
minor r t = r.version t % 256

-- kClientPinned of a client, and the same bit of an exporter: not to be moved, or to be bound to.
abbrev pub is_pinned : Tables → ℕ → Bool
is_pinned r t = r.flags t % 2 == 1

-- The same tag and the same major version.
unfoldable pub same_library : Tables → ℕ → ℕ → Bool
same_library r a b = r.tag0 a == r.tag0 b && r.tag1 a == r.tag1 b && major r a == major r b

unfoldable pub register_accept : Tables → ℕ → Tables
register_accept r table = record r { link = update r.link table r.head; head = table }
