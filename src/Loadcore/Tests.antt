-- ===== src/Loadcore/Tests.antt =====
-- A registry of src/iop/loadcore.cpp with one library, at 100, and its clients 200 and 300, the
-- second one pinned; a newer version at 400, and an older one at 500.
use ps2bios_rebuild.Common.{
  true, ℕ, ◌<◌, ◌≤◌, ◌==◌, ◌≡◌, ◌≢◌, refl, arith, List, [], ◌∷◌, false, if◌then◌else◌, some, inl,
}
use ps2bios_rebuild.Loadcore.Tables.{Tables, export_magic, library_found, same_library}
use ps2bios_rebuild.Loadcore.Bind.{bind_table, find_exporter}
use ps2bios_rebuild.Loadcore.Register.{register_versioned}
use ps2bios_rebuild.Loadcore.Records.{Boot, build_boot_records, query_boot_mode}
use ps2bios_rebuild.Loadcore.Chains.{Chain}
use ps2bios_rebuild.Loadcore.Walks.{Stay}
use ps2bios_rebuild.Loadcore.Binding.{Ends, StubBound, with_stubs, bind_table-StubBound}
use ps2bios_rebuild.Loadcore.Adopt.{Rebound}
use ps2bios_rebuild.Loadcore.Supersede.{IsRegistry, IsCandidate, register_versioned_supersedes}
use ps2bios_rebuild.Loadcore.Order.{Found, register_versioned-refused, find_exporter_newest}
use ps2bios_rebuild.Loadcore.Query.{query_boot_mode-build_boot_records}

abbrev tables : Tables
tables = record {
  head = 100;
  link = λ t. if t == 100 then 0 else export_magic;
  clients = λ t. if t == 100 then 200 else if t == 200 then 300 else 0;
  version = λ t. if t == 400 then 0x102 else if t == 500 then 0x100 else 0x101;
  flags = λ t. if t == 300 then 1 else 0;
  tag0 = λ t. 7;
  tag1 = λ t. 8;
  entries = λ t j. if j == 0 then 64 else 0;
  stubs = λ t j. if j == 0 then 0x03E00008 else 0;
  seconds = λ t j. 0x24000000;
}

abbrev clients_of : ℕ → List ℕ
clients_of w = 200 ∷ 300 ∷ []

abbrev one : ℕ → ℕ
one t = 1

differ : (a b : ℕ) → (a == b) ≡ false → a ≢ b
differ a b e = ground arith

tables-IsRegistry : IsRegistry tables clients_of 5 (100 ∷ [])
tables-IsRegistry = record {
  chain = (refl, differ 100 0 refl, refl);
  served = ((refl, differ 200 0 refl, (refl, differ 300 0 refl, refl)), omega arith, tt);
  distinct =
      ((differ 100 200 refl, (differ 100 300 refl, tt)), ((differ 200 300 refl, tt), (tt, tt)));
  short = omega arith;
}

upgrade-IsCandidate : IsCandidate tables clients_of (100 ∷ []) 400 []
upgrade-IsCandidate = record {
  exists = differ 400 0 refl;
  magic = refl;
  clients = refl;
  fresh = (differ 400 100 refl, (differ 400 200 refl, (differ 400 300 refl, tt)));
  not_own = tt;
  apart = tt;
}

one-Ends : Ends (λ j. if j == 0 then 64 else 0) 1 5
one-Ends = record {
  before = λ i l. (let z : (i == 0) ≡ true = ground arith in rw z (differ 64 0 refl));
  at = refl;
  steps = omega arith;
}

stub-Ends : Ends (λ j. if j == 0 then 0x03E00008 else 0) 1 5
stub-Ends = record {
  before = λ i l. (let z : (i == 0) ≡ true = ground arith in rw z (differ 0x03E00008 0 refl));
  at = refl;
  steps = omega arith;
}

register_versioned_supersedes_example :
    (r' : Tables) × (register_versioned 5 tables 400 ≡ some (0, r'))
    × Chain r'.link r'.head (400 ∷ 100 ∷ [])
    × Chain r'.clients (r'.clients 400) (200 ∷ [])
    × Stay tables 400 clients_of r'.clients (100 ∷ [])
    × Rebound tables one 400 1 tables.stubs r'.stubs (200 ∷ [])
unfolding same_library
register_versioned_supersedes_example =
    register_versioned_supersedes 5 400 1 clients_of one [] tables-IsRegistry upgrade-IsCandidate
      ((λ e. omega arith), tt) one-Ends (stub-Ends, tt) (omega arith)

register_versioned-refused_example : register_versioned 5 tables 500 ≡ some (library_found, tables)
unfolding same_library
register_versioned-refused_example =
    register_versioned-refused 5 500 (100 ∷ []) (refl, differ 100 0 refl, refl) (omega arith)
      (tt, tt) (differ 500 0 refl) refl (inl (refl, omega arith))

find_exporter_newest_example :
    (e : ℕ) × (find_exporter 5 tables 200 100 ≡ some e) × Found tables 200 e (100 ∷ [])
find_exporter_newest_example =
    find_exporter_newest tables 5 200 100 (100 ∷ []) (refl, differ 100 0 refl, refl) (omega arith)
      (tt, tt)

bind_table-StubBound_example :
    (s : ℕ → ℕ → ℕ) × (bind_table 5 tables 200 100 ≡ some (with_stubs tables s))
    × ((i : ℕ)
        → i < 1
        → StubBound (tables.entries 100) 1 (tables.stubs 200 i) (tables.seconds 200 i) (s 200 i))
    × ((i : ℕ) → 1 ≤ i → s 200 i ≡ tables.stubs 200 i)
    × ((c : ℕ) → c ≢ 200 → s c ≡ tables.stubs c)
bind_table-StubBound_example = bind_table-StubBound tables 5 200 100 1 1 one-Ends stub-Ends

abbrev boot : Boot
boot = record {
  info = λ j. if j == 2 then 0x30000 else 3;
  records = λ j. 0;
  used = 0;
  command_line = λ j. 0;
  published = false;
  command_line_at = 0x40000;
}

query_boot_mode-build_boot_records_example :
    query_boot_mode 4 (build_boot_records boot (λ j. 0)) 5 ≡ some (some 1)
query_boot_mode-build_boot_records_example = query_boot_mode-build_boot_records boot (λ j. 0) 5 1
