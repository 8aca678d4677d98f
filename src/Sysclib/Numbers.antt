-- ===== src/Sysclib/Numbers.antt =====
-- The number parsers of src/iop/sysclib.cpp, ordinals 36 to 38. Loops over the text have fuel, and
-- `none` is that it ran out. `beyond` is what lies outside the character table.
use ps2bios_rebuild.Common.{
  ℕ, zero, suc, ◌+◌, ◌-◌, ◌*◌, ◌%◌, Bool, true, false, not, ◌&&◌, ◌||◌, leb, ◌==◌, if◌then◌else◌,
  sub32, Option, none, some,
}
use ps2bios_rebuild.Sysclib.Memory.{Bytes, null, is_negative, write_word}
use ps2bios_rebuild.Sysclib.Ctype.{Flags, between, is_space_char}

-- The digit's value; `none` for -1.
unfoldable pub digit_value : ℕ → Option ℕ
digit_value c =
    if between 48 c 57
    then some (c - 48)
    else (if between 97 c 122
        then some (c - 97 + 10)
        else (if between 65 c 90 then some (c - 65 + 10) else none))

-- A digit of the base, which is an `int`: below 0 it has none.
unfoldable pub digit_of : ℕ → ℕ → Option ℕ
digit_of base c = elim (digit_value c) [
  | none ↦ none
  | some d ↦ if is_negative base || leb base d then none else some d
]

-- Where the text goes on, and in which base.
unfoldable pub apply_base_prefix : Bytes → ℕ → ℕ → ℕ × ℕ
apply_base_prefix m p base =
    if m p == 48 && (m (p + 1) == 120 || m (p + 1) == 88)
    then (p + 2, 16)
    else (if m p == 48 && (m (p + 1) == 98 || m (p + 1) == 66)
        then (p + 2, 2)
        else (if m p == 111 || m p == 79
            then (p + 1, 8)
            else (if base == 0 then (p, 10) else (p, base))))

unfoldable pub skip_spaces : ℕ → (ℕ → Flags) → Bytes → ℕ → Option ℕ
skip_spaces zero beyond m p = none
skip_spaces (suc fuel) beyond m p =
    let rest = skip_spaces fuel beyond m (suc p) in
    if is_space_char beyond (m p) then rest else some p

-- Each '-' toggles the sign.
unfoldable pub skip_signs : ℕ → Bytes → ℕ → Bool → Option (ℕ × Bool)
skip_signs zero m p negative = none
skip_signs (suc fuel) m p negative =
    let rest = skip_signs fuel m (suc p) (not negative) in
    if m p == 45 then rest else some (p, negative)

-- The value so far, where the text goes on, and whether there was a digit.
pub record Scan : Type 0 where
  pub value : ℕ
  pub position : ℕ
  pub any : Bool

unfoldable pub scan_digits : ℕ → Bytes → ℕ → Scan → Option Scan
scan_digits zero m base s = none
scan_digits (suc fuel) m base s = elim (digit_of base (m s.position)) [
  | none ↦ some s
  | some d ↦
      scan_digits fuel m base (record {
        value = (s.value * base + d) % 0x100000000;
        position = suc s.position;
        any = true;
      })
]

abbrev pub scan_from : ℕ × ℕ → Scan
scan_from (p, base) = record { value = 0; position = p; any = false }

-- The value of a scan that began at s, and its end.
unfoldable pub scanned : ℕ → Bool → Option Scan → Option (ℕ × ℕ)
scanned s negative none = none
scanned s negative (some r) =
    some ((if negative then sub32 0 r.value else r.value), (if r.any then r.position else s))

unfoldable pub scan_number : ℕ → Bytes → ℕ → ℕ → Option Scan
scan_number fuel m p base =
    let q = apply_base_prefix m p base in scan_digits fuel m q.1 (scan_from q)

-- The rest of a string s behind its spaces, which end at p; the flag is whether signs are read.
unfoldable pub parse_behind : ℕ → Bytes → ℕ → ℕ → ℕ → Bool → Option (ℕ × ℕ)
parse_behind fuel m s p base false = scanned s false (scan_number fuel m p base)
parse_behind fuel m s p base true = elim (skip_signs fuel m p false) [
  | none ↦ none
  | some (q, negative) ↦ scanned s negative (scan_number fuel m q base)
]

unfoldable pub parse : ℕ → (ℕ → Flags) → Bytes → ℕ → ℕ → Bool → Option (ℕ × ℕ)
parse fuel beyond m s base signed = elim (skip_spaces fuel beyond m s) [
  | none ↦ none
  | some p ↦ parse_behind fuel m s p base signed
]

-- The store through `endptr`, unless it is null.
unfoldable pub store_end : Bytes → ℕ → Option (ℕ × ℕ) → Option (ℕ × Bytes)
store_end m endptr none = none
store_end m endptr (some (value, e)) =
    some (value, if endptr == null then m else write_word m endptr e)

-- Ordinal 36: what it answers, and memory.
unfoldable pub strtol : ℕ → (ℕ → Flags) → Bytes → ℕ → ℕ → ℕ → Option (ℕ × Bytes)
strtol fuel beyond m s endptr base =
    store_end m endptr (if s == null then some (0, null) else parse fuel beyond m s base true)

-- Ordinal 38.
unfoldable pub strtoul : ℕ → (ℕ → Flags) → Bytes → ℕ → ℕ → ℕ → Option (ℕ × Bytes)
strtoul fuel beyond m s endptr base =
    store_end m endptr (if s == null then some (0, null) else parse fuel beyond m s base false)

-- Ordinal 37: where the number ends, and memory with its value at v.
unfoldable pub atob : ℕ → (ℕ → Flags) → Bytes → ℕ → ℕ → Option (ℕ × Bytes)
atob fuel beyond m s v =
    if s == null then some (null, m) else elim (parse fuel beyond m s 10 true) [
      | none ↦ none
      | some (value, e) ↦ some (e, if v == null then m else write_word m v value)
    ]
