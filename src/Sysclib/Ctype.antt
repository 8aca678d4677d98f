-- ===== src/Sysclib/Ctype.antt =====
-- The character table of src/iop/sysclib.cpp, ordinals 6 to 9. A character is the 32 bits of an
-- `int`, so that -1 is the largest word.
use ps2bios_rebuild.Common.{ℕ, ◌+◌, Bool, ◌&&◌, ◌||◌, ltb, leb, ◌==◌, if◌then◌else◌, add32, sub32}

-- The flags of the table's byte.
pub record Flags : Type 0 where
  pub upper : Bool
  pub lower : Bool
  pub digit : Bool
  pub space : Bool
  pub punct : Bool
  pub control : Bool
  pub hex_letter : Bool

abbrev bit : Bool → ℕ → ℕ
bit b weight = if b then weight else 0

-- kUpper to kHexLetter.
unfoldable pub flags_byte : Flags → ℕ
flags_byte f =
    bit f.upper 0x01
    + bit f.lower 0x02
    + bit f.digit 0x04
    + bit f.space 0x08
    + bit f.punct 0x10
    + bit f.control 0x20
    + bit f.hex_letter 0x40

-- A negative `int` is a word above every `high` here.
abbrev pub between : ℕ → ℕ → ℕ → Bool
between low c high = leb low c && leb c high

unfoldable pub classify : ℕ → Flags
classify c = record {
  upper = between 65 c 70 || between 71 c 90;
  lower = between 97 c 102 || between 103 c 122;
  digit = between 48 c 57;
  space = between 0x09 c 0x0D || c == 32;
  punct =
      c == 32
      || between 0x21 c 0x2F
      || between 0x3A c 0x40
      || between 0x5B c 0x60
      || between 0x7B c 0x7E;
  control = leb c 8 || between 0x0E c 0x1F || c == 0x7F;
  hex_letter = between 65 c 70 || between 97 c 102;
}

-- Entry i has the flags of character i - 1.
unfoldable pub ctype_storage : ℕ → Flags
ctype_storage i = classify (sub32 i 1)

-- ctypeTablePtr()[c]; `beyond` is what lies behind the 256 entries and before them.
unfoldable pub ctype_entry : (ℕ → Flags) → ℕ → Flags
ctype_entry beyond c = let i = add32 c 1 in if ltb i 256 then ctype_storage i else beyond c

-- Ordinal 8.
unfoldable pub ctype_lookup : (ℕ → Flags) → ℕ → ℕ
ctype_lookup beyond c = flags_byte (ctype_entry beyond c)

-- Ordinals 6 and 7.
unfoldable pub toupper : (ℕ → Flags) → ℕ → ℕ
toupper beyond c = if (ctype_entry beyond c).lower then sub32 c 0x20 else c

unfoldable pub tolower : (ℕ → Flags) → ℕ → ℕ
tolower beyond c = if (ctype_entry beyond c).upper then add32 c 0x20 else c

unfoldable pub is_space_char : (ℕ → Flags) → ℕ → Bool
is_space_char beyond c = (ctype_entry beyond c).space
