-- ===== src/Sysclib/Directives.antt =====
-- How `prnt` of src/iop/sysclib.cpp reads a directive behind its '%'. Loops over the format have
-- fuel. Widths and precisions are taken not to leave an `int`.
use ps2bios_rebuild.Common.{
  ℕ, zero, suc, ◌+◌, ◌-◌, ◌*◌, Bool, true, false, ◌||◌, ◌==◌, if◌then◌else◌, sub32, Option, none,
  some,
}
use ps2bios_rebuild.Sysclib.Memory.{Bytes, is_negative, read_word}
use ps2bios_rebuild.Sysclib.Ctype.{between}

pub record Marks : Type 0 where
  pub left : Bool
  pub plus : Bool
  pub space : Bool
  pub alt : Bool
  pub zero_flag : Bool

-- '-', '+', ' ', '#' and '0'.
unfoldable pub is_flag : ℕ → Bool
is_flag c = c == 45 || c == 43 || c == 32 || c == 35 || c == 48

unfoldable pub with_flag : ℕ → Marks → Marks
with_flag c f = record {
  left = f.left || c == 45;
  plus = f.plus || c == 43;
  space = f.space || c == 32;
  alt = f.alt || c == 35;
  zero_flag = f.zero_flag || c == 48;
}

unfoldable pub read_flags : ℕ → Bytes → ℕ → Marks → Option (ℕ × Marks)
read_flags zero m p f = none
read_flags (suc fuel) m p f =
    let rest = read_flags fuel m (suc p) (with_flag (m p) f) in
    if is_flag (m p) then rest else some (p, f)

-- A number, whether it has a digit, and where it ends.
pub record Decimal : Type 0 where
  pub value : ℕ
  pub given : Bool
  pub position : ℕ

unfoldable pub read_decimal : ℕ → Bytes → Decimal → Option Decimal
read_decimal zero m n = none
read_decimal (suc fuel) m n =
    let c = m n.position in
    let rest =
      read_decimal fuel m
        (record { value = n.value * 10 + (c - 48); given = true; position = suc n.position }) in
    if between 48 c 57 then rest else some n

abbrev pub decimal_at : ℕ → Decimal
decimal_at p = record { value = 0; given = false; position = p }

-- A directive up to its conversion, with the place of the next argument.
pub record Directive : Type 0 where
  pub left : Bool
  pub have_width : Bool
  pub width : ℕ
  pub prec : Option ℕ
  pub position : ℕ
  pub cursor : ℕ

-- '*' takes an argument, and one below 0 puts the text on the left.
unfoldable pub read_width : ℕ → Bytes → ℕ → ℕ → Bool → Option Directive
read_width fuel m p cursor left =
    if m p == 42
    then (let w = read_word m cursor in
        some (record {
          left = left || is_negative w;
          have_width = true;
          width = if is_negative w then sub32 0 w else w;
          prec = none;
          position = suc p;
          cursor = cursor + 4;
        }))
    else elim (read_decimal fuel m (decimal_at p)) [
      | none ↦ none
      | some n ↦ some (record {
        left = left;
        have_width = n.given;
        width = n.value;
        prec = none;
        position = n.position;
        cursor = cursor;
      })
    ]

-- A '.', and '*' or digits behind it.
unfoldable pub read_precision : ℕ → Bytes → Directive → Option Directive
read_precision fuel m d =
    if m d.position == 46
    then (if m (d.position + 1) == 42
        then (let v = read_word m d.cursor in
            some (record d {
              prec = if is_negative v then none else some v;
              position = d.position + 2;
              cursor = d.cursor + 4;
            }))
        else elim (read_decimal fuel m (decimal_at (d.position + 1))) [
          | none ↦ none
          | some n ↦ some (record d { prec = some n.value; position = n.position })
        ])
    else some d

-- 'h', 'l' and 'L' are skipped.
unfoldable pub skip_lengths : ℕ → Bytes → ℕ → Option ℕ
skip_lengths zero m p = none
skip_lengths (suc fuel) m p =
    let rest = skip_lengths fuel m (suc p) in
    if m p == 104 || m p == 108 || m p == 76 then rest else some p

unfoldable pub read_directive : ℕ → Bytes → ℕ → ℕ → Option (Marks × Directive)
read_directive fuel m p cursor =
    elim (read_flags fuel m p
      (record { left = false; plus = false; space = false; alt = false; zero_flag = false })) [
        | none ↦ none
        | some (q, f) ↦ elim (read_width fuel m q cursor f.left) [
          | none ↦ none
          | some d ↦ elim (read_precision fuel m d) [
            | none ↦ none
            | some e ↦ elim (skip_lengths fuel m e.position) [
              | none ↦ none
              | some r ↦ some (f, record e { position = r })
            ]
          ]
        ]
      ]
