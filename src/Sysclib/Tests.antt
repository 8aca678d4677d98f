-- ===== src/Sysclib/Tests.antt =====
-- Runs of src/iop/sysclib.cpp on a small memory, and the theorems there.
use ps2bios_rebuild.Common.{
  ℕ, ◌+◌, ◌≡◌, ◌<◌, ◌==◌, inl, inr, refl, arith, true, false, if◌then◌else◌, none, some, [], ◌∷◌,
  length,
}
use ps2bios_rebuild.Sysclib.Memory.{Bytes, null, memmove, memcpy, copy_up}
use ps2bios_rebuild.Sysclib.Ctype.{Flags}
use ps2bios_rebuild.Sysclib.Moves.{Outside, memmove_lem}
use ps2bios_rebuild.Sysclib.Words.{AllBytes, memcpy-copy_up}
use ps2bios_rebuild.Sysclib.Strings.{strcat}
use ps2bios_rebuild.Sysclib.Text.{IsString, strcat-IsString}
use ps2bios_rebuild.Sysclib.Numbers.{strtoul}
use ps2bios_rebuild.Sysclib.Print.{
  PrintState, Format, number_digits, digits_from, emit_all, emit_padded_number, sprintf_writer,
}
use ps2bios_rebuild.Sysclib.Padding.{padded_text, emit_padded_number-text}
use ps2bios_rebuild.Sysclib.Written.{plain, strtoul-sprintf}

-- "ab" at 100, "abc" at 200, and "c" at 300.
abbrev words : Bytes
words a =
    if a == 100
    then 97
    else (if a == 101
        then 98
        else (if a == 200
            then 97
            else (if a == 201
                then 98
                else (if a == 202 then 99 else (if a == 300 then 99 else 0)))))

abbrev nothing : ℕ → Flags
nothing c = record {
  upper = false;
  lower = false;
  digit = false;
  space = false;
  punct = false;
  control = false;
  hex_letter = false;
}

words-AllBytes : AllBytes words
words-AllBytes a = ground arith

ab : IsString words 100 (97 ∷ 98 ∷ [])
ab = (refl, omega arith, (refl, omega arith, refl))

abc : IsString words 200 (97 ∷ 98 ∷ 99 ∷ [])
abc = (refl, omega arith, (refl, omega arith, (refl, omega arith, refl)))

only_c : IsString words 300 (99 ∷ [])
only_c = (refl, omega arith, refl)

memmove_lem_example :
    let (r, m') = memmove words 101 100 3 in
    (r ≡ 101)
    × ((j : ℕ) → j < 3 → m' (101 + j) ≡ words (100 + j))
    × ((a : ℕ) → Outside 101 3 a → m' a ≡ words a)
memmove_lem_example = memmove_lem words 101 100 3

memcpy-copy_up_example : memcpy words 400 200 24 ≡ (400, copy_up 24 words 400 200 0)
memcpy-copy_up_example = memcpy-copy_up words 400 200 24 words-AllBytes

strcat-IsString_example :
    (u : Bytes) × (strcat 8 words 100 300 ≡ some (100, u))
    × IsString u 100 (97 ∷ 98 ∷ 99 ∷ [])
    × ((a : ℕ) → Outside 102 2 a → u a ≡ words a)
strcat-IsString_example =
    strcat-IsString 8 words 100 300 (97 ∷ 98 ∷ []) (99 ∷ []) (omega arith) (omega arith) ab only_c
      (omega arith) (omega arith) (inl (omega arith))

-- A width of 6 with zeros.
abbrev wide : Format
wide = record {
  left = false;
  zero_flag = true;
  plus = true;
  space = false;
  alt_octal = false;
  have_width = true;
  width = 6;
  prec = none;
}

abbrev opened : PrintState (Bytes × ℕ)
opened = record { context = (words, 400); total = 0 }

emit_padded_number-text_example :
    emit_padded_number sprintf_writer opened false 255 16 true [] wide
    ≡ emit_all sprintf_writer opened (padded_text false 255 16 true [] wide)
emit_padded_number-text_example =
    emit_padded_number-text sprintf_writer opened false 255 16 true [] wide

few_digits : length (number_digits 255 16 true none) < 8
unfolding number_digits digits_from
few_digits = omega arith

strtoul-sprintf_example :
    let st = emit_padded_number sprintf_writer opened false 255 16 true [] plain in
    let m' = (sprintf_writer st.context 0x201).0 in
    strtoul 8 nothing m' 400 null 16 ≡ some (255, m')
strtoul-sprintf_example =
    strtoul-sprintf 8 nothing words 400 0 255 16 null true (inr (inr refl)) (omega arith)
      (omega arith) few_digits
