-- ===== src/Sysclib/Print.antt =====
-- The integer conversions of `prnt` in src/iop/sysclib.cpp. The writer a caller passes is a function
-- from its state and a character to its state. A precision of -1 is `none`.
use ps2bios_rebuild.Common.{
  update, length, ℕ, zero, suc, ◌+◌, ◌-◌, ◌/◌, ◌%◌, Bool, true, false, not, ◌&&◌, ltb, ◌==◌,
  if◌then◌else◌, Option, none, some, List, [], ◌∷◌,
}
use ps2bios_rebuild.Sysclib.Memory.{Bytes}

pub record PrintState {ℓ} (A : Type ℓ) : Type ℓ where
  pub context : A
  pub total : ℕ

abbrev pub Writer {ℓ} : Type ℓ → Type ℓ
Writer A = A → ℕ → A

unfoldable pub emit_char {ℓ} : {A : Type ℓ} → Writer A → PrintState A → ℕ → PrintState A
emit_char out st c = record { context = out st.context c; total = suc st.total }

unfoldable pub emit_all {ℓ} : {A : Type ℓ} → Writer A → PrintState A → List ℕ → PrintState A
emit_all out st [] = st
emit_all out st (c ∷ cs) = emit_all out (emit_char out st c) cs

-- while (n-- > 0) emitChar(st, c)
unfoldable pub emit_times {ℓ} : {A : Type ℓ} → Writer A → PrintState A → ℕ → ℕ → PrintState A
emit_times out st zero c = st
emit_times out st (suc n) c = emit_times out (emit_char out st c) n c

unfoldable pub digit_char : Bool → ℕ → ℕ
digit_char upper d = if ltb d 10 then 48 + d else (if upper then 65 else 97) + d - 10

-- The digits, the lowest first. The array has 32 entries, which is the fuel.
unfoldable pub digits_from : ℕ → ℕ → Bool → ℕ → List ℕ
digits_from zero magnitude upper base = []
digits_from (suc fuel) magnitude upper base =
    let rest = digits_from fuel (magnitude / base) upper base in
    if magnitude == 0 then [] else digit_char upper (magnitude % base) ∷ rest

unfoldable pub number_digits : ℕ → ℕ → Bool → Option ℕ → List ℕ
number_digits magnitude base upper prec =
    if magnitude == 0
    then elim prec [ none ↦ 48 ∷ [] | some p ↦ if p == 0 then [] else 48 ∷ [] ]
    else digits_from 32 magnitude upper base

-- Whether the highest digit is '0'.
unfoldable pub leads_with_zero : List ℕ → Bool
leads_with_zero [] = false
leads_with_zero (d ∷ []) = d == 48
leads_with_zero (d ∷ e ∷ es) = leads_with_zero (e ∷ es)

-- '#' on octal asks for one more digit.
unfoldable pub octal_precision : Bool → List ℕ → Option ℕ → Option ℕ
octal_precision alt ds prec =
    if alt && not (leads_with_zero ds)
    then elim prec [
      | none ↦ some (length ds + 1)
      | some p ↦ if ltb p (length ds + 1) then some (length ds + 1) else some p
    ]
    else prec

unfoldable pub zeros_for : Option ℕ → ℕ → ℕ
zeros_for none n = 0
zeros_for (some p) n = p - n

unfoldable pub sign_char : Bool → Bool → Bool → List ℕ
sign_char negative plus space =
    if negative then 45 ∷ [] else (if plus then 43 ∷ [] else (if space then 32 ∷ [] else []))

-- The digits in reverse.
unfoldable pub emit_reverse {ℓ} : {A : Type ℓ} → Writer A → PrintState A → List ℕ → PrintState A
emit_reverse out st [] = st
emit_reverse out st (d ∷ ds) = emit_char out (emit_reverse out st ds) d

-- The conversion's flags.
pub record Format : Type 0 where
  pub left : Bool
  pub zero_flag : Bool
  pub plus : Bool
  pub space : Bool
  pub alt_octal : Bool
  pub have_width : Bool
  pub width : ℕ
  pub prec : Option ℕ

abbrev pub is_none : Option ℕ → Bool
is_none none = true
is_none (some p) = false

unfoldable pub emit_padded_number {ℓ} :
    {A : Type ℓ} → Writer A → PrintState A → Bool → ℕ → ℕ → Bool → List ℕ → Format → PrintState A
emit_padded_number out st negative magnitude base upper prefix f =
    let ds = number_digits magnitude base upper f.prec in
    let prec = octal_precision f.alt_octal ds f.prec in
    let zeros = zeros_for prec (length ds) in
    let sign = sign_char negative f.plus f.space in
    let content = length sign + length prefix + zeros + length ds in
    let pad = if f.have_width then f.width - content else 0 in
    let zero_pad = f.zero_flag && not f.left && is_none prec in
    let st = if not f.left && not zero_pad then emit_times out st pad 32 else st in
    let st = emit_all out st sign in
    let st = emit_all out st prefix in
    let st = if not f.left && zero_pad then emit_times out st pad 48 else st in
    let st = emit_times out st zeros 48 in
    let st = emit_reverse out st ds in if f.left then emit_times out st pad 32 else st

-- `sprintf`'s writer, on memory and the place in the buffer: a character is stored, a mark of 0x200
-- or 0x201 stores a NUL.
unfoldable pub sprintf_writer : Writer (Bytes × ℕ)
sprintf_writer (m, pos) c = if ltb c 0x100 then (update m pos c, suc pos) else (update m pos 0, pos)
