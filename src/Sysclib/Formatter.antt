-- ===== src/Sysclib/Formatter.antt =====
-- The conversions of `prnt` in src/iop/sysclib.cpp, and its loop over the format. Memory stands
-- beside the caller's state, since the writer may store into it.
use ps2bios_rebuild.Common.{
  ℕ, zero, suc, ◌+◌, ◌-◌, ◌%◌, Bool, true, false, not, ◌&&◌, ◌||◌, ltb, ◌==◌, if◌then◌else◌, sub32,
  Option, none, some, List, [], ◌∷◌,
}
use ps2bios_rebuild.Sysclib.Memory.{Bytes, null, is_negative, read_word, write_word}
use ps2bios_rebuild.Sysclib.Print.{
  PrintState, Writer, emit_char, emit_all, emit_times, Format, emit_padded_number, sprintf_writer,
}
use ps2bios_rebuild.Sysclib.Directives.{Marks, Directive, read_directive}

-- What the number conversions pass on: the last two are for the signed ones, the third for octal.
abbrev pub format_of : Marks → Directive → Bool → Bool → Bool → Format
format_of f d alt_octal plus space = record {
  left = d.left;
  zero_flag = f.zero_flag;
  plus = plus;
  space = space;
  alt_octal = alt_octal;
  have_width = d.have_width;
  width = d.width;
  prec = d.prec;
}

-- "(null)", and the first n characters of a list.
abbrev pub null_text : List ℕ
null_text = 40 ∷ 110 ∷ 117 ∷ 108 ∷ 108 ∷ 41 ∷ []

unfoldable pub first_of : ℕ → List ℕ → List ℕ
first_of zero xs = []
first_of (suc n) [] = []
first_of (suc n) (x ∷ xs) = x ∷ first_of n xs

abbrev pub below_precision : ℕ → Option ℕ → Bool
below_precision n none = true
below_precision n (some p) = ltb n p

-- The length of a string that is printed, from its nth character on.
unfoldable pub printed_length : ℕ → Bytes → ℕ → Option ℕ → ℕ → Option ℕ
printed_length zero m s prec n = none
printed_length (suc fuel) m s prec n =
    let rest = printed_length fuel m s prec (suc n) in
    if not (m (s + n) == 0) && below_precision n prec then rest else some n

abbrev pub null_length : Option ℕ → ℕ
null_length none = 6
null_length (some p) = if ltb p 6 then p else 6

module _ {ℓ} {A : Type ℓ} (out : Writer (Bytes × A)) where
  -- for (i = first; i < first + n; i++) emitChar(st, s[i])
  unfoldable pub emit_memory : PrintState (Bytes × A) → ℕ → ℕ → ℕ → PrintState (Bytes × A)
  emit_memory st s i zero = st
  emit_memory st s i (suc n) = emit_memory (emit_char out st (st.context.0 (s + i))) s (suc i) n

  -- A text between its paddings.
  unfoldable pub emit_between :
      (PrintState (Bytes × A) → PrintState (Bytes × A))
      → PrintState (Bytes × A)
      → Bool
      → ℕ
      → PrintState (Bytes × A)
  emit_between text st left pad =
      let st = if not left then emit_times out st pad 32 else st in
      let st = text st in if left then emit_times out st pad 32 else st

  abbrev padding : Directive → ℕ → ℕ
  padding d n = if d.have_width then d.width - n else 0

  unfoldable pub print_string :
      ℕ → PrintState (Bytes × A) → Directive → ℕ → Option (PrintState (Bytes × A))
  print_string fuel st d s =
      if s == null
      then (let n = null_length d.prec in
          some (emit_between (λ x. emit_all out x (first_of n null_text)) st d.left (padding d n)))
      else elim (printed_length fuel st.context.0 s d.prec 0) [
        | none ↦ none
        | some n ↦ some (emit_between (λ x. emit_memory x s 0 n) st d.left (padding d n))
      ]

  unfoldable pub print_signed :
      PrintState (Bytes × A) → Marks → Directive → ℕ → PrintState (Bytes × A)
  print_signed st f d v =
      emit_padded_number out st (is_negative v) (if is_negative v then sub32 0 v else v) 10 false []
        (format_of f d false f.plus f.space)

  unfoldable pub print_unsigned :
      PrintState (Bytes × A) → Marks → Directive → ℕ → ℕ → Bool → List ℕ → PrintState (Bytes × A)
  print_unsigned st f d v base upper prefix =
      emit_padded_number out st false v base upper prefix
        (format_of f d (f.alt && base == 8) false false)

  -- A store of the count, unless the address is null.
  unfoldable pub print_count : PrintState (Bytes × A) → ℕ → PrintState (Bytes × A)
  print_count st address =
      if address == null
      then st
      else record st { context = (write_word st.context.0 address st.total, st.context.1) }

  -- One conversion: the state and where the next argument is.
  unfoldable pub convert :
      ℕ → PrintState (Bytes × A) → Marks → Directive → ℕ → Option (PrintState (Bytes × A) × ℕ)
  convert fuel st f d conv =
      let v = read_word st.context.0 d.cursor in
      let next = d.cursor + 4 in
      let prefix : ℕ → List ℕ = λ x. if f.alt && not (v == 0) then 48 ∷ x ∷ [] else [] in
      if conv == 99
      then some (emit_between (λ x. emit_char out x (v % 0x100)) st d.left (padding d 1), next)
      else (if conv == 100 || conv == 105 || conv == 68
          then some (print_signed st f d v, next)
          else (if conv == 117 || conv == 85
              then some (print_unsigned st f d v 10 false [], next)
              else (if conv == 111 || conv == 79
                  then some (print_unsigned st f d v 8 false [], next)
                  else (if conv == 120
                      then some (print_unsigned st f d v 16 false (prefix 120), next)
                      else (if conv == 88
                          then some (print_unsigned st f d v 16 true (prefix 88), next)
                          else (if conv == 112
                              then some (print_unsigned st f d v 16 false (48 ∷ 120 ∷ []), next)
                              else (if conv == 115
                                  then elim (print_string fuel st d v) [
                                    | none ↦ none
                                    | some x ↦ some (x, next)
                                  ]
                                  else (if conv == 110
                                      then some (print_count st v, next)
                                      else (if conv == 0
                                          then some (st, d.cursor)
                                          else some (
                                            emit_char out (emit_char out st 37) conv,
                                            d.cursor,
                                          ))))))))))

  -- while (*fmt != '\0')
  unfoldable pub print_from : ℕ → PrintState (Bytes × A) → ℕ → ℕ → Option (PrintState (Bytes × A))
  print_from zero st p cursor = none
  print_from (suc fuel) st p cursor =
      let m = st.context.0 in
      let plain_rest = print_from fuel (emit_char out st (m p)) (suc p) cursor in
      let directive_rest : Option (PrintState (Bytes × A)) =
        elim (read_directive fuel m (suc p) cursor) [
          | none ↦ none
          | some (f, d) ↦
              let conv = m d.position in
              elim (convert fuel st f d conv) [
                | none ↦ none
                | some (st', next) ↦
                    print_from fuel st' (if conv == 0 then d.position else suc d.position) next
              ]
        ] in
      if m p == 0 then some st else (if m p == 37 then directive_rest else plain_rest)

  -- Ordinal 18: the count, with memory and the caller's state.
  unfoldable pub prnt : ℕ → Bytes × A → ℕ → ℕ → Option (ℕ × (Bytes × A))
  prnt fuel context fmt ap =
      if fmt == null
      then some (0, context)
      else elim (print_from fuel (record { context = out context 0x200; total = 0 }) fmt ap) [
        | none ↦ none
        | some st ↦ some (st.total, out st.context 0x201)
      ]

-- Ordinal 19, over the arguments at `ap`: the count, and memory.
unfoldable pub sprintf : ℕ → Bytes → ℕ → ℕ → ℕ → Option (ℕ × Bytes)
sprintf fuel m buf fmt ap = elim (prnt sprintf_writer fuel (m, buf) fmt ap) [
  | none ↦ none
  | some (n, (m', pos)) ↦ some (n, m')
]
