-- ===== src/Sysclib/Padding.antt =====
-- What an integer conversion of src/iop/sysclib.cpp writes, as one text.
use ps2bios_rebuild.Common.{
  length, rev, times, length-append, length-rev, length-times, ℕ, zero, suc, ◌+◌, ◌-◌, ◌≡◌, ◌∙◌,
  inl, inr, refl, sym, ap, arith, Bool, true, false, not, ◌&&◌, ltb, if◌then◌else◌, List, [], ◌∷◌,
  ◌++◌, Bool-cases,
}
use ps2bios_rebuild.Sysclib.Print.{
  PrintState, Writer, emit_char, emit_all, emit_times, emit_reverse, number_digits, octal_precision,
  zeros_for, sign_char, Format, is_none, emit_padded_number,
}

-- The digits with the zeros of the precision, its length with sign and prefix, and the padding.
abbrev pub digits_text : ℕ → ℕ → Bool → Format → List ℕ
digits_text magnitude base upper f =
    let ds = number_digits magnitude base upper f.prec in
    times (zeros_for (octal_precision f.alt_octal ds f.prec) (length ds)) 48 ++ rev ds

abbrev pub pads_with_zeros : ℕ → ℕ → Bool → Format → Bool
pads_with_zeros magnitude base upper f =
    f.zero_flag
    && is_none (octal_precision f.alt_octal (number_digits magnitude base upper f.prec) f.prec)

-- Sign, prefix and digits, padded to the width on the left, on the right, or by zeros inside.
abbrev pub padded_text : Bool → ℕ → ℕ → Bool → List ℕ → Format → List ℕ
padded_text negative magnitude base upper prefix f =
    let mark = sign_char negative f.plus f.space ++ prefix in
    let ds = digits_text magnitude base upper f in
    let pad = if f.have_width then f.width - length (mark ++ ds) else 0 in
    if f.left
    then mark ++ ds ++ times pad 32
    else (if pads_with_zeros magnitude base upper f
        then mark ++ times pad 48 ++ ds
        else times pad 32 ++ mark ++ ds)

and_swap : (a b c : Bool) → (a && b && c) ≡ ((a && c) && b)
and_swap a b c = ground arith

content-length :
    (sign prefix ds : List ℕ) (zeros : ℕ)
    → length sign + length prefix + zeros + length ds
      ≡ length ((sign ++ prefix) ++ (times zeros 48 ++ rev ds))
content-length sign prefix ds zeros =
    let a = length-append (sign ++ prefix) (times zeros 48 ++ rev ds) in
    let b = length-append sign prefix in
    let c = length-append (times zeros 48) (rev ds) in
    let d = length-times {A = ℕ} zeros 48 in let e = length-rev ds in omega (arith, a, b, c, d, e)

module _ {ℓ} {A : Type ℓ} (out : Writer A) where
  pub emit_all-append :
      (st : PrintState A) (xs ys : List ℕ)
      → emit_all out st (xs ++ ys) ≡ emit_all out (emit_all out st xs) ys
  unfolding emit_all
  emit_all-append st [] ys = refl
  emit_all-append st (x ∷ xs) ys = emit_all-append (emit_char out st x) xs ys

  emit_times-times :
      (st : PrintState A) (n c : ℕ) → emit_times out st n c ≡ emit_all out st (times n c)
  unfolding emit_all emit_times
  emit_times-times st zero c = refl
  emit_times-times st (suc n) c = emit_times-times (emit_char out st c) n c

  emit_reverse-rev :
      (st : PrintState A) (ds : List ℕ) → emit_reverse out st ds ≡ emit_all out st (rev ds)
  unfolding emit_all emit_reverse
  emit_reverse-rev st [] = refl
  emit_reverse-rev st (d ∷ ds) =
      ap (λ x. emit_char out x d) (emit_reverse-rev st ds)
      ∙ sym (emit_all-append st (rev ds) (d ∷ []))

  -- The writes of a conversion, from its parts.
  parts :
      (st : PrintState A) (left zero_pad : Bool) (pad zeros : ℕ) (sign prefix ds : List ℕ)
      → PrintState A
  parts st left zero_pad pad zeros sign prefix ds =
      let st = if not left && not zero_pad then emit_times out st pad 32 else st in
      let st = emit_all out st sign in
      let st = emit_all out st prefix in
      let st = if not left && zero_pad then emit_times out st pad 48 else st in
      let st = emit_times out st zeros 48 in
      let st = emit_reverse out st ds in if left then emit_times out st pad 32 else st

  parts-text :
      (st : PrintState A) (left fill : Bool) (pad zeros : ℕ) (sign prefix ds : List ℕ)
      → let mark = sign ++ prefix in
        let body = times zeros 48 ++ rev ds in
        parts st left (fill && not left) pad zeros sign prefix ds
        ≡ emit_all out st (
            if left
            then mark ++ body ++ times pad 32
            else (if fill then mark ++ times pad 48 ++ body else times pad 32 ++ mark ++ body))
  unfolding parts
  parts-text st true true pad z sign prefix ds =
      simp (emit_all-append, emit_times-times, emit_reverse-rev) refl
  parts-text st true false pad z sign prefix ds =
      simp (emit_all-append, emit_times-times, emit_reverse-rev) refl
  parts-text st false true pad z sign prefix ds =
      simp (emit_all-append, emit_times-times, emit_reverse-rev) refl
  parts-text st false false pad z sign prefix ds =
      simp (emit_all-append, emit_times-times, emit_reverse-rev) refl

  -- An integer conversion writes one text through any writer: sign, prefix, the zeros of the
  -- precision and the digits, with the padding to the width before it, behind it, or as zeros
  -- between the prefix and the digits.
  pub emit_padded_number-text :
      (st : PrintState A) (negative : Bool) (magnitude base : ℕ) (upper : Bool) (prefix : List ℕ)
      (f : Format)
      → emit_padded_number out st negative magnitude base upper prefix f
        ≡ emit_all out st (padded_text negative magnitude base upper prefix f)
  unfolding emit_padded_number parts
  emit_padded_number-text st negative magnitude base upper prefix f =
      let ds = number_digits magnitude base upper f.prec in
      let prec = octal_precision f.alt_octal ds f.prec in
      let zeros = zeros_for prec (length ds) in
      let sign = sign_char negative f.plus f.space in
      let n' = length ((sign ++ prefix) ++ (times zeros 48 ++ rev ds)) in
      let pad : ℕ → ℕ = λ n. if f.have_width then f.width - n else 0 in
      ap
        (λ n.
          parts st f.left (f.zero_flag && not f.left && is_none prec) (pad n) zeros sign prefix ds)
        (content-length sign prefix ds zeros)
      ∙ ap (λ b. parts st f.left b (pad n') zeros sign prefix ds)
          (and_swap f.zero_flag (not f.left) (is_none prec))
      ∙ parts-text st f.left (f.zero_flag && is_none prec) (pad n') zeros sign prefix ds

placed :
    (mark ds gap : List ℕ) (pad width : ℕ)
    → length gap ≡ pad
    → pad ≡ width - length (mark ++ ds)
    → let content = length (mark ++ ds) in
      let n = if ltb content width then width else content in
      (length (mark ++ ds ++ gap) ≡ n)
      × (length (mark ++ gap ++ ds) ≡ n)
      × (length (gap ++ mark ++ ds) ≡ n)
placed mark ds gap pad width g h =
    let a = length-append mark ds in
    let b = length-append (mark ++ ds) gap in
    let c = length-append (mark ++ gap) ds in
    let d = length-append mark gap in
    let e = length-append (gap ++ mark) ds in
    let f = length-append gap mark in
    (ground (arith, a, b), ground (arith, a, c, d), ground (arith, a, e, f))

-- The text of a conversion is as long as the width, or as sign, prefix, zeros and digits if they
-- need more.
pub padded_text-length :
    (negative : Bool) (magnitude base : ℕ) (upper : Bool) (prefix : List ℕ) (f : Format)
    → f.have_width ≡ true
    → let content =
        length
          ((sign_char negative f.plus f.space ++ prefix) ++ digits_text magnitude base upper f) in
      length (padded_text negative magnitude base upper prefix f)
      ≡ (if ltb content f.width then f.width else content)
padded_text-length negative magnitude base upper prefix f h =
    let mark = sign_char negative f.plus f.space ++ prefix in
    let ds = digits_text magnitude base upper f in
    let pad = f.width - length (mark ++ ds) in
    rw h (elim (Bool-cases f.left) [
      | inl e ↦ rw e (placed mark ds (times pad 32) pad f.width (length-times pad 32) refl).0
      | inr e ↦ elim (Bool-cases (pads_with_zeros magnitude base upper f)) [
        | inl z ↦ rw (e, z) (placed mark ds (times pad 48) pad f.width (length-times pad 48) refl).1
        | inr z ↦ rw (e, z) (placed mark ds (times pad 32) pad f.width (length-times pad 32) refl).2
      ]
    ])
