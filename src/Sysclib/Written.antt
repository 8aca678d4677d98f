-- ===== src/Sysclib/Written.antt =====
-- What `sprintf` of src/iop/sysclib.cpp writes into its buffer for an integer, and what its number
-- parsers make of it.
use ps2bios_rebuild.Common.{
  ℕ, zero, suc, ◌+◌, ◌/◌, ◌%◌, ◌<◌, ◌≡◌, ◌≢◌, ◌==◌, ◌∙◌, inl, inr, refl, sym, ap, subst, arith,
  Bool, true, false, if◌then◌else◌, ltb, none, some, List, [], ◌∷◌, ◌++◌, Bool-cases, update, word,
  length, rev,
}
use ps2bios_rebuild.Sysclib.Memory.{Bytes, null, write_word}
use ps2bios_rebuild.Sysclib.Ctype.{Flags}
use ps2bios_rebuild.Sysclib.Text.{IsString}
use ps2bios_rebuild.Sysclib.Numbers.{strtoul, store_end}
use ps2bios_rebuild.Sysclib.Print.{
  emit_char, emit_all, digit_char, digits_from, number_digits, octal_precision, zeros_for,
  sign_char, Format, emit_padded_number, sprintf_writer,
}
use ps2bios_rebuild.Sysclib.Parse.{IsBase}
use ps2bios_rebuild.Sysclib.RoundTrip.{number_parse}
use ps2bios_rebuild.Sysclib.Padding.{emit_padded_number-text}

-- Bytes that are not NUL.
abbrev pub AllChars : List ℕ → Type 0
AllChars [] = Unit {0}
AllChars (c ∷ cs) = (c ≢ 0) × (c < 0x100) × AllChars cs

AllChars-append : (xs ys : List ℕ) → AllChars xs → AllChars ys → AllChars (xs ++ ys)
AllChars-append [] ys a b = b
AllChars-append (x ∷ xs) ys a b = (a.0, a.1, AllChars-append xs ys a.2 b)

AllChars-rev : (xs : List ℕ) → AllChars xs → AllChars (rev xs)
AllChars-rev [] a = tt
AllChars-rev (x ∷ xs) a = AllChars-append (rev xs) (x ∷ []) (AllChars-rev xs a.2) (a.0, a.1, tt)

remainder_small : (base m : ℕ) → IsBase base → m % base < 16
remainder_small base m b = elim b [
  | inl e ↦ rw e (omega arith)
  | inr (inl e) ↦ rw e (omega arith)
  | inr (inr e) ↦ rw e (omega arith)
]

digit_char-AllChars :
    (base m : ℕ) (upper : Bool)
    → IsBase base
    → (digit_char upper (m % base) ≢ 0) × (digit_char upper (m % base) < 0x100)
unfolding digit_char
digit_char-AllChars base m true b = let h = remainder_small base m b in (ground arith, ground arith)
digit_char-AllChars base m false b =
    let h = remainder_small base m b in (ground arith, ground arith)

digits_from-AllChars :
    (fuel m base : ℕ) (upper : Bool) → IsBase base → AllChars (digits_from fuel m upper base)
unfolding digits_from
digits_from-AllChars zero m base upper b = tt
digits_from-AllChars (suc fuel) m base upper b = elim (Bool-cases (m == 0)) [
  | inl e ↦ rw e tt
  | inr e ↦
      let f = digit_char-AllChars base m upper b in
      rw e (f.0, f.1, digits_from-AllChars fuel (m / base) base upper b)
]

number_digits-AllChars :
    (v base : ℕ) (upper : Bool) → IsBase base → AllChars (number_digits v base upper none)
unfolding number_digits
number_digits-AllChars v base upper b = elim (Bool-cases (v == 0)) [
  | inl e ↦ rw (number_digits, e) (omega arith, omega arith, tt)
  | inr e ↦ rw (number_digits, e) (digits_from-AllChars 32 v base upper b)
]

-- The writer's state, after `cs` from the place s on, and then a mark.
unfoldable pub ended : Bytes → ℕ → ℕ → List ℕ → Bytes
ended m s total cs =
    (sprintf_writer
      (emit_all sprintf_writer (record { context = (m, s); total = total }) cs).context 0x201).0

ended_step :
    (m : Bytes) (s total c : ℕ) (cs : List ℕ)
    → c < 0x100
    → ended m s total (c ∷ cs) ≡ ended (update m s c) (suc s) (suc total) cs
unfolding ended emit_all emit_char sprintf_writer
ended_step m s total c cs h =
    let f : ltb c 0x100 ≡ true = ground arith in
    ap
      (λ x.
        (sprintf_writer
          (emit_all sprintf_writer (record { context = x; total = suc total }) cs).context 0x201).0)
      (first_write m s c f)
  where
    first_write :
        (m : Bytes) (s c : ℕ) → ltb c 0x100 ≡ true → sprintf_writer (m, s) c ≡ (update m s c, suc s)
    first_write m s c f = rw (sprintf_writer, f) refl

ended_nil : (m : Bytes) (s total : ℕ) → ended m s total [] ≡ update m s 0
unfolding ended emit_all sprintf_writer
ended_nil m s total = refl

-- The characters stand as a string from s on, and what is before is as it was.
pub written :
    (m : Bytes) (s total : ℕ) (cs : List ℕ)
    → AllChars cs
    → IsString (ended m s total cs) s cs × ((a : ℕ) → a < s → ended m s total cs a ≡ m a)
written m s total [] a = rw (ended_nil m s total) (ground arith, λ i h. ground arith)
written m s total (c ∷ cs) a =
    let g = written (update m s c) (suc s) (suc total) cs a.2 in
    subst (λ e. IsString e s (c ∷ cs) × ((i : ℕ) → i < s → e i ≡ m i))
      (sym (ended_step m s total c cs a.1))
      ((g.1 s (omega arith) ∙ ground arith, a.0, g.0), λ i h. g.1 i (omega arith) ∙ ground arith)

-- A conversion without flags, width and precision.
abbrev pub plain : Format
plain = record {
  left = false;
  zero_flag = false;
  plus = false;
  space = false;
  alt_octal = false;
  have_width = false;
  width = 0;
  prec = none;
}

plain_text :
    (m : Bytes) (s total v base : ℕ) (upper : Bool)
    → (sprintf_writer
        (emit_padded_number sprintf_writer
          (record { context = (m, s); total = total })
          false
          v
          base
          upper
          []
          plain).context
        0x201).0
      ≡ ended m s total (rev (number_digits v base upper none))
unfolding ended octal_precision zeros_for sign_char
plain_text m s total v base upper =
    ap (λ x. (sprintf_writer x.context 0x201).0)
      (emit_padded_number-text sprintf_writer (record { context = (m, s); total = total }) false v
        base upper [] plain)

-- What an integer conversion without flags writes through `sprintf`'s writer for a 32-bit number in
-- base 8, 10 or 16, in either case, and the writer's end mark closes, `strtoul` reads back as the
-- number, with its end behind the digits, which it stores where `endptr` says, if that is not null.
-- The buffer is not at null, and the fuel is more than the digits.
pub strtoul-sprintf :
    (fuel : ℕ) (beyond : ℕ → Flags) (m : Bytes) (s total v base endptr : ℕ) (upper : Bool)
    → IsBase base
    → s ≢ null
    → v < word
    → length (number_digits v base upper none) < fuel
    → let st =
        emit_padded_number sprintf_writer
          (record { context = (m, s); total = total })
          false
          v
          base
          upper
          []
          plain in
      let m' = (sprintf_writer st.context 0x201).0 in
      strtoul fuel beyond m' s endptr base
      ≡ some (
        v,
        if endptr == null
            then m'
            else write_word m' endptr (s + length (number_digits v base upper none)),
      )
unfolding strtoul store_end
strtoul-sprintf fuel beyond m s total v base endptr upper b ne h k =
    let cs = number_digits v base upper none in
    let w : IsString (ended m s total (rev cs)) s (rev cs) =
      (written m s total (rev cs) (AllChars-rev cs (number_digits-AllChars v base upper b))).0 in
    let z : (s == null) ≡ false = ground arith in
    rw
      (
        plain_text m s total v base upper,
        z,
        number_parse fuel beyond (ended m s total (rev cs)) s base v upper b h w k,
      )
      refl
