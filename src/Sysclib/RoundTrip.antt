-- ===== src/Sysclib/RoundTrip.antt =====
-- A number that src/iop/sysclib.cpp wrote in a base is read back by `strtoul` in that base.
use ps2bios_rebuild.Common.{
  length, rev, length-rev, ℕ, suc, ◌+◌, ◌-◌, ◌*◌, ◌%◌, ◌<◌, ◌≤◌, ◌≡◌, ◌≢◌, ◌==◌, ◌∙◌, ◌⊎◌, inl, inr,
  refl, sym, ap, subst, arith, Bool, true, false, none, some, List, [], ◌∷◌, ◌++◌, append-nil,
  append_assoc, word, Bool-cases, ◌/◌,
}
use ps2bios_rebuild.Sysclib.Memory.{Bytes}
use ps2bios_rebuild.Sysclib.Ctype.{Flags, is_space_char, ctype_entry, ctype_storage, classify}
use ps2bios_rebuild.Sysclib.Text.{IsString}
use ps2bios_rebuild.Sysclib.Numbers.{
  digit_value, digit_of, apply_base_prefix, skip_spaces, Scan, scan_digits, scanned, scan_number,
  parse, parse_behind,
}
use ps2bios_rebuild.Sysclib.Print.{digit_char, digits_from, number_digits}
use ps2bios_rebuild.Sysclib.Parse.{
  IsBase, IsDigit, IsNumeral, no_digits, more_digits, digits_from-IsNumeral, IsString-at,
  first-nonzero,
}

abbrev at : ℕ → ℕ → Bool → Scan
at value position any = record { value = value; position = position; any = any }

abbrev some_digit : List ℕ → Bool
some_digit [] = false
some_digit (c ∷ cs) = true

scan_step :
    (fuel : ℕ) (m : Bytes) (base v p d : ℕ) (any : Bool)
    → digit_of base (m p) ≡ some d
    → v * base + d < word
    → scan_digits (suc fuel) m base (at v p any)
      ≡ scan_digits fuel m base (at (v * base + d) (suc p) true)
unfolding scan_digits
scan_step fuel m base v p d any e h =
    let w : (v * base + d) % 0x100000000 ≡ v * base + d = omega arith in rw (scan_digits, e, w) refl

scan_stop :
    (fuel : ℕ) (m : Bytes) (base v p : ℕ) (any : Bool)
    → m p ≡ 0
    → scan_digits (suc fuel) m base (at v p any) ≡ some (at v p any)
unfolding scan_digits digit_of digit_value
scan_stop fuel m base v p any e = rw (scan_digits, e) refl

lower_value : (base v d : ℕ) → IsBase base → v * base + d < word → v < word
lower_value base v d b h = elim b [
  | inl e ↦ let g = ap (λ x. v * x) e in omega (arith, g)
  | inr (inl e) ↦ let g = ap (λ x. v * x) e in omega (arith, g)
  | inr (inr e) ↦ let g = ap (λ x. v * x) e in omega (arith, g)
]

scan_numeral :
    (fuel : ℕ) (m : Bytes) (base p : ℕ) (cs : List ℕ) (v : ℕ) (rest : List ℕ)
    → IsBase base
    → IsNumeral base cs v
    → v < word
    → IsString m p (rev cs ++ rest)
    → scan_digits (length cs + fuel) m base (at 0 p false)
      ≡ scan_digits fuel m base (at v (p + length cs) (some_digit cs))
scan_numeral fuel m base p [] v rest b no_digits h t =
    let e : 0 + fuel ≡ fuel = omega arith in let f : p + 0 ≡ p = omega arith in rw (e, f) refl
scan_numeral fuel m base p (c ∷ cs) v rest b (more_digits _ d _ w dig more nz) h t =
    let e : suc (length cs) + fuel ≡ length cs + suc fuel = omega arith in
    let f : p + suc (length cs) ≡ suc (p + length cs) = omega arith in
    let t' : IsString m p (rev cs ++ c ∷ rest) =
      subst (IsString m p) (append_assoc (rev cs) (c ∷ []) rest) t in
    let g : m (p + length cs) ≡ c =
      ap (λ n. m (p + n)) (sym (length-rev cs)) ∙ IsString-at m p c (rev cs) rest t' in
    rw (e, f)
      (scan_numeral (suc fuel) m base p cs w (c ∷ rest) b more (lower_value base w d b h) t'
        ∙ scan_step fuel m base w (p + length cs) d (some_digit cs) (ap (digit_of base) g ∙ dig.0)
            h)

-- A digit that is not 0 begins no prefix, and is not a space.
no_prefix :
    (base d c : ℕ)
    → IsBase base
    → IsDigit base c d
    → d ≢ 0
    → (c ≢ 48) × (c ≢ 111) × (c ≢ 79) × (48 ≤ c) × (c ≤ 102)
unfolding digit_of digit_value
no_prefix base d c b h nz = (grind arith, grind arith, grind arith, grind arith, grind arith)

digit_not_space : (beyond : ℕ → Flags) (c : ℕ) → 48 ≤ c → c ≤ 102 → is_space_char beyond c ≡ false
unfolding is_space_char ctype_entry ctype_storage classify
digit_not_space beyond c h k = ground arith

skip_none :
    (fuel : ℕ) (beyond : ℕ → Flags) (m : Bytes) (p : ℕ)
    → is_space_char beyond (m p) ≡ false
    → skip_spaces (suc fuel) beyond m p ≡ some p
unfolding skip_spaces
skip_none fuel beyond m p e = rw (skip_spaces, e) refl

base_kept :
    (m : Bytes) (p base : ℕ)
    → IsBase base
    → ((m p ≢ 48) ⊎ (m (p + 1) ≡ 0))
    → m p ≢ 111
    → m p ≢ 79
    → apply_base_prefix m p base ≡ (p, base)
unfolding apply_base_prefix
base_kept m p base b o x y = let z : base ≢ 0 = grind arith in grind arith

-- What a parse of a text without spaces, signs and prefixes answers.
parse_plain :
    (fuel : ℕ) (beyond : ℕ → Flags) (m : Bytes) (s base v e : ℕ)
    → is_space_char beyond (m s) ≡ false
    → apply_base_prefix m s base ≡ (s, base)
    → scan_digits (suc fuel) m base (at 0 s false) ≡ some (at v e true)
    → parse (suc fuel) beyond m s base false ≡ some (v, e)
unfolding parse parse_behind scan_number scanned
parse_plain fuel beyond m s base v e f g h =
    rw (parse, skip_none fuel beyond m s f, parse_behind, scan_number, g, h) refl

IsString-end : (m : Bytes) (s : ℕ) (xs : List ℕ) → IsString m s xs → m (s + length xs) ≡ 0
IsString-end m s [] t = ap m (omega arith) ∙ t
IsString-end m s (x ∷ xs) t = ap m (omega arith) ∙ IsString-end m (suc s) xs t.2

zero_digit : (base c : ℕ) → IsBase base → c ≡ 48 → digit_of base c ≡ some 0
unfolding digit_of digit_value
zero_digit base c b e = grind arith

digits_parse :
    (fuel : ℕ) (beyond : ℕ → Flags) (m : Bytes) (s base v : ℕ) (cs : List ℕ)
    → IsBase base
    → IsNumeral base cs v
    → cs ≢ []
    → v < word
    → IsString m s (rev cs)
    → length cs < fuel
    → parse fuel beyond m s base false ≡ some (v, s + length cs)
digits_parse fuel beyond m s base v [] b num ne h t k = absurd (ne refl)
digits_parse fuel beyond m s base v (c ∷ cs) b num ne h t k =
    let e : rev (c ∷ cs) ≡ rev (c ∷ cs) ++ [] = sym (append-nil (rev (c ∷ cs))) in
    let t' : IsString m s (rev (c ∷ cs) ++ []) = subst (IsString m s) e t in
    let (d, dig, nz) = first-nonzero base m s c cs v [] num t' in
    let p = no_prefix base d (m s) b dig nz in
    let left = fuel - suc (length (c ∷ cs)) in
    let f : fuel ≡ suc (length cs + suc left) = omega arith in
    let g : length (c ∷ cs) + suc left ≡ suc (length cs + suc left) = omega arith in
    let at_end : m (s + length (c ∷ cs)) ≡ 0 =
      ap (λ n. m (s + n)) (sym (length-rev (c ∷ cs))) ∙ IsString-end m s (rev (c ∷ cs)) t in
    rw f (
      parse_plain (length cs + suc left) beyond m s base v (s + length (c ∷ cs))
        (digit_not_space beyond (m s) p.3 p.4) (base_kept m s base b (inl p.0) p.1 p.2)
        (ap (λ n. scan_digits n m base (at 0 s false)) (sym g)
          ∙ scan_numeral (suc left) m base s (c ∷ cs) v [] b num h t'
          ∙ scan_stop left m base v (s + length (c ∷ cs)) true at_end))

zero_parse :
    (fuel : ℕ) (beyond : ℕ → Flags) (m : Bytes) (s base : ℕ)
    → IsBase base
    → IsString m s (48 ∷ [])
    → 1 < fuel
    → parse fuel beyond m s base false ≡ some (0, s + 1)
zero_parse fuel beyond m s base b t k =
    let f : fuel ≡ suc (suc (fuel - 2)) = omega arith in
    let z : m (s + 1) ≡ 0 = ap m (omega arith) ∙ t.2 in
    let dig : digit_of base (m s) ≡ some 0 = zero_digit base (m s) b t.0 in
    let w : 0 * base + 0 ≡ 0 = omega arith in
    let q : suc s ≡ s + 1 = omega arith in
    rw f (
      parse_plain (suc (fuel - 2)) beyond m s base 0 (s + 1)
        (digit_not_space beyond (m s) (omega (arith, t.0)) (omega (arith, t.0)))
        (base_kept m s base b (inr z) (omega (arith, t.0)) (omega (arith, t.0)))
        (scan_step (suc (fuel - 2)) m base 0 s 0 false dig (omega arith)
          ∙ rw (w, q) (scan_stop (fuel - 2) m base 0 (s + 1) true z)))

digits-nonempty :
    (fuel v : ℕ) (upper : Bool) (base : ℕ) → v ≢ 0 → digits_from (suc fuel) v upper base ≢ []
unfolding digits_from
digits-nonempty fuel v upper base ne e =
    let f : (v == 0) ≡ false = ground arith in
    let g : digits_from (suc fuel) v upper base
        ≡ digit_char upper (v % base) ∷ digits_from fuel (v / base) upper base =
      rw (digits_from, f) refl in
    let n : suc (length (digits_from fuel (v / base) upper base)) ≡ 0 = ap length (sym g ∙ e) in
    omega (arith, n)

-- The digits of a 32-bit number in base 8, 10 or 16, in either case, are parsed to the number.
pub number_parse :
    (fuel : ℕ) (beyond : ℕ → Flags) (m : Bytes) (s base v : ℕ) (upper : Bool)
    → IsBase base
    → v < word
    → IsString m s (rev (number_digits v base upper none))
    → length (number_digits v base upper none) < fuel
    → parse fuel beyond m s base false ≡ some (v, s + length (number_digits v base upper none))
unfolding number_digits
number_parse fuel beyond m s base v upper b h t k = elim (Bool-cases (v == 0)) [
  | inl e ↦
      let z : v ≡ 0 = ground arith in
      let l : number_digits v base upper none ≡ 48 ∷ [] = rw (number_digits, e) refl in
      rw (l, z)
        (zero_parse fuel beyond m s base b (subst (λ x. IsString m s (rev x)) l t)
          (subst (λ x. length x < fuel) l k))
  | inr e ↦
      let ne : v ≢ 0 = ground arith in
      let l : number_digits v base upper none ≡ digits_from 32 v upper base =
        rw (number_digits, e) refl in
      rw l (
        digits_parse fuel beyond m s base v (digits_from 32 v upper base) b
          (digits_from-IsNumeral 32 v upper base b h) (digits-nonempty 31 v upper base ne) h
          (subst (λ x. IsString m s (rev x)) l t) (subst (λ x. length x < fuel) l k))
]
