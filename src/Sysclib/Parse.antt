-- ===== src/Sysclib/Parse.antt =====
-- The digits that src/iop/sysclib.cpp prints are read back by its number parsers.
use ps2bios_rebuild.Common.{
  length, rev, ℕ, zero, suc, ◌+◌, ◌*◌, ◌/◌, ◌%◌, ◌^◌, ◌<◌, ◌≡◌, ◌≢◌, ◌==◌, ◌∙◌, ◌⊎◌, inl, inr, refl,
  sym, ap, subst, arith, Bool, true, false, some, List, [], ◌∷◌, ◌++◌, Bool-cases, append_assoc,
}
use native.Mathlib.Nat.{pow-succ'}
use ps2bios_rebuild.Sysclib.Memory.{Bytes}
use ps2bios_rebuild.Sysclib.Text.{IsString}
use ps2bios_rebuild.Sysclib.Numbers.{digit_value, digit_of}
use ps2bios_rebuild.Sysclib.Print.{digit_char, digits_from}

-- The bases of the conversions.
abbrev pub IsBase : ℕ → Type 0
IsBase base = (base ≡ 8) ⊎ ((base ≡ 10) ⊎ (base ≡ 16))

-- A character of a digit's value.
abbrev pub IsDigit : ℕ → ℕ → ℕ → Type 0
IsDigit base c d = (digit_of base c ≡ some d) × (d < base)

digit_char-IsDigit :
    (base d : ℕ) (upper : Bool) → IsBase base → d < base → IsDigit base (digit_char upper d) d
unfolding digit_char digit_of digit_value
digit_char-IsDigit base d true b h = (grind arith, h)
digit_char-IsDigit base d false b h = (grind arith, h)

-- The digits with the lowest first, as they are printed from the end; the highest is not 0.
pub data IsNumeral (base : ℕ) : List ℕ → ℕ → Type 0 where
  no_digits : IsNumeral base [] 0
  more_digits :
      (c d : ℕ) (cs : List ℕ) (v : ℕ)
      → IsDigit base c d
      → IsNumeral base cs v
      → (v ≡ 0 → d ≢ 0)
      → IsNumeral base (c ∷ cs) (v * base + d)

div_facts :
    (base m k : ℕ)
    → IsBase base
    → m < 2 * k
    → (m / base < k) × (m / base * base + m % base ≡ m) × (m % base < base)
div_facts base m k b h = elim b [
  | inl e ↦ rw e (omega arith, omega arith, omega arith)
  | inr (inl e) ↦ rw e (omega arith, omega arith, omega arith)
  | inr (inr e) ↦ rw e (omega arith, omega arith, omega arith)
]

nonzero : (m base : ℕ) → m ≢ 0 → m / base * base + m % base ≡ m → m / base ≡ 0 → m % base ≢ 0
nonzero m base ne f z w =
    let g : m / base * base ≡ 0 * base = ap (λ x. x * base) z in ne (omega (arith, f, g, w))

pub digits_from-IsNumeral :
    (fuel m : ℕ) (upper : Bool) (base : ℕ)
    → IsBase base
    → m < 2 ^ fuel
    → IsNumeral base (digits_from fuel m upper base) m
unfolding digits_from
digits_from-IsNumeral zero m upper base b h = let e : m ≡ 0 = omega arith in rw e no_digits
digits_from-IsNumeral (suc fuel) m upper base b h =
    let k : 2 ^ suc fuel ≡ 2 * 2 ^ fuel = pow-succ' 2 fuel in
    let f = div_facts base m (2 ^ fuel) b (omega (arith, k, h)) in
    elim (Bool-cases (m == 0)) [
      | inl e ↦ let z : m ≡ 0 = ground arith in rw (e, z) no_digits
      | inr e ↦
          let n : IsNumeral base (digits_from (suc fuel) m upper base)
              (m / base * base + m % base) =
            rw e (
              more_digits (digit_char upper (m % base)) (m % base)
                (digits_from fuel (m / base) upper base) (m / base)
                (digit_char-IsDigit base (m % base) upper b f.2)
                (digits_from-IsNumeral fuel (m / base) upper base b f.0)
                (λ z w. nonzero m base (ground arith) f.1 z w)) in
          subst (IsNumeral base (digits_from (suc fuel) m upper base)) f.1 n
    ]

-- The character behind a part of a string.
pub IsString-at :
    (m : Bytes) (p c : ℕ) (xs ys : List ℕ) → IsString m p (xs ++ c ∷ ys) → m (p + length xs) ≡ c
IsString-at m p c [] ys v = ap m (omega arith) ∙ v.0
IsString-at m p c (x ∷ xs) ys v = ap m (omega arith) ∙ IsString-at m (suc p) c xs ys v.2

-- The text of a number starts with a digit that is not 0.
pub first-nonzero :
    (base : ℕ) (m : Bytes) (p c : ℕ) (cs : List ℕ) (v : ℕ) (rest : List ℕ)
    → IsNumeral base (c ∷ cs) v
    → IsString m p (rev (c ∷ cs) ++ rest)
    → (d : ℕ) × IsDigit base (m p) d × (d ≢ 0)
first-nonzero base m p c [] v rest (more_digits _ d _ w dig no_digits nz) t =
    (d, subst (λ x. IsDigit base x d) (sym t.0) dig, nz refl)
first-nonzero base m p c (e ∷ es) v rest (more_digits _ d _ w dig more nz) t =
    first-nonzero base m p e es w (c ∷ rest) more
      (subst (IsString m p) (append_assoc (rev (e ∷ es)) (c ∷ []) rest) t)
