-- ===== src/Threadman/LongDivision.antt =====
-- The bit by bit division of src/iop/threadman.cpp is the division of 64-bit numbers.
use ps2bios_rebuild.Common.{
  ℕ, zero, suc, ◌+◌, ◌-◌, ◌*◌, ◌/◌, ◌%◌, ◌^◌, ◌<◌, ◌≤◌, ◌≡◌, refl, sym, ap, ◌∙◌, inl, inr, arith,
  Bool, true, false, lt_cases, leb, if◌then◌else◌, set_bit,
}
use ps2bios_rebuild.Threadman.Types.{Clock}
use ps2bios_rebuild.Threadman.Clock.{clock_bit, set_clock_bit, divide_bits, clock_divide}
use ps2bios_rebuild.Threadman.Arithmetic.{value, IsClock}
use ps2bios_rebuild.Threadman.Division.{word_divide, word_divide_step, word_divide_lem}

divide_bits_step :
    (b : ℕ) (v : Clock) (d : ℕ) (q : Clock) (r : ℕ)
    → let s = r * 2 % 4294967296 + clock_bit v b in
      divide_bits (suc b) v d q r
      ≡ (if leb d s then divide_bits b v d (set_clock_bit b q) (s - d) else divide_bits b v d q s)
unfolding divide_bits
divide_bits_step b v d q r = ground arith

low_step :
    (b : ℕ) (v : Clock) (d hi lo r : ℕ)
    → b < 32
    → let s = r * 2 % 4294967296 + v.lo / 2 ^ b % 2 in
      divide_bits (suc b) v d (record { lo = lo; hi = hi }) r ≡ (
        if leb d s
        then divide_bits b v d (record { lo = set_bit b lo; hi = hi }) (s - d)
        else divide_bits b v d (record { lo = lo; hi = hi }) s)
low_step b v d hi lo r h =
    let e : leb 32 b ≡ false = ground arith in
    divide_bits_step b v d (record { lo = lo; hi = hi }) r ∙ rw e refl

high_step :
    (b n : ℕ) (v : Clock) (d hi lo r : ℕ)
    → b ≡ n + 32
    → let s = r * 2 % 4294967296 + v.hi / 2 ^ n % 2 in
      divide_bits (suc b) v d (record { lo = lo; hi = hi }) r ≡ (
        if leb d s
        then divide_bits b v d (record { lo = lo; hi = set_bit n hi }) (s - d)
        else divide_bits b v d (record { lo = lo; hi = hi }) s)
high_step b n v d hi lo r h =
    let e : leb 32 b ≡ true = ground arith in
    let f : b - 32 ≡ n = omega arith in
    divide_bits_step b v d (record { lo = lo; hi = hi }) r ∙ rw (e, f) refl

-- One step of `f` is one of `word_divide`, whose result `g` takes on.
if_same {ℓ} :
    {A : Type ℓ} {x y : A} {p q : ℕ × ℕ} (g : ℕ × ℕ → A) (b : Bool)
    → x ≡ g p
    → y ≡ g q
    → (if b then x else y) ≡ g (if b then p else q)
if_same g true e f = e
if_same g false e f = f

divide_bits_low :
    (n : ℕ) (v : Clock) (d hi lo r : ℕ)
    → n ≤ 32
    → divide_bits n v d (record { lo = lo; hi = hi }) r
      ≡ (let w = word_divide n v.lo d lo r in (record { lo = w.0; hi = hi }, w.1))
unfolding divide_bits word_divide
divide_bits_low zero v d hi lo r h = refl
divide_bits_low (suc n) v d hi lo r h =
    let s = r * 2 % 4294967296 + v.lo / 2 ^ n % 2 in
    let g : ℕ × ℕ → Clock × ℕ = λ w. (record { lo = w.0; hi = hi }, w.1) in
    low_step n v d hi lo r (omega arith)
    ∙ if_same g (leb d s) (divide_bits_low n v d hi (set_bit n lo) (s - d) (omega arith))
        (divide_bits_low n v d hi lo s (omega arith))
    ∙ ap g (sym (word_divide_step n v.lo d lo r))

divide_bits_high :
    (n i : ℕ) (v : Clock) (d hi lo r : ℕ)
    → i ≡ n + 32
    → divide_bits i v d (record { lo = lo; hi = hi }) r
      ≡ (let w = word_divide n v.hi d hi r in divide_bits 32 v d (record { lo = lo; hi = w.0 }) w.1)
unfolding word_divide
divide_bits_high zero i v d hi lo r h =
    ap (λ i. divide_bits i v d (record { lo = lo; hi = hi }) r) h
divide_bits_high (suc n) zero v d hi lo r h = absurd (omega arith)
divide_bits_high (suc n) (suc i) v d hi lo r h =
    let s = r * 2 % 4294967296 + v.hi / 2 ^ n % 2 in
    let g : ℕ × ℕ → Clock × ℕ = λ w. divide_bits 32 v d (record { lo = lo; hi = w.0 }) w.1 in
    high_step i n v d hi lo r (omega arith)
    ∙ if_same g (leb d s) (divide_bits_high n i v d (set_bit n hi) lo (s - d) (omega arith))
        (divide_bits_high n i v d hi lo s (omega arith))
    ∙ ap g (sym (word_divide_step n v.hi d hi r))

clock_divide_words :
    (v : Clock) (d : ℕ)
    → let h = word_divide 32 v.hi d 0 0 in
      let l = word_divide 32 v.lo d 0 h.1 in clock_divide v d ≡ (record { lo = l.0; hi = h.0 }, l.1)
unfolding clock_divide
clock_divide_words v d =
    divide_bits_high 32 64 v d 0 0 0 refl
    ∙ divide_bits_low 32 v d (word_divide 32 v.hi d 0 0).0 0 (word_divide 32 v.hi d 0 0).1
        (omega arith)

quotient_bound : (q d r n : ℕ) → q * d + r < d * n → q < n
quotient_bound q d r n h = elim (lt_cases q n) [
  | inl m ↦ m
  | inr m ↦ absurd (let e : d * n ≤ q * d = grind arith in omega arith)
]

-- The quotient and the remainder are those of the 64-bit number by a divisor of at most 2^31.
pub clock_divide-value :
    {v : Clock} (d : ℕ)
    → IsClock v
    → 0 < d
    → d ≤ 2147483648
    → let (q, r) = clock_divide v d in (value q * d + r ≡ value v) × (r < d) × IsClock q
clock_divide-value {v} d w p b =
    let hb = w.hi in
    let lb = w.lo in
    let h = word_divide 32 v.hi d 0 0 in
    let l = word_divide 32 v.lo d 0 h.1 in
    let f = word_divide_lem 32 v.hi d 0 0 0 p b (omega arith) in
    let g = word_divide_lem 32 v.lo d 0 h.1 h.1 f.1 b (omega arith) in
    let e : (h.0 * 4294967296 + l.0) * d ≡ h.0 * d * 4294967296 + l.0 * d = grind arith in
    let hq : h.0 < 4294967296 =
      quotient_bound h.0 d h.1 4294967296
        (let m : 4294967296 ≤ d * 4294967296 = omega arith in omega (arith, f.0)) in
    let lq : l.0 < 4294967296 = quotient_bound l.0 d l.1 4294967296 (omega (arith, g.0, f.1)) in
    rw (clock_divide_words v d) (omega (arith, e, f.0, g.0), g.1, record { lo = lq; hi = hq })
