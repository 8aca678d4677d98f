-- ===== src/Threadman/Arithmetic.antt =====
-- The clock arithmetic of src/iop/threadman.cpp is arithmetic modulo 2^64.
use ps2bios_rebuild.Common.{ℕ, ◌+◌, ◌-◌, ◌*◌, ◌%◌, ◌<◌, ◌≡◌, ◌↔◌, arith, true}
use ps2bios_rebuild.Threadman.Types.{Clock}
use ps2bios_rebuild.Threadman.Clock.{clock_before, clock_add, clock_subtract}

-- The number that the two words stand for.
abbrev pub value : Clock → ℕ
value c = c.hi * 4294967296 + c.lo

pub record IsClock (c : Clock) : Type 0 where
  pub lo : c.lo < 4294967296
  pub hi : c.hi < 4294967296

pub clock_add-value :
    {a b : Clock}
    → IsClock a
    → IsClock b
    → (value (clock_add a b) ≡ (value a + value b) % 18446744073709551616) × IsClock (clock_add a b)
unfolding clock_add
clock_add-value {a} {b} v w =
    let p = v.lo in
    let q = v.hi in
    let r = w.lo in let s = w.hi in (ground arith, record { lo = ground arith; hi = ground arith })

pub clock_subtract-value :
    {a b : Clock}
    → IsClock a
    → IsClock b
    → (value (clock_subtract a b)
        ≡ (value a + 18446744073709551616 - value b) % 18446744073709551616)
      × IsClock (clock_subtract a b)
unfolding clock_subtract
clock_subtract-value {a} {b} v w =
    let p = v.lo in
    let q = v.hi in
    let r = w.lo in let s = w.hi in (ground arith, record { lo = ground arith; hi = ground arith })

-- Subtracting what was added gives the same clock, whatever wrapped on the way.
pub clock_subtract-clock_add :
    {a b : Clock} → IsClock a → IsClock b → value (clock_subtract (clock_add a b) b) ≡ value a
clock_subtract-clock_add {a} {b} v w =
    let f = clock_add-value v w in
    let g = clock_subtract-value f.1 w in
    let p = v.lo in let q = v.hi in let r = w.lo in let s = w.hi in omega (arith, f.0, g.0)

-- One clock is before another exactly if its 64-bit number is smaller.
pub clock_before_iff :
    {a b : Clock} → IsClock a → IsClock b → (clock_before a b ≡ true) ↔ (value a < value b)
unfolding clock_before
clock_before_iff {a} {b} v w =
    let p = v.lo in
    let q = v.hi in let r = w.lo in let s = w.hi in ((λ h. ground arith), (λ h. ground arith))
