-- ===== src/Threadman/Conversions.antt =====
-- Microseconds and ticks of the clock in src/iop/threadman.cpp.
use ps2bios_rebuild.Common.{ℕ, ◌+◌, ◌*◌, ◌/◌, ◌<◌, ◌≤◌, ◌≡◌, arith}
use ps2bios_rebuild.Threadman.Types.{Clock}
use ps2bios_rebuild.Threadman.Clock.{clock_multiply, usec_to_sys_clock, sys_clock_to_usec}
use ps2bios_rebuild.Threadman.Arithmetic.{value, IsClock}
use ps2bios_rebuild.Threadman.LongDivision.{clock_divide-value}

multiply_numerator :
    (usec : ℕ)
    → usec < 4294967296
    → let c = clock_multiply (record { lo = usec; hi = 0 }) 4608 in
      (value c ≡ usec * 4608) × IsClock c
unfolding clock_multiply
multiply_numerator usec h = (ground arith, record { lo = ground arith; hi = ground arith })

multiply_denominator :
    {c : Clock}
    → IsClock c
    → value c * 125 < 18446744073709551616
    → let m = clock_multiply c 125 in (value m ≡ value c * 125) × IsClock m
unfolding clock_multiply
multiply_denominator {c} v h =
    let p = v.lo in let q = v.hi in (ground arith, record { lo = ground arith; hi = ground arith })

-- A number of microseconds below 2^32 is that number times 4608 / 125 of ticks, rounded down.
pub usec_to_sys_clock-value :
    (usec : ℕ)
    → usec < 4294967296
    → (value (usec_to_sys_clock usec) ≡ usec * 4608 / 125) × IsClock (usec_to_sys_clock usec)
unfolding usec_to_sys_clock
usec_to_sys_clock-value usec h =
    let m = multiply_numerator usec h in
    let d = clock_divide-value 125 m.1 (omega arith) (omega arith) in
    (omega (arith, m.0, d.0, d.1), d.2)

-- The ticks of a clock, as seconds and microseconds, rounded down, where the product with 125 does
-- not overflow.
pub sys_clock_to_usec-value :
    {c : Clock}
    → IsClock c
    → value c * 125 < 18446744073709551616
    → let (seconds, usec) = sys_clock_to_usec c in
      (seconds * 1000000 + usec ≡ value c * 125 / 4608) × (usec < 1000000)
unfolding sys_clock_to_usec
sys_clock_to_usec-value {c} v h =
    let m = multiply_denominator v h in
    let d = clock_divide-value 4608 m.1 (omega arith) (omega arith) in
    let e = clock_divide-value 1000000 d.2 (omega arith) (omega arith) in
    let b = e.2.lo in (omega (arith, m.0, d.0, d.1, e.0, e.1, b), e.1)

-- Microseconds turned into ticks and back are the same number or one less.
pub sys_clock_to_usec-usec_to_sys_clock :
    (usec : ℕ)
    → usec < 4294967296
    → let (seconds, rest) = sys_clock_to_usec (usec_to_sys_clock usec) in
      (seconds * 1000000 + rest ≤ usec) × (usec ≤ seconds * 1000000 + rest + 1) × (rest < 1000000)
sys_clock_to_usec-usec_to_sys_clock usec h =
    let f = usec_to_sys_clock-value usec h in
    let g = sys_clock_to_usec-value f.1 (omega (arith, f.0)) in
    (omega (arith, f.0, g.0), omega (arith, f.0, g.0), g.1)
