-- ===== src/Threadman/Clock.antt =====
-- The 64-bit arithmetic of src/iop/threadman.cpp on clocks of two words.
use ps2bios_rebuild.Common.{
  ℕ, zero, suc, ◌+◌, ◌-◌, ◌*◌, ◌/◌, ◌%◌, ◌^◌, Bool, ◌&&◌, ◌||◌, ltb, leb, ◌==◌, if◌then◌else◌,
  add32, sub32, set_bit,
}
use ps2bios_rebuild.Threadman.Types.{Clock}

unfoldable pub clock_before : Clock → Clock → Bool
clock_before a b = ltb a.hi b.hi || (a.hi == b.hi && ltb a.lo b.lo)

unfoldable pub clock_add : Clock → Clock → Clock
clock_add a b =
    let lo = add32 a.lo b.lo in
    let hi = add32 a.hi b.hi in record { lo = lo; hi = if ltb lo a.lo then add32 hi 1 else hi }

unfoldable pub clock_subtract : Clock → Clock → Clock
clock_subtract a b =
    let hi = sub32 a.hi b.hi in
    record { lo = sub32 a.lo b.lo; hi = if ltb a.lo b.lo then sub32 hi 1 else hi }

abbrev pub clock_bit : Clock → ℕ → ℕ
clock_bit value bit = if leb 32 bit then value.hi / 2 ^ (bit - 32) % 2 else value.lo / 2 ^ bit % 2

abbrev pub set_clock_bit : ℕ → Clock → Clock
set_clock_bit bit q =
    if leb 32 bit
    then record q { hi = set_bit (bit - 32) q.hi }
    else record q { lo = set_bit bit q.lo }

-- The quotient and the remainder after the bits below `n`.
unfoldable pub divide_bits : ℕ → Clock → ℕ → Clock → ℕ → Clock × ℕ
divide_bits zero value divisor quotient remainder = (quotient, remainder)
divide_bits (suc bit) value divisor quotient remainder =
    let shifted = remainder * 2 % 4294967296 + clock_bit value bit in
    let (q, r) =
      (if leb divisor shifted
        then (set_clock_bit bit quotient, shifted - divisor)
        else (quotient, shifted)) in
    divide_bits bit value divisor q r

unfoldable pub clock_divide : Clock → ℕ → Clock × ℕ
clock_divide value divisor = divide_bits 64 value divisor (record { lo = 0; hi = 0 }) 0

unfoldable pub clock_multiply : Clock → ℕ → Clock
clock_multiply value factor =
    let low = value.lo * factor in
    record {
      lo = low % 4294967296;
      hi = add32 (low / 4294967296 % 4294967296) (value.hi * factor % 4294967296);
    }

abbrev pub clock_numerator : ℕ
clock_numerator = 4608

abbrev pub clock_denominator : ℕ
clock_denominator = 125

unfoldable pub usec_to_sys_clock : ℕ → Clock
usec_to_sys_clock usec =
    let scaled = clock_multiply (record { lo = usec; hi = 0 }) clock_numerator in
    (clock_divide scaled clock_denominator).0

-- The seconds and the microseconds, which the code stores where the caller asks for them.
unfoldable pub sys_clock_to_usec : Clock → ℕ × ℕ
sys_clock_to_usec clock =
    let total = (clock_divide (clock_multiply clock clock_denominator) clock_numerator).0 in
    let (seconds, rest) = clock_divide total 1000000 in (seconds.lo, rest)
