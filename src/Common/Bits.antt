-- ===== src/Common/Bits.antt =====
-- Bits of words: `set_bit b w` is `w | (1u << b)` and `clear_bit b w` is `w & ~(1u << b)`.
use Prim.Native.Nat.{ℕ, zero, suc, ◌+◌, ◌*◌, ◌/◌, ◌%◌}
use mathlib.Core.Bool.{Bool}
use ps2bios_rebuild.Common.Tests.{◌==◌}

unfoldable pub test_bit : ℕ → ℕ → Bool
test_bit zero w = w % 2 == 1
test_bit (suc b) w = test_bit b (w / 2)

unfoldable pub set_bit : ℕ → ℕ → ℕ
set_bit zero w = w / 2 * 2 + 1
set_bit (suc b) w = set_bit b (w / 2) * 2 + w % 2

unfoldable pub clear_bit : ℕ → ℕ → ℕ
clear_bit zero w = w / 2 * 2
clear_bit (suc b) w = clear_bit b (w / 2) * 2 + w % 2

-- The number of zeros below the lowest one, among the low `n` bits.
unfoldable pub lowest_bit : ℕ → ℕ → ℕ
lowest_bit zero w = 0
lowest_bit (suc n) w =
    let rest = lowest_bit n (w / 2) in elim (w % 2 == 1) [ Bool.true ↦ 0 | Bool.false ↦ suc rest ]
