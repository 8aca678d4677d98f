-- ===== src/Common/Arrays.antt =====
-- A C array is a function of its index, and a store into it an `update`. Words of 32 bits are
-- numbers below `word`, and their sums and differences wrap.
use Prim.Native.Nat.{ℕ, ◌+◌, ◌-◌, ◌%◌, ◌^◌}
use ps2bios_rebuild.Common.Tests.{◌==◌, if◌then◌else◌}

abbrev pub update {ℓ} : {A : Type ℓ} → (ℕ → A) → ℕ → A → ℕ → A
update f i v j = if j == i then v else f j

abbrev pub word : ℕ
word = 2 ^ 32

-- uint32_t a + b, a - b.
abbrev pub add32 : ℕ → ℕ → ℕ
add32 a b = (a + b) % 4294967296

abbrev pub sub32 : ℕ → ℕ → ℕ
sub32 a b = (a + 4294967296 - b) % 4294967296
