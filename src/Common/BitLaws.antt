-- ===== src/Common/BitLaws.antt =====
-- What `set_bit`, `clear_bit` and `lowest_bit` do to the bits of a word, and to its size.
use Prim.Native.Nat.{ℕ, zero, suc, ◌+◌, ◌/◌, ◌%◌, ◌^◌, ◌≤◌, ◌<◌}
use mathlib.Core.Path.{◌≡◌, refl, ap, ◌∙◌}
use mathlib.Core.Logic.{◌≢◌, inl, inr}
use mathlib.Core.Bool.{true, false}
use native.Mathlib.Omega.{arith}
use native.Mathlib.Nat.{pow-suc}
use ps2bios_rebuild.Common.Tests.{◌==◌, if◌then◌else◌, Bool-cases}
use ps2bios_rebuild.Common.Bits.{test_bit, set_bit, clear_bit, lowest_bit}

pub set_bit-half : (c w : ℕ) → set_bit (suc c) w / 2 ≡ set_bit c (w / 2)
unfolding set_bit
set_bit-half c w = omega arith

pub clear_bit-half : (c w : ℕ) → clear_bit (suc c) w / 2 ≡ clear_bit c (w / 2)
unfolding clear_bit
clear_bit-half c w = omega arith

pub test_bit-set_bit :
    (b c w : ℕ) → test_bit b (set_bit c w) ≡ (if b == c then true else test_bit b w)
unfolding test_bit set_bit
test_bit-set_bit zero zero w = ground arith
test_bit-set_bit zero (suc c) w = ground arith
test_bit-set_bit (suc b) zero w =
    let e : set_bit 0 w / 2 ≡ w / 2 = omega arith in ap (test_bit b) e ∙ ground arith
test_bit-set_bit (suc b) (suc c) w =
    ap (test_bit b) (set_bit-half c w) ∙ test_bit-set_bit b c (w / 2) ∙ ground arith

pub test_bit-clear_bit :
    (b c w : ℕ) → test_bit b (clear_bit c w) ≡ (if b == c then false else test_bit b w)
unfolding test_bit clear_bit
test_bit-clear_bit zero zero w = ground arith
test_bit-clear_bit zero (suc c) w = ground arith
test_bit-clear_bit (suc b) zero w =
    let e : clear_bit 0 w / 2 ≡ w / 2 = omega arith in ap (test_bit b) e ∙ ground arith
test_bit-clear_bit (suc b) (suc c) w =
    ap (test_bit b) (clear_bit-half c w) ∙ test_bit-clear_bit b c (w / 2) ∙ ground arith

-- Setting a bit that is clear adds its power of two.
pub set_bit-clear : (c w : ℕ) → test_bit c w ≡ false → set_bit c w ≡ w + 2 ^ c
unfolding test_bit set_bit
set_bit-clear zero w h = ground arith
set_bit-clear (suc c) w h = omega (arith, set_bit-clear c (w / 2) h, pow-suc 2 c)

pub set_bit_bound : (n c w : ℕ) → c < n → w < 2 ^ n → set_bit c w < 2 ^ n
unfolding set_bit
set_bit_bound zero c w h k = absurd (omega arith)
set_bit_bound (suc n) zero w h k = omega (arith, pow-suc 2 n)
set_bit_bound (suc n) (suc c) w h k =
    let p = pow-suc 2 n in
    let b : w / 2 < 2 ^ n = omega (arith, p) in
    omega (arith, p, set_bit_bound n c (w / 2) (omega arith) b)

pub clear_bit_bound : (c w : ℕ) → clear_bit c w ≤ w
unfolding clear_bit
clear_bit_bound zero w = omega arith
clear_bit_bound (suc c) w = omega (arith, clear_bit_bound c (w / 2))

-- A word that is not 0 has a lowest bit, which is set, and those below it are clear.
pub lowest_bit-test :
    (n w : ℕ)
    → w ≢ 0
    → w < 2 ^ n
    → (test_bit (lowest_bit n w) w ≡ true)
      × (lowest_bit n w < n)
      × ((j : ℕ) → j < lowest_bit n w → test_bit j w ≡ false)
unfolding test_bit lowest_bit
lowest_bit-test zero w ne h = absurd (omega arith)
lowest_bit-test (suc n) w ne h = elim (Bool-cases (w % 2 == 1)) [
  | inl e ↦ rw (lowest_bit, e) (ground arith, omega arith, λ j k. absurd (omega arith))
  | inr e ↦
      let half : w / 2 ≢ 0 = λ z. ne (ground arith) in
      let bound : w / 2 < 2 ^ n = omega (arith, pow-suc 2 n) in
      let r = lowest_bit-test n (w / 2) half bound in
      rw (lowest_bit, e) (r.0, omega (arith, r.1), below e r.2)
]
  where
    below :
        (w % 2 == 1) ≡ false
        → ((j : ℕ) → j < lowest_bit n (w / 2) → test_bit j (w / 2) ≡ false)
        → (j : ℕ) → j < suc (lowest_bit n (w / 2))
        → test_bit j w ≡ false
    below e f zero k = e
    below e f (suc j) k = f j (omega arith)

pub test_bit-zero : (j : ℕ) → test_bit j 0 ≡ false
unfolding test_bit
test_bit-zero zero = refl
test_bit-zero (suc j) = test_bit-zero j
