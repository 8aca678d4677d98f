-- ===== src/Threadman/Division.antt =====
-- The division of one word, bit by bit, as src/iop/threadman.cpp does it for each word of a clock.
use ps2bios_rebuild.Common.{
  ℕ, zero, suc, ◌+◌, ◌-◌, ◌*◌, ◌/◌, ◌%◌, ◌^◌, ◌<◌, ◌≤◌, ◌≡◌, sym, ap, ◌∙◌, arith, false, leb,
  if◌then◌else◌, if_ind, set_bit, set_bit-clear, test_bit, subst,
}
use native.Mathlib.Nat.{pow-suc, div-div-eq-div-mul, mul_assoc}

-- The division of one word, whose quotient's bits above `n` are in `q`.
unfoldable pub word_divide : ℕ → ℕ → ℕ → ℕ → ℕ → ℕ × ℕ
word_divide zero x d q r = (q, r)
word_divide (suc b) x d q r =
    let s = r * 2 % 4294967296 + x / 2 ^ b % 2 in
    let (q, r) = (if leb d s then (set_bit b q, s - d) else (q, s)) in word_divide b x d q r

pub word_divide_step :
    (b x d q r : ℕ)
    → let s = r * 2 % 4294967296 + x / 2 ^ b % 2 in
      word_divide (suc b) x d q r
      ≡ (if leb d s then word_divide b x d (set_bit b q) (s - d) else word_divide b x d q s)
unfolding word_divide
word_divide_step b x d q r = ground arith

test_bit-multiple : (b m : ℕ) → test_bit b (m * 2 ^ suc b) ≡ false
unfolding test_bit
test_bit-multiple zero m = ground (arith, pow-suc 2 zero)
test_bit-multiple (suc b) m =
    let e : m * 2 ^ suc (suc b) / 2 ≡ m * 2 ^ suc b =
      omega (
        arith,
        pow-suc 2 (suc b),
        mul_assoc m (2 ^ suc b) 2,
        ap (λ p. m * p) (pow-suc 2 (suc b)),
      ) in
    ap (test_bit b) e ∙ test_bit-multiple b m

set_bit-multiple : (b m : ℕ) → set_bit b (m * 2 ^ suc b) ≡ (2 * m + 1) * 2 ^ b
set_bit-multiple b m =
    let e = set_bit-clear b (m * 2 ^ suc b) (test_bit-multiple b m) in
    let f = ap (λ p. m * p) (pow-suc 2 b) in grind (arith, e, f)

multiple_down : (b m : ℕ) → m * 2 ^ suc b ≡ (2 * m) * 2 ^ b
multiple_down b m = let f = ap (λ p. m * p) (pow-suc 2 b) in grind (arith, f)

halves : (b x : ℕ) → x / 2 ^ suc b ≡ x / 2 ^ b / 2
halves b x = ap (λ p. x / p) (pow-suc 2 b) ∙ sym (div-div-eq-div-mul x (2 ^ b) 2)

-- What a division that still has `n` bits to go must give, where `c` is what is above the word.
abbrev pub Exact : ℕ → ℕ → ℕ → ℕ → ℕ × ℕ → Type 0
Exact n x d c r = (r.0 * d + r.1 ≡ c * 2 ^ n + x) × (r.1 < d)

Exact-double : (n x d c : ℕ) (r : ℕ × ℕ) → Exact n x d (2 * c) r → Exact (suc n) x d c r
Exact-double n x d c r v = let e = multiple_down n c in (omega (arith, v.0, e), v.1)

-- The quotient `m` so far, in its place, and the remainder, of the high bits of a number.
pub word_divide_lem :
    (n x d m r c : ℕ)
    → r < d
    → d ≤ 2147483648
    → m * d + r ≡ c + x / 2 ^ n
    → Exact n x d c (word_divide n x d (m * 2 ^ n) r)
unfolding word_divide
word_divide_lem zero x d m r c h b e = (grind (arith, e), h)
word_divide_lem (suc n) x d m r c h b e =
    let s = r * 2 % 4294967296 + x / 2 ^ n % 2 in
    let t : s ≡ 2 * r + x / 2 ^ n % 2 = omega arith in
    let f = halves n x in
    Exact-double n x d c _ (
      subst (Exact n x d (2 * c)) (sym (word_divide_step n x d (m * 2 ^ suc n) r)) (
        if_ind (Exact n x d (2 * c)) (leb d s)
          (λ k.
            let l : d ≤ s = ground arith in
            subst (λ q. Exact n x d (2 * c) (word_divide n x d q (s - d)))
              (sym (set_bit-multiple n m))
              (word_divide_lem n x d (2 * m + 1) (s - d) (2 * c) (omega arith) b
                (let g : (2 * m + 1) * d ≡ 2 * (m * d) + d = grind arith in omega arith)))
          (λ k.
            let l : s < d = ground arith in
            subst (λ q. Exact n x d (2 * c) (word_divide n x d q s)) (sym (multiple_down n m))
              (word_divide_lem n x d (2 * m) s (2 * c) l b
                (let g : 2 * m * d ≡ 2 * (m * d) = grind arith in omega arith)))))
