-- ===== src/Sysclib/Searches.antt =====
-- What `memchr` and `memcmp` of src/iop/sysclib.cpp find.
use ps2bios_rebuild.Common.{
  ℕ, zero, suc, ◌+◌, ◌%◌, ◌≤◌, ◌<◌, ◌≡◌, ◌≢◌, ◌==◌, ◌⊎◌, inl, inr, refl, arith, false, Bool-cases,
  lt_cases, subst, ◌||◌,
}
use ps2bios_rebuild.Sysclib.Memory.{
  Bytes, null, is_negative, find_byte, memchr, compare_bytes, memcmp,
}

-- The first index from i on, below i + n, at which P holds; Q holds at none before it.
abbrev First : (ℕ → Type 0) → (ℕ → Type 0) → ℕ → ℕ → Type 0
First P Q i n = (j : ℕ) × (i ≤ j) × (j < i + n) × P j × ((k : ℕ) → i ≤ k → k < j → Q k)

-- A range whose first index has Q and whose others have it.
one_more :
    {Q : ℕ → Type 0} (i j : ℕ)
    → Q i
    → ((k : ℕ) → suc i ≤ k → k < j → Q k)
    → (k : ℕ) → i ≤ k
    → k < j
    → Q k
one_more {Q} i j q f k a b = elim (lt_cases i k) [
  | inl l ↦ f k l b
  | inr l ↦ let e : i ≡ k = omega arith in subst Q e q
]

Found : Bytes → ℕ → ℕ → ℕ → ℕ → ℕ → Type 0
Found m p target i n r =
    ((r ≡ null) × ((k : ℕ) → i ≤ k → k < i + n → m (p + k) ≢ target))
    ⊎ First (λ j. (r ≡ p + j) × (m (p + j) ≡ target)) (λ k. m (p + k) ≢ target) i n

find_byte-Found :
    (n : ℕ) (m : Bytes) (p target i : ℕ) → Found m p target i n (find_byte n m p target i)
unfolding find_byte Found
find_byte-Found zero m p target i = inl (refl, λ k a b. absurd (omega arith))
find_byte-Found (suc n) m p target i = elim (Bool-cases (m (p + i) == target)) [
  | inl e ↦
      rw e (inr (i, omega arith, omega arith, (refl, ground arith), λ k a b. absurd (omega arith)))
  | inr e ↦
      let ne : m (p + i) ≢ target = ground arith in
      rw e (elim (find_byte-Found n m p target (suc i)) [
        | inl (z, f) ↦ inl (
          z,
          one_more {Q = λ k. m (p + k) ≢ target} i (i + suc n) ne (λ k a b. f k a (omega arith)),
        )
        | inr (j, a, b, c, f) ↦
            inr (j, omega arith, omega arith, c, one_more {Q = λ k. m (p + k) ≢ target} i j ne f)
      ])
]

memchr_lem :
    (m : Bytes) (s c n : ℕ)
    → s ≢ null
    → n < 0x80000000
    → memchr m s c n ≡ find_byte n m s (c % 0x100) 0
unfolding memchr find_byte
memchr_lem m s c zero ne h = ground arith
memchr_lem m s c (suc n) ne h =
    let f : (s == null || is_negative (suc n) || suc n == 0) ≡ false = ground arith in rw f refl

-- `memchr` answers the address of the first of n bytes that is the low byte of the value, and the
-- null pointer only if none is. The string is not at null, and n is an `int` of at least 0.
pub memchr-First :
    (m : Bytes) (s c n : ℕ)
    → s ≢ null
    → n < 0x80000000
    → let r = memchr m s c n in
      ((r ≡ null) × ((k : ℕ) → k < n → m (s + k) ≢ c % 0x100))
      ⊎ ((j : ℕ) × (j < n)
          × (r ≡ s + j)
          × (m (s + j) ≡ c % 0x100)
          × ((k : ℕ) → k < j → m (s + k) ≢ c % 0x100))
unfolding Found
memchr-First m s c n ne h =
    let e : memchr m s c n ≡ find_byte n m s (c % 0x100) 0 = memchr_lem m s c n ne h in
    rw e (elim (find_byte-Found n m s (c % 0x100) 0) [
      | inl (z, f) ↦ inl (z, λ k a. f k (omega arith) (omega arith))
      | inr (j, a, b, c, f) ↦ inr (j, omega arith, c.0, c.1, λ k a. f k (omega arith) a)
    ])

Ordered : Bytes → ℕ → ℕ → ℕ → ℕ → ℕ → Type 0
Ordered m a b i n r =
    ((r ≡ 0) × ((k : ℕ) → i ≤ k → k < i + n → m (a + k) ≡ m (b + k)))
    ⊎ First
        (λ j. ((m (a + j) < m (b + j)) × (r ≡ 0xFFFFFFFF)) ⊎ ((m (b + j) < m (a + j)) × (r ≡ 1)))
        (λ k. m (a + k) ≡ m (b + k)) i n

compare_bytes-Ordered :
    (n : ℕ) (m : Bytes) (a b i : ℕ) → Ordered m a b i n (compare_bytes n m a b i)
unfolding compare_bytes Ordered
compare_bytes-Ordered zero m a b i = inl (refl, λ k x y. absurd (omega arith))
compare_bytes-Ordered (suc n) m a b i = elim (Bool-cases (m (a + i) == m (b + i))) [
  | inl e ↦
      let eq : m (a + i) ≡ m (b + i) = ground arith in
      rw e (elim (compare_bytes-Ordered n m a b (suc i)) [
        | inl (z, f) ↦ inl (
          z,
          one_more {Q = λ k. m (a + k) ≡ m (b + k)} i (i + suc n) eq (λ k x y. f k x (omega arith)),
        )
        | inr (j, x, y, c, f) ↦
            inr (j, omega arith, omega arith, c, one_more {Q = λ k. m (a + k) ≡ m (b + k)} i j eq f)
      ])
  | inr e ↦ rw e (inr (i, omega arith, omega arith, ground arith, λ k x y. absurd (omega arith)))
]

-- `memcmp` answers 0 if the n bytes are the same, and else -1 or 1 as the first that differs is
-- lower or higher on the left. The count n is an `int` of at least 0.
pub memcmp-First :
    (m : Bytes) (a b n : ℕ)
    → n < 0x80000000
    → let r = memcmp m a b n in
      ((r ≡ 0) × ((k : ℕ) → k < n → m (a + k) ≡ m (b + k)))
      ⊎ ((j : ℕ) × (j < n)
          × (((m (a + j) < m (b + j)) × (r ≡ 0xFFFFFFFF)) ⊎ ((m (b + j) < m (a + j)) × (r ≡ 1)))
          × ((k : ℕ) → k < j → m (a + k) ≡ m (b + k)))
unfolding memcmp Ordered
memcmp-First m a b n h =
    let e : is_negative n ≡ false = ground arith in
    rw e (elim (compare_bytes-Ordered n m a b 0) [
      | inl (z, f) ↦ inl (z, λ k x. f k (omega arith) (omega arith))
      | inr (j, x, y, c, f) ↦ inr (j, omega arith, c, λ k x. f k (omega arith) x)
    ])
