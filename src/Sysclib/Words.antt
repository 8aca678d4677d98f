-- ===== src/Sysclib/Words.antt =====
-- The word loops of src/iop/sysclib.cpp against the byte loops they stand for.
use ps2bios_rebuild.Common.{
  ℕ, zero, suc, ◌+◌, ◌*◌, ◌/◌, ◌%◌, ◌≤◌, ◌<◌, ◌≡◌, ◌∙◌, ◌⊎◌, inl, inr, refl, sym, arith, update,
  Bool-cases, ap, fun_ext,
}
use ps2bios_rebuild.Sysclib.Memory.{
  Bytes, read_word, write_word, copy_word, copy_words, copy_fours, word_copy, copy_up, memcpy,
  all_aligned,
}

-- Every entry of memory is a byte.
abbrev pub AllBytes : Bytes → Type 0
AllBytes m = (a : ℕ) → m a < 0x100

copy_up-AllBytes : (n : ℕ) (m : Bytes) (d s i : ℕ) → AllBytes m → AllBytes (copy_up n m d s i)
unfolding copy_up
copy_up-AllBytes zero m d s i b = b
copy_up-AllBytes (suc n) m d s i b =
    copy_up-AllBytes n _ d s (suc i) (λ a. ground (arith, b (s + i), b a))

-- A loop of n + k rounds is one of n and one of k.
copy_up-add :
    (n k : ℕ) (m : Bytes) (d s i : ℕ)
    → copy_up (n + k) m d s i ≡ copy_up k (copy_up n m d s i) d s (i + n)
unfolding copy_up
copy_up-add zero k m d s i =
    let e : 0 + k ≡ k = omega arith in let f : i + 0 ≡ i = omega arith in rw (e, f) refl
copy_up-add (suc n) k m d s i =
    let e : suc n + k ≡ suc (n + k) = omega arith in
    let f : i + suc n ≡ suc i + n = omega arith in
    rw (e, f) (copy_up-add n k (update m (d + i) (m (s + i))) d s (suc i))

bytes_of :
    (a b c e : ℕ)
    → a < 0x100
    → b < 0x100
    → c < 0x100
    → e < 0x100
    → let v = a + 0x100 * b + 0x10000 * c + 0x1000000 * e in
      (v % 0x100 ≡ a)
      × (v / 0x100 % 0x100 ≡ b)
      × (v / 0x10000 % 0x100 ≡ c)
      × (v / 0x1000000 % 0x100 ≡ e)
bytes_of a b c e h i j k = (omega arith, omega arith, omega arith, omega arith)

-- Two aligned words are the same or do not meet.
word_at :
    (m : Bytes) (d s : ℕ)
    → AllBytes m
    → (d ≡ s) ⊎ ((d + 4 ≤ s) ⊎ (s + 4 ≤ d))
    → write_word m d (read_word m s)
      ≡ update
          (update (update (update m d (m s)) (d + 1) (m (s + 1))) (d + 2) (m (s + 2)))
          (d + 3)
          (m (s + 3))
word_at m d s b o =
    let f =
      bytes_of (m s) (m (s + 1)) (m (s + 2)) (m (s + 3)) (b s) (b (s + 1)) (b (s + 2))
        (b (s + 3)) in
    rw (f.0, f.1, f.2, f.3) refl

copy_word-copy_up :
    (m : Bytes) (d s i : ℕ)
    → AllBytes m
    → d % 4 ≡ 0
    → s % 4 ≡ 0
    → copy_word m d s i ≡ copy_up 4 m d s (4 * i)
unfolding copy_up copy_word
copy_word-copy_up m d s i b e f =
    let o : (d + 4 * i ≡ s + 4 * i) ⊎ ((d + 4 * i + 4 ≤ s + 4 * i) ⊎ (s + 4 * i + 4 ≤ d + 4 * i)) =
      grind arith in
    word_at m (d + 4 * i) (s + 4 * i) b o ∙ fun_ext (λ a. ground arith)

copy_words-copy_up :
    (n : ℕ) (m : Bytes) (d s i : ℕ)
    → AllBytes m
    → d % 4 ≡ 0
    → s % 4 ≡ 0
    → copy_words n m d s i ≡ copy_up (4 * n) m d s (4 * i)
unfolding copy_words copy_up
copy_words-copy_up zero m d s i b e f = refl
copy_words-copy_up (suc n) m d s i b e f =
    let h : 4 * suc n ≡ 4 + 4 * n = omega arith in
    let g : 4 * suc i ≡ 4 * i + 4 = omega arith in
    ap (λ u. copy_words n u d s (suc i)) (copy_word-copy_up m d s i b e f)
    ∙ copy_words-copy_up n (copy_up 4 m d s (4 * i)) d s (suc i)
        (copy_up-AllBytes 4 m d s (4 * i) b) e f
    ∙ rw (h, g) (sym (copy_up-add 4 (4 * n) m d s (4 * i)))

copy_words-add :
    (n k : ℕ) (m : Bytes) (d s i : ℕ)
    → copy_words (n + k) m d s i ≡ copy_words k (copy_words n m d s i) d s (i + n)
unfolding copy_words
copy_words-add zero k m d s i =
    let e : 0 + k ≡ k = omega arith in let f : i + 0 ≡ i = omega arith in rw (e, f) refl
copy_words-add (suc n) k m d s i =
    let e : suc n + k ≡ suc (n + k) = omega arith in
    let f : i + suc n ≡ suc i + n = omega arith in
    rw (e, f) (copy_words-add n k (copy_word m d s i) d s (suc i))

copy_fours-copy_words :
    (n : ℕ) (m : Bytes) (d s i : ℕ) → copy_fours n m d s i ≡ copy_words (4 * n) m d s i
unfolding copy_fours copy_words
copy_fours-copy_words zero m d s i = refl
copy_fours-copy_words (suc n) m d s i =
    let e : 4 * suc n ≡ suc (suc (suc (suc (4 * n)))) = omega arith in
    let f : i + 0 ≡ i = omega arith in
    let g : i + 1 ≡ suc i = omega arith in
    let h : i + 2 ≡ suc (suc i) = omega arith in
    let j : i + 3 ≡ suc (suc (suc i)) = omega arith in
    let k : i + 4 ≡ suc (suc (suc (suc i))) = omega arith in
    rw (e, f, g, h, j, k) (copy_fours-copy_words n _ d s _)

word_copy-copy_words : (m : Bytes) (d s n : ℕ) → word_copy m d s n ≡ copy_words (n / 4) m d s 0
unfolding word_copy
word_copy-copy_words m d s n =
    let e : n / 4 ≡ 4 * (n / 4 / 4) + n / 4 % 4 = omega arith in
    let f : 0 + 4 * (n / 4 / 4) ≡ 4 * (n / 4 / 4) = omega arith in
    rw (copy_fours-copy_words (n / 4 / 4) m d s 0) (
      sym (
        ap (λ k. copy_words k m d s 0) e
        ∙ copy_words-add (4 * (n / 4 / 4)) (n / 4 % 4) m d s 0
        ∙ ap (copy_words (n / 4 % 4) (copy_words (4 * (n / 4 / 4)) m d s 0) d s) f))

-- `memcpy` copies bytes upward, whether it takes the words of aligned arguments or not, and for
-- ranges that overlap too.
pub memcpy-copy_up : (m : Bytes) (d s n : ℕ) → AllBytes m → memcpy m d s n ≡ (d, copy_up n m d s 0)
unfolding memcpy
memcpy-copy_up m d s n b = elim (Bool-cases (all_aligned d s n)) [
  | inl e ↦
      let h : 4 * (n / 4) ≡ n = ground arith in
      rw
        (
          e,
          word_copy-copy_words m d s n,
          copy_words-copy_up (n / 4) m d s 0 b (ground arith) (ground arith),
          h,
        )
        refl
  | inr e ↦ rw e refl
]
