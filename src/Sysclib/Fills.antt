-- ===== src/Sysclib/Fills.antt =====
-- The fills of src/iop/sysclib.cpp, of bytes and of words.
use ps2bios_rebuild.Common.{
  ℕ, zero, suc, ◌+◌, ◌*◌, ◌/◌, ◌%◌, ◌<◌, ◌≡◌, ◌==◌, ◌∙◌, inl, inr, refl, sym, ap, arith, ltb, leb,
  if◌then◌else◌, update, Bool-cases, ◌&&◌,
}
use ps2bios_rebuild.Sysclib.Memory.{
  Bytes, write_word, fill_word, fill_words, fill_fours, word_fill, fill_bytes, memset,
}
use ps2bios_rebuild.Sysclib.Moves.{Outside}

-- Memory with v from `low` up to `high`.
filled : Bytes → ℕ → ℕ → ℕ → Bytes
filled m low high v a = if leb low a && ltb a high then v else m a

fill_bytes-filled :
    (n : ℕ) (m : Bytes) (d v i a : ℕ) → fill_bytes n m d v i a ≡ filled m (d + i) (d + i + n) v a
unfolding fill_bytes filled
fill_bytes-filled zero m d v i a = ground arith
fill_bytes-filled (suc n) m d v i a =
    fill_bytes-filled n (update m (d + i) v) d v (suc i) a ∙ ground arith

fill_words-filled :
    (n : ℕ) (m : Bytes) (d i a : ℕ)
    → fill_words n m d 0 i a ≡ filled m (d + 4 * i) (d + 4 * (i + n)) 0 a
unfolding fill_words fill_word filled
fill_words-filled zero m d i a = ground arith
fill_words-filled (suc n) m d i a =
    fill_words-filled n (write_word m (d + 4 * i) 0) d (suc i) a ∙ ground arith

fill_words-add :
    (n k : ℕ) (m : Bytes) (d v i : ℕ)
    → fill_words (n + k) m d v i ≡ fill_words k (fill_words n m d v i) d v (i + n)
unfolding fill_words
fill_words-add zero k m d v i =
    let e : 0 + k ≡ k = omega arith in let f : i + 0 ≡ i = omega arith in rw (e, f) refl
fill_words-add (suc n) k m d v i =
    let e : suc n + k ≡ suc (n + k) = omega arith in
    let f : i + suc n ≡ suc i + n = omega arith in
    rw (e, f) (fill_words-add n k (fill_word m d v i) d v (suc i))

fill_fours-fill_words :
    (n : ℕ) (m : Bytes) (d v i : ℕ) → fill_fours n m d v i ≡ fill_words (4 * n) m d v i
unfolding fill_fours fill_words
fill_fours-fill_words zero m d v i = refl
fill_fours-fill_words (suc n) m d v i =
    let e : 4 * suc n ≡ suc (suc (suc (suc (4 * n)))) = omega arith in
    let f : i + 0 ≡ i = omega arith in
    let g : i + 1 ≡ suc i = omega arith in
    let h : i + 2 ≡ suc (suc i) = omega arith in
    let j : i + 3 ≡ suc (suc (suc i)) = omega arith in
    let k : i + 4 ≡ suc (suc (suc (suc i))) = omega arith in
    rw (e, f, g, h, j, k) (fill_fours-fill_words n _ d v _)

word_fill-fill_words : (m : Bytes) (d v n : ℕ) → word_fill m d v n ≡ fill_words (n / 4) m d v 0
unfolding word_fill
word_fill-fill_words m d v n =
    let q = n / 4 / 4 in
    let e : n / 4 ≡ 4 * q + n / 4 % 4 = omega arith in
    let f : 0 + 4 * q ≡ 4 * q = omega arith in
    rw (fill_fours-fill_words q m d v 0) (
      sym (
        ap (λ k. fill_words k m d v 0) e
        ∙ fill_words-add (4 * q) (n / 4 % 4) m d v 0
        ∙ ap (fill_words (n / 4 % 4) (fill_words (4 * q) m d v 0) d v) f))

word_fill-filled :
    (m : Bytes) (d n a : ℕ) → n % 4 ≡ 0 → word_fill m d 0 n a ≡ filled m d (d + n) 0 a
unfolding filled
word_fill-filled m d n a e =
    rw (word_fill-fill_words m d 0 n) (fill_words-filled (n / 4) m d 0 a ∙ ground arith)

memset-filled : (m : Bytes) (s c n a : ℕ) → (memset m s c n).1 a ≡ filled m s (s + n) (c % 0x100) a
unfolding memset
memset-filled m s c n a = elim (Bool-cases (c == 0 && s % 4 == 0 && n % 4 == 0)) [
  | inl e ↦ let z : c ≡ 0 = ground arith in rw (e, z) (word_fill-filled m s n a (ground arith))
  | inr e ↦ rw e (fill_bytes-filled n m s (c % 0x100) 0 a ∙ ground arith)
]

-- `memset` answers the address it was given, leaves the low byte of the value in each of the n
-- bytes from there, whether it stores bytes or words, and keeps every other byte.
pub memset_lem :
    (m : Bytes) (s c n : ℕ)
    → let (r, m') = memset m s c n in
      (r ≡ s) × ((j : ℕ) → j < n → m' (s + j) ≡ c % 0x100) × ((a : ℕ) → Outside s n a → m' a ≡ m a)
unfolding filled memset
memset_lem m s c n = (
  refl,
  λ j h. memset-filled m s c n (s + j) ∙ ground arith,
  λ a o. memset-filled m s c n a ∙ grind arith,
)
