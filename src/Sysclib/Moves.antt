-- ===== src/Sysclib/Moves.antt =====
-- The byte loops of src/iop/sysclib.cpp: what a copy in either direction leaves where.
use ps2bios_rebuild.Common.{
  ℕ, zero, suc, ◌+◌, ◌≤◌, ◌<◌, ◌≡◌, ◌∙◌, ◌⊎◌, inl, inr, refl, arith, true, false, ltb, update,
  lt_cases,
}
use ps2bios_rebuild.Sysclib.Memory.{Bytes, copy_up, copy_down, memmove}

-- The range of n bytes at d is as far from a as not to hold it.
abbrev pub Outside : ℕ → ℕ → ℕ → Type 0
Outside d n a = (a < d) ⊎ (d + n ≤ a)

pub copy_up-Outside :
    (n : ℕ) (m : Bytes) (d s i a : ℕ) → Outside (d + i) n a → copy_up n m d s i a ≡ m a
unfolding copy_up
copy_up-Outside zero m d s i a o = refl
copy_up-Outside (suc n) m d s i a o =
    copy_up-Outside n (update m (d + i) (m (s + i))) d s (suc i) a (grind arith) ∙ ground arith

copy_up-inside :
    (n : ℕ) (m : Bytes) (d s i j : ℕ)
    → (d < s) ⊎ (s + (i + n) ≤ d)
    → i ≤ j
    → j < i + n
    → copy_up n m d s i (d + j) ≡ m (s + j)
unfolding copy_up
copy_up-inside zero m d s i j o h k = absurd (omega arith)
copy_up-inside (suc n) m d s i j o h k =
    let u = update m (d + i) (m (s + i)) in
    elim (lt_cases i j) [
      | inl l ↦ copy_up-inside n u d s (suc i) j (grind arith) l (omega arith) ∙ ground arith
      | inr l ↦
          let e : j ≡ i = omega arith in
          rw e (copy_up-Outside n u d s (suc i) (d + i) (inl (omega arith)) ∙ ground arith)
    ]

copy_down-Outside : (n : ℕ) (m : Bytes) (d s a : ℕ) → Outside d n a → copy_down n m d s a ≡ m a
unfolding copy_down
copy_down-Outside zero m d s a o = refl
copy_down-Outside (suc n) m d s a o =
    copy_down-Outside n (update m (d + n) (m (s + n))) d s a (grind arith) ∙ ground arith

copy_down-inside :
    (n : ℕ) (m : Bytes) (d s j : ℕ) → s < d → j < n → copy_down n m d s (d + j) ≡ m (s + j)
unfolding copy_down
copy_down-inside zero m d s j o k = absurd (omega arith)
copy_down-inside (suc n) m d s j o k =
    let u = update m (d + n) (m (s + n)) in
    elim (lt_cases j n) [
      | inl l ↦ copy_down-inside n u d s j o l ∙ ground arith
      | inr l ↦
          let e : j ≡ n = omega arith in
          rw e (copy_down-Outside n u d s (d + n) (inr (omega arith)) ∙ ground arith)
    ]

-- `memmove` answers the destination, where the n bytes are that stood at the source before,
-- however the two ranges overlap, and leaves every other byte.
pub memmove_lem :
    (m : Bytes) (d s n : ℕ)
    → let (r, m') = memmove m d s n in
      (r ≡ d) × ((j : ℕ) → j < n → m' (d + j) ≡ m (s + j)) × ((a : ℕ) → Outside d n a → m' a ≡ m a)
unfolding memmove
memmove_lem m d s n = elim (lt_cases d s) [
  | inl l ↦
      let f : ltb d s ≡ true = ground arith in
      rw f (
        refl,
        λ j h. copy_up-inside n m d s 0 j (inl l) (omega arith) (omega arith),
        λ a o. copy_up-Outside n m d s 0 a (grind arith),
      )
  | inr l ↦
      let f : ltb d s ≡ false = ground arith in
      elim (lt_cases s d) [
        | inl l' ↦
            let g : ltb s d ≡ true = ground arith in
            rw (f, g)
              (refl, λ j h. copy_down-inside n m d s j l' h, λ a o. copy_down-Outside n m d s a o)
        | inr l' ↦
            let g : ltb s d ≡ false = ground arith in
            let e : d ≡ s = omega arith in rw (f, g) (refl, λ j h. rw e refl, λ a o. refl)
      ]
]
