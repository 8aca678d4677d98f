-- ===== src/Sysclib/Compare.antt =====
-- The string comparisons of src/iop/sysclib.cpp: equality, and the bounded one.
use ps2bios_rebuild.Common.{
  length, ℕ, zero, suc, ◌+◌, ◌<◌, ◌≡◌, ◌≢◌, ◌==◌, ◌∙◌, inl, inr, refl, sym, ap, subst, arith, true,
  false, not, ◌||◌, Option, none, some, List, [], ◌∷◌, Bool-cases, Option-cases, ◌↔◌,
}
use ps2bios_rebuild.Sysclib.Memory.{Bytes, null, is_negative}
use ps2bios_rebuild.Sysclib.Strings.{
  strcmp, strcmp_from, strncmp, strncmp_from, difference, compare_null,
}
use ps2bios_rebuild.Sysclib.Text.{IsString}
use ps2bios_rebuild.Sysclib.Words.{AllBytes}

difference-zero : (a b : ℕ) → a < 0x100 → b < 0x100 → difference a b ≡ 0 → a ≡ b
difference-zero a b h k e = ground arith

-- What a comparison answers: 0 exactly for the same lists.
abbrev Equality : List ℕ → List ℕ → Option ℕ → Type 0
Equality xs ys o = (r : ℕ) × (o ≡ some r) × ((r ≡ 0) ↔ (xs ≡ ys))

abbrev tail : List ℕ → List ℕ
tail [] = []
tail (x ∷ xs) = xs

differ :
    (a b : ℕ) (xs ys : List ℕ)
    → a < 0x100
    → b < 0x100
    → a ≢ b
    → (xs ≡ ys → a ≡ b)
    → Equality xs ys (some (difference a b))
differ a b xs ys h k ne f =
    (difference a b, refl, ((λ e. absurd (ne (difference-zero a b h k e))), λ e. absurd (ne (f e))))

abbrev head : List ℕ → ℕ
head [] = 0
head (x ∷ xs) = x

stops : (m : Bytes) (a b : ℕ) → m a ≢ m b → (not (m a == m b) || m a == 0) ≡ true
stops m a b ne = ground arith

strcmp_from-Equality :
    (fuel : ℕ) (m : Bytes) (a b : ℕ) (xs ys : List ℕ)
    → AllBytes m
    → IsString m a xs
    → IsString m b ys
    → length xs < fuel
    → Equality xs ys (strcmp_from fuel m a b)
unfolding strcmp_from
strcmp_from-Equality zero m a b xs ys p v w h = absurd (omega arith)
strcmp_from-Equality (suc fuel) m a b [] [] p v w h =
    let e : (not (m a == m b) || m a == 0) ≡ true = ground arith in
    rw e (difference (m a) (m b), refl, ((λ z. refl), λ z. rw (v, w) refl))
strcmp_from-Equality (suc fuel) m a b [] (y ∷ ys) p v w h =
    let ne : m a ≢ m b = ground arith in
    rw (stops m a b ne)
      (differ (m a) (m b) [] (y ∷ ys) (p a) (p b) ne (λ e. v ∙ ap head e ∙ sym w.0))
strcmp_from-Equality (suc fuel) m a b (x ∷ xs) [] p v w h =
    let ne : m a ≢ m b = ground arith in
    rw (stops m a b ne)
      (differ (m a) (m b) (x ∷ xs) [] (p a) (p b) ne (λ e. v.0 ∙ ap head e ∙ sym w))
strcmp_from-Equality (suc fuel) m a b (x ∷ xs) (y ∷ ys) p v w h = elim (Bool-cases (m a == m b)) [
  | inl e ↦
      let f : (not (m a == m b) || m a == 0) ≡ false = ground arith in
      let g : x ≡ y = ground arith in
      let (r, k, (l, n)) =
        strcmp_from-Equality fuel m (suc a) (suc b) xs ys p v.2 w.2 (omega arith) in
      rw (f, k) (r, refl, ((λ z. cc (g, l z)), λ z. n (ap tail z)))
  | inr e ↦
      let ne : m a ≢ m b = ground arith in
      rw (stops m a b ne)
        (differ (m a) (m b) (x ∷ xs) (y ∷ ys) (p a) (p b) ne (λ z. v.0 ∙ ap head z ∙ sym w.0))
]

compare_not_null : (a b : ℕ) → a ≢ null → b ≢ null → compare_null a b ≡ none
unfolding compare_null
compare_not_null a b na nb = ground arith

-- `strcmp` answers 0 exactly for the same strings, of any bytes, with fuel for the first.
pub strcmp-equal :
    (fuel : ℕ) (m : Bytes) (a b : ℕ) (xs ys : List ℕ)
    → a ≢ null
    → b ≢ null
    → AllBytes m
    → IsString m a xs
    → IsString m b ys
    → length xs < fuel
    → (r : ℕ) × (strcmp fuel m a b ≡ some r) × ((r ≡ 0) ↔ (xs ≡ ys))
unfolding strcmp
strcmp-equal fuel m a b xs ys na nb p v w h =
    rw (strcmp, compare_not_null a b na nb) (strcmp_from-Equality fuel m a b xs ys p v w h)

strncmp_from-strcmp_from :
    (n fuel : ℕ) (m : Bytes) (a b i : ℕ) (xs : List ℕ)
    → IsString m (a + i) xs
    → length xs < n
    → length xs < fuel
    → some (strncmp_from n m a b i) ≡ strcmp_from fuel m (a + i) (b + i)
unfolding strncmp_from strcmp_from
strncmp_from-strcmp_from zero fuel m a b i xs v h k = absurd (omega arith)
strncmp_from-strcmp_from (suc n) zero m a b i xs v h k = absurd (omega arith)
strncmp_from-strcmp_from (suc n) (suc fuel) m a b i [] v h k =
    let e : (not (m (a + i) == m (b + i)) || m (a + i) == 0) ≡ true = ground arith in rw e refl
strncmp_from-strcmp_from (suc n) (suc fuel) m a b i (x ∷ xs) v h k =
    elim (Bool-cases (not (m (a + i) == m (b + i)) || m (a + i) == 0)) [
      | inl e ↦ rw e refl
      | inr e ↦
          let f : suc (a + i) ≡ a + suc i = omega arith in
          let g : suc (b + i) ≡ b + suc i = omega arith in
          rw (e, f, g)
            (strncmp_from-strcmp_from n fuel m a b (suc i) xs (subst (λ j. IsString m j xs) f v.2)
              (omega arith) (omega arith))
    ]

-- With a bound above the length of the first string, and an `int` of at least 0, `strncmp` answers
-- what `strcmp` answers.
pub strncmp-strcmp :
    (fuel : ℕ) (m : Bytes) (a b n : ℕ) (xs : List ℕ)
    → IsString m a xs
    → length xs < n
    → n < 0x80000000
    → length xs < fuel
    → some (strncmp m a b n) ≡ strcmp fuel m a b
unfolding strncmp strcmp
strncmp-strcmp fuel m a b n xs v h l k =
    let e : is_negative n ≡ false = ground arith in
    elim (Option-cases (compare_null a b)) [
      | inl f ↦
          let x : a + 0 ≡ a = omega arith in
          let y : b + 0 ≡ b = omega arith in
          rw (strncmp, strcmp, f, e)
            (strncmp_from-strcmp_from n fuel m a b 0 xs (subst (λ c. IsString m c xs) (sym x) v) h k
              ∙ ap (λ c. strcmp_from fuel m c (b + 0)) x
              ∙ ap (strcmp_from fuel m a) y)
      | inr (r, f) ↦ rw (strncmp, strcmp, f) refl
    ]
