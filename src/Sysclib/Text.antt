-- ===== src/Sysclib/Text.antt =====
-- Strings in memory stand for lists of characters: the lengths and copies of src/iop/sysclib.cpp.
use ps2bios_rebuild.Common.{
  length, ℕ, zero, suc, ◌+◌, ◌<◌, ◌≤◌, ◌≡◌, ◌≢◌, ◌==◌, ◌∙◌, ◌⊎◌, inl, refl, ap, subst, arith, true,
  false, ◌||◌, update, some, List, [], ◌∷◌, ◌++◌,
}
use ps2bios_rebuild.Sysclib.Memory.{Bytes, null}
use ps2bios_rebuild.Sysclib.Moves.{Outside}
use ps2bios_rebuild.Sysclib.Strings.{string_end, strlen, strlen_from, copy_string, strcpy, strcat}

-- At s stand the characters xs, none of them NUL, and a NUL behind them.
abbrev pub IsString : Bytes → ℕ → List ℕ → Type 0
IsString m s [] = m s ≡ 0
IsString m s (x ∷ xs) = (m s ≡ x) × (x ≢ 0) × IsString m (suc s) xs

string_end-length :
    (fuel : ℕ) (m : Bytes) (s : ℕ) (xs : List ℕ)
    → IsString m s xs
    → length xs < fuel
    → string_end fuel m s ≡ some (s + length xs)
unfolding string_end
string_end-length zero m s xs v h = absurd (omega arith)
string_end-length (suc fuel) m s [] v h = ground arith
string_end-length (suc fuel) m s (x ∷ xs) v h =
    let e : (m s == 0) ≡ false = ground arith in
    rw e (string_end-length fuel m (suc s) xs v.2 (omega arith) ∙ ap some (omega arith))

strlen_from-length :
    (fuel : ℕ) (m : Bytes) (s n : ℕ) (xs : List ℕ)
    → IsString m (s + n) xs
    → length xs < fuel
    → strlen_from fuel m s n ≡ some (n + length xs)
unfolding strlen_from
strlen_from-length zero m s n xs v h = absurd (omega arith)
strlen_from-length (suc fuel) m s n [] v h = ground arith
strlen_from-length (suc fuel) m s n (x ∷ xs) v h =
    let e : (m (s + n) == 0) ≡ false = ground arith in
    let f : suc (s + n) ≡ s + suc n = omega arith in
    let w : IsString m (s + suc n) xs = subst (λ a. IsString m a xs) f v.2 in
    rw e (strlen_from-length fuel m s (suc n) xs w (omega arith) ∙ ap some (omega arith))

-- `strlen` counts the characters of a string that does not stand at null, with fuel for them.
pub strlen-length :
    (fuel : ℕ) (m : Bytes) (s : ℕ) (xs : List ℕ)
    → s ≢ null
    → IsString m s xs
    → length xs < fuel
    → strlen fuel m s ≡ some (length xs)
unfolding strlen
strlen-length fuel m s xs ne v h =
    let e : (s == null) ≡ false = ground arith in
    let f : s ≡ s + 0 = omega arith in
    rw e (
      strlen_from-length fuel m s 0 xs (subst (λ a. IsString m a xs) f v) h ∙ ap some (omega arith))

-- Memory that agrees on the bytes of a string holds it too.
pub IsString-agree :
    (m u : Bytes) (s : ℕ) (xs : List ℕ)
    → ((a : ℕ) → s ≤ a → a ≤ s + length xs → u a ≡ m a)
    → IsString m s xs
    → IsString u s xs
IsString-agree m u s [] f v = f s (omega arith) (omega arith) ∙ v
IsString-agree m u s (x ∷ xs) f v = (
  f s (omega arith) (omega arith) ∙ v.0,
  v.1,
  IsString-agree m u (suc s) xs (λ a h k. f a (omega arith) (omega arith)) v.2,
)

-- A copy of n bytes from s to d does not meet what it has still to read.
abbrev pub CopiesUp : ℕ → ℕ → ℕ → Type 0
CopiesUp d s n = (d < s) ⊎ (s + n < d)

-- What a copy of the string xs to d leaves.
abbrev pub CopiedTo : Bytes → ℕ → List ℕ → Bytes → Type 0
CopiedTo m d xs u = IsString u d xs × ((a : ℕ) → Outside d (suc (length xs)) a → u a ≡ m a)

copy_string-CopiedTo :
    (fuel : ℕ) (m : Bytes) (d s : ℕ) (xs : List ℕ)
    → IsString m s xs
    → length xs < fuel
    → CopiesUp d s (length xs)
    → (u : Bytes) × (copy_string fuel m d s ≡ some u) × CopiedTo m d xs u
unfolding copy_string
copy_string-CopiedTo zero m d s xs v h o = absurd (omega arith)
copy_string-CopiedTo (suc fuel) m d s [] v h o =
    let e : (m s == 0) ≡ true = ground arith in
    (update m d (m s), rw e refl, (ground arith, λ a w. grind arith))
copy_string-CopiedTo (suc fuel) m d s (x ∷ xs) v h o =
    let e : (m s == 0) ≡ false = ground arith in
    let c = update m d (m s) in
    let w : IsString c (suc s) xs = IsString-agree m c (suc s) xs (λ a h k. grind arith) v.2 in
    let (u, f, (g, k)) =
      copy_string-CopiedTo fuel c (suc d) (suc s) xs w (omega arith) (grind arith) in
    (
      u,
      rw e f,
      ((k d (inl (omega arith)) ∙ ground arith, v.1, g), λ a l. k a (grind arith) ∙ grind arith),
    )

-- `strcpy` answers the destination and leaves the string there, and every other byte as it was, with
-- fuel for its characters, if neither argument is null and the destination does not start in it.
pub strcpy-CopiedTo :
    (fuel : ℕ) (m : Bytes) (d s : ℕ) (xs : List ℕ)
    → d ≢ null
    → s ≢ null
    → IsString m s xs
    → length xs < fuel
    → CopiesUp d s (length xs)
    → (u : Bytes) × (strcpy fuel m d s ≡ some (d, u)) × CopiedTo m d xs u
unfolding strcpy
strcpy-CopiedTo fuel m d s xs nd ns v h o =
    let e : (d == null || s == null) ≡ false = ground arith in
    let (u, f, g) = copy_string-CopiedTo fuel m d s xs v h o in (u, rw (e, f) refl, g)

-- A string behind the characters of another is one string.
IsString-append :
    (m u : Bytes) (d : ℕ) (xs ys : List ℕ)
    → IsString m d xs
    → ((a : ℕ) → a < d + length xs → u a ≡ m a)
    → IsString u (d + length xs) ys
    → IsString u d (xs ++ ys)
IsString-append m u d [] ys v f w = subst (λ a. IsString u a ys) (omega arith) w
IsString-append m u d (x ∷ xs) ys v f w =
    let e : d + suc (length xs) ≡ suc d + length xs = omega arith in
    (
      f d (omega arith) ∙ v.0,
      v.1,
      IsString-append m u (suc d) xs ys v.2 (λ a h. f a (omega arith))
          (subst (λ a. IsString u a ys) e w),
    )

-- `strcat` answers the destination and leaves both strings there as one, and every byte outside
-- the new part as it was, with fuel for either, if neither argument is null and the end of the
-- first does not lie in the second.
pub strcat-IsString :
    (fuel : ℕ) (m : Bytes) (d s : ℕ) (xs ys : List ℕ)
    → d ≢ null
    → s ≢ null
    → IsString m d xs
    → IsString m s ys
    → length xs < fuel
    → length ys < fuel
    → CopiesUp (d + length xs) s (length ys)
    → (u : Bytes) × (strcat fuel m d s ≡ some (d, u))
      × IsString u d (xs ++ ys)
      × ((a : ℕ) → Outside (d + length xs) (suc (length ys)) a → u a ≡ m a)
unfolding strcat
strcat-IsString fuel m d s xs ys nd ns v w h k o =
    let e : (d == null || s == null) ≡ false = ground arith in
    let g : (d + length xs == s + length ys) ≡ false = grind arith in
    let (u, f, (c, l)) = copy_string-CopiedTo fuel m (d + length xs) s ys w k o in
    (
      u,
      rw (e, string_end-length fuel m d xs v h, string_end-length fuel m s ys w k, g, f) refl,
      IsString-append m u d xs ys v (λ a q. l a (inl q)) c,
      l,
    )
