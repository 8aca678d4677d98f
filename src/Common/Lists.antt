-- ===== src/Common/Lists.antt =====
-- Lists of numbers with their lengths in the native numbers.
use Prim.Native.Nat.{ℕ, zero, suc, ◌+◌}
use mathlib.Core.Path.{◌≡◌, refl}
use mathlib.Core.List.{List, [], ◌∷◌, ◌++◌}
use native.Mathlib.Omega.{arith}

abbrev pub length {ℓ} : {A : Type ℓ} → List A → ℕ
length [] = 0
length (x ∷ xs) = suc (length xs)

abbrev pub rev {ℓ} : {A : Type ℓ} → List A → List A
rev [] = []
rev (x ∷ xs) = rev xs ++ x ∷ []

abbrev pub times {ℓ} : {A : Type ℓ} → ℕ → A → List A
times zero c = []
times (suc n) c = c ∷ times n c

abbrev pub All {ℓ} : {A : Type ℓ} → (A → Type 0) → List A → Type 0
All P [] = Unit {0}
All P (x ∷ xs) = P x × All P xs

pub append-All {ℓ} :
    {A : Type ℓ} (P : A → Type 0) (xs ys : List A) → All P xs → All P ys → All P (xs ++ ys)
append-All P [] ys a b = b
append-All P (x ∷ xs) ys a b = (a.0, append-All P xs ys a.1 b)

pub map-All {ℓ} :
    {A : Type ℓ} (P Q : A → Type 0) (xs : List A) → ((x : A) → P x → Q x) → All P xs → All Q xs
map-All P Q [] f a = tt
map-All P Q (x ∷ xs) f a = (f x a.0, map-All P Q xs f a.1)

pub length-append {ℓ} : {A : Type ℓ} (xs ys : List A) → length (xs ++ ys) ≡ length xs + length ys
length-append [] ys = omega arith
length-append (x ∷ xs) ys = let e = length-append xs ys in omega (arith, e)

pub length-rev {ℓ} : {A : Type ℓ} (xs : List A) → length (rev xs) ≡ length xs
length-rev [] = refl
length-rev (x ∷ xs) =
    let e = length-rev xs in let f = length-append (rev xs) (x ∷ []) in omega (arith, e, f)

pub length-times {ℓ} : {A : Type ℓ} (n : ℕ) (c : A) → length (times n c) ≡ n
length-times zero c = refl
length-times (suc n) c = let e = length-times n c in omega (arith, e)
