-- ===== src/Loadcore/Chains.antt =====
-- The linked lists of src/iop/loadcore.cpp as lists of addresses, 0 at their ends.
use ps2bios_rebuild.Common.{
  ℕ, ◌≡◌, ◌≢◌, sym, ◌∙◌, arith, List, [], ◌∷◌, ◌++◌, Bool, update, if◌then◌else◌, subst, if_ind,
}
use ps2bios_rebuild.Threadman.Lists.{last, Absent, Distinct, append-Absent, last-ne}
use ps2bios_rebuild.Threadman.Rings.{sources}

-- From the pointer `c` on, `next` leads through `xs`, and then the list ends.
abbrev pub Chain : (ℕ → ℕ) → ℕ → List ℕ → Type 0
Chain next c [] = c ≡ 0
Chain next c (x ∷ xs) = (c ≡ x) × (x ≢ 0) × Chain next (next x) xs

-- `next` leads from `p` through `xs`.
abbrev pub Leads : (ℕ → ℕ) → ℕ → List ℕ → Type 0
Leads next p [] = Unit {0}
Leads next p (x ∷ xs) = (next p ≡ x) × (x ≢ 0) × Leads next x xs

-- None of `xs` is one of `ys`.
abbrev pub Apart : List ℕ → List ℕ → Type 0
Apart [] ys = Unit {0}
Apart (x ∷ xs) ys = Absent x ys × Apart xs ys

pub update-other : (f : ℕ → ℕ) (i v j : ℕ) → j ≢ i → update f i v j ≡ f j
update-other f i v j h = ground arith

pub update-same : (f : ℕ → ℕ) (i v : ℕ) → update f i v i ≡ v
update-same f i v = ground arith

pub update-Chain :
    (f : ℕ → ℕ) (i v c : ℕ) (xs : List ℕ) → Absent i xs → Chain f c xs → Chain (update f i v) c xs
update-Chain f i v c [] a h = h
update-Chain f i v c (x ∷ xs) a h = (
  h.0,
  h.1,
  subst (λ n. Chain (update f i v) n xs) (sym (update-other f i v x (λ e. a.0 (sym e))))
      (update-Chain f i v (f x) xs a.1 h.2),
)

pub update-Leads :
    (f : ℕ → ℕ) (i v p : ℕ) (xs : List ℕ)
    → Absent i (sources p xs)
    → Leads f p xs
    → Leads (update f i v) p xs
update-Leads f i v p [] a h = tt
update-Leads f i v p (x ∷ xs) a h =
    (update-other f i v p (λ e. a.0 (sym e)) ∙ h.0, h.1, update-Leads f i v x xs a.1 h.2)

pub Leads-snoc :
    (f : ℕ → ℕ) (p x : ℕ) (xs : List ℕ)
    → Leads f p xs
    → f (last p xs) ≡ x
    → x ≢ 0
    → Leads f p (xs ++ x ∷ [])
Leads-snoc f p x [] h e nz = (e, nz, tt)
Leads-snoc f p x (y ∷ xs) h e nz = (h.0, h.1, Leads-snoc f y x xs h.2 e nz)

pub Leads-Chain :
    (f : ℕ → ℕ) (p : ℕ) (xs : List ℕ) → Leads f p xs → f (last p xs) ≡ 0 → Chain f (f p) xs
Leads-Chain f p [] h e = e
Leads-Chain f p (x ∷ xs) h e = (h.0, h.1, Leads-Chain f x xs h.2 e)

-- Lists without a common member.
pub Apart-snoc : (x : ℕ) (xs ys : List ℕ) → Apart xs ys → Absent x xs → Apart xs (ys ++ x ∷ [])
Apart-snoc x [] ys h a = tt
Apart-snoc x (y ∷ xs) ys h a =
    (append-Absent y ys (x ∷ []) h.0 ((λ e. a.0 (sym e)), tt), Apart-snoc x xs ys h.1 a.1)

pub Apart-cons : (x : ℕ) (xs ys : List ℕ) → Apart xs ys → Absent x xs → Apart xs (x ∷ ys)
Apart-cons x [] ys h a = tt
Apart-cons x (y ∷ xs) ys h a = (((λ e. a.0 (sym e)), h.0), Apart-cons x xs ys h.1 a.1)

-- The last of a list is none of those that are apart from it.
pub last-Apart : (p : ℕ) (xs ys : List ℕ) → Apart ys (p ∷ xs) → Absent (last p xs) ys
last-Apart p xs [] h = tt
last-Apart p xs (y ∷ ys) h = ((λ e. last-ne y p xs h.0.0 h.0.1 (sym e)), last-Apart p xs ys h.1)

pub Apart-nil : (xs : List ℕ) → Apart xs []
Apart-nil [] = tt
Apart-nil (x ∷ xs) = (tt, Apart-nil xs)

-- A list whose next pointers are the same is led through in the same way.
pub Chain-same :
    (f g : ℕ → ℕ) (c : ℕ) (xs ys : List ℕ)
    → ((j : ℕ) → Absent j ys → g j ≡ f j)
    → Apart xs ys
    → Chain f c xs
    → Chain g c xs
Chain-same f g c [] ys e a h = h
Chain-same f g c (x ∷ xs) ys e a h =
    (h.0, h.1, subst (λ n. Chain g n xs) (sym (e x a.0)) (Chain-same f g (f x) xs ys e a.1 h.2))

-- Of a list, what passes a test and what does not.
abbrev pub keep : (ℕ → Bool) → List ℕ → List ℕ
keep q [] = []
keep q (x ∷ xs) = let rest = keep q xs in if q x then x ∷ rest else rest

abbrev pub drop : (ℕ → Bool) → List ℕ → List ℕ
drop q [] = []
drop q (x ∷ xs) = let rest = drop q xs in if q x then rest else x ∷ rest

pub drop-Absent : (q : ℕ → Bool) (i : ℕ) (xs : List ℕ) → Absent i xs → Absent i (drop q xs)
drop-Absent q i [] a = tt
drop-Absent q i (x ∷ xs) a =
    if_ind (Absent i) (q x) (λ e. drop-Absent q i xs a.1) (λ e. (a.0, drop-Absent q i xs a.1))

pub drop-Distinct : (q : ℕ → Bool) (xs : List ℕ) → Distinct xs → Distinct (drop q xs)
drop-Distinct q [] d = tt
drop-Distinct q (x ∷ xs) d =
    if_ind Distinct (q x) (λ e. drop-Distinct q xs d.1)
      (λ e. (drop-Absent q x xs d.0, drop-Distinct q xs d.1))
