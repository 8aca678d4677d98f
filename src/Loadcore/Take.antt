-- ===== src/Loadcore/Take.antt =====
-- The clients that a superseded table of src/iop/loadcore.cpp gives up join those taken before.
use ps2bios_rebuild.Common.{
  ℕ, zero, suc, ◌<◌, ◌==◌, ◌≡◌, refl, sym, ap, ◌∙◌, arith, List, [], ◌∷◌, ◌++◌, Bool, true, false,
  update, rev, length, if_ind, subst, none, some, ◌≤◌, length-rev, Bool-cases, inl, inr,
}
use ps2bios_rebuild.Threadman.Lists.{Absent, Distinct, Distinct-snoc, append-Absent}
use ps2bios_rebuild.Loadcore.Tables.{Tables, is_pinned}
use ps2bios_rebuild.Loadcore.Register.{append_taken, take_clients}
use ps2bios_rebuild.Loadcore.Chains.{
  Chain, Apart, update-other, update-Chain, Apart-nil, Apart-cons, keep, drop, drop-Absent,
  drop-Distinct, Chain-same,
}
use ps2bios_rebuild.Loadcore.Detach.{with_clients, detach_unpinned_clients-Dealt}

pub Apart-sym : (xs ys : List ℕ) → Apart xs ys → Apart ys xs
Apart-sym [] ys h = Apart-nil ys
Apart-sym (x ∷ xs) ys h = Apart-cons x ys xs (Apart-sym xs ys h.1) h.0

pub append-Apart : (xs ys zs : List ℕ) → Apart xs zs → Apart ys zs → Apart (xs ++ ys) zs
append-Apart [] ys zs h k = k
append-Apart (x ∷ xs) ys zs h k = (h.0, append-Apart xs ys zs h.1 k)

pub rev-Apart : (xs zs : List ℕ) → Apart xs zs → Apart (rev xs) zs
rev-Apart [] zs h = tt
rev-Apart (x ∷ xs) zs h = append-Apart (rev xs) (x ∷ []) zs (rev-Apart xs zs h.1) (h.0, tt)

pub drop-Apart : (q : ℕ → Bool) (xs zs : List ℕ) → Apart xs zs → Apart (drop q xs) zs
drop-Apart q [] zs h = tt
drop-Apart q (x ∷ xs) zs h =
    if_ind (λ us. Apart us zs) (q x) (λ e. drop-Apart q xs zs h.1)
      (λ e. (h.0, drop-Apart q xs zs h.1))

pub keep-Apart : (q : ℕ → Bool) (xs zs : List ℕ) → Apart xs zs → Apart (keep q xs) zs
keep-Apart q [] zs h = tt
keep-Apart q (x ∷ xs) zs h =
    if_ind (λ us. Apart us zs) (q x) (λ e. (h.0, keep-Apart q xs zs h.1))
      (λ e. keep-Apart q xs zs h.1)

pub rev-Absent : (i : ℕ) (xs : List ℕ) → Absent i xs → Absent i (rev xs)
rev-Absent i [] a = tt
rev-Absent i (x ∷ xs) a = append-Absent i (rev xs) (x ∷ []) (rev-Absent i xs a.1) (a.0, tt)

pub rev-Distinct : (xs : List ℕ) → Distinct xs → Distinct (rev xs)
rev-Distinct [] d = tt
rev-Distinct (x ∷ xs) d = Distinct-snoc x (rev xs) (rev-Absent x xs d.0) (rev-Distinct xs d.1)

length-drop : (q : ℕ → Bool) (xs : List ℕ) → length (drop q xs) ≤ length xs
length-drop q [] = omega arith
length-drop q (x ∷ xs) =
    if_ind (λ us. length us ≤ suc (length xs)) (q x) (λ e. omega (arith, length-drop q xs))
      (λ e. omega (arith, length-drop q xs))

pub keep-Absent : (q : ℕ → Bool) (i : ℕ) (xs : List ℕ) → Absent i xs → Absent i (keep q xs)
keep-Absent q i [] a = tt
keep-Absent q i (x ∷ xs) a =
    if_ind (Absent i) (q x) (λ e. (a.0, keep-Absent q i xs a.1)) (λ e. keep-Absent q i xs a.1)

keep-Apart-drop : (q : ℕ → Bool) (xs : List ℕ) → Distinct xs → Apart (keep q xs) (drop q xs)
keep-Apart-drop q [] d = tt
keep-Apart-drop q (x ∷ xs) d = elim (Bool-cases (q x)) [
  | inl e ↦ rw e (drop-Absent q x xs d.0, keep-Apart-drop q xs d.1)
  | inr e ↦
      rw e
        (Apart-cons x (keep q xs) (drop q xs) (keep-Apart-drop q xs d.1) (keep-Absent q x xs d.0))
]

pub keep-Apart-rev :
    (q : ℕ → Bool) (xs : List ℕ) → Distinct xs → Apart (keep q xs) (rev (drop q xs))
keep-Apart-rev q xs d =
    Apart-sym (rev (drop q xs)) (keep q xs) (
      rev-Apart (drop q xs) (keep q xs)
        (Apart-sym (keep q xs) (drop q xs) (keep-Apart-drop q xs d)))

Appended : Tables → ℕ → (ℕ → ℕ) → ℕ → ℕ → ℕ → List ℕ → List ℕ → Type 0
Appended r n f from_this taken at us ts =
    (g : ℕ → ℕ) × (append_taken n (with_clients r f) from_this taken at
      ≡ some (from_this, with_clients r g))
    × Chain g at (us ++ ts)
    × ((j : ℕ) → Absent j us → g j ≡ f j)

append_taken-Appended :
    (r : Tables) (n : ℕ) (f : ℕ → ℕ) (from_this taken at u : ℕ) (us ts : List ℕ)
    → length us < n
    → Chain f at (u ∷ us)
    → Distinct (u ∷ us)
    → Chain f taken ts
    → Apart (u ∷ us) ts
    → Appended r n f from_this taken at (u ∷ us) ts
unfolding append_taken Appended
append_taken-Appended r zero f from_this taken at u us ts h w d k a = absurd (omega arith)
append_taken-Appended r (suc n) f from_this taken at u [] ts h w d k a =
    let z : (at == 0) ≡ false = let (e, nz, _) = w in ground arith in
    let l : (f at == 0) ≡ true = let e = ap f w.0 ∙ w.2 in ground arith in
    let t : update f at taken u ≡ taken = let e = w.0 in ground arith in
    (
      update f at taken,
      rw (z, l) refl,
      (
        w.0,
        w.1,
        subst (λ p. Chain (update f at taken) p ts) (sym t)
            (update-Chain f at taken taken ts (subst (λ i. Absent i ts) (sym w.0) a.0) k),
      ),
      λ j b. update-other f at taken j (λ e. b.0 (e ∙ w.0)),
    )
append_taken-Appended r (suc n) f from_this taken at u (v ∷ us) ts h w d k a =
    let z : (at == 0) ≡ false = let (e, nz, _) = w in ground arith in
    let l : (f at == 0) ≡ false = let e = ap f w.0 ∙ w.2.0 in let nz = w.2.1 in ground arith in
    let (g, e, c, s) =
      append_taken-Appended r n f from_this taken (f u) v us ts (omega arith) w.2 d.1 k a.1 in
    (
      g,
      rw (z, l) (ap (λ p. append_taken n (with_clients r f) from_this taken p) (ap f w.0) ∙ e),
      (w.0, w.1, subst (λ p. Chain g p ((v ∷ us) ++ ts)) (sym (s u d.0)) c),
      λ j b. s j b.1,
    )

-- What a table of the library gives up.
abbrev pub given_up : Tables → List ℕ → List ℕ
given_up r xs = rev (drop (is_pinned r) xs)

Joined : Tables → ℕ → (ℕ → ℕ) → ℕ → ℕ → List ℕ → List ℕ → Type 0
Joined r n g taken first us ts =
    (t : ℕ) × (k : ℕ → ℕ) × (append_taken n (with_clients r g) first taken first
      ≡ some (t, with_clients r k))
    × Chain k t (us ++ ts)
    × ((j : ℕ) → Absent j us → k j ≡ g j)

append_taken-Joined :
    (r : Tables) (n : ℕ) (g : ℕ → ℕ) (taken first : ℕ) (us ts : List ℕ)
    → length us < n
    → Chain g first us
    → Distinct us
    → Chain g taken ts
    → Apart us ts
    → Joined r n g taken first us ts
unfolding append_taken Joined Appended
append_taken-Joined r zero g taken first us ts h w d k a = absurd (omega arith)
append_taken-Joined r (suc n) g taken first [] ts h w d k a =
    let z : (first == 0) ≡ true = ground arith in (taken, g, rw z refl, k, λ j b. refl)
append_taken-Joined r (suc n) g taken first (u ∷ us) ts h w d k a =
    let (f, e, c, s) =
      append_taken-Appended r (suc n) g first taken first u us ts (omega arith) w d k a in
    (first, f, e, c, s)

pub take_clients_lem :
    (r : Tables) (fuel taken w : ℕ) (xs ts : List ℕ)
    → Chain r.clients (r.clients w) xs
    → Distinct (w ∷ xs)
    → Chain r.clients taken ts
    → Apart ts (w ∷ xs)
    → length xs < fuel
    → (t : ℕ) × (k : ℕ → ℕ) × (take_clients fuel r taken w ≡ some (t, with_clients r k))
      × Chain k (k w) (keep (is_pinned r) xs)
      × Chain k t (given_up r xs ++ ts)
      × ((j : ℕ) → Absent j (w ∷ xs) → k j ≡ r.clients j)
unfolding take_clients Joined
take_clients_lem r fuel taken w xs ts c d ct a h =
    let q = is_pinned r in
    let us = given_up r xs in
    let b = Apart-sym ts (w ∷ xs) a in
    let (first, g, e, ck, cm, s) = detach_unpinned_clients-Dealt r fuel w xs c d h in
    let long : length us < fuel = omega (arith, length-rev (drop q xs), length-drop q xs, h) in
    let (t, k, f, cj, z) =
      append_taken-Joined r fuel g taken first us ts long cm
        (rev-Distinct (drop q xs) (drop-Distinct q xs d.1))
        (Chain-same r.clients g taken ts (w ∷ xs) s a ct)
        (rev-Apart (drop q xs) ts (drop-Apart q xs ts b.1)) in
    let kw : k w ≡ g w = z w (rev-Absent w (drop q xs) (drop-Absent q w xs d.0)) in
    (
      t,
      k,
      ap (λ o. elim o [ none ↦ none | some (i, r) ↦ append_taken fuel r i taken i ]) e ∙ f,
      subst (λ p. Chain k p (keep q xs)) (sym kw)
          (Chain-same g k (g w) (keep q xs) us z (keep-Apart-rev q xs d.1) ck),
      cj,
      λ j n. z j (rev-Absent j (drop q xs) (drop-Absent q j xs n.1)) ∙ s j n,
    )
