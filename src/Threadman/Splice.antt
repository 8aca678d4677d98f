-- ===== src/Threadman/Splice.antt =====
-- A record linked between two others in src/iop/threadman.cpp: of threads by priority, and of alarms.
use ps2bios_rebuild.Common.{
  ℕ, ◌==◌, ◌≡◌, ◌≢◌, refl, sym, ap, ◌∙◌, arith, List, [], ◌∷◌, ◌++◌, false, if◌then◌else◌, subst,
}
use ps2bios_rebuild.Threadman.Types.{Links, nobody}
use ps2bios_rebuild.Threadman.Links.{
  set_next, set_prev, set_next_next, set_next_prev, set_prev_prev,
}
use ps2bios_rebuild.Threadman.Lists.{
  first, last, Absent, Distinct, Segment, SameBut, Segment-SameBut, set_next-SameBut,
  set_prev-SameBut, Segment-append, append-Segment, last-ne, Segment-set_next, Segment-set_prev,
  Absent-append, last-ne-nobody,
}
use ps2bios_rebuild.Threadman.Rings.{Distinct-insert, Distinct-front, last-Absent}

-- `id` with `p` before it and `n` behind it.
abbrev pub between : Links → ℕ → ℕ → ℕ → Links
between l p id n = set_next (set_prev l id p) id n

abbrev pub spliced : Links → ℕ → ℕ → ℕ → Links
spliced l p id n =
    let l = between l p id n in
    let l = if p == nobody then l else set_next l p id in if n == nobody then l else set_prev l n id

between-SameBut : (l : Links) (p id n : ℕ) → SameBut id l (between l p id n)
between-SameBut l p id n j h =
    let f = set_prev-SameBut l id p j h in
    let g = set_next-SameBut (set_prev l id p) id n j h in (g.0 ∙ f.0, g.1 ∙ f.1)

between_links :
    (l : Links) (p id n : ℕ) → ((between l p id n).next id ≡ n) × ((between l p id n).prev id ≡ p)
between_links l p id n = (
  ground (arith, set_next_next (set_prev l id p) id n id),
  ground (arith, set_next_prev (set_prev l id p) id n id, set_prev_prev l id p id),
)

-- The links once `p` or the head leads to `id`.
abbrev followed : Links → ℕ → ℕ → ℕ → Links
followed l p id n = if p == nobody then between l p id n else set_next (between l p id n) p id

-- The front and `id` are linked, and what is behind is as it was.
abbrev Fronted : ℕ → ℕ → List ℕ → List ℕ → Links → Type 0
Fronted id n xs ys u =
    Segment u nobody xs id
    × (u.next id ≡ n)
    × (u.prev id ≡ last nobody xs)
    × Segment u (last nobody xs) ys nobody

followed-front :
    (l : Links) (id n : ℕ) (xs ys : List ℕ)
    → first ys nobody ≡ n
    → Segment l nobody (xs ++ ys) nobody
    → Distinct (xs ++ ys)
    → id ≢ nobody
    → Absent id (xs ++ ys)
    → Fronted id n xs ys (followed l (last nobody xs) id n)
followed-front l id n [] ys e s d ne a =
    let f = between_links l nobody id n in
    (tt, f.0, f.1, Segment-SameBut l _ id nobody ys nobody (between-SameBut l nobody id n) a s)
followed-front l id n (x ∷ xs) ys e s d ne a =
    let p = last x xs in
    let b = between l p id n in
    let f = between_links l p id n in
    let c = Segment-append l nobody (x ∷ xs) ys nobody s in
    let g = Absent-append id (x ∷ xs) ys a in
    let sb : p ≢ nobody = last-ne-nobody l nobody x xs (first ys nobody) c.0 in
    let z : (p == nobody) ≡ false = ground arith in
    let o : id ≢ p = last-ne id x xs g.0.0 g.0.1 in
    let h = set_next-SameBut b p id id o in
    let k = between-SameBut l p id n in
    subst (Fronted id n (x ∷ xs) ys) (ap (λ b'. if b' then b else set_next b p id) (sym z)) (
      Segment-set_next b nobody x xs (first ys nobody) id (Distinct-front (x ∷ xs) ys d).0
          (Segment-SameBut l b id nobody (x ∷ xs) (first ys nobody) k g.0 c.0),
      h.0 ∙ f.0,
      h.1 ∙ f.1,
      Segment-SameBut b (set_next b p id) p p ys nobody (set_next-SameBut b p id)
          (last-Absent x xs ys d) (Segment-SameBut l b id p ys nobody k g.1 c.1),
    )

-- A record that is in no list, linked between two parts of one, is in it between them.
pub spliced-Segment :
    (l : Links) (id : ℕ) (xs ys : List ℕ)
    → Segment l nobody (xs ++ ys) nobody
    → Distinct (xs ++ ys)
    → id ≢ nobody
    → Absent id (xs ++ ys)
    → Segment (spliced l (last nobody xs) id (first ys nobody)) nobody (xs ++ id ∷ ys) nobody
      × Distinct (xs ++ id ∷ ys)
spliced-Segment l id xs [] s d ne a =
    let f = followed-front l id nobody xs [] refl s d ne a in
    let u = followed l (last nobody xs) id nobody in
    (
      append-Segment u nobody xs (id ∷ []) nobody f.0 (ne, f.2, f.1, tt),
      Distinct-insert id xs [] a d,
    )
spliced-Segment l id xs (y ∷ ys) s d ne a =
    let f = followed-front l id y xs (y ∷ ys) refl s d ne a in
    let u = followed l (last nobody xs) id y in
    let w = set_prev u y id in
    let z : (y == nobody) ≡ false = let sb = f.3.0 in ground arith in
    let b = Absent-append id xs (y ∷ ys) a in
    let h = set_prev-SameBut u y id id b.1.0 in
    let dy = Distinct-front xs (y ∷ ys) d in
    subst (λ w. Segment w nobody (xs ++ id ∷ y ∷ ys) nobody × Distinct (xs ++ id ∷ y ∷ ys))
      (ap (λ b. if b then u else w) (sym z))
      (
        append-Segment w nobody xs (id ∷ y ∷ ys) nobody
            (Segment-SameBut u w y nobody xs id (set_prev-SameBut u y id) (in_front xs d) f.0)
            (ne, h.1 ∙ f.2, h.0 ∙ f.1, Segment-set_prev u (last nobody xs) y ys nobody id dy.1 f.3),
        Distinct-insert id xs (y ∷ ys) a d,
      )
  where
    in_front : (xs : List ℕ) → Distinct (xs ++ y ∷ ys) → Absent y xs
    in_front [] d = tt
    in_front (x ∷ xs) d = ((λ e. (Absent-append x xs (y ∷ ys) d.0).1.0 (sym e)), in_front xs d.1)
