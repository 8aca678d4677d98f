-- ===== src/Loadcore/Walks.antt =====
-- The walk of src/iop/loadcore.cpp over the registry, when a library is registered that is newer.
use ps2bios_rebuild.Common.{
  ℕ, zero, suc, ◌<◌, ◌==◌, ◌≡◌, ◌≢◌, refl, sym, ap, ◌∙◌, arith, List, [], ◌∷◌, ◌++◌, true, false,
  leb, length, if◌then◌else◌, subst, none, some, Bool-cases, inl, inr,
}
use ps2bios_rebuild.Threadman.Lists.{Absent, Distinct, Absent-append}
use ps2bios_rebuild.Threadman.Rings.{Distinct-front}
use ps2bios_rebuild.Loadcore.Tables.{Tables, is_pinned, same_library, minor}
use ps2bios_rebuild.Loadcore.Register.{Walk, walked, endless, take_clients, walk_registry}
use ps2bios_rebuild.Loadcore.Chains.{Chain, Apart, Chain-same, keep, drop}
use ps2bios_rebuild.Loadcore.Detach.{with_clients}
use ps2bios_rebuild.Loadcore.Take.{
  take_clients_lem, given_up, append-Apart, rev-Apart, drop-Apart, keep-Apart, Apart-sym,
}

-- The tables `ws` of a registry and their clients.
abbrev pub members : (ℕ → List ℕ) → List ℕ → List ℕ
members cs [] = []
members cs (w ∷ ws) = w ∷ cs w ++ members cs ws

-- The clients of each of `ws`, and that the loops over them have steps enough.
abbrev pub Served : (ℕ → ℕ) → (ℕ → List ℕ) → ℕ → List ℕ → Type 0
Served f cs fuel [] = Unit {0}
Served f cs fuel (w ∷ ws) = Chain f (f w) (cs w) × (length (cs w) < fuel) × Served f cs fuel ws

-- What the tables of the same library as `table` give up, those of the later ones first, before `ts`.
abbrev pub gather : Tables → ℕ → (ℕ → List ℕ) → List ℕ → List ℕ → List ℕ
gather r table cs [] ts = ts
gather r table cs (w ∷ ws) ts =
    let passed = gather r table cs ws ts in
    let taken = gather r table cs ws (given_up r (cs w) ++ ts) in
    if same_library r w table then taken else passed

-- Which clients stay with `w`.
abbrev pub staying : Tables → ℕ → (ℕ → List ℕ) → ℕ → List ℕ
staying r table cs w = if same_library r w table then keep (is_pinned r) (cs w) else cs w

abbrev pub Stay : Tables → ℕ → (ℕ → List ℕ) → (ℕ → ℕ) → List ℕ → Type 0
Stay r table cs g [] = Unit {0}
Stay r table cs g (w ∷ ws) = Chain g (g w) (staying r table cs w) × Stay r table cs g ws

-- `table` is newer than the tables of its library.
abbrev pub Newer : Tables → ℕ → List ℕ → Type 0
Newer r table [] = Unit {0}
Newer r table (w ∷ ws) =
    (same_library r w table ≡ true → minor r w < minor r table) × Newer r table ws

pub Absent-Apart : (xs ys : List ℕ) → Distinct (xs ++ ys) → Apart xs ys
Absent-Apart [] ys d = tt
Absent-Apart (x ∷ xs) ys d = ((Absent-append x xs ys d.0).1, Absent-Apart xs ys d.1)

pub Apart-append : (ts xs ys : List ℕ) → Apart ts (xs ++ ys) → Apart ts xs × Apart ts ys
Apart-append [] xs ys a = (tt, tt)
Apart-append (t ∷ ts) xs ys a =
    let b = Absent-append t xs ys a.0 in
    let c = Apart-append ts xs ys a.1 in ((b.0, c.0), (b.1, c.1))

Served-same :
    (f g : ℕ → ℕ) (cs : ℕ → List ℕ) (fuel : ℕ) (ws ys : List ℕ)
    → ((j : ℕ) → Absent j ys → g j ≡ f j)
    → Apart (members cs ws) ys
    → Served f cs fuel ws
    → Served g cs fuel ws
Served-same f g cs fuel [] ys e a s = tt
Served-same f g cs fuel (w ∷ ws) ys e a s =
    let b = Apart-sym (cs w ++ members cs ws) ys a.1 in
    let c = Apart-append ys (cs w) (members cs ws) b in
    (
      subst (λ p. Chain g p (cs w)) (sym (e w a.0))
          (Chain-same f g (f w) (cs w) ys e (Apart-sym ys (cs w) c.0) s.0),
      s.1,
      Served-same f g cs fuel ws ys e (Apart-sym ys (members cs ws) c.1) s.2,
    )

abbrev pub Walking : Tables → ℕ → ℕ → ℕ → (ℕ → List ℕ) → (ℕ → ℕ) → ℕ → ℕ → List ℕ → List ℕ → Type 0
Walking r fuel n table cs f taken c ws ts =
    (t : ℕ) × (g : ℕ → ℕ) × (walk_registry fuel n (with_clients r f) table taken c
      ≡ walked t (with_clients r g))
    × Chain g t (gather r table cs ws ts)
    × Stay r table cs g ws
    × ((j : ℕ) → Absent j (members cs ws) → g j ≡ f j)

walk_passes :
    (r : Tables) (fuel n table : ℕ) (f : ℕ → ℕ) (taken w : ℕ)
    → w ≢ 0
    → same_library r w table ≡ false
    → walk_registry fuel (suc n) (with_clients r f) table taken w
      ≡ walk_registry fuel n (with_clients r f) table taken (r.link w)
unfolding walk_registry same_library
walk_passes r fuel n table f taken w nz e =
    let z : (w == 0) ≡ false = ground arith in rw (z, e) refl

walk_takes :
    (r : Tables) (fuel n table : ℕ) (f : ℕ → ℕ) (taken w t : ℕ) (k : ℕ → ℕ)
    → w ≢ 0
    → same_library r w table ≡ true
    → minor r w < minor r table
    → take_clients fuel (with_clients r f) taken w ≡ some (t, with_clients r k)
    → walk_registry fuel (suc n) (with_clients r f) table taken w
      ≡ walk_registry fuel n (with_clients r k) table t (r.link w)
unfolding walk_registry same_library
walk_takes r fuel n table f taken w t k nz e l h =
    let z : (w == 0) ≡ false = ground arith in
    let y : leb (minor r table) (minor r w) ≡ false = ground arith in
    rw (z, e, y)
      (ap
        (λ o. elim o as (λ _. Walk) [
          | none ↦ endless
          | some (taken, r) ↦ walk_registry fuel n r table taken (r.link w)
        ])
        h)

-- What the members of a table and those of the others are to each other.
pub member_facts :
    (cs : ℕ → List ℕ) (w : ℕ) (ws : List ℕ)
    → Distinct (members cs (w ∷ ws))
    → Distinct (w ∷ cs w) × Distinct (members cs ws) × Apart (w ∷ cs w) (members cs ws)
member_facts cs w ws d =
    let a = Absent-append w (cs w) (members cs ws) d.0 in
    let b = Distinct-front (cs w) (members cs ws) d.1 in
    ((a.0, b.0), b.1, (a.1, Absent-Apart (cs w) (members cs ws) d.1))

step_passes :
    (r : Tables) (fuel n table : ℕ) (cs : ℕ → List ℕ) (f : ℕ → ℕ) (taken w : ℕ) (ws ts : List ℕ)
    → w ≢ 0
    → same_library r w table ≡ false
    → Chain f (f w) (cs w)
    → Apart (w ∷ cs w) (members cs ws)
    → Walking r fuel n table cs f taken (r.link w) ws ts
    → Walking r fuel (suc n) table cs f taken w (w ∷ ws) ts
step_passes r fuel n table cs f taken w ws ts nz e s b (t, g, eq, ck, st, sm) = (
  t,
  g,
  walk_passes r fuel n table f taken w nz e ∙ eq,
  rw e ck,
  (
    rw e (
        subst (λ p. Chain g p (cs w)) (sym (sm w b.0))
          (Chain-same f g (f w) (cs w) (members cs ws) sm b.1 s)),
    st,
  ),
  λ j a. sm j (Absent-append j (cs w) (members cs ws) a.1).1,
)

step_takes :
    (r : Tables) (fuel n table : ℕ) (cs : ℕ → List ℕ) (f k : ℕ → ℕ) (taken w i : ℕ) (ws ts : List ℕ)
    → w ≢ 0
    → same_library r w table ≡ true
    → minor r w < minor r table
    → take_clients fuel (with_clients r f) taken w ≡ some (i, with_clients r k)
    → Chain k (k w) (keep (is_pinned r) (cs w))
    → ((j : ℕ) → Absent j (w ∷ cs w) → k j ≡ f j)
    → Apart (w ∷ cs w) (members cs ws)
    → Walking r fuel n table cs k i (r.link w) ws (given_up r (cs w) ++ ts)
    → Walking r fuel (suc n) table cs f taken w (w ∷ ws) ts
step_takes r fuel n table cs f k taken w i ws ts nz e l h c same b (t, g, eq, ck, st, sm) = (
  t,
  g,
  walk_takes r fuel n table f taken w i k nz e l h ∙ eq,
  rw e ck,
  (
    rw e (
        subst (λ p. Chain g p (keep (is_pinned r) (cs w))) (sym (sm w b.0))
          (Chain-same k g (k w) (keep (is_pinned r) (cs w)) (members cs ws) sm
            (keep-Apart (is_pinned r) (cs w) (members cs ws) b.1) c)),
    st,
  ),
  λ j a. let z = Absent-append j (cs w) (members cs ws) a.1 in sm j z.1 ∙ same j (a.0, z.0),
)

pub walk_registry-Walking :
    (r : Tables) (fuel n table : ℕ) (cs : ℕ → List ℕ) (f : ℕ → ℕ) (taken c : ℕ) (ws ts : List ℕ)
    → Chain r.link c ws
    → length ws < n
    → Newer r table ws
    → Served f cs fuel ws
    → Distinct (members cs ws)
    → Chain f taken ts
    → Apart ts (members cs ws)
    → Walking r fuel n table cs f taken c ws ts
unfolding walk_registry
walk_registry-Walking r fuel zero table cs f taken c ws ts l h o s d k a = absurd (omega arith)
walk_registry-Walking r fuel (suc n) table cs f taken c [] ts l h o s d k a =
    let z : (c == 0) ≡ true = ground arith in (taken, f, rw z refl, k, tt, λ j b. refl)
walk_registry-Walking r fuel (suc n) table cs f taken c (w ∷ ws) ts l h o s d k a =
    subst (λ c. Walking r fuel (suc n) table cs f taken c (w ∷ ws) ts) (sym l.0)
      (elim (Bool-cases (same_library r w table)) [
        | inr e ↦ step_passes r fuel n table cs f taken w ws ts l.1 e s.0 b.2 (
            walk_registry-Walking r fuel n table cs f taken (r.link w) ws ts l.2 (omega arith) o.1
              s.2 b.1 k z.1)
        | inl e ↦
            let (i, g, eq, keeps, gives, same) =
              take_clients_lem (with_clients r f) fuel taken w (cs w) ts s.0 b.0 k z.0 s.1 in
            let m = members cs ws in
            step_takes r fuel n table cs f g taken w i ws ts l.1 e (o.0 e) eq keeps same b.2 (
              walk_registry-Walking r fuel n table cs g i (r.link w) ws (given_up r (cs w) ++ ts)
                l.2 (omega arith) o.1
                (Served-same f g cs fuel ws (w ∷ cs w) same (Apart-sym (w ∷ cs w) m b.2) s.2) b.1
                gives
                (append-Apart (given_up r (cs w)) ts m
                  (rev-Apart (drop (is_pinned r) (cs w)) m
                    (drop-Apart (is_pinned r) (cs w) m b.2.1))
                  z.1))
      ])
  where
    b : Distinct (w ∷ cs w) × Distinct (members cs ws) × Apart (w ∷ cs w) (members cs ws)
    b = member_facts cs w ws d

    z : Apart ts (w ∷ cs w) × Apart ts (members cs ws)
    z = Apart-append ts (w ∷ cs w) (members cs ws) a
