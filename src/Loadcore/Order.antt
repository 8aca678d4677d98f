-- ===== src/Loadcore/Order.antt =====
-- The order of a registry of src/iop/loadcore.cpp, and what follows from it: refusals, and which
-- table the binder of src/iop/loader.hpp finds.
use ps2bios_rebuild.Common.{
  All, ℕ, zero, suc, ◌<◌, ◌≤◌, ◌==◌, ◌≡◌, ◌≢◌, refl, sym, ap, ◌∙◌, arith, List, [], ◌∷◌, ◌&&◌, Bool,
  true, false, not, leb, ◌⊎◌, inl, inr, length, subst, some, Bool-cases,
}
use ps2bios_rebuild.Loadcore.Tables.{
  Tables, export_magic, library_found, same_library, minor, is_pinned,
}
use ps2bios_rebuild.Loadcore.Bind.{find_exporter}
use ps2bios_rebuild.Loadcore.Register.{walk_registry, refused, accept_walked, register_versioned}
use ps2bios_rebuild.Loadcore.Chains.{Chain}
use ps2bios_rebuild.Loadcore.Walks.{Newer}
use ps2bios_rebuild.Loadcore.Supersede.{register_versioned-walk}

-- Each table is newer than those of its library that were registered before it.
abbrev pub Ordered : Tables → List ℕ → Type 0
Ordered r [] = Unit {0}
Ordered r (w ∷ ws) = Newer r w ws × Ordered r ws

-- One of the tables is of the library of `table` and not older.
abbrev pub Outdated : Tables → ℕ → List ℕ → Type 0
Outdated r table [] = ⊥
Outdated r table (w ∷ ws) =
    ((same_library r w table ≡ true) × (minor r table ≤ minor r w)) ⊎ Outdated r table ws

same_library_trans :
    (r : Tables) (a b c : ℕ)
    → same_library r a c ≡ true
    → same_library r b c ≡ true
    → same_library r a b ≡ true
unfolding same_library
same_library_trans r a b c e f = ground arith

-- A later table that is not older than `table` is older than the first one of the library.
Outdated-first :
    (r : Tables) (table w : ℕ) (ws : List ℕ)
    → same_library r w table ≡ true
    → Newer r w ws
    → Outdated r table ws
    → minor r table ≤ minor r w
Outdated-first r table w [] e n o = absurd o
Outdated-first r table w (v ∷ ws) e n (inl (f, g)) =
    let h = n.0 (same_library_trans r v w table f e) in omega (arith, g, h)
Outdated-first r table w (v ∷ ws) e n (inr o) = Outdated-first r table w ws e n.1 o

walk_registry-refused :
    (r : Tables) (fuel n table taken c : ℕ) (ws : List ℕ)
    → Chain r.link c ws
    → length ws < n
    → Ordered r ws
    → Outdated r table ws
    → walk_registry fuel n r table taken c ≡ refused r
unfolding walk_registry
walk_registry-refused r fuel zero table taken c ws l h o x = absurd (omega arith)
walk_registry-refused r fuel (suc n) table taken c [] l h o x = absurd x
walk_registry-refused r fuel (suc n) table taken c (w ∷ ws) l h o x =
    let z : (w == 0) ≡ false = let nz = l.1 in ground arith in
    subst (λ c. walk_registry fuel (suc n) r table taken c ≡ refused r) (sym l.0)
      (elim (Bool-cases (same_library r w table)) [
        | inl e ↦
            let g = not_newer e x in
            let y : leb (minor r table) (minor r w) ≡ true = ground arith in rw (z, e, y) refl
        | inr e ↦
            rw (z, e)
              (walk_registry-refused r fuel n table taken (r.link w) ws l.2 (omega arith) o.1
                (behind e x))
      ])
  where
    not_newer :
        same_library r w table ≡ true → Outdated r table (w ∷ ws) → minor r table ≤ minor r w
    not_newer e (inl (f, g)) = g
    not_newer e (inr y) = Outdated-first r table w ws e o.0 y

    behind : same_library r w table ≡ false → Outdated r table (w ∷ ws) → Outdated r table ws
    behind e (inl (f, g)) = let h = sym e ∙ f in absurd (ground arith)
    behind e (inr y) = y

-- In a registry in order, a table that is not newer than all of its library is refused, and nothing
-- is changed.
pub register_versioned-refused :
    {r : Tables} (fuel table : ℕ) (ws : List ℕ)
    → Chain r.link r.head ws
    → length ws < fuel
    → Ordered r ws
    → table ≢ 0
    → r.link table ≡ export_magic
    → Outdated r table ws
    → register_versioned fuel r table ≡ some (library_found, r)
unfolding accept_walked
register_versioned-refused {r} fuel table ws l h o nz m x =
    register_versioned-walk r fuel table nz m
    ∙ ap (accept_walked fuel table) (walk_registry-refused r fuel fuel table 0 r.head ws l h o x)

-- Whether `w` exports the library of `client`.
abbrev pub offers : Tables → ℕ → ℕ → Bool
offers r client w = same_library r w client && not (is_pinned r w)

-- `e` offers the library of `client`, and what else does is older.
abbrev pub Newest : Tables → ℕ → ℕ → List ℕ → Type 0
Newest r client e ws =
    (offers r client e ≡ true)
    × All (λ w. offers r client w ≡ true → (w ≡ e) ⊎ (minor r w < minor r e)) ws

abbrev pub Found : Tables → ℕ → ℕ → List ℕ → Type 0
Found r client e ws =
    ((e ≡ 0) × All (λ w. offers r client w ≡ false) ws) ⊎ ((e ≢ 0) × Newest r client e ws)

offers-same :
    (r : Tables) (client w : ℕ) → offers r client w ≡ true → same_library r w client ≡ true
offers-same r client w e = ground arith

older-All :
    (r : Tables) (client e : ℕ) (ws : List ℕ)
    → same_library r e client ≡ true
    → Newer r e ws
    → All (λ w. offers r client w ≡ true → (w ≡ e) ⊎ (minor r w < minor r e)) ws
older-All r client e [] s n = tt
older-All r client e (w ∷ ws) s n = (
  (λ o. inr (n.0 (same_library_trans r w e client (offers-same r client w o) s))),
  older-All r client e ws s n.1,
)

Found-behind :
    (r : Tables) (client e w : ℕ) (ws : List ℕ)
    → offers r client w ≡ false
    → Found r client e ws
    → Found r client e (w ∷ ws)
Found-behind r client e w ws f (inl (z, a)) = inl (z, (f, a))
Found-behind r client e w ws f (inr (z, (o, a))) =
    inr (z, (o, ((λ g. absurd (let h = sym f ∙ g in ground arith)), a)))

-- In a registry in order, the binder's search ends. It finds nothing only if no table that is not
-- pinned offers the library of `client`, and else the newest one that does.
pub find_exporter_newest :
    (r : Tables) (fuel client at : ℕ) (ws : List ℕ)
    → Chain r.link at ws
    → length ws < fuel
    → Ordered r ws
    → (e : ℕ) × (find_exporter fuel r client at ≡ some e) × Found r client e ws
unfolding find_exporter
find_exporter_newest r zero client at ws l h o = absurd (omega arith)
find_exporter_newest r (suc n) client at [] l h o =
    let z : (at == 0) ≡ true = ground arith in (at, rw z refl, inl (l, tt))
find_exporter_newest r (suc n) client at (w ∷ ws) l h o =
    let z : (at == 0) ≡ false = let (e, nz, _) = l in ground arith in
    elim (Bool-cases (offers r client at)) [
      | inl e ↦ (
        at,
        rw (z, e) refl,
        subst (λ x. Found r client x (w ∷ ws)) (sym l.0)
            (inr (
              l.1,
              (
                here e l.0,
                (
                  (λ _. inl refl),
                  older-All r client w ws (offers-same r client w (here e l.0)) o.0,
                ),
              ),
            )),
      )
      | inr e ↦
          let (x, f, v) = find_exporter_newest r n client (r.link w) ws l.2 (omega arith) o.1 in
          (
            x,
            rw (z, e) (ap (λ p. find_exporter n r client (r.link p)) l.0 ∙ f),
            Found-behind r client x w ws (ap (offers r client) (sym l.0) ∙ e) v,
          )
    ]
  where
    here : offers r client at ≡ true → at ≡ w → offers r client w ≡ true
    here e f = ap (offers r client) (sym f) ∙ e
