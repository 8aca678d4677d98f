-- ===== src/Loadcore/Adopt.antt =====
-- adoptClients of src/iop/loadcore.cpp: the clients that were taken are bound to the new table.
use ps2bios_rebuild.Common.{
  ℕ, zero, suc, ◌<◌, ◌==◌, ◌≡◌, ◌≢◌, refl, sym, ap, ◌∙◌, arith, List, [], ◌∷◌, ◌++◌, true, false,
  update, rev, length, subst, Option, none, some, append_assoc,
}
use ps2bios_rebuild.Threadman.Lists.{Absent, Distinct}
use ps2bios_rebuild.Loadcore.Tables.{Tables, set_client_next}
use ps2bios_rebuild.Loadcore.Bind.{bind_table}
use ps2bios_rebuild.Loadcore.Register.{adopt_clients}
use ps2bios_rebuild.Loadcore.Chains.{
  Chain, Apart, Apart-cons, update-other, update-same, update-Chain,
}
use ps2bios_rebuild.Loadcore.Binding.{Ends, with_stubs, bound_word, bind_table_lem}

-- `r` with the clients `f` and the stubs `s`.
abbrev pub linked : Tables → (ℕ → ℕ) → (ℕ → ℕ → ℕ) → Tables
linked r f s = record r { clients = f; stubs = s }

-- The stubs of each of `ts` end, where `len` says.
abbrev pub Stubbed : (ℕ → ℕ → ℕ) → (ℕ → ℕ) → ℕ → List ℕ → Type 0
Stubbed s len fuel [] = Unit {0}
Stubbed s len fuel (t ∷ ts) = Ends (s t) (len t) fuel × Stubbed s len fuel ts

-- The stubs of `ts`, which were those of `s`, are bound to `table`.
abbrev pub Rebound : Tables → (ℕ → ℕ) → ℕ → ℕ → (ℕ → ℕ → ℕ) → (ℕ → ℕ → ℕ) → List ℕ → Type 0
Rebound r len table count s z [] = Unit {0}
Rebound r len table count s z (t ∷ ts) =
    ((i : ℕ) → i < len t → z t i ≡ bound_word (with_stubs r s) t table count i)
    × Rebound r len table count s z ts

-- The adoption of `ts`, where `table` has the clients `own`.
abbrev pub Adopted :
    Tables → (ℕ → ℕ) → ℕ → ℕ → ℕ → ℕ → (ℕ → ℕ) → (ℕ → ℕ → ℕ) → ℕ → List ℕ → List ℕ → Type 0
Adopted r len fuel n table count f s c ts own =
    (g : ℕ → ℕ) × (z : ℕ → ℕ → ℕ) × (adopt_clients fuel n (linked r f s) table c
      ≡ some (linked r g z))
    × Chain g (g table) (rev ts ++ own)
    × ((j : ℕ) → j ≢ table → Absent j ts → g j ≡ f j)
    × Rebound r len table count s z ts
    × ((j : ℕ) → Absent j ts → z j ≡ s j)

Stubbed-same :
    (s z : ℕ → ℕ → ℕ) (len : ℕ → ℕ) (fuel x : ℕ) (ts : List ℕ)
    → ((j : ℕ) → j ≢ x → z j ≡ s j)
    → Absent x ts
    → Stubbed s len fuel ts
    → Stubbed z len fuel ts
Stubbed-same s z len fuel x [] e a v = tt
Stubbed-same s z len fuel x (t ∷ ts) e a v = (
  subst (λ u. Ends u (len t) fuel) (sym (e t (λ f. a.0 (sym f)))) v.0,
  Stubbed-same s z len fuel x ts e a.1 v.1,
)

Rebound-same :
    (r : Tables) (len : ℕ → ℕ) (table count : ℕ) (s z y : ℕ → ℕ → ℕ) (x : ℕ) (ts : List ℕ)
    → ((j : ℕ) → j ≢ x → z j ≡ s j)
    → Absent x ts
    → Rebound r len table count z y ts
    → Rebound r len table count s y ts
Rebound-same r len table count s z y x [] e a v = tt
Rebound-same r len table count s z y x (t ∷ ts) e a v = (
  λ i l.
      v.0 i l
      ∙ ap (λ u. bound_word (with_stubs r (λ j. u)) t table count i) (e t (λ f. a.0 (sym f))),
  Rebound-same r len table count s z y x ts e a.1 v.1,
)

adopt_next :
    (r : Tables) (fuel n table t : ℕ) (f : ℕ → ℕ) (s z : ℕ → ℕ → ℕ)
    → t ≢ 0
    → bind_table fuel (linked r f s) t table ≡ some (linked r f z)
    → adopt_clients fuel (suc n) (linked r f s) table t
      ≡ adopt_clients fuel n (linked r (update (update f t (f table)) table t) z) table (f t)
unfolding adopt_clients
adopt_next r fuel n table t f s z nz e =
    let y : (t == 0) ≡ false = ground arith in
    rw y (
      ap
        (λ o. elim o as (λ _. Option Tables) [
          | none ↦ none
          | some bound ↦
              adopt_clients fuel n
                (set_client_next (set_client_next bound t (bound.clients table)) table t) table
                (f t)
        ])
        e)

pub adopt_clients-Adopted :
    (r : Tables) (len : ℕ → ℕ) (fuel n table count : ℕ) (f : ℕ → ℕ) (s : ℕ → ℕ → ℕ) (c : ℕ)
    (ts own : List ℕ)
    → length ts < n
    → Ends (r.entries table) count fuel
    → Stubbed s len fuel ts
    → Chain f c ts
    → Chain f (f table) own
    → Distinct ts
    → Absent table ts
    → Absent table own
    → Apart ts own
    → Adopted r len fuel n table count f s c ts own
unfolding adopt_clients
adopt_clients-Adopted r len fuel zero table count f s c ts own h v w k l d a b p =
    absurd (omega arith)
adopt_clients-Adopted r len fuel (suc n) table count f s c [] own h v w k l d a b p =
    let z : (c == 0) ≡ true = ground arith in (f, s, rw z refl, l, (λ j x y. refl), tt, λ j y. refl)
adopt_clients-Adopted r len fuel (suc n) table count f s c (t ∷ ts) own h v w k l d a b p =
    let g = update (update f t (f table)) table t in
    let (z, e, bound) = bind_table_lem (linked r f s) fuel t table count (len t) v w.0 in
    let ne : t ≢ table = λ q. a.0 (sym q) in
    let gt : g t ≡ f table =
      update-other (update f t (f table)) table t t ne ∙ update-same f t (f table) in
    let keep : (i : ℕ) (xs : List ℕ) → Absent t xs → Absent table xs → Chain f i xs → Chain g i xs =
      λ i xs x y q.
        update-Chain (update f t (f table)) table t i xs y (update-Chain f t (f table) i xs x q) in
    let mine : Chain g (g table) (t ∷ own) = (
      update-same (update f t (f table)) table t,
      k.1,
      subst (λ i. Chain g i own) (sym gt) (keep (f table) own p.0 b l),
    ) in
    let (g', z', eq, ch, same, re, st) =
      adopt_clients-Adopted r len fuel n table count g z (f t) ts (t ∷ own) (omega arith) v
        (Stubbed-same s z len fuel t ts bound.others d.0 w.1) (keep (f t) ts d.0 a.1 k.2) mine d.1
        a.1 (a.0, b) (Apart-cons t ts own p.1 d.0) in
    (
      g',
      z',
      subst (λ c. adopt_clients fuel (suc n) (linked r f s) table c ≡ some (linked r g' z'))
          (sym k.0) (adopt_next r fuel n table t f s z k.1 e ∙ eq),
      subst (Chain g' (g' table)) (sym (append_assoc (rev ts) (t ∷ []) own)) ch,
      (λ j x y.
          same j x y.1
          ∙ update-other (update f t (f table)) table t j x
          ∙ update-other f t (f table) j y.0),
      (
        (λ i l. ap (λ u. u i) (st t d.0) ∙ bound.bound i (omega arith) l),
        Rebound-same r len table count s z z' t ts bound.others d.0 re,
      ),
      λ j y. st j y.1 ∙ bound.others j y.0,
    )
