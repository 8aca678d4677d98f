-- ===== src/Loadcore/Supersede.antt =====
-- registerVersioned of src/iop/loadcore.cpp: what a registration does to the registry and its clients.
use ps2bios_rebuild.Common.{
  ℕ, ◌<◌, ◌==◌, ◌≡◌, ◌≢◌, refl, sym, ap, ◌∙◌, arith, List, [], ◌∷◌, ◌++◌, ◌||◌, false, not, update,
  rev, length, subst, none, some, if_ind,
}
use ps2bios_rebuild.Threadman.Lists.{Absent, Distinct, Absent-append}
use ps2bios_rebuild.Loadcore.Tables.{Tables, export_magic, same_library, register_accept, is_pinned}
use ps2bios_rebuild.Loadcore.Register.{
  walked, adopt_clients, walk_registry, accept_walked, register_versioned,
}
use ps2bios_rebuild.Loadcore.Chains.{
  Chain, Apart, Apart-cons, Chain-same, Apart-nil, update-same, update-Chain,
}
use ps2bios_rebuild.Loadcore.Take.{Apart-sym, keep-Absent}
use ps2bios_rebuild.Loadcore.Walks.{
  members, Served, gather, Stay, Newer, staying, walk_registry-Walking,
}
use ps2bios_rebuild.Loadcore.Binding.{Ends}
use ps2bios_rebuild.Loadcore.Adopt.{Stubbed, Rebound, linked, adopt_clients-Adopted}
use ps2bios_rebuild.Loadcore.Gathered.{
  gather-Absent, Apart-gather, gather-Distinct, gather-StayApart, Stay-same, StayApart,
}

-- The registry holds the tables `ws`, the last one registered first, whose clients are `cs`.
pub record IsRegistry (r : Tables) (cs : ℕ → List ℕ) (fuel : ℕ) (ws : List ℕ) : Type 0 where
  pub chain : Chain r.link r.head ws
  pub served : Served r.clients cs fuel ws
  pub distinct : Distinct (members cs ws)
  pub short : length ws < fuel

-- `table` is none of the registry's, and its clients are `own`.
pub record IsCandidate (r : Tables) (cs : ℕ → List ℕ) (ws : List ℕ) (table : ℕ) (own : List ℕ)
    : Type 0 where
  pub exists : table ≢ 0
  pub magic : r.link table ≡ export_magic
  pub clients : Chain r.clients (r.clients table) own
  pub fresh : Absent table (members cs ws)
  pub not_own : Absent table own
  pub apart : Apart own (members cs ws)

abbrev pub taken_for : Tables → ℕ → (ℕ → List ℕ) → List ℕ → List ℕ
taken_for r table cs ws = gather r table cs ws []

staying-Absent :
    (r : Tables) (table : ℕ) (cs : ℕ → List ℕ) (i w : ℕ)
    → Absent i (cs w)
    → Absent i (staying r table cs w)
staying-Absent r table cs i w a =
    if_ind (Absent i) (same_library r w table) (λ e. keep-Absent (is_pinned r) i (cs w) a) (λ e. a)

-- `table`, which is no member, is apart from what stays as well.
with_table :
    (r : Tables) (table : ℕ) (cs : ℕ → List ℕ) (ws zs : List ℕ)
    → Absent table (members cs ws)
    → StayApart r table cs ws zs
    → StayApart r table cs ws (table ∷ zs)
with_table r table cs [] zs a s = tt
with_table r table cs (w ∷ ws) zs a s =
    let b = Absent-append table (cs w) (members cs ws) a.1 in
    (
      Apart-cons table (w ∷ staying r table cs w) zs s.0
          (a.0, staying-Absent r table cs table w b.0),
      with_table r table cs ws zs b.1 s.1,
    )

pub register_versioned-walk :
    (r : Tables) (fuel table : ℕ)
    → table ≢ 0
    → r.link table ≡ export_magic
    → register_versioned fuel r table
      ≡ accept_walked fuel table (walk_registry fuel fuel r table 0 r.head)
unfolding register_versioned
register_versioned-walk r fuel table nz m =
    let z : (table == 0 || not (r.link table == export_magic)) ≡ false = ground arith in rw z refl

accept_walked-adopted :
    (r r' : Tables) (fuel table t : ℕ)
    → adopt_clients fuel fuel r table t ≡ some r'
    → accept_walked fuel table (walked t r) ≡ some (0, register_accept r' table)
unfolding accept_walked
accept_walked-adopted r r' fuel table t e =
    ap (λ o. elim o [ none ↦ none | some r ↦ some (0, register_accept r table) ]) e

heads-Absent : (cs : ℕ → List ℕ) (i : ℕ) (ws : List ℕ) → Absent i (members cs ws) → Absent i ws
heads-Absent cs i [] a = tt
heads-Absent cs i (w ∷ ws) a =
    (a.0, heads-Absent cs i ws (Absent-append i (cs w) (members cs ws) a.1).1)

register_accept-Chain :
    (r : Tables) (table : ℕ) (ws : List ℕ)
    → table ≢ 0
    → Absent table ws
    → Chain r.link r.head ws
    → Chain (register_accept r table).link (register_accept r table).head (table ∷ ws)
unfolding register_accept
register_accept-Chain r table ws nz a c = (
  refl,
  nz,
  subst (λ p. Chain (update r.link table r.head) p ws) (sym (update-same r.link table r.head))
      (update-Chain r.link table r.head r.head ws a c),
)

register_accept-same :
    (r : Tables) (table : ℕ)
    → ((register_accept r table).clients ≡ r.clients) × ((register_accept r table).stubs ≡ r.stubs)
unfolding register_accept
register_accept-same r table = (refl, refl)

-- A table that is newer than all of its library is registered before them. The unpinned clients of
-- the older ones are then its first clients and are bound to it, and the others stay with the table
-- that they are clients of, in their order. `len` says where the stubs of a client end, and `fuel`
-- is more than any of the loops needs.
pub register_versioned_supersedes :
    {r : Tables} {ws : List ℕ} (fuel table count : ℕ) (cs : ℕ → List ℕ) (len : ℕ → ℕ) (own : List ℕ)
    → IsRegistry r cs fuel ws
    → IsCandidate r cs ws table own
    → Newer r table ws
    → Ends (r.entries table) count fuel
    → Stubbed r.stubs len fuel (taken_for r table cs ws)
    → length (taken_for r table cs ws) < fuel
    → (r' : Tables) × (register_versioned fuel r table ≡ some (0, r'))
      × Chain r'.link r'.head (table ∷ ws)
      × Chain r'.clients (r'.clients table) (rev (taken_for r table cs ws) ++ own)
      × Stay r table cs r'.clients ws
      × Rebound r len table count r.stubs r'.stubs (taken_for r table cs ws)
register_versioned_supersedes {r} {ws} fuel table count cs len own v c new ends stubbed long =
    let ts = taken_for r table cs ws in
    let m = members cs ws in
    let (t, g, e, taken, stay, same) =
      walk_registry-Walking r fuel fuel table cs r.clients 0 r.head ws [] v.chain v.short new
        v.served v.distinct refl tt in
    let d = gather-Distinct r table cs ws [] v.distinct tt tt in
    let at = gather-Absent r table cs table ws [] c.fresh tt in
    let mine : Chain g (g table) own =
      subst (λ p. Chain g p own) (sym (same table c.fresh))
        (Chain-same r.clients g (r.clients table) own m same c.apart c.clients) in
    let ta = Apart-sym own ts (Apart-gather r table cs own ws [] c.apart (Apart-nil own)) in
    let (f, z, q, ch, kept, re, _) =
      adopt_clients-Adopted r len fuel fuel table count g r.stubs t ts own long ends stubbed taken
        mine d at c.not_own ta in
    let r' = linked r f z in
    let acc = register_accept-same r' table in
    (
      register_accept r' table,
      register_versioned-walk r fuel table c.exists c.magic
          ∙ ap (accept_walked fuel table) e
          ∙ accept_walked-adopted (linked r g r.stubs) r' fuel table t q,
      register_accept-Chain r' table ws c.exists (heads-Absent cs table ws c.fresh) v.chain,
      subst (λ u. Chain u (u table) (rev ts ++ own)) (sym acc.0) ch,
      subst (λ u. Stay r table cs u ws) (sym acc.0)
          (Stay-same r table cs g f ws (table ∷ ts) (λ j a. kept j a.0 a.1)
            (with_table r table cs ws ts c.fresh (gather-StayApart r table cs ws [] v.distinct tt))
            stay),
      subst (λ u. Rebound r len table count r.stubs u ts) (sym acc.1) re,
    )
