-- ===== src/Loadcore/Binding.antt =====
-- bindTable of src/iop/loader.hpp: what the stubs of a client are after it.
use ps2bios_rebuild.Common.{
  ◌*◌, ◌-◌, ◌^◌, ltb, ℕ, zero, suc, ◌+◌, ◌<◌, ◌≤◌, ◌/◌, ◌%◌, ◌==◌, ◌≡◌, ◌≢◌, refl, sym, ap, ◌∙◌,
  arith, true, false, not, if◌then◌else◌, if_ind, subst, none, some, Bool-cases, inl, inr,
}
use ps2bios_rebuild.Loadcore.Tables.{Tables}
use ps2bios_rebuild.Loadcore.Bind.{count_entries, instruction, bind_stub, bind_stubs, bind_table}

-- `words` are not 0 up to `n`, where they end, and the loops have steps enough.
pub record Ends (words : ℕ → ℕ) (n fuel : ℕ) : Type 0 where
  pub before : (i : ℕ) → i < n → words i ≢ 0
  pub at : words n ≡ 0
  pub steps : n < fuel

abbrev pub with_stubs : Tables → (ℕ → ℕ → ℕ) → Tables
with_stubs r s = record r { stubs = s }

-- What stub `j` of `client` comes to.
abbrev pub bound_word : Tables → ℕ → ℕ → ℕ → ℕ → ℕ
bound_word r client exporter count j =
    if not (r.seconds client j / 0x4000000 == 9)
    then r.stubs client j
    else instruction (r.entries exporter) count (r.seconds client j % 0x10000)

count_entries_lem :
    (n : ℕ) (words : ℕ → ℕ) (c k : ℕ)
    → k < n
    → ((i : ℕ) → i < k → words (c + i) ≢ 0)
    → words (c + k) ≡ 0
    → count_entries n words c ≡ some (c + k)
unfolding count_entries
count_entries_lem zero words c k h b e = absurd (omega arith)
count_entries_lem (suc n) words c zero h b e =
    let p : c + 0 ≡ c = omega arith in
    let z : (words c == 0) ≡ true = let f = ap words (sym p) ∙ e in ground arith in
    rw z (ap some (sym p))
count_entries_lem (suc n) words c (suc k) h b e =
    let p : c + 0 ≡ c = omega arith in
    let nz : words c ≢ 0 = λ f. b 0 (omega arith) (ap words p ∙ f) in
    let z : (words c == 0) ≡ false = ground arith in
    let q : (i : ℕ) → suc c + i ≡ c + suc i = λ i. omega arith in
    rw z (
      count_entries_lem n words (suc c) k (omega arith)
        (λ i l f. b (suc i) (omega arith) (ap words (sym (q i)) ∙ f)) (ap words (q k) ∙ e)
      ∙ ap some (q k))

bind_stub-with_stubs :
    (r : Tables) (client exporter count j : ℕ)
    → bind_stub r client exporter count j ≡ with_stubs r (bind_stub r client exporter count j).stubs
unfolding bind_stub
bind_stub-with_stubs r client exporter count j =
    if_ind {A = Tables} (λ t. t ≡ with_stubs r t.stubs) (not (r.seconds client j / 0x4000000 == 9))
      (λ e. refl) (λ e. refl)

bind_stub-other :
    (r : Tables) (client exporter count j c : ℕ)
    → c ≢ client
    → (bind_stub r client exporter count j).stubs c ≡ r.stubs c
unfolding bind_stub
bind_stub-other r client exporter count j c h =
    let z : (c == client) ≡ false = ground arith in
    if_ind {A = Tables} (λ t. t.stubs c ≡ r.stubs c) (not (r.seconds client j / 0x4000000 == 9))
      (λ e. refl) (λ e. rw z refl)

bind_stub-here :
    (r : Tables) (client exporter count j : ℕ)
    → (bind_stub r client exporter count j).stubs client j ≡ bound_word r client exporter count j
unfolding bind_stub
bind_stub-here r client exporter count j = ground arith

bind_stub-elsewhere :
    (r : Tables) (client exporter count j i : ℕ)
    → i ≢ j
    → (bind_stub r client exporter count j).stubs client i ≡ r.stubs client i
unfolding bind_stub
bind_stub-elsewhere r client exporter count j i h = ground arith

-- The stubs `s` of `r`'s clients after those of `client` from `j` on to `e` were bound.
pub record Bound (r : Tables) (client exporter count j e : ℕ) (s : ℕ → ℕ → ℕ) : Type 0 where
  pub others : (c : ℕ) → c ≢ client → s c ≡ r.stubs c
  pub bound : (i : ℕ) → j ≤ i → i < e → s client i ≡ bound_word r client exporter count i
  pub before : (i : ℕ) → i < j → s client i ≡ r.stubs client i
  pub behind : (i : ℕ) → e ≤ i → s client i ≡ r.stubs client i

bind_stubs-Bound :
    (n : ℕ) (r : Tables) (client exporter count j k : ℕ)
    → k < n
    → ((i : ℕ) → i < k → r.stubs client (j + i) ≢ 0)
    → r.stubs client (j + k) ≡ 0
    → (s : ℕ → ℕ → ℕ) × (bind_stubs n r client exporter count j ≡ some (with_stubs r s))
      × Bound r client exporter count j (j + k) s
unfolding bind_stubs
bind_stubs-Bound zero r client exporter count j k h b e = absurd (omega arith)
bind_stubs-Bound (suc n) r client exporter count j zero h b e =
    let p : j + 0 ≡ j = omega arith in
    let z : (r.stubs client j == 0) ≡ true =
      let f = ap (r.stubs client) (sym p) ∙ e in ground arith in
    (
      r.stubs,
      rw z refl,
      record {
        others = λ c l. refl;
        bound = λ i l m. absurd (omega (arith, l, m));
        before = λ i l. refl;
        behind = λ i l. refl;
      },
    )
bind_stubs-Bound (suc n) r client exporter count j (suc k) h b e =
    let p : j + 0 ≡ j = omega arith in
    let nz : r.stubs client j ≢ 0 = λ f. b 0 (omega arith) (ap (r.stubs client) p ∙ f) in
    let z : (r.stubs client j == 0) ≡ false = ground arith in
    let q : (i : ℕ) → suc j + i ≡ j + suc i = λ i. omega arith in
    let t = bind_stub r client exporter count j in
    let old : (i : ℕ) → t.stubs client (suc j + i) ≡ r.stubs client (j + suc i) = λ i.
      bind_stub-elsewhere r client exporter count j (suc j + i) (λ f. absurd (omega (arith, f)))
      ∙ ap (r.stubs client) (q i) in
    let (s, f, v) =
      bind_stubs-Bound n (with_stubs r t.stubs) client exporter count (suc j) k (omega arith)
        (λ i l g. b (suc i) (omega arith) (sym (old i) ∙ g)) (old k ∙ e) in
    (
      s,
      rw z (
          ap (λ t. bind_stubs n t client exporter count (suc j))
            (bind_stub-with_stubs r client exporter count j)
          ∙ f),
      record {
        others = λ c l. v.others c l ∙ bind_stub-other r client exporter count j c l;
        bound = λ i l m. elim (Bool-cases (i == j)) [
          | inl g ↦
              subst (λ i. s client i ≡ bound_word r client exporter count i)
                (let same : j ≡ i = ground arith in same)
                (v.before j (omega arith) ∙ bind_stub-here r client exporter count j)
          | inr g ↦
              let ne : i ≢ j = ground arith in
              v.bound i (ground arith) (omega (arith, m))
              ∙ ap (other_word i) (bind_stub-elsewhere r client exporter count j i ne)
        ];
        before = λ i l.
            v.before i (omega arith)
            ∙ bind_stub-elsewhere r client exporter count j i (λ g. absurd (omega arith));
        behind = λ i l.
            v.behind i (omega arith)
            ∙ bind_stub-elsewhere r client exporter count j i (λ g. absurd (omega arith));
      },
    )
  where
    other_word : ℕ → ℕ → ℕ
    other_word i w =
        if not (r.seconds client i / 0x4000000 == 9)
        then w
        else instruction (r.entries exporter) count (r.seconds client i % 0x10000)

-- A `j` instruction: the opcode 2, and the low 28 bits of `target` but for the last two.
abbrev pub JumpsTo : ℕ → ℕ → Type 0
JumpsTo word target = (word / 2 ^ 26 ≡ 2) × (word % 2 ^ 26 * 4 ≡ target % 2 ^ 28 - target % 4)

-- `jr $ra`: the register 31 and the function 8 of the opcode 0.
abbrev pub Returns : ℕ → Type 0
Returns word = word ≡ 31 * 2 ^ 21 + 8

-- A stub with the words `first` and `second` has become `word`: it is bound by the ordinal in the low
-- half of `second`, if that is an `addiu`, the opcode 9.
abbrev pub StubBound : (ℕ → ℕ) → ℕ → ℕ → ℕ → ℕ → Type 0
StubBound entries count first second word =
    (second / 2 ^ 26 ≢ 9 → word ≡ first)
    × (second / 2 ^ 26 ≡ 9 → second % 2 ^ 16 < count → JumpsTo word (entries (second % 2 ^ 16)))
    × (second / 2 ^ 26 ≡ 9 → count ≤ second % 2 ^ 16 → Returns word)

instruction-JumpsTo :
    (entries : ℕ → ℕ) (count ordinal : ℕ)
    → ordinal < count
    → JumpsTo (instruction entries count ordinal) (entries ordinal)
unfolding instruction
instruction-JumpsTo entries count ordinal h =
    let e : ltb ordinal count ≡ true = ground arith in rw e (omega arith, omega arith)

instruction-Returns :
    (entries : ℕ → ℕ) (count ordinal : ℕ)
    → count ≤ ordinal
    → Returns (instruction entries count ordinal)
unfolding instruction
instruction-Returns entries count ordinal h =
    let e : ltb ordinal count ≡ false = ground arith in rw e refl

bound_word-StubBound :
    (r : Tables) (client exporter count j : ℕ)
    → StubBound
        (r.entries exporter)
        count
        (r.stubs client j)
        (r.seconds client j)
        (bound_word r client exporter count j)
bound_word-StubBound r client exporter count j =
    let second = r.seconds client j in
    (
      (λ h. let e : (second / 0x4000000 == 9) ≡ false = ground arith in rw e refl),
      (λ h l.
          let e : (second / 0x4000000 == 9) ≡ true = ground arith in
          rw e (instruction-JumpsTo (r.entries exporter) count (second % 0x10000) l)),
      (λ h l.
          let e : (second / 0x4000000 == 9) ≡ true = ground arith in
          rw e (instruction-Returns (r.entries exporter) count (second % 0x10000) l)),
    )

pub bind_table_lem :
    (r : Tables) (fuel client exporter count k : ℕ)
    → Ends (r.entries exporter) count fuel
    → Ends (r.stubs client) k fuel
    → (s : ℕ → ℕ → ℕ) × (bind_table fuel r client exporter ≡ some (with_stubs r s))
      × Bound r client exporter count 0 k s
unfolding bind_table
bind_table_lem r fuel client exporter count k v w =
    let o : (i : ℕ) → 0 + i ≡ i = λ i. omega arith in
    let (s, f, b) =
      bind_stubs-Bound fuel r client exporter count 0 k w.steps
        (λ i l e. w.before i l (ap (r.stubs client) (sym (o i)) ∙ e))
        (ap (r.stubs client) (o k) ∙ w.at) in
    (
      s,
      ap (λ o. elim o [ none ↦ none | some count ↦ bind_stubs fuel r client exporter count 0 ])
            (count_entries_lem fuel (r.entries exporter) 0 count v.steps
                (λ i l e. v.before i l (ap (r.entries exporter) (sym (o i)) ∙ e))
                (ap (r.entries exporter) (o count) ∙ v.at)
              ∙ ap some (o count))
          ∙ f,
      subst (λ e. Bound r client exporter count 0 e s) (o k) b,
    )

-- A client whose stubs end at `k`, bound to a table whose entries end at `count`: each stub whose
-- second word is an `addiu` becomes a jump to the entry that has its ordinal, or `jr $ra` if there is
-- none. The other stubs stay, those behind the end too, and so do those of all other clients.
pub bind_table-StubBound :
    (r : Tables) (fuel client exporter count k : ℕ)
    → Ends (r.entries exporter) count fuel
    → Ends (r.stubs client) k fuel
    → (s : ℕ → ℕ → ℕ) × (bind_table fuel r client exporter ≡ some (with_stubs r s))
      × ((i : ℕ)
          → i < k
          → StubBound
              (r.entries exporter)
              count
              (r.stubs client i)
              (r.seconds client i)
              (s client i))
      × ((i : ℕ) → k ≤ i → s client i ≡ r.stubs client i)
      × ((c : ℕ) → c ≢ client → s c ≡ r.stubs c)
bind_table-StubBound r fuel client exporter count k v w =
    let (s, e, b) = bind_table_lem r fuel client exporter count k v w in
    (
      s,
      e,
      (λ i l.
          subst (StubBound (r.entries exporter) count (r.stubs client i) (r.seconds client i))
            (sym (b.bound i (omega arith) l)) (bound_word-StubBound r client exporter count i)),
      b.behind,
      b.others,
    )
