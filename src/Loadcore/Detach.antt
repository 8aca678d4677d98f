-- ===== src/Loadcore/Detach.antt =====
-- detachUnpinnedClients of src/iop/loadcore.cpp deals a list of clients out.
use ps2bios_rebuild.Common.{
  ℕ, zero, suc, ◌<◌, ◌==◌, ◌≡◌, ◌≢◌, refl, sym, ap, ◌∙◌, arith, List, [], ◌∷◌, ◌++◌, Bool, true,
  false, update, rev, length, subst, some, append_assoc, Bool-cases, inl, inr, append-nil,
}
use ps2bios_rebuild.Threadman.Lists.{last, Absent, Distinct, Distinct-snoc, append-Absent, last-ne}
use ps2bios_rebuild.Threadman.Rings.{sources, Absent-sources, last-Absent-sources, last-append}
use ps2bios_rebuild.Loadcore.Tables.{Tables, is_pinned}
use ps2bios_rebuild.Loadcore.Register.{detach_from, detach_unpinned_clients}
use ps2bios_rebuild.Loadcore.Chains.{
  Chain, Leads, Apart, update-other, update-same, update-Chain, update-Leads, Leads-snoc,
  Leads-Chain, Apart-snoc, Apart-cons, last-Apart, Apart-nil, keep, drop,
}

abbrev pub with_clients : Tables → (ℕ → ℕ) → Tables
with_clients r f = record r { clients = f }

-- The state of the loop: `ks` are kept on `old`, `ts` are taken, and `xs` are still to be dealt out.
pub record Dealing (f : ℕ → ℕ) (old kept taken c : ℕ) (ks ts xs : List ℕ) : Type 0 where
  pub leads : Leads f old ks
  pub tail : last old ks ≡ kept
  pub end : f kept ≡ 0
  pub stack : Chain f taken ts
  pub rest : Chain f c xs
  pub distinct : Distinct xs
  pub kept_distinct : Distinct (old ∷ ks)
  pub rest_kept : Apart xs (old ∷ ks)
  pub rest_stack : Apart xs ts
  pub stack_kept : Apart ts (old ∷ ks)

-- What the loop answers, and the client pointers that it leaves.
pub record Dealt (q : ℕ → Bool) (f g : ℕ → ℕ) (old first : ℕ) (ks ts xs : List ℕ) : Type 0 where
  pub kept : Chain g (g old) (ks ++ keep q xs)
  pub moved : Chain g first (rev (drop q xs) ++ ts)
  pub same : (j : ℕ) → Absent j (old ∷ ks) → Absent j xs → g j ≡ f j

Dealing-kept :
    {f : ℕ → ℕ} {old kept taken c : ℕ} {ks ts : List ℕ} (x : ℕ) (xs : List ℕ)
    → Dealing f old kept taken c ks ts (x ∷ xs)
    → Dealing (update (update f kept x) x 0) old x taken (f x) (ks ++ x ∷ []) ts xs
Dealing-kept {f} {old} {kept} {taken} {c} {ks} {ts} x xs v =
    let a = v.rest_kept.0 in
    let l : kept ≢ x = subst (λ k. k ≢ x) v.tail (last-Apart old ks (x ∷ xs) v.rest_kept).0 in
    let lx : Absent kept xs =
      subst (λ k. Absent k xs) v.tail (last-Apart old ks (x ∷ xs) v.rest_kept).1 in
    let lt : Absent kept ts = subst (λ k. Absent k ts) v.tail (last-Apart old ks ts v.stack_kept) in
    let xt : Absent x ts = v.rest_stack.0 in
    let s : Leads (update (update f kept x) x 0) old ks =
      update-Leads (update f kept x) x 0 old ks (Absent-sources x old ks a.0 a.1)
        (update-Leads f kept x old ks (kept_sources v.tail v.kept_distinct) v.leads) in
    let e : update (update f kept x) x 0 (last old ks) ≡ x =
      ap (update (update f kept x) x 0) v.tail
      ∙ update-other (update f kept x) x 0 kept l
      ∙ update-same f kept x in
    record {
      leads = Leads-snoc (update (update f kept x) x 0) old x ks s e v.rest.1;
      tail = last-append old ks (x ∷ []);
      end = update-same (update f kept x) x 0;
      stack =
          update-Chain (update f kept x) x 0 taken ts xt
            (update-Chain f kept x taken ts lt v.stack);
      rest =
          update-Chain (update f kept x) x 0 (f x) xs v.distinct.0
            (update-Chain f kept x (f x) xs lx v.rest.2);
      distinct = v.distinct.1;
      kept_distinct = Distinct-snoc x (old ∷ ks) a v.kept_distinct;
      rest_kept = Apart-snoc x xs (old ∷ ks) v.rest_kept.1 v.distinct.0;
      rest_stack = v.rest_stack.1;
      stack_kept = Apart-snoc x ts (old ∷ ks) v.stack_kept xt;
    }
  where
    kept_sources : last old ks ≡ kept → Distinct (old ∷ ks) → Absent kept (sources old ks)
    kept_sources e d = subst (λ k. Absent k (sources old ks)) e (last-Absent-sources old ks d)

Dealing-moved :
    {f : ℕ → ℕ} {old kept taken c : ℕ} {ks ts : List ℕ} (x : ℕ) (xs : List ℕ)
    → Dealing f old kept taken c ks ts (x ∷ xs)
    → Dealing (update f x taken) old kept x (f x) ks (x ∷ ts) xs
Dealing-moved {f} {old} {kept} {taken} {c} {ks} {ts} x xs v =
    let a = v.rest_kept.0 in
    let l : kept ≢ x = subst (λ k. k ≢ x) v.tail (last-Apart old ks (x ∷ xs) v.rest_kept).0 in
    record {
      leads = update-Leads f x taken old ks (Absent-sources x old ks a.0 a.1) v.leads;
      tail = v.tail;
      end = update-other f x taken kept l ∙ v.end;
      stack = (
        refl,
        v.rest.1,
        subst (λ n. Chain (update f x taken) n ts) (sym (update-same f x taken))
            (update-Chain f x taken taken ts v.rest_stack.0 v.stack),
      );
      rest = update-Chain f x taken (f x) xs v.distinct.0 v.rest.2;
      distinct = v.distinct.1;
      kept_distinct = v.kept_distinct;
      rest_kept = v.rest_kept.1;
      rest_stack = Apart-cons x xs ts v.rest_stack.1 v.distinct.0;
      stack_kept = (a, v.stack_kept);
    }

Comes : Tables → ℕ → (ℕ → ℕ) → ℕ → ℕ → ℕ → ℕ → List ℕ → List ℕ → List ℕ → Type 0
Comes r n f old kept taken c ks ts xs =
    (first : ℕ) × (g : ℕ → ℕ) × (detach_from n (with_clients r f) kept taken c
      ≡ some (first, with_clients r g))
    × Dealt (is_pinned r) f g old first ks ts xs

detach_from-kept :
    (r : Tables) (n : ℕ) (f : ℕ → ℕ) (kept taken x : ℕ)
    → x ≢ 0
    → is_pinned r x ≡ true
    → detach_from (suc n) (with_clients r f) kept taken x
      ≡ detach_from n (with_clients r (update (update f kept x) x 0)) x taken (f x)
unfolding detach_from
detach_from-kept r n f kept taken x nz e = let z : (x == 0) ≡ false = ground arith in rw (z, e) refl

detach_from-moved :
    (r : Tables) (n : ℕ) (f : ℕ → ℕ) (kept taken x : ℕ)
    → x ≢ 0
    → is_pinned r x ≡ false
    → detach_from (suc n) (with_clients r f) kept taken x
      ≡ detach_from n (with_clients r (update f x taken)) kept x (f x)
unfolding detach_from
detach_from-moved r n f kept taken x nz e =
    let z : (x == 0) ≡ false = ground arith in rw (z, e) refl

keep-pinned :
    (q : ℕ → Bool) (x : ℕ) (xs ks : List ℕ)
    → q x ≡ true
    → (ks ++ keep q (x ∷ xs) ≡ (ks ++ x ∷ []) ++ keep q xs) × (drop q (x ∷ xs) ≡ drop q xs)
keep-pinned q x xs ks e = (rw e (sym (append_assoc ks (x ∷ []) (keep q xs))), rw e refl)

drop-unpinned :
    (q : ℕ → Bool) (x : ℕ) (xs ts : List ℕ)
    → q x ≡ false
    → (rev (drop q (x ∷ xs)) ++ ts ≡ rev (drop q xs) ++ x ∷ ts) × (keep q (x ∷ xs) ≡ keep q xs)
drop-unpinned q x xs ts e = (rw e (append_assoc (rev (drop q xs)) (x ∷ []) ts), rw e refl)

step_kept :
    (r : Tables) (n : ℕ) (f : ℕ → ℕ) (old kept taken : ℕ) (ks ts : List ℕ) (x : ℕ) (xs : List ℕ)
    → x ≢ 0
    → is_pinned r x ≡ true
    → last old ks ≡ kept
    → Comes r n (update (update f kept x) x 0) old x taken (f x) (ks ++ x ∷ []) ts xs
    → Comes r (suc n) f old kept taken x ks ts (x ∷ xs)
unfolding Comes
step_kept r n f old kept taken ks ts x xs nz e l (first, g, d, w) =
    let eqs = keep-pinned (is_pinned r) x xs ks e in
    (
      first,
      g,
      detach_from-kept r n f kept taken x nz e ∙ d,
      record {
        kept = subst (Chain g (g old)) (sym eqs.0) w.kept;
        moved = subst (λ us. Chain g first (rev us ++ ts)) (sym eqs.1) w.moved;
        same = λ j a b.
            w.same j (append-Absent j (old ∷ ks) (x ∷ []) a (b.0, tt)) b.1
            ∙ update-other (update f kept x) x 0 j b.0
            ∙ update-other f kept x j (λ i. last-ne j old ks a.0 a.1 (i ∙ sym l));
      },
    )

step_moved :
    (r : Tables) (n : ℕ) (f : ℕ → ℕ) (old kept taken : ℕ) (ks ts : List ℕ) (x : ℕ) (xs : List ℕ)
    → x ≢ 0
    → is_pinned r x ≡ false
    → Comes r n (update f x taken) old kept x (f x) ks (x ∷ ts) xs
    → Comes r (suc n) f old kept taken x ks ts (x ∷ xs)
unfolding Comes
step_moved r n f old kept taken ks ts x xs nz e (first, g, d, w) =
    let eqs = drop-unpinned (is_pinned r) x xs ts e in
    (
      first,
      g,
      detach_from-moved r n f kept taken x nz e ∙ d,
      record {
        kept = subst (λ us. Chain g (g old) (ks ++ us)) (sym eqs.1) w.kept;
        moved = subst (Chain g first) (sym eqs.0) w.moved;
        same = λ j a b. w.same j a b.1 ∙ update-other f x taken j b.0;
      },
    )

detach_from-Dealt :
    (r : Tables) (n : ℕ) (f : ℕ → ℕ) (old kept taken c : ℕ) (ks ts xs : List ℕ)
    → length xs < n
    → Dealing f old kept taken c ks ts xs
    → Comes r n f old kept taken c ks ts xs
unfolding detach_from Comes
detach_from-Dealt r zero f old kept taken c ks ts xs h v = absurd (omega arith)
detach_from-Dealt r (suc n) f old kept taken c ks ts [] h v =
    let z : (c == 0) ≡ true = let e = v.rest in ground arith in
    (
      taken,
      f,
      rw z refl,
      record {
        kept =
            subst (Chain f (f old)) (sym (append-nil ks))
              (Leads-Chain f old ks v.leads (ap f v.tail ∙ v.end));
        moved = v.stack;
        same = λ j a b. refl;
      },
    )
detach_from-Dealt r (suc n) f old kept taken c ks ts (x ∷ xs) h v =
    subst (λ c. Comes r (suc n) f old kept taken c ks ts (x ∷ xs)) (sym v.rest.0)
      (elim (Bool-cases (is_pinned r x)) [
        | inl e ↦ step_kept r n f old kept taken ks ts x xs v.rest.1 e v.tail (
            detach_from-Dealt r n (update (update f kept x) x 0) old x taken (f x) (ks ++ x ∷ []) ts
              xs (omega arith) (Dealing-kept x xs v))
        | inr e ↦ step_moved r n f old kept taken ks ts x xs v.rest.1 e (
            detach_from-Dealt r n (update f x taken) old kept x (f x) ks (x ∷ ts) xs (omega arith)
              (Dealing-moved x xs v))
      ])

-- The clients `xs` of a table are dealt out if the loop has more steps than there are clients: the
-- pinned ones stay on its list, in their order, the others are the list that is answered, the last
-- one first, and no other list changes.
pub detach_unpinned_clients-Dealt :
    (r : Tables) (fuel old : ℕ) (xs : List ℕ)
    → Chain r.clients (r.clients old) xs
    → Distinct (old ∷ xs)
    → length xs < fuel
    → (first : ℕ) × (g : ℕ → ℕ) × (detach_unpinned_clients fuel r old
        ≡ some (first, with_clients r g))
      × Chain g (g old) (keep (is_pinned r) xs)
      × Chain g first (rev (drop (is_pinned r) xs))
      × ((j : ℕ) → Absent j (old ∷ xs) → g j ≡ r.clients j)
unfolding detach_unpinned_clients Comes
detach_unpinned_clients-Dealt r fuel old xs w d h =
    let f = update r.clients old 0 in
    let (first, g, e, v) = detach_from-Dealt r fuel f old old 0 (r.clients old) [] [] xs h (record {
      leads = tt;
      tail = refl;
      end = update-same r.clients old 0;
      stack = refl;
      rest = update-Chain r.clients old 0 (r.clients old) xs d.0 w;
      distinct = d.1;
      kept_distinct = (tt, tt);
      rest_kept = Apart-cons old xs [] (Apart-nil xs) d.0;
      rest_stack = Apart-nil xs;
      stack_kept = tt;
    }) in
    (
      first,
      g,
      e,
      v.kept,
      subst (Chain g first) (append-nil (rev (drop (is_pinned r) xs))) v.moved,
      λ j a. v.same j (a.0, tt) a.1 ∙ update-other r.clients old 0 j a.0,
    )
