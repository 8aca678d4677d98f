-- ===== src/Heaplib/Grants.antt =====
-- A block that is granted by src/iop/heaplib.cpp, and the free list that is left.
use ps2bios_rebuild.Common.{
  ℕ, ◌+◌, ◌-◌, ◌*◌, ◌≤◌, ◌<◌, ◌≡◌, ◌≢◌, ◌==◌, ◌⊎◌, ◌∙◌, inl, inr, sym, refl, ap, subst, arith, List,
  [], ◌∷◌, All, map-All, update, add32, true, false, Bool-cases,
}
use ps2bios_rebuild.Threadman.Rings.{IsRing, unlink-IsRing}
use ps2bios_rebuild.Heaplib.{Words, used_at, rover_at, size_at, finish, take_block}
use ps2bios_rebuild.Heaplib.Pairs.{Pairs, Any}
use ps2bios_rebuild.Heaplib.Arena.{
  IsArena, IsBlock, Disjoint, Shrunk, All-last, same-IsRing, Shrunk-blocks, Shrunk-Disjoint,
  Shrunk-sentinel,
}

-- The memory that is granted at `r`, its header included, is no part of the free block `x`.
abbrev pub Clear : Words → ℕ → ℕ → ℕ → Type 0
Clear u r units x = ((x + 8 ≤ r - 8) × (x + 8 * u (size_at x) ≤ r - 8)) ⊎ (r - 8 + 8 * units ≤ x)

-- What is left: a free list of the blocks `bs`, none of which has a part of the grant.
abbrev pub Left : Words → ℕ → ℕ → ℕ → List ℕ → Type 0
Left u a units r bs = IsArena u a bs × All (Clear u r units) bs

-- A grant of `units` out of the free block `p`: the end of the block, all of it if it fits exactly.
-- The block leaves the free list then, and is that much smaller else; the blocks `others` stay.
pub record Taken (m : Words) (a units p : ℕ) (others : List ℕ) (r : ℕ) (u : Words) : Type 0 where
  pub place : r ≡ p + 8 * (m (size_at p) - units) + 8
  pub tag : u (r - 8) ≡ a
  pub size : u (r - 4) ≡ units
  pub count : u (used_at a) ≡ add32 (m (used_at a)) units
  pub left :
      ((m (size_at p) ≡ units) × Left u a units r others)
      ⊎ ((units < m (size_at p))
          × (u (size_at p) ≡ m (size_at p) - units)
          × Left u a units r (p ∷ others))
  pub sizes : All (λ x. u (size_at x) ≡ m (size_at x)) others
  pub header : (u a ≡ m a) × (u (a + 4) ≡ m (a + 4))

-- The block behind `prev` is no block of the circle any more.
unlink_block :
    (m : Words) (prev p : ℕ) (w : List ℕ)
    → m (size_at p) ≢ 0
    → Any (λ x. m (size_at x) ≡ 0) (p ∷ w)
    → IsRing m prev (p ∷ w)
    → IsRing (update m prev (m p)) prev w
unlink_block m prev p w nz (inl e) v = absurd (nz e)
unlink_block m prev p [] nz (inr s) v = absurd s
unlink_block m prev p (y ∷ w) nz (inr s) v = unlink-IsRing p y w v

module _ (m : Words) (a units prev p : ℕ) (w : List ℕ) (ring : IsRing m prev (p ∷ w))
    (blocks : All (IsBlock m a) (p ∷ w)) (disjoint : Pairs (Disjoint m) (p ∷ w))
    (sentinel : Any (λ x. m (size_at x) ≡ 0) (p ∷ w)) (one : 1 ≤ units) where
  prev-IsBlock : IsBlock m a prev
  prev-IsBlock = subst (IsBlock m a) ring.closed (All-last (IsBlock m a) p w blocks.0 blocks.1)

  -- What is known of another block.
  Other : ℕ → Type 0
  Other x = IsBlock m a x × Disjoint m p x

  others : (xs : List ℕ) → All (IsBlock m a) xs → All (Disjoint m p) xs → All Other xs
  unfolding Other
  others [] b d = tt
  others (x ∷ xs) b d = ((b.0, d.0), others xs b.1 d.1)

  all_others : All Other w
  all_others = others w blocks.1 disjoint.0

  module _ (exact : m (size_at p) ≡ units) where
    exact_memory : Words
    exact_memory = (finish (update m prev (m p)) a units prev p).1

    exact_lem : take_block m a units prev p ≡ (p + 8, exact_memory)
    unfolding take_block finish exact_memory
    exact_lem = let e : (m (size_at p) == units) ≡ true = ground arith in rw e refl

    exact_words :
        (exact_memory p ≡ a)
        × (exact_memory (p + 4) ≡ units)
        × (exact_memory (used_at a) ≡ add32 (m (used_at a)) units)
        × (exact_memory (rover_at a) ≡ prev)
        × (exact_memory a ≡ m a)
        × (exact_memory (a + 4) ≡ m (a + 4))
    unfolding finish exact_memory
    exact_words =
        let b = blocks.0 in
        let c = prev-IsBlock in
        (ground arith, ground arith, ground arith, ground arith, ground arith, ground arith)

    exact_next : (x : ℕ) → Other x → exact_memory x ≡ update m prev (m p) x
    unfolding finish exact_memory Other
    exact_next x (b, d) = grind arith

    exact_size : (x : ℕ) → Other x → exact_memory (size_at x) ≡ m (size_at x)
    unfolding finish exact_memory Other
    exact_size x (b, d) = let c = prev-IsBlock in let e = blocks.0 in grind arith

    exact-Clear : (x : ℕ) → Other x → Clear exact_memory (p + 8) units x
    unfolding Other
    exact-Clear x (b, inl d) = inr (omega (arith, d.1, exact))
    exact-Clear x (b, inr d) =
        let e = exact_size x (b, inr d) in inl (omega (arith, d.0), omega (arith, d.1, e))

    exact-Shrunk : All (Shrunk m exact_memory) w
    exact-Shrunk =
        map-All Other (Shrunk m exact_memory) w (λ x o. let e = exact_size x o in omega (arith, e))
          all_others

    exact_IsArena : IsArena exact_memory a w
    exact_IsArena =
        let nz : m (size_at p) ≢ 0 = omega (arith, exact, one) in
        record {
          ring =
              subst (λ r. IsRing exact_memory r w) (sym exact_words.3)
                (same-IsRing w
                  (map-All Other (λ x. exact_memory x ≡ update m prev (m p) x) w exact_next
                    all_others)
                  (unlink_block m prev p w nz sentinel ring));
          blocks = Shrunk-blocks m exact_memory a w exact_words.5 exact-Shrunk blocks.1;
          disjoint = Shrunk-Disjoint m exact_memory w exact-Shrunk disjoint.1;
          sentinel =
              Shrunk-sentinel m exact_memory w exact-Shrunk
                (elim sentinel [ inl e ↦ absurd (nz e) | inr s ↦ s ]);
        }

    exact_Taken : Taken m a units p w (p + 8) exact_memory
    exact_Taken =
        let h : p + 8 - 8 ≡ p = omega arith in
        let h' : p + 8 - 4 ≡ p + 4 = omega arith in
        record {
          place = omega (arith, exact);
          tag = ap exact_memory h ∙ exact_words.0;
          size = ap exact_memory h' ∙ exact_words.1;
          count = exact_words.2;
          left = inl (
            exact,
            (
              exact_IsArena,
              map-All Other (Clear exact_memory (p + 8) units) w exact-Clear all_others,
            ),
          );
          sizes =
              map-All Other (λ x. exact_memory (size_at x) ≡ m (size_at x)) w exact_size all_others;
          header = (exact_words.4, exact_words.5);
        }

  module _ (larger : units < m (size_at p)) where
    abbrev q : ℕ
    q = p + 8 * (m (size_at p) - units)

    split_memory : Words
    split_memory =
        (finish (update (update m (size_at p) (m (size_at p) - units)) (size_at q) units) a units
          prev q).1

    split_lem : take_block m a units prev p ≡ (q + 8, split_memory)
    unfolding take_block finish split_memory
    split_lem = let e : (m (size_at p) == units) ≡ false = ground arith in rw e refl

    split_words :
        (split_memory q ≡ a)
        × (split_memory (q + 4) ≡ units)
        × (split_memory (used_at a) ≡ add32 (m (used_at a)) units)
        × (split_memory (rover_at a) ≡ prev)
        × (split_memory a ≡ m a)
        × (split_memory (a + 4) ≡ m (a + 4))
        × (split_memory (size_at p) ≡ m (size_at p) - units)
        × (split_memory p ≡ m p)
    unfolding finish split_memory
    split_words =
        let b = blocks.0 in
        (
          ground arith,
          ground arith,
          ground arith,
          ground arith,
          ground arith,
          ground arith,
          ground arith,
          ground arith,
        )

    split_next : (x : ℕ) → Other x → split_memory x ≡ m x
    unfolding finish split_memory Other
    split_next x (b, d) = let e = blocks.0 in grind arith

    split_size : (x : ℕ) → Other x → split_memory (size_at x) ≡ m (size_at x)
    unfolding finish split_memory Other
    split_size x (b, d) = let e = blocks.0 in grind arith

    split-Clear : (x : ℕ) → Other x → Clear split_memory (q + 8) units x
    unfolding Other
    split-Clear x (b, inl d) = inr (omega (arith, d.1, larger))
    split-Clear x (b, inr d) =
        let e = split_size x (b, inr d) in inl (omega (arith, d.0), omega (arith, d.1, e))

    split-Shrunk : All (Shrunk m split_memory) (p ∷ w)
    split-Shrunk = (
      omega (arith, split_words.6),
      map-All Other (Shrunk m split_memory) w (λ x o. let e = split_size x o in omega (arith, e))
          all_others,
    )

    split_IsArena : IsArena split_memory a (p ∷ w)
    split_IsArena = record {
      ring =
          subst (λ r. IsRing split_memory r (p ∷ w)) (sym split_words.3)
            (same-IsRing (p ∷ w)
              (split_words.7, map-All Other (λ x. split_memory x ≡ m x) w split_next all_others)
              ring);
      blocks = Shrunk-blocks m split_memory a (p ∷ w) split_words.5 split-Shrunk blocks;
      disjoint = Shrunk-Disjoint m split_memory (p ∷ w) split-Shrunk disjoint;
      sentinel = Shrunk-sentinel m split_memory (p ∷ w) split-Shrunk sentinel;
    }

    split_Taken : Taken m a units p w (q + 8) split_memory
    split_Taken =
        let h : q + 8 - 8 ≡ q = omega arith in
        let h' : q + 8 - 4 ≡ q + 4 = omega arith in
        record {
          place = refl;
          tag = ap split_memory h ∙ split_words.0;
          size = ap split_memory h' ∙ split_words.1;
          count = split_words.2;
          left = inr (
            larger,
            split_words.6,
            (
              split_IsArena,
              (
                inl (omega (arith, larger), omega (arith, split_words.6)),
                map-All Other (Clear split_memory (q + 8) units) w split-Clear all_others,
              ),
            ),
          );
          sizes =
              map-All Other (λ x. split_memory (size_at x) ≡ m (size_at x)) w split_size all_others;
          header = (split_words.4, split_words.5);
        }

  pub take_block-Taken :
      units ≤ m (size_at p) → let (r, u) = take_block m a units prev p in Taken m a units p w r u
  take_block-Taken l = elim (Bool-cases (m (size_at p) == units)) [
    | inl e ↦ let f : m (size_at p) ≡ units = ground arith in rw (exact_lem f) (exact_Taken f)
    | inr e ↦ let f : units < m (size_at p) = ground arith in rw (split_lem f) (split_Taken f)
  ]
