-- ===== src/Heaplib/Refusals.antt =====
-- The refusals of a release by src/iop/heaplib.cpp.
use ps2bios_rebuild.Common.{
  ℕ, ◌+◌, ◌*◌, ◌≡◌, ◌≢◌, ◌==◌, refl, subst, not, ◌&&◌, ◌||◌, leb, ltb, sub32, Option, none, some,
  if_ind,
}
use ps2bios_rebuild.Heaplib.{
  Words, size_at, rover_at, is_valid_arena, first_block_of, bracket_from, Bracket, meets, behind,
  release, heap_free, corrupted,
}

-- The codes, and whether memory was left alone.
abbrev Refuses : Words → ℕ × Words → Type 0
Refuses m (r, u) = (r ≢ 0 → u ≡ m)

abbrev RefusesIf : Words → Option (ℕ × Words) → Type 0
RefusesIf m none = Unit {0}
RefusesIf m (some r) = Refuses m r

release-Refuses : (m : Words) (a bp p : ℕ) → Refuses m (release m a bp p)
unfolding release
release-Refuses m a bp p =
    if_ind (Refuses m) (not (m (size_at (m p)) == 0) && ltb (m p) (bp + 8 * m (size_at bp)))
      (λ e ne. refl) (λ e ne. absurd (ne refl))

searched :
    (m : Words) (a bp : ℕ) (o : Option Bracket)
    → RefusesIf m (elim o [
      | none ↦ none
      | some b ↦ elim b [ meets ↦ some (corrupted, m) | behind p ↦ some (release m a bp p) ]
    ])
searched m a bp none = tt
searched m a bp (some meets) = λ ne. refl
searched m a bp (some (behind p)) = release-Refuses m a bp p

-- A release that does not answer 0 leaves memory as it was.
pub heap_free-refused :
    (fuel : ℕ) (m : Words) (a ptr r : ℕ) (u : Words)
    → heap_free fuel m a ptr ≡ some (r, u)
    → r ≢ 0
    → u ≡ m
unfolding heap_free
heap_free-refused fuel m a ptr r u e =
    let bp = sub32 ptr 8 in
    subst (RefusesIf m) e (
      if_ind (RefusesIf m) (not (is_valid_arena m a)) (λ f ne. refl)
        (λ f.
          if_ind (RefusesIf m) (ptr == 0 || ltb bp (first_block_of a) || leb (a + m (a + 4)) bp)
            (λ g ne. refl)
            (λ g.
              if_ind (RefusesIf m) (not (m bp == a)) (λ h ne. refl)
                (λ h. searched m a bp (bracket_from fuel m bp (m (rover_at a)))))))
