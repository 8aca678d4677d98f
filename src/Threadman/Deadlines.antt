-- ===== src/Threadman/Deadlines.antt =====
-- The alarms of src/iop/threadman.cpp stand in the order of their deadlines.
use ps2bios_rebuild.Common.{
  ℕ, zero, suc, ◌<◌, ◌==◌, ◌≡◌, refl, sym, ap, inl, inr, arith, List, [], ◌∷◌, ◌++◌, true, false,
  Bool-cases, if◌then◌else◌, if_ind, subst, length, Option, some,
}
use ps2bios_rebuild.Threadman.Types.{Clock, Alarms, nobody}
use ps2bios_rebuild.Threadman.Lists.{first, last, Distinct, Segment}
use ps2bios_rebuild.Threadman.Clock.{clock_before}
use ps2bios_rebuild.Threadman.Alarms.{insert_after}

abbrev pub deadline : Alarms → ℕ → Clock
deadline a i = (a.alarms i).deadline

-- The queue of alarms holds `xs`, in that order.
pub record IsAlarms (a : Alarms) (xs : List ℕ) : Type 0 where
  pub head : a.alarm_head ≡ first xs nobody
  pub links : Segment a.links nobody xs nobody
  pub distinct : Distinct xs

-- No alarm of `xs` is due before the one in front of it, of which the first is `i`.
abbrev pub SortedAfter : Alarms → ℕ → List ℕ → Type 0
SortedAfter a i [] = Unit {0}
SortedAfter a i (x ∷ xs) = (clock_before (deadline a x) (deadline a i) ≡ false) × SortedAfter a x xs

abbrev pub Sorted : Alarms → List ℕ → Type 0
Sorted a [] = Unit {0}
Sorted a (x ∷ xs) = SortedAfter a x xs

-- `i` before the first alarm that is due after it.
abbrev pub by_deadline : Alarms → ℕ → List ℕ → List ℕ
by_deadline a i [] = i ∷ []
by_deadline a i (x ∷ xs) =
    if clock_before (deadline a i) (deadline a x) then i ∷ x ∷ xs else x ∷ by_deadline a i xs

before_asym : (c d : Clock) → clock_before c d ≡ true → clock_before d c ≡ false
unfolding clock_before
before_asym c d h = ground arith

by_deadline-SortedAfter :
    (a : Alarms) (i x : ℕ) (xs : List ℕ)
    → clock_before (deadline a i) (deadline a x) ≡ false
    → SortedAfter a x xs
    → SortedAfter a x (by_deadline a i xs)
by_deadline-SortedAfter a i x [] h s = (h, tt)
by_deadline-SortedAfter a i x (y ∷ ys) h s =
    if_ind (SortedAfter a x) (clock_before (deadline a i) (deadline a y))
      (λ e. (h, (before_asym (deadline a i) (deadline a y) e, s.1)))
      (λ e. (s.0, by_deadline-SortedAfter a i y ys e s.1))

pub by_deadline-Sorted :
    (a : Alarms) (i : ℕ) (xs : List ℕ) → Sorted a xs → Sorted a (by_deadline a i xs)
by_deadline-Sorted a i [] s = tt
by_deadline-Sorted a i (x ∷ xs) s =
    if_ind (Sorted a) (clock_before (deadline a i) (deadline a x))
      (λ e. (before_asym (deadline a i) (deadline a x) e, s))
      (λ e. by_deadline-SortedAfter a i x xs e s)

-- Where the search for the place of `i` in `zs` stops, with `after` in front of `zs`.
pub record Stopped (a : Alarms) (i after : ℕ) (zs : List ℕ) (r : Option ℕ) : Type 0 where
  pub front : List ℕ
  pub back : List ℕ
  pub parts : front ++ back ≡ zs
  pub found : r ≡ some (last after front)
  pub place : by_deadline a i zs ≡ front ++ i ∷ back

pub insert_after-Stopped :
    (n : ℕ) (a : Alarms) (i after p at : ℕ) (zs : List ℕ)
    → length zs < n
    → at ≡ first zs nobody
    → Segment a.links p zs nobody
    → Stopped a i after zs (insert_after n a (deadline a i) after at)
unfolding insert_after
insert_after-Stopped zero a i after p at zs h e s = absurd (omega arith)
insert_after-Stopped (suc n) a i after p at [] h e s = record {
  front = [];
  back = [];
  parts = refl;
  found = rw e refl;
  place = refl;
}
insert_after-Stopped (suc n) a i after p at (z ∷ zs) h e s =
    let f : (z == nobody) ≡ false = let ne = s.0 in ground arith in
    subst (λ at. Stopped a i after (z ∷ zs) (insert_after (suc n) a (deadline a i) after at))
      (sym e)
      (elim (Bool-cases (clock_before (deadline a i) (deadline a z))) [
        | inl b ↦ record {
          front = [];
          back = z ∷ zs;
          parts = refl;
          found = rw (f, b) refl;
          place = rw b refl;
        }
        | inr b ↦
            let r = insert_after-Stopped n a i z z (a.links.next z) zs (omega arith) s.2 s.3 in
            record {
              front = z ∷ r.front;
              back = r.back;
              parts = ap (λ l. z ∷ l) r.parts;
              found = rw (f, b) r.found;
              place = rw b (ap (λ l. z ∷ l) r.place);
            }
      ])
