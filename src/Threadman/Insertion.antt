-- ===== src/Threadman/Insertion.antt =====
-- How src/iop/threadman.cpp inserts an alarm into its queue.
use ps2bios_rebuild.Common.{
  ℕ, suc, ◌≤◌, ◌==◌, ◌≡◌, ◌≢◌, refl, sym, ap, ◌∙◌, arith, List, [], ◌∷◌, ◌++◌, true, false, Bool,
  if◌then◌else◌, subst, length, none, some,
}
use ps2bios_rebuild.Threadman.Types.{Alarms, Links, nobody, alarm_count}
use ps2bios_rebuild.Threadman.Lists.{
  first, last, Absent, Segment, Segment-append, Absent-append, last-ne, last-ne-nobody,
}
use ps2bios_rebuild.Threadman.Links.{set_next, set_prev, set_next_next, set_prev_next}
use ps2bios_rebuild.Threadman.Alarms.{insert_after, link_after, link_alarm, insert_alarm}
use ps2bios_rebuild.Threadman.Splice.{between, spliced-Segment}
use ps2bios_rebuild.Threadman.Deadlines.{
  deadline, IsAlarms, Sorted, by_deadline, by_deadline-Sorted, insert_after-Stopped,
}

-- `link_alarm` without its last store, where the record behind `i` is `n`.
module _ (a : Alarms) (p i n : ℕ) where
  abbrev linked : Alarms
  linked = link_after (record a { links = set_prev a.links i p }) p i

  link_alarm_lem :
      linked.links.next i ≡ n
      → let b = link_alarm a p i in
        (b.links ≡ (if n == nobody then linked.links else set_prev linked.links n i))
        × (b.alarm_head ≡ linked.alarm_head)
        × (b.alarms ≡ linked.alarms)
  unfolding link_alarm
  link_alarm_lem e = (
    if_links (linked.links.next i == nobody)
        ∙ ap (λ n. if n == nobody then linked.links else set_prev linked.links n i) e,
    ground arith,
    ground arith,
  )
    where
      if_links :
          (b : Bool)
          → (if b
              then linked
              else record linked { links = set_prev linked.links (linked.links.next i) i }).links
            ≡ (if b then linked.links else set_prev linked.links (linked.links.next i) i)
      if_links true = refl
      if_links false = refl

  linked-head :
      p ≡ nobody
      → a.alarm_head ≡ n
      → (linked.links ≡ between a.links p i n)
        × (linked.alarm_head ≡ i)
        × (linked.alarms ≡ a.alarms)
        × (linked.links.next i ≡ n)
  unfolding link_after
  linked-head e f =
      let z : (p == nobody) ≡ true = ground arith in
      rw (z, f) (refl, refl, refl, ground (arith, set_next_next (set_prev a.links i p) i n i))

  linked-behind :
      p ≢ nobody
      → p ≢ i
      → a.links.next p ≡ n
      → (linked.links ≡ set_next (between a.links p i n) p i)
        × (linked.alarm_head ≡ a.alarm_head)
        × (linked.alarms ≡ a.alarms)
        × (linked.links.next i ≡ n)
  unfolding link_after
  linked-behind e ne f =
      let z : (p == nobody) ≡ false = ground arith in
      let m : (set_prev a.links i p).next p ≡ n = set_prev_next a.links i p p ∙ f in
      let b = between a.links p i n in
      rw (z, m)
        (
          refl,
          refl,
          refl,
          ground (arith, set_next_next b p i i, set_next_next (set_prev a.links i p) i n i),
        )

-- `link_alarm` behind the alarms `front` of the queue.
link_alarm-IsAlarms :
    (a : Alarms) (i : ℕ) (front back : List ℕ)
    → IsAlarms a (front ++ back)
    → i ≢ nobody
    → Absent i (front ++ back)
    → let b = link_alarm a (last nobody front) i in
      IsAlarms b (front ++ i ∷ back) × (b.alarms ≡ a.alarms)
link_alarm-IsAlarms a i [] back v ne x =
    let n = first back nobody in
    let s = spliced-Segment a.links i [] back v.links v.distinct ne x in
    let f = linked-head a nobody i n refl v.head in
    let g = link_alarm_lem a nobody i n f.3 in
    let e = g.0 ∙ ap (λ l. if n == nobody then l else set_prev l n i) f.0 in
    (
      record {
        head = g.1 ∙ f.1;
        links = subst (λ l. Segment l nobody (i ∷ back) nobody) (sym e) s.0;
        distinct = s.1;
      },
      g.2 ∙ f.2,
    )
link_alarm-IsAlarms a i (y ∷ ys) back v ne x =
    let p = last y ys in
    let n = first back nobody in
    let c = Segment-append a.links nobody (y ∷ ys) back nobody v.links in
    let sb : p ≢ nobody = last-ne-nobody a.links nobody y ys n c.0 in
    let b = Absent-append i (y ∷ ys) back x in
    let o : p ≢ i = λ e. last-ne i y ys b.0.0 b.0.1 (sym e) in
    let s = spliced-Segment a.links i (y ∷ ys) back v.links v.distinct ne x in
    let f = linked-behind a p i n sb o (last-next a.links nobody y ys n c.0) in
    let g = link_alarm_lem a p i n f.3 in
    let z : (p == nobody) ≡ false = ground arith in
    let e =
      g.0
      ∙ ap (λ l. if n == nobody then l else set_prev l n i) f.0
      ∙ ap
          (λ b.
            let l = if b then between a.links p i n else set_next (between a.links p i n) p i in
            if n == nobody then l else set_prev l n i)
          (sym z) in
    (
      record {
        head = g.1 ∙ f.1 ∙ v.head;
        links = subst (λ l. Segment l nobody (y ∷ ys ++ i ∷ back) nobody) (sym e) s.0;
        distinct = s.1;
      },
      g.2 ∙ f.2,
    )
  where
    last-next :
        (l : Links) (q y : ℕ) (ys : List ℕ) (n : ℕ)
        → Segment l q (y ∷ ys) n
        → l.next (last y ys) ≡ n
    last-next l q y [] n s = s.2
    last-next l q y (z ∷ zs) n s = last-next l y z zs n s.3

insert_alarm_found :
    (a : Alarms) (i after : ℕ)
    → insert_after (suc alarm_count) a (deadline a i) nobody a.alarm_head ≡ some after
    → insert_alarm a i ≡ some (link_alarm a after i)
unfolding insert_alarm
insert_alarm_found a i after e =
    ap (λ o. elim o [ none ↦ none | some after ↦ some (link_alarm a after i) ]) e

-- `insertAlarm` puts an alarm that is not queued before the first one that is due after it, and
-- keeps the order of the others, so that a queue in the order of deadlines stays in that order.
pub insert_alarm-IsAlarms :
    (a : Alarms) (i : ℕ) (xs : List ℕ)
    → IsAlarms a xs
    → Sorted a xs
    → length xs ≤ alarm_count
    → i ≢ nobody
    → Absent i xs
    → (b : Alarms) × (insert_alarm a i ≡ some b)
      × IsAlarms b (by_deadline a i xs)
      × Sorted b (by_deadline a i xs)
insert_alarm-IsAlarms a i xs v s h ne x =
    let r =
      insert_after-Stopped (suc alarm_count) a i nobody nobody a.alarm_head xs (omega arith) v.head
        v.links in
    let b = link_alarm a (last nobody r.front) i in
    let w =
      link_alarm-IsAlarms a i r.front r.back (subst (IsAlarms a) (sym r.parts) v) ne
        (subst (Absent i) (sym r.parts) x) in
    (
      b,
      insert_alarm_found a i (last nobody r.front) r.found,
      subst (IsAlarms b) (sym r.place) w.0,
      same_deadlines b (by_deadline a i xs) w.1 (by_deadline-Sorted a i xs s),
    )
  where
    same_deadlines : (b : Alarms) (ys : List ℕ) → b.alarms ≡ a.alarms → Sorted a ys → Sorted b ys
    same_deadlines b ys e s = subst (λ r. Sorted (record a { alarms = r }) ys) (sym e) s
