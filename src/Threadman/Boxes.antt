-- ===== src/Threadman/Boxes.antt =====
-- The messages of a box of src/iop/threadman.cpp as a list, in order of arrival or by priority.
use ps2bios_rebuild.Common.{
  ℕ, suc, ◌/◌, ◌%◌, ◌==◌, ◌≡◌, ◌≢◌, refl, sym, ap, ◌∙◌, inl, inr, arith, List, [], ◌∷◌, ◌++◌, false,
  true, Bool, Bool-cases, update, if◌then◌else◌, leb, subst, append-nil, length, if_ind,
}
use ps2bios_rebuild.Threadman.Lists.{last, Absent}
use ps2bios_rebuild.Threadman.Mailboxes.{
  link_message, message_priority, walk_messages, queue_message, dequeue_message,
}
use ps2bios_rebuild.Threadman.Rings.{
  Hops, IsRing, last_in, link-IsRing, link-IsRing-tail, unlink-IsRing,
}

-- A box of the messages `xs`, whose tail is null exactly if there are none.
abbrev pub IsBox : (ℕ → ℕ) → ℕ → List ℕ → Type 0
IsBox memory tail [] = tail ≡ 0
IsBox memory tail (x ∷ xs) = (tail ≢ 0) × IsRing memory tail (x ∷ xs)

-- `m` behind every message whose priority byte is not greater.
abbrev pub by_priority : (ℕ → ℕ) → ℕ → List ℕ → List ℕ
by_priority priority m [] = m ∷ []
by_priority priority m (x ∷ xs) =
    if leb (priority x) (priority m) then x ∷ by_priority priority m xs else m ∷ x ∷ xs

-- How a box of attributes `attr` queues.
abbrev pub queued : (ℕ → ℕ) → ℕ → ℕ → List ℕ → List ℕ
queued priority attr m xs = if attr / 4 % 2 == 0 then xs ++ m ∷ [] else by_priority priority m xs

-- Where a walk stops: behind the messages `xs`, of those `ys` that are left.
record Stopped (memory : ℕ → ℕ) (p previous : ℕ) (zs : List ℕ) (r : ℕ × ℕ) : Type 0 where
  front : List ℕ
  back : List ℕ
  parts : front ++ back ≡ zs
  at : r.0 ≡ last previous front
  count : r.1 ≡ length back
  place :
      (m : ℕ)
      → message_priority memory m ≡ p
      → by_priority (message_priority memory) m zs ≡ front ++ m ∷ back

walk_messages-Stopped :
    (memory : ℕ → ℕ) (p previous : ℕ) (zs : List ℕ)
    → Hops memory previous zs
    → Stopped memory p previous zs (walk_messages (length zs) memory p previous)
unfolding walk_messages
walk_messages-Stopped memory p previous [] h = record {
  front = [];
  back = [];
  parts = refl;
  at = refl;
  count = refl;
  place = λ m e. refl;
}
walk_messages-Stopped memory p previous (z ∷ zs) h =
    if_ind (Stopped memory p previous (z ∷ zs)) (leb (message_priority memory (memory previous)) p)
      (λ e.
        let s = walk_messages-Stopped memory p z zs h.1 in
        subst (λ q. Stopped memory p previous (z ∷ zs) (walk_messages (length zs) memory p q))
          (sym h.0)
          (record {
            front = z ∷ s.front;
            back = s.back;
            parts = ap (λ l. z ∷ l) s.parts;
            at = s.at;
            count = s.count;
            place = λ m f.
                ap (λ b. if b then z ∷ by_priority (message_priority memory) m zs else m ∷ z ∷ zs)
                  (test m f e)
                ∙ ap (λ l. z ∷ l) (s.place m f);
          }))
      (λ e. record {
        front = [];
        back = z ∷ zs;
        parts = refl;
        at = refl;
        count = refl;
        place = λ m f.
            ap (λ b. if b then z ∷ by_priority (message_priority memory) m zs else m ∷ z ∷ zs)
              (test m f e);
      })
  where
    test :
        {b : Bool} (m : ℕ)
        → message_priority memory m ≡ p
        → leb (message_priority memory (memory previous)) p ≡ b
        → leb (message_priority memory z) (message_priority memory m) ≡ b
    test m f e =
        ap (λ x. leb (message_priority memory z) x) f
        ∙ ap (λ x. leb (message_priority memory x) p) (sym h.0)
        ∙ e

queue_message-empty :
    (memory : ℕ → ℕ) (attr count m : ℕ)
    → queue_message memory attr count 0 m ≡ (update memory m m, m)
unfolding queue_message
queue_message-empty memory attr count m = refl

module _ (memory : ℕ → ℕ) (attr count tail m : ℕ) (some : tail ≢ 0) where
  queue_message-arrival :
      (attr / 4 % 2 == 0) ≡ true
      → queue_message memory attr count tail m ≡ (link_message memory tail m, m)
  unfolding queue_message
  queue_message-arrival e = let f : (tail == 0) ≡ false = ground arith in rw (f, e)

  queue_message-priority :
      (attr / 4 % 2 == 0) ≡ false
      → let w = walk_messages count memory (message_priority memory m) tail in
        queue_message memory attr count tail m
        ≡ (link_message memory w.0 m, if w.1 == 0 then m else tail)
  unfolding queue_message
  queue_message-priority e = let f : (tail == 0) ≡ false = ground arith in rw (f, e)

-- The box after a message is linked behind the messages `front`.
inserted-IsBox :
    {memory : ℕ → ℕ} {tail x : ℕ} {xs : List ℕ} (m : ℕ) (front back : List ℕ)
    → tail ≢ 0
    → m ≢ 0
    → front ++ back ≡ x ∷ xs
    → IsRing memory tail (x ∷ xs)
    → Absent m (x ∷ xs)
    → IsBox
        (link_message memory (last tail front) m)
        (if length back == 0 then m else tail)
        (front ++ m ∷ back)
inserted-IsBox {memory} {tail} {x} {xs} m front [] tz mz e v a =
    let f : front ≡ x ∷ xs = sym (append-nil front) ∙ e in
    subst (λ l. IsBox (link_message memory (last tail l) m) m (l ++ m ∷ [])) (sym f)
      (
        mz,
        subst (λ t. IsRing (link_message memory t m) m ((x ∷ xs) ++ m ∷ [])) (sym v.closed)
            (link-IsRing-tail m x xs v a),
      )
inserted-IsBox {memory} {tail} {x} {xs} m [] (y ∷ ys) tz mz e v a =
    let c : (suc (length ys) == 0) ≡ false = ground arith in
    rw c (
      tz,
      link-IsRing m [] y ys (subst (IsRing memory tail) (sym e) v) (subst (Absent m) (sym e) a),
    )
inserted-IsBox {memory} {tail} {x} {xs} m (z ∷ zs) (y ∷ ys) tz mz e v a =
    let c : (suc (length ys) == 0) ≡ false = ground arith in
    rw c (
      tz,
      link-IsRing m (z ∷ zs) y ys (subst (IsRing memory tail) (sym e) v)
          (subst (Absent m) (sym e) a),
    )

-- `queueMessage` puts a message that is not in the box behind the others, or, in a box by priority,
-- behind those whose priority byte is not greater, and keeps the order of the others.
pub queue_message-IsBox :
    (memory : ℕ → ℕ) (tail attr m : ℕ) (xs : List ℕ)
    → m ≢ 0
    → Absent m xs
    → IsBox memory tail xs
    → let (memory', tail') = queue_message memory attr (length xs) tail m in
      IsBox memory' tail' (queued (message_priority memory) attr m xs)
queue_message-IsBox memory tail attr m [] mz a z =
    rw (z, queue_message-empty memory attr 0 m)
      (if_ind (IsBox (update memory m m) m) (attr / 4 % 2 == 0) (λ e. one) (λ e. one))
  where
    one : IsBox (update memory m m) m (m ∷ [])
    one = (mz, record { hops = (ground arith, tt); closed = refl; distinct = (tt, tt) })
queue_message-IsBox memory tail attr m (x ∷ xs) mz a (tz, v) =
    elim (Bool-cases (attr / 4 % 2 == 0)) [
      | inl e ↦
          rw (queue_message-arrival memory attr (length (x ∷ xs)) tail m tz e, e)
            (mz, link-IsRing-tail m x xs v a)
      | inr e ↦
          let s = walk_messages-Stopped memory (message_priority memory m) tail (x ∷ xs) v.hops in
          let b = inserted-IsBox m s.front s.back tz mz s.parts v a in
          rw (queue_message-priority memory attr (length (x ∷ xs)) tail m tz e, e)
            (subst {A = ℕ × ℕ}
              (λ w.
                IsBox (link_message memory w.0 m) (if w.1 == 0 then m else tail)
                  (by_priority (message_priority memory) m (x ∷ xs)))
              (λ i. (sym s.at i, sym s.count i))
              (subst
                (IsBox (link_message memory (last tail s.front) m)
                  (if length s.back == 0 then m else tail))
                (sym (s.place m refl)) b))
    ]

dequeue_message_lem :
    (memory : ℕ → ℕ) (tail x : ℕ)
    → memory tail ≡ x
    → dequeue_message memory tail
      ≡ (if x == tail then (x, memory, 0) else (x, update memory tail (memory x), tail))
unfolding dequeue_message
dequeue_message_lem memory tail x e =
    ap (λ x. if x == tail then (x, memory, 0) else (x, update memory tail (memory x), tail)) e

-- `dequeueMessage` answers the first message and leaves the others, in their order.
pub dequeue_message-IsBox :
    (memory : ℕ → ℕ) (tail x : ℕ) (xs : List ℕ)
    → IsBox memory tail (x ∷ xs)
    → let (m, memory', tail') = dequeue_message memory tail in (m ≡ x) × IsBox memory' tail' xs
dequeue_message-IsBox memory tail x [] (tz, v) =
    let e : (x == tail) ≡ true = let c = v.closed in ground arith in
    rw (dequeue_message_lem memory tail x v.hops.0, e) (refl, refl)
dequeue_message-IsBox memory tail x (y ∷ xs) (tz, v) =
    let ne : x ≢ tail = λ e. last_in x y xs v.distinct.0.0 v.distinct.0.1 (e ∙ sym v.closed) in
    let e : (x == tail) ≡ false = ground arith in
    rw (dequeue_message_lem memory tail x v.hops.0, e) (refl, (tz, unlink-IsRing x y xs v))
