-- ===== src/Threadman/Mail.antt =====
-- What the calls of src/iop/threadman.cpp on a message box do to the list of its messages.
use ps2bios_rebuild.Common.{
  ℕ, suc, ◌<◌, ◌==◌, ◌≡◌, ◌≢◌, refl, sym, ap, ◌∙◌, arith, List, [], ◌∷◌, false, true, Bool, update,
  if_ind, subst, length, length-append, some, add32, sub32, leb, ◌/◌, ◌%◌,
}
use ps2bios_rebuild.Threadman.Types.{Kernel, nobody}
use ps2bios_rebuild.Threadman.Ids.{mailbox_of}
use ps2bios_rebuild.Threadman.Lists.{Absent}
use ps2bios_rebuild.Threadman.Switch.{answers}
use ps2bios_rebuild.Threadman.Mailboxes.{
  message_priority, queue_message, dequeue_message, store_message, take_message, send_mbx, poll_mbx,
}
use ps2bios_rebuild.Threadman.Rings.{last_in, Absent-sources, update-Hops}
use ps2bios_rebuild.Threadman.Boxes.{
  IsBox, by_priority, queued, queue_message-IsBox, dequeue_message-IsBox,
}

-- Box `m` holds the messages `xs`, and counts them.
pub record HoldsMail (k : Kernel) (m : ℕ) (xs : List ℕ) : Type 0 where
  pub box : IsBox k.memory (k.mailboxes m).tail xs
  pub count : (k.mailboxes m).message_count ≡ length xs

length-by_priority :
    (priority : ℕ → ℕ) (m : ℕ) (xs : List ℕ) → length (by_priority priority m xs) ≡ suc (length xs)
length-by_priority priority m [] = refl
length-by_priority priority m (x ∷ xs) =
    if_ind (λ l. length l ≡ suc (suc (length xs))) (leb (priority x) (priority m))
      (λ e. ap suc (length-by_priority priority m xs)) (λ e. refl)

length-queued :
    (priority : ℕ → ℕ) (attr m : ℕ) (xs : List ℕ)
    → length (queued priority attr m xs) ≡ suc (length xs)
length-queued priority attr m xs =
    if_ind (λ l. length l ≡ suc (length xs)) (attr / 4 % 2 == 0)
      (λ e. let f = length-append xs (m ∷ []) in omega (arith, f))
      (λ e. length-by_priority priority m xs)

store_message_lem :
    (k : Kernel) (m message n : ℕ)
    → (k.mailboxes m).message_count ≡ n
    → let r = k.mailboxes m in
      let q = queue_message k.memory r.attr n r.tail message in
      let k' = store_message k m message in
      (k'.memory ≡ q.0)
      × ((k'.mailboxes m).tail ≡ q.1)
      × ((k'.mailboxes m).message_count ≡ add32 n 1)
unfolding store_message
store_message_lem k m message n e =
    let r = k.mailboxes m in
    let f = ap (λ n. queue_message k.memory r.attr n r.tail message) e in
    (ap (λ q. q.0) f, ground (arith, ap (λ q. q.1) f), ground (arith, e))

store_message-HoldsMail :
    {k : Kernel} {m : ℕ} (message : ℕ) (xs : List ℕ)
    → HoldsMail k m xs
    → message ≢ 0
    → Absent message xs
    → length xs < 4294967295
    → HoldsMail
        (store_message k m message)
        m
        (queued (message_priority k.memory) (k.mailboxes m).attr message xs)
store_message-HoldsMail {k} {m} message xs v ne a b =
    let r = k.mailboxes m in
    let f = store_message_lem k m message (length xs) v.count in
    let w = queue_message-IsBox k.memory r.tail r.attr message xs ne a v.box in
    let l = queued (message_priority k.memory) r.attr message xs in
    let e = length-queued (message_priority k.memory) r.attr message xs in
    record {
      box =
          subst (λ y. IsBox y ((store_message k m message).mailboxes m).tail l) (sym f.0)
            (subst (λ t. IsBox (queue_message k.memory r.attr (length xs) r.tail message).0 t l)
              (sym f.1) w);
      count = omega (arith, f.2, e, b);
    }

send_mbx_queues :
    (k : Kernel) (m id message : ℕ) (from_interrupt : Bool)
    → mailbox_of k id ≡ some m
    → (k.mailboxes m).waiters.head ≡ nobody
    → send_mbx k id message from_interrupt ≡ answers 0 (store_message k m message)
unfolding send_mbx store_message
send_mbx_queues k m id message from_interrupt e h =
    let z : ((k.mailboxes m).waiters.head == nobody) ≡ true = ground arith in
    rw (send_mbx, e, z) refl

-- A message sent to a box that no thread waits for is queued there, by arrival or by priority.
pub send_mbx-HoldsMail :
    {k : Kernel} {m : ℕ} (id message : ℕ) (xs : List ℕ) (from_interrupt : Bool)
    → mailbox_of k id ≡ some m
    → (k.mailboxes m).waiters.head ≡ nobody
    → HoldsMail k m xs
    → message ≢ 0
    → Absent message xs
    → length xs < 4294967295
    → (k' : Kernel) × (send_mbx k id message from_interrupt ≡ answers 0 k')
      × HoldsMail k' m (queued (message_priority k.memory) (k.mailboxes m).attr message xs)
send_mbx-HoldsMail {k} {m} id message xs from_interrupt e h v ne a b = (
  store_message k m message,
  send_mbx_queues k m id message from_interrupt e h,
  store_message-HoldsMail message xs v ne a b,
)

-- A word that is no link of the box changes.
update-IsBox :
    (memory : ℕ → ℕ) (tail i v : ℕ) (xs : List ℕ)
    → i ≢ tail
    → Absent i xs
    → IsBox memory tail xs
    → IsBox (update memory i v) tail xs
update-IsBox memory tail i v [] ne a b = b
update-IsBox memory tail i v (x ∷ xs) ne a b = (
  b.0,
  record {
    hops = update-Hops memory i v tail (x ∷ xs) (Absent-sources i tail (x ∷ xs) ne a) b.1.hops;
    closed = b.1.closed;
    distinct = b.1.distinct;
  },
)

take_message_lem :
    (k : Kernel) (m received : ℕ)
    → let d = dequeue_message k.memory (k.mailboxes m).tail in
      let k' = take_message k m received in
      (k'.memory ≡ update d.1 received d.0)
      × ((k'.mailboxes m).tail ≡ d.2)
      × ((k'.mailboxes m).message_count ≡ sub32 (k.mailboxes m).message_count 1)
unfolding take_message
take_message_lem k m received = (refl, ground arith, ground arith)

poll_mbx-some :
    (k : Kernel) (received id m : ℕ)
    → mailbox_of k id ≡ some m
    → (k.mailboxes m).message_count ≢ 0
    → poll_mbx k received id ≡ (0, take_message k m received)
unfolding poll_mbx take_message
poll_mbx-some k received id m e h =
    let f : ((k.mailboxes m).message_count == 0) ≡ false = ground arith in rw (poll_mbx, e, f) refl

-- The tail of a box after its first message is taken.
tail-apart :
    (memory : ℕ → ℕ) (tail i : ℕ) (xs : List ℕ)
    → IsBox memory tail xs
    → i ≢ 0
    → Absent i xs
    → i ≢ tail
tail-apart memory tail i [] b ne a = λ e. ne (e ∙ b)
tail-apart memory tail i (x ∷ xs) b ne a = λ e. last_in i x xs a.0 a.1 (e ∙ sym b.1.closed)

-- `PollMbx` stores the first message of the box where the caller asks for it, which is no link of
-- the box, and leaves the others there.
pub poll_mbx-HoldsMail :
    {k : Kernel} {m : ℕ} (id received x : ℕ) (xs : List ℕ)
    → mailbox_of k id ≡ some m
    → HoldsMail k m (x ∷ xs)
    → length xs < 4294967295
    → received ≢ 0
    → Absent received xs
    → let (answer, k') = poll_mbx k received id in
      (answer ≡ 0) × (k'.memory received ≡ x) × HoldsMail k' m xs
poll_mbx-HoldsMail {k} {m} id received x xs e v b ne a =
    let d = dequeue_message-IsBox k.memory (k.mailboxes m).tail x xs v.box in
    let f = take_message_lem k m received in
    let q = dequeue_message k.memory (k.mailboxes m).tail in
    let c = v.count in
    let w = update-IsBox q.1 q.2 received q.0 xs (tail-apart q.1 q.2 received xs d.1 ne a) a d.1 in
    rw (poll_mbx-some k received id m e (omega (arith, c))) (
      refl,
      ap (λ y. y received) f.0 ∙ ground (arith, d.0),
      record {
        box =
            subst (λ y. IsBox y ((take_message k m received).mailboxes m).tail xs) (sym f.0)
              (subst (λ t. IsBox (update q.1 received q.0) t xs) (sym f.1) w);
        count = omega (arith, f.2, c, b);
      },
    )
