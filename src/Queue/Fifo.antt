-- ===== src/Queue/Fifo.antt =====
-- rtmp_core.c: the linked queue of messages is a first-in first-out queue of at most 1000 addresses.
use rtmpcamera.Prelude.{
  ◌+◌, ◌≤◌, ◌<◌, ◌≡◌, refl, sym, ap, ◌∙◌, Bool, true, false, Option, none, some, List, [], ◌∷◌,
  ◌++◌, length, length-append, arith, ◌==◌, leb, ◌>>=◌,
}
use rtmpcamera.Queue.{
  Address, Heap, Message, Queue, update, set_next, link, push, pop, Popped, waits, popped,
  max_queue_size,
}
use rtmpcamera.Queue.Chain.{
  Chain, Avoids, Distinct, last_of, Holds, Chain-update, update-same, last_of-snoc, Distinct-snoc,
  Chain-snoc,
}

-- A message but for its link.
abbrev pub payload : Option Message → Option Message
payload none = none
payload (some m) = some (record m { next = none })

-- The call took the message at `a`, and the queue holds the rest.
abbrev pub Pops : Heap → Address → List Address → Option Popped → Type 0
Pops heap a ads (some (popped b q)) = (b ≡ a) × Holds heap q ads
Pops heap a ads _ = ⊥

-- A queue that holds addresses gives the first of them, keeps the others in order and follows no
-- dangling pointer.
pub pop-Pops :
    (heap : Heap) (q : Queue) (a : Address) (ads : List Address)
    → Holds heap q (a ∷ ads)
    → Pops heap a ads (pop heap q)
unfolding pop Holds Chain last_of Distinct
pop-Pops heap q a [] ((e, (m, there, c)), t, n, d) =
    rw (n, e, there, c) (refl, (refl, refl, refl, tt))
pop-Pops heap q a (b ∷ ads) ((e, (m, there, c)), t, n, d) =
    let filled : (q.count == 0) ≡ false = ground arith in
    rw (filled, e, there, c.0) (refl, ((refl, c.1), t, omega arith, d.1))

-- A queue that holds nothing makes the caller wait.
pub pop-waits : (heap : Heap) (q : Queue) → Holds heap q [] → pop heap q ≡ some waits
unfolding pop Holds
pop-waits heap q (c, t, n, d) = rw n refl

-- The call returned 1 with the queue holding the addresses, and no message but for its link changed.
abbrev pub Pushes : Heap → (b : Address) → List Address → Option (Bool × Heap × Queue) → Type 0
Pushes heap b ads none = ⊥
Pushes heap b ads (some (result, heap1, q1)) =
    (result ≡ true) × Holds heap1 q1 ads × (payload (heap1 b) ≡ payload (heap b))

-- A full queue refuses a message and stays as it is.
pub push_full :
    (heap : Heap) (q : Queue) (msg : Address) (ads : List Address)
    → Holds heap q ads
    → max_queue_size ≤ length ads
    → push msg heap q ≡ some (false, heap, q)
unfolding push Holds
push_full heap q msg ads (c, t, n, d) k = ground arith

payload-update :
    (b a : Address) (m x : Message) (heap : Heap) (next : Option Address)
    → heap a ≡ some m
    → payload (update a (some (record m { next = next })) heap b) ≡ payload (heap b)
unfolding update
payload-update b a m x heap next h = ground (arith, ap heap)

last_of-some : (a : Address) (ads : List Address) → (t : Address) × (last_of (a ∷ ads) ≡ some t)
unfolding last_of
last_of-some a [] = (a, refl)
last_of-some a (b ∷ ads) = last_of-some b ads

-- Linking a message whose `next` is NULL behind the chain.
abbrev Links :
    Heap → Queue → (msg : Address) → List Address → Address → Option (Heap × Queue) → Type 0
Links heap q msg ads b none = ⊥
Links heap q msg ads b (some (heap1, q1)) =
    Chain heap1 q1.head (ads ++ msg ∷ [])
    × (q1.count ≡ q.count)
    × (payload (heap1 b) ≡ payload (heap b))

last_of-nil : last_of [] ≡ none
unfolding last_of
last_of-nil = refl

Chain-one :
    (heap : Heap) (a : Address) (m : Message)
    → heap a ≡ some m
    → m.next ≡ none
    → Chain heap (some a) (a ∷ [])
unfolding Chain
Chain-one heap a m h n = (refl, (m, h, n))

-- What rtmp_queue_push does with the linked queue.
Pushes-link :
    (heap heap1 : Heap) (q : Queue) (msg b : Address) (ads : List Address)
    (o : Option (Heap × Queue))
    → Distinct ads
    → Avoids msg ads
    → q.count ≡ length ads
    → payload (heap1 b) ≡ payload (heap b)
    → Links heap1 q msg ads b o
    → Pushes heap b (ads ++ msg ∷ []) (
        o >>= λ linked.
        some (true, linked.0, record linked.1 { tail = some msg; count = linked.1.count + 1 }))
unfolding Holds
Pushes-link heap heap1 q msg b ads none d v n p l = absurd l
Pushes-link heap heap1 q msg b ads (some (heap2, q2)) d v n p l = (
  refl,
  (
    l.0,
    sym (last_of-snoc ads msg),
    omega (arith, l.1, length-append ads (msg ∷ [])),
    Distinct-snoc ads msg d v,
  ),
  l.2 ∙ p,
)

link-Links :
    (heap : Heap) (q : Queue) (msg b : Address) (m : Message) (ads : List Address)
    → Chain heap q.head ads
    → q.tail ≡ last_of ads
    → Distinct ads
    → heap msg ≡ some m
    → m.next ≡ none
    → Avoids msg ads
    → Links heap q msg ads b (link q.tail msg heap q)
unfolding link set_next
link-Links heap q msg b m [] c t d h n v =
    rw (t, last_of-nil) (Chain-one heap msg m h n, refl, refl)
link-Links heap q msg b m (a ∷ ads) c t d h n v =
    let (z, l) = last_of-some a ads in
    let (x, found, chain) = Chain-snoc heap q.head (a ∷ ads) z msg m l d v h n c in
    rw (t, l, found) (chain, refl, payload-update b z x x heap (some msg) found)

-- A queue with fewer than 1000 addresses takes an allocated message that it does not hold: it returns
-- 1, holds the message's address behind the others, and no message changes but for its link.
pub push-Pushes :
    (heap : Heap) (q : Queue) (msg b : Address) (m : Message) (ads : List Address)
    → Holds heap q ads
    → length ads < max_queue_size
    → heap msg ≡ some m
    → Avoids msg ads
    → Pushes heap b (ads ++ msg ∷ []) (push msg heap q)
unfolding push Holds set_next link
push-Pushes heap q msg b m ads (c, t, n, d) k h v =
    let cleared = record m { next = none } in
    let heap1 = update msg (some cleared) heap in
    let small : leb max_queue_size q.count ≡ false = ground arith in
    let chain : Chain heap1 q.head ads = Chain-update heap msg (some cleared) q.head ads v c in
    let linked =
      link-Links heap1 q msg b cleared ads chain t d (update-same msg (some cleared) heap) refl v in
    rw (small, h)
      (Pushes-link heap heap1 q msg b ads _ d v n (payload-update b msg m m heap none h) linked)
