-- ===== src/Connection/Linked.antt =====
-- rtmp_core.c: the linked queue of the module Queue does what the list of messages in Connection does.
mod Tests
use rtmpcamera.Prelude.{
  suc, ◌≡◌, refl, ap, ◌∙◌, inl, inr, Bool, true, Option, none, some, List, [], ◌∷◌, ◌++◌, length,
  arith, leb, Bool-cases,
}
use rtmpcamera.Queue
use rtmpcamera.Queue.{Address, Heap, update, pop, Popped, waits, popped, max_queue_size}
use rtmpcamera.Queue.Chain.{Holds, Avoids, Distinct, Chain-update, update-other}
use rtmpcamera.Queue.Fifo.{payload, Pops, pop-Pops, pop-waits, Pushes, push_full, push-Pushes}
use rtmpcamera.Connection.{Message, push}

-- A message of the heap as one of the list: all but its link.
abbrev pub plain : Option Queue.Message → Option Message
plain none = none
plain (some m) = some (record {
  contents = m.contents;
  type = m.type;
  timestamp = m.timestamp;
  stream_id = m.stream_id;
})

-- The messages at these addresses, in order.
unfoldable pub Carries : Heap → List Address → List Message → Type 0
Carries heap [] [] = Unit {0}
Carries heap (a ∷ ads) (m ∷ queue) = (plain (heap a) ≡ some m) × Carries heap ads queue
Carries heap _ _ = ⊥

-- The linked queue stands for the list.
pub record Represents (heap : Heap) (q : Queue.Queue) (queue : List Message) : Type 0 where
  pub addresses : List Address
  pub holds : Holds heap q addresses
  pub carries : Carries heap addresses queue

Carries-length :
    (heap : Heap) (ads : List Address) (queue : List Message)
    → Carries heap ads queue
    → length ads ≡ length queue
unfolding Carries
Carries-length heap [] [] c = refl
Carries-length heap [] (m ∷ queue) c = absurd c
Carries-length heap (a ∷ ads) [] c = absurd c
Carries-length heap (a ∷ ads) (m ∷ queue) c = ap suc (Carries-length heap ads queue c.1)

-- What depends on nothing but the payloads.
plain-payload : (o p : Option Queue.Message) → payload o ≡ payload p → plain o ≡ plain p
plain-payload none none e = refl
plain-payload none (some m) e = absurd (ground (arith, e))
plain-payload (some m) none e = absurd (ground (arith, e))
plain-payload (some m) (some n) e = ap plain e

Carries-payload :
    (heap heap1 : Heap) (ads : List Address) (queue : List Message)
    → ((b : Address) → payload (heap1 b) ≡ payload (heap b))
    → Carries heap ads queue
    → Carries heap1 ads queue
unfolding Carries
Carries-payload heap heap1 [] [] p c = tt
Carries-payload heap heap1 [] (m ∷ queue) p c = absurd c
Carries-payload heap heap1 (a ∷ ads) [] p c = absurd c
Carries-payload heap heap1 (a ∷ ads) (m ∷ queue) p c =
    (plain-payload (heap1 a) (heap a) (p a) ∙ c.0, Carries-payload heap heap1 ads queue p c.1)

Carries-snoc :
    (heap : Heap) (ads : List Address) (queue : List Message) (a : Address) (m : Message)
    → Carries heap ads queue
    → plain (heap a) ≡ some m
    → Carries heap (ads ++ a ∷ []) (queue ++ m ∷ [])
unfolding Carries
Carries-snoc heap [] [] a m c e = (e, tt)
Carries-snoc heap [] (n ∷ queue) a m c e = absurd c
Carries-snoc heap (b ∷ ads) [] a m c e = absurd c
Carries-snoc heap (b ∷ ads) (n ∷ queue) a m c e = (c.0, Carries-snoc heap ads queue a m c.1 e)

-- The linked call returned what the list's call returns, with a queue that stands for its list.
unfoldable pub Agrees : Option (Bool × Heap × Queue.Queue) → Bool × List Message → Type 0
Agrees none expected = ⊥
Agrees (some (result, heap, q)) (expected, queue) = (result ≡ expected) × Represents heap q queue

Agrees-Pushes :
    (heap : Heap) (ads : List Address) (queue : List Message)
    (o : Option (Bool × Heap × Queue.Queue))
    → ((b : Address) → Pushes heap b ads o)
    → Carries heap ads queue
    → Agrees o (true, queue)
unfolding Agrees
Agrees-Pushes heap ads queue none p c = absurd (p 0)
Agrees-Pushes heap ads queue (some (result, heap1, q1)) p c = (
  (p 0).0,
  record {
    addresses = ads;
    holds = (p 0).1;
    carries = Carries-payload heap heap1 ads queue (λ b. (p b).2) c;
  },
)

-- A queue in the heap that stands for a list of messages takes an allocated message that it does not
-- hold as the list does: rtmp_queue_push returns the same, and the queue stands for the list
-- behind the push, be it full or not.
pub push-Agrees :
    (heap : Heap) (q : Queue.Queue) (queue : List Message) (msg : Address) (m : Queue.Message)
    (n : Message) (r : Represents heap q queue)
    → heap msg ≡ some m
    → plain (some m) ≡ some n
    → Avoids msg r.addresses
    → Agrees (Queue.push msg heap q) (push n queue)
unfolding push Agrees
push-Agrees heap q queue msg m n r h e v =
    let same = Carries-length heap r.addresses queue r.carries in
    elim (Bool-cases (leb max_queue_size (length queue))) [
      | inl full ↦
          rw (full, push_full heap q msg r.addresses r.holds (ground (arith, full))) (refl, r)
      | inr room ↦ rw room (
          Agrees-Pushes heap (r.addresses ++ msg ∷ []) (queue ++ n ∷ []) _
            (λ b. push-Pushes heap q msg b m r.addresses r.holds (ground (arith, room)) h v)
            (Carries-snoc heap r.addresses queue msg n r.carries (ap plain h ∙ e)))
    ]

-- The linked call does what the list's does.
unfoldable pub Takes : Heap → List Message → Option Popped → Type 0
Takes heap [] o = o ≡ some waits
Takes heap (m ∷ queue) (some (popped a q)) =
    (plain (heap a) ≡ some m) × Represents heap q queue × Represents (update a none heap) q queue
Takes heap (m ∷ queue) _ = ⊥

Carries-update :
    (heap : Heap) (a : Address) (ads : List Address) (queue : List Message)
    → Avoids a ads
    → Carries heap ads queue
    → Carries (update a none heap) ads queue
unfolding Carries Avoids
Carries-update heap a [] [] v c = tt
Carries-update heap a [] (m ∷ queue) v c = absurd c
Carries-update heap a (b ∷ ads) [] v c = absurd c
Carries-update heap a (b ∷ ads) (m ∷ queue) v c =
    (ap plain (update-other a b none heap v.0) ∙ c.0, Carries-update heap a ads queue v.1 c.1)

Takes-Pops :
    (heap : Heap) (a : Address) (ads : List Address) (m : Message) (queue : List Message)
    (o : Option Popped)
    → Pops heap a ads o
    → Avoids a ads
    → Carries heap (a ∷ ads) (m ∷ queue)
    → Takes heap (m ∷ queue) o
unfolding Takes Carries Holds
Takes-Pops heap a ads m queue none p v c = absurd p
Takes-Pops heap a ads m queue (some waits) p v c = absurd p
Takes-Pops heap a ads m queue (some (popped b q)) (e, (chain, t, n, d)) v c = rw e (
  c.0,
  record { addresses = ads; holds = (chain, t, n, d); carries = c.1 },
  record {
    addresses = ads;
    holds = (Chain-update heap a none q.head ads v chain, t, n, d);
    carries = Carries-update heap a ads queue v c.1;
  },
)

pop-held :
    (heap : Heap) (q : Queue.Queue) (ads : List Address) (queue : List Message)
    → Holds heap q ads
    → Carries heap ads queue
    → Takes heap queue (pop heap q)
unfolding Takes Carries Holds Distinct
pop-held heap q [] [] h c = pop-waits heap q h
pop-held heap q [] (m ∷ queue) h c = absurd c
pop-held heap q (a ∷ ads) [] h c = absurd c
pop-held heap q (a ∷ ads) (m ∷ queue) h c =
    Takes-Pops heap a ads m queue (pop heap q) (pop-Pops heap q a ads h) h.3.0 c

-- A queue in the heap that stands for a list of messages gives them as the list does: rtmp_queue_pop
-- waits exactly where the list is empty, and otherwise takes a message that carries the list's
-- first one; the queue then stands for the rest, also once that message is freed.
pub pop-Takes :
    (heap : Heap) (q : Queue.Queue) (queue : List Message)
    → Represents heap q queue
    → Takes heap queue (pop heap q)
pop-Takes heap q queue r = pop-held heap q r.addresses queue r.holds r.carries
