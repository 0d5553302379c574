-- ===== src/Queue/Destroy.antt =====
-- rtmp_core.c: rtmp_queue_destroy frees each message of the queue once.
use rtmpcamera.Prelude.{
  ℕ, zero, suc, ◌≤◌, ◌≡◌, refl, Option, none, some, List, [], ◌∷◌, length, arith,
}
use rtmpcamera.Queue.{Address, Heap, Message, Queue, update, freed, destroy}
use rtmpcamera.Queue.Chain.{Chain, Distinct, Holds, Chain-update}

-- The heap without the messages at these addresses.
unfoldable pub without : List Address → Heap → Heap
without [] heap = heap
without (a ∷ ads) heap = without ads (update a none heap)

destroy-some :
    (fuel : ℕ) (heap : Heap) (a : Address) (m : Message)
    → heap a ≡ some m
    → destroy (suc fuel) heap (some a) ≡ destroy fuel (update a none heap) m.next
unfolding destroy
destroy-some fuel heap a m e = ground (arith, e)

destroy-Chain :
    (fuel : ℕ) (heap : Heap) (p : Option Address) (ads : List Address)
    → Chain heap p ads
    → Distinct ads
    → length ads ≤ fuel
    → destroy fuel heap p ≡ freed (without ads heap)
unfolding destroy Chain Distinct without
destroy-Chain zero heap p [] c d h = rw c refl
destroy-Chain (suc fuel) heap p [] c d h = rw c refl
destroy-Chain zero heap p (a ∷ ads) c d h = absurd (omega arith)
destroy-Chain (suc fuel) heap p (a ∷ ads) (e, (m, there, c)) d h =
    rw (e, destroy-some fuel heap a m there)
      (destroy-Chain fuel (update a none heap) m.next ads
        (Chain-update heap a none m.next ads d.0 c) d.1 (omega arith))

-- With fuel for the queue's messages, rtmp_queue_destroy ends, reads no freed message, and frees the
-- messages that the queue holds and no other.
pub destroy-without :
    (fuel : ℕ) (heap : Heap) (q : Queue) (ads : List Address)
    → Holds heap q ads
    → length ads ≤ fuel
    → destroy fuel heap q.head ≡ freed (without ads heap)
unfolding Holds
destroy-without fuel heap q ads (c, t, n, d) h = destroy-Chain fuel heap q.head ads c d h
