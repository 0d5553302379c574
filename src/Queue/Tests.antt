-- ===== src/Queue/Tests.antt =====
-- Runs of the message queue of rtmp_core.c on a heap of three messages, and the theorems at them.
use rtmpcamera.Prelude.{
  ℕ, zero, suc, ◌≡◌, refl, sym, false, Option, none, some, List, [], ◌∷◌, length, arith, ◌≤◌, ap,
}
use rtmpcamera.Queue.{Address, Heap, Message, Queue, init, push, pop, waits, destroy, freed}
use rtmpcamera.Queue.Chain.{Chain, Avoids, Distinct, last_of, Holds}
use rtmpcamera.Queue.Destroy.{without, destroy-without}
use rtmpcamera.Queue.Fifo.{Pops, Pushes, pop-Pops, pop-waits, push_full, push-Pushes}

abbrev frame : (stamp : ℕ) → Option Address → Message
frame stamp next = record {
  contents = 1 ∷ 2 ∷ [];
  type = 9;
  timestamp = stamp;
  stream_id = 1;
  next = next;
}

-- 7 points to 8; 9 is free-standing, with an old link.
abbrev heap : Heap
heap (suc (suc (suc (suc (suc (suc (suc zero))))))) = some (frame 10 (some 8))
heap (suc (suc (suc (suc (suc (suc (suc (suc zero)))))))) = some (frame 20 none)
heap (suc (suc (suc (suc (suc (suc (suc (suc (suc zero))))))))) = some (frame 30 (some 7))
heap a = none

abbrev two : Queue
two = record { head = some 7; tail = some 8; count = 2 }

two-Holds : Holds heap two (7 ∷ 8 ∷ [])
unfolding Holds Chain Distinct Avoids last_of
two-Holds = (
  (refl, (frame 10 (some 8), refl, (refl, (frame 20 none, refl, refl)))),
  refl,
  refl,
  ((omega arith, tt), (tt, tt)),
)

pop-Pops_run : Pops heap 7 (8 ∷ []) (pop heap two)
pop-Pops_run = pop-Pops heap two 7 (8 ∷ []) two-Holds

init-Holds : Holds heap init []
unfolding Holds Chain Distinct last_of init
init-Holds = (refl, refl, refl, tt)

pop-waits_run : pop heap init ≡ some waits
pop-waits_run = pop-waits heap init init-Holds

push-Pushes_run : Pushes heap 8 (7 ∷ 8 ∷ 9 ∷ []) (push 9 heap two)
unfolding Avoids
push-Pushes_run =
    push-Pushes heap two 9 8 (frame 30 (some 7)) (7 ∷ 8 ∷ []) two-Holds (omega arith) refl
      (omega arith, (omega arith, tt))

-- The addresses from `a` on, in a heap that links each to the next down to 0.
unfoldable down : ℕ → List Address
down zero = []
down (suc n) = n ∷ down n

abbrev link_down : ℕ → Option Address
link_down zero = none
link_down (suc n) = some n

abbrev chained : Heap
chained a = some (frame a (link_down a))

abbrev full : Queue
full = record { head = some 999; tail = some 0; count = 1000 }

length-down : (n : ℕ) → length (down n) ≡ n
unfolding down
length-down zero = refl
length-down (suc n) = ap suc (length-down n)

down-Chain : (n : ℕ) → Chain chained (link_down n) (down n)
unfolding down Chain
down-Chain zero = refl
down-Chain (suc n) = (refl, (frame n (link_down n), refl, down-Chain n))

down-Avoids : (n a : ℕ) → n ≤ a → Avoids a (down n)
unfolding down Avoids
down-Avoids zero a h = tt
down-Avoids (suc n) a h = (omega arith, down-Avoids n a (omega arith))

down-Distinct : (n : ℕ) → Distinct (down n)
unfolding down Distinct
down-Distinct zero = tt
down-Distinct (suc n) = (down-Avoids n n (omega arith), down-Distinct n)

last_of-down : (n : ℕ) → last_of (down (suc n)) ≡ some 0
unfolding down last_of
last_of-down zero = refl
last_of-down (suc n) = last_of-down n

full-Holds : Holds chained full (down 1000)
unfolding Holds
full-Holds =
    (down-Chain 1000, sym (last_of-down 999), omega (arith, length-down 1000), down-Distinct 1000)

push-full_run : push 2000 chained full ≡ some (false, chained, full)
push-full_run = push_full chained full 2000 (down 1000) full-Holds (omega (arith, length-down 1000))

destroy-without_example : destroy 2 heap two.head ≡ freed (without (7 ∷ 8 ∷ []) heap)
destroy-without_example = destroy-without 2 heap two (7 ∷ 8 ∷ []) two-Holds (omega arith)
