-- ===== src/Connection/Linked/Tests.antt =====
-- The theorems about the linked queue of rtmp_core.c and its list, on a heap of three messages.
use rtmpcamera.Prelude.{ℕ, refl, Option, none, some, [], ◌∷◌, arith, ◌==◌, if◌then◌else◌}
use rtmpcamera.Queue
use rtmpcamera.Queue.{Address, Heap, pop}
use rtmpcamera.Queue.Chain.{Chain, Avoids, Distinct, last_of, Holds}
use rtmpcamera.Connection.{Message, push}
use rtmpcamera.Connection.Linked.{Carries, Represents, Agrees, Takes, push-Agrees, pop-Takes}

abbrev linked : (stamp : ℕ) → Option Address → Queue.Message
linked stamp next = record {
  contents = 1 ∷ 2 ∷ [];
  type = 9;
  timestamp = stamp;
  stream_id = 1;
  next = next;
}

abbrev listed : (stamp : ℕ) → Message
listed stamp = record { contents = 1 ∷ 2 ∷ []; type = 9; timestamp = stamp; stream_id = 1 }

-- 7 points to 8; 9 is free-standing, with an old link.
abbrev heap : Heap
heap a =
    if a == 7
    then some (linked 10 (some 8))
    else if a == 8
    then some (linked 20 none)
    else if a == 9
    then some (linked 30 (some 7))
    else none

abbrev two : Queue.Queue
two = record { head = some 7; tail = some 8; count = 2 }

two-Holds : Holds heap two (7 ∷ 8 ∷ [])
unfolding Holds Chain Distinct Avoids last_of
two-Holds = (
  (refl, (linked 10 (some 8), refl, (refl, (linked 20 none, refl, refl)))),
  refl,
  refl,
  ((omega arith, tt), (tt, tt)),
)

two-Carries : Carries heap (7 ∷ 8 ∷ []) (listed 10 ∷ listed 20 ∷ [])
unfolding Carries
two-Carries = (refl, (refl, tt))

abbrev represented : Represents heap two (listed 10 ∷ listed 20 ∷ [])
represented = record { addresses = 7 ∷ 8 ∷ []; holds = two-Holds; carries = two-Carries }

nine-Avoids : Avoids 9 (7 ∷ 8 ∷ [])
unfolding Avoids
nine-Avoids = (omega arith, (omega arith, tt))

push-Agrees_example : Agrees (Queue.push 9 heap two) (push (listed 30) (listed 10 ∷ listed 20 ∷ []))
push-Agrees_example =
    push-Agrees heap two (listed 10 ∷ listed 20 ∷ []) 9 (linked 30 (some 7)) (listed 30) represented
      refl refl nine-Avoids

pop-Takes_example : Takes heap (listed 10 ∷ listed 20 ∷ []) (pop heap two)
pop-Takes_example = pop-Takes heap two (listed 10 ∷ listed 20 ∷ []) represented
