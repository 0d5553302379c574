-- ===== src/Queue.antt =====
-- rtmp_core.c: the queue of messages, a list linked through `next` in a heap.
--
-- An address is a number, NULL is `none`. The heap gives the message at an address, `none` where none
-- is allocated. A run that follows a pointer to no message is `none`. The mutex is held for the
-- whole of each operation, which is therefore one step.
pub mod Chain
pub mod Fifo
pub mod Destroy
mod Tests
use rtmpcamera.Prelude.{
  ℕ, zero, suc, ◌+◌, ◌-◌, Bool, true, false, Option, none, some, List, if◌then◌else◌, ◌==◌, leb,
  ◌>>=◌,
}

abbrev pub Bytes : Type 0
Bytes = List ℕ

abbrev pub Address : Type 0
Address = ℕ

-- `rtmp_message_t`
pub record Message : Type 0 where
  pub contents : Bytes
  pub type : ℕ
  pub timestamp : ℕ
  pub stream_id : ℕ
  pub next : Option Address

abbrev pub Heap : Type 0
Heap = Address → Option Message

-- `rtmp_queue_t`
pub record Queue : Type 0 where
  pub head : Option Address
  pub tail : Option Address
  pub count : ℕ

abbrev pub max_queue_size : ℕ
max_queue_size = 1000

unfoldable pub init : Queue
init = record { head = none; tail = none; count = 0 }

-- `heap[a] = m`
unfoldable pub update : Address → Option Message → Heap → Heap
update a m heap b = if b == a then m else heap b

-- `a->next = next`
unfoldable pub set_next : Address → Option Address → Heap → Option Heap
unfolding update
set_next a next heap = do m ← heap a; some (update a (some (record m { next = next })) heap)

-- `tail->next = msg`, or `head = msg` in an empty queue
unfoldable pub link : Option Address → Address → Heap → Queue → Option (Heap × Queue)
unfolding set_next
link none msg heap q = some (heap, record q { head = some msg })
link (some tail) msg heap q = do heap1 ← set_next tail (some msg) heap; some (heap1, q)

-- rtmp_queue_push: its result, the heap and the queue
unfoldable pub push : Address → Heap → Queue → Option (Bool × Heap × Queue)
unfolding set_next link
push msg heap q = if leb max_queue_size q.count then some (false, heap, q) else do
  heap1 ← set_next msg none heap
  linked ← link q.tail msg heap1 q
  some (true, linked.0, record linked.1 { tail = some msg; count = linked.1.count + 1 })

-- What rtmp_queue_pop does: it waits while the queue is empty.
pub data Popped : Type 0 where
  waits : Popped
  popped : Address → Queue → Popped

unfoldable pub pop : Heap → Queue → Option Popped
pop heap q = if q.count == 0 then some waits else do
  msg ← q.head
  m ← heap msg
  some (
      popped msg (record q {
        head = m.next;
        tail = elim m.next [ none ↦ none | some n ↦ q.tail ];
        count = q.count - 1;
      }))

pub data Freed : Type 0 where
  freed : Heap → Freed
  dangling out_of_fuel : Freed

-- The loop of rtmp_queue_destroy from `msg` on: a message is read, then freed.
unfoldable pub destroy : (fuel : ℕ) → Heap → (msg : Option Address) → Freed
unfolding update
destroy fuel heap none = freed heap
destroy zero heap (some msg) = out_of_fuel
destroy (suc fuel) heap (some msg) = elim (heap msg) [
  | none ↦ dangling
  | some m ↦ destroy fuel (update msg none heap) m.next
]
