-- ===== src/Queue/Chain.antt =====
-- Chains of messages in the heap, from rtmp_core.c's queue.
use rtmpcamera.Prelude.{
  ◌≡◌, ◌≢◌, refl, sym, ap, ◌∙◌, Option, none, some, List, [], ◌∷◌, ◌++◌, length, arith, ==_refl,
}
use rtmpcamera.Queue.{Address, Heap, Message, Queue, update}

-- The messages at these addresses, each pointing to the next and the last to NULL, start at `p`.
unfoldable pub Chain : Heap → (p : Option Address) → List Address → Type 0
Chain heap p [] = p ≡ none
Chain heap p (a ∷ ads) = (p ≡ some a) × ((m : Message) × (heap a ≡ some m) × Chain heap m.next ads)

unfoldable pub Avoids : Address → List Address → Type 0
Avoids b [] = Unit {0}
Avoids b (a ∷ ads) = (a ≢ b) × Avoids b ads

unfoldable pub Distinct : List Address → Type 0
Distinct [] = Unit {0}
Distinct (a ∷ ads) = Avoids a ads × Distinct ads

-- The last address, `none` of an empty list.
unfoldable pub last_of : List Address → Option Address
last_of [] = none
last_of (a ∷ []) = some a
last_of (a ∷ b ∷ ads) = last_of (b ∷ ads)

-- A queue's pointers and count are those of the chain of these addresses.
unfoldable pub Holds : Heap → Queue → List Address → Type 0
Holds heap q ads =
    Chain heap q.head ads × (q.tail ≡ last_of ads) × (q.count ≡ length ads) × Distinct ads

pub update-same : (a : Address) (m : Option Message) (heap : Heap) → update a m heap a ≡ m
unfolding update
update-same a m heap = rw (==_refl a) refl

pub update-other :
    (a b : Address) (m : Option Message) (heap : Heap) → b ≢ a → update a m heap b ≡ heap b
unfolding update
update-other a b m heap h = ground arith

-- A store elsewhere leaves a chain alone.
pub Chain-update :
    (heap : Heap) (b : Address) (m : Option Message) (p : Option Address) (ads : List Address)
    → Avoids b ads
    → Chain heap p ads
    → Chain (update b m heap) p ads
unfolding Chain Avoids
Chain-update heap b m p [] v c = c
Chain-update heap b m p (a ∷ ads) v (e, (x, there, c)) =
    (e, (x, update-other b a m heap v.0 ∙ there, Chain-update heap b m x.next ads v.1 c))

pub last_of-snoc : (ads : List Address) (b : Address) → last_of (ads ++ b ∷ []) ≡ some b
unfolding last_of
last_of-snoc [] b = refl
last_of-snoc (a ∷ []) b = refl
last_of-snoc (a ∷ c ∷ ads) b = last_of-snoc (c ∷ ads) b

Avoids-snoc : (ads : List Address) (a b : Address) → Avoids a ads → b ≢ a → Avoids a (ads ++ b ∷ [])
unfolding Avoids
Avoids-snoc [] a b v h = (h, tt)
Avoids-snoc (c ∷ ads) a b v h = (v.0, Avoids-snoc ads a b v.1 h)

pub Distinct-snoc :
    (ads : List Address) (b : Address) → Distinct ads → Avoids b ads → Distinct (ads ++ b ∷ [])
unfolding Distinct Avoids
Distinct-snoc [] b d v = (tt, tt)
Distinct-snoc (a ∷ ads) b d v =
    (Avoids-snoc ads a b d.0 (λ e. v.0 (sym e)), Distinct-snoc ads b d.1 v.1)

Avoids-last : (ads : List Address) (a t : Address) → Avoids a ads → last_of ads ≡ some t → t ≢ a
unfolding Avoids last_of
Avoids-last [] a t v e = absurd (ground (arith, e))
Avoids-last (c ∷ []) a t v e = let f : c ≡ t = ground (arith, e) in λ g. v.0 (f ∙ g)
Avoids-last (c ∷ b ∷ ads) a t v e = Avoids-last (b ∷ ads) a t v.1 e

-- Storing `b` in the last message's `next` puts `b`, which points to NULL, behind the chain.
pub Chain-snoc :
    (heap : Heap) (p : Option Address) (ads : List Address) (t b : Address) (m : Message)
    → last_of ads ≡ some t
    → Distinct ads
    → Avoids b ads
    → heap b ≡ some m
    → m.next ≡ none
    → Chain heap p ads
    → (x : Message) × (heap t ≡ some x)
      × Chain (update t (some (record x { next = some b })) heap) p (ads ++ b ∷ [])
unfolding Chain last_of Distinct Avoids
Chain-snoc heap p [] t b m l d v h n c = absurd (ground (arith, l))
Chain-snoc heap p (a ∷ []) t b m l d v h n (e, (x, there, c)) =
    let f : a ≡ t = ground (arith, l) in
    let apart : b ≢ t = λ g. v.0 (f ∙ sym g) in
    let found : heap t ≡ some x = ap heap (sym f) ∙ there in
    let y = record x { next = some b } in
    let stored : update t (some y) heap a ≡ some y =
      ap (update t (some y) heap) f ∙ update-same t (some y) heap in
    (x, found, (e, (y, stored, (refl, (m, update-other t b (some y) heap apart ∙ h, n)))))
Chain-snoc heap p (a ∷ k ∷ ads) t b m l d v h n (e, (x, there, c)) =
    let (y, last, rest) = Chain-snoc heap x.next (k ∷ ads) t b m l d.1 v.1 h n c in
    let apart : a ≢ t = λ f. Avoids-last (k ∷ ads) a t d.0 l (sym f) in
    (y, last, (e, (x, update-other t a _ heap apart ∙ there, rest)))
