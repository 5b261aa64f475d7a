-- ===== src/Jobs/Queue/Delivery.antt =====
-- What consumers of the queue can rely on over any calls (RedisTransactionQueue).
use kuzu_event_bus.Prelude.{ℕ, ◌<◌, ◌≡◌, refl, Option, none, some, List, [], ◌∷◌, arith, nat_key}
use kuzu_event_bus.Jobs.Queue.{
  Message, Queue, enqueue_transaction, started, first_after, deliver, ensure_group,
  dequeue_transaction, acknowledge_transaction,
}

-- The calls that the service takes, from producers and consumers in any order.
pub data Call : Type 0 where
  enqueue : ℕ → ℕ → ℕ → Call
  dequeue : Call
  acknowledge : ℕ → Call

-- The entry ids that a run of calls delivers, in order.
abbrev shown : Option Message → List ℕ → List ℕ
shown none rest = rest
shown (some m) rest = m.message_id ∷ rest

pub deliveries : ℕ → List Call → Queue → List ℕ
deliveries max_length [] q = []
deliveries max_length (enqueue tx tenant priority ∷ calls) q =
    deliveries max_length calls (enqueue_transaction max_length tx tenant priority q).1
deliveries max_length (dequeue ∷ calls) q =
    let (found, q') = dequeue_transaction q in shown found (deliveries max_length calls q')
deliveries max_length (acknowledge id ∷ calls) q =
    deliveries max_length calls (acknowledge_transaction id q).1

-- Ids that increase from a bound on.
abbrev pub Increasing : ℕ → List ℕ → Type 0
Increasing low [] = Unit
Increasing low (x ∷ xs) = (low < x) × Increasing x xs

first_after-lt :
    (last : ℕ) (ms : List Message) {m : Message}
    → first_after last ms ≡ some m
    → last < m.message_id
first_after-lt last [] h = cc
first_after-lt last (x ∷ ms) {m} h = ground (arith, first_after-lt last ms {m = m})

-- Whatever is enqueued or acknowledged in between, the entries delivered to the group have strictly
-- increasing ids: none is delivered twice, and none out of order.
pub deliveries_increase :
    (max_length : ℕ) (calls : List Call) (q : Queue)
    → Increasing (started q.group) (deliveries max_length calls q)
unfolding deliveries enqueue_transaction dequeue_transaction acknowledge_transaction
deliveries_increase max_length [] q = tt
deliveries_increase max_length (enqueue tx tenant priority ∷ calls) q =
    deliveries_increase max_length calls (enqueue_transaction max_length tx tenant priority q).1
deliveries_increase max_length (dequeue ∷ calls) q =
    step (first_after (started q.group) q.entries) refl
      (λ q'. deliveries_increase max_length calls q')
  where
    step :
        (found : Option Message)
        → first_after (started q.group) q.entries ≡ found
        → ((q' : Queue) → Increasing (started q'.group) (deliveries max_length calls q'))
        → Increasing (started q.group) (
            shown
              (deliver found (ensure_group q)).0
              (deliveries max_length calls (deliver found (ensure_group q)).1))
    step none e rec = rec (ensure_group q)
    step (some m) e rec =
        (first_after-lt (started q.group) q.entries e, rec (deliver (some m) (ensure_group q)).1)
deliveries_increase max_length (acknowledge id ∷ calls) q =
    deliveries_increase max_length calls (acknowledge_transaction id q).1
