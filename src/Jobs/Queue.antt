-- ===== src/Jobs/Queue.antt =====
-- RedisMessageQueueService (backend/src/infrastructure/queue/redis_queue_service.py): one Redis
-- stream and the consumer group that the workers share. Entry ids, which Redis gives out in
-- increasing order, are numbers; 0 is below them all, as the group's start id "0" is.
pub mod Delivery
use kuzu_event_bus.Prelude.{
  ℕ, ◌+◌, ◌-◌, Bool, true, false, Option, none, some, List, [], ◌∷◌, ◌++◌, not, length, drop, keep,
  ltb, ◌==◌, nat_key, if◌then◌else◌,
}

pub record Message : Type 0 where
  pub message_id : ℕ
  pub transaction_id : ℕ
  pub tenant_id : ℕ
  pub priority : ℕ

-- `group` is the last id delivered to the group, once the group has been made; `pending_ids` are
-- the delivered entries that no consumer has acknowledged.
pub record Queue : Type 0 where
  pub entries : List Message
  pub next_id : ℕ
  pub group : Option ℕ
  pub pending_ids : List ℕ

abbrev pub empty : Queue
empty = record { entries = []; next_id = 1; group = none; pending_ids = [] }

-- XADD with an exact MAXLEN: the oldest entries beyond the bound go.
unfoldable pub trim : ℕ → List Message → List Message
trim max_length entries = drop (length entries - max_length) entries

unfoldable pub enqueue_transaction : ℕ → ℕ → ℕ → ℕ → Queue → Bool × Queue
unfolding trim
enqueue_transaction max_length transaction tenant priority q =
    let message : Message = record {
      message_id = q.next_id;
      transaction_id = transaction;
      tenant_id = tenant;
      priority = priority;
    } in
    (
      true,
      record q { entries = trim max_length (q.entries ++ message ∷ []); next_id = q.next_id + 1 },
    )

-- XGROUP CREATE at id 0; BUSYGROUP, for a group that is there, is swallowed.
abbrev pub started : Option ℕ → ℕ
started none = 0
started (some last) = last

unfoldable pub ensure_group : Queue → Queue
ensure_group q = record q { group = some (started q.group) }

-- XREADGROUP `>` with COUNT 1: the first entry beyond the last one delivered.
abbrev pub first_after : ℕ → List Message → Option Message
first_after last [] = none
first_after last (m ∷ ms) =
    let rest = first_after last ms in if ltb last m.message_id then some m else rest

abbrev pub deliver : Option Message → Queue → Option Message × Queue
deliver none q = (none, q)
deliver (some m) q = (
  some m,
  record q { group = some m.message_id; pending_ids = q.pending_ids ++ m.message_id ∷ [] },
)

unfoldable pub dequeue_transaction : Queue → Option Message × Queue
unfolding ensure_group
dequeue_transaction q =
    let q' = ensure_group q in deliver (first_after (started q'.group) q'.entries) q'

-- XACK, then XDEL
unfoldable pub acknowledge_transaction : ℕ → Queue → Bool × Queue
acknowledge_transaction id q = (
  true,
  record q {
    pending_ids = keep (λ i. not (i == id)) q.pending_ids;
    entries = keep (λ (m : Message). not (m.message_id == id)) q.entries;
  },
)
