-- ===== src/Jobs/World.antt =====
-- The shared state that the API's use cases and the worker act on: the transaction repository, the
-- queue, the locks, the results cache (`tx_results:{id}`), the status cache (`tx_status:{id}`), the
-- event streams, the WAL objects in MinIO, and which databases are checked out locally.
use kuzu_event_bus.Prelude.{
  ℕ, ◌≡◌, ◌↔◌, String, Bool, ◌&&◌, Option, none, some, List, [], arith, HashKey, nat_beq, nat_key,
  true,
}
use kuzu_event_bus.Dict.{Dict}
use kuzu_event_bus.Text.{Text}
use kuzu_event_bus.Jobs.Transactions.{Store, Transaction, TransactionStatus, update_status}
use kuzu_event_bus.Jobs.Queue.{Queue, acknowledge_transaction}
use kuzu_event_bus.Jobs.Locks.{LockStore}

-- A result row as its JSON text.
abbrev pub Row : Type 0
Row = String

-- One line of a WAL object. Its time is in microseconds.
pub record WalEntry : Type 0 where
  pub ts : ℕ
  pub query : Text
  pub parameters : Option String
  pub results : List Row

-- `tenants/{tenant}/{database}/wal/wal-{second}.log`
pub record WalKey : Type 0 where
  pub tenant_id : ℕ
  pub database_id : ℕ
  pub second : ℕ

abbrev pub same_wal_key : WalKey → WalKey → Bool
same_wal_key a b =
    nat_beq a.tenant_id b.tenant_id
    && nat_beq a.database_id b.database_id
    && nat_beq a.second b.second

pub same_wal_key_iff : (a b : WalKey) → (same_wal_key a b ≡ true) ↔ (a ≡ b)
same_wal_key_iff a b = ground arith

instance abbrev pub wal_hash_key : HashKey WalKey
wal_hash_key = record { same = same_wal_key; same_exact = same_wal_key_iff }

-- What goes to the stream `events:{tenant}`, less its texts; the last three are fields that some
-- kinds have. When an approximate MAXLEN trims a stream is left to Redis and not modelled.
pub record Event : Type 0 where
  pub event_type : String
  pub transaction_id : ℕ
  pub database_id : Option ℕ
  pub rows_count : Option ℕ
  pub error : Option String

pub record World : Type 0 where
  pub transactions : Store
  pub queue : Queue
  pub locks : LockStore
  pub results : Dict ℕ (List Row)
  pub statuses : Dict ℕ Transaction
  pub events : Dict ℕ (List Event)
  pub wal : Dict WalKey (List WalEntry)
  pub local_dbs : List ℕ

abbrev pub set_status : ℕ → ℕ → TransactionStatus → ℕ → String → World → World
set_status now id status count message w = record w {
  transactions = (update_status now id status count message w.transactions).1;
}

abbrev pub acknowledge : ℕ → World → World
acknowledge message_id w = record w { queue = (acknowledge_transaction message_id w.queue).1 }

abbrev pub entries_of {ℓ} : {A : Type ℓ} → Option (List A) → List A
entries_of none = []
entries_of (some xs) = xs
