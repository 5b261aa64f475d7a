-- ===== src/Jobs/Worker/Checkout.antt =====
-- What the outside decides in a round of the worker, and the checkout of a database to the worker's
-- disk (backend/src/infrastructure/workers/query_worker.py, `_ensure_local_db`).
use kuzu_event_bus.Prelude.{
  ℕ, String, Bool, not, Option, none, some, List, [], ◌∷◌, contains, nat_key, string_key,
  if◌then◌else◌,
}
use kuzu_event_bus.Text.{Text}
use kuzu_event_bus.Jobs.Locks.{Resource, acquire_lock, release_lock}
use kuzu_event_bus.Jobs.World.{World, wal_hash_key}
use kuzu_event_bus.Jobs.Worker.Answers.{Exc, timeout_error, exception, Result, ok, err, Answer}

-- What may raise before the worker has a transaction: the dequeue, or reading the transaction.
pub data ReadFault : Type 0 where
  dequeue_raises : ReadFault
  find_raises : Exc → ReadFault

pub record Env : Type 0 where
  pub read_fault : Option ReadFault
  pub started : ℕ
  pub checked_out : ℕ
  pub logged : ℕ
  pub settled : ℕ
  pub data_dir_set : Bool
  pub listing_fault : Option String
  pub snapshot_keys : List String
  pub checkout_token : ℕ
  pub download_fault : Option String
  pub extract_fault : Option String
  pub execute_query : ℕ → ℕ → Text → Option String → ℕ → Result Answer
  pub wal_token : ℕ
  pub wal_read_fails : Bool
  pub wal_upload_fails : Bool
  pub cache_fails : Bool
  pub emit_fails : Bool

-- `_ensure_local_db`. The directory is made between the download and the extraction.
abbrev pub checkout_lock : ℕ → Resource
checkout_lock database = record { purpose = "checkout"; id = database }

abbrev pub or_ok : Option String → Result (Unit {0})
or_ok none = ok tt
or_ok (some fault) = err (exception fault)

abbrev pub materialise : Option String → Option String → ℕ → World → Result (Unit {0}) × World
materialise (some fault) extract_fault database w = (err (exception fault), w)
materialise none extract_fault database w =
    (or_ok extract_fault, record w { local_dbs = database ∷ w.local_dbs })

abbrev pub checkout_locked : Env → ℕ → Option ℕ → World → Result (Unit {0}) × World
checkout_locked env database none w =
    (err (timeout_error "Could not acquire database checkout lock"), w)
checkout_locked env database (some token) w =
    let (r, w') = materialise env.download_fault env.extract_fault database w in
    (
      r,
      record w' {
        locks = (release_lock env.checked_out (checkout_lock database) token w'.locks).1;
      },
    )

abbrev pub from_snapshot : Env → ℕ → Option String → List String → World → Result (Unit {0}) × World
from_snapshot env database (some fault) keys w = (err (exception fault), w)
from_snapshot env database none [] w = (ok tt, record w { local_dbs = database ∷ w.local_dbs })
from_snapshot env database none (latest ∷ older) w =
    let (token, locks) =
      acquire_lock env.checked_out env.checkout_token (checkout_lock database) 30000000 w.locks in
    checkout_locked env database token (record w { locks = locks })

unfoldable pub ensure_local_db : Env → ℕ → World → Result (Unit {0}) × World
ensure_local_db env database w =
    if not env.data_dir_set
    then (err (exception "KUZU_DATA_DIR must be set for query execution"), w)
    else if contains database w.local_dbs
    then (ok tt, w)
    else from_snapshot env database env.listing_fault env.snapshot_keys w
