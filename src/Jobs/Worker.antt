-- ===== src/Jobs/Worker.antt =====
-- QueryWorker (backend/src/infrastructure/workers/query_worker.py): one round of the worker, which
-- takes a message, checks the database out, executes the query, logs it and settles the job.
--
-- What the outside decides in a round is in `Env`. The dequeue and the reading of the transaction may
-- raise; status updates, the locks and acknowledgements are taken to succeed; the others fail where
-- `Env` says so. Times are
-- microseconds. Exceptions are those of Python 3.10 (backend/Dockerfile), where
-- `asyncio.TimeoutError` is not the built-in `TimeoutError`.
mod Answers
mod Checkout
mod Log
pub mod Rounds
pub mod Settled
pub mod Indexes
pub mod Wal
pub mod Unlogged
pub mod Shapes
unfoldable pub use Answers.*
unfoldable pub use Checkout.*
unfoldable pub use Log.*
use kuzu_event_bus.Prelude.{
  ℕ, ◌+◌, ◌*◌, ◌/◌, String, Bool, true, false, not, Option, none, some, List, [], ◌∷◌, ◌++◌, length,
  contains, ◌==◌, nat_key, string_key, if◌then◌else◌,
}
use kuzu_event_bus.Dict
use kuzu_event_bus.Text.{Text, text, strip, upper, starts_with_any}
use kuzu_event_bus.Jobs.Transactions.{
  Transaction, TransactionStatus, running, completed, failed, timeout, find_by_id,
}
use kuzu_event_bus.Jobs.Queue.{Message, dequeue_transaction}
use kuzu_event_bus.Jobs.Locks.{Resource, acquire_lock, release_lock}
use kuzu_event_bus.Jobs.World.{
  World, Row, WalEntry, WalKey, wal_hash_key, Event, set_status, acknowledge, entries_of,
}

-- `_emit_event` swallows its failures.
unfoldable pub emit_event : Env → ℕ → Event → World → World
emit_event env tenant event w = if env.emit_fails then w else record w {
  events = Dict.put w.events tenant (entries_of (Dict.get w.events tenant) ++ event ∷ []);
}

-- `None if not parameters else json.loads(parameters)`, the parameters kept as their JSON text.
abbrev pub loads : String → Option String
loads parameters = if parameters == "" then none else some parameters

-- From RUNNING to the executor's answer, once it has been logged.
abbrev pub execute_after :
    Env → Message → Transaction → Result (Unit {0}) × World → Result Answer × World
execute_after env m tx (err e, w) = (err e, w)
execute_after env m tx (ok _, w) = (
  inspect (
      env.execute_query m.tenant_id tx.database_id tx.query (loads tx.parameters)
        tx.timeout_seconds),
  w,
)

unfoldable pub perform : Env → Message → Transaction → World → Result Answer × World
perform env m tx w =
    execute_after env m tx
      (ensure_local_db env tx.database_id (set_status env.started m.transaction_id running 0 "" w))

-- The rest of the `try` body.
abbrev pub completed_event : Message → Transaction → List Row → Event
completed_event m tx found = record {
  event_type = "completed";
  transaction_id = m.transaction_id;
  database_id = some tx.database_id;
  rows_count = some (length found);
  error = none;
}

unfoldable pub log_mutation : Env → Message → Transaction → List Row → World → World
log_mutation env m tx found w =
    if is_mutating tx.query
    then append_wal_entry env m.tenant_id tx.database_id tx.query (loads tx.parameters) found w
    else w

unfoldable pub cache_results : Env → ℕ → List Row → World → World
cache_results env id found w =
    if env.cache_fails then w else record w { results = Dict.put w.results id found }

unfoldable pub succeed : Env → Message → Transaction → Answer → World → World
succeed env m tx answer w =
    let found = normalise_rows answer in
    let logged = log_mutation env m tx found w in
    let settled = set_status env.settled m.transaction_id completed (length found) "" logged in
    let cached = cache_results env m.transaction_id found settled in
    acknowledge m.message_id (emit_event env m.tenant_id (completed_event m tx found) cached)

-- The `except` clauses.
abbrev pub status_of : Exc → TransactionStatus
status_of (asyncio_timeout _) = timeout
status_of _ = failed

abbrev pub kind_of : Exc → String
kind_of (asyncio_timeout _) = "timeout"
kind_of _ = "failed"

abbrev pub error_event : Message → Transaction → Exc → Event
error_event m tx e = record {
  event_type = kind_of e;
  transaction_id = m.transaction_id;
  database_id = some tx.database_id;
  rows_count = none;
  error = some (message_of e);
}

unfoldable pub recover : Env → Message → Transaction → Exc → World → World
recover env m tx e w =
    let settled = set_status env.settled m.transaction_id (status_of e) 0 (message_of e) w in
    acknowledge m.message_id (emit_event env m.tenant_id (error_event m tx e) settled)

abbrev pub settle : Env → Message → Transaction → Result Answer × World → World
settle env m tx (ok answer, w) = succeed env m tx answer w
settle env m tx (err e, w) = recover env m tx e w

abbrev pub process : Env → Message → Option Transaction → World → World
process env m none w = acknowledge m.message_id w
process env m (some tx) w = settle env m tx (perform env m tx w)

abbrev pub receive : Env → Option Message → World → World
receive env none w = w
receive env (some m) w = process env m (find_by_id m.transaction_id w.transactions) w

-- When reading the transaction raises, the `except` clauses write its status and then read
-- `database_id`, which has no value yet: that error leaves the method before the message is
-- acknowledged.
abbrev pub unread : Env → Exc → Option Message → World → Result (Unit {0}) × World
unread env e none w = (ok tt, w)
unread env e (some m) w = (
  err unbound_database_id,
  set_status env.settled m.transaction_id (status_of e) 0 (message_of e) w,
)

-- When the dequeue itself raises, they read `tx_id`, which has no value yet.
abbrev pub take_message : Env → Option ReadFault → World → Result (Unit {0}) × World
take_message env (some dequeue_raises) w = (err unbound_local, w)
take_message env (some (find_raises e)) w =
    let (found, queue) = dequeue_transaction w.queue in
    unread env e found (record w { queue = queue })
take_message env none w =
    let (found, queue) = dequeue_transaction w.queue in
    (ok tt, receive env found (record w { queue = queue }))

unfoldable pub run_once : Env → World → Result (Unit {0}) × World
run_once env w = take_message env env.read_fault w

-- `run_forever` over the rounds that the environment grants: an error ends the loop.
abbrev pub after_round :
    Result (Unit {0}) × World → (World → Result (Unit {0}) × World) → Result (Unit {0}) × World
after_round (ok _, w) next = next w
after_round (err e, w) next = (err e, w)

unfoldable pub run_forever : List Env → World → Result (Unit {0}) × World
run_forever [] w = (ok tt, w)
run_forever (env ∷ envs) w = after_round (run_once env w) (run_forever envs)
