-- ===== src/Jobs/Requests.antt =====
-- The use cases of the API on jobs: SubmitAsyncQueryUseCase, CancelQueryUseCase,
-- GetQueryStatusUseCase and GetQueryResultsUseCase (backend/src/application/usecases). The
-- authorization service's answer is the argument `allowed`. The Redis calls of these use cases are
-- taken to succeed.
pub mod Ownership
pub mod Lifecycle
pub mod Cancellation
use kuzu_event_bus.Prelude.{
  ℕ, String, Bool, true, false, not, ◌&&◌, ◌||◌, Option, none, some, List, [], ◌∷◌, ◌++◌, ◌==◌,
  nat_key, if◌then◌else◌,
}
use kuzu_event_bus.Dict
use kuzu_event_bus.Text.{Text}
use kuzu_event_bus.Jobs.Transactions.{
  Transaction, TransactionStatus, pending, running, completed, failed, save_transaction, find_by_id,
  update_status,
}
use kuzu_event_bus.Jobs.Queue.{enqueue_transaction}
use kuzu_event_bus.Jobs.Locks.{Resource, acquire_lock, release_lock}
use kuzu_event_bus.Jobs.World.{World, Row, Event, set_status, entries_of}

pub data RequestError : Type 0 where
  permission_error value_error runtime_error : RequestError

pub data Reply (A : Type 0) : Type 0 where
  ok : A → Reply A
  raised : RequestError → Reply A

pub record SubmitAsyncQueryRequest : Type 0 where
  pub tenant_id : ℕ
  pub database_id : ℕ
  pub query : Text
  pub parameters : Option String
  pub timeout_seconds : ℕ
  pub priority : ℕ

-- json.dumps(req.parameters or {})
abbrev pub dumps : Option String → String
dumps none = "{}"
dumps (some parameters) = parameters

-- `id` is the fresh uuid4. Recording the usage in the catalog changes nothing here, and its
-- failures are swallowed.
unfoldable pub submit : ℕ → ℕ → ℕ → SubmitAsyncQueryRequest → World → Reply ℕ × World
submit now id max_length req w =
    let saved =
      save_transaction now id req.tenant_id req.database_id req.query (dumps req.parameters) pending
        req.timeout_seconds w.transactions in
    let (_, queue) = enqueue_transaction max_length id req.tenant_id req.priority w.queue in
    (ok id, record w { transactions = saved; queue = queue })

abbrev pub is_cancellable : TransactionStatus → Bool
is_cancellable pending = true
is_cancellable running = true
is_cancellable _ = false

abbrev pub cancelled_event : ℕ → Event
cancelled_event id = record {
  event_type = "query_cancelled";
  transaction_id = id;
  database_id = none;
  rows_count = none;
  error = none;
}

abbrev pub transaction_lock : ℕ → Resource
transaction_lock id = record { purpose = "transaction"; id = id }

-- Under the lock: mark the transaction, drop both cache entries, notify the tenant.
abbrev pub cancel_locked : ℕ → ℕ → ℕ → Option ℕ → World → Reply Bool × World
cancel_locked now tenant id none w = (raised runtime_error, w)
cancel_locked now tenant id (some token) w =
    let w1 = set_status now id failed 0 "Cancelled by user" w in
    let w2 : World = record w1 {
      statuses = Dict.remove w1.statuses id;
      results = Dict.remove w1.results id;
      events =
          Dict.put w1.events tenant
            (entries_of (Dict.get w1.events tenant) ++ cancelled_event id ∷ []);
      locks = (release_lock now (transaction_lock id) token w1.locks).1;
    } in
    (ok true, w2)

abbrev pub cancel_found : ℕ → ℕ → ℕ → ℕ → Option Transaction → World → Reply Bool × World
cancel_found now token tenant id none w = (ok false, w)
cancel_found now token tenant id (some tx) w =
    if not (tx.tenant_id == tenant) || not (is_cancellable tx.status)
    then (ok false, w)
    else (let (got, locks) = acquire_lock now token (transaction_lock id) 5000000 w.locks in
        cancel_locked now tenant id got (record w { locks = locks }))

unfoldable pub cancel : Bool → ℕ → ℕ → ℕ → ℕ → World → Reply Bool × World
cancel allowed now token tenant id w =
    if allowed
    then cancel_found now token tenant id (find_by_id id w.transactions) w
    else (raised permission_error, w)

-- GetQueryStatusUseCase: an entry of the status cache that is the tenant's own is served as it is.
abbrev pub owned_by : ℕ → Option Transaction → Bool
owned_by tenant none = false
owned_by tenant (some tx) = tx.tenant_id == tenant

abbrev pub status_found : ℕ → ℕ → Option Transaction → World → Reply (Option Transaction) × World
status_found tenant id none w = (ok none, w)
status_found tenant id (some tx) w =
    if tx.tenant_id == tenant
    then (ok (some tx), record w { statuses = Dict.put w.statuses id tx })
    else (raised permission_error, w)

unfoldable pub query_status : Bool → ℕ → ℕ → World → Reply (Option Transaction) × World
query_status allowed tenant id w =
    let cached = Dict.get w.statuses id in
    if not allowed
    then (raised permission_error, w)
    else if owned_by tenant cached
    then (ok cached, w)
    else status_found tenant id (find_by_id id w.transactions) w

-- GetQueryResultsUseCase
abbrev pub is_completed : TransactionStatus → Bool
is_completed completed = true
is_completed _ = false

abbrev pub results_found : ℕ → ℕ → Option Transaction → World → Reply (Option (List Row))
results_found tenant id none w = ok none
results_found tenant id (some tx) w =
    if not (tx.tenant_id == tenant)
    then raised permission_error
    else if not (is_completed tx.status)
    then raised value_error
    else ok (Dict.get w.results id)

unfoldable pub query_results : Bool → ℕ → ℕ → World → Reply (Option (List Row))
query_results allowed tenant id w =
    if allowed
    then results_found tenant id (find_by_id id w.transactions) w
    else raised permission_error
