-- ===== src/Jobs/Tests.antt =====
-- A concrete job, and the worker's theorems at it.
mod Stores
mod Calls
use kuzu_event_bus.Prelude.{
  ℕ, ◌+◌, ◌<◌, ◌≡◌, ◌≢◌, ◌↔◌, ◌⊎◌, inl, inr, refl, String, Bool, true, false, Option, none, some,
  List, [], ◌∷◌, ◌++◌, arith, contains, map, length, take, drop, All, Elem, ltb, ◌==◌, nat_key,
  if◌then◌else◌, ◌≤◌,
}
use kuzu_event_bus.Dict
use kuzu_event_bus.Dict.{get, put}
use kuzu_event_bus.Text.{Text, text}
use kuzu_event_bus.Jobs.Transactions
use kuzu_event_bus.Jobs.Transactions.{
  Transaction, Store, running, completed, failed, pending, is_running, stamp, find_by_id,
  save_transaction, update_status, find_running_transactions, find_by_tenant, tenant_members,
}
use kuzu_event_bus.Jobs.Transactions.Index.{IsIndexed}
use kuzu_event_bus.Jobs.Transactions.Queries.{find_running_transactions_exact, find_by_tenant_page}
use kuzu_event_bus.Jobs.Queue
use kuzu_event_bus.Jobs.Queue.{
  Message, Queue, dequeue_transaction, enqueue_transaction, trim, started, ensure_group,
}
use kuzu_event_bus.Jobs.Queue.Delivery.{
  Increasing, deliveries, deliveries_increase, enqueue, dequeue,
}
use kuzu_event_bus.Jobs.Locks.{Resource, Lock, LockStore, holder, acquire_lock, release_lock}
use kuzu_event_bus.Jobs.Locks.Exclusion.{
  acquire_lock_free, acquire_lock_held, release_lock_other, release_lock_own,
}
use kuzu_event_bus.Jobs.World.{World, WalKey, wal_hash_key, set_status, entries_of}
use kuzu_event_bus.Jobs.Worker.{
  Env, dequeue_raises, Result, ok, err, Answer, dict, rows, perform, run_once, run_forever,
  ensure_local_db, normalise_rows, unbound_local, exception, is_mutating, wal_lock, inspect, object,
}
use kuzu_event_bus.Jobs.Worker.Shapes.{nested_rows_fail}
use kuzu_event_bus.Jobs.Worker.Settled.{job, dequeued, verdict, run_once_settles}
use kuzu_event_bus.Jobs.Worker.Indexes.{run_forever-IsIndexed}
use kuzu_event_bus.Jobs.Worker.Rounds.{run_forever_dies}
use kuzu_event_bus.Jobs.Worker.Unlogged.{match_queries_unlogged}
use kuzu_event_bus.Jobs.Worker.Wal.{run_once_logs, run_once_logs_nothing, logged_key, logged_entry}
use kuzu_event_bus.Jobs.Requests
use kuzu_event_bus.Jobs.Requests.{SubmitAsyncQueryRequest, submit, query_results}
use kuzu_event_bus.Jobs.Requests.Lifecycle.{
  submitted, submitted_tx, submitted_message, submit_run_results, job-submit,
}

abbrev pub request : SubmitAsyncQueryRequest
request = record {
  tenant_id = 1;
  database_id = 7;
  query = text "CREATE (n)";
  parameters = none;
  timeout_seconds = 30;
  priority = 0;
}

abbrev pub world : World
world = record {
  transactions = Transactions.empty;
  queue = Queue.empty;
  locks = [];
  results = [];
  statuses = [];
  events = [];
  wal = [];
  local_dbs = 7 ∷ [];
}

abbrev pub answer : Answer
answer = dict (some (rows ("row" ∷ []))) none none

abbrev pub env : Env
env = record {
  read_fault = none;
  started = 2000000;
  checked_out = 2000000;
  logged = 3000000;
  settled = 4000000;
  data_dir_set = true;
  listing_fault = none;
  snapshot_keys = [];
  checkout_token = 1;
  download_fault = none;
  extract_fault = none;
  execute_query = λ tenant database cypher parameters timeout. ok answer;
  wal_token = 2;
  wal_read_fails = false;
  wal_upload_fails = false;
  cache_fails = false;
  emit_fails = false;
}

abbrev pub start : World
start = submitted 1000000 5 10 request world env

abbrev pub message : Message
message = submitted_message 1000000 5 10 request world env

abbrev pub transaction : Transaction
transaction = submitted_tx 1000000 5 10 request world env

pub start_next : (dequeue_transaction start.queue).0 ≡ some message
unfolding submit enqueue_transaction dequeue_transaction
start_next = refl

pub job-start : job 5 start ≡ some transaction
job-start = job-submit 1000000 5 10 request world env

pub start_performed : (perform env message transaction (dequeued start)).0 ≡ ok answer
unfolding perform inspect ensure_local_db update_status submit dequeue_transaction save_transaction
start_performed = refl

pub IsIndexed-empty : IsIndexed Transactions.empty
unfolding get tenant_members
IsIndexed-empty = record { running_exact = λ id. refl; tenant_exact = λ tenant id. refl }

run_once_settles_example :
    let (r, w') = run_once env start in
    (r ≡ ok tt)
    × ((j : ℕ)
        → job j w' ≡ (
            if 5 == j
            then some (
                verdict 4000000
                  (perform env message transaction (dequeued start)).0
                  (stamp running 2000000 0 "" transaction))
            else job j start))
    × (contains 1 w'.queue.pending_ids ≡ false)
    × (contains 1 (map (λ (x : Message). x.message_id) w'.queue.entries) ≡ false)
run_once_settles_example = run_once_settles env start message transaction refl start_next job-start

submit_run_results_example :
    query_results true 1 5 (run_once env start).1 ≡ Requests.ok (some ("row" ∷ []))
unfolding normalise_rows
submit_run_results_example =
    submit_run_results 1000000 5 10 request world env answer (refl, omega arith) (omega arith) refl
      refl start_performed

run_forever-IsIndexed_example : IsIndexed (run_forever (env ∷ env ∷ []) world).1.transactions
run_forever-IsIndexed_example = run_forever-IsIndexed (env ∷ env ∷ []) world IsIndexed-empty

abbrev down : Env
down = record env { read_fault = some dequeue_raises }

run_forever_dies_example :
    run_forever ((env ∷ []) ++ down ∷ env ∷ []) start
    ≡ (err unbound_local, (run_forever (env ∷ []) start).1)
run_forever_dies_example = run_forever_dies (env ∷ []) (env ∷ []) down start (refl, tt) refl

start_mutates : is_mutating transaction.query ≡ true
unfolding is_mutating submit save_transaction
start_mutates = refl

log_free :
    holder env.logged
      (wal_lock transaction.database_id)
      (perform env message transaction (dequeued start)).1.locks
    ≡ none
unfolding perform inspect ensure_local_db update_status submit dequeue_transaction save_transaction
    holder get
log_free = refl

run_once_logs_example : Dict.get (run_once env start).1.wal (logged_key env message transaction) ≡ (
    if logged_key env message transaction == logged_key env message transaction
    then some (
        (if env.wal_read_fails
          then []
          else entries_of (Dict.get start.wal (logged_key env message transaction)))
        ++ logged_entry env message transaction (normalise_rows answer) ∷ [])
    else Dict.get start.wal (logged_key env message transaction))
run_once_logs_example =
    run_once_logs env start message transaction refl start_next job-start answer start_performed
      start_mutates log_free refl (logged_key env message transaction)

abbrev broken : Env
broken = record env {
  execute_query = λ tenant database cypher parameters timeout. err (exception "boom");
}

broken_performed : (perform broken message transaction (dequeued start)).0 ≡ err (exception "boom")
unfolding perform inspect ensure_local_db update_status submit dequeue_transaction save_transaction
broken_performed = refl

-- A query that changes data behind a MATCH.
abbrev match_request : SubmitAsyncQueryRequest
match_request = record request { query = text "MATCH (n) SET n.x = 1" }

abbrev match_start : World
match_start = submitted 1000000 5 10 match_request world env

abbrev match_transaction : Transaction
match_transaction = submitted_tx 1000000 5 10 match_request world env

match_next :
    (dequeue_transaction match_start.queue).0
    ≡ some (submitted_message 1000000 5 10 match_request world env)
unfolding submit enqueue_transaction dequeue_transaction
match_next = refl

match_queries_unlogged_example : (run_once env match_start).1.wal ≡ match_start.wal
unfolding submit save_transaction
match_queries_unlogged_example =
    match_queries_unlogged env match_start (submitted_message 1000000 5 10 match_request world env)
      match_transaction (text " (n) SET n.x = 1") refl match_next
      (job-submit 1000000 5 10 match_request world env) refl
