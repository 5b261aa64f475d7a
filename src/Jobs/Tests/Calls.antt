-- ===== src/Jobs/Tests/Calls.antt =====
-- The API's calls on a concrete job.
use kuzu_event_bus.Prelude.{◌≡◌, ◌≢◌, ◌↔◌, refl, nat_key, true, none, some, [], ◌∷◌, arith, length}
use kuzu_event_bus.Dict
use kuzu_event_bus.Dict.{get, put}
use kuzu_event_bus.Text.{Text}
use kuzu_event_bus.Jobs.Transactions.{
  completed, running, stamp, save_transaction, update_status, find_by_id,
}
use kuzu_event_bus.Jobs.Queue.{dequeue_transaction}
use kuzu_event_bus.Jobs.Locks.{acquire_lock, release_lock, holder}
use kuzu_event_bus.Jobs.World.{set_status}
use kuzu_event_bus.Jobs.Worker
use kuzu_event_bus.Jobs.Worker.{Env, run_once, perform, ensure_local_db, inspect, normalise_rows}
use kuzu_event_bus.Jobs.Worker.Settled.{job, dequeued}
use kuzu_event_bus.Jobs.Executor.{KuzuOutcome, raises, execute_query, every_query_completes}
use kuzu_event_bus.Jobs.Requests.{ok, submit, cancel, query_results}
use kuzu_event_bus.Jobs.Requests.Lifecycle.{submit_run_results}
use kuzu_event_bus.Jobs.Requests.Ownership.{query_results_exact, cancel_guarded}
use kuzu_event_bus.Jobs.Requests.Cancellation.{cancel_ineffective, cancelled, cancelled_tx}
use kuzu_event_bus.Jobs.Tests.{
  request, world, env, answer, start, message, transaction, start_next, job-start, start_performed,
}

submit_run_results_example : query_results true 1 5 (run_once env start).1 ≡ ok (some ("row" ∷ []))
unfolding normalise_rows
submit_run_results_example =
    submit_run_results 1000000 5 10 request world env answer (refl, omega arith) (omega arith) refl
      refl start_performed

query_results_exact_example : (query_results true 1 5 start ≡ ok none) ↔ (
    (true ≡ true)
    × (transaction.tenant_id ≡ 1)
    × (transaction.status ≡ completed)
    × (Dict.get start.results 5 ≡ none))
query_results_exact_example = query_results_exact true 1 5 start transaction none job-start

-- Another tenant's attempt.
cancel_guarded_example :
    ((cancel true 1500000 9 2 5 start).1 ≡ start) × ((cancel true 1500000 9 2 5 start).0 ≢ ok true)
unfolding submit save_transaction
cancel_guarded_example = cancel_guarded true 1500000 9 2 5 start transaction job-start refl

cancel_succeeds : (cancel true 1500000 9 1 5 start).0 ≡ ok true
unfolding cancel submit save_transaction find_by_id acquire_lock holder get put
cancel_succeeds = refl

cancelled_performed :
    (perform env message
      (cancelled_tx true 1500000 9 1 start env message transaction)
      (dequeued (cancelled true 1500000 9 1 start env message))).0
    ≡ Worker.ok answer
unfolding perform inspect ensure_local_db update_status cancel submit save_transaction find_by_id
    acquire_lock holder release_lock dequeue_transaction get put
cancelled_performed = refl

cancel_ineffective_example :
    job 5 (run_once env (cancelled true 1500000 9 1 start env message)).1
    ≡ some (
        stamp completed 4000000 (length (normalise_rows answer)) "" (
          stamp running 2000000 0 "" (cancelled_tx true 1500000 9 1 start env message transaction)))
cancel_ineffective_example =
    cancel_ineffective true 1500000 9 1 start env message transaction answer job-start
      cancel_succeeds start_next refl cancelled_performed

abbrev refusing : Text → KuzuOutcome
refusing query = raises "syntax error"

abbrev deployed : Env
deployed = record env { execute_query = execute_query refusing }

database_present :
    (ensure_local_db deployed 7 (set_status 2000000 5 running 0 "" (dequeued start))).0
    ≡ Worker.ok tt
unfolding ensure_local_db submit save_transaction dequeue_transaction update_status get put
database_present = refl

every_query_completes_example :
    job 5 (run_once deployed start).1
    ≡ some (stamp completed 4000000 0 "" (stamp running 2000000 0 "" transaction))
every_query_completes_example =
    every_query_completes deployed start message transaction refusing refl start_next job-start refl
      database_present
