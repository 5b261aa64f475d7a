-- ===== src/Jobs/Executor.antt =====
-- KuzuQueryExecutionAdapter.execute_query
-- (backend/src/infrastructure/kuzu/kuzu_query_execution_adapter.py), the executor that the worker is
-- given. What Kuzu makes of a query text is the argument `kuzu`. Of the answer's keys those that the
-- worker reads are kept; `error` is not among them.
use kuzu_event_bus.Prelude.{
  ℕ, ◌≡◌, refl, ap, ◌∙◌, String, Option, none, some, List, [], nat_key, nat_beq_iff, length,
}
use kuzu_event_bus.Text.{Text}
use kuzu_event_bus.Jobs.Transactions.{Transaction, running, completed, stamp}
use kuzu_event_bus.Jobs.Queue.{Message, dequeue_transaction}
use kuzu_event_bus.Jobs.World.{World, Row, set_status}
use kuzu_event_bus.Jobs.Worker.{
  Env, Result, ok, Answer, dict, rows, normalise_rows, ensure_local_db, inspect, perform, loads,
  run_once,
}
use kuzu_event_bus.Jobs.Worker.Shapes.{perform-inspect}
use kuzu_event_bus.Jobs.Worker.Settled.{job, dequeued, run_once_settles}

pub data KuzuOutcome : Type 0 where
  returns : List Row → KuzuOutcome
  raises : String → KuzuOutcome

-- The parameters and the timeout are not passed on, and no error leaves the method.
unfoldable pub execute_query :
    (Text → KuzuOutcome) → ℕ → ℕ → Text → Option String → ℕ → Result Answer
execute_query kuzu tenant database cypher parameters timeout_seconds = elim (kuzu cypher) [
  | returns found ↦ ok (dict (some (rows found)) none none)
  | raises e ↦ ok (dict (some (rows [])) none none)
]

abbrev pub rows_returned : KuzuOutcome → ℕ
rows_returned (returns found) = length found
rows_returned (raises e) = 0

execute_query-answers :
    (kuzu : Text → KuzuOutcome) (tenant database : ℕ) (cypher : Text) (parameters : Option String)
    (timeout_seconds : ℕ)
    → (answer : Answer) × (inspect
          (execute_query kuzu tenant database cypher parameters timeout_seconds)
        ≡ ok answer)
      × (length (normalise_rows answer) ≡ rows_returned (kuzu cypher))
unfolding execute_query normalise_rows inspect
execute_query-answers kuzu tenant database cypher parameters timeout_seconds = go (kuzu cypher)
  where
    go :
        (o : KuzuOutcome)
        → (answer : Answer) × (inspect (elim o [
          | returns found ↦ ok (dict (some (rows found)) none none)
          | raises e ↦ ok (dict (some (rows [])) none none)
        ])
            ≡ ok answer)
          × (length (normalise_rows answer) ≡ rows_returned o)
    go (returns found) = (dict (some (rows found)) none none, refl, refl)
    go (raises e) = (dict (some (rows [])) none none, refl, refl)

-- With this executor every query whose database could be checked out ends as COMPLETED, a query
-- that Kuzu refuses too, with no row then and no error message.
pub every_query_completes :
    (env : Env) (w : World) (m : Message) (tx : Transaction) (kuzu : Text → KuzuOutcome)
    → env.read_fault ≡ none
    → (dequeue_transaction w.queue).0 ≡ some m
    → job m.transaction_id w ≡ some tx
    → env.execute_query ≡ execute_query kuzu
    → (ensure_local_db env tx.database_id
        (set_status env.started m.transaction_id running 0 "" (dequeued w))).0
      ≡ ok tt
    → job m.transaction_id (run_once env w).1
      ≡ some (
          stamp completed env.settled
            (rows_returned (kuzu tx.query))
            ""
            (stamp running env.started 0 "" tx))
every_query_completes env w m tx kuzu up got known adapter ready =
    let (answer, answers, counted) =
      execute_query-answers kuzu m.tenant_id tx.database_id tx.query (loads tx.parameters)
        tx.timeout_seconds in
    let performed : (perform env m tx (dequeued w)).0 ≡ ok answer =
      perform-inspect env m tx (dequeued w) ready
      ∙ ap
          (λ (f : ℕ → ℕ → Text → Option String → ℕ → Result Answer).
            inspect
              (f m.tenant_id tx.database_id tx.query (loads tx.parameters) tx.timeout_seconds))
          adapter
      ∙ answers in
    (run_once_settles env w m tx up got known).1 m.transaction_id
    ∙ rw ((nat_beq_iff m.transaction_id m.transaction_id).1 refl, performed, counted)
