-- ===== src/Jobs/Worker/Shapes.antt =====
-- Which shapes of an executor's answer the worker can take.
use kuzu_event_bus.Prelude.{◌≡◌, refl, ap, ◌∙◌, Option, some, List, nat_beq_iff, none}
use kuzu_event_bus.Jobs.Transactions.{Transaction, running, failed, stamp}
use kuzu_event_bus.Jobs.Queue.{Message, dequeue_transaction}
use kuzu_event_bus.Jobs.World.{World, Row, set_status}
use kuzu_event_bus.Jobs.Worker.{
  Env, exception, Result, ok, err, Answer, Value, object, dict, inspect, execute_after,
  ensure_local_db, loads, perform, run_once,
}
use kuzu_event_bus.Jobs.Worker.Settled.{job, dequeued, run_once_settles}

inspect-object :
    (found : Option (List Row)) (top_rows data_list : Option Value)
    → inspect (ok (dict (some (object found)) top_rows data_list)) ≡ err (exception "0")
unfolding inspect
inspect-object found top_rows data_list = refl

module _ (env : Env) (m : Message) (tx : Transaction) where
  -- The executor's reply to the job.
  abbrev pub reply : Result Answer
  reply =
      env.execute_query m.tenant_id tx.database_id tx.query (loads tx.parameters) tx.timeout_seconds

  pub perform-inspect :
      (w : World)
      → (ensure_local_db env tx.database_id
          (set_status env.started m.transaction_id running 0 "" w)).0
        ≡ ok tt
      → (perform env m tx w).0 ≡ inspect reply
  unfolding perform
  perform-inspect w h =
      go
        (ensure_local_db env tx.database_id
          (set_status env.started m.transaction_id running 0 "" w))
        h
    where
      go :
          (p : Result (Unit {0}) × World)
          → p.0 ≡ ok tt
          → (execute_after env m tx p).0 ≡ inspect reply
      go (ok _, u) e = refl
      go (err x, u) e = cc

  -- A query whose database is at hand and whose rows the executor returns under `results.rows`, a
  -- shape that the worker's normalisation provides for, ends as FAILED with the error message "0".
  pub nested_rows_fail :
      (w : World) (found : Option (List Row)) (top_rows data_list : Option Value)
      → env.read_fault ≡ none
      → (dequeue_transaction w.queue).0 ≡ some m
      → job m.transaction_id w ≡ some tx
      → (ensure_local_db env tx.database_id
          (set_status env.started m.transaction_id running 0 "" (dequeued w))).0
        ≡ ok tt
      → reply ≡ ok (dict (some (object found)) top_rows data_list)
      → job m.transaction_id (run_once env w).1
        ≡ some (stamp failed env.settled 0 "0" (stamp running env.started 0 "" tx))
  nested_rows_fail w found top_rows data_list up got known ready nested =
      let raised : (perform env m tx (dequeued w)).0 ≡ err (exception "0") =
        perform-inspect (dequeued w) ready
        ∙ ap inspect nested
        ∙ inspect-object found top_rows data_list in
      (run_once_settles env w m tx up got known).1 m.transaction_id
      ∙ rw ((nat_beq_iff m.transaction_id m.transaction_id).1 refl, raised)
