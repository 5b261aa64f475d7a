-- ===== src/Jobs/Worker/Indexes.antt =====
-- The worker keeps the repository's indexes exact.
use kuzu_event_bus.Prelude.{Option, none, some, List, [], ◌∷◌}
use kuzu_event_bus.Jobs.Transactions.{Transaction, running, find_by_id}
use kuzu_event_bus.Jobs.Transactions.Index.{IsIndexed, update_status-IsIndexed}
use kuzu_event_bus.Jobs.Queue.{Message, dequeue_transaction}
use kuzu_event_bus.Jobs.World.{World}
use kuzu_event_bus.Jobs.Worker.{
  Env, Exc, ReadFault, dequeue_raises, find_raises, status_of, message_of, unread, take_message,
  Result, ok, err, process, receive, perform, settle, run_once, run_forever, after_round,
}
use kuzu_event_bus.Jobs.Worker.Settled.{
  verdict_status, verdict_count, verdict_message, transactions-settle, transactions-perform,
  dequeued,
}

module _ (env : Env) where
  settle-IsIndexed :
      (m : Message) (tx : Transaction) (w : World)
      → IsIndexed w.transactions
      → IsIndexed (settle env m tx (perform env m tx w)).transactions
  settle-IsIndexed m tx w v =
      let (r, w') = perform env m tx w in
      rw (transactions-settle env m tx r w') (
        update_status-IsIndexed env.settled m.transaction_id (verdict_status r) (verdict_count r)
          (verdict_message r) w'.transactions
          (rw (transactions-perform env m tx w)
            (update_status-IsIndexed env.started m.transaction_id running 0 "" w.transactions v)))

  process-IsIndexed :
      (m : Message) (o : Option Transaction) (w : World)
      → IsIndexed w.transactions
      → IsIndexed (process env m o w).transactions
  process-IsIndexed m none w v = v
  process-IsIndexed m (some tx) w v = settle-IsIndexed m tx w v

  receive-IsIndexed :
      (o : Option Message) (w : World)
      → IsIndexed w.transactions
      → IsIndexed (receive env o w).transactions
  receive-IsIndexed none w v = v
  receive-IsIndexed (some m) w v =
      process-IsIndexed m (find_by_id m.transaction_id w.transactions) w v

  unread-IsIndexed :
      (e : Exc) (o : Option Message) (w : World)
      → IsIndexed w.transactions
      → IsIndexed (unread env e o w).1.transactions
  unread-IsIndexed e none w v = v
  unread-IsIndexed e (some m) w v =
      update_status-IsIndexed env.settled m.transaction_id (status_of e) 0 (message_of e)
        w.transactions v

  take_message-IsIndexed :
      (o : Option ReadFault) (w : World)
      → IsIndexed w.transactions
      → IsIndexed (take_message env o w).1.transactions
  take_message-IsIndexed none w v = receive-IsIndexed (dequeue_transaction w.queue).0 (dequeued w) v
  take_message-IsIndexed (some dequeue_raises) w v = v
  take_message-IsIndexed (some (find_raises e)) w v =
      unread-IsIndexed e (dequeue_transaction w.queue).0 (dequeued w) v

  -- A round keeps the running set and the tenant sets exact, whatever it takes and whatever fails.
  pub run_once-IsIndexed :
      (w : World) → IsIndexed w.transactions → IsIndexed (run_once env w).1.transactions
  unfolding run_once
  run_once-IsIndexed w v = take_message-IsIndexed env.read_fault w v

-- The worker's loop keeps the running set and the tenant sets of the repository exact, over any
-- rounds, whatever fails in them and also when an error ends it.
pub run_forever-IsIndexed :
    (envs : List Env) (w : World)
    → IsIndexed w.transactions
    → IsIndexed (run_forever envs w).1.transactions
unfolding run_forever
run_forever-IsIndexed [] w v = v
run_forever-IsIndexed (env ∷ envs) w v =
    step (run_once env w) (run_once-IsIndexed env w v) (run_forever-IsIndexed envs)
  where
    step :
        (p : Result (Unit {0}) × World)
        → IsIndexed p.1.transactions
        → ((u : World) → IsIndexed u.transactions → IsIndexed (run_forever envs u).1.transactions)
        → IsIndexed (after_round p (run_forever envs)).1.transactions
    step (ok _, u) h rec = rec u h
    step (err e, u) h rec = h
