-- ===== src/Jobs/Worker/Wal.antt =====
-- What a round writes to the write-ahead log.
use kuzu_event_bus.Prelude.{
  ◌≡◌, ap, ◌∙◌, true, false, none, some, List, [], ◌∷◌, ◌++◌, arith, ◌==◌, ◌⊎◌, inl, inr,
  if◌then◌else◌,
}
use kuzu_event_bus.Dict
use kuzu_event_bus.Dict.{Dict, get-put}
use kuzu_event_bus.Jobs.Transactions.{Transaction}
use kuzu_event_bus.Jobs.Queue.{Message, dequeue_transaction}
use kuzu_event_bus.Jobs.Locks.{holder, acquire_lock}
use kuzu_event_bus.Jobs.World.{World, Row, WalEntry, WalKey, wal_hash_key, entries_of}
use kuzu_event_bus.Jobs.Worker.{
  Env, Exc, Result, ok, err, Answer, normalise_rows, ensure_local_db, perform, is_mutating,
  append_wal_entry, wal_key, wal_lock, loads, log_mutation, succeed, recover, emit_event,
  cache_results, settle, run_once,
}
use kuzu_event_bus.Jobs.Worker.Settled.{job, dequeued, run_once-eq-settle}

module _ (env : Env) (m : Message) (tx : Transaction) where
  wal-settle_ok :
      (answer : Answer) (w : World)
      → (settle env m tx (ok answer, w)).wal ≡ (log_mutation env m tx (normalise_rows answer) w).wal
  unfolding succeed emit_event cache_results
  wal-settle_ok answer w = ground arith

  wal-settle_err : (e : Exc) (w : World) → (settle env m tx (err e, w)).wal ≡ w.wal
  unfolding recover emit_event
  wal-settle_err e w = ground arith

  wal-settle_executed :
      (p : Result Answer × World) {answer : Answer}
      → p.0 ≡ ok answer
      → (settle env m tx p).wal ≡ (log_mutation env m tx (normalise_rows answer) p.1).wal
  wal-settle_executed (ok a, w) {answer} h = ground (arith, wal-settle_ok a w)
  wal-settle_executed (err e, w) h = cc

  wal-settle_raised :
      (p : Result Answer × World) {e : Exc} → p.0 ≡ err e → (settle env m tx p).wal ≡ p.1.wal
  wal-settle_raised (ok a, w) h = cc
  wal-settle_raised (err e, w) h = wal-settle_err e w

  wal-perform : (w : World) → (perform env m tx w).1.wal ≡ w.wal
  unfolding perform ensure_local_db
  wal-perform w = ground arith

  abbrev pub logged_entry : List Row → WalEntry
  logged_entry found = record {
    ts = env.logged;
    query = tx.query;
    parameters = loads tx.parameters;
    results = found;
  }

  -- The object of the second at which the entry is logged.
  abbrev pub logged_key : WalKey
  logged_key = wal_key env.logged m.tenant_id tx.database_id

  wal-log_mutation :
      (found : List Row) (w : World)
      → is_mutating tx.query ≡ true
      → holder env.logged (wal_lock tx.database_id) w.locks ≡ none
      → env.wal_upload_fails ≡ false
      → (log_mutation env m tx found w).wal
        ≡ Dict.put w.wal logged_key (
            (if env.wal_read_fails then [] else entries_of (Dict.get w.wal logged_key))
            ++ logged_entry found ∷ [])
  unfolding log_mutation append_wal_entry acquire_lock
  wal-log_mutation found w mutating free up = ground arith

  wal-log_mutation_read :
      (found : List Row) (w : World)
      → is_mutating tx.query ≡ false
      → (log_mutation env m tx found w).wal ≡ w.wal
  unfolding log_mutation
  wal-log_mutation_read found w reads = ground arith

module _ (env : Env) (w : World) (m : Message) (tx : Transaction) (up : env.read_fault ≡ none)
    (got : (dequeue_transaction w.queue).0 ≡ some m)
    (known : job m.transaction_id w ≡ some tx) where
  wal-run_once : (run_once env w).1.wal ≡ (settle env m tx (perform env m tx (dequeued w))).wal
  wal-run_once =
      ap (λ (p : Result (Unit {0}) × World). p.1.wal) (run_once-eq-settle env w m tx up got known)

  -- A round that executes a mutating query, with the log's lock free and the upload working, puts
  -- one line with the query, its parameters and its rows behind the lines that the object of that
  -- second held, or in place of them if reading them back fails; every other object stays.
  pub run_once_logs :
      (answer : Answer)
      → (perform env m tx (dequeued w)).0 ≡ ok answer
      → is_mutating tx.query ≡ true
      → holder env.logged (wal_lock tx.database_id) (perform env m tx (dequeued w)).1.locks ≡ none
      → env.wal_upload_fails ≡ false
      → (k : WalKey)
      → Dict.get (run_once env w).1.wal k ≡ (
          if logged_key env m tx == k
          then some (
              (if env.wal_read_fails then [] else entries_of (Dict.get w.wal (logged_key env m tx)))
              ++ logged_entry env m tx (normalise_rows answer) ∷ [])
          else Dict.get w.wal k)
  run_once_logs answer done mutating free uploads k =
      let p = perform env m tx (dequeued w) in
      let found = normalise_rows answer in
      ap (λ (d : Dict WalKey (List WalEntry)). Dict.get d k)
        (wal-run_once
          ∙ wal-settle_executed env m tx p done
          ∙ wal-log_mutation env m tx found p.1 mutating free uploads)
      ∙ rw (wal-perform env m tx (dequeued w)) (get-put w.wal (logged_key env m tx) k _)

  -- A round whose query is no mutation by its first word, or whose execution raises, leaves the log
  -- as it was.
  pub run_once_logs_nothing :
      (is_mutating tx.query ≡ false) ⊎ ((e : Exc) × ((perform env m tx (dequeued w)).0 ≡ err e))
      → (run_once env w).1.wal ≡ w.wal
  run_once_logs_nothing (inl reads) =
      wal-run_once
      ∙ unlogged (perform env m tx (dequeued w)) reads
      ∙ wal-perform env m tx (dequeued w)
    where
      unlogged :
          (p : Result Answer × World)
          → is_mutating tx.query ≡ false
          → (settle env m tx p).wal ≡ p.1.wal
      unlogged (ok a, u) reads =
          wal-settle_ok env m tx a u ∙ wal-log_mutation_read env m tx (normalise_rows a) u reads
      unlogged (err e, u) reads = wal-settle_err env m tx e u
  run_once_logs_nothing (inr (e, raised)) =
      wal-run_once
      ∙ wal-settle_raised env m tx (perform env m tx (dequeued w)) raised
      ∙ wal-perform env m tx (dequeued w)
