-- ===== src/Jobs/Worker/Settled.antt =====
-- How a round leaves the job that it took and whose transaction it could read.
use kuzu_event_bus.Prelude.{
  ℕ, ◌≡◌, refl, ap, ◌∙◌, true, false, not, Option, some, List, [], ◌∷◌, arith, contains, keep, map,
  length, ◌==◌, nat_key, nat_beq, nat_beq_iff, String, if◌then◌else◌, none,
}
use kuzu_event_bus.Dict.{get-put}
use kuzu_event_bus.Jobs.Transactions.{
  Transaction, TransactionStatus, running, completed, stamp, find_by_id, update_status,
}
use kuzu_event_bus.Jobs.Queue.{Message, dequeue_transaction, acknowledge_transaction}
use kuzu_event_bus.Jobs.World.{World, set_status}
use kuzu_event_bus.Jobs.Worker.{
  Env, Result, ok, err, Answer, normalise_rows, ensure_local_db, perform, append_wal_entry,
  emit_event, log_mutation, cache_results, succeed, recover, settle, run_once, status_of,
  message_of,
}

-- The transaction as a later reader finds it.
abbrev pub job : ℕ → World → Option Transaction
job id w = find_by_id id w.transactions

module _ (now id : ℕ) (status : TransactionStatus) (count : ℕ) (message : String) (w : World) where
  -- A status update of a known transaction stamps it and no other.
  pub job-set_status :
      {tx : Transaction}
      → job id w ≡ some tx
      → (j : ℕ)
      → job j (set_status now id status count message w)
        ≡ (if id == j then some (stamp status now count message tx) else job j w)
  unfolding update_status find_by_id
  job-set_status {tx} h j = rw (h, update_status) (get-put w.transactions.hashes id j _)

-- What runs between two updates leaves the transactions and the queue alone.
module _ (env : Env) (database : ℕ) (w : World) where
  pub transactions-ensure_local_db :
      (ensure_local_db env database w).1.transactions ≡ w.transactions
  unfolding ensure_local_db
  transactions-ensure_local_db = ground arith

  pub queue-ensure_local_db : (ensure_local_db env database w).1.queue ≡ w.queue
  unfolding ensure_local_db
  queue-ensure_local_db = ground arith

module _ (env : Env) (m : Message) (tx : Transaction) (found : List String) (w : World) where
  transactions-log_mutation : (log_mutation env m tx found w).transactions ≡ w.transactions
  unfolding log_mutation append_wal_entry
  transactions-log_mutation = ground arith

  queue-log_mutation : (log_mutation env m tx found w).queue ≡ w.queue
  unfolding log_mutation append_wal_entry
  queue-log_mutation = ground arith

-- The verdict on a job, from what executing it came to.
abbrev pub verdict_status : Result Answer → TransactionStatus
verdict_status (ok answer) = completed
verdict_status (err e) = status_of e

abbrev pub verdict_count : Result Answer → ℕ
verdict_count (ok answer) = length (normalise_rows answer)
verdict_count (err e) = 0

abbrev pub verdict_message : Result Answer → String
verdict_message (ok answer) = ""
verdict_message (err e) = message_of e

abbrev pub verdict : ℕ → Result Answer → Transaction → Transaction
verdict now r = stamp (verdict_status r) now (verdict_count r) (verdict_message r)

module _ (env : Env) (m : Message) (tx : Transaction) where
  pub transactions-settle :
      (r : Result Answer) (w : World)
      → (settle env m tx (r, w)).transactions
        ≡ (set_status env.settled m.transaction_id
            (verdict_status r)
            (verdict_count r)
            (verdict_message r)
            w).transactions
  unfolding succeed recover emit_event cache_results
  transactions-settle (ok answer) w =
      ground (arith, transactions-log_mutation env m tx (normalise_rows answer) w)
  transactions-settle (err e) w = ground arith

  queue-settle :
      (r : Result Answer) (w : World)
      → (settle env m tx (r, w)).queue ≡ (acknowledge_transaction m.message_id w.queue).1
  unfolding succeed recover emit_event cache_results
  queue-settle (ok answer) w = ground (arith, queue-log_mutation env m tx (normalise_rows answer) w)
  queue-settle (err e) w = ground arith

  pub transactions-perform :
      (w : World)
      → (perform env m tx w).1.transactions
        ≡ (set_status env.started m.transaction_id running 0 "" w).transactions
  unfolding perform
  transactions-perform w = ground (
    arith,
    transactions-ensure_local_db env tx.database_id
        (set_status env.started m.transaction_id running 0 "" w),
  )

  queue-perform : (w : World) → (perform env m tx w).1.queue ≡ w.queue
  unfolding perform
  queue-perform w = ground (
    arith,
    queue-ensure_local_db env tx.database_id
        (set_status env.started m.transaction_id running 0 "" w),
  )

abbrev pub dequeued : World → World
dequeued w = record w { queue = (dequeue_transaction w.queue).1 }

pub run_once-eq-settle :
    (env : Env) (w : World) (m : Message) (tx : Transaction)
    → env.read_fault ≡ none
    → (dequeue_transaction w.queue).0 ≡ some m
    → job m.transaction_id w ≡ some tx
    → run_once env w ≡ (ok tt, settle env m tx (perform env m tx (dequeued w)))
unfolding run_once
run_once-eq-settle env w m tx up got known = rw (up, got, known, run_once)

module _ (env : Env) (m : Message) (tx : Transaction) (w : World) where
  -- Execution leaves the job RUNNING, and every other job as it was.
  job-perform :
      job m.transaction_id w ≡ some tx
      → (j : ℕ)
      → job j (perform env m tx w).1
        ≡ (if m.transaction_id == j then some (stamp running env.started 0 "" tx) else job j w)
  job-perform known j =
      ap (find_by_id j) (transactions-perform env m tx w)
      ∙ job-set_status env.started m.transaction_id running 0 "" w known j

  -- The job's record after its execution is settled, and every other job's.
  job-settle :
      job m.transaction_id w ≡ some tx
      → (j : ℕ)
      → job j (settle env m tx (perform env m tx w)) ≡ (
          if m.transaction_id == j
          then some (verdict env.settled (perform env m tx w).0 (stamp running env.started 0 "" tx))
          else job j w)
  job-settle known j =
      let (r, w') = perform env m tx w in
      let same : nat_beq m.transaction_id m.transaction_id ≡ true =
        (nat_beq_iff m.transaction_id m.transaction_id).1 refl in
      let known' : job m.transaction_id w' ≡ some (stamp running env.started 0 "" tx) =
        job-perform known m.transaction_id ∙ rw same in
      ground (
        arith,
        ap (find_by_id j) (transactions-settle env m tx r w'),
        job-set_status env.settled m.transaction_id (verdict_status r) (verdict_count r)
            (verdict_message r) w' known' j,
        job-perform known j,
      )

contains-keep_ne : (x : ℕ) (xs : List ℕ) → contains x (keep (λ i. not (i == x)) xs) ≡ false
contains-keep_ne x [] = refl
contains-keep_ne x (y ∷ xs) = ground (arith, contains-keep_ne x xs)

contains-keep_entries :
    (x : ℕ) (ms : List Message)
    → contains x
        (map (λ (m : Message). m.message_id) (keep (λ (m : Message). not (m.message_id == x)) ms))
      ≡ false
contains-keep_entries x [] = refl
contains-keep_entries x (m ∷ ms) = ground (arith, contains-keep_entries x ms)

queue-settle-perform :
    (env : Env) (m : Message) (tx : Transaction) (w : World)
    → (settle env m tx (perform env m tx w)).queue
      ≡ (acknowledge_transaction m.message_id w.queue).1
queue-settle-perform env m tx w =
    let (r, w') = perform env m tx w in
    queue-settle env m tx r w'
    ∙ ap (λ q. (acknowledge_transaction m.message_id q).1) (queue-perform env m tx w)

-- A round that takes a message of a known transaction, and reads it without a fault, raises nothing,
-- whatever fails after that of what may fail in the model: the transaction goes through RUNNING to the
-- verdict on its execution, no other transaction changes, and the message is acknowledged and gone
-- from the stream.
pub run_once_settles :
    (env : Env) (w : World) (m : Message) (tx : Transaction)
    → env.read_fault ≡ none
    → (dequeue_transaction w.queue).0 ≡ some m
    → job m.transaction_id w ≡ some tx
    → let (r, w') = run_once env w in
      (r ≡ ok tt)
      × ((j : ℕ)
          → job j w' ≡ (
              if m.transaction_id == j
              then some (
                  verdict env.settled
                    (perform env m tx (dequeued w)).0
                    (stamp running env.started 0 "" tx))
              else job j w))
      × (contains m.message_id w'.queue.pending_ids ≡ false)
      × (contains m.message_id (map (λ (x : Message). x.message_id) w'.queue.entries) ≡ false)
unfolding acknowledge_transaction
run_once_settles env w m tx up got known = rw (run_once-eq-settle env w m tx up got known) (
  refl,
  job-settle env m tx (dequeued w) known,
  rw (queue-settle-perform env m tx (dequeued w))
      (contains-keep_ne m.message_id (w1.queue.pending_ids)),
  rw (queue-settle-perform env m tx (dequeued w))
      (contains-keep_entries m.message_id w1.queue.entries),
)
  where
    w1 : World
    w1 = dequeued w
