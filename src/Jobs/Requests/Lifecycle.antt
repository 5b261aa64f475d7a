-- ===== src/Jobs/Requests/Lifecycle.antt =====
-- A job from its submission to its results.
use kuzu_event_bus.Prelude.{
  ℕ, ◌-◌, ◌<◌, ◌≡◌, refl, ap, ◌∙◌, true, false, none, some, List, [], ◌∷◌, ◌++◌, length, arith,
  nat_key, nat_beq, nat_beq_iff, drop, length-append,
}
use kuzu_event_bus.Dict
use kuzu_event_bus.Dict.{Dict, get-put}
use kuzu_event_bus.Jobs.Transactions.{
  Transaction, running, pending, find_by_id, new_transaction, stamp, save_transaction,
}
use kuzu_event_bus.Jobs.Queue.{
  Message, Queue, trim, started, first_after, enqueue_transaction, dequeue_transaction,
}
use kuzu_event_bus.Jobs.World.{World, Row}
use kuzu_event_bus.Jobs.Worker.{
  Env, Exc, Result, Answer, normalise_rows, perform, ensure_local_db, log_mutation,
  append_wal_entry, succeed, recover, emit_event, cache_results, settle, run_once,
}
use kuzu_event_bus.Jobs.Worker
use kuzu_event_bus.Jobs.Worker.Settled.{
  job, dequeued, run_once-eq-settle, run_once_settles, verdict, verdict_status,
}
use kuzu_event_bus.Jobs.Requests.Ownership.{query_results_exact}
use kuzu_event_bus.Jobs.Requests.{ok, SubmitAsyncQueryRequest, dumps, submit, query_results}

-- Every entry of the stream has been delivered to the group.
abbrev pub IsCaughtUp : Queue → Type 0
IsCaughtUp q = (first_after (started q.group) q.entries ≡ none) × (started q.group < q.next_id)

first_after-append :
    (last : ℕ) (ms : List Message) (m : Message)
    → first_after last ms ≡ none
    → last < m.message_id
    → first_after last (ms ++ m ∷ []) ≡ some m
first_after-append last [] m h lt = ground arith
first_after-append last (x ∷ ms) m h lt = ground (arith, first_after-append last ms m)

drop_none : (ms : List Message) (n : ℕ) → n ≡ 0 → drop n ms ≡ ms
drop_none ms n h = rw h

-- The entry that an enqueue appends.
abbrev pub appended : ℕ → ℕ → ℕ → Queue → Message
appended transaction tenant priority q = record {
  message_id = q.next_id;
  transaction_id = transaction;
  tenant_id = tenant;
  priority = priority;
}

module _ (max_length transaction tenant priority : ℕ) (q : Queue) (caught : IsCaughtUp q)
    (room : length q.entries < max_length) where
  -- On a queue with room whose entries have all been delivered, the next message to be delivered is
  -- the one that is enqueued.
  pub dequeue-enqueue :
      (dequeue_transaction (enqueue_transaction max_length transaction tenant priority q).1).0
      ≡ some (appended transaction tenant priority q)
  unfolding dequeue_transaction enqueue_transaction trim
  dequeue-enqueue =
      let m = appended transaction tenant priority q in
      rw (
        drop_none (q.entries ++ m ∷ []) (length (q.entries ++ m ∷ []) - max_length)
            (omega (arith, length-append q.entries (m ∷ []))),
        first_after-append (started q.group) q.entries m caught.0 caught.1,
      )

-- The settled round of an executed job leaves its rows in the cache.
results-succeed :
    (env : Env) (m : Message) (tx : Transaction) (answer : Answer) (w : World)
    → env.cache_fails ≡ false
    → (succeed env m tx answer w).results
      ≡ Dict.put
          (log_mutation env m tx (normalise_rows answer) w).results
          m.transaction_id
          (normalise_rows answer)
unfolding succeed cache_results emit_event
results-succeed env m tx answer w c = ground arith

results-settle :
    (env : Env) (m : Message) (tx : Transaction) (p : Result Answer × World) (answer : Answer)
    → p.0 ≡ Worker.ok answer
    → env.cache_fails ≡ false
    → Dict.get (settle env m tx p).results m.transaction_id ≡ some (normalise_rows answer)
results-settle env m tx (Worker.ok a, w) answer h c =
    ap (λ (d : Dict ℕ (List Row)). Dict.get d m.transaction_id) (results-succeed env m tx a w c)
    ∙ get-put (log_mutation env m tx (normalise_rows a) w).results m.transaction_id m.transaction_id
        (normalise_rows a)
    ∙ ground (arith, nat_beq_iff m.transaction_id m.transaction_id)
results-settle env m tx (Worker.err e, w) answer h c = cc

nat_beq_refl : (n : ℕ) → nat_beq n n ≡ true
nat_beq_refl n = (nat_beq_iff n n).1 refl

module _ (now id max_length : ℕ) (req : SubmitAsyncQueryRequest) (w : World) (env : Env) where
  abbrev pub submitted : World
  submitted = (submit now id max_length req w).1

  abbrev pub submitted_tx : Transaction
  submitted_tx =
      new_transaction now req.tenant_id req.database_id req.query (dumps req.parameters) pending
        req.timeout_seconds (job id w)

  abbrev pub submitted_message : Message
  submitted_message = appended id req.tenant_id req.priority w.queue

  pub job-submit : job id submitted ≡ some submitted_tx
  unfolding submit save_transaction find_by_id
  job-submit = get-put w.transactions.hashes id id submitted_tx ∙ rw (nat_beq_refl id)

  -- From submission to results: with the queue caught up and room in it, one round that can read the
  -- queue and the transaction, executes the query and can write to the cache completes the job, and its tenant is then served the rows
  -- of the executor's answer.
  pub submit_run_results :
      (answer : Answer)
      → IsCaughtUp w.queue
      → length w.queue.entries < max_length
      → env.read_fault ≡ none
      → env.cache_fails ≡ false
      → (perform env submitted_message submitted_tx (dequeued submitted)).0 ≡ Worker.ok answer
      → query_results true req.tenant_id id (run_once env submitted).1
        ≡ ok (some (normalise_rows answer))
  unfolding submit enqueue_transaction
  submit_run_results answer caught room up caches done =
      let w' = (run_once env submitted).1 in
      let got = dequeue-enqueue max_length id req.tenant_id req.priority w.queue caught room in
      let settled =
        run_once_settles env submitted submitted_message submitted_tx up got job-submit in
      let p = perform env submitted_message submitted_tx (dequeued submitted) in
      let tx = verdict env.settled p.0 (stamp running env.started 0 "" submitted_tx) in
      let found : job id w' ≡ some tx = settled.1 id ∙ rw (nat_beq_refl id) in
      let cached : Dict.get w'.results id ≡ some (normalise_rows answer) =
        ap (λ (r : Result (Unit {0}) × World). Dict.get r.1.results id)
          (run_once-eq-settle env submitted submitted_message submitted_tx up got job-submit)
        ∙ results-settle env submitted_message submitted_tx p answer done caches in
      (query_results_exact true req.tenant_id id w' tx (some (normalise_rows answer)) found).1
        (refl, refl, ap verdict_status done, cached)
