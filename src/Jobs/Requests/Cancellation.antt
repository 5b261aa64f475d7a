-- ===== src/Jobs/Requests/Cancellation.antt =====
-- What cancelling a job does, and what the worker then does with it.
use kuzu_event_bus.Prelude.{
  ℕ, ◌≡◌, refl, ap, ◌∙◌, Bool, true, some, arith, ◌==◌, nat_key, nat_beq, nat_beq_iff,
  if◌then◌else◌, length, none,
}
use kuzu_event_bus.Jobs.Transactions.{Transaction, completed, failed, running, stamp, find_by_id}
use kuzu_event_bus.Jobs.Queue.{Message, dequeue_transaction}
use kuzu_event_bus.Jobs.World.{World, set_status}
use kuzu_event_bus.Jobs.Worker
use kuzu_event_bus.Jobs.Worker.{Env, Answer, normalise_rows, perform, run_once}
use kuzu_event_bus.Jobs.Worker.Settled.{job, job-set_status, dequeued, run_once_settles}
use kuzu_event_bus.Jobs.Requests.{ok, cancel}

module _ (allowed : Bool) (now token tenant id : ℕ) (w : World) where
  -- Cancelling leaves the queue as it is: the job's message stays in it.
  pub queue-cancel : (cancel allowed now token tenant id w).1.queue ≡ w.queue
  unfolding cancel
  queue-cancel = ground arith

  transactions-cancel :
      (cancel allowed now token tenant id w).0 ≡ ok true
      → (cancel allowed now token tenant id w).1.transactions
        ≡ (set_status now id failed 0 "Cancelled by user" w).transactions
  unfolding cancel
  transactions-cancel done = ground arith

  -- A successful cancellation marks the job FAILED with the reason "Cancelled by user", and no
  -- other job.
  pub cancel_marks :
      (tx : Transaction)
      → job id w ≡ some tx
      → (cancel allowed now token tenant id w).0 ≡ ok true
      → (j : ℕ)
      → job j (cancel allowed now token tenant id w).1
        ≡ (if id == j then some (stamp failed now 0 "Cancelled by user" tx) else job j w)
  cancel_marks tx h done j =
      ap (find_by_id j) (transactions-cancel done)
      ∙ job-set_status now id failed 0 "Cancelled by user" w h j

module _ (allowed : Bool) (now token tenant : ℕ) (w : World) (env : Env) (m : Message) where
  abbrev pub cancelled : World
  cancelled = (cancel allowed now token tenant m.transaction_id w).1

  abbrev pub cancelled_tx : Transaction → Transaction
  cancelled_tx = stamp failed now 0 "Cancelled by user"

  -- A cancelled job whose message is the next in the queue is executed all the same: if the
  -- execution succeeds, the job ends as COMPLETED, with the rows of the answer counted.
  pub cancel_ineffective :
      (tx : Transaction) (answer : Answer)
      → job m.transaction_id w ≡ some tx
      → (cancel allowed now token tenant m.transaction_id w).0 ≡ ok true
      → (dequeue_transaction w.queue).0 ≡ some m
      → env.read_fault ≡ none
      → (perform env m (cancelled_tx tx) (dequeued cancelled)).0 ≡ Worker.ok answer
      → job m.transaction_id (run_once env cancelled).1
        ≡ some (
            stamp completed env.settled
              (length (normalise_rows answer))
              ""
              (stamp running env.started 0 "" (cancelled_tx tx)))
  cancel_ineffective tx answer known done got up performed =
      let same : nat_beq m.transaction_id m.transaction_id ≡ true =
        (nat_beq_iff m.transaction_id m.transaction_id).1 refl in
      let marked : job m.transaction_id cancelled ≡ some (cancelled_tx tx) =
        cancel_marks allowed now token tenant m.transaction_id w tx known done m.transaction_id
        ∙ rw same in
      let got' : (dequeue_transaction cancelled.queue).0 ≡ some m =
        ap (λ q. (dequeue_transaction q).0)
          (queue-cancel allowed now token tenant m.transaction_id w)
        ∙ got in
      (run_once_settles env cancelled m (cancelled_tx tx) up got' marked).1 m.transaction_id
      ∙ rw (same, performed)
