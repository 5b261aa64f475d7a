-- ===== src/Jobs/Tests/Stores.antt =====
-- The repository, the queue and the locks at concrete states.
use kuzu_event_bus.Prelude.{
  ◌≡◌, ◌↔◌, refl, true, none, some, List, [], ◌∷◌, arith, All, Elem, nat_key,
}
use kuzu_event_bus.Dict.{get, put}
use kuzu_event_bus.Text.{text}
use kuzu_event_bus.Jobs.Transactions
use kuzu_event_bus.Jobs.Transactions.{
  Transaction, Store, running, is_running, find_by_id, save_transaction, find_running_transactions,
  find_by_tenant, tenant_members, sadd, new_transaction,
}
use kuzu_event_bus.Jobs.Transactions.Index.{IsIndexed, save_transaction-IsIndexed}
use kuzu_event_bus.Jobs.Transactions.Queries.{find_running_transactions_exact}
use kuzu_event_bus.Jobs.Queue
use kuzu_event_bus.Jobs.Queue.{Message, Queue, started}
use kuzu_event_bus.Jobs.Queue.Delivery.{
  Increasing, deliveries, deliveries_increase, enqueue, dequeue, acknowledge,
}
use kuzu_event_bus.Jobs.Locks.{
  Resource, resource_key, LockStore, holder, Service, acquire_lock, extend_get, extend_ttl,
  extend_expire, expire,
}
use kuzu_event_bus.Jobs.Locks.Exclusion.{
  rivals_leave_lease, run_calls, LockCall, acquire, release, extend, read_ttl, set_expiry,
  IsSettled,
}
use kuzu_event_bus.Jobs.Tests.{IsIndexed-empty}

-- A store with one transaction, of tenant 1, that runs.
abbrev store : Store
store = save_transaction 100 5 1 7 (text "RETURN 1") "{}" running 30 Transactions.empty

abbrev row : Transaction
row = new_transaction 100 1 7 (text "RETURN 1") "{}" running 30 none

row_stored : find_by_id 5 store ≡ some row
unfolding find_by_id save_transaction get put
row_stored = refl

store-IsIndexed : IsIndexed store
unfolding get
store-IsIndexed =
    save_transaction-IsIndexed 100 5 1 7 (text "RETURN 1") "{}" running 30 Transactions.empty refl
      IsIndexed-empty

find_running_transactions_exact_example :
    All (λ (r : Transaction). is_running r.status ≡ true) (find_running_transactions store)
    × ((Elem row (find_running_transactions store)) ↔ (is_running row.status ≡ true))
find_running_transactions_exact_example =
    find_running_transactions_exact store 5 row store-IsIndexed row_stored

deliveries_increase_example : Increasing (started Queue.empty.group) (
    deliveries 10
      (enqueue 5 1 0 ∷ enqueue 6 1 0 ∷ dequeue ∷ acknowledge 1 ∷ dequeue ∷ [])
      Queue.empty)
deliveries_increase_example =
    deliveries_increase 10 (enqueue 5 1 0 ∷ enqueue 6 1 0 ∷ dequeue ∷ acknowledge 1 ∷ dequeue ∷ [])
      Queue.empty

abbrev checkout : Resource
checkout = record { purpose = "checkout"; id = 7 }

-- The resource is held with token 1 until 50, and no lease is being extended.
abbrev held : LockStore
held = (checkout, record { token = 1; expires_at = 50 }) ∷ []

held_at_10 : holder 10 checkout held ≡ some 1
unfolding holder get
held_at_10 = refl

free_at_60 : holder 60 checkout held ≡ none
unfolding holder get
free_at_60 = refl

held_lease : get held checkout ≡ some (record { token = 1; expires_at = 50 })
unfolding get
held_lease = refl

abbrev service : Service
service = record { locks = held; extending = [] }

none_extending : IsSettled checkout service.extending
unfolding get
none_extending call x e = cc

-- An attempt to take it, one to release another's lease, and one to extend it.
abbrev attempts : List LockCall
attempts =
    record { now = 10; resource = checkout; token = 2; request = acquire 30 }
    ∷ record { now = 20; resource = checkout; token = 3; request = release 0 }
    ∷ record { now = 21; resource = checkout; token = 2; request = extend 8 60 }
    ∷ record { now = 22; resource = checkout; token = 2; request = read_ttl 8 }
    ∷ record { now = 23; resource = checkout; token = 2; request = set_expiry 8 }
    ∷ []

rivals_leave_lease_example :
    get (run_calls attempts service).locks checkout ≡ some (record { token = 1; expires_at = 50 })
rivals_leave_lease_example =
    rivals_leave_lease attempts service checkout (record { token = 1; expires_at = 50 }) held_lease
      none_extending
      (
        (omega arith, λ h. omega (arith, h)),
        (
          (omega arith, λ h. omega (arith, h)),
          (
            (omega arith, λ h. omega (arith, h)),
            ((omega arith, λ h. omega (arith, h)), ((omega arith, λ h. omega (arith, h)), tt)),
          ),
        ),
      )

-- An extension of the first lease, begun at 40 and finished at 65, cuts the second holder's short.
abbrev crossing : List LockCall
crossing =
    record { now = 40; resource = checkout; token = 1; request = extend 9 5 }
    ∷ record { now = 49; resource = checkout; token = 1; request = read_ttl 9 }
    ∷ record { now = 60; resource = checkout; token = 2; request = acquire 30 }
    ∷ record { now = 65; resource = checkout; token = 1; request = set_expiry 9 }
    ∷ []

cut_short :
    get (run_calls crossing service).locks checkout ≡ some (record { token = 2; expires_at = 71 })
unfolding get put acquire_lock holder extend_get extend_ttl extend_expire expire run_calls
cut_short = refl
