-- ===== src/Jobs/Requests/Ownership.antt =====
-- Whose jobs the calls for results, status and cancellation read and change.
use kuzu_event_bus.Prelude.{
  ℕ, ◌≡◌, Bool, true, false, ◌&&◌, ◌↔◌, ◌≢◌, Option, some, List, arith, ◌==◌, nat_key, Option-cases,
  inl, inr,
}
use kuzu_event_bus.Dict
use kuzu_event_bus.Jobs.Transactions.{Transaction, find_by_id, completed}
use kuzu_event_bus.Jobs.World.{World, Row}
use kuzu_event_bus.Jobs.Worker.Settled.{job}
use kuzu_event_bus.Jobs.Requests.{ok, cancel, is_cancellable, query_status, query_results}

-- Whoever gets a status back, from the cache or from the repository, gets one of a job of theirs.
pub query_status_owned :
    (allowed : Bool) (tenant id : ℕ) (w : World) (tx : Transaction)
    → (query_status allowed tenant id w).0 ≡ ok (some tx)
    → (tx.tenant_id ≡ tenant) × (allowed ≡ true)
unfolding query_status
query_status_owned allowed tenant id w tx h = elim (Option-cases (Dict.get w.statuses id)) [
  | inl e ↦ elim (Option-cases (find_by_id id w.transactions)) [
    | inl f ↦ ground arith
    | inr (t, f) ↦ ground arith
  ]
  | inr (c, e) ↦ elim (Option-cases (find_by_id id w.transactions)) [
    | inl f ↦ ground arith
    | inr (t, f) ↦ ground arith
  ]
]

-- Results are served exactly for a completed job of the tenant, by a caller with the permission,
-- and they are what the cache holds for it.
pub query_results_exact :
    (allowed : Bool) (tenant id : ℕ) (w : World) (tx : Transaction) (found : Option (List Row))
    → job id w ≡ some tx
    → (query_results allowed tenant id w ≡ ok found) ↔ (
        (allowed ≡ true)
        × (tx.tenant_id ≡ tenant)
        × (tx.status ≡ completed)
        × (Dict.get w.results id ≡ found))
unfolding query_results
query_results_exact allowed tenant id w tx found h =
    rw (h, query_results) (λ r. ground arith, λ r. ground arith)

-- Cancelling changes nothing at all unless the caller has the permission, the job is the tenant's
-- and it is pending or running; and only then can it report success.
pub cancel_guarded :
    (allowed : Bool) (now token tenant id : ℕ) (w : World) (tx : Transaction)
    → job id w ≡ some tx
    → (allowed && (tx.tenant_id == tenant) && is_cancellable tx.status) ≡ false
    → ((cancel allowed now token tenant id w).1 ≡ w)
      × ((cancel allowed now token tenant id w).0 ≢ ok true)
unfolding cancel
cancel_guarded allowed now token tenant id w tx h g =
    rw (h, cancel) (ground arith, λ r. ground arith)
