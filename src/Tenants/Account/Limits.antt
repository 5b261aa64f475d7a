-- ===== src/Tenants/Account/Limits.antt =====
-- The account's limits, as an invariant of its methods.
use kuzu_event_bus.Prelude.{
  ℕ, ◌+◌, ◌*◌, ◌≤◌, ◌<◌, ◌≡◌, ◌≢◌, refl, false, none, List, [], ◌∷◌, ◌++◌, arith, leb,
  if◌then◌else◌, ◌↔◌, ◌⊎◌, inl, inr, Bool-cases,
}
use kuzu_event_bus.Tenants.Storage.{StorageSize, to_megabytes}
use kuzu_event_bus.Tenants.Account.{
  CustomerAccount, suspended, deleted, SubscriptionPlan, plan_storage_mb, plan_databases, Call,
  suspend, upgrade, call, run, allocate_storage, deallocate_storage, upgrade_subscription,
  storage_quota_exceeded, is_expired, is_status_deleted, active, can_upload_file,
}

-- The usage is within the quota, the databases within their maximum, and a suspended account has no
-- active key.
pub record IsValid (a : CustomerAccount) : Type 0 where
  pub stored : to_megabytes a.current_storage_usage ≤ to_megabytes a.subscription.storage_quota
  pub counted : a.database_count ≤ a.subscription.max_databases
  pub locked : a.status ≡ suspended → a.api_key.is_active ≡ false

-- A change of plan has room for what the account holds.
abbrev pub HasRoom : Call → CustomerAccount → Type 0
HasRoom (upgrade plan) a =
    (to_megabytes a.current_storage_usage ≤ plan_storage_mb plan * 1048576)
    × (a.database_count ≤ plan_databases plan)
HasRoom _ a = Unit

-- Every call, also one that raises, keeps the account valid; a change of plan does if the new plan
-- has room for what the account holds.
pub call-IsValid :
    (c : Call) (now : ℕ) (a : CustomerAccount) → HasRoom c a → IsValid a → IsValid (call c now a).1
unfolding call
call-IsValid (suspend reason) now a h v = ground arith
call-IsValid _ now a h v = ground arith

-- Each change of plan along the run finds room.
abbrev pub RunHasRoom : List (ℕ × Call) → CustomerAccount → Type 0
RunHasRoom [] a = Unit
RunHasRoom ((now, c) ∷ cs) a = HasRoom c a × RunHasRoom cs (call c now a).1

-- A valid account stays valid through any run of calls, also of calls that raise, if each change of
-- plan in it has room for what the account then holds.
pub run-IsValid :
    (cs : List (ℕ × Call)) (a : CustomerAccount) → RunHasRoom cs a → IsValid a → IsValid (run cs a)
unfolding run
run-IsValid [] a h v = v
run-IsValid ((now, c) ∷ cs) a h v = run-IsValid cs (call c now a).1 h.1 (call-IsValid c now a h.0 v)

not_deleted : (a : CustomerAccount) → a.status ≢ deleted → is_status_deleted a.status ≡ false
not_deleted a alive = ground arith

-- `upgrade_subscription` looks at no usage: a change to a plan that is too small for what an account
-- holds goes through, unless the account is deleted, and leaves it over its limits.
pub upgrade_may_overflow :
    (plan : SubscriptionPlan) (now : ℕ) (a : CustomerAccount)
    → a.status ≢ deleted
    → ¬ HasRoom (upgrade plan) a
    → ((upgrade_subscription plan now a).0 ≡ none) × ¬ IsValid (upgrade_subscription plan now a).1
unfolding upgrade_subscription
upgrade_may_overflow plan now a alive full =
    simp (not_deleted a alive) (refl, λ v. full (v.stored, v.counted))

-- Storage that is allocated and then freed leaves the usage as it was.
pub deallocate-allocate :
    (size : StorageSize) (now later : ℕ) (a : CustomerAccount)
    → (allocate_storage size now a).0 ≡ none
    → to_megabytes
        (deallocate_storage size later (allocate_storage size now a).1).1.current_storage_usage
      ≡ to_megabytes a.current_storage_usage
unfolding allocate_storage deallocate_storage
deallocate-allocate size now later a done = ground arith

-- Under a quota above zero, an allocation goes through exactly if the account is active, its
-- subscription has not expired and the total stays within the quota.
pub allocate_storage_exact :
    (size : StorageSize) (now : ℕ) (a : CustomerAccount)
    → 0 < to_megabytes a.subscription.storage_quota
    → ((allocate_storage size now a).0 ≡ none) ↔ (
        (a.status ≡ active)
        × (is_expired now a.subscription ≡ false)
        × (to_megabytes a.current_storage_usage + to_megabytes size
            ≤ to_megabytes a.subscription.storage_quota))
unfolding allocate_storage
allocate_storage_exact size now a quota = (λ h. ground arith, λ h. ground arith)

-- Under a quota above zero, an allocation that goes through adds the size, and announces the usage
-- if it has come to nine tenths of the quota or more; one that does not changes nothing.
pub allocate_storage_effect :
    (size : StorageSize) (now : ℕ) (a : CustomerAccount)
    → 0 < to_megabytes a.subscription.storage_quota
    → let (e, a') = allocate_storage size now a in
      let total = to_megabytes a.current_storage_usage + to_megabytes size in
      let quota = to_megabytes a.subscription.storage_quota in
      ((e ≢ none) × (a' ≡ a))
      ⊎ ((e ≡ none)
          × (to_megabytes a'.current_storage_usage ≡ total)
          × (a'.database_count ≡ a.database_count)
          × (a'.events ≡ (
              if leb (quota * 9) (total * 10)
              then a.events ++ storage_quota_exceeded total quota ∷ []
              else a.events)))
unfolding allocate_storage
allocate_storage_effect size now a positive = elim (Bool-cases (can_upload_file size now a)) [
  | inl e ↦ inr (ground arith)
  | inr e ↦ inl (ground arith, ground arith)
]
