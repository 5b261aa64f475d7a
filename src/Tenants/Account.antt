-- ===== src/Tenants/Account.antt =====
-- CustomerAccount (backend/src/domain/tenant_management/customer_account.py). A method takes the
-- current time and returns what it raised, if anything, with the account as it leaves it. The value
-- of an API key is a number that is only compared; `generate` is given the fresh one. The threshold
-- of 0.9 is exact.
pub mod Limits
pub mod Lifecycle
use kuzu_event_bus.Prelude.{
  ℕ, ◌+◌, ◌-◌, ◌*◌, String, Bool, true, false, not, ◌&&◌, ◌||◌, Option, none, some, List, [], ◌∷◌,
  ◌++◌, ltb, leb, if◌then◌else◌,
}
use kuzu_event_bus.Tenants.Storage.{StorageSize, megabytes, to_megabytes, ◌⊕◌, ◌⊖◌, exceeds}

pub data AccountStatus : Type 0 where
  active suspended trial expired deleted : AccountStatus

pub data SubscriptionPlan : Type 0 where
  trial_plan basic professional enterprise : SubscriptionPlan

pub data Event : Type 0 where
  account_suspended : String → Event
  account_activated : Event
  storage_quota_exceeded : ℕ → ℕ → Event

pub record ApiKey : Type 0 where
  pub value : ℕ
  pub created_at : ℕ
  pub last_used : Option ℕ
  pub is_active : Bool

pub record SubscriptionDetails : Type 0 where
  pub plan : SubscriptionPlan
  pub storage_quota : StorageSize
  pub max_databases : ℕ
  pub max_concurrent_queries : ℕ
  pub started_at : ℕ
  pub expires_at : Option ℕ

pub record CustomerAccount : Type 0 where
  pub api_key : ApiKey
  pub status : AccountStatus
  pub subscription : SubscriptionDetails
  pub current_storage_usage : StorageSize
  pub database_count : ℕ
  pub updated_at : ℕ
  pub last_login : Option ℕ
  pub events : List Event

pub data AccountError : Type 0 where
  deleted_account already_suspended expired_subscription quota_exceeded : AccountError
  too_many_databases inactive_key zero_division : AccountError

abbrev pub Method : Type 0
Method = ℕ → CustomerAccount → Option AccountError × CustomerAccount

abbrev pub is_status_deleted : AccountStatus → Bool
is_status_deleted deleted = true
is_status_deleted _ = false

abbrev pub is_status_suspended : AccountStatus → Bool
is_status_suspended suspended = true
is_status_suspended _ = false

abbrev pub is_status_active : AccountStatus → Bool
is_status_active active = true
is_status_active _ = false

abbrev pub is_past : ℕ → Option ℕ → Bool
is_past now none = false
is_past now (some expires) = ltb expires now

unfoldable pub is_expired : ℕ → SubscriptionDetails → Bool
is_expired now s = is_past now s.expires_at

unfoldable pub suspend_account : String → Method
suspend_account reason now a =
    if is_status_deleted a.status
    then (some deleted_account, a)
    else if is_status_suspended a.status
    then (some already_suspended, a)
    else (
      none,
      record a {
        status = suspended;
        api_key = record a.api_key { is_active = false };
        updated_at = now;
        events = a.events ++ account_suspended reason ∷ [];
      },
    )

abbrev pub generate : ℕ → ℕ → ApiKey
generate fresh now = record { value = fresh; created_at = now; last_used = none; is_active = true }

unfoldable pub activate_account : ℕ → Method
unfolding is_expired
activate_account fresh now a =
    if is_status_deleted a.status
    then (some deleted_account, a)
    else if is_expired now a.subscription
    then (some expired_subscription, a)
    else (
      none,
      record a {
        status = active;
        api_key = if a.api_key.is_active then a.api_key else generate fresh now;
        updated_at = now;
        events = a.events ++ account_activated ∷ [];
      },
    )

unfoldable pub can_create_database : ℕ → CustomerAccount → Bool
unfolding is_expired
can_create_database now a =
    is_status_active a.status
    && ltb a.database_count a.subscription.max_databases
    && not (is_expired now a.subscription)

unfoldable pub can_upload_file : StorageSize → ℕ → CustomerAccount → Bool
unfolding is_expired
can_upload_file file_size now a =
    if not (is_status_active a.status)
    then false
    else if is_expired now a.subscription
    then false
    else not (exceeds (a.current_storage_usage ⊕ file_size) a.subscription.storage_quota)

-- Usage at or above nine tenths of the quota is announced, with its percentage: a quota of zero is
-- divided by.
abbrev pub announce : CustomerAccount → Option AccountError × CustomerAccount
announce a =
    let quota = to_megabytes a.subscription.storage_quota in
    let usage = to_megabytes a.current_storage_usage in
    if leb (quota * 9) (usage * 10)
    then (if ltb 0 quota
        then (none, record a { events = a.events ++ storage_quota_exceeded usage quota ∷ [] })
        else (some zero_division, a))
    else (none, a)

unfoldable pub allocate_storage : StorageSize → Method
unfolding can_upload_file
allocate_storage size now a =
    if can_upload_file size now a
    then announce
        (record a { current_storage_usage = a.current_storage_usage ⊕ size; updated_at = now })
    else (some quota_exceeded, a)

unfoldable pub deallocate_storage : StorageSize → Method
deallocate_storage size now a =
    (none, record a { current_storage_usage = a.current_storage_usage ⊖ size; updated_at = now })

unfoldable pub increment_database_count : Method
unfolding can_create_database
increment_database_count now a =
    if can_create_database now a
    then (none, record a { database_count = a.database_count + 1; updated_at = now })
    else (some too_many_databases, a)

unfoldable pub decrement_database_count : Method
decrement_database_count now a =
    if ltb 0 a.database_count
    then (none, record a { database_count = a.database_count - 1; updated_at = now })
    else (none, a)

-- The login time is written before the key is looked at.
unfoldable pub update_last_login : Method
update_last_login now a =
    let a' = record a { last_login = some now } in
    if a.api_key.is_active
    then (none, record a' { api_key = record a.api_key { last_used = some now } })
    else (some inactive_key, a')

abbrev pub plan_storage_mb : SubscriptionPlan → ℕ
plan_storage_mb trial_plan = 100
plan_storage_mb basic = 1000
plan_storage_mb professional = 10000
plan_storage_mb enterprise = 100000

abbrev pub plan_databases : SubscriptionPlan → ℕ
plan_databases trial_plan = 3
plan_databases basic = 10
plan_databases professional = 50
plan_databases enterprise = 1000

abbrev pub plan_queries : SubscriptionPlan → ℕ
plan_queries trial_plan = 5
plan_queries basic = 20
plan_queries professional = 100
plan_queries enterprise = 1000

abbrev pub details_of : SubscriptionPlan → ℕ → SubscriptionDetails
details_of plan now = record {
  plan = plan;
  storage_quota = megabytes (plan_storage_mb plan);
  max_databases = plan_databases plan;
  max_concurrent_queries = plan_queries plan;
  started_at = now;
  expires_at = none;
}

unfoldable pub upgrade_subscription : SubscriptionPlan → Method
upgrade_subscription plan now a =
    if is_status_deleted a.status
    then (some deleted_account, a)
    else (none, record a { subscription = details_of plan now; updated_at = now })

-- The methods that change an account, as calls.
pub data Call : Type 0 where
  suspend : String → Call
  activate : ℕ → Call
  allocate : StorageSize → Call
  deallocate : StorageSize → Call
  increment : Call
  decrement : Call
  login : Call
  upgrade : SubscriptionPlan → Call

unfoldable pub call : Call → Method
unfolding suspend_account activate_account allocate_storage deallocate_storage
    increment_database_count decrement_database_count update_last_login upgrade_subscription
call (suspend reason) = suspend_account reason
call (activate fresh) = activate_account fresh
call (allocate size) = allocate_storage size
call (deallocate size) = deallocate_storage size
call increment = increment_database_count
call decrement = decrement_database_count
call login = update_last_login
call (upgrade plan) = upgrade_subscription plan

-- Calls one after the other, each at its time; an error ends only its own call.
unfoldable pub run : List (ℕ × Call) → CustomerAccount → CustomerAccount
run [] a = a
run ((now, c) ∷ cs) a = run cs (call c now a).1
