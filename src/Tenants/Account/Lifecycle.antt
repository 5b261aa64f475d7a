-- ===== src/Tenants/Account/Lifecycle.antt =====
-- The account's status and its API key.
use kuzu_event_bus.Prelude.{ℕ, ◌≡◌, ◌≢◌, String, true, false, none, some, List, [], ◌∷◌, arith}
use kuzu_event_bus.Tenants.Account.{
  CustomerAccount, active, deleted, inactive_key, Call, suspend, call, run, suspend_account,
  activate_account, can_create_database, can_upload_file, update_last_login,
  increment_database_count, allocate_storage, is_expired,
}
use kuzu_event_bus.Tenants.Storage.{StorageSize}

-- No call revives a deleted account.
call-deleted :
    (c : Call) (now : ℕ) (a : CustomerAccount)
    → a.status ≡ deleted
    → (call c now a).1.status ≡ deleted
unfolding call
call-deleted (suspend reason) now a h = ground arith
call-deleted _ now a h = ground arith

-- Deletion is final: whatever is called on a deleted account, it stays deleted, creates no database
-- and takes no file.
pub run-deleted :
    (cs : List (ℕ × Call)) (a : CustomerAccount) (now : ℕ) (size : StorageSize)
    → a.status ≡ deleted
    → ((run cs a).status ≡ deleted)
      × (can_create_database now (run cs a) ≡ false)
      × (can_upload_file size now (run cs a) ≡ false)
unfolding run can_create_database can_upload_file
run-deleted [] a now size h = ground arith
run-deleted ((t, c) ∷ cs) a now size h =
    run-deleted cs (call c t a).1 now size (call-deleted c t a h)

-- Suspending an account that was not deleted or suspended takes its key out of use, so that no login
-- goes through; activating it again while the subscription runs gives it the fresh key, active, and
-- it is no longer suspended.
pub suspend_then_activate :
    (reason : String) (t u v fresh : ℕ) (a : CustomerAccount)
    → (suspend_account reason t a).0 ≡ none
    → is_expired v a.subscription ≡ false
    → let s = (suspend_account reason t a).1 in
      let (e, b) = activate_account fresh v s in
      ((update_last_login u s).0 ≡ some inactive_key)
      × (e ≡ none)
      × (b.status ≡ active)
      × (b.api_key.value ≡ fresh)
      × (b.api_key.is_active ≡ true)
unfolding suspend_account activate_account update_last_login
suspend_then_activate reason t u v fresh a h live = ground arith

-- An account that is not active, a trial account for one, can create no database and allocate no
-- storage, whatever its plan allows, and such a call changes nothing.
pub inactive_is_refused :
    (size : StorageSize) (now : ℕ) (a : CustomerAccount)
    → a.status ≢ active
    → ((increment_database_count now a).0 ≢ none)
      × ((increment_database_count now a).1 ≡ a)
      × ((allocate_storage size now a).0 ≢ none)
      × ((allocate_storage size now a).1 ≡ a)
unfolding increment_database_count allocate_storage
inactive_is_refused size now a h = (ground arith, ground arith, ground arith, ground arith)
